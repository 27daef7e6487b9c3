-- ===== src/Verifier/Orchestrator.antt =====
-- verifier/orchestrator.py: one scenario against the running services, and the executions and the
-- outcome that the three captures give. The clock and the random identifiers are arguments.
pub mod Lab
pub mod Scenario
pub mod Run
pub mod Demo
pub mod Finish
pub mod Session
pub mod Output
pub mod Staged
use Prim.Native.String.{◌++◌ as concat}
use fixrepro.Base.{
  ℕ, String, Bool, true, false, Option, none, some, ◌==◌, nat_eq, string_eq, option_eq, ◌&&◌, ◌||◌,
  not, is_none, if◌then◌else◌, List, [], ◌∷◌, Bytes,
}
use fixrepro.Core.Errors.{PyError, Result, ok, raise, verification_error, recursion_error}
use fixrepro.Core.Primitives.{Primitives}
use fixrepro.Core.Models.{DeviceState}
use fixrepro.Core.Package.{DecodedPackage}
use fixrepro.Core.Evaluation.{Decision}
use fixrepro.Core.Gateway.{GatewayResponse, StateDocument, dump_of, other}
use fixrepro.Core.DeviceClient.{Reply, request_error, response, nested}
use fixrepro.Verifier.Models.{
  ExecutionRole, vulnerable, patched, positive_control, ObservedDecision, accepted, rejected, error,
  SecurityVerdict, SignerTrust, trusted, untrusted, PackageEvidence, VerificationOutcome,
  RequestEvidence, ResponseEvidence, DeviceStateEvidence, ArtifactRecord, ExecutionEvidence,
  state_eq,
}
use fixrepro.Verifier.Verdicts.{calculate_individual_verdict, calculate_verification_outcome}

pub record ScenarioDefinition : Type 0 where
  pub role : ExecutionRole
  pub gateway_port : ℕ
  pub build_id : String
  pub package_bytes : Bytes
  pub decoded : DecodedPackage
  pub package_bundle_path : String
  pub signer_trust : SignerTrust
  pub secure_expected_decision : ObservedDecision

-- `new_execution_id` and the two calls of `utc_timestamp`.
pub record Stamp : Type 0 where
  pub execution_id : String
  pub started_at : String
  pub finished_at : String

pub record ScenarioCapture : Type 0 where
  pub definition : ScenarioDefinition
  pub stamp : Stamp
  pub reset_confirmed : Bool
  pub request : RequestEvidence
  pub response : ResponseEvidence
  pub gateway_response : Option GatewayResponse
  pub device_state_before : DeviceStateEvidence
  pub device_state_after : DeviceStateEvidence

-- A gateway's reply: `httpx.RequestError`; a document that is nested too deeply, on which
-- `response.json()` raises RecursionError; or a status, the body, and the document that
-- `GatewayResponse.model_validate(response.json())` accepts.
pub data GatewayReply : Type 0 where
  unreachable nested_reply : GatewayReply
  reply : (status_code : ℕ) → (content : Bytes) → Option GatewayResponse → GatewayReply

-- The HTTP client over the running services.
pub record Client {ℓ} (W : Type ℓ) : Type ℓ where
  pub post_reset : W → Reply × W
  pub get_state : W → Reply × W
  pub poll : W → Bool × W  -- whether all service processes still run
  pub post_update : ℕ → Bytes → W → GatewayReply × W

-- `_device_state`
unfoldable pub device_state : DeviceState → DeviceStateEvidence
device_state s = record {
  firmware_version = s.firmware_version;
  update_counter = s.update_counter;
  last_payload_sha256 = s.last_payload_sha256;
}

-- `_parse_device_response` and the `except` before it.
unfoldable pub parse_device_response : Reply → String → Result DeviceStateEvidence
parse_device_response Reply.request_error operation =
    raise (verification_error (concat (concat "device " operation) " request failed"))
parse_device_response (response status_code body) operation =
    if not (status_code == 200)
    then raise (verification_error (concat (concat "device " operation) " returned an HTTP error"))
    else elim body [
      | some s ↦ ok (device_state s)
      | none ↦ raise (
          verification_error (concat (concat "device " operation) " returned malformed state JSON"))
    ]
parse_device_response (nested status_code) operation =
    if not (status_code == 200)
    then raise (verification_error (concat (concat "device " operation) " returned an HTTP error"))
    else raise recursion_error

unfoldable pub is_reset : DeviceStateEvidence → Bool
is_reset s = s.firmware_version == "1.0.0" && s.update_counter == 0 && is_none s.last_payload_sha256

-- `ObservedDecision(gateway.decision)`
unfoldable pub observed : Decision → ObservedDecision
observed Decision.accepted = accepted
observed Decision.rejected = rejected
observed Decision.error = error

-- A dict that is no dump of a device state, such as `{}`, conflicts with every observation.
unfoldable pub conflicts : StateDocument → DeviceStateEvidence → Bool
conflicts (other document) seen = true
conflicts (dump_of recorded) seen = not (device_state recorded == seen)

-- The decision and the reason that are recorded, given the states that were seen.
unfoldable pub observe :
    Option GatewayResponse → DeviceStateEvidence → DeviceStateEvidence → ObservedDecision × String
observe none before after = (error, "MALFORMED_RESPONSE")
observe (some g) before after =
    if conflicts g.device_state_before before || conflicts g.device_state_after after
    then (error, "CONFLICTING_OBSERVATION")
    else (observed g.decision, g.reason_code)

module _ (prim : Primitives) where
  unfoldable pub make_capture :
      ScenarioDefinition
      → Stamp
      → DeviceStateEvidence
      → ℕ
      → Bytes
      → Option GatewayResponse
      → DeviceStateEvidence
      → ScenarioCapture
  make_capture definition stamp before status_code content gateway after =
      let (decision, reason_code) = observe gateway before after in
      record {
        definition = definition;
        stamp = stamp;
        reset_confirmed = is_reset before;
        request = record {
          method = "POST";
          path = "/api/v1/updates";
          content_type = "application/json";
          body_sha256 = prim.sha256_hex definition.package_bytes;
        };
        response = record {
          http_status = status_code;
          decision = decision;
          reason_code = reason_code;
          body_sha256 = prim.sha256_hex content;
        };
        gateway_response = gateway;
        device_state_before = before;
        device_state_after = after;
      }

  module _ {ℓ} {W : Type ℓ} (client : Client W) where
    -- After the gateway's reply: read the device and compare.
    unfoldable pub finish_scenario :
        ScenarioDefinition
        → Stamp
        → DeviceStateEvidence
        → GatewayReply
        → W
        → Result ScenarioCapture × W
    finish_scenario definition stamp before unreachable w =
        (raise (verification_error "gateway request failed"), w)
    finish_scenario definition stamp before nested_reply w = (raise recursion_error, w)
    finish_scenario definition stamp before (reply status_code content gateway) w =
        let (after, w') = client.get_state w in
        (
          elim (parse_device_response after "state") [
            | raise e ↦ raise e
            | ok s ↦ ok (make_capture definition stamp before status_code content gateway s)
          ],
          w',
        )

    -- `_execute_scenario`
    unfoldable pub execute_scenario : ScenarioDefinition → Stamp → W → Result ScenarioCapture × W
    execute_scenario definition stamp w =
        let (state, w₁) = client.post_reset w in
        elim (parse_device_response state "reset") [
          | raise e ↦ (raise e, w₁)
          | ok before ↦
              let (answer, w₂) =
                client.post_update definition.gateway_port definition.package_bytes w₁ in
              finish_scenario definition stamp before answer w₂
        ]

    -- `assert_services_running`
    unfoldable pub assert_running : W → Result (Unit {0}) × W
    assert_running w =
        let (running, w') = client.poll w in
        (if running then ok tt else raise (verification_error "a service exited unexpectedly"), w')

    -- The loop over the definitions, with a check of the services before each and at the end; the first
    -- exception ends it.
    unfoldable pub execute_all :
        List (ScenarioDefinition × Stamp) → W → Result (List ScenarioCapture) × W
    execute_all [] w =
        let (checked, w') = assert_running w in
        (elim checked [ raise e ↦ raise e | ok _ ↦ ok [] ], w')
    execute_all ((definition, stamp) ∷ rest) w =
        let (checked, w₁) = assert_running w in
        elim checked [
          | raise e ↦ (raise e, w₁)
          | ok _ ↦
              let (captured, w₂) = execute_scenario definition stamp w₁ in
              elim captured [
                | raise e ↦ (raise e, w₂)
                | ok c ↦
                    let (more, w₃) = execute_all rest w₂ in
                    (elim more [ raise e ↦ raise e | ok cs ↦ ok (c ∷ cs) ], w₃)
              ]
        ]

  -- `_execution_from_capture`; the raw record's file has been written and measured.
  unfoldable pub execution_from_capture : ArtifactRecord → ScenarioCapture → ExecutionEvidence
  execution_from_capture raw_artifact c =
      let initial : ExecutionEvidence = record {
        execution_id = c.stamp.execution_id;
        role = c.definition.role;
        build_id = c.definition.build_id;
        started_at = c.stamp.started_at;
        finished_at = c.stamp.finished_at;
        package_evidence = record {
          filename = c.definition.package_bundle_path;
          sha256 = c.definition.decoded.envelope.manifest.payload_sha256;
          envelope_sha256 = prim.sha256_hex c.definition.package_bytes;
          signer_fingerprint = c.definition.decoded.envelope.signer_fingerprint;
          signer_trust = c.definition.signer_trust;
        };
        request = c.request;
        response = c.response;
        device_state_before = c.device_state_before;
        device_state_after = c.device_state_after;
        secure_expected_decision = c.definition.secure_expected_decision;
        observed_decision = c.response.decision;
        security_verdict = SecurityVerdict.inconclusive;
        artifacts = raw_artifact ∷ [];
      } in
      record initial { security_verdict = calculate_individual_verdict initial }

-- The three definitions of `run`; the first two carry the same bytes.
abbrev pub vulnerable_scenario : Bytes → DecodedPackage → ScenarioDefinition
vulnerable_scenario untrusted_bytes untrusted_package = record {
  role = vulnerable;
  gateway_port = 8101;
  build_id = "FIXREPRO-VULNERABLE-OTA-1";
  package_bytes = untrusted_bytes;
  decoded = untrusted_package;
  package_bundle_path = "packages/untrusted-update.json";
  signer_trust = untrusted;
  secure_expected_decision = rejected;
}

abbrev pub patched_scenario : Bytes → DecodedPackage → ScenarioDefinition
patched_scenario untrusted_bytes untrusted_package = record {
  role = patched;
  gateway_port = 8102;
  build_id = "FIXREPRO-PATCHED-OTA-1";
  package_bytes = untrusted_bytes;
  decoded = untrusted_package;
  package_bundle_path = "packages/untrusted-update.json";
  signer_trust = untrusted;
  secure_expected_decision = rejected;
}

abbrev pub positive_scenario : Bytes → DecodedPackage → ScenarioDefinition
positive_scenario trusted_bytes trusted_package = record {
  role = positive_control;
  gateway_port = 8102;
  build_id = "FIXREPRO-PATCHED-OTA-1";
  package_bytes = trusted_bytes;
  decoded = trusted_package;
  package_bundle_path = "packages/trusted-update.json";
  signer_trust = trusted;
  secure_expected_decision = accepted;
}

unfoldable pub definitions :
    Bytes → DecodedPackage → Bytes → DecodedPackage → List ScenarioDefinition
definitions untrusted_bytes untrusted_package trusted_bytes trusted_package =
    vulnerable_scenario untrusted_bytes untrusted_package
    ∷ patched_scenario untrusted_bytes untrusted_package
    ∷ positive_scenario trusted_bytes trusted_package
    ∷ []

-- Each scenario with its stamp.
abbrev pub stamped : List ScenarioDefinition → List Stamp → List (ScenarioDefinition × Stamp)
stamped (d ∷ ds) (s ∷ ss) = (d, s) ∷ stamped ds ss
stamped _ _ = []

module _ (prim : Primitives) (raw_artifact : ScenarioCapture → ArtifactRecord) where
  -- `tuple(_execution_from_capture(staged, capture) for capture in captures)`
  unfoldable pub executions_of : List ScenarioCapture → List ExecutionEvidence
  executions_of [] = []
  executions_of (c ∷ cs) = execution_from_capture prim (raw_artifact c) c ∷ executions_of cs

  -- The part of `run` from the scenarios to the outcome.
  unfoldable pub run_scenarios {ℓ} :
      {W : Type ℓ}
      → Client W
      → List (ScenarioDefinition × Stamp)
      → W
      → Result (List ExecutionEvidence × Option VerificationOutcome) × W
  run_scenarios client scenarios w =
      let (captures, w') = execute_all prim client scenarios w in
      (
        elim captures [
          | raise e ↦ raise e
          | ok cs ↦ ok (executions_of cs, calculate_verification_outcome (executions_of cs))
        ],
        w',
      )
