-- ===== src/Verifier/Bundle.antt =====
-- verifier/bundle.py: the checks of what an evidence document says about the bundle's files. The
-- directory is given as the code sees it: the content of a path that is a file and no symlink.
pub mod Records
pub mod Raw
use fixrepro.Base.{
  ℕ, String, Bool, true, false, not, ◌&&◌, Option, none, some, ◌==◌, nat_eq, string_eq, option_eq,
  if◌then◌else◌, List, [], ◌∷◌, ◌++◌, length, contains, Bytes, ◌⊎◌, inl, inr,
}
use fixrepro.Core.Errors.{Result, ok, raise, ◌>>=◌, ◌>>◌, package_validation}
use fixrepro.Core.Json.{Fields, get_text}
use fixrepro.Core.Primitives.{Primitives}
use fixrepro.Core.Package.{
  DecodedPackage, parse_and_decode_package, verify_payload_integrity, signer_fingerprint,
  verify_manifest_signature,
}
use fixrepro.Verifier.Models.{
  ExecutionRole, vulnerable, patched, positive_control, ObservedDecision, accepted, rejected, error,
  ArtifactRecord, RequestEvidence, DeviceStateEvidence, ExecutionEvidence, role_eq, state_eq,
}
use fixrepro.Verifier.Paths.{PathError, safe_relative_path}

-- `path.is_file() and not path.is_symlink()`, with what `read_bytes` then gives.
abbrev pub BundleFiles : Type 0
BundleFiles = String → Option Bytes

-- The messages that the record checks append.
pub data BundleFailure : Type 0 where
  unsafe_artifact_path unsafe_package_path : String → PathError → BundleFailure
  artifact_unlisted artifact_missing artifact_size artifact_hash : String → BundleFailure
  package_unlisted package_missing package_envelope package_invalid package_payload
        package_fingerprint package_signature :
      String → BundleFailure
  raw_reference raw_invalid : ExecutionRole → BundleFailure
  raw_differs : (label : String) → ExecutionRole → BundleFailure
  raw_reset raw_decision raw_reason : ExecutionRole → BundleFailure

abbrev pub failing : Bool → BundleFailure → List BundleFailure
failing true f = f ∷ []
failing false f = []

module _ (prim : Primitives) where
  -- The comparison of a package that parses with what the execution says of it.
  unfoldable pub package_mismatches :
      ExecutionEvidence → DecodedPackage → Result (List BundleFailure)
  package_mismatches e p = do
    fingerprint ← signer_fingerprint prim p.signer_public_key
    ok (
        failing (not (p.envelope.manifest.payload_sha256 == e.package_evidence.sha256))
          (package_payload e.package_evidence.filename)
        ++ (failing (not (fingerprint == e.package_evidence.signer_fingerprint))
              (package_fingerprint e.package_evidence.filename)
            ++ failing
                (not (
                  verify_manifest_signature prim p.signer_public_key p.envelope.manifest
                    p.signature))
                (package_signature e.package_evidence.filename)))

  -- `try: parse_and_decode_package(raw); verify_payload_integrity(package)`; only
  -- `PackageValidationError` is caught.
  unfoldable pub parse_checked : Bytes → Result DecodedPackage
  parse_checked raw = do
    p ← parse_and_decode_package prim raw
    verify_payload_integrity prim p
    ok p

  unfoldable pub package_content : ExecutionEvidence → Bytes → Result (List BundleFailure)
  package_content e raw = elim (parse_checked raw) [
    | ok p ↦ package_mismatches e p
    | raise (package_validation code message) ↦
        ok (package_invalid e.package_evidence.filename ∷ [])
    | raise other ↦ raise other
  ]

module _ (prim : Primitives) (files : BundleFiles) where
  -- The part of `_record_failures` after the safe path.
  unfoldable pub artifact_content : ArtifactRecord → List BundleFailure
  artifact_content r = elim (files r.path) [
    | none ↦ artifact_missing r.path ∷ []
    | some content ↦
        failing (not (length content == r.size_bytes)) (artifact_size r.path)
        ++ failing (not (prim.sha256_hex content == r.sha256)) (artifact_hash r.path)
  ]

  unfoldable pub record_failures : ArtifactRecord → List String → List BundleFailure
  record_failures r manifest_paths = elim (safe_relative_path r.path) [
    | inl e ↦ unsafe_artifact_path r.path e ∷ []
    | inr _ ↦
        failing (not (contains manifest_paths r.path)) (artifact_unlisted r.path)
        ++ artifact_content r
  ]

  unfoldable pub package_record_failures :
      ExecutionEvidence → List String → Result (List BundleFailure)
  package_record_failures e manifest_paths =
      let filename = e.package_evidence.filename in
      elim (safe_relative_path filename) [
        | inl err ↦ ok (unsafe_package_path filename err ∷ [])
        | inr _ ↦
            let listed =
              failing (not (contains manifest_paths filename)) (package_unlisted filename) in
            elim (files filename) [
              | none ↦ ok (listed ++ (package_missing filename ∷ []))
              | some raw ↦ do
                more ← package_content prim e raw
                ok (
                    listed
                    ++ (failing (not (prim.sha256_hex raw == e.package_evidence.envelope_sha256))
                          (package_envelope filename)
                        ++ more))
            ]
      ]

-- `RawScenarioRecord`, with the keys of the gateway's response.
pub record RawScenarioRecord : Type 0 where
  pub execution_id : String
  pub role : ExecutionRole
  pub started_at : String
  pub finished_at : String
  pub reset_confirmed : Bool
  pub request : RequestEvidence
  pub gateway_response : Fields
  pub device_state_before : DeviceStateEvidence
  pub device_state_after : DeviceStateEvidence

abbrev pub request_beq : RequestEvidence → RequestEvidence → Bool
request_beq a b =
    a.method == b.method
    && a.path == b.path
    && a.content_type == b.content_type
    && a.body_sha256 == b.body_sha256

abbrev pub decision_text : ObservedDecision → String
decision_text accepted = "ACCEPTED"
decision_text rejected = "REJECTED"
decision_text error = "ERROR"

unfoldable pub expected_raw_path : ExecutionRole → String
expected_raw_path vulnerable = "raw/vulnerable.json"
expected_raw_path patched = "raw/patched.json"
expected_raw_path positive_control = "raw/positive-control.json"

-- A failure for each check that does not hold.
abbrev pub report : List (Bool × BundleFailure) → List BundleFailure
report [] = []
report ((holds, f) ∷ more) = let rest = report more in if holds then rest else f ∷ rest

-- The comparisons of a raw record with the execution.
unfoldable pub raw_checks : ExecutionEvidence → RawScenarioRecord → List (Bool × BundleFailure)
raw_checks e r =
    (r.execution_id == e.execution_id, raw_differs "execution ID" e.role)
    ∷ (r.role == e.role, raw_differs "role" e.role)
    ∷ (r.started_at == e.started_at, raw_differs "start time" e.role)
    ∷ (r.finished_at == e.finished_at, raw_differs "finish time" e.role)
    ∷ (request_beq r.request e.request, raw_differs "request" e.role)
    ∷ (r.device_state_before == e.device_state_before, raw_differs "device state before" e.role)
    ∷ (r.device_state_after == e.device_state_after, raw_differs "device state after" e.role)
    ∷ (r.reset_confirmed, raw_reset e.role)
    ∷ (
      get_text "decision" r.gateway_response == some (decision_text e.observed_decision),
      raw_decision e.role,
    )
    ∷ (get_text "reason_code" r.gateway_response == some e.response.reason_code, raw_reason e.role)
    ∷ []

unfoldable pub raw_mismatches : ExecutionEvidence → RawScenarioRecord → List BundleFailure
unfolding raw_checks
raw_mismatches e r = report (raw_checks e r)

-- `len(execution.artifacts) == 1` and the path of that one.
unfoldable pub references : ExecutionEvidence → Bool
unfolding expected_raw_path
references e = elim e.artifacts [
  | [] ↦ false
  | a ∷ [] ↦ a.path == expected_raw_path e.role
  | a ∷ b ∷ more ↦ false
]

-- `model_validate_json` of the raw record is a parameter; a file that cannot be read is `none`.
module _ (validate_raw : Bytes → Option RawScenarioRecord)
    (read_bytes : String → Option Bytes) where
  unfoldable pub read_raw : ExecutionRole → Option RawScenarioRecord
  unfolding expected_raw_path
  read_raw role = elim (read_bytes (expected_raw_path role)) [
    | none ↦ none
    | some raw ↦ validate_raw raw
  ]

  unfoldable pub raw_record_failures : ExecutionEvidence → List BundleFailure
  raw_record_failures e =
      if not (references e)
      then raw_reference e.role ∷ []
      else elim (read_raw e.role) [ none ↦ raw_invalid e.role ∷ [] | some r ↦ raw_mismatches e r ]
