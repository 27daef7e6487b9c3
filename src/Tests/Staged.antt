-- ===== src/Tests/Staged.antt =====
-- A capture of the vulnerable gateway whose raw record is read back.
use fixrepro.Base.{
  ◌≡◌, ◌↔◌, refl, true, String, Option, none, some, ◌==◌, nat_eq, list_eq, if◌then◌else◌, [], ◌∷◌,
  Bytes, codes, inl,
}
use fixrepro.Core.Models.{DeviceState}
use fixrepro.Core.Evaluation.{GatewayRole, Decision}
use fixrepro.Core.Gateway.{GatewayResponse, dump_of}
use fixrepro.Verifier.Models.{DeviceStateEvidence}
use fixrepro.Verifier.Bundle.{RawScenarioRecord, raw_record_failures}
use fixrepro.Verifier.Orchestrator.{
  Stamp, ScenarioCapture, vulnerable_scenario, device_state, is_reset, make_capture, conflicts,
}
use fixrepro.Verifier.Orchestrator.Staged.{raw_path, raw_capture, stage_capture}
use fixrepro.Verifier.Orchestrator.Staged.Recorded.{IsConsistent, raw_capture_accepted_iff}
use fixrepro.Tests.Toy.{toy, untrusted_raw, untrusted_package, digest, key_digest}

abbrev stamp : Stamp
stamp = record { execution_id = "EX-VULNERABLE-1"; started_at = "t1"; finished_at = "t2" }

abbrev first_state : DeviceState
first_state = record { firmware_version = "1.0.0"; update_counter = 0; last_payload_sha256 = none }

abbrev second_state : DeviceState
second_state = record {
  firmware_version = "9.9.0-test";
  update_counter = 1;
  last_payload_sha256 = some digest;
}

abbrev seen : DeviceState → DeviceStateEvidence
seen s = record {
  firmware_version = s.firmware_version;
  update_counter = s.update_counter;
  last_payload_sha256 = s.last_payload_sha256;
}

abbrev accepted_response : GatewayResponse
accepted_response = record {
  gateway_role = GatewayRole.vulnerable;
  decision = Decision.accepted;
  reason_code = "CHECKSUM_ONLY_ACCEPTED";
  package_id = "ota-1";
  firmware_version = "9.9.0-test";
  payload_sha256 = digest;
  signer_fingerprint = key_digest;
  device_state_before = dump_of first_state;
  device_state_after = dump_of second_state;
}

abbrev capture : ScenarioCapture
capture =
    make_capture toy (vulnerable_scenario untrusted_raw untrusted_package) stamp (seen first_state)
      200 (1 ∷ 2 ∷ []) (some accepted_response) (seen second_state)

-- A file holds the identifier of the run, and only this run's is valid.
abbrev dump_json : RawScenarioRecord → Bytes
dump_json r = codes r.execution_id

abbrev validate_raw : Bytes → Option RawScenarioRecord
validate_raw raw = if raw == codes "EX-VULNERABLE-1" then some (raw_capture capture) else none

abbrev read_bytes : String → Option Bytes
read_bytes _ = some (codes "EX-VULNERABLE-1")

read_back : validate_raw (dump_json (raw_capture capture)) ≡ some (raw_capture capture)
unfolding raw_capture make_capture
read_back = refl

stored : read_bytes (raw_path capture.definition.role) ≡ some (dump_json (raw_capture capture))
unfolding raw_capture make_capture
stored = refl

raw_capture_accepted_iff_example :
    (raw_record_failures validate_raw read_bytes (stage_capture toy dump_json capture) ≡ []) ↔ (
      (is_reset (seen first_state) ≡ true)
      × IsConsistent (some accepted_response) (seen first_state) (seen second_state))
raw_capture_accepted_iff_example =
    raw_capture_accepted_iff toy dump_json validate_raw read_bytes
      (vulnerable_scenario untrusted_raw untrusted_package) stamp (seen first_state)
      (seen second_state) 200 (1 ∷ 2 ∷ []) (some accepted_response) read_back stored

capture-IsConsistent :
    (is_reset (seen first_state) ≡ true)
    × IsConsistent (some accepted_response) (seen first_state) (seen second_state)
unfolding is_reset conflicts device_state
capture-IsConsistent = (refl, (accepted_response, refl, inl (refl, refl)))
