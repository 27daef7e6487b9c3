-- ===== src/Verifier/Orchestrator/Staged.antt =====
-- verifier/orchestrator.py: the raw record of a capture, its file, and the execution that refers to it. How a
-- record is written as a file is an argument.
pub mod Recorded
use fixrepro.Base.{ℕ, String, true, Option, none, some, List, [], ◌∷◌, length, Bytes}
use fixrepro.Core.Json.{null, bool, int, text, obj, Value, end, field, Fields}
use fixrepro.Core.Primitives.{Primitives}
use fixrepro.Core.Models.{DeviceState}
use fixrepro.Core.Evaluation.{GatewayRole, Decision}
use fixrepro.Core.Gateway.{GatewayResponse, StateDocument, dump_of, other}
use fixrepro.Verifier.Models.{
  ExecutionRole, vulnerable, patched, positive_control, ArtifactRecord, ExecutionEvidence,
}
use fixrepro.Verifier.Bundle.{RawScenarioRecord}
use fixrepro.Verifier.Orchestrator.{ScenarioCapture, execution_from_capture}

abbrev pub role_value : GatewayRole → String
role_value GatewayRole.vulnerable = "VULNERABLE"
role_value GatewayRole.patched = "PATCHED"

abbrev pub decision_value : Decision → String
decision_value Decision.accepted = "ACCEPTED"
decision_value Decision.rejected = "REJECTED"
decision_value Decision.error = "ERROR"

-- The dict of the response.
unfoldable pub dump_state : StateDocument → Value
dump_state (other document) = obj document
dump_state (dump_of s) = obj (
    field "firmware_version" (text s.firmware_version) (
      field "update_counter" (int s.update_counter) (
        field "last_payload_sha256"
          (elim s.last_payload_sha256 [ none ↦ null | some digest ↦ text digest ]) end)))

-- `gateway_document`: `gateway.model_dump(mode="json")`, or the mark of a malformed response.
unfoldable pub gateway_document : Option GatewayResponse → Fields
unfolding dump_state
gateway_document none = field "malformed_response" (bool true) end
gateway_document (some g) = field "gateway_role" (text (role_value g.gateway_role)) (
    field "decision" (text (decision_value g.decision)) (
      field "reason_code" (text g.reason_code) (
        field "package_id" (text g.package_id) (
          field "firmware_version" (text g.firmware_version) (
            field "payload_sha256" (text g.payload_sha256) (
              field "signer_fingerprint" (text g.signer_fingerprint) (
                field "device_state_before" (dump_state g.device_state_before)
                  (field "device_state_after" (dump_state g.device_state_after) end))))))))

-- `_raw_path`
unfoldable pub raw_path : ExecutionRole → String
raw_path vulnerable = "raw/vulnerable.json"
raw_path patched = "raw/patched.json"
raw_path positive_control = "raw/positive-control.json"

-- The record that `_write_raw_capture` writes.
unfoldable pub raw_capture : ScenarioCapture → RawScenarioRecord
unfolding gateway_document
raw_capture c = record {
  execution_id = c.stamp.execution_id;
  role = c.definition.role;
  started_at = c.stamp.started_at;
  finished_at = c.stamp.finished_at;
  reset_confirmed = c.reset_confirmed;
  request = c.request;
  gateway_response = gateway_document c.gateway_response;
  device_state_before = c.device_state_before;
  device_state_after = c.device_state_after;
}

module _ (prim : Primitives) where
  -- `artifact_record` of a file with that content.
  unfoldable pub artifact_record : String → Bytes → String → ArtifactRecord
  artifact_record relative_path content media_type = record {
    path = relative_path;
    sha256 = prim.sha256_hex content;
    size_bytes = length content;
    media_type = media_type;
  }

  -- `_execution_from_capture`, the file of the raw record included.
  unfoldable pub stage_capture : (RawScenarioRecord → Bytes) → ScenarioCapture → ExecutionEvidence
  unfolding artifact_record raw_path raw_capture
  stage_capture dump_json c =
      execution_from_capture prim
        (artifact_record (raw_path c.definition.role) (dump_json (raw_capture c))
          "application/json")
        c
