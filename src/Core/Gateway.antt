-- ===== src/Core/Gateway.antt =====
-- fixrepro_core/gateway.py: one update request against a policy and the device endpoint.
pub mod Abstract
pub mod Safety
use fixrepro.Base.{ℕ, String, Bytes}
use fixrepro.Core.Json.{Fields, end}
use fixrepro.Core.Errors.{PyError, Result, ok, raise, device_unavailable, device_apply_failed}
use fixrepro.Core.Models.{DeviceState}
use fixrepro.Core.Evaluation.{
  GatewayRole, Decision, accepted, rejected, error, ReasonCode, reason_value, PolicyResult,
  bare_result, http_status_for,
}
use fixrepro.Core.DeviceClient.{Endpoint, get_device_state, apply_device_update}

-- A `dict[str, Any]` of the response: one that equals, by Python's `==`, the dump of a device state, or any
-- other.
pub data StateDocument : Type 0 where
  dump_of : DeviceState → StateDocument
  other : Fields → StateDocument

-- `{}`
abbrev pub no_state : StateDocument
no_state = other end

pub record GatewayResponse : Type 0 where
  pub gateway_role : GatewayRole
  pub decision : Decision
  pub reason_code : String
  pub package_id : String
  pub firmware_version : String
  pub payload_sha256 : String
  pub signer_fingerprint : String
  pub device_state_before : StateDocument
  pub device_state_after : StateDocument

unfoldable pub make_response :
    GatewayRole → PolicyResult → StateDocument → StateDocument → GatewayResponse
make_response role r before after = record {
  gateway_role = role;
  decision = r.decision;
  reason_code = reason_value r.reason_code;
  package_id = r.package_id;
  firmware_version = r.firmware_version;
  payload_sha256 = r.payload_sha256;
  signer_fingerprint = r.signer_fingerprint;
  device_state_before = before;
  device_state_after = after;
}

-- `return http_status_for(result), _response(role, result, before, after)`
unfoldable pub answer :
    GatewayRole → PolicyResult → StateDocument → StateDocument → Result (ℕ × GatewayResponse)
unfolding make_response http_status_for
answer role r before after = ok (http_status_for r, make_response role r before after)

-- The two `except` clauses of the apply call; any other exception goes on.
unfoldable pub finish_apply :
    GatewayRole → PolicyResult → DeviceState → Result DeviceState → Result (ℕ × GatewayResponse)
unfolding answer
finish_apply role r before (ok state_after) = answer role r (dump_of before) (dump_of state_after)
finish_apply role r before (raise (device_unavailable _)) =
    answer role (record r { decision = error; reason_code = ReasonCode.device_unavailable })
      (dump_of before) (dump_of before)
finish_apply role r before (raise (device_apply_failed _)) =
    answer role (record r { decision = error; reason_code = ReasonCode.device_apply_failed })
      (dump_of before) (dump_of before)
finish_apply role r before (raise e) = raise e

module _ {ℓ} {W : Type ℓ} (endpoint : Endpoint W) where
  -- What follows the policy's result: a rejection changes nothing.
  act_on_decision :
      Decision → GatewayRole → DeviceState → PolicyResult → W → Result (ℕ × GatewayResponse) × W
  act_on_decision accepted role before r w =
      let (applied, w') = apply_device_update endpoint r.firmware_version r.payload_sha256 w in
      (finish_apply role r before applied, w')
  act_on_decision _ role before r w = (answer role r (dump_of before) (dump_of before), w)

  unfoldable pub act_on :
      GatewayRole → DeviceState → PolicyResult → W → Result (ℕ × GatewayResponse) × W
  unfolding act_on_decision
  act_on role before r w = act_on_decision r.decision role before r w

  unfoldable pub process_gateway_update :
      Bytes → GatewayRole → (Bytes → Result PolicyResult) → W → Result (ℕ × GatewayResponse) × W
  process_gateway_update raw_package role policy w =
      let (state_before, w') = get_device_state endpoint w in
      elim state_before [
        | raise (device_unavailable _) ↦
            (answer role (bare_result error ReasonCode.device_unavailable) no_state no_state, w')
        | raise e ↦ (raise e, w')
        | ok before ↦ elim (policy raw_package) [
          | raise e ↦ (raise e, w')
          | ok r ↦ act_on role before r w'
        ]
      ]
