-- ===== src/Core/DeviceClient.antt =====
-- fixrepro_core/device_client.py: the HTTP client of the device, over an interface that stands for
-- the network and whatever answers behind it.
use fixrepro.Base.{ℕ, String, Option, none, some, ◌==◌, nat_eq, if◌then◌else◌, not, is_sha256, ◌&&◌}
use fixrepro.Core.Errors.{
  Result, ok, raise, value_error, device_unavailable, device_apply_failed, recursion_error,
}
use fixrepro.Core.Config.{ParsedUrl, require_local}
use fixrepro.Core.Models.{DeviceState, DeviceApplyRequest, within}

-- What an exchange gives: `httpx.RequestError`; a status with the document that
-- `DeviceState.model_validate(response.json())` accepts, none if it raises ValueError or TypeError; or a
-- status with a document that is nested too deeply, on which `response.json()` raises RecursionError.
pub data Reply : Type 0 where
  request_error : Reply
  response : (status_code : ℕ) → Option DeviceState → Reply
  nested : (status_code : ℕ) → Reply

-- The device endpoint over a world of which the client sees only the replies, and what `urlparse` makes of
-- the URL that is configured for it.
pub record Endpoint {ℓ} (W : Type ℓ) : Type ℓ where
  pub device_url : ParsedUrl
  pub get : W → Reply × W
  pub post_apply : DeviceApplyRequest → W → Reply × W

unfoldable pub read_state : Reply → Result DeviceState
read_state request_error = raise (device_unavailable "virtual device state endpoint is unavailable")
read_state (response status_code body) =
    if not (status_code == 200)
    then raise (device_unavailable "virtual device state returned an HTTP error")
    else elim body [
      | some s ↦ ok s
      | none ↦ raise (device_unavailable "virtual device returned an invalid state document")
    ]
read_state (nested status_code) =
    if not (status_code == 200)
    then raise (device_unavailable "virtual device state returned an HTTP error")
    else raise recursion_error

unfoldable pub read_apply : Reply → Result DeviceState
read_apply request_error = raise (device_unavailable "virtual device apply endpoint is unavailable")
read_apply (response status_code body) =
    if not (status_code == 200)
    then raise (device_apply_failed "virtual device apply returned an HTTP error")
    else elim body [
      | some s ↦ ok s
      | none ↦ raise (device_apply_failed "virtual device returned an invalid apply response")
    ]
read_apply (nested status_code) =
    if not (status_code == 200)
    then raise (device_apply_failed "virtual device apply returned an HTTP error")
    else raise recursion_error

-- `DeviceApplyRequest(...)` validates its fields.
unfoldable pub apply_request : String → String → Result DeviceApplyRequest
apply_request firmware_version payload_sha256 =
    if within 1 64 firmware_version && is_sha256 payload_sha256
    then ok (record { firmware_version = firmware_version; payload_sha256 = payload_sha256 })
    else raise (value_error "DeviceApplyRequest")

module _ {ℓ} {W : Type ℓ} (endpoint : Endpoint W) where
  unfoldable pub get_device_state : W → Result DeviceState × W
  get_device_state w = elim (require_local endpoint.device_url) [
    | raise e ↦ (raise e, w)
    | ok base_url ↦ let (reply, w') = endpoint.get w in (read_state reply, w')
  ]

  unfoldable pub apply_device_update : String → String → W → Result DeviceState × W
  apply_device_update firmware_version payload_sha256 w = elim (require_local endpoint.device_url) [
    | raise e ↦ (raise e, w)
    | ok base_url ↦ elim (apply_request firmware_version payload_sha256) [
      | raise e ↦ (raise e, w)
      | ok request ↦ let (reply, w') = endpoint.post_apply request w in (read_apply reply, w')
    ]
  ]
