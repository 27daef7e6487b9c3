-- ===== src/Core/Gateway/Safety.antt =====
-- The gateways over the virtual device: what can change its firmware.
use fixrepro.Base.{
  ℕ, ◌≡◌, ◌≢◌, ◌⊎◌, inl, inr, refl, String, some, none, true, Bytes, arith, is_sha256, ◌&&◌, List,
  [], ◌∷◌, All,
}
use fixrepro.Core.Errors.{PyError, Result, ok, raise, Returns}
use fixrepro.Core.Primitives.{Primitives}
use fixrepro.Core.Config.{ParsedUrl, loopback_host, device_port, require_local}
use fixrepro.Core.Models.{DeviceApplyRequest, within, when, state_valid}
use fixrepro.Core.Package.{DecodedPackage, parse_and_decode_package}
use fixrepro.Core.Package.Decoded.{IsIntact, json_escape, parse-applicable}
use fixrepro.Core.Evaluation.{
  GatewayRole, patched, accepted, ReasonCode, trusted_signature_accepted, PolicyResult,
  package_result, http_status_for, evaluate_patched_policy,
}
use fixrepro.Core.Evaluation.Policy.{IsSignedBy, patched_total, patched_sound, patched-accepts_iff}
use fixrepro.Core.DeviceClient.{
  Endpoint, response, read_state, read_apply, apply_request, get_device_state, apply_device_update,
}
use fixrepro.Core.Gateway.{
  dump_of, GatewayResponse, make_response, answer, finish_apply, act_on, process_gateway_update,
}
use fixrepro.Device
use fixrepro.Device.{VirtualDevice, snapshot}

-- What `urlparse` gives for DEFAULT_DEVICE_URL.
abbrev pub local_url : ParsedUrl
local_url = record {
  scheme = "http";
  hostname = some loopback_host;
  port = some (some device_port);
  username = none;
  password = none;
  query = "";
  fragment = "";
  path = "";
}

-- A reachable device at its URL: each route answers 200 with the state that the operation leaves; the client
-- validates the document.
unfoldable pub device_endpoint : Endpoint VirtualDevice
device_endpoint = record {
  device_url = local_url;
  get = λ d. let (s, d') = Device.state d in (response 200 (when (state_valid s) s), d');
  post_apply = λ r d. let (s, d') = Device.apply r d in (response 200 (when (state_valid s) s), d');
}

abbrev pub IsValid : VirtualDevice → Type 0
IsValid d = state_valid (snapshot d) ≡ true

pub init-IsValid : IsValid Device.init
unfolding state_valid within snapshot fixrepro.Base.Text.count_chars
init-IsValid = refl

-- The update that a package asks for.
abbrev pub update_of : DecodedPackage → DeviceApplyRequest
update_of p = record {
  firmware_version = p.envelope.manifest.firmware_version;
  payload_sha256 = p.envelope.manifest.payload_sha256;
}

-- The device after an update.
abbrev pub updated : DecodedPackage → VirtualDevice → VirtualDevice
updated p d = (Device.apply (update_of p) d).1

pub updated-IsValid :
    (p : DecodedPackage) (d : VirtualDevice)
    → (within 1 64 p.envelope.manifest.firmware_version
        && is_sha256 p.envelope.manifest.payload_sha256)
      ≡ true
    → IsValid (updated p d)
unfolding Device.apply snapshot state_valid
updated-IsValid p d h = h

read-device_endpoint :
    (d : VirtualDevice) → IsValid d → get_device_state device_endpoint d ≡ (ok (snapshot d), d)
unfolding get_device_state require_local read_state device_endpoint Device.state
read-device_endpoint d valid = rw valid

apply_request_valid :
    (firmware_version payload_sha256 : String)
    → (within 1 64 firmware_version && is_sha256 payload_sha256) ≡ true
    → apply_request firmware_version payload_sha256
      ≡ ok (record { firmware_version = firmware_version; payload_sha256 = payload_sha256 })
unfolding apply_request
apply_request_valid f h fields = rw fields

apply-device_endpoint :
    (p : DecodedPackage) (d : VirtualDevice)
    → (within 1 64 p.envelope.manifest.firmware_version
        && is_sha256 p.envelope.manifest.payload_sha256)
      ≡ true
    → apply_device_update device_endpoint p.envelope.manifest.firmware_version
        p.envelope.manifest.payload_sha256 d
      ≡ (ok (snapshot (updated p d)), updated p d)
unfolding apply_device_update require_local read_apply device_endpoint Device.apply
apply-device_endpoint p d fields =
    rw (apply_request_valid _ _ fields, apply_device_update) (rw (updated-IsValid p d fields) refl)

-- An acceptance over the device: status 200, the states before and after, and the update applied.
pub accept_applies :
    (raw : Bytes) (role : GatewayRole) (policy : Bytes → Result PolicyResult) (d : VirtualDevice)
    (p : DecodedPackage) (reason : ReasonCode)
    → IsValid d
    → (within 1 64 p.envelope.manifest.firmware_version
        && is_sha256 p.envelope.manifest.payload_sha256)
      ≡ true
    → policy raw ≡ ok (package_result accepted reason p)
    → process_gateway_update device_endpoint raw role policy d ≡ (
      ok (
        200,
        make_response role
            (package_result accepted reason p)
            (dump_of (snapshot d))
            (dump_of (snapshot (updated p d))),
      ),
      updated p d,
    )
unfolding process_gateway_update act_on answer finish_apply package_result
accept_applies raw role policy d p reason valid fields decided =
    rw (read-device_endpoint d valid, process_gateway_update)
      (rw decided (rw (read-device_endpoint d valid) (rw (apply-device_endpoint p d fields) refl)))

-- A result that is no acceptance leaves the device alone.
pub reject_keeps :
    (raw : Bytes) (role : GatewayRole) (policy : Bytes → Result PolicyResult) (d : VirtualDevice)
    (r : PolicyResult)
    → IsValid d
    → policy raw ≡ ok r
    → r.decision ≢ accepted
    → process_gateway_update device_endpoint raw role policy d ≡ (
      ok (http_status_for r, make_response role r (dump_of (snapshot d)) (dump_of (snapshot d))),
      d,
    )
unfolding process_gateway_update act_on answer
reject_keeps raw role policy d r valid decided rejects =
    rw (read-device_endpoint d valid, process_gateway_update)
      (rw decided (rw (read-device_endpoint d valid) (ground arith)))

-- An exception of the policy escapes, and the device is left alone too.
policy_raises :
    (raw : Bytes) (role : GatewayRole) (policy : Bytes → Result PolicyResult) (d : VirtualDevice)
    (x : PyError)
    → IsValid d
    → policy raw ≡ raise x
    → process_gateway_update device_endpoint raw role policy d ≡ (raise x, d)
unfolding process_gateway_update
policy_raises raw role policy d x valid raised =
    rw (read-device_endpoint d valid, process_gateway_update)
      (rw raised (rw (read-device_endpoint d valid) refl))

module _ (prim : Primitives) (key : Bytes) where
  -- The patched gateway's handler over the device.
  abbrev pub submit : Bytes → VirtualDevice → Result (ℕ × GatewayResponse) × VirtualDevice
  submit raw d =
      process_gateway_update device_endpoint raw patched
        (λ body. evaluate_patched_policy prim body key) d

  -- The request body is a package that parses, is intact and is signed by the holder of the key.
  abbrev pub IsAuthentic : Bytes → DecodedPackage → Type 0
  IsAuthentic raw p =
      (parse_and_decode_package prim raw ≡ ok p) × IsIntact prim p × IsSignedBy prim key p

  -- An authentic package is applied: from any valid device state the patched gateway answers 200,
  -- ACCEPTED and TRUSTED_SIGNATURE_ACCEPTED with the states before and after, and the device then
  -- has the manifest's firmware version and payload hash, and a counter that is one higher.
  pub authentic_applies :
      (raw : Bytes) (p : DecodedPackage) (d : VirtualDevice)
      → IsValid d
      → IsAuthentic raw p
      → submit raw d ≡ (
        ok (
          200,
          make_response patched
              (package_result accepted trusted_signature_accepted p)
              (dump_of (snapshot d))
              (dump_of (snapshot (updated p d))),
        ),
        updated p d,
      )
  authentic_applies raw p d valid (parsed, intact, signed) =
      accept_applies raw patched (λ body. evaluate_patched_policy prim body key) d p
        trusted_signature_accepted valid (parse-applicable prim raw p parsed)
        ((patched-accepts_iff prim raw key p parsed).1 (intact, signed))

  -- Nothing else is: a body that is no authentic package leaves a valid device as it was. Either an answer
  -- is returned, with a decision other than ACCEPTED, or `json.loads` raises an exception on the body that
  -- nothing catches (an integer with too many digits, too deep a nesting), and this one escapes.
  pub inauthentic_keeps :
      (raw : Bytes) (d : VirtualDevice)
      → IsValid d
      → ((p : DecodedPackage) → ¬ IsAuthentic raw p)
      → ((submit raw d).1 ≡ d)
        × (Returns (submit raw d).0 (λ sent. sent.1.decision ≢ accepted)
            ⊎ ((x : PyError) × (json_escape prim raw ≡ some x) × ((submit raw d).0 ≡ raise x)))
  inauthentic_keeps raw d valid none_is = by_result (evaluate_patched_policy prim raw key) refl
    where
      by_result :
          (o : Result PolicyResult)
          → evaluate_patched_policy prim raw key ≡ o
          → ((submit raw d).1 ≡ d)
            × (Returns (submit raw d).0 (λ sent. sent.1.decision ≢ accepted)
                ⊎ ((x : PyError) × (json_escape prim raw ≡ some x) × ((submit raw d).0 ≡ raise x)))
      by_result (raise e) h = elim (patched_total prim raw key) [
        | inl returns ↦ absurd (rw h at returns)
        | inr (x, escapes, raised) ↦
            rw
              (policy_raises raw patched (λ body. evaluate_patched_policy prim body key) d x valid
                raised)
              (refl, inr (x, escapes, refl))
      ]
      by_result (ok r) h =
          let rejects : r.decision ≢ accepted = λ a.
            let (p, parsed, intact, signed, _) = patched_sound prim raw key r h a in
            none_is p (parsed, intact, signed) in
          rw
            (reject_keeps raw patched (λ body. evaluate_patched_policy prim body key) d r valid h
              rejects)
            (refl, inl (unfold make_response in rejects))

  -- A history of requests to the patched gateway.
  abbrev pub submit_all : List Bytes → VirtualDevice → VirtualDevice
  submit_all [] d = d
  submit_all (raw ∷ raws) d = submit_all raws (submit raw d).1

  -- No history of requests without an authentic package changes a valid device, however long it is.
  pub firmware_safe :
      (raws : List Bytes) (d : VirtualDevice)
      → IsValid d
      → All (λ raw. (p : DecodedPackage) → ¬ IsAuthentic raw p) raws
      → submit_all raws d ≡ d
  firmware_safe [] d valid h = refl
  firmware_safe (raw ∷ raws) d valid (h, hs) =
      rw ((inauthentic_keeps raw d valid h).0) (firmware_safe raws d valid hs)
