-- ===== src/Core/Gateway/Abstract.antt =====
-- The gateway over any endpoint: whatever the network and the device do.
use fixrepro.Base.{
  ℕ, ◌≡◌, ◌≢◌, ◌↔◌, ◌⊎◌, ◌∙◌, refl, sym, ap, Option, ◌==◌, ==→≡, nat_eq, Bool-cases, String, some,
  true, Bytes, arith, is_sha256, ◌&&◌, inl, inr,
}
use fixrepro.Core.Errors.{
  Result, ok, raise, PyError, value_error, device_unavailable, device_apply_failed, recursion_error,
  Returns, Result-cases, raise-injective,
}
use fixrepro.Core.Primitives.{Primitives}
use fixrepro.Core.Models.{DeviceState, DeviceApplyRequest, within}
use fixrepro.Core.Config.{require_local, require_local-raises}
use fixrepro.Core.Package.{DecodedPackage, parse_and_decode_package}
use fixrepro.Core.Package.Decoded.{json_escape, parse-applicable}
use fixrepro.Core.Evaluation.{
  GatewayRole, vulnerable, patched, Decision, accepted, rejected, error, ReasonCode,
  trusted_signature_accepted, checksum_only_accepted, untrusted_signer, PolicyResult, bare_result,
  package_result, http_status_for, evaluate_patched_policy, evaluate_vulnerable_policy,
}
use fixrepro.Core.Evaluation.Policy.{
  IsSettled, patched_total, vulnerable_total, patched_sound, vulnerable_sound,
}
use fixrepro.Core.DeviceClient.{
  Endpoint, Reply, request_error, response, nested, read_state, read_apply, apply_request,
  get_device_state, apply_device_update,
}
use fixrepro.Core.Gateway.{
  StateDocument, GatewayResponse, answer, finish_apply, act_on, process_gateway_update,
}

-- The HTTP status is 200 exactly for an acceptance, and no other decision shows a state change.
pub record IsCoherent (sent : ℕ × GatewayResponse) : Type 0 where
  pub status_ok : (sent.0 ≡ 200) ↔ (sent.1.decision ≡ accepted)
  pub unchanged :
      sent.1.decision ≢ accepted → sent.1.device_state_before ≡ sent.1.device_state_after

-- 403 is sent exactly for a decision that is no acceptance and has the reason UNTRUSTED_SIGNER.
pub http_403_iff :
    (r : PolicyResult)
    → (http_status_for r ≡ 403) ↔ ((r.decision ≢ accepted) × (r.reason_code ≡ untrusted_signer))
unfolding http_status_for
http_403_iff r = ground arith

answer-IsCoherent :
    (role : GatewayRole) (r : PolicyResult) (s : StateDocument)
    → r.decision ≢ accepted
    → Returns (answer role r s s) IsCoherent
unfolding answer
answer-IsCoherent role r s h = ground arith

read_state_raises :
    (reply : Reply) (e : PyError)
    → read_state reply ≡ raise e
    → ((m : String) × (e ≡ device_unavailable m)) ⊎ ((e ≡ recursion_error) × (reply ≡ nested 200))
unfolding read_state
read_state_raises request_error e h = inl (_, sym (raise-injective h))
read_state_raises (response status body) e h = inl (ground arith)
read_state_raises (nested status) e h = elim (Bool-cases (status == 200)) [
  | inl fine ↦ inr (ground arith, ap (λ n. nested n) (==→≡ status 200 fine))
  | inr bad ↦ inl (ground arith)
]

read_apply_raises :
    (reply : Reply) (e : PyError)
    → read_apply reply ≡ raise e
    → ((m : String) × ((e ≡ device_unavailable m) ⊎ (e ≡ device_apply_failed m)))
      ⊎ ((e ≡ recursion_error) × (reply ≡ nested 200))
unfolding read_apply
read_apply_raises request_error e h = inl (_, inl (sym (raise-injective h)))
read_apply_raises (response status body) e h =
    let failed : (m : String) × (e ≡ device_apply_failed m) = ground arith in
    inl (failed.0, inr failed.1)
read_apply_raises (nested status) e h = elim (Bool-cases (status == 200)) [
  | inl fine ↦ inr (ground arith, ap (λ n. nested n) (==→≡ status 200 fine))
  | inr bad ↦
      let failed : (m : String) × (e ≡ device_apply_failed m) = ground arith in
      inl (failed.0, inr failed.1)
]

decision_cases : (d : Decision) → (d ≡ accepted) ⊎ (d ≢ accepted)
decision_cases accepted = inl refl
decision_cases rejected = inr (λ h. ground arith)
decision_cases error = inr (λ h. ground arith)

module _ {ℓ} {W : Type ℓ} (endpoint : Endpoint W) where
  -- The device answers some request with a document that is nested too deeply.
  abbrev pub IsNested : Type ℓ
  IsNested =
      ((w : W) × ((endpoint.get w).0 ≡ nested 200))
      ⊎ ((request : DeviceApplyRequest) × (w : W) × ((endpoint.post_apply request w).0
            ≡ nested 200))

  -- The exceptions of the device client that the gateway lets through.
  abbrev pub IsClientEscape : PyError → Type ℓ
  IsClientEscape e =
      (require_local endpoint.device_url ≡ raise e) ⊎ ((e ≡ recursion_error) × IsNested)

  get_raises :
      (w : W) (e : PyError)
      → (get_device_state endpoint w).0 ≡ raise e
      → ((m : String) × (e ≡ device_unavailable m)) ⊎ IsClientEscape e
  unfolding get_device_state
  get_raises w e h = elim (Result-cases (require_local endpoint.device_url)) [
    | inr (x, foreign) ↦
        inr (
          inl (foreign ∙ ap (λ x. raise x) (raise-injective (rw (foreign, get_device_state) at h))))
    | inl (url, near) ↦
        elim (read_state_raises (endpoint.get w).0 e (rw (near, get_device_state) at h)) [
          | inl named ↦ inl named
          | inr (is, deep) ↦ inr (inr (is, inl (w, deep)))
        ]
  ]

  apply_raises :
      (firmware_version payload_sha256 : String) (w : W) (e : PyError)
      → (within 1 64 firmware_version && is_sha256 payload_sha256) ≡ true
      → (apply_device_update endpoint firmware_version payload_sha256 w).0 ≡ raise e
      → ((m : String) × ((e ≡ device_unavailable m) ⊎ (e ≡ device_apply_failed m)))
        ⊎ IsClientEscape e
  unfolding apply_device_update apply_request
  apply_raises firmware_version payload_sha256 w e fields h =
      elim (Result-cases (require_local endpoint.device_url)) [
        | inr (x, foreign) ↦ inr (
            inl (
              foreign
              ∙ ap (λ x. raise x) (raise-injective (rw (foreign, apply_device_update) at h))))
        | inl (url, near) ↦
            let request : DeviceApplyRequest = record {
              firmware_version = firmware_version;
              payload_sha256 = payload_sha256;
            } in
            elim (read_apply_raises (endpoint.post_apply request w).0 e
              (rw (near, fields, apply_device_update) at h)) [
                | inl named ↦ inl named
                | inr (is, deep) ↦ inr (inr (is, inr (request, w, deep)))
              ]
      ]

  -- The call returns a coherent answer, or an exception escapes that satisfies `P`.
  abbrev pub Answered : (PyError → Type ℓ) → Result (ℕ × GatewayResponse) → Type ℓ
  Answered P sent = Returns sent IsCoherent ⊎ ((e : PyError) × P e × (sent ≡ raise e))

  finish_apply_ok :
      (role : GatewayRole) (r : PolicyResult) (before after : DeviceState)
      → r.decision ≡ accepted
      → Returns (finish_apply role r before (ok after)) IsCoherent
  unfolding finish_apply answer
  finish_apply_ok role r before after a = ground arith

  finish_apply_caught :
      (role : GatewayRole) (r : PolicyResult) (before : DeviceState) (e : PyError) (m : String)
      → (e ≡ device_unavailable m) ⊎ (e ≡ device_apply_failed m)
      → Returns (finish_apply role r before (raise e)) IsCoherent
  unfolding finish_apply answer
  finish_apply_caught role r before e m (inl is) = rw is (ground arith)
  finish_apply_caught role r before e m (inr is) = rw is (ground arith)

  rejects_returns :
      (role : GatewayRole) (r : PolicyResult) (before : DeviceState) (w : W)
      → r.decision ≢ accepted
      → Returns (act_on endpoint role before r w).0 IsCoherent
  unfolding act_on answer
  rejects_returns role r before w other = ground arith

  escape_kinds :
      (e : PyError)
      → IsClientEscape e
      → ((m : String) × (e ≡ value_error m)) ⊎ (e ≡ recursion_error)
  escape_kinds e (inl foreign) = inl (require_local-raises endpoint.device_url e foreign)
  escape_kinds e (inr (is, deep)) = inr is

  finish_apply_escapes :
      (role : GatewayRole) (r : PolicyResult) (before : DeviceState) (e : PyError)
      → ((m : String) × (e ≡ value_error m)) ⊎ (e ≡ recursion_error)
      → finish_apply role r before (raise e) ≡ raise e
  unfolding finish_apply
  finish_apply_escapes role r before e (inl (m, is)) = rw is refl
  finish_apply_escapes role r before e (inr is) = rw is refl

  act_on_accepted :
      (role : GatewayRole) (r : PolicyResult) (before : DeviceState) (w : W)
      → r.decision ≡ accepted
      → (act_on endpoint role before r w).0
        ≡ finish_apply role r before
            (apply_device_update endpoint r.firmware_version r.payload_sha256 w).0
  unfolding act_on
  act_on_accepted role r before w a = simp a refl

  -- The arguments of the apply call after an acceptance are valid.
  act_on_returns :
      (role : GatewayRole) (r : PolicyResult) (before : DeviceState) (w : W)
      → r.decision ≢ error
      → (r.decision ≡ accepted
          → (within 1 64 r.firmware_version && is_sha256 r.payload_sha256) ≡ true)
      → Answered IsClientEscape (act_on endpoint role before r w).0
  unfolding act_on
  act_on_returns role r before w e fields = elim (decision_cases r.decision) [
    | inr other ↦ inl (rejects_returns role r before w other)
    | inl a ↦
        let applied = apply_device_update endpoint r.firmware_version r.payload_sha256 w in
        elim (Result-cases applied.0) [
          | inl (after, fine) ↦
              inl (
                rw (act_on_accepted role r before w a, fine)
                  (finish_apply_ok role r before after a))
          | inr (x, failed) ↦
              elim (apply_raises r.firmware_version r.payload_sha256 w x (fields a) failed) [
                | inl (m, named) ↦ inl (
                    rw (act_on_accepted role r before w a, failed)
                      (finish_apply_caught role r before x m named))
                | inr escapes ↦ inr (
                  x,
                  escapes,
                  rw (act_on_accepted role r before w a, failed)
                      (finish_apply_escapes role r before x (escape_kinds x escapes)),
                )
              ]
        ]
  ]

  process_returns :
      (raw : Bytes) (role : GatewayRole) (policy : Bytes → Result PolicyResult) (w : W)
      (escapes : Option PyError)
      → Returns (policy raw) (λ r. r.decision ≢ error)
        ⊎ ((x : PyError) × (escapes ≡ some x) × (policy raw ≡ raise x))
      → ((r : PolicyResult)
          → policy raw ≡ ok r
          → r.decision ≡ accepted
          → (within 1 64 r.firmware_version && is_sha256 r.payload_sha256) ≡ true)
      → Answered
          (λ e. IsClientEscape e ⊎ (escapes ≡ some e))
          (process_gateway_update endpoint raw role policy w).0
  unfolding process_gateway_update answer bare_result
  process_returns raw role policy w escapes total fields =
      elim (Result-cases (get_device_state endpoint w).0) [
        | inr (e, failed) ↦ elim (get_raises w e failed) [
          | inl (m, named) ↦ inl (rw (failed, named, process_gateway_update) (ground arith))
          | inr through ↦ elim (escape_kinds e through) [
            | inl (m, is) ↦ inr (e, inl through, rw (failed, is, process_gateway_update) refl)
            | inr is ↦ inr (e, inl through, rw (failed, is, process_gateway_update) refl)
          ]
        ]
        | inl (before, reached) ↦ elim total [
          | inr (x, through, raised) ↦
              inr (x, inr through, rw (reached, raised, process_gateway_update) refl)
          | inl decides ↦ elim (Result-cases (policy raw)) [
            | inr (x, raised) ↦ absurd (rw raised at decides)
            | inl (r, decided) ↦
                elim (act_on_returns role r before (get_device_state endpoint w).1
                  (rw decided at decides) (fields r decided)) [
                    | inl fine ↦ inl (rw (reached, decided, process_gateway_update) fine)
                    | inr (x, through, raised) ↦
                        inr (x, inl through, rw (reached, decided, process_gateway_update) raised)
                  ]
          ]
        ]
      ]

settled-decided :
    {E : Type 0} (reason : ReasonCode) (r : Result PolicyResult)
    → Returns r (IsSettled reason) ⊎ E
    → Returns r (λ s. s.decision ≢ error) ⊎ E
settled-decided reason (ok r) (inl h) = inl h.decided
settled-decided reason (raise e) (inl h) = absurd h
settled-decided reason r (inr e) = inr e

module _ (prim : Primitives) where
  accepted_applicable :
      (raw : Bytes) (r : PolicyResult) (p : DecodedPackage) (reason : ReasonCode)
      → parse_and_decode_package prim raw ≡ ok p
      → r ≡ package_result accepted reason p
      → (within 1 64 r.firmware_version && is_sha256 r.payload_sha256) ≡ true
  unfolding package_result
  accepted_applicable raw r p reason parsed named = rw named (parse-applicable prim raw p parsed)

  -- Over any network and any device, the vulnerable gateway answers every request body, unless the
  -- URL of the device is not the local one, or a document, the body or a reply of the device, is such that
  -- `json.loads` raises an exception that is not caught, which then escapes. In an answer the HTTP status
  -- is 200 exactly for an ACCEPTED decision, and any other decision shows the same device state before and after.
  pub vulnerable_gateway_total {ℓ} :
      {W : Type ℓ} (endpoint : Endpoint W) (raw : Bytes) (w : W)
      → Answered endpoint
          (λ e. IsClientEscape endpoint e ⊎ (json_escape prim raw ≡ some e))
          (process_gateway_update endpoint raw vulnerable (evaluate_vulnerable_policy prim) w).0
  vulnerable_gateway_total endpoint raw w =
      process_returns endpoint raw vulnerable (evaluate_vulnerable_policy prim) w
        (json_escape prim raw) (settled-decided _ _ (vulnerable_total prim raw))
        λ r decided a.
          let (p, parsed, _, named) = vulnerable_sound prim raw r decided a in
          accepted_applicable raw r p checksum_only_accepted parsed named

  -- Over any network, any device and any trusted key, the patched gateway answers every request body with
  -- a response of which the HTTP status is 200 exactly for an ACCEPTED decision, and any other decision
  -- shows the same device state before and after. Only these exceptions escape from it: the ValueError of
  -- a device URL that is not the local one; the ValueError or RecursionError of `json.loads` on a body
  -- with too many digits or too deep a nesting; and the RecursionError of a 200 reply of the device that is
  -- nested too deeply.
  pub patched_gateway_total {ℓ} :
      {W : Type ℓ} (endpoint : Endpoint W) (raw key : Bytes) (w : W)
      → Answered endpoint
          (λ e. IsClientEscape endpoint e ⊎ (json_escape prim raw ≡ some e))
          (process_gateway_update endpoint raw patched
            (λ body. evaluate_patched_policy prim body key)
            w).0
  patched_gateway_total endpoint raw key w =
      process_returns endpoint raw patched (λ body. evaluate_patched_policy prim body key) w
        (json_escape prim raw) (settled-decided _ _ (patched_total prim raw key))
        λ r decided a.
          let (p, parsed, _, _, named) = patched_sound prim raw key r decided a in
          accepted_applicable raw r p trusted_signature_accepted parsed named
