-- ===== src/Targets.antt =====
-- targets/vulnerable/app.py and targets/patched/app.py: the update routes.
use fixrepro.Base.{
  ℕ, Bool, ◌&&◌, ◌||◌, leb, ◌==◌, nat_eq, list_eq, if◌then◌else◌, Option, none, some, List, [], ◌∷◌,
  ◌+◌, map, Bytes, codes,
}
use fixrepro.Core.Errors.{Result, ok, raise}
use fixrepro.Core.Primitives.{Primitives}
use fixrepro.Core.Config.{require_local}
use fixrepro.Core.Evaluation.{
  vulnerable, patched, PolicyResult, bare_result, error, trust_configuration_error,
  evaluate_vulnerable_policy, evaluate_patched_policy,
}
use fixrepro.Core.DeviceClient.{Endpoint}
use fixrepro.Core.Gateway.{GatewayResponse, process_gateway_update}

-- `text.split(";", 1)[0]`
unfoldable pub before_semicolon : List ℕ → List ℕ
before_semicolon [] = []
before_semicolon (c ∷ cs) = let rest = before_semicolon cs in if c == 59 then [] else c ∷ rest

-- The white space of a header, which is Latin-1.
abbrev is_space : ℕ → Bool
is_space c = leb 9 c && leb c 13 || leb 28 c && leb c 32 || c == 133 || c == 160

unfoldable pub strip_left : List ℕ → List ℕ
strip_left [] = []
strip_left (c ∷ cs) = let rest = strip_left cs in if is_space c then rest else c ∷ cs

unfoldable pub strip_right : List ℕ → List ℕ
strip_right [] = []
strip_right (c ∷ cs) = elim (strip_right cs) [
  | [] ↦ if is_space c then [] else c ∷ []
  | d ∷ ds ↦ c ∷ d ∷ ds
]

-- `lower` as far as the comparison with an ASCII text can see it.
unfoldable pub lower : ℕ → ℕ
lower c = if leb b'A' c && leb c b'Z' then c + 32 else c

-- `request.headers.get("content-type", "").split(";", 1)[0].strip().lower()`
unfoldable pub media_type : Option (List ℕ) → List ℕ
unfolding before_semicolon strip_left strip_right lower
media_type none = []
media_type (some header) = map lower (strip_right (strip_left (before_semicolon header)))

-- `await request.body() if content_type == "application/json" else b""`
unfoldable pub raw_package : Option (List ℕ) → Bytes → Bytes
unfolding media_type
raw_package header body = if media_type header == codes "application/json" then body else []

-- `_trust_configuration_error`
unfoldable pub trust_configuration_result : Bytes → Result PolicyResult
trust_configuration_result _ = ok (bare_result error trust_configuration_error)

-- The policy of the patched gateway: without a usable trusted key every update is an error.
unfoldable pub patched_policy : Primitives → Option Bytes → Bytes → Result PolicyResult
unfolding trust_configuration_result
patched_policy prim none body = trust_configuration_result body
patched_policy prim (some key) body = evaluate_patched_policy prim body key

module _ {ℓ} {W : Type ℓ} (prim : Primitives) (endpoint : Endpoint W) where
  -- `_device_url()` raises before anything is sent.
  unfoldable pub submit_vulnerable : Option (List ℕ) → Bytes → W → Result (ℕ × GatewayResponse) × W
  submit_vulnerable header body w = elim (require_local endpoint.device_url) [
    | raise e ↦ (raise e, w)
    | ok device_url ↦
        process_gateway_update endpoint (raw_package header body) vulnerable
          (evaluate_vulnerable_policy prim) w
  ]

  -- `_trusted_public_key` is read for each request; `none` is its `ValueError`.
  unfoldable pub submit_patched :
      Option Bytes → Option (List ℕ) → Bytes → W → Result (ℕ × GatewayResponse) × W
  submit_patched key header body w = elim (require_local endpoint.device_url) [
    | raise e ↦ (raise e, w)
    | ok device_url ↦
        process_gateway_update endpoint (raw_package header body) patched (patched_policy prim key)
          w
  ]
