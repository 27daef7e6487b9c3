-- ===== src/Core/Config.antt =====
-- fixrepro_core/config.py: the fixed loopback endpoint. `urlparse` is a function of the model's; the
-- port is none if reading it raises `ValueError`, because it is no number in range.
use fixrepro.Base.{
  ℕ, String, Bool, Option, none, some, ◌==◌, nat_eq, string_eq, option_eq, ◌||◌, not, is_none,
  if◌then◌else◌, ◌≡◌, arith, eq_iff, option_beq_iff,
}
use fixrepro.Core.Errors.{PyError, Result, ok, raise, value_error}

pub record ParsedUrl : Type 0 where
  pub scheme : String
  pub hostname : Option String
  pub port : Option (Option ℕ)
  pub username : Option String
  pub password : Option String
  pub query : String
  pub fragment : String
  pub path : String

abbrev pub loopback_host : String
loopback_host = "127.0.0.1"

abbrev pub device_port : ℕ
device_port = 8200

abbrev pub vulnerable_gateway_port : ℕ
vulnerable_gateway_port = 8101

abbrev pub patched_gateway_port : ℕ
patched_gateway_port = 8102

abbrev pub default_device_url : String
default_device_url = "http://127.0.0.1:8200"

abbrev pub vulnerable_build_id : String
vulnerable_build_id = "FIXREPRO-VULNERABLE-OTA-1"

abbrev pub patched_build_id : String
patched_build_id = "FIXREPRO-PATCHED-OTA-1"

abbrev not_local : Result String
not_local = raise (value_error "FIXREPRO_DEVICE_URL must be http://127.0.0.1:8200")

-- The tests after the port, in the order of the source.
abbrev has_extras : ParsedUrl → Bool
has_extras u =
    not (is_none u.username)
    || not (is_none u.password)
    || not (u.query == "")
    || not (u.fragment == "")
    || not (u.path == "" || u.path == "/")

-- From the parsed URL on.
unfoldable pub require_local : ParsedUrl → Result String
require_local u =
    if not (u.scheme == "http") || not (u.hostname == some loopback_host)
    then not_local
    else elim u.port [
      | none ↦ raise (value_error "Port out of range 0-65535")
      | some port ↦
          if not (port == some device_port) || has_extras u
          then not_local
          else ok default_device_url
    ]

-- The only exception is `ValueError`.
pub require_local-raises :
    (u : ParsedUrl) (e : PyError) → require_local u ≡ raise e → (m : String) × (e ≡ value_error m)
unfolding require_local
require_local-raises u e h = ground arith

module _ (urlparse : String → ParsedUrl) where
  unfoldable pub require_local_device_url : String → Result String
  unfolding require_local
  require_local_device_url value = require_local (urlparse value)

  -- Whatever text is configured, the client only ever talks to the fixed loopback endpoint: the URL
  -- that is returned is that one, or `ValueError` is raised; and it is returned only for a plain-HTTP
  -- loopback URL at the device's port without credentials, query, fragment or path.
  pub require_local_device_url_sound :
      (value url : String)
      → require_local_device_url value ≡ ok url
      → (url ≡ default_device_url)
        × ((urlparse value).scheme ≡ "http")
        × ((urlparse value).hostname ≡ some loopback_host)
        × ((urlparse value).port ≡ some (some device_port))
        × ((urlparse value).username ≡ none)
        × ((urlparse value).password ≡ none)
        × ((urlparse value).query ≡ "")
        × ((urlparse value).fragment ≡ "")
  unfolding require_local_device_url require_local
  require_local_device_url_sound value url h = ground (
    arith,
    eq_iff (urlparse value).scheme "http",
    eq_iff (urlparse value).query "",
    eq_iff (urlparse value).fragment "",
    option_beq_iff (urlparse value).hostname (some loopback_host),
  )
