-- ===== src/Core/Primitives.antt =====
-- What the program calls and does not implement, as a record of functions: SHA-256, base64, JSON
-- parsing and Ed25519. No laws are fields: a theorem that needs one names it as a hypothesis.
use fixrepro.Base.{String, Option, Bytes}
use fixrepro.Core.Json.{Value}

-- `Ed25519PublicKey.from_public_bytes(key).verify(signature, message)` returns, raises
-- `InvalidSignature`, or raises `ValueError` (a key that is no curve point).
pub data Verification : Type 0 where
  verified invalid_signature value_error : Verification

-- `json.loads(raw.decode("utf-8"))` returns, raises `UnicodeDecodeError` or `JSONDecodeError`, or raises an
-- exception that is neither: a plain `ValueError` (an integer with more digits than the interpreter
-- converts) or `RecursionError` (a document that is nested too deeply).
pub data JsonLoads : Type 0 where
  loaded : Value → JsonLoads
  decode_error digits_error nesting_error : JsonLoads

pub record Primitives : Type 0 where
  pub sha256_hex : Bytes → String  -- hashlib.sha256(value).hexdigest()
  pub b64decode : String → Option Bytes  -- base64.b64decode(value.encode("ascii"), validate=True)
  pub b64encode : Bytes → String  -- base64.b64encode(value).decode("ascii")
  pub json_loads : Bytes → JsonLoads  -- json.loads(raw.decode("utf-8"))
  pub ed25519_verify : Bytes → Bytes → Bytes → Verification  -- key, signature, message
  pub ed25519_sign : Bytes → Bytes → Bytes  -- private key, message
  pub ed25519_public : Bytes → Bytes  -- the raw public key of a private key
