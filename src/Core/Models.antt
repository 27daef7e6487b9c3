-- ===== src/Core/Models.antt =====
-- fixrepro_core/models.py: the strict package models and what they accept.
use fixrepro.Base.{
  true, ℕ, String, Bool, Option, none, some, ◌==◌, string_eq, nat_eq, leb, ltb, if◌then◌else◌, ◌&&◌,
  List, [], ◌∷◌, count_chars, is_sha256, option_eq,
}
use fixrepro.Core.Json.{Value, Fields, obj, get_field, no_extra, get_text, get_nat}

pub record Manifest : Type 0 where
  pub schema_version : String
  pub package_id : String
  pub firmware_version : String
  pub payload_sha256 : String
  pub payload_size : ℕ
  pub signature_algorithm : String

pub record PackageEnvelope : Type 0 where
  pub manifest : Manifest
  pub payload_b64 : String
  pub signer_public_key_b64 : String
  pub signer_fingerprint : String
  pub signature_b64 : String

pub record DeviceState : Type 0 where
  pub firmware_version : String
  pub update_counter : ℕ
  pub last_payload_sha256 : Option String

pub record DeviceApplyRequest : Type 0 where
  pub firmware_version : String
  pub payload_sha256 : String

-- `Field(min_length=lo, max_length=hi)`
unfoldable pub within : ℕ → ℕ → String → Bool
within lo hi s = leb lo (count_chars s) && leb (count_chars s) hi

-- `Field(min_length=1)`
unfoldable pub non_empty : String → Bool
non_empty s = leb 1 (count_chars s)

abbrev pub manifest_fields : List String
manifest_fields =
    "schema_version" ∷ "package_id" ∷ "firmware_version" ∷ "payload_sha256" ∷ "payload_size"
    ∷ "signature_algorithm" ∷ []

abbrev pub envelope_fields : List String
envelope_fields =
    "manifest" ∷ "payload_b64" ∷ "signer_public_key_b64" ∷ "signer_fingerprint" ∷ "signature_b64"
    ∷ []

-- The field constraints of `Manifest`.
unfoldable pub manifest_valid : Manifest → Bool
manifest_valid m =
    m.schema_version == "1.0"
    && within 1 128 m.package_id
    && within 1 64 m.firmware_version
    && is_sha256 m.payload_sha256
    && ltb 0 m.payload_size
    && m.signature_algorithm == "Ed25519"

-- The field constraints of `PackageEnvelope`.
unfoldable pub envelope_valid : PackageEnvelope → Bool
envelope_valid e =
    manifest_valid e.manifest
    && non_empty e.payload_b64
    && non_empty e.signer_public_key_b64
    && is_sha256 e.signer_fingerprint
    && non_empty e.signature_b64

infixl 5 ◌>>=◌
abbrev pub ◌>>=◌ {ℓ κ} : {A : Type ℓ} {B : Type κ} → Option A → (A → Option B) → Option B
some a >>= f = f a
none >>= f = none

abbrev pub when {ℓ} : {A : Type ℓ} → Bool → A → Option A
when b a = if b then some a else none

unfoldable pub read_manifest : Fields → Option Manifest
read_manifest fs = do
  schema_version ← get_text "schema_version" fs
  package_id ← get_text "package_id" fs
  firmware_version ← get_text "firmware_version" fs
  payload_sha256 ← get_text "payload_sha256" fs
  payload_size ← get_nat "payload_size" fs
  signature_algorithm ← get_text "signature_algorithm" fs
  some (record {
    schema_version = schema_version;
    package_id = package_id;
    firmware_version = firmware_version;
    payload_sha256 = payload_sha256;
    payload_size = payload_size;
    signature_algorithm = signature_algorithm;
  })

-- `Manifest.model_validate` of a nested document.
unfoldable pub validate_manifest : Value → Option Manifest
validate_manifest (obj fs) = do
  m ← read_manifest fs
  when (no_extra manifest_fields fs && manifest_valid m) m
validate_manifest _ = none

-- `PackageEnvelope.model_validate(document)`; `none` is a `ValidationError`.
unfoldable pub validate_envelope : Value → Option PackageEnvelope
validate_envelope (obj fs) = do
  document ← get_field "manifest" fs
  manifest ← validate_manifest document
  payload_b64 ← get_text "payload_b64" fs
  signer_public_key_b64 ← get_text "signer_public_key_b64" fs
  signer_fingerprint ← get_text "signer_fingerprint" fs
  signature_b64 ← get_text "signature_b64" fs
  let e : PackageEnvelope = record {
    manifest = manifest;
    payload_b64 = payload_b64;
    signer_public_key_b64 = signer_public_key_b64;
    signer_fingerprint = signer_fingerprint;
    signature_b64 = signature_b64;
  }
  when (no_extra envelope_fields fs && envelope_valid e) e
validate_envelope _ = none

abbrev hash_valid : Option String → Bool
hash_valid none = true
hash_valid (some s) = is_sha256 s

-- The field constraints of `DeviceState`.
unfoldable pub state_valid : DeviceState → Bool
state_valid s = within 1 64 s.firmware_version && hash_valid s.last_payload_sha256
