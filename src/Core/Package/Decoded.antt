-- ===== src/Core/Package/Decoded.antt =====
-- What `parse_and_decode_package` and `verify_payload_integrity` guarantee.
use fixrepro.Base.{
  ◌≡◌, ◌≢◌, ◌⊎◌, Option, none, some, String, true, arith, nat_eq, string_eq, eq_iff, length, Bytes,
  ◌&&◌, is_sha256,
}
use fixrepro.Core.Errors.{ok, raise, PyError, package_validation, recursion_error}
use fixrepro.Core.Primitives.{Primitives, loaded, decode_error, digits_error, nesting_error}
use fixrepro.Core.Models.{validate_envelope, envelope_valid, manifest_valid, within}
use fixrepro.Core.Package.{
  DecodedPackage, malformed, digits_exceeded, strict_b64decode, parse_package_bytes, decode_package,
  parse_and_decode_package, verify_payload_integrity,
}

module _ (prim : Primitives) where
  -- The sizes of a decoded package's key and signature.
  pub parse-sizes :
      (raw : Bytes) (p : DecodedPackage)
      → parse_and_decode_package prim raw ≡ ok p
      → (length p.signer_public_key ≡ 32) × (length p.signature ≡ 64)
  unfolding parse_and_decode_package decode_package
  parse-sizes raw p h = ground arith

  -- The exception of `json.loads` that the code lets through.
  unfoldable pub json_escape : Bytes → Option PyError
  json_escape raw = elim (prim.json_loads raw) [
    | loaded document ↦ none
    | decode_error ↦ none
    | digits_error ↦ some digits_exceeded
    | nesting_error ↦ some recursion_error
  ]

  pub escape-raises :
      (raw : Bytes) (x : PyError)
      → json_escape raw ≡ some x
      → parse_and_decode_package prim raw ≡ raise x
  unfolding json_escape parse_and_decode_package parse_package_bytes
  escape-raises raw x h = ground arith

  pub escape_cases :
      (raw : Bytes) (x : PyError)
      → json_escape raw ≡ some x
      → (x ≡ digits_exceeded) ⊎ (x ≡ recursion_error)
  unfolding json_escape
  escape_cases raw x h = ground arith

  -- Parsing and decoding raise a malformed package, or what escapes from `json.loads`.
  pub parse-raises :
      (raw : Bytes) (x : PyError)
      → parse_and_decode_package prim raw ≡ raise x
      → ((message : String) × (x ≡ malformed message)) ⊎ (json_escape raw ≡ some x)
  unfolding json_escape parse_and_decode_package parse_package_bytes decode_package strict_b64decode
  parse-raises raw x h = ground arith

  -- What the manifest says of the payload.
  pub record IsIntact (p : DecodedPackage) : Type 0 where
    pub size : length p.payload ≡ p.envelope.manifest.payload_size
    pub hash : prim.sha256_hex p.payload ≡ p.envelope.manifest.payload_sha256

  pub integrity_ok : (p : DecodedPackage) → IsIntact p → verify_payload_integrity prim p ≡ ok tt
  unfolding verify_payload_integrity
  integrity_ok p h =
      ground (arith, eq_iff (prim.sha256_hex p.payload) p.envelope.manifest.payload_sha256)

  pub integrity_sound :
      (p : DecodedPackage) (u : Unit {0}) → verify_payload_integrity prim p ≡ ok u → IsIntact p
  unfolding verify_payload_integrity
  integrity_sound p u h =
      ground (arith, eq_iff (prim.sha256_hex p.payload) p.envelope.manifest.payload_sha256)

  -- The two exceptions of the integrity check, the size first.
  pub integrity_raises :
      (p : DecodedPackage) (x : PyError)
      → verify_payload_integrity prim p ≡ raise x
      → ((length p.payload ≢ p.envelope.manifest.payload_size)
          × ((m : String) × (x ≡ package_validation "PAYLOAD_SIZE_MISMATCH" m)))
        ⊎ ((length p.payload ≡ p.envelope.manifest.payload_size)
            × (prim.sha256_hex p.payload ≢ p.envelope.manifest.payload_sha256)
            × ((m : String) × (x ≡ package_validation "PAYLOAD_HASH_MISMATCH" m)))
  unfolding verify_payload_integrity
  integrity_raises p x h =
      ground (arith, eq_iff (prim.sha256_hex p.payload) p.envelope.manifest.payload_sha256)

  -- A decoded package's envelope passed the field constraints.
  pub parse-valid :
      (raw : Bytes) (p : DecodedPackage)
      → parse_and_decode_package prim raw ≡ ok p
      → envelope_valid p.envelope ≡ true
  unfolding parse_and_decode_package parse_package_bytes decode_package validate_envelope
  parse-valid raw p h = ground arith

  -- So its fields are good for a device update.
  pub parse-applicable :
      (raw : Bytes) (p : DecodedPackage)
      → parse_and_decode_package prim raw ≡ ok p
      → (within 1 64 p.envelope.manifest.firmware_version
          && is_sha256 p.envelope.manifest.payload_sha256)
        ≡ true
  unfolding envelope_valid manifest_valid
  parse-applicable raw p h = ground (arith, parse-valid raw p h)
