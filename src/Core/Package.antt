-- ===== src/Core/Package.antt =====
-- fixrepro_core/package.py and crypto.py: parsing, decoding, integrity, fingerprints, signatures.
pub mod Decoded
use Prim.Native.String.{◌++◌ as concat}
use fixrepro.Base.{
  String, Bool, true, false, none, some, ◌==◌, string_eq, nat_eq, if◌then◌else◌, not, Bytes, length,
}
use fixrepro.Core.Primitives.{
  Primitives, Verification, verified, invalid_signature, loaded, decode_error, digits_error,
  nesting_error,
}
use fixrepro.Core.Models.{Manifest, PackageEnvelope, validate_envelope}
use fixrepro.Core.Canonical.{canonical_manifest_bytes}
use fixrepro.Core.Errors.{
  PyError, package_validation, value_error, recursion_error, Result, ok, raise, ◌>>=◌, ◌>>◌,
  raise_if,
}

pub record DecodedPackage : Type 0 where
  pub envelope : PackageEnvelope
  pub payload : Bytes
  pub signer_public_key : Bytes
  pub signature : Bytes

abbrev pub malformed : String → PyError
malformed message = package_validation "MALFORMED_PACKAGE" message

-- The plain `ValueError` of `json.loads`.
abbrev pub digits_exceeded : PyError
digits_exceeded = value_error "Exceeds the limit for integer string conversion"

module _ (prim : Primitives) where
  unfoldable pub strict_b64decode : String → String → Result Bytes
  strict_b64decode value field_name = elim (prim.b64decode value) [
    | some decoded ↦ ok decoded
    | none ↦ raise (malformed (concat field_name " is not valid canonical base64"))
  ]

  unfoldable pub parse_package_bytes : Bytes → Result PackageEnvelope
  parse_package_bytes raw = elim (prim.json_loads raw) [
    | decode_error ↦ raise (malformed "package must be valid UTF-8 JSON")
    | digits_error ↦ raise digits_exceeded
    | nesting_error ↦ raise recursion_error
    | loaded document ↦ elim (validate_envelope document) [
      | none ↦ raise (malformed "package structure is invalid")
      | some envelope ↦ ok envelope
    ]
  ]

  unfoldable pub decode_package : PackageEnvelope → Result DecodedPackage
  decode_package envelope = do
    payload ← strict_b64decode envelope.payload_b64 "payload_b64"
    public_key ← strict_b64decode envelope.signer_public_key_b64 "signer_public_key_b64"
    signature ← strict_b64decode envelope.signature_b64 "signature_b64"
    raise_if (not (length public_key == 32)) (malformed "Ed25519 public key must be 32 bytes")
    raise_if (not (length signature == 64)) (malformed "Ed25519 signature must be 64 bytes")
    ok (record {
      envelope = envelope;
      payload = payload;
      signer_public_key = public_key;
      signature = signature;
    })

  unfoldable pub parse_and_decode_package : Bytes → Result DecodedPackage
  parse_and_decode_package raw = do envelope ← parse_package_bytes raw; decode_package envelope

  unfoldable pub verify_payload_integrity : DecodedPackage → Result (Unit {0})
  verify_payload_integrity decoded = do
    let manifest = decoded.envelope.manifest
    raise_if (not (length decoded.payload == manifest.payload_size)) (
        package_validation "PAYLOAD_SIZE_MISMATCH"
          "decoded payload length does not match manifest payload_size")
    raise_if (not (prim.sha256_hex decoded.payload == manifest.payload_sha256)) (
        package_validation "PAYLOAD_HASH_MISMATCH"
          "decoded payload SHA-256 does not match the manifest")

  unfoldable pub signer_fingerprint : Bytes → Result String
  signer_fingerprint public_key =
      if length public_key == 32
      then ok (prim.sha256_hex public_key)
      else raise (value_error "Ed25519 public key must be exactly 32 bytes")

  -- Both exceptions of the library are caught.
  unfoldable pub verify_manifest_signature : Bytes → Manifest → Bytes → Bool
  verify_manifest_signature public_key manifest signature =
      elim (prim.ed25519_verify public_key signature (canonical_manifest_bytes manifest)) [
        | verified ↦ true
        | invalid_signature ↦ false
        | Verification.value_error ↦ false
      ]

  unfoldable pub sign_manifest : Bytes → Manifest → Bytes
  sign_manifest private_key manifest =
      prim.ed25519_sign private_key (canonical_manifest_bytes manifest)
