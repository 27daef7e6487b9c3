-- ===== src/Tests/Toy.antt =====
-- Small primitives, and two packages that they parse: one of the trusted signer and one of another.
use fixrepro.Base.{
  ℕ, zero, suc, String, none, some, ◌==◌, nat_eq, string_eq, list_eq, List, [], ◌∷◌, Bytes,
  if◌then◌else◌, length,
}
use fixrepro.Core.Json.{Value, end, field, text, int, obj}
use fixrepro.Core.Primitives.{Primitives, loaded, decode_error, nesting_error, verified}
use fixrepro.Core.Models.{Manifest}
use fixrepro.Core.Package.{DecodedPackage}

abbrev pub replicate : ℕ → ℕ → List ℕ
replicate zero x = []
replicate (suc n) x = x ∷ replicate n x

abbrev pub digest : String
digest = "0123456789abcdef0123456789abcdef0123456789abcdef0123456789abcdef"

abbrev pub key_digest : String
key_digest = "ffffffffffffffffffffffffffffffffffffffffffffffffffffffffffffffff"

abbrev pub trusted_key : Bytes
trusted_key = replicate 32 1

abbrev pub other_key : Bytes
other_key = replicate 32 2

abbrev pub signature_bytes : Bytes
signature_bytes = replicate 64 7

abbrev pub payload_bytes : Bytes
payload_bytes = 70 ∷ 82 ∷ []

abbrev pub trusted_raw : Bytes
trusted_raw = 1 ∷ []

abbrev pub untrusted_raw : Bytes
untrusted_raw = 2 ∷ []

abbrev manifest_document : String → Value
manifest_document version = obj (
    field "schema_version" (text "1.0") (
      field "package_id" (text "ota-1") (
        field "firmware_version" (text version) (
          field "payload_sha256" (text digest)
            (field "payload_size" (int 2) (field "signature_algorithm" (text "Ed25519") end))))))

abbrev document : String → String → Value
document version key = obj (
    field "manifest" (manifest_document version) (
      field "payload_b64" (text "RlI=") (
        field "signer_public_key_b64" (text key)
          (field "signer_fingerprint" (text key_digest) (field "signature_b64" (text "SIG") end)))))

abbrev pub toy : Primitives
toy = record {
  sha256_hex = λ bytes. if length bytes == 32 then key_digest else digest;
  b64decode = λ s.
      if s == "RlI="
      then some payload_bytes
      else if s == "TRUSTED"
      then some trusted_key
      else if s == "OTHER"
      then some other_key
      else if s == "SIG"
      then some signature_bytes
      else none;
  b64encode = λ _. "";
  json_loads = λ raw.
      if raw == trusted_raw
      then loaded (document "1.1.0" "TRUSTED")
      else if raw == untrusted_raw
      then loaded (document "9.9.0-test" "OTHER")
      else if raw == 3 ∷ []
      then nesting_error
      else decode_error;
  ed25519_verify = λ _ _ _. verified;
  ed25519_sign = λ _ _. signature_bytes;
  ed25519_public = λ secret. if secret == 1 ∷ [] then trusted_key else other_key;
}

abbrev pub toy_manifest : String → Manifest
toy_manifest version = record {
  schema_version = "1.0";
  package_id = "ota-1";
  firmware_version = version;
  payload_sha256 = digest;
  payload_size = 2;
  signature_algorithm = "Ed25519";
}

abbrev toy_package : String → String → Bytes → DecodedPackage
toy_package version key key_bytes = record {
  envelope = record {
    manifest = toy_manifest version;
    payload_b64 = "RlI=";
    signer_public_key_b64 = key;
    signer_fingerprint = key_digest;
    signature_b64 = "SIG";
  };
  payload = payload_bytes;
  signer_public_key = key_bytes;
  signature = signature_bytes;
}

abbrev pub trusted_package : DecodedPackage
trusted_package = toy_package "1.1.0" "TRUSTED" trusted_key

abbrev pub untrusted_package : DecodedPackage
untrusted_package = toy_package "9.9.0-test" "OTHER" other_key
