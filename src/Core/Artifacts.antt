-- ===== src/Core/Artifacts.antt =====
-- fixrepro_core/artifacts.py: the synthetic packages of a demonstration. The random private keys are
-- arguments; directories are left out.
pub mod Generated
use fixrepro.Base.{ℕ, String, Bool, not, List, [], ◌∷◌, ◌++◌, length, Bytes, codes}
use fixrepro.Core.Errors.{Result, ok, raise, ◌>>=◌, ◌>>◌, raise_if, value_error}
use fixrepro.Core.Json.{Value, Fields, end, field, text, int, obj}
use fixrepro.Core.Primitives.{Primitives}
use fixrepro.Core.Models.{Manifest, PackageEnvelope, manifest_valid, envelope_valid}
use fixrepro.Core.Package.{signer_fingerprint, sign_manifest}

-- `json.dumps(document, sort_keys=True, indent=2, ensure_ascii=False) + "\n"` in UTF-8, and the PEM
-- form of a raw public key.
pub record Serializers : Type 0 where
  pub pretty : Value → Bytes
  pub public_key_pem : Bytes → Bytes

-- `model_dump(mode="json")` with its keys sorted.
unfoldable pub dump_manifest : Manifest → Value
dump_manifest m = obj (
    field "firmware_version" (text m.firmware_version) (
      field "package_id" (text m.package_id) (
        field "payload_sha256" (text m.payload_sha256) (
          field "payload_size" (int m.payload_size) (
            field "schema_version" (text m.schema_version)
              (field "signature_algorithm" (text m.signature_algorithm) end))))))

unfoldable pub dump_envelope : PackageEnvelope → Value
unfolding dump_manifest
dump_envelope e = obj (
    field "manifest" (dump_manifest e.manifest) (
      field "payload_b64" (text e.payload_b64) (
        field "signature_b64" (text e.signature_b64) (
          field "signer_fingerprint" (text e.signer_fingerprint)
            (field "signer_public_key_b64" (text e.signer_public_key_b64) end)))))

abbrev pub untrusted_payload : Bytes
untrusted_payload =
    codes "FixRepro harmless synthetic test firmware from an untrusted signer." ++ (10 ∷ [])

abbrev pub trusted_payload : Bytes
trusted_payload =
    codes "FixRepro harmless synthetic test firmware from the trusted signer." ++ (10 ∷ [])

-- What the four files hold.
pub record GeneratedArtifacts : Type 0 where
  pub trusted_public_key : Bytes
  pub untrusted_public_key : Bytes
  pub untrusted_package : Bytes
  pub trusted_package : Bytes

module _ (prim : Primitives) where
  unfoldable pub package_manifest : String → String → Bytes → Manifest
  package_manifest package_id firmware_version payload = record {
    schema_version = "1.0";
    package_id = package_id;
    firmware_version = firmware_version;
    payload_sha256 = prim.sha256_hex payload;
    payload_size = length payload;
    signature_algorithm = "Ed25519";
  }

  -- `_create_package`; both models validate their fields, and `ValidationError` is a `ValueError`.
  unfoldable pub create_package : Bytes → String → String → Bytes → Result PackageEnvelope
  unfolding package_manifest
  create_package private_key package_id firmware_version payload = do
    let public_key = prim.ed25519_public private_key
    let manifest = package_manifest package_id firmware_version payload
    raise_if (not (manifest_valid manifest)) (value_error "Manifest")
    let signature = sign_manifest prim private_key manifest
    fingerprint ← signer_fingerprint prim public_key
    let envelope : PackageEnvelope = record {
      manifest = manifest;
      payload_b64 = prim.b64encode payload;
      signer_public_key_b64 = prim.b64encode public_key;
      signer_fingerprint = fingerprint;
      signature_b64 = prim.b64encode signature;
    }
    raise_if (not (envelope_valid envelope)) (value_error "PackageEnvelope")
    ok envelope

module _ (prim : Primitives) (serializers : Serializers) where
  -- `_write_package`: the bytes of the file.
  unfoldable pub write_package : PackageEnvelope → Bytes
  write_package e = serializers.pretty (dump_envelope e)

  -- `generate_demo_artifacts` from the two private keys that it generates.
  unfoldable pub generate_demo_artifacts : Bytes → Bytes → Result GeneratedArtifacts
  unfolding write_package
  generate_demo_artifacts trusted_private_key untrusted_private_key = do
    untrusted ←
        create_package prim untrusted_private_key "ota-untrusted-signer-001" "9.9.0-test"
          untrusted_payload
    trusted ←
        create_package prim trusted_private_key "ota-trusted-signer-001" "1.1.0" trusted_payload
    ok (record {
      trusted_public_key = serializers.public_key_pem (prim.ed25519_public trusted_private_key);
      untrusted_public_key = serializers.public_key_pem (prim.ed25519_public untrusted_private_key);
      untrusted_package = write_package untrusted;
      trusted_package = write_package trusted;
    })
