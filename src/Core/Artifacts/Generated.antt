-- ===== src/Core/Artifacts/Generated.antt =====
-- What a generated package is to the parser and to the policies.
use fixrepro.Base.{
  ◌≡◌, refl, String, true, ltb, some, length, Bytes, arith, is_sha256, string_eq, nat_eq, option_eq,
}
use fixrepro.Core.Errors.{ok, Returns}
use fixrepro.Core.Json.{Value, get_field, get_text, get_nat, no_extra}
use fixrepro.Core.Primitives.{loaded, Primitives, verified}
use fixrepro.Core.Models.{
  Manifest, PackageEnvelope, manifest_valid, envelope_valid, validate_envelope, validate_manifest,
  read_manifest, within, non_empty,
}
use fixrepro.Core.Canonical.{canonical_manifest_bytes}
use fixrepro.Core.Package.{
  DecodedPackage, parse_and_decode_package, parse_package_bytes, decode_package, strict_b64decode,
  signer_fingerprint, sign_manifest,
}
use fixrepro.Core.Package.Decoded.{IsIntact}
use fixrepro.Core.Evaluation.Policy.{IsSignedBy}
use fixrepro.Core.Artifacts.{
  dump_manifest, dump_envelope, package_manifest, create_package, write_package, Serializers,
}

-- What the code relies on of SHA-256, base64 and Ed25519.
pub record IsLibrary (prim : Primitives) : Type 0 where
  pub hex_digest : (b : Bytes) → is_sha256 (prim.sha256_hex b) ≡ true
  pub b64_round : (b : Bytes) → prim.b64decode (prim.b64encode b) ≡ some b
  pub b64_non_empty : (b : Bytes) → ltb 0 (length b) ≡ true → non_empty (prim.b64encode b) ≡ true
  pub key_size : (secret : Bytes) → length (prim.ed25519_public secret) ≡ 32
  pub signature_size : (secret message : Bytes) → length (prim.ed25519_sign secret message) ≡ 64
  pub signature_verifies :
      (secret message : Bytes)
      → prim.ed25519_verify (prim.ed25519_public secret) (prim.ed25519_sign secret message) message
        ≡ verified

validate-dump_manifest :
    (m : Manifest) → manifest_valid m ≡ true → validate_manifest (dump_manifest m) ≡ some m
unfolding validate_manifest dump_manifest read_manifest get_text get_nat get_field no_extra
validate-dump_manifest m valid = rw valid refl

envelope_manifest :
    (e : PackageEnvelope) → envelope_valid e ≡ true → manifest_valid e.manifest ≡ true
unfolding envelope_valid
envelope_manifest e valid = ground arith

-- A valid envelope is read back from its dump.
pub validate-dump_envelope :
    (e : PackageEnvelope) → envelope_valid e ≡ true → validate_envelope (dump_envelope e) ≡ some e
unfolding validate_envelope dump_envelope get_text get_field no_extra
validate-dump_envelope e valid =
    rw (validate-dump_manifest e.manifest (envelope_manifest e valid), valid) refl

-- A decoder of base64 that reads the three texts, at the sizes of Ed25519, gives the package.
decode_parts :
    (prim : Primitives) (e : PackageEnvelope) (payload public_key signature : Bytes)
    → prim.b64decode e.payload_b64 ≡ some payload
    → prim.b64decode e.signer_public_key_b64 ≡ some public_key
    → prim.b64decode e.signature_b64 ≡ some signature
    → length public_key ≡ 32
    → length signature ≡ 64
    → decode_package prim e
      ≡ ok (record {
        envelope = e;
        payload = payload;
        signer_public_key = public_key;
        signature = signature;
      })
unfolding decode_package strict_b64decode
decode_parts prim e payload public_key signature first second third size full = ground arith

-- A document that JSON reads and that the models accept is parsed.
parse_document :
    (prim : Primitives) (raw : Bytes) (document : Value) (e : PackageEnvelope)
    (decoded : DecodedPackage)
    → prim.json_loads raw ≡ loaded document
    → validate_envelope document ≡ some e
    → decode_package prim e ≡ ok decoded
    → parse_and_decode_package prim raw ≡ ok decoded
unfolding parse_and_decode_package parse_package_bytes
parse_document prim raw document e decoded read accepted decodes = ground arith

module _ (prim : Primitives) (secret : Bytes) (package_id firmware_version : String)
    (payload : Bytes) where
  abbrev manifest : Manifest
  manifest = package_manifest prim package_id firmware_version payload

  abbrev pub envelope_of : PackageEnvelope
  envelope_of = record {
    manifest = package_manifest prim package_id firmware_version payload;
    payload_b64 = prim.b64encode payload;
    signer_public_key_b64 = prim.b64encode (prim.ed25519_public secret);
    signer_fingerprint = prim.sha256_hex (prim.ed25519_public secret);
    signature_b64 =
        prim.b64encode
          (sign_manifest prim secret (package_manifest prim package_id firmware_version payload));
  }

  abbrev pub package_of : DecodedPackage
  package_of = record {
    envelope = envelope_of;
    payload = payload;
    signer_public_key = prim.ed25519_public secret;
    signature =
        sign_manifest prim secret (package_manifest prim package_id firmware_version payload);
  }

  -- The arguments are within the models' limits.
  abbrev pub IsGenerable : Type 0
  IsGenerable =
      (within 1 128 package_id ≡ true)
      × (within 1 64 firmware_version ≡ true)
      × (ltb 0 (length payload) ≡ true)

  abbrev signature : Bytes
  signature = sign_manifest prim secret (package_manifest prim package_id firmware_version payload)

  module _ (lib : IsLibrary prim) where
    signature_length : length signature ≡ 64
    unfolding sign_manifest
    signature_length = lib.signature_size secret (canonical_manifest_bytes manifest)

    manifest_ok : IsGenerable → manifest_valid manifest ≡ true
    unfolding manifest_valid package_manifest
    manifest_ok (id, version, filled) = ground (arith, lib.hex_digest payload)

    envelope_ok : IsGenerable → envelope_valid envelope_of ≡ true
    unfolding envelope_valid sign_manifest
    envelope_ok fits = ground (
      arith,
      manifest_ok fits,
      lib.hex_digest (prim.ed25519_public secret),
      lib.b64_non_empty payload,
      lib.b64_non_empty (prim.ed25519_public secret),
      lib.key_size secret,
      lib.b64_non_empty (prim.ed25519_sign secret (canonical_manifest_bytes manifest)),
      lib.signature_size secret (canonical_manifest_bytes manifest),
    )

    -- The package is created.
    pub create_ok :
        IsGenerable
        → create_package prim secret package_id firmware_version payload ≡ ok envelope_of
    unfolding create_package signer_fingerprint
    create_ok fits = rw (manifest_ok fits, lib.key_size secret, envelope_ok fits) refl

    decode_ok : decode_package prim envelope_of ≡ ok package_of
    decode_ok =
        decode_parts prim envelope_of payload (prim.ed25519_public secret) signature
          (lib.b64_round payload) (lib.b64_round (prim.ed25519_public secret))
          (lib.b64_round signature) (lib.key_size secret) (signature_length)

    -- What is written is parsed as the package that was created, given that JSON reads it back.
    pub parse-write_package :
        (serializers : Serializers)
        → IsGenerable
        → prim.json_loads (serializers.pretty (dump_envelope envelope_of))
          ≡ loaded (dump_envelope envelope_of)
        → parse_and_decode_package prim (write_package prim serializers envelope_of) ≡ ok package_of
    unfolding write_package
    parse-write_package serializers fits read_back =
        parse_document prim (serializers.pretty (dump_envelope envelope_of))
          (dump_envelope envelope_of) envelope_of package_of read_back
          (validate-dump_envelope envelope_of (envelope_ok fits)) decode_ok

    -- A package that fits the limits is created, and what is written of it is parsed as that package: its
    -- payload, key and signature are those that it was created with, given that JSON reads the file back.
    pub create_roundtrip :
        (serializers : Serializers)
        → IsGenerable
        → prim.json_loads (serializers.pretty (dump_envelope envelope_of))
          ≡ loaded (dump_envelope envelope_of)
        → Returns (create_package prim secret package_id firmware_version payload) (λ e.
          parse_and_decode_package prim (write_package prim serializers e)
          ≡ ok (record {
            envelope = e;
            payload = payload;
            signer_public_key = prim.ed25519_public secret;
            signature = sign_manifest prim secret e.manifest;
          }))
    create_roundtrip serializers fits read_back =
        rw (create_ok fits) (parse-write_package serializers fits read_back)

    pub package-IsIntact : IsIntact prim package_of
    unfolding package_manifest
    package-IsIntact = record { size = refl; hash = refl }

    pub package-IsSignedBy : IsSignedBy prim (prim.ed25519_public secret) package_of
    unfolding sign_manifest
    package-IsSignedBy = record {
      fingerprint = refl;
      signer = refl;
      signature = lib.signature_verifies secret (canonical_manifest_bytes manifest);
    }
