-- ===== src/Verifier/Orchestrator/Demo.antt =====
-- verifier/orchestrator.py: the part of `run` from the generated artifacts to the outcome, over fixrepro_core/artifacts.py.
use fixrepro.Base.{◌≡◌, ◌≢◌, refl, Bytes, List, [], ◌∷◌, Option, some}
use fixrepro.Core.Errors.{Result, ok, raise, ◌>>=◌, Returns}
use fixrepro.Core.Primitives.{loaded, Primitives}
use fixrepro.Core.Models.{PackageEnvelope, within}
use fixrepro.Base.Text.{count_chars}
use fixrepro.Core.Package.{DecodedPackage, parse_and_decode_package}
use fixrepro.Core.Evaluation.{evaluate_patched_policy}
use fixrepro.Core.Gateway.{GatewayResponse}
use fixrepro.Core.Artifacts.{
  Serializers, GeneratedArtifacts, dump_envelope, package_manifest, untrusted_payload,
  trusted_payload, create_package, write_package, generate_demo_artifacts,
}
use fixrepro.Core.Artifacts.Generated.{
  IsLibrary, IsGenerable, package_of, create_ok, parse-write_package, package-IsIntact,
  package-IsSignedBy,
}
use fixrepro.Device.{VirtualDevice}
use fixrepro.Verifier.Models.{
  ArtifactRecord, ExecutionEvidence, VerificationOutcome, patch_verified,
}
use fixrepro.Verifier.Orchestrator.{
  Client, Stamp, ScenarioDefinition, ScenarioCapture, definitions, stamped, run_scenarios,
}
use fixrepro.Verifier.Orchestrator.Lab.{lab}
use fixrepro.Verifier.Orchestrator.Run.{IsDemonstration, lab_verifies_patch}

-- Both packages are read back from their files.
unfoldable pub demo_definitions : Primitives → GeneratedArtifacts → Result (List ScenarioDefinition)
demo_definitions prim artifacts = do
  untrusted_package ← parse_and_decode_package prim artifacts.untrusted_package
  trusted_package ← parse_and_decode_package prim artifacts.trusted_package
  ok (
      definitions artifacts.untrusted_package untrusted_package artifacts.trusted_package
        trusted_package)

-- The artifacts, both packages parsed, and the three scenarios; any exception before them ends the run.
unfoldable pub run_demonstration {ℓ} :
    {W : Type ℓ}
    → Primitives
    → Serializers
    → (ScenarioCapture → ArtifactRecord)
    → Client W
    → Bytes
    → Bytes
    → List Stamp
    → W
    → Result (List ExecutionEvidence × Option VerificationOutcome) × W
unfolding demo_definitions
run_demonstration prim serializers raw_artifact client trusted_secret untrusted_secret stamps w =
    elim (generate_demo_artifacts prim serializers trusted_secret untrusted_secret
      >>= demo_definitions prim) [
        | raise e ↦ (raise e, w)
        | ok scenarios ↦ run_scenarios prim raw_artifact client (stamped scenarios stamps) w
      ]

module _ (prim : Primitives) (serializers : Serializers)
    (trusted_secret untrusted_secret : Bytes) where
  abbrev untrusted_parts : DecodedPackage
  untrusted_parts =
      package_of prim untrusted_secret "ota-untrusted-signer-001" "9.9.0-test" untrusted_payload

  abbrev trusted_parts : DecodedPackage
  trusted_parts = package_of prim trusted_secret "ota-trusted-signer-001" "1.1.0" trusted_payload

  abbrev generated : GeneratedArtifacts
  generated = record {
    trusted_public_key = serializers.public_key_pem (prim.ed25519_public trusted_secret);
    untrusted_public_key = serializers.public_key_pem (prim.ed25519_public untrusted_secret);
    untrusted_package = write_package prim serializers untrusted_parts.envelope;
    trusted_package = write_package prim serializers trusted_parts.envelope;
  }

  -- JSON reads a generated document back.
  abbrev pub ReadsBack : PackageEnvelope → Type 0
  ReadsBack e = prim.json_loads (serializers.pretty (dump_envelope e)) ≡ loaded (dump_envelope e)

  untrusted_fits :
      IsGenerable prim untrusted_secret "ota-untrusted-signer-001" "9.9.0-test" untrusted_payload
  unfolding within count_chars
  untrusted_fits = (refl, refl, refl)

  trusted_fits : IsGenerable prim trusted_secret "ota-trusted-signer-001" "1.1.0" trusted_payload
  unfolding within count_chars
  trusted_fits = (refl, refl, refl)

  module _ (lib : IsLibrary prim) where
    untrusted_created :
        create_package prim untrusted_secret "ota-untrusted-signer-001" "9.9.0-test"
          untrusted_payload
        ≡ ok untrusted_parts.envelope
    untrusted_created =
        create_ok prim untrusted_secret "ota-untrusted-signer-001" "9.9.0-test" untrusted_payload
          lib untrusted_fits

    trusted_created :
        create_package prim trusted_secret "ota-trusted-signer-001" "1.1.0" trusted_payload
        ≡ ok trusted_parts.envelope
    trusted_created =
        create_ok prim trusted_secret "ota-trusted-signer-001" "1.1.0" trusted_payload lib
          trusted_fits

    generate_ok :
        generate_demo_artifacts prim serializers trusted_secret untrusted_secret ≡ ok generated
    unfolding generate_demo_artifacts
    generate_ok = rw (untrusted_created, trusted_created, generate_demo_artifacts) refl

    untrusted_read :
        ReadsBack untrusted_parts.envelope
        → parse_and_decode_package prim generated.untrusted_package ≡ ok untrusted_parts
    untrusted_read =
        parse-write_package prim untrusted_secret "ota-untrusted-signer-001" "9.9.0-test"
          untrusted_payload lib serializers untrusted_fits

    trusted_read :
        ReadsBack trusted_parts.envelope
        → parse_and_decode_package prim generated.trusted_package ≡ ok trusted_parts
    trusted_read =
        parse-write_package prim trusted_secret "ota-trusted-signer-001" "1.1.0" trusted_payload lib
          serializers trusted_fits

    -- The generated packages are the inputs that the demonstration needs.
    generated-IsDemonstration :
        prim.ed25519_public untrusted_secret ≢ prim.ed25519_public trusted_secret
        → ReadsBack untrusted_parts.envelope
        → ReadsBack trusted_parts.envelope
        → IsDemonstration prim
            (prim.ed25519_public trusted_secret)
            generated.untrusted_package
            generated.trusted_package
            untrusted_parts
            trusted_parts
    unfolding package_manifest
    generated-IsDemonstration other first second = record {
      untrusted_parsed = untrusted_read first;
      untrusted_intact =
          package-IsIntact prim untrusted_secret "ota-untrusted-signer-001" "9.9.0-test"
            untrusted_payload lib;
      untrusted_fingerprint = refl;
      untrusted_signer = other;
      untrusted_firmware = refl;
      trusted_authentic = (
        trusted_read second,
        package-IsIntact prim trusted_secret "ota-trusted-signer-001" "1.1.0" trusted_payload lib,
        package-IsSignedBy prim trusted_secret "ota-trusted-signer-001" "1.1.0" trusted_payload lib,
      );
      trusted_firmware = refl;
    }

    -- A run of the demonstration from two private keys with different public keys, given that JSON reads
    -- the two package files back: the artifacts are generated, both packages parse, and in a lab whose
    -- patched gateway trusts the first key the three scenarios run through and the outcome is
    -- PATCH_VERIFIED, whatever state the device was in.
    pub demonstration_verifies_patch :
        prim.ed25519_public untrusted_secret ≢ prim.ed25519_public trusted_secret
        → ReadsBack untrusted_parts.envelope
        → ReadsBack trusted_parts.envelope
        → (raw_artifact : ScenarioCapture → ArtifactRecord) (dump : GatewayResponse → Bytes)
          (s₁ s₂ s₃ : Stamp) (d : VirtualDevice)
        → Returns
            (run_demonstration prim serializers raw_artifact
              (lab prim dump
                (λ body. evaluate_patched_policy prim body (prim.ed25519_public trusted_secret)))
              trusted_secret
              untrusted_secret
              (s₁ ∷ s₂ ∷ s₃ ∷ [])
              d).0
            (λ r. r.1 ≡ some patch_verified)
    unfolding run_demonstration demo_definitions
    demonstration_verifies_patch other first second raw_artifact dump s₁ s₂ s₃ d =
        rw
          (
            generate_ok,
            untrusted_read first,
            trusted_read second,
            run_demonstration,
            demo_definitions,
          )
          (lab_verifies_patch prim dump raw_artifact (prim.ed25519_public trusted_secret)
            generated.untrusted_package generated.trusted_package untrusted_parts trusted_parts
            (generated-IsDemonstration other first second) s₁ s₂ s₃ d)
