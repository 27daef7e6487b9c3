-- ===== src/Tests/Core.antt =====
-- Witnesses and tests of the core: canonical bytes, policies, gateways.
use fixrepro.Base.{
  ℕ, ◌≡◌, ◌≢◌, ◌↔◌, refl, sym, ap, ◌∙◌, String, Bool, true, Option, none, some, List, [], ◌∷◌,
  Bytes, codes, arith, All, ◌⊎◌,
}
use fixrepro.Core.Errors.{ok, Returns, ok-injective}
use fixrepro.Core.Package.{
  DecodedPackage, parse_and_decode_package, strict_b64decode, parse_package_bytes, decode_package,
}
use fixrepro.Core.Models.{
  validate_envelope, validate_manifest, read_manifest, manifest_valid, envelope_valid, within,
  non_empty,
}
use fixrepro.Core.Json.{get_field, get_text, get_nat, no_extra}
use fixrepro.Core.Canonical.{
  canonical_manifest_bytes, canonical_text, utf8, utf8_char, escape, escape_char, decimal,
  text_item, number_item,
}
use fixrepro.Core.Canonical.Injective.{canonical_manifest_bytes-injective}
use fixrepro.Core.Evaluation.{
  evaluate_patched_policy, accepted, rejected, package_result, trusted_signature_accepted, patched,
}
use fixrepro.Core.Package.Decoded.{IsIntact}
use fixrepro.Core.Evaluation.Policy.{IsSignedBy, patched-accepts_iff}
use fixrepro.Core.Gateway.{process_gateway_update, make_response}
use fixrepro.Core.Gateway.Abstract.{Answered, IsClientEscape, patched_gateway_total}
use fixrepro.Core.Gateway.Safety.{
  device_endpoint, IsAuthentic, submit, submit_all, updated, authentic_applies, inauthentic_keeps,
  firmware_safe, init-IsValid,
}
use fixrepro.Device.{init, snapshot}
use fixrepro.Tests.Toy.{
  toy, trusted_raw, untrusted_raw, trusted_package, untrusted_package, trusted_key, other_key,
  toy_manifest,
}
use fixrepro.Core.Config.{require_local}
use fixrepro.Core.DeviceClient.{get_device_state, read_state}
use fixrepro.Core.Models.{state_valid}
use fixrepro.Core.Evaluation.{catch_parse}
use fixrepro.Core.Errors.{PyError, raise, recursion_error}
use fixrepro.Core.Gateway.{dump_of}
use fixrepro.Core.Package.Decoded.{json_escape}

canonical_sample :
    canonical_manifest_bytes (record (toy_manifest "a\"b") { payload_sha256 = "0" })
    ≡ codes
        "{\"firmware_version\":\"a\\\"b\",\"package_id\":\"ota-1\",\"payload_sha256\":\"0\",\"payload_size\":2,\"schema_version\":\"1.0\",\"signature_algorithm\":\"Ed25519\"}"
unfolding canonical_manifest_bytes canonical_text utf8 utf8_char escape escape_char decimal
    text_item number_item
canonical_sample = refl

canonical_manifest_bytes-injective_example : toy_manifest "1.1.0" ≡ toy_manifest "1.1.0"
canonical_manifest_bytes-injective_example =
    canonical_manifest_bytes-injective (toy_manifest "1.1.0") (toy_manifest "1.1.0") refl

pub parse_trusted : parse_and_decode_package toy trusted_raw ≡ ok trusted_package
unfolding parse_and_decode_package parse_package_bytes decode_package strict_b64decode
    validate_envelope validate_manifest read_manifest manifest_valid envelope_valid within non_empty
    get_field get_text get_nat no_extra fixrepro.Base.Text.count_chars fixrepro.Base.Text.is_sha256
parse_trusted = refl

pub parse_untrusted : parse_and_decode_package toy untrusted_raw ≡ ok untrusted_package
unfolding parse_and_decode_package parse_package_bytes decode_package strict_b64decode
    validate_envelope validate_manifest read_manifest manifest_valid envelope_valid within non_empty
    get_field get_text get_nat no_extra fixrepro.Base.Text.count_chars fixrepro.Base.Text.is_sha256
parse_untrusted = refl

pub trusted-IsIntact : IsIntact toy trusted_package
trusted-IsIntact = record { size = refl; hash = refl }

pub untrusted-IsIntact : IsIntact toy untrusted_package
untrusted-IsIntact = record { size = refl; hash = refl }

pub trusted_signed : IsSignedBy toy trusted_key trusted_package
trusted_signed = record { fingerprint = refl; signer = refl; signature = refl }

pub keys_differ : other_key ≢ trusted_key
keys_differ h = ground arith

patched-accepts_iff_example :
    (evaluate_patched_policy toy trusted_raw trusted_key
      ≡ ok (package_result accepted trusted_signature_accepted trusted_package))
    ↔ (IsIntact toy trusted_package × IsSignedBy toy trusted_key trusted_package)
patched-accepts_iff_example =
    patched-accepts_iff toy trusted_raw trusted_key trusted_package parse_trusted

trusted_accepted :
    evaluate_patched_policy toy trusted_raw trusted_key
    ≡ ok (package_result accepted trusted_signature_accepted trusted_package)
trusted_accepted =
    (patched-accepts_iff toy trusted_raw trusted_key trusted_package parse_trusted).1
      (trusted-IsIntact, trusted_signed)

patched_gateway_total_example :
    Answered device_endpoint
      (λ e. IsClientEscape device_endpoint e ⊎ (json_escape toy untrusted_raw ≡ some e))
      (process_gateway_update device_endpoint untrusted_raw patched
        (λ body. evaluate_patched_policy toy body trusted_key)
        init).0
patched_gateway_total_example =
    patched_gateway_total toy device_endpoint untrusted_raw trusted_key init

-- A body that is nested too deeply escapes, and the device stays as it was.
nested_escapes :
    process_gateway_update device_endpoint
      (3 ∷ [])
      patched
      (λ body. evaluate_patched_policy toy body trusted_key)
      init
    ≡ (raise recursion_error, init)
unfolding process_gateway_update get_device_state require_local device_endpoint read_state
    state_valid within fixrepro.Base.Text.count_chars fixrepro.Device.state snapshot
    evaluate_patched_policy catch_parse parse_and_decode_package parse_package_bytes
nested_escapes = refl

authentic_applies_example : submit toy trusted_key trusted_raw init ≡ (
  ok (
    200,
    make_response patched
        (package_result accepted trusted_signature_accepted trusted_package)
        (dump_of (snapshot init))
        (dump_of (snapshot (updated trusted_package init))),
  ),
  updated trusted_package init,
)
authentic_applies_example =
    authentic_applies toy trusted_key trusted_raw trusted_package init init-IsValid
      (parse_trusted, trusted-IsIntact, trusted_signed)

untrusted_inauthentic : (p : DecodedPackage) → ¬ IsAuthentic toy trusted_key untrusted_raw p
untrusted_inauthentic p (parsed, intact, signed) =
    let e : ok untrusted_package ≡ ok p = sym parse_untrusted ∙ parsed in
    keys_differ (ap (λ (d : DecodedPackage). d.signer_public_key) (ok-injective e) ∙ signed.signer)

inauthentic_keeps_example :
    ((submit toy trusted_key untrusted_raw init).1 ≡ init)
    × (Returns (submit toy trusted_key untrusted_raw init).0 (λ sent. sent.1.decision ≢ accepted)
        ⊎ ((x : PyError) × (json_escape toy untrusted_raw ≡ some x)
            × ((submit toy trusted_key untrusted_raw init).0 ≡ raise x)))
inauthentic_keeps_example =
    inauthentic_keeps toy trusted_key untrusted_raw init init-IsValid untrusted_inauthentic

firmware_safe_example : submit_all toy trusted_key (untrusted_raw ∷ untrusted_raw ∷ []) init ≡ init
firmware_safe_example =
    firmware_safe toy trusted_key (untrusted_raw ∷ untrusted_raw ∷ []) init init-IsValid
      (untrusted_inauthentic, (untrusted_inauthentic, tt))

not_accepted : rejected ≢ accepted
not_accepted h = ground arith
