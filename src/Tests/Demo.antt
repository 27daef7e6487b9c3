-- ===== src/Tests/Demo.antt =====
-- Lawful toy libraries, and the demonstration run from two private keys.
use Prim.Native.Char.{code}
use fixrepro.Base.{
  ℕ, zero, suc, ◌≡◌, ◌≢◌, ◌∙◌, refl, inl, inr, String, true, Option, none, some, ◌==◌, nat_eq,
  list_eq, string_eq, [], ◌∷◌, ◌+◌, Bytes, if◌then◌else◌, option_eq, length, ltb, arith, Bool-cases,
  ap,
}
use fixrepro.Base.Text.{is_sha256, is_hex, count_chars}
use fixrepro.Core.Errors.{Returns, ok}
use fixrepro.Core.Json.{Value, obj, get_field, get_text}
use fixrepro.Core.Primitives.{Primitives, JsonLoads, loaded, decode_error, verified}
use fixrepro.Core.Models.{non_empty, within, PackageEnvelope}
use fixrepro.Core.Package.{sign_manifest, parse_and_decode_package}
use fixrepro.Core.Evaluation.{evaluate_patched_policy}
use fixrepro.Core.Artifacts.{
  Serializers, create_package, write_package, dump_envelope, dump_manifest, package_manifest,
  untrusted_payload, trusted_payload,
}
use fixrepro.Core.Artifacts.Generated.{IsLibrary, package_of, create_roundtrip}
use fixrepro.Device.{init}
use fixrepro.Verifier.Models.{ArtifactRecord, patch_verified}
use fixrepro.Verifier.Orchestrator.{Stamp, ScenarioCapture}
use fixrepro.Verifier.Orchestrator.Lab.{lab}
use fixrepro.Verifier.Orchestrator.Demo.{run_demonstration, demonstration_verifies_patch}
use fixrepro.Tests.Toy.{trusted_key, other_key, signature_bytes, digest}

-- A byte `n` is written as `n` times A and a B.
abbrev unary : ℕ → String → String
unary zero s = String.◌∷◌ "B" s
unary (suc n) s = String.◌∷◌ "A" (unary n s)

abbrev encode : Bytes → String
encode [] = String.[]
encode (n ∷ ns) = unary n (encode ns)

abbrev prefixed : ℕ → Option Bytes → Option Bytes
prefixed n none = none
prefixed n (some ns) = some (n ∷ ns)

abbrev decode : ℕ → String → Option Bytes
decode k String.[] = some []
decode k (String.◌∷◌ c s) = if code c == 65 then decode (suc k) s else prefixed k (decode zero s)

decode-unary : (n k : ℕ) (s : String) → decode k (unary n s) ≡ prefixed (n + k) (decode zero s)
decode-unary zero k s = ap (λ m. prefixed m (decode zero s)) (omega arith)
decode-unary (suc n) k s =
    let shifted : n + suc k ≡ suc n + k = omega arith in
    decode-unary n (suc k) s ∙ ap (λ m. prefixed m (decode zero s)) shifted

decode-encode : (b : Bytes) → decode zero (encode b) ≡ some b
decode-encode [] = refl
decode-encode (n ∷ ns) =
    rw (decode-unary n zero (encode ns), decode-encode ns) (ap (λ m. some (m ∷ ns)) (omega arith))

unary-non_empty : (n : ℕ) (s : String) → non_empty (unary n s) ≡ true
unfolding non_empty count_chars
unary-non_empty zero s = ground arith
unary-non_empty (suc n) s = ground arith

encode-non_empty : (b : Bytes) → ltb 0 (length b) ≡ true → non_empty (encode b) ≡ true
encode-non_empty [] h = ground arith
encode-non_empty (n ∷ ns) h = unary-non_empty n (encode ns)

abbrev public_of : Bytes → Bytes
public_of secret = if secret == 1 ∷ [] then trusted_key else other_key

public_of-length : (secret : Bytes) → length (public_of secret) ≡ 32
public_of-length secret = elim (Bool-cases (secret == 1 ∷ [])) [
  | inl e ↦ rw e refl
  | inr e ↦ rw e refl
]

-- The libraries before JSON is read.
abbrev libraries : (Bytes → JsonLoads) → Primitives
libraries loads = record {
  sha256_hex = λ _. digest;
  b64decode = decode zero;
  b64encode = encode;
  json_loads = loads;
  ed25519_verify = λ _ _ _. verified;
  ed25519_sign = λ _ _. signature_bytes;
  ed25519_public = public_of;
}

abbrev untrusted_envelope : PackageEnvelope
untrusted_envelope =
    (package_of (libraries (λ _. decode_error)) (2 ∷ []) "ota-untrusted-signer-001" "9.9.0-test"
      untrusted_payload).envelope

abbrev trusted_envelope : PackageEnvelope
trusted_envelope =
    (package_of (libraries (λ _. decode_error)) (1 ∷ []) "ota-trusted-signer-001" "1.1.0"
      trusted_payload).envelope

abbrev lawful : Primitives
lawful = libraries λ raw.
    if raw == 1 ∷ []
    then loaded (dump_envelope trusted_envelope)
    else loaded (dump_envelope untrusted_envelope)

lawful-IsLibrary : IsLibrary lawful
unfolding is_sha256 is_hex
lawful-IsLibrary = record {
  hex_digest = λ _. refl;
  b64_round = decode-encode;
  b64_non_empty = encode-non_empty;
  key_size = public_of-length;
  signature_size = λ _ _. refl;
  signature_verifies = λ _ _. refl;
}

-- A file is named by its package's version.
abbrev version_byte : Option Value → Bytes
version_byte (some (obj fields)) =
    if get_text "firmware_version" fields == some "1.1.0" then 1 ∷ [] else 2 ∷ []
version_byte _ = []

abbrev print : Value → Bytes
print (obj fields) = version_byte (get_field "manifest" fields)
print _ = []

abbrev serializers : Serializers
serializers = record { pretty = print; public_key_pem = λ key. key }

abbrev stamp : Stamp
stamp = record { execution_id = "EX"; started_at = "s"; finished_at = "f" }

abbrev artifact : ScenarioCapture → ArtifactRecord
artifact _ = record {
  path = "raw/vulnerable.json";
  sha256 = digest;
  size_bytes = 1;
  media_type = "application/json";
}

keys_differ : public_of (2 ∷ []) ≢ public_of (1 ∷ [])
keys_differ h = ground arith

create_roundtrip_example :
    Returns (create_package lawful (1 ∷ []) "ota-trusted-signer-001" "1.1.0" trusted_payload) (λ e.
      parse_and_decode_package lawful (write_package lawful serializers e)
      ≡ ok (record {
        envelope = e;
        payload = trusted_payload;
        signer_public_key = trusted_key;
        signature = sign_manifest lawful (1 ∷ []) e.manifest;
      }))
unfolding dump_envelope dump_manifest get_field get_text package_manifest sign_manifest within
    count_chars
create_roundtrip_example =
    create_roundtrip lawful (1 ∷ []) "ota-trusted-signer-001" "1.1.0" trusted_payload
      lawful-IsLibrary serializers (refl, refl, refl) refl

demonstration_verifies_patch_example :
    Returns
      (run_demonstration lawful serializers artifact
        (lab lawful (λ _. []) (λ body. evaluate_patched_policy lawful body trusted_key))
        (1 ∷ [])
        (2 ∷ [])
        (stamp ∷ stamp ∷ stamp ∷ [])
        init).0
      (λ r. r.1 ≡ some patch_verified)
unfolding dump_envelope dump_manifest get_field get_text package_manifest sign_manifest
demonstration_verifies_patch_example =
    demonstration_verifies_patch lawful serializers (1 ∷ []) (2 ∷ []) lawful-IsLibrary keys_differ
      refl refl artifact (λ _. []) stamp stamp stamp init
