-- ===== src/Verifier/BundleVerifier.antt =====
-- verifier/bundle.py: verify_bundle. The directory and the libraries are parameters; a failure is a
-- value instead of a message.
pub mod Checks
pub mod Verify
pub mod Files
pub mod Sound
use fixrepro.Base.{
  ℕ, zero, suc, ◌+◌, String, Bool, true, false, not, ◌&&◌, ◌||◌, Option, none, some, ◌==◌, nat_eq,
  string_eq, list_eq, if◌then◌else◌, List, [], ◌∷◌, ◌++◌, map, length, all, contains, is_none,
  Bytes, codes, is_hex, ltb, leb, inl, inr,
}
use fixrepro.Core.Errors.{Result, ok, raise, ◌>>=◌, package_validation, key_error}
use fixrepro.Core.Primitives.{Primitives}
use fixrepro.Core.Package.{DecodedPackage, parse_and_decode_package}
use fixrepro.Verifier.Models.{
  ExecutionRole, vulnerable, patched, positive_control, SignerTrust, trusted, untrusted,
  ArtifactRecord, ExecutionEvidence, EvidenceDocument, VerificationOutcome, role_eq, trust_eq,
  outcome_eq, one_execution_per_role,
}
use fixrepro.Verifier.Verdicts.{
  Mismatch, by_role, calculate_verification_outcome, evidence_consistency_failures,
}
use fixrepro.Verifier.Paths.{PathError, safe_relative_path}
use fixrepro.Verifier.Bundle.{
  BundleFiles, BundleFailure, RawScenarioRecord, record_failures, package_record_failures,
  raw_record_failures,
}

pub record ManifestEntry : Type 0 where
  pub path : String
  pub sha256 : String
  pub size_bytes : ℕ

pub record BundleManifest : Type 0 where
  pub schema_version : String
  pub files : List ManifestEntry

-- What `load_strict_json` of the evidence gives: an exception that is caught, `None` for the document `null`, or
-- another document, of which the code keeps nothing but what the schema check finds.
pub data StrictJson (V : Type 0) : Type 0 where
  invalid_json null_document : StrictJson V
  document : V → StrictJson V

-- The libraries: JSON and pydantic, the schema validator (`none` if the schema cannot be applied), and
-- the public key that a PEM file holds.
pub record Loaders (V : Type 0) : Type 1 where
  pub load_manifest : Bytes → Option BundleManifest
  pub load_strict_json : Bytes → StrictJson V
  pub schema_errors : V → Option (List String)
  pub validate_evidence : Bytes → Option EvidenceDocument
  pub validate_raw : Bytes → Option RawScenarioRecord
  pub load_public_key : Bytes → Option Bytes
  pub nests_too_deeply : Bytes → Bool  -- `load_strict_json` raises RecursionError

-- The directory: what `os.walk` finds, the files that are no symlinks, and what opening a path gives.
pub record BundleDirectory : Type 0 where
  pub is_dir : Bool
  pub is_symlink : Bool
  pub in_repository : Bool
  pub found : List String
  pub linked_directories : List String
  pub linked_files : List String
  pub regular : BundleFiles
  pub read_bytes : BundleFiles

pub data VerifyFailure : Type 0 where
  not_a_directory symlinked_bundle outside_repository : VerifyFailure
  symlinked_directory symlinked_file : String → VerifyFailure
  digest_missing digest_unreadable digest_format : VerifyFailure
  manifest_missing manifest_digest manifest_invalid : VerifyFailure
  lists_itself listed_missing listed_size listed_hash : String → VerifyFailure
  unsafe_entry : String → PathError → VerifyFailure
  unlisted_file missing_file : String → VerifyFailure
  evidence_missing evidence_json evidence_model schema_unusable : VerifyFailure
  schema_error : String → VerifyFailure
  not_one_per_role envelopes_differ bodies_differ stored_outcome not_seven_artifacts : VerifyFailure
  inconsistent : Mismatch → VerifyFailure
  record_failure : BundleFailure → VerifyFailure
  signer_trust : ExecutionRole → VerifyFailure
  trusted_key_differs untrusted_key_same trust_material report_missing : VerifyFailure

abbrev pub unless : Bool → VerifyFailure → List VerifyFailure
unless true f = []
unless false f = f ∷ []

abbrev pub manifest_name : String
manifest_name = "manifest.json"

abbrev pub manifest_digest_name : String
manifest_digest_name = "manifest.sha256"

-- `read_text` turns every line end into `\n`.
unfoldable pub universal_newlines : List ℕ → List ℕ
universal_newlines [] = []
universal_newlines (c ∷ []) = (if c == 13 then 10 else c) ∷ []
universal_newlines (c ∷ d ∷ rest) =
    let whole = universal_newlines (d ∷ rest) in
    let short = universal_newlines rest in
    if c == 13 then (if d == 10 then 10 ∷ short else 10 ∷ whole) else c ∷ whole

-- `^([a-f0-9]{64})  manifest\.json\n$`: the hexadecimal digits still to be read, then the rest.
unfoldable pub digest_group : ℕ → List ℕ → Option (List ℕ)
digest_group zero text = if text == codes "  manifest.json" ++ (10 ∷ []) then some [] else none
digest_group (suc n) [] = none
digest_group (suc n) (c ∷ rest) =
    let more = digest_group n rest in
    if is_hex c then elim more [ none ↦ none | some ds ↦ some (c ∷ ds) ] else none

abbrev pub is_ascii : Bytes → Bool
is_ascii raw = all (λ b. ltb b 128) raw

-- manifest.sha256: its failures, and the digest if it has the format.
unfoldable pub read_digest : Option Bytes → List VerifyFailure × Option (List ℕ)
unfolding digest_group universal_newlines
read_digest none = (digest_missing ∷ [], none)
read_digest (some raw) =
    let text = if is_ascii raw then universal_newlines raw else [] in
    let digest = digest_group 64 text in
    (unless (is_ascii raw) digest_unreadable ++ unless (not (is_none digest)) digest_format, digest)

-- Python's order of texts, and `sorted`.
unfoldable pub codes_leb : List ℕ → List ℕ → Bool
codes_leb [] ys = true
codes_leb (x ∷ xs) [] = false
codes_leb (x ∷ xs) (y ∷ ys) = ltb x y || x == y && codes_leb xs ys

unfoldable pub insert_text : String → List String → List String
unfolding codes_leb
insert_text x [] = x ∷ []
insert_text x (y ∷ ys) =
    let rest = insert_text x ys in if codes_leb (codes x) (codes y) then x ∷ y ∷ ys else y ∷ rest

unfoldable pub sorted : List String → List String
unfolding insert_text
sorted [] = []
sorted (x ∷ xs) = insert_text x (sorted xs)

unfoldable pub unique : List String → Bool
unique [] = true
unique (x ∷ xs) = not (contains xs x) && unique xs

-- The validator of `BundleManifest`.
unfoldable pub paths_are_unique_and_sorted : BundleManifest → Bool
unfolding sorted unique
paths_are_unique_and_sorted m =
    let paths = map (λ (e : ManifestEntry). e.path) m.files in paths == sorted paths && unique paths

unfoldable pub without : List String → List String → List String
without [] taken = []
without (x ∷ xs) taken = let rest = without xs taken in if contains taken x then rest else x ∷ rest
