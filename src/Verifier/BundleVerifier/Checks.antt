-- ===== src/Verifier/BundleVerifier/Checks.antt =====
-- verifier/bundle.py: the checks of verify_bundle on the directory, the manifest and the evidence file.
use fixrepro.Base.{
  ℕ, String, Bool, true, false, not, ◌&&◌, ◌||◌, Option, none, some, ◌==◌, nat_eq, string_eq,
  list_eq, if◌then◌else◌, List, [], ◌∷◌, ◌++◌, map, length, all, contains, is_none, Bytes, codes,
  inl, inr,
}
use fixrepro.Core.Primitives.{Primitives}
use fixrepro.Verifier.Models.{
  ExecutionRole, SignerTrust, ArtifactRecord, ExecutionEvidence, EvidenceDocument, role_eq,
  trust_eq, outcome_eq,
}
use fixrepro.Verifier.Verdicts.{by_role}
use fixrepro.Verifier.Paths.{safe_relative_path}
use fixrepro.Verifier.BundleVerifier.{
  ManifestEntry, invalid_json, null_document, document, Loaders, BundleDirectory, VerifyFailure,
  outside_repository, symlinked_directory, symlinked_file, manifest_missing, manifest_digest,
  manifest_invalid, lists_itself, listed_missing, listed_size, listed_hash, unsafe_entry,
  unlisted_file, missing_file, evidence_missing, evidence_json, evidence_model, schema_unusable,
  schema_error, envelopes_differ, bodies_differ, signer_trust, unless, manifest_name,
  manifest_digest_name, sorted, paths_are_unique_and_sorted, without,
}

-- The symlinks that the walk meets, and the place of the directory.
unfoldable pub directory_failures : Bool → BundleDirectory → List VerifyFailure
directory_failures allow_external b =
    unless (allow_external || b.in_repository) outside_repository
    ++ (map symlinked_directory b.linked_directories ++ map symlinked_file b.linked_files)

-- Whether the loop adds the entry to `manifest_paths`.
unfoldable pub is_listed : ManifestEntry → Bool
is_listed e =
    if e.path == manifest_name || e.path == manifest_digest_name
    then false
    else elim (safe_relative_path e.path) [ inl err ↦ false | inr _ ↦ true ]

unfoldable pub listed_paths : List ManifestEntry → List String
unfolding is_listed
listed_paths [] = []
listed_paths (e ∷ es) = let rest = listed_paths es in if is_listed e then e.path ∷ rest else rest

-- The files that the walk finds against the ones that are expected.
unfoldable pub layout_failures : BundleDirectory → List String → List VerifyFailure
layout_failures b manifest_paths =
    let expected = manifest_paths ++ (manifest_name ∷ manifest_digest_name ∷ []) in
    map unlisted_file (sorted (without b.found expected))
    ++ map missing_file (sorted (without expected b.found))

module _ (prim : Primitives) where
  -- manifest.json against the digest.
  unfoldable pub digest_matches : Option (List ℕ) → Bytes → Bool
  digest_matches none raw = true
  digest_matches (some digest) raw = codes (prim.sha256_hex raw) == digest

  -- One entry of the manifest, its own name and safe path first.
  unfoldable pub entry_failures : BundleDirectory → ManifestEntry → List VerifyFailure
  entry_failures b e =
      if e.path == manifest_name || e.path == manifest_digest_name
      then lists_itself e.path ∷ []
      else elim (safe_relative_path e.path) [
        | inl err ↦ unsafe_entry e.path err ∷ []
        | inr _ ↦ elim (b.regular e.path) [
          | none ↦ listed_missing e.path ∷ []
          | some content ↦
              unless (length content == e.size_bytes) (listed_size e.path)
              ++ unless (prim.sha256_hex content == e.sha256) (listed_hash e.path)
        ]
      ]

  unfoldable pub all_entry_failures : BundleDirectory → List ManifestEntry → List VerifyFailure
  unfolding entry_failures
  all_entry_failures b [] = []
  all_entry_failures b (e ∷ es) = entry_failures b e ++ all_entry_failures b es

  -- The manifest: its failures, the paths that it lists, and the number of its entries.
  unfoldable pub check_manifest :
      {V : Type 0}
      → Loaders V
      → BundleDirectory
      → Option (List ℕ)
      → List VerifyFailure × (List String × ℕ)
  unfolding digest_matches all_entry_failures listed_paths layout_failures
  check_manifest loaders b digest = elim (b.regular manifest_name) [
    | none ↦ (manifest_missing ∷ [], ([], 0))
    | some raw ↦
        let changed = unless (digest_matches digest raw) manifest_digest in
        let invalid : List VerifyFailure × (List String × ℕ) =
          (changed ++ (manifest_invalid ∷ []), ([], 0)) in
        elim (loaders.load_manifest raw) [
          | none ↦ invalid
          | some m ↦
              let paths = listed_paths m.files in
              if paths_are_unique_and_sorted m
              then (
                changed ++ (all_entry_failures b m.files ++ layout_failures b paths),
                (paths, length m.files),
              )
              else invalid
        ]
  ]

-- evidence.json: its failures, and the document if the strict model accepts it.
unfoldable pub schema_failures : Option (List String) → List VerifyFailure
schema_failures none = schema_unusable ∷ []
schema_failures (some errors) = map schema_error errors

unfoldable pub load_evidence :
    {V : Type 0} → Loaders V → BundleDirectory → List VerifyFailure × Option EvidenceDocument
unfolding schema_failures
load_evidence loaders b = elim (b.regular "evidence.json") [
  | none ↦ (evidence_missing ∷ [], none)
  | some raw ↦ elim (loaders.load_strict_json raw) [
    | invalid_json ↦ (evidence_json ∷ [], none)
    | null_document ↦ ([], none)
    | document v ↦
        let evidence = loaders.validate_evidence raw in
        (
          schema_failures (loaders.schema_errors v)
              ++ unless (not (is_none evidence)) evidence_model,
          evidence,
        )
  ]
]

-- `next((item for item in executions if item.role == role), None)`
unfoldable pub first_of : ExecutionRole → List ExecutionEvidence → Option ExecutionEvidence
first_of role [] = none
first_of role (e ∷ es) = let rest = first_of role es in if e.role == role then some e else rest

unfoldable pub input_failures :
    Option ExecutionEvidence → Option ExecutionEvidence → List VerifyFailure
input_failures (some v) (some p) =
    unless (v.package_evidence.envelope_sha256 == p.package_evidence.envelope_sha256)
      envelopes_differ
    ++ unless (v.request.body_sha256 == p.request.body_sha256) bodies_differ
input_failures _ _ = []

abbrev pub expected_evidence_artifacts : List String
expected_evidence_artifacts =
    "packages/untrusted-update.json" ∷ "packages/trusted-update.json" ∷ "raw/vulnerable.json"
    ∷ "raw/patched.json" ∷ "raw/positive-control.json" ∷ "trust/trusted-public-key.pem" ∷ "run.log"
    ∷ []

unfoldable pub has_seven_artifacts : List ArtifactRecord → Bool
has_seven_artifacts records =
    let paths = map (λ (r : ArtifactRecord). r.path) records in
    all (contains expected_evidence_artifacts) paths
    && all (contains paths) expected_evidence_artifacts

-- The signer trust that a role's execution records.
unfoldable pub trust_failures :
    ExecutionRole → SignerTrust → List ExecutionEvidence → List VerifyFailure
trust_failures role trust es = elim (by_role role es) [
  | none ↦ []
  | some e ↦ unless (e.package_evidence.signer_trust == trust) (signer_trust role)
]
