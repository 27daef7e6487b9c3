-- ===== src/Verifier/BundleVerifier/Verify.antt =====
-- verifier/bundle.py: verify_bundle: the checks of the evidence document, and all in their order.
use fixrepro.Base.{
  ℕ, String, Bool, true, false, not, ◌&&◌, ◌||◌, Option, none, some, ◌==◌, nat_eq, string_eq,
  list_eq, if◌then◌else◌, List, [], ◌∷◌, ◌++◌, map, contains, is_none, Bytes,
}
use fixrepro.Core.Errors.{
  Result, ok, raise, ◌>>=◌, package_validation, value_error, key_error, recursion_error,
}
use fixrepro.Core.Primitives.{Primitives}
use fixrepro.Core.Package.{DecodedPackage, parse_and_decode_package}
use fixrepro.Verifier.Models.{
  vulnerable, patched, positive_control, trusted, untrusted, ArtifactRecord, ExecutionEvidence,
  EvidenceDocument, VerificationOutcome, role_eq, trust_eq, outcome_eq, one_execution_per_role,
}
use fixrepro.Verifier.Verdicts.{
  by_role, calculate_verification_outcome, evidence_consistency_failures,
}
use fixrepro.Verifier.Bundle.{record_failures, package_record_failures, raw_record_failures}
use fixrepro.Verifier.BundleVerifier.{
  Loaders, BundleDirectory, VerifyFailure, not_a_directory, symlinked_bundle, not_one_per_role,
  stored_outcome, not_seven_artifacts, inconsistent, record_failure, trusted_key_differs,
  untrusted_key_same, trust_material, report_missing, unless, manifest_name, manifest_digest_name,
  read_digest,
}
use fixrepro.Verifier.BundleVerifier.Checks.{
  directory_failures, check_manifest, load_evidence, first_of, input_failures, has_seven_artifacts,
  trust_failures,
}

-- The files of the run that are packages.
unfoldable pub read_package : Primitives → BundleDirectory → String → Result DecodedPackage
read_package prim b path = elim (b.read_bytes path) [
  | none ↦ raise (package_validation "OSError" path)
  | some raw ↦ parse_and_decode_package prim raw
]

-- What the `try` around the trust material appends. `OSError`, `ValueError` and
-- `PackageValidationError` are caught; another exception goes on.
unfoldable pub untrusted_key_failures : Bytes → Result DecodedPackage → Result (List VerifyFailure)
untrusted_key_failures key (ok p) =
    ok (unless (not (p.signer_public_key == key)) untrusted_key_same)
untrusted_key_failures key (raise (package_validation code message)) = ok (trust_material ∷ [])
untrusted_key_failures key (raise (value_error message)) = ok (trust_material ∷ [])
untrusted_key_failures key (raise e) = raise e

unfoldable pub trusted_key_failures :
    Bytes → Result DecodedPackage → Result DecodedPackage → Result (List VerifyFailure)
unfolding untrusted_key_failures
trusted_key_failures key (ok p) other = do
  more ← untrusted_key_failures key other
  ok (unless (p.signer_public_key == key) trusted_key_differs ++ more)
trusted_key_failures key (raise (package_validation code message)) other = ok (trust_material ∷ [])
trusted_key_failures key (raise (value_error message)) other = ok (trust_material ∷ [])
trusted_key_failures key (raise e) other = raise e

module _ {V : Type 0} (prim : Primitives) (loaders : Loaders V) where
  unfoldable pub key_failures :
      BundleDirectory → List ExecutionEvidence → Result (List VerifyFailure)
  unfolding trusted_key_failures read_package
  key_failures b es = elim (by_role positive_control es) [
    | none ↦ ok []
    | some e ↦ elim (b.regular "trust/trusted-public-key.pem") [
      | none ↦ ok []
      | some pem ↦ elim (loaders.load_public_key pem) [
        | none ↦ ok (trust_material ∷ [])
        | some key ↦
            trusted_key_failures key (read_package prim b "packages/trusted-update.json")
              (read_package prim b "packages/untrusted-update.json")
      ]
    ]
  ]

  unfoldable pub artifact_failures :
      BundleDirectory → List String → List ArtifactRecord → List VerifyFailure
  artifact_failures b paths [] = []
  artifact_failures b paths (r ∷ rs) =
      map record_failure (record_failures prim b.regular r paths) ++ artifact_failures b paths rs

  -- The loop over the executions.
  unfoldable pub execution_file_failures :
      BundleDirectory → List String → List ExecutionEvidence → Result (List VerifyFailure)
  unfolding artifact_failures
  execution_file_failures b paths [] = ok []
  execution_file_failures b paths (e ∷ es) = do
    of_package ← package_record_failures prim b.regular e paths
    more ← execution_file_failures b paths es
    ok (
        map record_failure of_package
        ++ (map record_failure (raw_record_failures loaders.validate_raw b.read_bytes e)
            ++ (artifact_failures b paths e.artifacts ++ more)))

  -- The checks of an evidence document, and the recomputed outcome.
  unfoldable pub document_failures :
      BundleDirectory
      → List String
      → EvidenceDocument
      → Result (List VerifyFailure × VerificationOutcome)
  unfolding execution_file_failures key_failures trust_failures has_seven_artifacts input_failures
      first_of
  document_failures b paths d = elim (calculate_verification_outcome d.executions) [
    | none ↦ raise (key_error "role")
    | some outcome ↦ do
      files ← execution_file_failures b paths d.executions
      keys ← key_failures b d.executions
      ok (
        unless (one_execution_per_role d.executions) not_one_per_role
            ++ (input_failures (first_of vulnerable d.executions) (first_of patched d.executions)
                ++ (map inconsistent (evidence_consistency_failures d.executions)
                    ++ (unless (d.verification_outcome == outcome) stored_outcome
                        ++ (unless (has_seven_artifacts d.bundle_files) not_seven_artifacts
                            ++ (artifact_failures b paths d.bundle_files
                                ++ (files
                                    ++ (trust_failures vulnerable untrusted d.executions
                                        ++ (trust_failures patched untrusted d.executions
                                            ++ (trust_failures positive_control trusted d.executions
                                                ++ keys))))))))),
        outcome,
      )
  ]

pub record BundleVerificationResult : Type 0 where
  pub valid : Bool
  pub failures : List VerifyFailure
  pub verification_outcome : Option VerificationOutcome
  pub manifest_sha256 : Option (List ℕ)
  pub manifest_entry_count : ℕ

abbrev pub refused : VerifyFailure → BundleVerificationResult
refused f = record {
  valid = false;
  failures = f ∷ [];
  verification_outcome = none;
  manifest_sha256 = none;
  manifest_entry_count = 0;
}

-- `valid=not failures`
abbrev pub is_empty : List VerifyFailure → Bool
is_empty [] = true
is_empty (f ∷ fs) = false

abbrev pub result_of :
    List VerifyFailure → Option VerificationOutcome → Option (List ℕ) → ℕ → BundleVerificationResult
result_of failures outcome digest count = record {
  valid = is_empty failures;
  failures = failures;
  verification_outcome = outcome;
  manifest_sha256 = digest;
  manifest_entry_count = count;
}

module _ {V : Type 0} (prim : Primitives) (loaders : Loaders V) where
  unfoldable pub evidence_failures :
      BundleDirectory
      → List String
      → Option EvidenceDocument
      → Result (List VerifyFailure × Option VerificationOutcome)
  unfolding document_failures
  evidence_failures b paths none = ok ([], none)
  evidence_failures b paths (some d) = do
    checked ← document_failures prim loaders b paths d
    ok (checked.0, some checked.1)

  unfoldable pub report_failures : BundleDirectory → List String → List VerifyFailure
  report_failures b paths =
      unless (contains paths "report.html" && not (is_none (b.read_bytes "report.html")))
        report_missing

  -- The checks that need the evidence, and the result of all.
  unfoldable pub verify_loaded :
      Bool
      → BundleDirectory
      → List VerifyFailure × Option EvidenceDocument
      → Result BundleVerificationResult
  unfolding evidence_failures
  verify_loaded allow_external b (loading_failures, evidence) = do
    let (digest_failures, digest) = read_digest (b.regular manifest_digest_name)
    let (manifest_failures, (paths, count)) = check_manifest prim loaders b digest
    (checks, outcome) ← evidence_failures b paths evidence
    let failures =
        directory_failures allow_external b
        ++ (digest_failures
            ++ (manifest_failures ++ (loading_failures ++ (checks ++ report_failures b paths))))
    ok (result_of failures outcome digest count)

  -- Nothing catches the `RecursionError` of `load_strict_json`, be it the manifest or the evidence that is
  -- nested too deeply.
  unfoldable pub exceeds_nesting : BundleDirectory → String → Bool
  exceeds_nesting b path = elim (b.regular path) [
    | none ↦ false
    | some raw ↦ loaders.nests_too_deeply raw
  ]

  -- `verify_bundle`
  unfoldable pub verify_bundle : Bool → BundleDirectory → Result BundleVerificationResult
  verify_bundle allow_external b =
      if not b.is_dir
      then ok (refused not_a_directory)
      else if b.is_symlink
      then ok (refused symlinked_bundle)
      else if exceeds_nesting b manifest_name || exceeds_nesting b "evidence.json"
      then raise recursion_error
      else verify_loaded allow_external b (load_evidence loaders b)
