-- ===== src/Verifier/BundleVerifier/Files.antt =====
-- verifier/bundle.py: the files of a bundle whose checks of the evidence find nothing.
use fixrepro.Base.{
  ℕ, ◌==◌, ◌≡◌, inl, inr, refl, sym, ap, ◌∙◌, String, true, some, nat_eq, string_eq, List, [], ◌∷◌,
  ◌++◌, map, All, Bytes, length, contains, arith, Option-cases,
}
use fixrepro.Core.Errors.{ok, Result-cases, ok-injective}
use fixrepro.Core.Primitives.{Primitives}
use fixrepro.Core.Package.{DecodedPackage}
use fixrepro.Verifier.Models.{
  ArtifactRecord, ExecutionEvidence, EvidenceDocument, VerificationOutcome, outcome_eq, vulnerable,
  patched, positive_control, trusted, untrusted, one_execution_per_role,
}
use fixrepro.Verifier.Verdicts.{calculate_verification_outcome, evidence_consistency_failures}
use fixrepro.Verifier.Paths.{safe_relative_path}
use fixrepro.Verifier.Bundle.{
  BundleFailure, RawScenarioRecord, references, read_raw, record_failures, package_record_failures,
  raw_record_failures,
}
use fixrepro.Verifier.Bundle.Raw.{IsRecordOf, raw_record_failures_iff}
use fixrepro.Verifier.Bundle.Records.{IsPackageOf, record_failures_iff, package_record_failures_iff}
use fixrepro.Verifier.BundleVerifier.{
  Loaders, BundleDirectory, VerifyFailure, record_failure, inconsistent, not_one_per_role,
  stored_outcome, not_seven_artifacts, unless,
}
use fixrepro.Verifier.BundleVerifier.Checks.{
  first_of, input_failures, has_seven_artifacts, trust_failures,
}
use fixrepro.Verifier.BundleVerifier.Verify.{
  artifact_failures, execution_file_failures, key_failures, document_failures,
}

pub append_nil : {A : Type 0} (xs ys : List A) → xs ++ ys ≡ [] → (xs ≡ []) × (ys ≡ [])
append_nil [] ys h = ground arith
append_nil (x ∷ xs) ys h = ground arith

-- The sixth and the seventh of the lists, if all are empty.
sixth_seventh_nil :
    {A : Type 0} (a c e f g h k rest : List A)
    → a ++ (c ++ (e ++ (f ++ (g ++ (h ++ (k ++ rest)))))) ≡ []
    → (h ≡ []) × (k ≡ [])
sixth_seventh_nil a c e f g h k rest nothing =
    let n₁ = append_nil a (c ++ (e ++ (f ++ (g ++ (h ++ (k ++ rest)))))) nothing in
    let n₂ = append_nil c (e ++ (f ++ (g ++ (h ++ (k ++ rest))))) n₁.1 in
    let n₃ = append_nil e (f ++ (g ++ (h ++ (k ++ rest)))) n₂.1 in
    let n₄ = append_nil f (g ++ (h ++ (k ++ rest))) n₃.1 in
    let n₅ = append_nil g (h ++ (k ++ rest)) n₄.1 in
    let n₆ = append_nil h (k ++ rest) n₅.1 in (n₆.0, (append_nil k rest n₆.1).0)

pub map_nil : {A B : Type 0} (f : A → B) (xs : List A) → map f xs ≡ [] → xs ≡ []
map_nil f [] h = refl
map_nil f (x ∷ xs) h = ground arith

module _ {V : Type 0} (prim : Primitives) (loaders : Loaders V) (b : BundleDirectory)
    (paths : List String) where
  -- The file of an artifact record is there, listed, and as recorded.
  abbrev pub IsInPlace : ArtifactRecord → Type 0
  IsInPlace r =
      (parts : List (List ℕ)) × (content : Bytes) × (safe_relative_path r.path ≡ inr parts)
      × (contains paths r.path ≡ true)
      × (b.regular r.path ≡ some content)
      × (length content ≡ r.size_bytes)
      × (prim.sha256_hex content ≡ r.sha256)

  -- The package that an execution describes is there and listed, and its raw record says of the run what the
  -- execution says; so are the files that it refers to.
  pub record IsFiled (e : ExecutionEvidence) : Type 0 where
    pub package_there :
        (parts : List (List ℕ)) × (raw : Bytes) × (p : DecodedPackage) × (safe_relative_path
            e.package_evidence.filename
          ≡ inr parts)
        × (contains paths e.package_evidence.filename ≡ true)
        × (b.regular e.package_evidence.filename ≡ some raw)
        × IsPackageOf prim b.regular e raw p
    pub recorded :
        (references e ≡ true)
        × (r : RawScenarioRecord) × (read_raw loaders.validate_raw b.read_bytes e.role ≡ some r)
        × IsRecordOf e r
    pub artifacts : All IsInPlace e.artifacts

  artifacts-IsInPlace :
      (rs : List ArtifactRecord) → artifact_failures prim loaders b paths rs ≡ [] → All IsInPlace rs
  unfolding artifact_failures
  artifacts-IsInPlace [] h = tt
  artifacts-IsInPlace (r ∷ rs) h =
      let (here, rest) =
        append_nil (map record_failure (record_failures prim b.regular r paths))
          (artifact_failures prim loaders b paths rs) h in
      (
        (record_failures_iff prim b.regular r paths).0
            (map_nil record_failure (record_failures prim b.regular r paths) here),
        artifacts-IsInPlace rs rest,
      )

  execution-IsFiled :
      (e : ExecutionEvidence) (of_package : List BundleFailure) (more : List VerifyFailure)
      → package_record_failures prim b.regular e paths ≡ ok of_package
      → map record_failure of_package
          ++ (map record_failure (raw_record_failures loaders.validate_raw b.read_bytes e)
              ++ (artifact_failures prim loaders b paths e.artifacts ++ more))
        ≡ []
      → IsFiled e × (more ≡ [])
  execution-IsFiled e of_package more checked nothing =
      let of_raw = raw_record_failures loaders.validate_raw b.read_bytes e in
      let of_artifacts = artifact_failures prim loaders b paths e.artifacts in
      let (no_package, after) =
        append_nil (map record_failure of_package)
          (map record_failure of_raw ++ (of_artifacts ++ more)) nothing in
      let (no_raw, after_raw) =
        append_nil (map record_failure of_raw) (of_artifacts ++ more) after in
      let (no_artifacts, no_more) = append_nil of_artifacts more after_raw in
      (
        record {
          package_there =
              (package_record_failures_iff prim b.regular e paths).0
                (checked ∙ ap (λ fs. ok fs) (map_nil record_failure of_package no_package));
          recorded =
              (raw_record_failures_iff loaders.validate_raw b.read_bytes e).0
                (map_nil record_failure of_raw no_raw);
          artifacts = artifacts-IsInPlace e.artifacts no_artifacts;
        },
        no_more,
      )

  executions-IsFiled :
      (es : List ExecutionEvidence)
      → execution_file_failures prim loaders b paths es ≡ ok []
      → All IsFiled es
  unfolding execution_file_failures
  executions-IsFiled [] h = tt
  executions-IsFiled (e ∷ es) h =
      elim (Result-cases (package_record_failures prim b.regular e paths)) [
        | inr (x, raised) ↦ absurd (ground arith)
        | inl (of_package, checked) ↦
            elim (Result-cases (execution_file_failures prim loaders b paths es)) [
              | inr (x, raised) ↦ absurd (ground arith)
              | inl (more, rest) ↦
                  let (filed, no_more) =
                    execution-IsFiled e of_package more checked (ground arith) in
                  (filed, executions-IsFiled es (rest ∙ ap (λ fs. ok fs) no_more))
            ]
      ]

  -- The failures of a document, with those of its executions' files and of its keys.
  abbrev collected :
      EvidenceDocument
      → VerificationOutcome
      → List VerifyFailure
      → List VerifyFailure
      → List VerifyFailure
  collected d outcome files keys =
      unless (one_execution_per_role d.executions) not_one_per_role
      ++ (input_failures (first_of vulnerable d.executions) (first_of patched d.executions)
          ++ (map inconsistent (evidence_consistency_failures d.executions)
              ++ (unless (d.verification_outcome == outcome) stored_outcome
                  ++ (unless (has_seven_artifacts d.bundle_files) not_seven_artifacts
                      ++ (artifact_failures prim loaders b paths d.bundle_files
                          ++ (files
                              ++ (trust_failures vulnerable untrusted d.executions
                                  ++ (trust_failures patched untrusted d.executions
                                      ++ (trust_failures positive_control trusted d.executions
                                          ++ keys)))))))))

  collected_nil :
      (d : EvidenceDocument) (outcome : VerificationOutcome) (files keys : List VerifyFailure)
      → collected d outcome files keys ≡ []
      → (files ≡ []) × (artifact_failures prim loaders b paths d.bundle_files ≡ [])
  collected_nil d outcome files keys nothing =
      let (no_artifacts, no_files) =
        sixth_seventh_nil (unless (one_execution_per_role d.executions) not_one_per_role)
          (input_failures (first_of vulnerable d.executions) (first_of patched d.executions))
          (map inconsistent (evidence_consistency_failures d.executions))
          (unless (d.verification_outcome == outcome) stored_outcome)
          (unless (has_seven_artifacts d.bundle_files) not_seven_artifacts)
          (artifact_failures prim loaders b paths d.bundle_files) files
          (trust_failures vulnerable untrusted d.executions
            ++ (trust_failures patched untrusted d.executions
                ++ (trust_failures positive_control trusted d.executions ++ keys)))
          nothing in
      (no_files, no_artifacts)

  no_file_failures :
      (d : EvidenceDocument) (o : VerificationOutcome)
      → document_failures prim loaders b paths d ≡ ok ([], o)
      → (execution_file_failures prim loaders b paths d.executions ≡ ok [])
        × (artifact_failures prim loaders b paths d.bundle_files ≡ [])
  unfolding document_failures
  no_file_failures d o h = elim (Option-cases (calculate_verification_outcome d.executions)) [
    | inl missing ↦ absurd (ground arith)
    | inr (outcome, computed) ↦
        elim (Result-cases (execution_file_failures prim loaders b paths d.executions)) [
          | inr (x, raised) ↦ absurd (ground arith)
          | inl (files, checked) ↦ elim (Result-cases (key_failures prim loaders b d.executions)) [
            | inr (x, raised) ↦ absurd (ground arith)
            | inl (keys, checked_keys) ↦
                let returned : document_failures prim loaders b paths d
                    ≡ ok (collected d outcome files keys, outcome) =
                  rw (document_failures, computed, checked, checked_keys) refl in
                let nothing : collected d outcome files keys ≡ [] =
                  ap (λ (r : List VerifyFailure × VerificationOutcome). r.0)
                    (ok-injective (sym returned ∙ h)) in
                let (no_files, no_artifacts) = collected_nil d outcome files keys nothing in
                (checked ∙ ap (λ fs. ok fs) no_files, no_artifacts)
          ]
        ]
  ]

  pub document-IsFiled :
      (d : EvidenceDocument) (o : VerificationOutcome)
      → document_failures prim loaders b paths d ≡ ok ([], o)
      → All IsFiled d.executions × All IsInPlace d.bundle_files
  document-IsFiled d o h =
      let (no_files, no_artifacts) = no_file_failures d o h in
      (executions-IsFiled d.executions no_files, artifacts-IsInPlace d.bundle_files no_artifacts)
