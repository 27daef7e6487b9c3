-- ===== src/Verifier/BundleVerifier/Sound.antt =====
-- What a bundle without failures guarantees, with an outcome and without one.
use fixrepro.Base.{
  ◌≡◌, ◌≢◌, ◌⊎◌, not, is_none, inl, inr, refl, sym, ap, ◌∙◌, String, Bool, true, false, Option,
  none, some, string_eq, List, [], ◌∷◌, ◌++◌, All, Bytes, arith, Option-cases,
}
use fixrepro.Core.Errors.{ok, raise, Result-cases, PyError, ok-injective}
use fixrepro.Core.Primitives.{Primitives}
use fixrepro.Verifier.Models.{
  EvidenceDocument, VerificationOutcome, outcome_eq, one_execution_per_role,
}
use fixrepro.Verifier.Verdicts.{calculate_verification_outcome, evidence_consistency_failures}
use fixrepro.Verifier.Verdicts.Consistency.{IsConsistent, consistency_failures_iff}
use fixrepro.Verifier.BundleVerifier.{
  Loaders, BundleDirectory, VerifyFailure, StrictJson, invalid_json, document, unless,
  evidence_model, null_document, manifest_name, manifest_digest_name, read_digest, inconsistent,
}
use fixrepro.Verifier.BundleVerifier.Files.{
  append_nil, map_nil, IsFiled, IsInPlace, document-IsFiled,
}
use fixrepro.Verifier.BundleVerifier.Checks.{
  check_manifest, load_evidence, schema_failures, directory_failures,
}
use fixrepro.Verifier.BundleVerifier.Verify.{
  document_failures, evidence_failures, report_failures, verify_loaded, exceeds_nesting,
  verify_bundle, BundleVerificationResult, result_of, is_empty,
}

empty_nil : (fs : List VerifyFailure) → is_empty fs ≡ true → fs ≡ []
empty_nil [] h = refl
empty_nil (f ∷ fs) h = ground arith

some-injective : {a b : VerificationOutcome} → some a ≡ some b → a ≡ b
some-injective h = cc

json_cases :
    {V : Type 0} (j : StrictJson V)
    → (j ≡ invalid_json) ⊎ ((j ≡ null_document) ⊎ ((v : V) × (j ≡ document v)))
json_cases invalid_json = inl refl
json_cases null_document = inr (inl refl)
json_cases (document v) = inr (inr (v, refl))

module _ {V : Type 0} (prim : Primitives) (loaders : Loaders V) where
  verify_loads :
      (allow_external : Bool) (b : BundleDirectory)
      → b.is_dir ≡ true
      → b.is_symlink ≡ false
      → exceeds_nesting prim loaders b manifest_name ≡ false
      → exceeds_nesting prim loaders b "evidence.json" ≡ false
      → verify_bundle prim loaders allow_external b
        ≡ verify_loaded prim loaders allow_external b (load_evidence loaders b)
  unfolding verify_bundle
  verify_loads allow_external b dir plain flat₁ flat₂ = ground (arith, dir, plain, flat₁, flat₂)

  -- The paths that the manifest lists.
  abbrev pub listed : BundleDirectory → List String
  listed b = (check_manifest prim loaders b (read_digest (b.regular manifest_digest_name)).1).1.0

  -- The evidence that stands behind a reported outcome.
  pub record IsBackedBy (b : BundleDirectory) (o : VerificationOutcome) (raw : Bytes)
      (d : EvidenceDocument) : Type 0 where
    pub found : b.regular "evidence.json" ≡ some raw
    pub accepted : loaders.validate_evidence raw ≡ some d
    pub recomputed : calculate_verification_outcome d.executions ≡ some o
    pub stored : d.verification_outcome ≡ o
    pub per_role : one_execution_per_role d.executions ≡ true
    pub consistent : All IsConsistent d.executions
    pub filed : All (IsFiled prim loaders b (listed b)) d.executions
    pub in_place : All (IsInPlace prim loaders b (listed b)) d.bundle_files

  document_sound :
      (b : BundleDirectory) (paths : List String) (d : EvidenceDocument) (o : VerificationOutcome)
      → document_failures prim loaders b paths d ≡ ok ([], o)
      → (calculate_verification_outcome d.executions ≡ some o)
        × (d.verification_outcome ≡ o)
        × (one_execution_per_role d.executions ≡ true)
        × (evidence_consistency_failures d.executions ≡ [])
  unfolding document_failures
  document_sound b paths d o h = elim (Option-cases (calculate_verification_outcome d.executions)) [
    | inl missing ↦ absurd (ground arith)
    | inr (outcome, computed) ↦
        ground (arith, map_nil inconsistent (evidence_consistency_failures d.executions))
  ]

  passes :
      (allow_external : Bool) (b : BundleDirectory) (r : BundleVerificationResult)
      → verify_bundle prim loaders allow_external b ≡ ok r
      → r.valid ≡ true
      → (b.is_dir ≡ true)
        × (b.is_symlink ≡ false)
        × (exceeds_nesting prim loaders b manifest_name ≡ false)
        × (exceeds_nesting prim loaders b "evidence.json" ≡ false)
  unfolding verify_bundle
  passes allow_external b r h valid = ground arith

  loaded_document :
      (b : BundleDirectory) (failures : List VerifyFailure) (d : EvidenceDocument)
      → load_evidence loaders b ≡ (failures, some d)
      → (raw : Bytes) × (b.regular "evidence.json" ≡ some raw)
        × (loaders.validate_evidence raw ≡ some d)
  unfolding load_evidence
  loaded_document b failures d h = ground arith

  no_evidence :
      (allow_external : Bool) (b : BundleDirectory) (loading : List VerifyFailure)
      (r : BundleVerificationResult)
      → verify_loaded prim loaders allow_external b (loading, none) ≡ ok r
      → r.verification_outcome ≡ none
  unfolding verify_loaded evidence_failures
  no_evidence allow_external b loading r h = ground arith

  checks_raise :
      (allow_external : Bool) (b : BundleDirectory) (loading : List VerifyFailure)
      (d : EvidenceDocument) (e : PyError)
      → document_failures prim loaders b (listed b) d ≡ raise e
      → verify_loaded prim loaders allow_external b (loading, some d) ≡ raise e
  unfolding verify_loaded evidence_failures
  checks_raise allow_external b loading d e raised = rw (raised, evidence_failures) refl

  checks_return :
      (allow_external : Bool) (b : BundleDirectory) (loading : List VerifyFailure)
      (d : EvidenceDocument) (checks : List VerifyFailure) (o : VerificationOutcome)
      → document_failures prim loaders b (listed b) d ≡ ok (checks, o)
      → let digest = read_digest (b.regular manifest_digest_name) in
        let manifest = check_manifest prim loaders b digest.1 in
        verify_loaded prim loaders allow_external b (loading, some d)
        ≡ ok (
            result_of
              (directory_failures allow_external b
                ++ (digest.0
                    ++ (manifest.0
                        ++ (loading ++ (checks ++ report_failures prim loaders b (listed b))))))
              (some o)
              digest.1
              manifest.1.1)
  unfolding verify_loaded evidence_failures
  checks_return allow_external b loading d checks o returned = rw (returned, evidence_failures) refl

  -- The fourth and the fifth of six lists, if all are empty.
  fourth_fifth_nil :
      (a c e f g h : List VerifyFailure)
      → is_empty (a ++ (c ++ (e ++ (f ++ (g ++ h))))) ≡ true
      → (f ≡ []) × (g ≡ [])
  fourth_fifth_nil a c e f g h empty =
      let n₁ = append_nil a (c ++ (e ++ (f ++ (g ++ h)))) (empty_nil _ empty) in
      let n₂ = append_nil c (e ++ (f ++ (g ++ h))) n₁.1 in
      let n₃ = append_nil e (f ++ (g ++ h)) n₂.1 in
      let n₄ = append_nil f (g ++ h) n₃.1 in (n₄.0, (append_nil g h n₄.1).0)

  with_evidence :
      (allow_external : Bool) (b : BundleDirectory) (loading : List VerifyFailure)
      (d : EvidenceDocument) (r : BundleVerificationResult)
      → verify_loaded prim loaders allow_external b (loading, some d) ≡ ok r
      → r.valid ≡ true
      → (o : VerificationOutcome) × (r.verification_outcome ≡ some o)
        × (document_failures prim loaders b (listed b) d ≡ ok ([], o))
  with_evidence allow_external b loading d r h valid =
      elim (Result-cases (document_failures prim loaders b (listed b) d)) [
        | inr (e, raised) ↦
            let same : raise e ≡ ok r =
              sym (checks_raise allow_external b loading d e raised) ∙ h in
            absurd (ground arith)
        | inl ((checks, o), returned) ↦
            let same =
              ok-injective (sym (checks_return allow_external b loading d checks o returned) ∙ h) in
            let empty = ap (λ (x : BundleVerificationResult). x.valid) same ∙ valid in
            let nothing : checks ≡ [] =
              (fourth_fifth_nil (directory_failures allow_external b)
                (read_digest (b.regular manifest_digest_name)).0
                (check_manifest prim loaders b (read_digest (b.regular manifest_digest_name)).1).0
                loading checks (report_failures prim loaders b (listed b)) empty).1 in
            (
              o,
              sym (ap (λ (x : BundleVerificationResult). x.verification_outcome) same),
              returned ∙ ap (λ fs. ok (fs, o)) nothing,
            )
      ]

  backed :
      (allow_external : Bool) (b : BundleDirectory)
      (loaded : List VerifyFailure × Option EvidenceDocument) (r : BundleVerificationResult)
      (o : VerificationOutcome)
      → load_evidence loaders b ≡ loaded
      → verify_loaded prim loaders allow_external b loaded ≡ ok r
      → r.valid ≡ true
      → r.verification_outcome ≡ some o
      → (raw : Bytes) × (d : EvidenceDocument) × IsBackedBy b o raw d
  backed allow_external b (loading, none) r o loads h valid outcome =
      let missing = no_evidence allow_external b loading r h in absurd (ground arith)
  backed allow_external b (loading, some d) r o loads h valid outcome =
      let (raw, found, accepted) = loaded_document b loading d loads in
      let (o', outcome', checked) = with_evidence allow_external b loading d r h valid in
      let same : o' ≡ o = some-injective (sym outcome' ∙ outcome) in
      let (computed, stored, per_role, consistent) = document_sound b (listed b) d o' checked in
      let (filed, in_place) = document-IsFiled prim loaders b (listed b) d o' checked in
      (
        raw,
        d,
        record {
          found = found;
          accepted = accepted;
          recomputed = computed ∙ ap some same;
          stored = stored ∙ same;
          per_role = per_role;
          consistent = (consistency_failures_iff d.executions).0 consistent;
          filed = filed;
          in_place = in_place;
        },
      )

  -- A valid bundle with an outcome is backed by its evidence: evidence.json is accepted by the strict
  -- model and holds one execution of each role; the outcome is the one that is recomputed from these,
  -- and the one that is stored; every stored verdict and decision is the recomputed one; the package and the
  -- raw record of each execution are there and say what the execution says, the package signed by the signer
  -- that it names; and every artifact that is named is there, listed, with its size and its hash.
  pub valid_bundle-backed :
      (allow_external : Bool) (b : BundleDirectory) (r : BundleVerificationResult)
      (o : VerificationOutcome)
      → verify_bundle prim loaders allow_external b ≡ ok r
      → r.valid ≡ true
      → r.verification_outcome ≡ some o
      → (raw : Bytes) × (d : EvidenceDocument) × IsBackedBy b o raw d
  valid_bundle-backed allow_external b r o h valid outcome =
      let (dir, plain, flat₁, flat₂) = passes allow_external b r h valid in
      backed allow_external b (load_evidence loaders b) r o refl
        (sym (verify_loads allow_external b dir plain flat₁ flat₂) ∙ h) valid outcome

  -- A document that the strict model refuses is reported.
  document_reported :
      (b : BundleDirectory) (raw : Bytes) (v : V)
      → b.regular "evidence.json" ≡ some raw
      → loaders.load_strict_json raw ≡ document v
      → load_evidence loaders b ≢ ([], none)
  unfolding load_evidence
  document_reported b raw v found is h =
      let failures = schema_failures (loaders.schema_errors v) in
      let refused = loaders.validate_evidence raw in
      let loaded : (failures ++ unless (not (is_none refused)) evidence_model, refused)
          ≡ ([], none) =
        rw (found, is, load_evidence) at h in
      let nothing =
        append_nil failures (unless (not (is_none refused)) evidence_model)
          (ap (λ (x : List VerifyFailure × Option EvidenceDocument). x.0) loaded) in
      let absent : refused ≡ none =
        ap (λ (x : List VerifyFailure × Option EvidenceDocument). x.1) loaded in
      let model : unless (not (is_none refused)) evidence_model ≡ [] = nothing.1 in
      let reported : unless (not (is_none {A = EvidenceDocument} none)) evidence_model ≡ [] =
        rw absent at model in
      ground arith

  -- Loading evidence.json reports nothing and gives no document only for the JSON document `null`.
  quiet_loading :
      (b : BundleDirectory)
      → load_evidence loaders b ≡ ([], none)
      → (raw : Bytes) × (b.regular "evidence.json" ≡ some raw)
        × (loaders.load_strict_json raw ≡ null_document)
  unfolding load_evidence
  quiet_loading b h = elim (Option-cases (b.regular "evidence.json")) [
    | inl missing ↦ absurd (ground arith)
    | inr (raw, found) ↦ elim (json_cases (loaders.load_strict_json raw)) [
      | inl invalid ↦ absurd (ground arith)
      | inr (inl is_null) ↦ (raw, found, is_null)
      | inr (inr (v, is)) ↦ absurd (document_reported b raw v found is h)
    ]
  ]

  no_loading_failures :
      (allow_external : Bool) (b : BundleDirectory) (loading : List VerifyFailure)
      (r : BundleVerificationResult)
      → verify_loaded prim loaders allow_external b (loading, none) ≡ ok r
      → r.valid ≡ true
      → loading ≡ []
  unfolding verify_loaded evidence_failures
  no_loading_failures allow_external b loading r h valid =
      let digest = read_digest (b.regular manifest_digest_name) in
      let empty = ap (λ (x : BundleVerificationResult). x.valid) (ok-injective h) ∙ valid in
      (fourth_fifth_nil (directory_failures allow_external b) digest.0
        (check_manifest prim loaders b digest.1).0 loading []
        (report_failures prim loaders b (listed b)) empty).0

  without_outcome :
      (allow_external : Bool) (b : BundleDirectory)
      (loaded : List VerifyFailure × Option EvidenceDocument) (r : BundleVerificationResult)
      → load_evidence loaders b ≡ loaded
      → verify_loaded prim loaders allow_external b loaded ≡ ok r
      → r.valid ≡ true
      → r.verification_outcome ≡ none
      → (raw : Bytes) × (b.regular "evidence.json" ≡ some raw)
        × (loaders.load_strict_json raw ≡ null_document)
  without_outcome allow_external b (loading, none) r loads h valid outcome =
      let nothing = no_loading_failures allow_external b loading r h valid in
      quiet_loading b (loads ∙ ap (λ fs. (fs, none)) nothing)
  without_outcome allow_external b (loading, some d) r loads h valid outcome =
      let (o, given, _) = with_evidence allow_external b loading d r h valid in
      absurd (ground arith)

  -- A bundle is valid without an outcome in one case only: its evidence.json holds the JSON document `null`.
  pub valid_without_outcome :
      (allow_external : Bool) (b : BundleDirectory) (r : BundleVerificationResult)
      → verify_bundle prim loaders allow_external b ≡ ok r
      → r.valid ≡ true
      → r.verification_outcome ≡ none
      → (raw : Bytes) × (b.regular "evidence.json" ≡ some raw)
        × (loaders.load_strict_json raw ≡ null_document)
  valid_without_outcome allow_external b r h valid outcome =
      let (dir, plain, flat₁, flat₂) = passes allow_external b r h valid in
      without_outcome allow_external b (load_evidence loaders b) r refl
        (sym (verify_loads allow_external b dir plain flat₁ flat₂) ∙ h) valid outcome
