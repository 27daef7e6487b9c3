-- ===== src/App/Presentation/Present.antt =====
-- app/presentation.py: what the dashboard shows of a bundle.
use Prim.Native.String.{◌++◌ as concat}
use fixrepro.Base.{
  ℕ, ◌≡◌, ◌⊎◌, inl, inr, refl, map, String, Bool, true, not, ◌&&◌, ◌==◌, nat_eq, list_eq, option_eq,
  string_eq, if◌then◌else◌, Option, none, some, List, [], ◌∷◌, arith, Option-cases, option_beq_iff,
}
use fixrepro.Core.Errors.{Result, ok}
use fixrepro.Verifier.Models.{
  ExecutionRole, vulnerable, patched, positive_control, ExecutionEvidence, EvidenceDocument,
  SecurityVerdict, VerificationOutcome, patch_verified, role_eq, outcome_eq, outcome_beq_iff,
  one_execution_per_role,
}
use fixrepro.Verifier.Bundle.{decision_text}
use fixrepro.Verifier.Report.{same_input}
use fixrepro.Verifier.BundleVerifier.Verify.{BundleVerificationResult}
use fixrepro.App.Presentation.{
  PresentationError, PathFacts, BundleRegistry, symlinked_evidence, unparsed_evidence, wrong_roles,
  different_input, different_outcomes, invalid_presentation, resolve_bundle,
  verify_registered_bundle, registered_bundle_verified,
}

pub data PresentationSource : Type 0 where
  demo live : PresentationSource

pub record ScenarioPresentation : Type 0 where
  pub role : ExecutionRole
  pub visible_label : String
  pub build_id : String
  pub http_status : ℕ
  pub observed_decision : String
  pub reason_code : String
  pub security_verdict : SecurityVerdict
  pub firmware_version_before : String
  pub firmware_version_after : String
  pub update_counter_before : ℕ
  pub update_counter_after : ℕ

pub record ArtifactLinks : Type 0 where
  pub report : String
  pub evidence : String
  pub manifest : String
  pub digest : String

-- The two fixed texts on scope and limitation are left out.
pub record BundlePresentation : Type 0 where
  pub source : PresentationSource
  pub bundle_id : String
  pub verification_id : String
  pub verification_outcome : VerificationOutcome
  pub created_at : String
  pub security_property : String
  pub same_input_verified : Bool
  pub untrusted_envelope_sha256 : String
  pub untrusted_request_body_sha256 : String
  pub bundle_manifest_sha256 : Option (List ℕ)
  pub manifest_entry_count : ℕ
  pub scenarios : List ScenarioPresentation
  pub links : ArtifactLinks

-- `VISIBLE_LABELS`
unfoldable pub visible_label : ExecutionRole → String
visible_label vulnerable = "UNSAFE BEHAVIOR REPRODUCED"
visible_label patched = "PATCH BLOCKED SAME INPUT"
visible_label positive_control = "LEGITIMATE UPDATE PRESERVED"

-- `by_role[role]` of the dict of the executions, in which a later one replaces an earlier one.
unfoldable pub last_of_role : ExecutionRole → List ExecutionEvidence → Option ExecutionEvidence
last_of_role role [] = none
last_of_role role (e ∷ es) = elim (last_of_role role es) [
  | some later ↦ some later
  | none ↦ if e.role == role then some e else none
]

unfoldable pub present_scenario : ExecutionRole → ExecutionEvidence → ScenarioPresentation
present_scenario role e = record {
  role = role;
  visible_label = visible_label role;
  build_id = e.build_id;
  http_status = e.response.http_status;
  observed_decision = decision_text e.observed_decision;
  reason_code = e.response.reason_code;
  security_verdict = e.security_verdict;
  firmware_version_before = e.device_state_before.firmware_version;
  firmware_version_after = e.device_state_after.firmware_version;
  update_counter_before = e.device_state_before.update_counter;
  update_counter_after = e.device_state_after.update_counter;
}

unfoldable pub artifact_links : String → ArtifactLinks
artifact_links bundle_id =
    let link_root = concat "/api/v1/bundles/" bundle_id in
    record {
      report = concat link_root "/report";
      evidence = concat link_root "/evidence";
      manifest = concat link_root "/manifest";
      digest = concat link_root "/digest";
    }

unfoldable pub make_presentation :
    String
    → PresentationSource
    → BundleVerificationResult
    → EvidenceDocument
    → ExecutionEvidence
    → ExecutionEvidence
    → ExecutionEvidence
    → BundlePresentation
make_presentation bundle_id source verification evidence v p c = record {
  source = source;
  bundle_id = bundle_id;
  verification_id = evidence.verification_id;
  verification_outcome = evidence.verification_outcome;
  created_at = evidence.created_at;
  security_property = evidence.test_case.security_property;
  same_input_verified = same_input v p;
  untrusted_envelope_sha256 = v.package_evidence.envelope_sha256;
  untrusted_request_body_sha256 = v.request.body_sha256;
  bundle_manifest_sha256 = verification.manifest_sha256;
  manifest_entry_count = verification.manifest_entry_count;
  scenarios =
      present_scenario vulnerable v
      ∷ present_scenario patched p
      ∷ present_scenario positive_control c
      ∷ [];
  links = artifact_links bundle_id;
}

-- The checks on the three executions, and the presentation; `valid_fields` is the field validation of
-- the response model.
unfoldable pub present_executions :
    (BundlePresentation → Bool)
    → String
    → PresentationSource
    → BundleVerificationResult
    → EvidenceDocument
    → ExecutionEvidence
    → ExecutionEvidence
    → ExecutionEvidence
    → PresentationError ⊎ BundlePresentation
present_executions valid_fields bundle_id source verification evidence v p c =
    let presentation = make_presentation bundle_id source verification evidence v p c in
    if evidence.verification_outcome == patch_verified && not (same_input v p)
    then inl different_input
    else if not (verification.verification_outcome == some evidence.verification_outcome)
    then inl different_outcomes
    else if valid_fields presentation
    then inr presentation
    else inl invalid_presentation

unfoldable pub present_evidence :
    (BundlePresentation → Bool)
    → String
    → PresentationSource
    → BundleVerificationResult
    → EvidenceDocument
    → PresentationError ⊎ BundlePresentation
present_evidence valid_fields bundle_id source verification evidence =
    if not (one_execution_per_role evidence.executions)
    then inl wrong_roles
    else elim (last_of_role vulnerable evidence.executions) [
      | none ↦ inl wrong_roles
      | some v ↦ elim (last_of_role patched evidence.executions) [
        | none ↦ inl wrong_roles
        | some p ↦ elim (last_of_role positive_control evidence.executions) [
          | none ↦ inl wrong_roles
          | some c ↦ present_executions valid_fields bundle_id source verification evidence v p c
        ]
      ]
    ]

module _ (paths : PathFacts) (verify : String → Result BundleVerificationResult)
    (load_evidence : String → Option EvidenceDocument)
    (valid_fields : BundlePresentation → Bool) where
  -- `load_evidence` reads a file by `model_validate_json`; none is an `OSError` or a `ValidationError`.
  unfoldable pub present_bundle :
      BundleRegistry → String → PresentationSource → PresentationError ⊎ BundlePresentation
  unfolding present_evidence
  present_bundle registry bundle_id source =
      elim (verify_registered_bundle paths verify registry bundle_id) [
        | inl e ↦ inl e
        | inr (path, verification) ↦
            let evidence_path = concat path "/evidence.json" in
            if paths.is_symlink evidence_path
            then inl symlinked_evidence
            else elim (load_evidence evidence_path) [
              | none ↦ inl unparsed_evidence
              | some evidence ↦ present_evidence valid_fields bundle_id source verification evidence
            ]
      ]

  -- What a presentation says of its bundle's verification.
  abbrev pub Shows : BundleVerificationResult → BundlePresentation → Type 0
  Shows v p =
      (v.verification_outcome ≡ some p.verification_outcome)
      × (p.bundle_manifest_sha256 ≡ v.manifest_sha256)
      × (p.verification_outcome ≡ patch_verified → p.same_input_verified ≡ true)
      × (map (λ (s : ScenarioPresentation). s.role) p.scenarios
          ≡ vulnerable ∷ patched ∷ positive_control ∷ [])
      × (map (λ (s : ScenarioPresentation). s.visible_label) p.scenarios
          ≡ "UNSAFE BEHAVIOR REPRODUCED" ∷ "PATCH BLOCKED SAME INPUT"
            ∷ "LEGITIMATE UPDATE PRESERVED" ∷ [])

  executions_shown :
      (bundle_id : String) (source : PresentationSource) (verification : BundleVerificationResult)
      (evidence : EvidenceDocument) (v p c : ExecutionEvidence) (b : BundlePresentation)
      → present_executions valid_fields bundle_id source verification evidence v p c ≡ inr b
      → Shows verification b
  unfolding present_executions make_presentation present_scenario visible_label
  executions_shown bundle_id source verification evidence v p c b h = ground (
    arith,
    outcome_beq_iff evidence.verification_outcome patch_verified,
    option_beq_iff verification.verification_outcome (some evidence.verification_outcome),
  )

  evidence_shown :
      (bundle_id : String) (source : PresentationSource) (verification : BundleVerificationResult)
      (evidence : EvidenceDocument) (b : BundlePresentation)
      → present_evidence valid_fields bundle_id source verification evidence ≡ inr b
      → Shows verification b
  unfolding present_evidence
  evidence_shown bundle_id source verification evidence b h =
      elim (Option-cases (last_of_role vulnerable evidence.executions)) [
        | inl none_is ↦ absurd (ground arith)
        | inr (v, has_v) ↦ elim (Option-cases (last_of_role patched evidence.executions)) [
          | inl none_is ↦ absurd (ground arith)
          | inr (p, has_p) ↦
              elim (Option-cases (last_of_role positive_control evidence.executions)) [
                | inl none_is ↦ absurd (ground arith)
                | inr (c, has_c) ↦
                    let shown : present_executions valid_fields bundle_id source verification
                          evidence v p c
                        ≡ inr b =
                      ground arith in
                    executions_shown bundle_id source verification evidence v p c b shown
              ]
        ]
      ]

  -- What is presented is a registered bundle whose verification is valid: the outcome shown is the one
  -- that the verification computed, and so is the digest of the manifest; PATCH_VERIFIED is shown only
  -- with the same input on both builds; the scenarios are the three roles in their order; and their
  -- labels are those of a verified patch, whatever the outcome is.
  pub presented_sound :
      (registry : BundleRegistry) (bundle_id : String) (source : PresentationSource)
      (b : BundlePresentation)
      → present_bundle registry bundle_id source ≡ inr b
      → (path : String) × (v : BundleVerificationResult) × (resolve_bundle bundle_id registry
          ≡ inr path)
        × (verify path ≡ ok v)
        × (v.valid ≡ true)
        × Shows v b
  unfolding present_bundle
  presented_sound registry bundle_id source b h =
      by_guard (verify_registered_bundle paths verify registry bundle_id) refl
    where
      by_guard :
          (g : PresentationError ⊎ (String × BundleVerificationResult))
          → verify_registered_bundle paths verify registry bundle_id ≡ g
          → (path : String) × (v : BundleVerificationResult) × (resolve_bundle bundle_id registry
              ≡ inr path)
            × (verify path ≡ ok v)
            × (v.valid ≡ true)
            × Shows v b
      by_guard (inl e) guard = absurd (ground arith)
      by_guard (inr (path, v)) guard =
          let (resolved, _, verified, valid, _, _) =
            registered_bundle_verified paths verify registry bundle_id path v guard in
          elim (Option-cases (load_evidence (concat path "/evidence.json"))) [
            | inl none_is ↦ absurd (ground arith)
            | inr (evidence, loaded) ↦
                let shown : present_evidence valid_fields bundle_id source v evidence ≡ inr b =
                  ground arith in
                (
                  path,
                  v,
                  resolved,
                  verified,
                  valid,
                  evidence_shown bundle_id source v evidence b shown,
                )
          ]
