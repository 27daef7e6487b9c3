-- ===== src/Verifier/Orchestrator/Run.antt =====
-- The three scenarios in the lab, and the outcome of the run.
use fixrepro.Base.{
  ◌≡◌, ◌≢◌, inl, inr, refl, String, Option, some, nat_eq, arith, List, [], ◌∷◌, Bytes,
}
use fixrepro.Core.Errors.{Result, ok, Returns}
use fixrepro.Core.Primitives.{Primitives}
use fixrepro.Core.Package.{DecodedPackage, parse_and_decode_package}
use fixrepro.Core.Package.Decoded.{IsIntact, parse-applicable}
use fixrepro.Core.Evaluation.{
  GatewayRole, PolicyResult, Decision, ReasonCode, package_result, evaluate_vulnerable_policy,
  evaluate_patched_policy, checksum_only_accepted, trusted_signature_accepted, untrusted_signer,
  http_status_for, reason_value,
}
use fixrepro.Core.Evaluation.Policy.{vulnerable-accepts_iff, patched-accepts_iff, policies_differ}
use fixrepro.Core.Gateway.{GatewayResponse}
use fixrepro.Core.Gateway.Safety.{
  init-IsValid, updated, updated-IsValid, accept_applies, reject_keeps, IsAuthentic,
}
use fixrepro.Device
use fixrepro.Device.{VirtualDevice, snapshot}
use fixrepro.Verifier.Models.{
  ArtifactRecord, ExecutionEvidence, VerificationOutcome, patch_verified, patch_not_verified,
  state_eq,
}
use fixrepro.Verifier.Verdicts.{calculate_verification_outcome, untrusted_version, trusted_version}
use fixrepro.Verifier.Verdicts.Individual.{IsAppliedRun, IsBlockedRun}
use fixrepro.Verifier.Verdicts.Outcome.{patch_not_verified_iff}
use fixrepro.Verifier.Orchestrator.{
  ScenarioDefinition, Stamp, ScenarioCapture, make_capture, execute_scenario, execute_all,
  execution_from_capture, definitions, vulnerable_scenario, patched_scenario, positive_scenario,
  stamped, executions_of, run_scenarios,
}
use fixrepro.Verifier.Orchestrator.Lab.{lab}
use fixrepro.Verifier.Orchestrator.Scenario.{
  in_order, fix_shown, applied_response, blocked_response, applied_capture, blocked_capture,
  applied_evidence-shows, blocked_evidence-shows, lab_scenario, execute_all-cons, execute_all-nil,
  serve_vulnerable, serve_patched,
}

-- The inputs of the demonstration: both packages parse and are intact, the untrusted one has another
-- signer's key with the right fingerprint, the trusted one is signed by the trusted key's holder, and
-- the firmware versions are the ones that the verdicts look for.
pub record IsDemonstration (prim : Primitives) (key untrusted_raw trusted_raw : Bytes)
    (pu pt : DecodedPackage) : Type 0 where
  pub untrusted_parsed : parse_and_decode_package prim untrusted_raw ≡ ok pu
  pub untrusted_intact : IsIntact prim pu
  pub untrusted_fingerprint : prim.sha256_hex pu.signer_public_key ≡ pu.envelope.signer_fingerprint
  pub untrusted_signer : pu.signer_public_key ≢ key
  pub untrusted_firmware : pu.envelope.manifest.firmware_version ≡ untrusted_version
  pub trusted_authentic : IsAuthentic prim key trusted_raw pt
  pub trusted_firmware : pt.envelope.manifest.firmware_version ≡ trusted_version

applied_not_blocked :
    {version : String} (e : ExecutionEvidence) → IsAppliedRun version e → IsBlockedRun e → ⊥
applied_not_blocked e a b = ground (arith, a.observed, b.observed)

module _ (prim : Primitives) (dump : GatewayResponse → Bytes)
    (raw_artifact : ScenarioCapture → ArtifactRecord) (key untrusted_raw trusted_raw : Bytes)
    (pu pt : DecodedPackage) (demo : IsDemonstration prim key untrusted_raw trusted_raw pu pt)
    (s₁ s₂ s₃ : Stamp) (d : VirtualDevice) where
  -- The run in a lab whose patched port serves `policy`.
  abbrev pub run_with :
      (Bytes → Result PolicyResult)
      → Result (List ExecutionEvidence × Option VerificationOutcome) × VirtualDevice
  run_with policy =
      run_scenarios prim raw_artifact (lab prim dump policy)
        (stamped (definitions untrusted_raw pu trusted_raw pt) (s₁ ∷ s₂ ∷ s₃ ∷ [])) d

  abbrev dumped : GatewayRole → DecodedPackage → ReasonCode → Bytes
  dumped role p reason = dump (applied_response role p reason)

  vulnerable_step :
      (policy : Bytes → Result PolicyResult)
      → execute_scenario prim (lab prim dump policy) (vulnerable_scenario untrusted_raw pu) s₁ d ≡ (
        ok (
            applied_capture prim
              (vulnerable_scenario untrusted_raw pu)
              s₁
              (dumped GatewayRole.vulnerable pu checksum_only_accepted)
              GatewayRole.vulnerable
              pu
              checksum_only_accepted),
        updated pu Device.init,
      )
  vulnerable_step policy =
      let fields = parse-applicable prim untrusted_raw pu demo.untrusted_parsed in
      let accepts =
        (vulnerable-accepts_iff prim untrusted_raw pu demo.untrusted_parsed).1
          demo.untrusted_intact in
      lab_scenario prim dump policy (vulnerable_scenario untrusted_raw pu) s₁ d
        (updated pu Device.init) 200 _
        (serve_vulnerable prim dump policy untrusted_raw Device.init (updated pu Device.init) 200 _
          (accept_applies untrusted_raw GatewayRole.vulnerable (evaluate_vulnerable_policy prim)
            Device.init pu checksum_only_accepted init-IsValid fields accepts))
        (updated-IsValid pu Device.init fields)

  abbrev patched_policy : Bytes → Result PolicyResult
  patched_policy body = evaluate_patched_policy prim body key

  patched_step :
      (e : VirtualDevice)
      → execute_scenario prim
          (lab prim dump patched_policy)
          (patched_scenario untrusted_raw pu)
          s₂
          e
        ≡ (
          ok (
              blocked_capture prim
                (patched_scenario untrusted_raw pu)
                s₂
                (dump (blocked_response GatewayRole.patched pu untrusted_signer))
                GatewayRole.patched
                pu
                untrusted_signer),
          Device.init,
        )
  unfolding http_status_for package_result
  patched_step e =
      let (_, rejects) =
        policies_differ prim untrusted_raw key pu demo.untrusted_parsed demo.untrusted_intact
          demo.untrusted_fingerprint demo.untrusted_signer in
      lab_scenario prim dump patched_policy (patched_scenario untrusted_raw pu) s₂ e Device.init 403
        _
        (serve_patched prim dump patched_policy untrusted_raw Device.init Device.init 403 _ (
          reject_keeps untrusted_raw GatewayRole.patched patched_policy Device.init
            (package_result Decision.rejected untrusted_signer pu) init-IsValid rejects (λ h. cc)))
        init-IsValid

  positive_step :
      (e : VirtualDevice)
      → execute_scenario prim (lab prim dump patched_policy) (positive_scenario trusted_raw pt) s₃ e
        ≡ (
          ok (
              applied_capture prim
                (positive_scenario trusted_raw pt)
                s₃
                (dumped GatewayRole.patched pt trusted_signature_accepted)
                GatewayRole.patched
                pt
                trusted_signature_accepted),
          updated pt Device.init,
        )
  positive_step e =
      let (parsed, intact, signed) = demo.trusted_authentic in
      let fields = parse-applicable prim trusted_raw pt parsed in
      let accepts = (patched-accepts_iff prim trusted_raw key pt parsed).1 (intact, signed) in
      lab_scenario prim dump patched_policy (positive_scenario trusted_raw pt) s₃ e
        (updated pt Device.init) 200 _
        (serve_patched prim dump patched_policy trusted_raw Device.init (updated pt Device.init) 200
          _
          (accept_applies trusted_raw GatewayRole.patched patched_policy Device.init pt
            trusted_signature_accepted init-IsValid fields accepts))
        (updated-IsValid pt Device.init fields)

  abbrev v_capture : ScenarioCapture
  v_capture =
      applied_capture prim (vulnerable_scenario untrusted_raw pu) s₁
        (dumped GatewayRole.vulnerable pu checksum_only_accepted) GatewayRole.vulnerable pu
        checksum_only_accepted

  abbrev p_capture : ScenarioCapture
  p_capture =
      blocked_capture prim (patched_scenario untrusted_raw pu) s₂
        (dump (blocked_response GatewayRole.patched pu untrusted_signer)) GatewayRole.patched pu
        untrusted_signer

  abbrev c_capture : ScenarioCapture
  c_capture =
      applied_capture prim (positive_scenario trusted_raw pt) s₃
        (dumped GatewayRole.patched pt trusted_signature_accepted) GatewayRole.patched pt
        trusted_signature_accepted

  abbrev evidence : ScenarioCapture → ExecutionEvidence
  evidence c = execution_from_capture prim (raw_artifact c) c

  abbrev demo_captures : List ScenarioCapture
  demo_captures = v_capture ∷ p_capture ∷ c_capture ∷ []

  demo_executes :
      execute_all prim
        (lab prim dump patched_policy)
        (stamped (definitions untrusted_raw pu trusted_raw pt) (s₁ ∷ s₂ ∷ s₃ ∷ []))
        d
      ≡ (ok demo_captures, updated pt Device.init)
  unfolding definitions
  demo_executes =
      execute_all-cons prim dump patched_policy _ s₁ _ d (updated pu Device.init)
        (updated pt Device.init) _ _ (vulnerable_step patched_policy)
        (execute_all-cons prim dump patched_policy _ s₂ _ (updated pu Device.init) Device.init
          (updated pt Device.init) _ _ (patched_step (updated pu Device.init))
          (execute_all-cons prim dump patched_policy _ s₃ [] Device.init (updated pt Device.init)
            (updated pt Device.init) _ [] (positive_step Device.init)
            (execute_all-nil prim dump patched_policy (updated pt Device.init))))

  demo_outcome :
      calculate_verification_outcome (executions_of prim raw_artifact demo_captures)
      ≡ some patch_verified
  unfolding executions_of reason_value execution_from_capture make_capture
  demo_outcome =
      let (v, v_reason) =
        applied_evidence-shows prim (raw_artifact v_capture) (vulnerable_scenario untrusted_raw pu)
          s₁ (dumped GatewayRole.vulnerable pu checksum_only_accepted) GatewayRole.vulnerable pu
          checksum_only_accepted untrusted_version refl demo.untrusted_firmware in
      let (p, p_reason) =
        blocked_evidence-shows prim (raw_artifact p_capture) (patched_scenario untrusted_raw pu) s₂
          (dump (blocked_response GatewayRole.patched pu untrusted_signer)) GatewayRole.patched pu
          untrusted_signer in
      let (c, c_reason) =
        applied_evidence-shows prim (raw_artifact c_capture) (positive_scenario trusted_raw pt) s₃
          (dumped GatewayRole.patched pt trusted_signature_accepted) GatewayRole.patched pt
          trusted_signature_accepted trusted_version refl demo.trusted_firmware in
      fix_shown (evidence v_capture) (evidence p_capture) (evidence c_capture) refl refl refl
        (record {
          reproduced = v;
          reproduced_reason = v_reason;
          blocked = p;
          blocked_status = refl;
          blocked_reason = p_reason;
          preserved = c;
          preserved_reason = c_reason;
          same_input = refl;
        })

  -- The shipped lab verifies the patch: whatever state the device was in, the three scenarios run
  -- through without an error, and the outcome of the recorded evidence is PATCH_VERIFIED.
  pub lab_verifies_patch :
      Returns
        (run_with (λ body. evaluate_patched_policy prim body key)).0
        (λ r. r.1 ≡ some patch_verified)
  unfolding run_scenarios
  lab_verifies_patch = rw (demo_executes, run_scenarios) demo_outcome

  -- The lab with an unpatched build on the patched port.
  unpatched_step :
      (definition : ScenarioDefinition) (s : Stamp) (p : DecodedPackage) (raw : Bytes)
      (e : VirtualDevice)
      → definition.gateway_port ≡ 8102
      → definition.package_bytes ≡ raw
      → parse_and_decode_package prim raw ≡ ok p
      → IsIntact prim p
      → execute_scenario prim (lab prim dump (evaluate_vulnerable_policy prim)) definition s e ≡ (
        ok (
            applied_capture prim definition s
              (dumped GatewayRole.patched p checksum_only_accepted)
              GatewayRole.patched
              p
              checksum_only_accepted),
        updated p Device.init,
      )
  unpatched_step definition s p raw e port bytes parsed intact =
      let policy = evaluate_vulnerable_policy prim in
      let fields = parse-applicable prim raw p parsed in
      let accepts = (vulnerable-accepts_iff prim raw p parsed).1 intact in
      lab_scenario prim dump policy definition s e (updated p Device.init) 200 _
        (rw (port, bytes)
          (serve_patched prim dump policy raw Device.init (updated p Device.init) 200 _ (
            accept_applies raw GatewayRole.patched policy Device.init p checksum_only_accepted
              init-IsValid fields accepts)))
        (updated-IsValid p Device.init fields)

  abbrev p_unpatched : ScenarioCapture
  p_unpatched =
      applied_capture prim (patched_scenario untrusted_raw pu) s₂
        (dumped GatewayRole.patched pu checksum_only_accepted) GatewayRole.patched pu
        checksum_only_accepted

  abbrev c_unpatched : ScenarioCapture
  c_unpatched =
      applied_capture prim (positive_scenario trusted_raw pt) s₃
        (dumped GatewayRole.patched pt checksum_only_accepted) GatewayRole.patched pt
        checksum_only_accepted

  abbrev unpatched_captures : List ScenarioCapture
  unpatched_captures = v_capture ∷ p_unpatched ∷ c_unpatched ∷ []

  unpatched_executes :
      execute_all prim
        (lab prim dump (evaluate_vulnerable_policy prim))
        (stamped (definitions untrusted_raw pu trusted_raw pt) (s₁ ∷ s₂ ∷ s₃ ∷ []))
        d
      ≡ (ok unpatched_captures, updated pt Device.init)
  unfolding definitions
  unpatched_executes =
      let policy = evaluate_vulnerable_policy prim in
      let (parsed, intact, _) = demo.trusted_authentic in
      execute_all-cons prim dump policy _ s₁ _ d (updated pu Device.init) (updated pt Device.init) _
        _ (vulnerable_step policy)
        (execute_all-cons prim dump policy _ s₂ _ (updated pu Device.init) (updated pu Device.init)
          (updated pt Device.init) _ _
          (unpatched_step (patched_scenario untrusted_raw pu) s₂ pu untrusted_raw
            (updated pu Device.init) refl refl demo.untrusted_parsed demo.untrusted_intact)
          (execute_all-cons prim dump policy _ s₃ [] (updated pu Device.init)
            (updated pt Device.init) (updated pt Device.init) _ []
            (unpatched_step (positive_scenario trusted_raw pt) s₃ pt trusted_raw
              (updated pu Device.init) refl refl parsed intact)
            (execute_all-nil prim dump policy (updated pt Device.init))))

  unpatched_outcome :
      calculate_verification_outcome (executions_of prim raw_artifact unpatched_captures)
      ≡ some patch_not_verified
  unfolding executions_of reason_value execution_from_capture make_capture
  unpatched_outcome =
      let (v, v_reason) =
        applied_evidence-shows prim (raw_artifact v_capture) (vulnerable_scenario untrusted_raw pu)
          s₁ (dumped GatewayRole.vulnerable pu checksum_only_accepted) GatewayRole.vulnerable pu
          checksum_only_accepted untrusted_version refl demo.untrusted_firmware in
      let (p, _) =
        applied_evidence-shows prim (raw_artifact p_unpatched) (patched_scenario untrusted_raw pu)
          s₂ (dumped GatewayRole.patched pu checksum_only_accepted) GatewayRole.patched pu
          checksum_only_accepted untrusted_version refl demo.untrusted_firmware in
      let (c, _) =
        applied_evidence-shows prim (raw_artifact c_unpatched) (positive_scenario trusted_raw pt) s₃
          (dumped GatewayRole.patched pt checksum_only_accepted) GatewayRole.patched pt
          checksum_only_accepted trusted_version refl demo.trusted_firmware in
      (patch_not_verified_iff _).1 (
        evidence v_capture,
        evidence p_unpatched,
        evidence c_unpatched,
        in_order (evidence v_capture) (evidence p_unpatched) (evidence c_unpatched) refl refl refl,
        record {
          reproduced = v;
          reason = v_reason;
          same_input = refl;
          patched_conclusive = inr p;
          control_conclusive = inl c;
          unfixed = λ shows. applied_not_blocked (evidence p_unpatched) p shows.blocked;
        },
      )

  -- The verification catches a build that is not patched: with the vulnerable policy on the patched
  -- port too, the same scenarios run through and the outcome is PATCH_NOT_VERIFIED.
  pub lab_detects_unpatched :
      Returns (run_with (evaluate_vulnerable_policy prim)).0 (λ r. r.1 ≡ some patch_not_verified)
  unfolding run_scenarios
  lab_detects_unpatched = rw (unpatched_executes, run_scenarios) unpatched_outcome
