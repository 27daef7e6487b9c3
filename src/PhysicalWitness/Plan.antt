-- ===== src/PhysicalWitness/Plan.antt =====
-- When signals are planned, and how many.
use fixrepro.Base.{
  ◌≤◌, ltb, ◌⊎◌, String, ==→≡, ◌≡◌, ◌↔◌, inl, inr, refl, sym, ap, ◌∙◌, Bool, true, false, some,
  arith, Bool-cases, ◌==◌, eq_iff, string_eq, if◌then◌else◌, not,
}
use fixrepro.Verifier.Models.{
  ExecutionEvidence, EvidenceDocument, patch_verified, fail, pass, patched, outcome_eq, role_eq,
}
use fixrepro.Verifier.Verdicts.Outcome.{
  IsRun, ShowsFix, patch_verified_iff, by_role_of_run, outcome_total,
}
use fixrepro.PhysicalWitness.{
  WitnessPlan, no_command, signal_count, action_for, no_command_plan, contract_holds, eligible_plan,
  plan_scenarios, plan_physical_witness,
}

-- A plan within the policy's bounds: at most two signals, none for the patched build, and none at all
-- if it is not eligible.
pub record IsBounded (plan : WitnessPlan) : Type 0 where
  pub limit : signal_count plan ≤ 2
  pub patched_silent : action_for plan patched ≡ some no_command
  pub ineligible_silent : plan.eligible ≡ false → signal_count plan ≡ 0

no_command-IsBounded : (reason : String) → IsBounded (no_command_plan reason)
unfolding no_command_plan signal_count action_for
no_command-IsBounded reason = record {
  limit = omega arith;
  patched_silent = refl;
  ineligible_silent = λ _. refl;
}

eligible-IsBounded : IsBounded eligible_plan
unfolding eligible_plan signal_count action_for
eligible-IsBounded = record {
  limit = omega arith;
  patched_silent = refl;
  ineligible_silent = λ h. ground arith;
}

either-IsBounded :
    (b : Bool) {x y : WitnessPlan} → IsBounded x → IsBounded y → IsBounded (if b then x else y)
either-IsBounded true hx hy = hx
either-IsBounded false hx hy = hy

scenarios-IsBounded : (v p c : ExecutionEvidence) → IsBounded (plan_scenarios v p c)
unfolding plan_scenarios
scenarios-IsBounded v p c =
    either-IsBounded
      (not (v.package_evidence.envelope_sha256 == p.package_evidence.envelope_sha256))
      (no_command-IsBounded "ENVELOPE_HASH_MISMATCH")
      (either-IsBounded (not (v.request.body_sha256 == p.request.body_sha256))
        (no_command-IsBounded "REQUEST_HASH_MISMATCH")
        (either-IsBounded (not (contract_holds v p c))
          (no_command-IsBounded "SCENARIO_CONTRACT_MISMATCH")
          (either-IsBounded (ltb 2 (signal_count eligible_plan))
            (no_command-IsBounded "SIGNAL_LIMIT_EXCEEDED") eligible-IsBounded)))

-- The stored verdicts that the contract asks for.
abbrev pub HasContract : ExecutionEvidence → ExecutionEvidence → ExecutionEvidence → Type 0
HasContract v p c =
    (v.security_verdict ≡ fail) × (p.security_verdict ≡ pass) × (c.security_verdict ≡ pass)

scenarios_of_fix :
    (v p c : ExecutionEvidence)
    → ShowsFix v p c
    → (plan_scenarios v p c ≡ eligible_plan) ↔ HasContract v p c
unfolding plan_scenarios contract_holds signal_count no_command_plan eligible_plan
scenarios_of_fix v p c fix = ground (
  arith,
  eq_iff v.package_evidence.envelope_sha256 p.package_evidence.envelope_sha256,
  eq_iff v.request.body_sha256 p.request.body_sha256,
  fix.same_input,
  fix.reproduced.sent,
  fix.blocked.sent,
  fix.reproduced.observed,
  fix.blocked.observed,
  fix.preserved.observed,
)

plan_of_run :
    (d : EvidenceDocument) (v p c : ExecutionEvidence)
    → d.verification_outcome ≡ patch_verified
    → IsRun v p c d.executions
    → ShowsFix v p c
    → plan_physical_witness d ≡ some (plan_scenarios v p c)
unfolding plan_physical_witness
plan_of_run d v p c stored run fix =
    let (found_v, found_p, found_c) = by_role_of_run v p c d.executions run in
    rw (stored, (patch_verified_iff d.executions).1 (v, p, c, run, fix), found_v, found_p, found_c)
      refl

-- A plan without commands, or the plan of three runs that show the fix.
plan_cases :
    (d : EvidenceDocument)
    → ((reason : String) × (plan_physical_witness d ≡ some (no_command_plan reason)))
      ⊎ ((d.verification_outcome ≡ patch_verified)
          × (v p c : ExecutionEvidence) × IsRun v p c d.executions
          × ShowsFix v p c)
unfolding plan_physical_witness
plan_cases d = elim (Bool-cases (d.verification_outcome == patch_verified)) [
  | inr other ↦ inl ("OVERALL_OUTCOME_NOT_PATCH_VERIFIED", rw other refl)
  | inl stored ↦
      let (o, computed) = (outcome_total d.executions).0 in
      elim (Bool-cases (o == patch_verified)) [
        | inr other ↦
            inl ("RECOMPUTED_OUTCOME_NOT_PATCH_VERIFIED", rw (stored, computed, other) refl)
        | inl same ↦
            let (v, p, c, run, fix) =
              (patch_verified_iff d.executions).0 (computed ∙ ap some (==→≡ _ _ same)) in
            inr (==→≡ _ _ stored, v, p, c, run, fix)
      ]
]

-- For every evidence document a plan is returned, and it is within the bounds.
pub plan-IsBounded :
    (d : EvidenceDocument)
    → (plan : WitnessPlan) × (plan_physical_witness d ≡ some plan) × IsBounded plan
plan-IsBounded d = elim (plan_cases d) [
  | inl (reason, silent) ↦ (no_command_plan reason, silent, no_command-IsBounded reason)
  | inr (stored, v, p, c, run, fix) ↦
      (plan_scenarios v p c, plan_of_run d v p c stored run fix, scenarios-IsBounded v p c)
]

some-injective : {A : Type 0} {a b : A} → some a ≡ some b → a ≡ b
some-injective h = cc

not_eligible : (reason : String) → ¬ (no_command_plan reason ≡ eligible_plan)
unfolding no_command_plan eligible_plan
not_eligible reason h =
    let e : false ≡ true = ap (λ (plan : WitnessPlan). plan.eligible) h in ground arith

-- The plan signals exactly if the stored outcome is PATCH_VERIFIED, the evidence has one run of each
-- role which show the fix, and the stored verdicts of the three are FAIL, PASS and PASS; the
-- comparisons of hashes and of decisions that the policy makes besides never decide.
pub eligible_iff :
    (d : EvidenceDocument)
    → (plan_physical_witness d ≡ some eligible_plan) ↔ (
        (d.verification_outcome ≡ patch_verified)
        × (v p c : ExecutionEvidence) × IsRun v p c d.executions
        × ShowsFix v p c
        × HasContract v p c)
eligible_iff d = (
  λ signalled. elim (plan_cases d) [
    | inl (reason, silent) ↦ absurd (not_eligible reason (some-injective (sym silent ∙ signalled)))
    | inr (stored, v, p, c, run, fix) ↦
        let contract : HasContract v p c =
          (scenarios_of_fix v p c fix).0
            (some-injective (sym (plan_of_run d v p c stored run fix) ∙ signalled)) in
        (stored, v, p, c, run, fix, contract)
  ],
  λ (stored, v, p, c, run, fix, contract).
      plan_of_run d v p c stored run fix ∙ ap some ((scenarios_of_fix v p c fix).1 contract),
)
