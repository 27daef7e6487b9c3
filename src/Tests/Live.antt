-- ===== src/Tests/Live.antt =====
-- The live execution of the plan of a verified bundle.
use fixrepro.Base.{
  ℕ, ◌≡◌, ◌≢◌, ◌≤◌, refl, ap, true, false, none, some, List, [], inr, length, arith,
}
use fixrepro.Core.Errors.{Result, ok}
use fixrepro.Verifier.Models.{ExecutionRole, EvidenceDocument, patch_verified}
use fixrepro.Verifier.Verdicts.{
  calculate_verification_outcome, count_role, by_role, is_inconclusive,
  calculate_individual_verdict, is_initial, response_is_coherent, role_verdict, is_applied,
  is_unchanged, combine, baseline_reproduced, patched_rejected, positive_control_passed,
}
use fixrepro.Verifier.BundleVerifier.Verify.{BundleVerificationResult, result_of}
use fixrepro.PhysicalWitness.{
  WitnessAction, WitnessPlan, plan_physical_witness, plan_scenarios, contract_holds, eligible_plan,
  signal_count,
}
use fixrepro.PhysicalWitness.Live.{
  Live, Surroundings, live, live_confirmation, cool_down, attempt, live_items, execute_live_plan,
  load_verified_plan, run_live, main,
}
use fixrepro.PhysicalWitness.Live.Safe.{IsSpaced, live_plan-IsSafe, signal_needs_consent}
use fixrepro.Tests.Witness.{document}

-- A signal takes three seconds.
abbrev quiet_room : Surroundings
quiet_room = record { oversleep = λ _. 1; lasts = λ _. 3000; locate_error = λ _. none }

abbrev start : Live
start = record { now = 7; attempts = [] }

live_plan-IsSafe_example :
    let (outcome, h) = execute_live_plan quiet_room eligible_plan start in
    (length h.attempts ≤ 2)
    × IsSpaced h.attempts
    × (eligible_plan.eligible ≡ false → h.attempts ≡ [])
    × ((results : List (ExecutionRole × WitnessAction))
        → outcome ≡ inr results
        → length h.attempts ≡ signal_count eligible_plan)
    × (eligible_plan.eligible ≡ true
        → signal_count eligible_plan ≤ 2
        → ((k : ℕ) → quiet_room.locate_error k ≡ none)
        → (results : List (ExecutionRole × WitnessAction)) × (outcome ≡ inr results))
live_plan-IsSafe_example = live_plan-IsSafe quiet_room eligible_plan 7

abbrev verified : Result BundleVerificationResult
verified = ok (result_of [] (some patch_verified) none 9)

abbrev ended : Live
ended =
    (main quiet_room true live (some live_confirmation)
      (load_verified_plan verified (some document)) start).1

two_signals : length ended.attempts ≡ 2
unfolding main run_live load_verified_plan execute_live_plan live_items cool_down attempt
    signal_count plan_physical_witness plan_scenarios contract_holds eligible_plan
    calculate_verification_outcome count_role by_role is_inconclusive calculate_individual_verdict
    is_initial response_is_coherent role_verdict is_applied is_unchanged combine baseline_reproduced
    patched_rejected positive_control_passed
two_signals = refl

something_happened : ended ≢ start
something_happened same =
    let none_sent : length ended.attempts ≡ 0 = ap (λ (h : Live). length h.attempts) same in
    ground (arith, two_signals)

signal_needs_consent_example :
    (live ≡ live)
    × (some live_confirmation ≡ some live_confirmation)
    × (v : BundleVerificationResult) × (d : EvidenceDocument) × (plan : WitnessPlan) × (verified
        ≡ ok v)
    × (v.valid ≡ true)
    × (some document ≡ some d)
    × (plan_physical_witness d ≡ some plan)
    × (plan.eligible ≡ true)
signal_needs_consent_example =
    signal_needs_consent quiet_room true live (some live_confirmation) verified (some document)
      start something_happened
