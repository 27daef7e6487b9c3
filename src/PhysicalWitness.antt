-- ===== src/PhysicalWitness.antt =====
-- physical_witness/policy.py: which scenarios are signalled by a physical device.
pub mod Plan
pub mod Roomba
pub mod Live
use fixrepro.Base.{
  ℕ, ◌+◌, String, Bool, true, false, not, ◌&&◌, Option, none, some, ◌==◌, string_eq, if◌then◌else◌,
  List, [], ◌∷◌, ltb,
}
use fixrepro.Verifier.Models.{
  ExecutionRole, vulnerable, patched, positive_control, accepted, rejected, pass, fail,
  EvidenceDocument, ExecutionEvidence, VerificationOutcome, patch_verified, role_eq, decision_eq,
  verdict_eq, outcome_eq,
}
use fixrepro.Verifier.Verdicts.{calculate_verification_outcome, by_role}
use fixrepro.Core.Models.{◌>>=◌}

pub data WitnessAction : Type 0 where
  signal no_command : WitnessAction

pub record ScenarioWitnessPlan : Type 0 where
  pub role : ExecutionRole
  pub action : WitnessAction

pub record WitnessPlan : Type 0 where
  pub eligible : Bool
  pub reason : String
  pub scenarios : List ScenarioWitnessPlan

-- `sum(item.action is WitnessAction.SIGNAL for item in self.scenarios)`
abbrev is_signal : WitnessAction → ℕ
is_signal signal = 1
is_signal no_command = 0

abbrev pub signals : List ScenarioWitnessPlan → ℕ
signals [] = 0
signals (s ∷ ss) = is_signal s.action + signals ss

unfoldable pub signal_count : WitnessPlan → ℕ
signal_count plan = signals plan.scenarios

-- `next(...)`: the first plan of the role; `StopIteration` is `none`.
abbrev first_action : ExecutionRole → List ScenarioWitnessPlan → Option WitnessAction
first_action role [] = none
first_action role (s ∷ ss) = if s.role == role then some s.action else first_action role ss

unfoldable pub action_for : WitnessPlan → ExecutionRole → Option WitnessAction
action_for plan role = first_action role plan.scenarios

abbrev pub planned : ExecutionRole → WitnessAction → ScenarioWitnessPlan
planned role action = record { role = role; action = action }

unfoldable pub no_command_plan : String → WitnessPlan
no_command_plan reason = record {
  eligible = false;
  reason = reason;
  scenarios =
      planned vulnerable no_command
      ∷ planned patched no_command
      ∷ planned positive_control no_command
      ∷ [];
}

-- The contract of the three scenarios, on the stored fields.
unfoldable pub contract_holds : ExecutionEvidence → ExecutionEvidence → ExecutionEvidence → Bool
contract_holds v p c =
    v.observed_decision == accepted
    && v.security_verdict == fail
    && p.observed_decision == rejected
    && p.security_verdict == pass
    && c.observed_decision == accepted
    && c.security_verdict == pass

unfoldable pub eligible_plan : WitnessPlan
eligible_plan = record {
  eligible = true;
  reason = "PATCH_VERIFIED_WITNESS_PLAN";
  scenarios =
      planned vulnerable signal ∷ planned patched no_command ∷ planned positive_control signal ∷ [];
}

-- What follows the two outcome checks.
unfoldable pub plan_scenarios :
    ExecutionEvidence → ExecutionEvidence → ExecutionEvidence → WitnessPlan
unfolding no_command_plan eligible_plan signal_count contract_holds
plan_scenarios v p c =
    if not (v.package_evidence.envelope_sha256 == p.package_evidence.envelope_sha256)
    then no_command_plan "ENVELOPE_HASH_MISMATCH"
    else if not (v.request.body_sha256 == p.request.body_sha256)
    then no_command_plan "REQUEST_HASH_MISMATCH"
    else if not (contract_holds v p c)
    then no_command_plan "SCENARIO_CONTRACT_MISMATCH"
    else if ltb 2 (signal_count eligible_plan)
    then no_command_plan "SIGNAL_LIMIT_EXCEEDED"
    else eligible_plan

-- `none` is a `KeyError`, of the outcome or of the lookups.
unfoldable pub plan_physical_witness : EvidenceDocument → Option WitnessPlan
plan_physical_witness evidence =
    if not (evidence.verification_outcome == patch_verified)
    then some (no_command_plan "OVERALL_OUTCOME_NOT_PATCH_VERIFIED")
    else do
      recomputed ← calculate_verification_outcome evidence.executions
      if not (recomputed == patch_verified)
          then some (no_command_plan "RECOMPUTED_OUTCOME_NOT_PATCH_VERIFIED")
          else do
            v ← by_role vulnerable evidence.executions
            p ← by_role patched evidence.executions
            c ← by_role positive_control evidence.executions
            some (plan_scenarios v p c)
