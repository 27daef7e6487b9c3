-- ===== src/Verifier/Verdicts.antt =====
-- verifier/verdicts.py: the verdict of one execution and the outcome of a verification.
pub mod Individual
pub mod Roles
pub mod Outcome
pub mod Consistency
use fixrepro.Base.{
  ℕ, suc, ◌+◌, String, Bool, true, false, Option, none, some, ◌==◌, nat_eq, string_eq, option_eq,
  ◌&&◌, ◌||◌, not, is_none, List, [], ◌∷◌, ◌++◌, if◌then◌else◌, any, all, length,
}
use fixrepro.Core.Models.{◌>>=◌}
use fixrepro.Verifier.Models.{
  ExecutionRole, vulnerable, patched, positive_control, ObservedDecision, accepted, rejected, error,
  SecurityVerdict, pass, fail, VerificationOutcome, patch_verified, patch_not_verified,
  ExecutionEvidence, DeviceStateEvidence, role_eq, decision_eq, verdict_eq, state_eq,
}

abbrev pub initial_version : String
initial_version = "1.0.0"

abbrev pub untrusted_version : String
untrusted_version = "9.9.0-test"

abbrev pub trusted_version : String
trusted_version = "1.1.0"

unfoldable pub is_initial : ExecutionEvidence → Bool
is_initial e =
    e.device_state_before.firmware_version == initial_version
    && e.device_state_before.update_counter == 0
    && is_none e.device_state_before.last_payload_sha256

unfoldable pub is_unchanged : ExecutionEvidence → Bool
is_unchanged e = e.device_state_after == e.device_state_before

unfoldable pub is_applied : ExecutionEvidence → String → Bool
is_applied e version =
    is_initial e
    && e.device_state_after.firmware_version == version
    && e.device_state_after.update_counter == e.device_state_before.update_counter + 1
    && e.device_state_after.last_payload_sha256 == some e.package_evidence.sha256

unfoldable pub response_is_coherent : ExecutionEvidence → Bool
response_is_coherent e =
    if not (e.observed_decision == e.response.decision)
    then false
    else if not (e.package_evidence.envelope_sha256 == e.request.body_sha256)
    then false
    else if e.response.decision == accepted
    then (e.response.http_status == 200
        && e.device_state_after.update_counter == e.device_state_before.update_counter + 1)
    else if e.response.decision == rejected
    then (e.response.http_status == 400 || e.response.http_status == 403) && is_unchanged e
    else false

-- The part for one role: what an accepted and applied, and a rejected and unchanged, update mean.
unfoldable pub role_verdict : ExecutionEvidence → SecurityVerdict
role_verdict e =
    let applied = λ (version : String). e.observed_decision == accepted && is_applied e version in
    let blocked = e.observed_decision == rejected && is_unchanged e in
    if e.role == vulnerable
    then (if applied untrusted_version
        then fail
        else if blocked
        then pass
        else SecurityVerdict.inconclusive)
    else if e.role == patched
    then (if blocked
        then pass
        else if applied untrusted_version
        then fail
        else SecurityVerdict.inconclusive)
    else if e.role == positive_control
    then (if applied trusted_version
        then pass
        else if blocked
        then fail
        else SecurityVerdict.inconclusive)
    else SecurityVerdict.inconclusive

unfoldable pub calculate_individual_verdict : ExecutionEvidence → SecurityVerdict
calculate_individual_verdict e =
    if e.observed_decision == error
    then SecurityVerdict.inconclusive
    else if not (is_initial e) || not (response_is_coherent e)
    then SecurityVerdict.inconclusive
    else role_verdict e

unfoldable pub baseline_reproduced : ExecutionEvidence → Bool
baseline_reproduced e =
    calculate_individual_verdict e == fail
    && e.response.http_status == 200
    && e.observed_decision == accepted
    && e.response.reason_code == "CHECKSUM_ONLY_ACCEPTED"
    && is_applied e untrusted_version

unfoldable pub patched_rejected : ExecutionEvidence → Bool
patched_rejected e =
    calculate_individual_verdict e == pass
    && e.response.http_status == 403
    && e.observed_decision == rejected
    && e.response.reason_code == "UNTRUSTED_SIGNER"
    && is_initial e
    && is_unchanged e

unfoldable pub positive_control_passed : ExecutionEvidence → Bool
positive_control_passed e =
    calculate_individual_verdict e == pass
    && e.response.http_status == 200
    && e.observed_decision == accepted
    && e.response.reason_code == "TRUSTED_SIGNATURE_ACCEPTED"
    && is_applied e trusted_version

-- `Counter(...)[role]`
unfoldable pub count_role : ExecutionRole → List ExecutionEvidence → ℕ
count_role role [] = 0
count_role role (e ∷ es) = let n = count_role role es in if e.role == role then suc n else n

-- `{execution.role: execution for execution in executions}[role]`: the last one wins, and a missing
-- role is a `KeyError`, `none`.
unfoldable pub by_role : ExecutionRole → List ExecutionEvidence → Option ExecutionEvidence
by_role role [] = none
by_role role (e ∷ es) = elim (by_role role es) [
  | some found ↦ some found
  | none ↦ if e.role == role then some e else none
]

unfoldable pub is_inconclusive : ExecutionEvidence → Bool
is_inconclusive e =
    e.observed_decision == error || calculate_individual_verdict e == SecurityVerdict.inconclusive

-- The outcome from the three executions.
unfoldable pub combine :
    ExecutionEvidence → ExecutionEvidence → ExecutionEvidence → VerificationOutcome
combine v p c =
    if not (v.package_evidence.envelope_sha256 == p.package_evidence.envelope_sha256)
      || not (v.request.body_sha256 == p.request.body_sha256)
      || not (v.package_evidence.envelope_sha256 == v.request.body_sha256)
      || not (p.package_evidence.envelope_sha256 == p.request.body_sha256)
    then VerificationOutcome.inconclusive
    else if not (baseline_reproduced v)
    then VerificationOutcome.inconclusive
    else if patched_rejected p && positive_control_passed c
    then patch_verified
    else if not (response_is_coherent p) || not (response_is_coherent c)
    then VerificationOutcome.inconclusive
    else patch_not_verified

-- `none` is a `KeyError`.
unfoldable pub calculate_verification_outcome : List ExecutionEvidence → Option VerificationOutcome
calculate_verification_outcome executions =
    if not (length executions == 3)
      || not (count_role vulnerable executions == 1)
      || not (count_role patched executions == 1)
      || not (count_role positive_control executions == 1)
    then some VerificationOutcome.inconclusive
    else do
      v ← by_role vulnerable executions
      p ← by_role patched executions
      c ← by_role positive_control executions
      if any is_inconclusive executions
          then some VerificationOutcome.inconclusive
          else some (combine v p c)

-- The three kinds of mismatch of `evidence_consistency_failures`.
pub data Mismatch : Type 0 where
  stored_verdict expected_decision observed_decision : ExecutionRole → Mismatch

abbrev pub expected_secure : ExecutionRole → ObservedDecision
expected_secure vulnerable = rejected
expected_secure patched = rejected
expected_secure positive_control = accepted

abbrev pub fail_if {ℓ} : {A : Type ℓ} → Bool → A → List A
fail_if true a = a ∷ []
fail_if false a = []

unfoldable pub execution_failures : ExecutionEvidence → List Mismatch
execution_failures e =
    fail_if (not (e.security_verdict == calculate_individual_verdict e)) (stored_verdict e.role)
    ++ (fail_if (not (e.secure_expected_decision == expected_secure e.role))
          (expected_decision e.role)
        ++ fail_if (not (e.observed_decision == e.response.decision)) (observed_decision e.role))

unfoldable pub evidence_consistency_failures : List ExecutionEvidence → List Mismatch
evidence_consistency_failures [] = []
evidence_consistency_failures (e ∷ es) = execution_failures e ++ evidence_consistency_failures es
