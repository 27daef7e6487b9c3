-- ===== src/Verifier/Verdicts/Consistency.antt =====
-- When the stored fields of executions agree with what is recomputed.
use fixrepro.Base.{◌≡◌, ◌≢◌, ◌↔◌, ◌⊎◌, refl, List, [], ◌∷◌, ◌++◌, All, arith}
use fixrepro.Verifier.Models.{
  ExecutionEvidence, SecurityVerdict, pass, fail, accepted, rejected, positive_control, role_eq,
  decision_eq, verdict_eq,
}
use fixrepro.Verifier.Verdicts.Individual.{IsSecure, IsInsecure, verdict_iff}
use fixrepro.Verifier.Verdicts.{
  calculate_individual_verdict, expected_secure, execution_failures, evidence_consistency_failures,
  Mismatch,
}

-- The stored verdict is PASS exactly for an execution that is secure for its role, and FAIL exactly for one
-- that shows the insecure behaviour; the expected decision is to accept the update for the positive control
-- alone; and the observed decision is that of the response.
pub record IsConsistent (e : ExecutionEvidence) : Type 0 where
  pub passes : (e.security_verdict ≡ pass) ↔ IsSecure e.role e
  pub fails : (e.security_verdict ≡ fail) ↔ IsInsecure e.role e
  pub expected :
      ((e.role ≡ positive_control) × (e.secure_expected_decision ≡ accepted))
      ⊎ ((e.role ≢ positive_control) × (e.secure_expected_decision ≡ rejected))
  pub observed : e.observed_decision ≡ e.response.decision

-- A verdict is determined by whether it is PASS and whether it is FAIL.
verdict_determined :
    {S I : Type 0} (stored calculated : SecurityVerdict)
    → (calculated ≡ pass) ↔ S
    → (calculated ≡ fail) ↔ I
    → (stored ≡ calculated) ↔ (((stored ≡ pass) ↔ S) × ((stored ≡ fail) ↔ I))
verdict_determined stored calculated passes fails = ground arith

expected_iff :
    (e : ExecutionEvidence)
    → (e.secure_expected_decision ≡ expected_secure e.role) ↔ (
        ((e.role ≡ positive_control) × (e.secure_expected_decision ≡ accepted))
        ⊎ ((e.role ≢ positive_control) × (e.secure_expected_decision ≡ rejected)))
expected_iff e = ground arith

append_nil : (xs ys : List Mismatch) → (xs ++ ys ≡ []) ↔ ((xs ≡ []) × (ys ≡ []))
append_nil [] ys = ground arith
append_nil (x ∷ xs) ys = ground arith

execution_failures_iff : (e : ExecutionEvidence) → (execution_failures e ≡ []) ↔ IsConsistent e
unfolding execution_failures
execution_failures_iff e = ground (
  arith,
  expected_iff e,
  verdict_determined e.security_verdict (calculate_individual_verdict e) (verdict_iff e).0
      (verdict_iff e).1,
)

-- No mismatch is reported exactly if every execution stores the verdict that its states, statuses and
-- hashes call for, the decision that is secure for its role (ACCEPTED for the positive control, REJECTED for
-- the other two), and the decision of its response.
pub consistency_failures_iff :
    (es : List ExecutionEvidence) → (evidence_consistency_failures es ≡ []) ↔ All IsConsistent es
unfolding evidence_consistency_failures
consistency_failures_iff [] = (λ _. tt, λ _. refl)
consistency_failures_iff (e ∷ es) = ground (
  arith,
  append_nil (execution_failures e) (evidence_consistency_failures es),
  execution_failures_iff e,
  consistency_failures_iff es,
)
