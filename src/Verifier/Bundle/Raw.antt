-- ===== src/Verifier/Bundle/Raw.antt =====
-- When the check of a raw record finds nothing.
use fixrepro.Base.{
  ◌≡◌, ◌↔◌, refl, String, Bool, true, Option, some, nat_eq, string_eq, option_eq, option_beq_iff,
  eq_iff, arith, All, List, [], ◌∷◌, Bytes,
}
use fixrepro.Core.Json.{get_text}
use fixrepro.Verifier.Models.{
  ExecutionEvidence, RequestEvidence, role_eq, state_eq, state_beq_iff, role_beq_iff,
}
use fixrepro.Verifier.Bundle.{
  BundleFailure, RawScenarioRecord, request_beq, decision_text, raw_checks, report, raw_mismatches,
  references, read_raw, raw_record_failures,
}

-- The raw record says of the run what the execution says.
pub record IsRecordOf (e : ExecutionEvidence) (r : RawScenarioRecord) : Type 0 where
  pub execution_id : r.execution_id ≡ e.execution_id
  pub role : r.role ≡ e.role
  pub started_at : r.started_at ≡ e.started_at
  pub finished_at : r.finished_at ≡ e.finished_at
  pub request : r.request ≡ e.request
  pub before : r.device_state_before ≡ e.device_state_before
  pub after : r.device_state_after ≡ e.device_state_after
  pub reset : r.reset_confirmed ≡ true
  pub decision : get_text "decision" r.gateway_response ≡ some (decision_text e.observed_decision)
  pub reason : get_text "reason_code" r.gateway_response ≡ some e.response.reason_code

request_beq_iff : (a b : RequestEvidence) → (request_beq a b ≡ true) ↔ (a ≡ b)
request_beq_iff a b = ground (
  arith,
  eq_iff a.method b.method,
  eq_iff a.path b.path,
  eq_iff a.content_type b.content_type,
  eq_iff a.body_sha256 b.body_sha256,
)

report_iff :
    (checks : List (Bool × BundleFailure)) → (report checks ≡ []) ↔ All (λ c. c.0 ≡ true) checks
report_iff [] = (λ _. tt, λ _. refl)
report_iff ((holds, f) ∷ more) = ground (arith, report_iff more)

checks_iff :
    (e : ExecutionEvidence) (r : RawScenarioRecord)
    → All (λ c. c.0 ≡ true) (raw_checks e r) ↔ IsRecordOf e r
unfolding raw_checks
checks_iff e r =
    let decision =
      option_beq_iff (get_text "decision" r.gateway_response)
        (some (decision_text e.observed_decision)) in
    let reason =
      option_beq_iff (get_text "reason_code" r.gateway_response) (some e.response.reason_code) in
    (
      λ (c₁, (c₂, (c₃, (c₄, (c₅, (c₆, (c₇, (c₈, (c₉, (c₁₀, _)))))))))). record {
        execution_id = (eq_iff r.execution_id e.execution_id).0 c₁;
        role = (role_beq_iff r.role e.role).0 c₂;
        started_at = (eq_iff r.started_at e.started_at).0 c₃;
        finished_at = (eq_iff r.finished_at e.finished_at).0 c₄;
        request = (request_beq_iff r.request e.request).0 c₅;
        before = (state_beq_iff r.device_state_before e.device_state_before).0 c₆;
        after = (state_beq_iff r.device_state_after e.device_state_after).0 c₇;
        reset = c₈;
        decision = decision.0 c₉;
        reason = reason.0 c₁₀;
      },
      λ is. (
        (eq_iff r.execution_id e.execution_id).1 is.execution_id,
        (
          (role_beq_iff r.role e.role).1 is.role,
          (
            (eq_iff r.started_at e.started_at).1 is.started_at,
            (
              (eq_iff r.finished_at e.finished_at).1 is.finished_at,
              (
                (request_beq_iff r.request e.request).1 is.request,
                (
                  (state_beq_iff r.device_state_before e.device_state_before).1 is.before,
                  (
                    (state_beq_iff r.device_state_after e.device_state_after).1 is.after,
                    (is.reset, (decision.1 is.decision, (reason.1 is.reason, tt))),
                  ),
                ),
              ),
            ),
          ),
        ),
      ),
    )

raw_mismatches_iff :
    (e : ExecutionEvidence) (r : RawScenarioRecord) → (raw_mismatches e r ≡ []) ↔ IsRecordOf e r
unfolding raw_mismatches
raw_mismatches_iff e r = (
  λ h. (checks_iff e r).0 ((report_iff (raw_checks e r)).0 h),
  λ is. (report_iff (raw_checks e r)).1 ((checks_iff e r).1 is),
)

module _ (validate_raw : Bytes → Option RawScenarioRecord)
    (read_bytes : String → Option Bytes) where
  raw_found :
      (e : ExecutionEvidence)
      → raw_record_failures validate_raw read_bytes e ≡ []
      → (references e ≡ true)
        × (r : RawScenarioRecord) × (read_raw validate_raw read_bytes e.role ≡ some r)
        × (raw_mismatches e r ≡ [])
  unfolding raw_record_failures
  raw_found e h = ground arith

  raw_clean :
      (e : ExecutionEvidence) (r : RawScenarioRecord)
      → references e ≡ true
      → read_raw validate_raw read_bytes e.role ≡ some r
      → raw_mismatches e r ≡ []
      → raw_record_failures validate_raw read_bytes e ≡ []
  unfolding raw_record_failures
  raw_clean e r refers found same = ground arith

  -- No failure is reported of an execution's raw record exactly if the execution refers to the one
  -- file of its role, that file is a valid record, and the record agrees with the execution in its
  -- identifier, role, times, request, both device states, decision and reason, and confirms the reset.
  pub raw_record_failures_iff :
      (e : ExecutionEvidence)
      → (raw_record_failures validate_raw read_bytes e ≡ []) ↔ (
          (references e ≡ true)
          × (r : RawScenarioRecord) × (read_raw validate_raw read_bytes e.role ≡ some r)
          × IsRecordOf e r)
  raw_record_failures_iff e = (
    λ h.
        let (refers, r, found, same) = raw_found e h in
        (refers, r, found, (raw_mismatches_iff e r).0 same),
    λ (refers, r, found, is). raw_clean e r refers found ((raw_mismatches_iff e r).1 is),
  )
