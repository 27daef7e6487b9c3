-- ===== src/Verifier/Orchestrator/Staged/Recorded.antt =====
-- verifier/orchestrator.py and verifier/bundle.py: which captures give a raw record that the verification of
-- the bundle accepts.
use fixrepro.Base.{
  ℕ, ◌≡◌, ◌↔◌, ◌⊎◌, inl, inr, refl, sym, ap, subst, ◌∙◌, String, true, false, Bool-cases, Option,
  none, some, ◌||◌, ◌==◌, nat_eq, string_eq, option_eq, eq_iff, arith, [], Bytes,
}
use fixrepro.Core.Json.{get_field, get_text}
use fixrepro.Core.Primitives.{Primitives}
use fixrepro.Core.Evaluation.{Decision}
use fixrepro.Core.Gateway.{GatewayResponse}
use fixrepro.Verifier.Models.{
  ExecutionRole, vulnerable, patched, positive_control, DeviceStateEvidence, state_eq, role_eq,
}
use fixrepro.Verifier.Bundle.{
  RawScenarioRecord, decision_text, references, expected_raw_path, read_raw, raw_record_failures,
}
use fixrepro.Verifier.Bundle.Raw.{IsRecordOf, raw_record_failures_iff}
use fixrepro.Verifier.Orchestrator.{
  ScenarioDefinition, Stamp, ScenarioCapture, is_reset, observed, conflicts, observe, make_capture,
  execution_from_capture,
}
use fixrepro.Verifier.Orchestrator.Finish.{some-injective}
use fixrepro.Verifier.Orchestrator.Staged.{
  gateway_document, raw_path, raw_capture, artifact_record, stage_capture, decision_value,
}

expected_path : (role : ExecutionRole) → expected_raw_path role ≡ raw_path role
unfolding expected_raw_path raw_path
expected_path vulnerable = refl
expected_path patched = refl
expected_path positive_control = refl

-- The gateway's response was well-formed, and its states are those that were seen, or it says itself what is
-- recorded of a conflict.
abbrev pub IsConsistent :
    Option GatewayResponse → DeviceStateEvidence → DeviceStateEvidence → Type 0
IsConsistent gateway before after =
    (g : GatewayResponse) × (gateway ≡ some g)
    × (((conflicts g.device_state_before before ≡ false)
          × (conflicts g.device_state_after after ≡ false))
        ⊎ ((g.decision ≡ Decision.error) × (g.reason_code ≡ "CONFLICTING_OBSERVATION")))

decision_error : (d : Decision) → (decision_value d == "ERROR") ≡ true → d ≡ Decision.error
decision_error Decision.accepted h = absurd (ground arith)
decision_error Decision.rejected h = absurd (ground arith)
decision_error Decision.error h = refl

decision_same : (d : Decision) → decision_value d ≡ decision_text (observed d)
unfolding observed
decision_same Decision.accepted = refl
decision_same Decision.rejected = refl
decision_same Decision.error = refl

-- The decision and the reason of the document are the ones that are recorded exactly if nothing conflicts.
document_iff :
    (gateway : Option GatewayResponse) (before after : DeviceStateEvidence)
    → let (decision, reason) = observe gateway before after in
      ((get_text "decision" (gateway_document gateway) ≡ some (decision_text decision))
        × (get_text "reason_code" (gateway_document gateway) ≡ some reason))
      ↔ IsConsistent gateway before after
unfolding observe gateway_document get_text get_field
document_iff none before after =
    (λ (absent, _). absurd (ground arith), λ (g, absent, _). absurd (ground arith))
document_iff (some g) before after =
    let conflict = conflicts g.device_state_before before || conflicts g.device_state_after after in
    elim (Bool-cases conflict) [
      | inl differs ↦ rw differs (
        λ (decision, reason). (
          g,
          refl,
          inr (
            decision_error g.decision
                ((eq_iff (decision_value g.decision) "ERROR").1 (some-injective decision)),
            some-injective reason,
          ),
        ),
        λ (x, same, agrees). elim agrees [
          | inl (before_same, after_same) ↦ absurd (ground arith)
          | inr (decision, reason) ↦
              let is : g ≡ x = some-injective same in
              (
                ap (λ (y : GatewayResponse). some (decision_value y.decision)) is
                    ∙ ap (λ d. some (decision_value d)) decision,
                ap (λ (y : GatewayResponse). some y.reason_code) is ∙ ap (λ r. some r) reason,
              )
        ],
      )
      | inr agree ↦ rw agree (
        λ _. (g, refl, inl (ground arith, ground arith)),
        λ _. (ap (λ t. some t) (decision_same g.decision), refl),
      )
    ]

module _ (prim : Primitives) (dump_json : RawScenarioRecord → Bytes)
    (validate_raw : Bytes → Option RawScenarioRecord) (read_bytes : String → Option Bytes) where
  reads_back :
      (c : ScenarioCapture)
      → validate_raw (dump_json (raw_capture c)) ≡ some (raw_capture c)
      → read_bytes (raw_path c.definition.role) ≡ some (dump_json (raw_capture c))
      → read_raw validate_raw read_bytes c.definition.role ≡ some (raw_capture c)
  unfolding read_raw
  reads_back c valid found = rw (read_raw, expected_path c.definition.role, found) valid

  refers_to_raw : (c : ScenarioCapture) → references (stage_capture prim dump_json c) ≡ true
  unfolding references stage_capture execution_from_capture artifact_record
  refers_to_raw c =
      (eq_iff (raw_path c.definition.role) (expected_raw_path c.definition.role)).1
        (sym (expected_path c.definition.role))

  -- The raw record of a capture is accepted, with the execution that is made from it, exactly if the reset was
  -- confirmed, the gateway's response was well-formed, and its device states are the ones that were seen or
  -- the response itself says ERROR and CONFLICTING_OBSERVATION. The file of the record is the one that was
  -- written, and it validates to what was written.
  pub raw_capture_accepted_iff :
      (definition : ScenarioDefinition) (stamp : Stamp) (before after : DeviceStateEvidence)
      (status_code : ℕ) (content : Bytes) (gateway : Option GatewayResponse)
      → let c = make_capture prim definition stamp before status_code content gateway after in
        validate_raw (dump_json (raw_capture c)) ≡ some (raw_capture c)
        → read_bytes (raw_path definition.role) ≡ some (dump_json (raw_capture c))
        → (raw_record_failures validate_raw read_bytes (stage_capture prim dump_json c) ≡ [])
          ↔ ((is_reset before ≡ true) × IsConsistent gateway before after)
  unfolding raw_capture stage_capture make_capture execution_from_capture artifact_record
  raw_capture_accepted_iff definition stamp before after status_code content gateway valid found =
      let c = make_capture prim definition stamp before status_code content gateway after in
      let e = stage_capture prim dump_json c in
      let failures_iff = raw_record_failures_iff validate_raw read_bytes e in
      let recorded = reads_back c valid found in
      (
        λ clean.
            let (refers, r, read, is) = failures_iff.0 clean in
            let is_record : IsRecordOf e (raw_capture c) =
              subst (IsRecordOf e) (some-injective (sym read ∙ recorded)) is in
            (
              is_record.reset,
              (document_iff gateway before after).0 (is_record.decision, is_record.reason),
            ),
        λ (reset, consistent).
            let (decision, reason) = (document_iff gateway before after).1 consistent in
            failures_iff.1 (
              refers_to_raw c,
              raw_capture c,
              recorded,
              record {
                execution_id = refl;
                role = refl;
                started_at = refl;
                finished_at = refl;
                request = refl;
                before = refl;
                after = refl;
                reset = reset;
                decision = decision;
                reason = reason;
              },
            ),
      )
