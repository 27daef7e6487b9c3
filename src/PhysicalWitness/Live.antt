-- ===== src/PhysicalWitness/Live.antt =====
-- scripts/roomba_witness.py: the live execution of a plan, and the command around it. Times are in
-- milliseconds.
pub mod Safe
use fixrepro.Base.{
  ℕ, zero, suc, ◌+◌, ◌-◌, ◌≤◌, ◌≡◌, ◌⊎◌, String, ◌==◌, string_eq, option_eq, inl, inr, refl, sym,
  ap, subst, ◌∙◌, Bool, true, false, not, ◌||◌, leb, ltb, leb→le, Bool-cases, Option-cases, Option,
  none, some, if◌then◌else◌, arith, List, [], ◌∷◌, length,
}
use fixrepro.Core.Errors.{
  PyError, Result, ok, raise, ◌>>=◌, ◌>>◌, raise_if, value_error, key_error, timeout_expired,
}
use fixrepro.Verifier.Models.{ExecutionRole, EvidenceDocument}
use fixrepro.Verifier.BundleVerifier.Verify.{BundleVerificationResult}
use fixrepro.PhysicalWitness.{
  WitnessAction, signal, no_command, ScenarioWitnessPlan, WitnessPlan, signals, signal_count,
  plan_physical_witness,
}
use fixrepro.PhysicalWitness.Roomba.{WitnessError}

pub data LiveError : Type 0 where
  not_eligible signal_limit : LiveError
  locate_failed : WitnessError → LiveError

-- A call of `locate_once`, from its beginning to its end.
pub record LocateCall : Type 0 where
  pub begin : ℕ
  pub finish : ℕ

-- The monotonic clock, and the attempts, the last one first.
pub record Live : Type 0 where
  pub now : ℕ
  pub attempts : List LocateCall

-- For the attempt of each number: what a sleep before it lasts beyond what is asked for, how long it takes,
-- and the exception that it ends with.
pub record Surroundings : Type 0 where
  pub oversleep : ℕ → ℕ
  pub lasts : ℕ → ℕ
  pub locate_error : ℕ → Option WitnessError

abbrev pub cooldown : ℕ
cooldown = 20000

abbrev pub LiveOutcome : Type 0
LiveOutcome = LiveError ⊎ List (ExecutionRole × WitnessAction)

-- `results.append(...)`, for the results that follow.
abbrev pub append_result : ExecutionRole → WitnessAction → LiveOutcome → LiveOutcome
append_result role action (inl e) = inl e
append_result role action (inr results) = inr ((role, action) ∷ results)

module _ (world : Surroundings) where
  -- `remaining = COOLDOWN_SECONDS - (monotonic() - last_signal_at)`, and the sleep if it is positive.
  unfoldable pub cool_down : ℕ → Option ℕ → Live → Live
  cool_down sent none h = h
  cool_down sent (some last_signal_at) h =
      let remaining = cooldown - (h.now - last_signal_at) in
      if ltb 0 remaining then record h { now = h.now + remaining + world.oversleep sent } else h

  -- `witness.locate_once()`
  unfoldable pub attempt : ℕ → Live → Live
  attempt sent h =
      let finish = h.now + world.lasts sent in
      record { now = finish; attempts = record { begin = h.now; finish = finish } ∷ h.attempts }

  unfoldable pub live_items : List ScenarioWitnessPlan → ℕ → Option ℕ → Live → LiveOutcome × Live
  unfolding cool_down attempt
  live_items [] sent last h = (inr [], h)
  live_items (item ∷ items) sent last h = elim item.action [
    | no_command ↦
        let (results, h') = live_items items sent last h in
        (append_result item.role no_command results, h')
    | signal ↦
        let h₁ = attempt sent (cool_down sent last h) in
        let (results, h₂) = live_items items (suc sent) (some h₁.now) h₁ in
        if leb 2 sent then (inl signal_limit, h) else elim (world.locate_error sent) [
          | some e ↦ (inl (locate_failed e), h₁)
          | none ↦ (append_result item.role signal results, h₂)
        ]
  ]

  -- `_execute_live_plan`
  unfoldable pub execute_live_plan : WitnessPlan → Live → LiveOutcome × Live
  unfolding live_items signal_count
  execute_live_plan plan h =
      if not plan.eligible || ltb 2 (signal_count plan)
      then (inl not_eligible, h)
      else live_items plan.scenarios 0 none h

pub data Mode : Type 0 where
  dry_run live : Mode

abbrev pub live_confirmation : String
live_confirmation = "OWNER_AUTHORIZED_TWO_LOCATE_SIGNALS"

-- `_load_verified_plan`: what `verify_bundle` gives, and the evidence if it can be read and validates; a
-- plan that is none is a `KeyError`.
unfoldable pub load_verified_plan :
    Result BundleVerificationResult → Option EvidenceDocument → Result WitnessPlan
load_verified_plan verified evidence = do
  result ← verified
  raise_if (not result.valid) (value_error "the bundle did not pass independent verification")
  document ← elim evidence [ none ↦ raise (value_error "evidence.json") | some d ↦ ok d ]
  elim (plan_physical_witness document) [ none ↦ raise (key_error "role") | some plan ↦ ok plan ]

-- `except (OSError, RuntimeError, ValueError)` around the loading; a `KeyError` goes on.
abbrev pub is_load_error : PyError → Bool
is_load_error (key_error _) = false
is_load_error timeout_expired = false
is_load_error e = true

-- `main` after its arguments are parsed: the exit code. `configured` is whether the local configuration
-- can be loaded.
module _ (world : Surroundings) (configured : Bool) where
  unfoldable pub run_live : WitnessPlan → Option String → Live → ℕ × Live
  unfolding execute_live_plan
  run_live plan confirm h =
      if not (confirm == some live_confirmation)
      then (1, h)
      else if not plan.eligible
      then (2, h)
      else if not configured
      then (1, h)
      else (let (outcome, h') = execute_live_plan world plan h in
          (elim outcome [ inl e ↦ 1 | inr results ↦ 0 ], h'))

  unfoldable pub main : Mode → Option String → Result WitnessPlan → Live → Result ℕ × Live
  unfolding run_live
  main mode confirm loaded h = elim loaded [
    | raise e ↦ (if is_load_error e then ok 1 else raise e, h)
    | ok plan ↦ elim mode [
      | dry_run ↦ (ok (if plan.eligible then 0 else 2), h)
      | live ↦ let (code, h') = run_live plan confirm h in (ok code, h')
    ]
  ]
