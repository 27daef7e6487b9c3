-- ===== src/PhysicalWitness/Live/Safe.antt =====
-- scripts/roomba_witness.py: what is signalled, when, and on whose word.
use fixrepro.Base.{
  ℕ, suc, ◌+◌, ◌≤◌, ◌≡◌, ◌≢◌, ◌⊎◌, String, ◌==◌, string_eq, option_eq, option_beq_iff, inl, inr,
  refl, sym, ap, subst, ◌∙◌, Bool, true, false, not, ◌||◌, leb, ltb, Bool-cases, Option,
  Option-cases, none, some, arith, List, [], ◌∷◌, length,
}
use fixrepro.Core.Errors.{Result, ok, raise, Result-cases}
use fixrepro.Verifier.Models.{ExecutionRole, EvidenceDocument}
use fixrepro.Verifier.BundleVerifier.Verify.{BundleVerificationResult}
use fixrepro.PhysicalWitness.{
  WitnessAction, signal, no_command, ScenarioWitnessPlan, WitnessPlan, signals, signal_count,
  plan_physical_witness,
}
use fixrepro.PhysicalWitness.Live.{
  LocateCall, Live, Surroundings, cooldown, LiveOutcome, append_result, cool_down, attempt,
  live_items, execute_live_plan, Mode, dry_run, live, live_confirmation, load_verified_plan,
  run_live, main,
}

-- Each attempt begins when the one before it ended at least the cooldown ago.
abbrev pub IsSpaced : List LocateCall → Type 0
IsSpaced [] = Unit {0}
IsSpaced (a ∷ []) = Unit {0}
IsSpaced (a ∷ b ∷ more) = (b.finish + cooldown ≤ a.begin) × IsSpaced (b ∷ more)

-- `last_signal_at` is the end of the last attempt, which is past.
abbrev IsLast : Option ℕ → List LocateCall → ℕ → Type 0
IsLast none [] now = Unit {0}
IsLast (some t) (a ∷ _) now = (t ≡ a.finish) × (t ≤ now)
IsLast _ _ now = ⊥

record IsRunning (sent : ℕ) (last : Option ℕ) (h : Live) : Type 0 where
  few : sent ≤ 2
  counted : length h.attempts ≡ sent
  spaced : IsSpaced h.attempts
  last_one : IsLast last h.attempts h.now

-- An attempt that begins at `begin` after the last one.
next-IsSpaced :
    (last : Option ℕ) (attempts : List LocateCall) (now begin finish : ℕ)
    → IsLast last attempts now
    → ((t : ℕ) → last ≡ some t → t + cooldown ≤ begin)
    → IsSpaced attempts
    → IsSpaced (record { begin = begin; finish = finish } ∷ attempts)
next-IsSpaced none [] now begin finish is cooled spaced = tt
next-IsSpaced none (a ∷ more) now begin finish is cooled spaced = absurd is
next-IsSpaced (some t) [] now begin finish is cooled spaced = absurd is
next-IsSpaced (some t) (a ∷ more) now begin finish (same, past) cooled spaced =
    let ready = cooled t refl in (omega arith, spaced)

past_last : (t : ℕ) (attempts : List LocateCall) (now : ℕ) → IsLast (some t) attempts now → t ≤ now
past_last t [] now is = absurd is
past_last t (a ∷ more) now (same, past) = past

some-injective : {a b : ℕ} → some a ≡ some b → a ≡ b
some-injective h = cc

appended :
    (role : ExecutionRole) (action : WitnessAction) (outcome : LiveOutcome)
    (results : List (ExecutionRole × WitnessAction))
    → append_result role action outcome ≡ inr results
    → (rest : List (ExecutionRole × WitnessAction)) × (outcome ≡ inr rest)
appended role action (inl e) results h = absurd (ground arith)
appended role action (inr rest) results h = (rest, refl)

action_cases : (action : WitnessAction) → (action ≡ signal) ⊎ (action ≡ no_command)
action_cases signal = inl refl
action_cases no_command = inr refl

module _ (world : Surroundings) where
  cool_down_keeps :
      (sent : ℕ) (last : Option ℕ) (h : Live) → (cool_down world sent last h).attempts ≡ h.attempts
  unfolding cool_down
  cool_down_keeps sent none h = refl
  cool_down_keeps sent (some t) h = ground arith

  cooled :
      (sent : ℕ) (last : Option ℕ) (h : Live)
      → IsLast last h.attempts h.now
      → (t : ℕ) → last ≡ some t
      → t + cooldown ≤ (cool_down world sent last h).now
  unfolding cool_down
  cooled sent none h is t named = absurd (ground arith)
  cooled sent (some u) h is t named =
      let past = past_last u h.attempts h.now is in
      let same : u ≡ t = some-injective named in ground arith

  attempted :
      (sent : ℕ) (last : Option ℕ) (h : Live)
      → leb 2 sent ≡ false
      → IsRunning sent last h
      → let h₁ = attempt world sent (cool_down world sent last h) in
        IsRunning (suc sent) (some h₁.now) h₁
  unfolding attempt
  attempted sent last h room running =
      let kept = cool_down_keeps sent last h in
      let begin = (cool_down world sent last h).now in
      let finish = begin + world.lasts sent in
      record {
        few = ground arith;
        counted = ap (λ attempts. suc (length attempts)) kept ∙ ap suc running.counted;
        spaced =
            subst (λ attempts. IsSpaced (record { begin = begin; finish = finish } ∷ attempts))
              (sym kept)
              (next-IsSpaced last h.attempts h.now begin finish running.last_one
                (cooled sent last h running.last_one) running.spaced);
        last_one = (refl, omega arith);
      }

  -- What the rest of the plan keeps.
  IsLimited : ℕ → List ScenarioWitnessPlan → LiveOutcome → Live → Type 0
  IsLimited sent items outcome h =
      (length h.attempts ≤ 2)
      × IsSpaced h.attempts
      × ((results : List (ExecutionRole × WitnessAction))
          → outcome ≡ inr results
          → length h.attempts ≡ sent + signals items)

  items-IsLimited :
      (items : List ScenarioWitnessPlan) (sent : ℕ) (last : Option ℕ) (h : Live)
      → IsRunning sent last h
      → let (outcome, h') = live_items world items sent last h in IsLimited sent items outcome h'
  unfolding live_items IsLimited
  items-IsLimited [] sent last h running = (ground arith, running.spaced, λ results h. ground arith)
  items-IsLimited (item ∷ items) sent last h running = elim (action_cases item.action) [
    | inr silent ↦
        let (few, spaced, counted) = items-IsLimited items sent last h running in
        rw (silent, live_items)
          (
            few,
            spaced,
            λ results done.
                let (rest, given) =
                  appended item.role no_command (live_items world items sent last h).0 results
                    done in
                let count = counted rest given in omega arith,
          )
    | inl signalled ↦ elim (Bool-cases (leb 2 sent)) [
      | inl full ↦
          rw (signalled, full, live_items)
            (ground arith, running.spaced, λ results done. absurd (ground arith))
      | inr room ↦
          let h₁ = attempt world sent (cool_down world sent last h) in
          let next = attempted sent last h room running in
          elim (Option-cases (world.locate_error sent)) [
            | inr (e, failed) ↦
                rw (signalled, room, failed, live_items)
                  (ground arith, next.spaced, λ results done. absurd (ground arith))
            | inl sent_it ↦
                let (few, spaced, counted) =
                  items-IsLimited items (suc sent) (some h₁.now) h₁ next in
                rw (signalled, room, sent_it, live_items)
                  (
                    few,
                    spaced,
                    λ results done.
                        let (rest, given) =
                          appended item.role signal
                            (live_items world items (suc sent) (some h₁.now) h₁).0 results done in
                        let count = counted rest given in omega arith,
                  )
          ]
    ]
  ]

  -- Within the limit, and if no signal fails, the whole plan is carried out.
  items_succeed :
      (items : List ScenarioWitnessPlan) (sent : ℕ) (last : Option ℕ) (h : Live)
      → ((k : ℕ) → world.locate_error k ≡ none)
      → sent + signals items ≤ 2
      → (results : List (ExecutionRole × WitnessAction)) × ((live_items world items sent last h).0
          ≡ inr results)
  unfolding live_items
  items_succeed [] sent last h willing room = ([], refl)
  items_succeed (item ∷ items) sent last h willing room = elim (action_cases item.action) [
    | inr silent ↦
        let fits : sent + signals items ≤ 2 = ground arith in
        let (results, given) = items_succeed items sent last h willing fits in
        let shape : (live_items world (item ∷ items) sent last h).0
            ≡ append_result item.role no_command (live_items world items sent last h).0 =
          rw (silent, live_items) refl in
        ((item.role, no_command) ∷ results, shape ∙ ap (append_result item.role no_command) given)
    | inl signalled ↦
        let fits : suc sent + signals items ≤ 2 = ground arith in
        let below : leb 2 sent ≡ false = ground arith in
        let h₁ = attempt world sent (cool_down world sent last h) in
        let (results, given) = items_succeed items (suc sent) (some h₁.now) h₁ willing fits in
        let shape : (live_items world (item ∷ items) sent last h).0
            ≡ append_result item.role signal
                (live_items world items (suc sent) (some h₁.now) h₁).0 =
          rw (signalled, below, willing sent, live_items) refl in
        ((item.role, signal) ∷ results, shape ∙ ap (append_result item.role signal) given)
  ]

  -- The live execution of a plan, from no attempt on, makes at most two attempts to signal, each beginning at
  -- least the cooldown of 20 s after the one before it ended. It makes none if the plan is not eligible. If it
  -- returns, it has made as many as the plan has signals. An eligible plan with at most two signals is carried
  -- out if no attempt fails.
  pub live_plan-IsSafe :
      (plan : WitnessPlan) (now : ℕ)
      → let start : Live = record { now = now; attempts = [] } in
        let (outcome, h) = execute_live_plan world plan start in
        (length h.attempts ≤ 2)
        × IsSpaced h.attempts
        × (plan.eligible ≡ false → h.attempts ≡ [])
        × ((results : List (ExecutionRole × WitnessAction))
            → outcome ≡ inr results
            → length h.attempts ≡ signal_count plan)
        × (plan.eligible ≡ true
            → signal_count plan ≤ 2
            → ((k : ℕ) → world.locate_error k ≡ none)
            → (results : List (ExecutionRole × WitnessAction)) × (outcome ≡ inr results))
  unfolding execute_live_plan signal_count IsLimited
  live_plan-IsSafe plan now =
      let start : Live = record { now = now; attempts = [] } in
      let running : IsRunning 0 none start = record {
        few = omega arith;
        counted = refl;
        spaced = tt;
        last_one = tt;
      } in
      let (few, spaced, counted) = items-IsLimited plan.scenarios 0 none start running in
      elim (Bool-cases (not plan.eligible || ltb 2 (signals plan.scenarios))) [
        | inl refused ↦
            rw (refused, execute_live_plan)
              (
                omega arith,
                tt,
                λ _. refl,
                λ results h. absurd (ground arith),
                λ eligible fits. absurd (ground arith),
              )
        | inr granted ↦
            rw (granted, execute_live_plan)
              (
                few,
                spaced,
                λ ineligible. absurd (ground arith),
                λ results done. let count = counted results done in omega arith,
                λ eligible fits willing.
                    items_succeed plan.scenarios 0 none start willing (omega arith),
              )
      ]

load_verified_sound :
    (verified : Result BundleVerificationResult) (evidence : Option EvidenceDocument)
    (plan : WitnessPlan)
    → load_verified_plan verified evidence ≡ ok plan
    → (v : BundleVerificationResult) × (d : EvidenceDocument) × (verified ≡ ok v)
      × (v.valid ≡ true)
      × (evidence ≡ some d)
      × (plan_physical_witness d ≡ some plan)
unfolding load_verified_plan
load_verified_sound (raise e) evidence plan h = absurd (ground arith)
load_verified_sound (ok v) none plan h = absurd (ground arith)
load_verified_sound (ok v) (some d) plan h = (v, d, refl, ground arith, refl, ground arith)

module _ (world : Surroundings) (configured : Bool) where
  run_live_granted :
      (plan : WitnessPlan) (confirm : Option String) (h : Live)
      → (run_live world configured plan confirm h).1 ≢ h
      → (confirm ≡ some live_confirmation) × (plan.eligible ≡ true)
  unfolding run_live
  run_live_granted plan confirm h changed = elim (Bool-cases (confirm == some live_confirmation)) [
    | inr differs ↦ absurd (changed (rw (differs, run_live) refl))
    | inl said ↦ elim (Bool-cases plan.eligible) [
      | inr ineligible ↦ absurd (changed (rw (said, ineligible, run_live) refl))
      | inl eligible ↦ ((option_beq_iff confirm (some live_confirmation)).0 said, eligible)
    ]
  ]

  main_granted :
      (mode : Mode) (confirm : Option String) (plan : WitnessPlan) (h : Live)
      → (main world configured mode confirm (ok plan) h).1 ≢ h
      → (mode ≡ live) × (confirm ≡ some live_confirmation) × (plan.eligible ≡ true)
  unfolding main
  main_granted dry_run confirm plan h changed = absurd (changed refl)
  main_granted live confirm plan h changed =
      let (said, eligible) = run_live_granted plan confirm h changed in (refl, said, eligible)

  -- The command does nothing to the device unless it runs in live mode with the exact confirmation of the
  -- owner, on a bundle whose independent verification is valid, and with an eligible plan made from the
  -- evidence of that bundle.
  pub signal_needs_consent :
      (mode : Mode) (confirm : Option String) (verified : Result BundleVerificationResult)
      (evidence : Option EvidenceDocument) (h : Live)
      → (main world configured mode confirm (load_verified_plan verified evidence) h).1 ≢ h
      → (mode ≡ live)
        × (confirm ≡ some live_confirmation)
        × (v : BundleVerificationResult) × (d : EvidenceDocument) × (plan : WitnessPlan) × (verified
            ≡ ok v)
        × (v.valid ≡ true)
        × (evidence ≡ some d)
        × (plan_physical_witness d ≡ some plan)
        × (plan.eligible ≡ true)
  unfolding main
  signal_needs_consent mode confirm verified evidence h changed =
      elim (Result-cases (load_verified_plan verified evidence)) [
        | inr (e, raised) ↦ absurd (changed (rw (raised, main) refl))
        | inl (plan, loaded) ↦
            let (v, d, verified_ok, valid, found, planned) =
              load_verified_sound verified evidence plan loaded in
            let (is_live, said, eligible) =
              main_granted mode confirm plan h
                (subst (λ r. (main world configured mode confirm r h).1 ≢ h) loaded changed) in
            (is_live, said, v, d, plan, verified_ok, valid, found, planned, eligible)
      ]
