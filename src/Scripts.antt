-- ===== src/Scripts.antt =====
-- scripts/run_verification.py, scripts/verify_bundle.py and scripts/run_dashboard.py: the exit codes and the
-- checks of the arguments. What the printed lines say is left out.
use fixrepro.Base.{
  ℕ, zero, suc, ◌+◌, ◌<◌, ◌≡◌, ◌↔◌, inl, inr, refl, sym, ap, ◌∙◌, String, Bool, true, false, not,
  ◌&&◌, leb, ◌==◌, nat_eq, string_eq, Option, none, some, is_none, if◌then◌else◌, Bool-cases, arith,
}
use fixrepro.Core.Errors.{
  PyError, package_validation, bundle_error, verification_error, os_error, value_error, Result, ok,
  raise, Result-cases, ok-injective,
}
use fixrepro.Verifier.Models.{
  VerificationOutcome, patch_verified, patch_not_verified, outcome_eq, outcome_beq_iff,
}
use fixrepro.Verifier.BundleVerifier.Verify.{BundleVerificationResult}

unfoldable pub outcome_exit_code : VerificationOutcome → ℕ
outcome_exit_code patch_verified = 0
outcome_exit_code patch_not_verified = 2
outcome_exit_code VerificationOutcome.inconclusive = 3

-- `except (BundleError, VerificationError, OSError, ValueError)`; PackageValidationError is a ValueError.
abbrev pub is_reported : PyError → Bool
is_reported (bundle_error _) = true
is_reported (verification_error _) = true
is_reported (os_error _) = true
is_reported (value_error _) = true
is_reported (package_validation _ _) = true
is_reported e = false

-- The arguments after parsing; `argparse` exits with 2 on the ones that it refuses.
pub record Arguments : Type 0 where
  pub repeat : ℕ
  pub output_dir : Option String
  pub replace : Bool

unfoldable pub arguments_allowed : Arguments → Bool
arguments_allowed args =
    leb 1 args.repeat
    && not (not (args.repeat == 1) && not (is_none args.output_dir))
    && not (args.replace && is_none args.output_dir)

-- What `orchestrator.run` gives in the run of each number.
module _ (run : ℕ → Result VerificationOutcome) where
  -- The loop, from run `index` on.
  unfoldable pub run_repeatedly : (left index : ℕ) → Result ℕ
  unfolding outcome_exit_code
  run_repeatedly zero index = ok 0
  run_repeatedly (suc left) index =
      let rest = run_repeatedly left (suc index) in
      elim (run index) [
        | raise e ↦ if is_reported e then ok 1 else raise e
        | ok outcome ↦
            if not (outcome == patch_verified) then ok (outcome_exit_code outcome) else rest
      ]

  -- `main` of run_verification.py
  unfoldable pub run_verification_main : Arguments → Result ℕ
  unfolding run_repeatedly arguments_allowed
  run_verification_main args =
      if not (arguments_allowed args) then ok 2 else run_repeatedly args.repeat 1

  exit_code_zero :
      (outcome : VerificationOutcome) → outcome_exit_code outcome ≡ 0 → outcome ≡ patch_verified
  unfolding outcome_exit_code
  exit_code_zero outcome h = ground arith

  abbrev AllVerified : (left index : ℕ) → Type 0
  AllVerified left index = (k : ℕ) → k < left → run (index + k) ≡ ok patch_verified

  first_verified : (left index : ℕ) → AllVerified (suc left) index → run index ≡ ok patch_verified
  first_verified left index verified =
      let same : index ≡ index + 0 = omega arith in ap run same ∙ verified 0 (omega arith)

  rest_verified : (left index : ℕ) → AllVerified (suc left) index → AllVerified left (suc index)
  rest_verified left index verified k lt =
      let same : suc index + k ≡ index + suc k = omega arith in
      ap run same ∙ verified (suc k) (omega arith)

  one_more_verified :
      (left index : ℕ)
      → run index ≡ ok patch_verified
      → AllVerified left (suc index)
      → AllVerified (suc left) index
  one_more_verified left index first rest zero lt =
      let same : index + 0 ≡ index = omega arith in ap run same ∙ first
  one_more_verified left index first rest (suc k) lt =
      let same : index + suc k ≡ suc index + k = omega arith in ap run same ∙ rest k (omega arith)

  repeatedly_zero_iff :
      (left index : ℕ) → (run_repeatedly left index ≡ ok 0) ↔ AllVerified left index
  unfolding run_repeatedly
  repeatedly_zero_iff zero index = (λ _ k lt. absurd (omega arith), λ _. refl)
  repeatedly_zero_iff (suc left) index = elim (Result-cases (run index)) [
    | inr (e, raised) ↦
        rw (raised, run_repeatedly)
          (
            λ h. absurd (ground arith),
            λ verified. let first = first_verified left index verified in absurd (ground arith),
          )
    | inl (outcome, gave) ↦ elim (Bool-cases (outcome == patch_verified)) [
      | inr other ↦
          rw (gave, other, run_repeatedly)
            (
              λ h.
                  let same = exit_code_zero outcome (ok-injective h) in
                  absurd (ground (arith, outcome_beq_iff outcome patch_verified)),
              λ verified.
                  let same : outcome ≡ patch_verified =
                    ok-injective (sym gave ∙ first_verified left index verified) in
                  absurd (ground (arith, outcome_beq_iff outcome patch_verified)),
            )
      | inl is ↦
          let first = gave ∙ ap (λ o. ok o) ((outcome_beq_iff outcome patch_verified).0 is) in
          rw (gave, is, run_repeatedly)
            (
              λ h. one_more_verified left index first ((repeatedly_zero_iff left (suc index)).0 h),
              λ verified.
                  (repeatedly_zero_iff left (suc index)).1 (rest_verified left index verified),
            )
    ]
  ]

  -- The command exits with 0 exactly if its arguments are allowed and every run that is asked for, from the
  -- first on, ends with PATCH_VERIFIED.
  pub exit_zero_iff :
      (args : Arguments)
      → (run_verification_main args ≡ ok 0) ↔ (
          (arguments_allowed args ≡ true)
          × ((k : ℕ) → k < args.repeat → run (1 + k) ≡ ok patch_verified))
  unfolding run_verification_main
  exit_zero_iff args = elim (Bool-cases (arguments_allowed args)) [
    | inr refused ↦
        rw (refused, run_verification_main)
          (λ h. absurd (ground arith), λ (allowed, _). absurd (ground arith))
    | inl allowed ↦
        rw (allowed, run_verification_main)
          (
            λ h. (refl, (repeatedly_zero_iff args.repeat 1).0 h),
            λ (_, verified). (repeatedly_zero_iff args.repeat 1).1 verified,
          )
  ]

-- `main` of verify_bundle.py; none is the `AttributeError` of a valid result without an outcome.
unfoldable pub verify_bundle_main : BundleVerificationResult → Option ℕ
verify_bundle_main result =
    if not result.valid
    then some 1
    else elim result.verification_outcome [ none ↦ none | some outcome ↦ some 0 ]

-- `validate_host`
unfoldable pub validate_host : String → Bool → Result String
validate_host host container_mode =
    if host == "127.0.0.1"
    then ok host
    else if host == "0.0.0.0" && container_mode
    then ok host
    else raise (value_error "host must be 127.0.0.1")

-- `valid_port`, after `int`.
unfoldable pub valid_port : ℕ → Bool
valid_port port = leb 1 port && leb port 65535
