-- ===== src/Tests/Scripts.antt =====
-- Three runs in a row, and what the commands answer otherwise.
use fixrepro.Base.{ℕ, ◌+◌, ◌<◌, ◌≡◌, ◌↔◌, refl, true, false, none, some, []}
use fixrepro.Core.Errors.{Result, ok, raise, value_error}
use fixrepro.Verifier.Models.{VerificationOutcome, patch_verified, patch_not_verified}
use fixrepro.Verifier.BundleVerifier.Verify.{result_of}
use fixrepro.Scripts.{
  Arguments, arguments_allowed, outcome_exit_code, run_repeatedly, run_verification_main,
  exit_zero_iff, verify_bundle_main, validate_host,
}

abbrev thrice : Arguments
thrice = record { repeat = 3; output_dir = none; replace = false }

abbrev always : ℕ → Result VerificationOutcome
always _ = ok patch_verified

exit_zero_iff_example :
    (run_verification_main always thrice ≡ ok 0)
    ↔ ((arguments_allowed thrice ≡ true) × ((k : ℕ) → k < 3 → always (1 + k) ≡ ok patch_verified))
exit_zero_iff_example = exit_zero_iff always thrice

three_runs : run_verification_main always thrice ≡ ok 0
unfolding run_verification_main arguments_allowed run_repeatedly
three_runs = refl

-- The same exit code for a patch that is not verified and for arguments that are refused.
not_verified : run_verification_main (λ _. ok patch_not_verified) thrice ≡ ok 2
unfolding run_verification_main arguments_allowed run_repeatedly outcome_exit_code
not_verified = refl

refused_arguments :
    run_verification_main always (record thrice { output_dir = some "evidence/demo-bundle" }) ≡ ok 2
unfolding run_verification_main arguments_allowed
refused_arguments = refl

no_outcome : verify_bundle_main (result_of [] none none 0) ≡ none
unfolding verify_bundle_main
no_outcome = refl

any_host_refused : validate_host "0.0.0.0" false ≡ raise (value_error "host must be 127.0.0.1")
unfolding validate_host
any_host_refused = refl
