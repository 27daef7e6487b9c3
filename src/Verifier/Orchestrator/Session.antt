-- ===== src/Verifier/Orchestrator/Session.antt =====
-- verifier/orchestrator.py: `run` around the services, which are stopped however the scenarios end.
use fixrepro.Base.{
  ◌≡◌, ◌≢◌, inl, inr, refl, subst, String, List, [], if◌then◌else◌, arith, Bool-cases,
}
use fixrepro.Core.Errors.{
  PyError, Result, ok, raise, process_error, verification_error, timeout_expired,
}
use fixrepro.Verifier.Processes.{
  Host, OperatingSystem, ServiceProcess, is_empty, start_services, stop_services,
}
use fixrepro.Verifier.Processes.Steps.{is_quiet, Runs}
use fixrepro.Verifier.Processes.Start.{Tracks}
use fixrepro.Verifier.Processes.Track.{Tracks-Runs, quiet_spawn, quiet_open}
use fixrepro.Verifier.Processes.Clean.{
  Cleaned, Tracks-Cleaned, start_ok-Tracks, start_failure_clean, session_clean,
}

-- `except ProcessError as exc: raise VerificationError(str(exc)) from exc`
unfoldable pub as_verification : PyError → PyError
as_verification (process_error message) = verification_error message
as_verification e = e

unfoldable pub as_verified {ℓ} : {A : Type ℓ} → Result A → Result A
unfolding as_verification
as_verified (ok a) = ok a
as_verified (raise e) = raise (as_verification e)

module _ (os : OperatingSystem) {A : Type 0}
    (body : List ServiceProcess → Host → Result A × Host) where
  -- `finally`: an exception of stopping takes the place of the outcome.
  unfoldable pub stop_finally : List ServiceProcess → Result A → Host → Result A × Host
  unfolding as_verified
  stop_finally services outcome h =
      if is_empty services
      then (as_verified outcome, h)
      else (let (stopped, h') = stop_services os services h in
          (elim stopped [ raise e ↦ raise (as_verification e) | ok _ ↦ as_verified outcome ], h'))

  -- The services, and `body` while they run: the scenarios, with a look at the services before each.
  unfoldable pub run_with_services : Host → Result A × Host
  unfolding stop_finally
  run_with_services h =
      let (started, h₁) = start_services os h in
      elim started [
        | raise e ↦ (raise (as_verification e), h₁)
        | ok services ↦ let (outcome, h₂) = body services h₁ in stop_finally services outcome h₂
      ]

  abbrev IsQuietBody : Type 0
  IsQuietBody = (services : List ServiceProcess) (h : Host) → Runs os is_quiet h (body services h).1

  stop_finally-Cleaned :
      (h h₂ : Host) (services : List ServiceProcess) (outcome : Result A)
      → (start_services os h).0 ≡ ok services
      → Runs os is_quiet (start_services os h).1 h₂
      → (stop_finally services outcome h₂).0 ≢ raise timeout_expired
      → Cleaned os h (stop_finally services outcome h₂).1
  unfolding stop_finally as_verification
  stop_finally-Cleaned h h₂ services outcome started between ended =
      elim (Bool-cases (is_empty services)) [
        | inl empty ↦
            let none_left : services ≡ [] = ground arith in
            let tracked = start_ok-Tracks os h services started in
            rw (empty, stop_finally)
              (Tracks-Cleaned os h h₂ (
                Tracks-Runs os h [] (quiet_spawn os) (quiet_open os) between
                  (subst (λ s. Tracks os h s (start_services os h).1) none_left tracked)))
        | inr some_left ↦
            let stops : (stop_services os services h₂).0 ≢ raise timeout_expired =
              λ expired. ended (rw (some_left, expired, stop_finally) refl) in
            rw (some_left, stop_finally) (session_clean os h h₂ services started between stops)
      ]

  -- The services are stopped however the scenarios end. If they were started and the run does not end with
  -- a TimeoutExpired, then whatever the scenarios return or raise, every process that was spawned was waited
  -- for and every log that was opened was closed. If starting them fails with a ProcessError, the run ends
  -- with a VerificationError of the same message, no scenario is run, and the same holds.
  pub services_always_stopped :
      IsQuietBody
      → (h : Host)
      → ((services : List ServiceProcess)
          → (start_services os h).0 ≡ ok services
          → (run_with_services h).0 ≢ raise timeout_expired
          → Cleaned os h (run_with_services h).1)
        × ((message : String)
            → (start_services os h).0 ≡ raise (process_error message)
            → ((run_with_services h).0 ≡ raise (verification_error message))
              × ((run_with_services h).1 ≡ (start_services os h).1)
              × Cleaned os h (run_with_services h).1)
  unfolding run_with_services as_verification
  services_always_stopped quiet h = (
    λ services started.
        rw (started, run_with_services)
          (λ ended.
            let h₁ = (start_services os h).1 in
            let (outcome, h₂) = body services h₁ in
            stop_finally-Cleaned h h₂ services outcome started (quiet services h₁) ended),
    λ message failed.
        rw (failed, run_with_services) (refl, refl, start_failure_clean os h message failed),
  )
