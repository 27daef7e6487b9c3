-- ===== src/Verifier/Processes/Clean.antt =====
-- A failed start, and a session, leave nothing behind.
use fixrepro.Base.{
  ℕ, ◌≡◌, ◌≢◌, ◌⊎◌, inl, inr, subst, String, nat_eq, string_eq, arith, Bool-cases, List, [],
}
use fixrepro.Core.Errors.{PyError, Result, ok, raise, process_error, timeout_expired, Result-cases}
use fixrepro.Verifier.Processes.{
  Host, OperatingSystem, ServiceProcess, ports, is_process_error, occupied_ports,
  assert_ports_available, start_each, close_start, specifications, start_services, stop_services,
}
use fixrepro.Verifier.Processes.Steps.{is_spawn, is_wait, is_open, is_close, is_quiet, Did, Runs}
use fixrepro.Verifier.Processes.Stop.{
  pids_of, Stopped, stop-Runs, stop_stops, occupied-Runs, contains-All, All-map,
}
use fixrepro.Verifier.Processes.Start.{Tracks}
use fixrepro.Verifier.Processes.Track.{
  Tracks-Runs, Tracks-none, start_each-Tracks, quiet_spawn, quiet_open, concerned_spawn,
  concerned_open,
}

module _ (os : OperatingSystem) where
  -- What was spawned since `base` was waited for, and what was opened was closed.
  abbrev pub Cleaned : Host → Host → Type 0
  Cleaned base h =
      ((p : ℕ) → Did (is_spawn p) h → Did (is_spawn p) base ⊎ Did (is_wait p) h)
      × ((l : String) → Did (is_open l) h → Did (is_open l) base ⊎ Did (is_close l) h)

  stopped-Cleaned :
      (base h : Host) (services : List ServiceProcess)
      → Tracks os base services h
      → (stop_services os services h).0 ≢ raise timeout_expired
      → Cleaned base (stop_services os services h).1
  stopped-Cleaned base h services t ended =
      let h' = (stop_services os services h).1 in
      let pids = pids_of services in
      let after =
        Tracks-Runs os base services (concerned_spawn os pids) (concerned_open os pids)
          (stop-Runs os services h) t in
      let stopped = stop_stops os services h ended in
      (
        λ p d. elim (after.pids p d) [
          | inl b ↦ inl b
          | inr known ↦ inr (
              contains-All (λ s. s.pid) (λ q. Did (is_wait q) h') services p
                (All-map (Stopped os h') (λ s. Did (is_wait s.pid) h') services (λ s x. x.0)
                  stopped)
                known)
        ],
        λ l d. elim (after.logs l d) [
          | inl b ↦ inl b
          | inr (inl c) ↦ inr c
          | inr (inr known) ↦ inr (
              contains-All (λ s. s.log_path) (λ k. Did (is_close k) h') services l
                (All-map (Stopped os h') (λ s. Did (is_close s.log_path) h') services (λ s x. x.1)
                  stopped)
                known)
        ],
      )

  close-Cleaned :
      (base h : Host) (outcome : Result (Unit {0})) (services : List ServiceProcess)
      (message : String)
      → Tracks os base services h
      → (close_start os outcome services h).0 ≡ raise (process_error message)
      → Cleaned base (close_start os outcome services h).1
  unfolding close_start
  close-Cleaned base h (ok u) services message t failed = absurd (ground arith)
  close-Cleaned base h (raise x) services message t failed =
      elim (Bool-cases (is_process_error x)) [
        | inr e ↦ absurd (ground arith)
        | inl e ↦
            let ended : (stop_services os services h).0 ≢ raise timeout_expired =
              λ expired. ground arith in
            rw (e, close_start) (stopped-Cleaned base h services t ended)
      ]

  pub Tracks-Cleaned : (h h' : Host) → Tracks os h [] h' → Cleaned h h'
  Tracks-Cleaned h h' t = (
    λ p d. elim (t.pids p d) [ inl b ↦ inl b | inr known ↦ absurd (ground arith) ],
    λ l d. elim (t.logs l d) [
      | inl b ↦ inl b
      | inr (inl c) ↦ inr c
      | inr (inr known) ↦ absurd (ground arith)
    ],
  )

  -- If starting the services fails with a ProcessError, nothing is left behind: every process that was
  -- spawned since was waited for, and every log that was opened was closed.
  pub start_failure_clean :
      (h : Host) (message : String)
      → (start_services os h).0 ≡ raise (process_error message)
      → Cleaned h (start_services os h).1
  unfolding start_services assert_ports_available
  start_failure_clean h message failed =
      let probed_host = (occupied_ports os ports h).1 in
      let probing =
        Tracks-Runs os h [] (quiet_spawn os) (quiet_open os) (occupied-Runs os ports h)
          (Tracks-none os h) in
      elim (Result-cases (assert_ports_available os h).0) [
        | inr (x, e) ↦ rw (e, start_services) (Tracks-Cleaned h probed_host probing)
        | inl (u, e) ↦
            rw (e, start_services)
              (let (outcome, services, h'') = start_each os specifications [] probed_host in
                close-Cleaned h h'' outcome services message
                  (start_each-Tracks os h specifications [] probed_host probing) (ground arith))
      ]

  pub start_ok-Tracks :
      (h : Host) (services : List ServiceProcess)
      → (start_services os h).0 ≡ ok services
      → Tracks os h services (start_services os h).1
  unfolding start_services assert_ports_available close_start
  start_ok-Tracks h services started =
      let probed_host = (occupied_ports os ports h).1 in
      let probing =
        Tracks-Runs os h [] (quiet_spawn os) (quiet_open os) (occupied-Runs os ports h)
          (Tracks-none os h) in
      let tracked = start_each-Tracks os h specifications [] probed_host probing in
      elim (Result-cases (assert_ports_available os h).0) [
        | inr (x, e) ↦ absurd (ground arith)
        | inl (u, e) ↦ elim (Result-cases (start_each os specifications [] probed_host).0) [
          | inl (_, e') ↦
              let same : (start_each os specifications [] probed_host).1 ≡ services =
                ground arith in
              rw (e, e', start_services, close_start)
                (subst (λ x. Tracks os h x (start_each os specifications [] probed_host).2) same
                  tracked)
          | inr (x, e') ↦ elim (Bool-cases (is_process_error x)) [
            | inr other ↦ absurd (ground arith)
            | inl caught ↦ absurd (
                not_ok x (start_each os specifications [] probed_host).1
                  (start_each os specifications [] probed_host).2 services (ground arith))
          ]
        ]
      ]
    where
      not_ok :
          (x : PyError) (started : List ServiceProcess) (h' : Host) (services : List ServiceProcess)
          → (close_start os (raise x) started h').0 ≡ ok services
          → ⊥
      not_ok x started h' services r = ground arith

  -- A session leaves nothing behind: when services that were started are stopped, with any look at them
  -- in between, and no wait times out twice, every process that was spawned since the start was waited for
  -- and every log that was opened was closed.
  pub session_clean :
      (h h' : Host) (services : List ServiceProcess)
      → (start_services os h).0 ≡ ok services
      → Runs os is_quiet (start_services os h).1 h'
      → (stop_services os services h').0 ≢ raise timeout_expired
      → Cleaned h (stop_services os services h').1
  session_clean h h' services started between ended =
      stopped-Cleaned h h' services
        (Tracks-Runs os h services (quiet_spawn os) (quiet_open os) between
          (start_ok-Tracks h services started))
        ended
