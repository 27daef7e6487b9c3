-- ===== src/Verifier/Processes/Owned.antt =====
-- Only processes of the lab are ever signalled.
use fixrepro.Base.{
  ℕ, ◌≡◌, ◌≢◌, ◌⊎◌, inl, inr, refl, true, nat_eq, string_eq, ==→≡, All, arith, Bool-cases, contains,
  List, [], ◌∷◌, ◌++◌,
}
use fixrepro.Core.Errors.{Result, ok, raise, timeout_expired, Result-cases}
use fixrepro.Verifier.Processes.{
  Event, opened, closed, spawned, terminated, killed, Host, OperatingSystem, ServiceProcess,
  Specification, ports, is_process_error, occupied_ports, assert_ports_available, start_service,
  wait_for_health, start_each, close_start, specifications, start_services, stop_services,
}
use fixrepro.Verifier.Processes.Steps.{
  is_spawn, is_signal, is_quiet, concerns, Did, Runs, done, then_do, and_then, wider, Did-stays,
  Did-before,
}
use fixrepro.Verifier.Processes.Stop.{
  pids_of, Stopped, stop-Runs, stop_stops, occupied-Runs, contains-All,
}
use fixrepro.Verifier.Processes.Start.{spares, Tracks, start-Starts, health-Runs}
use fixrepro.Verifier.Processes.Track.{
  start_each-Tracks, Tracks-Runs, Tracks-none, quiet_spawn, quiet_open, concerned_spawn,
}

module _ (os : OperatingSystem) where
  spares_quiet : (e : Event) → is_quiet e ≡ true → spares e ≡ true
  spares_quiet e quiet = ground arith

  spares_signal : (p : ℕ) (e : Event) → spares e ≡ true → is_signal p e ≡ true → ⊥
  spares_signal p e spare test = ground arith

  concerned_signal :
      (pids : List ℕ) (p : ℕ) (e : Event)
      → concerns pids e ≡ true
      → is_signal p e ≡ true
      → contains pids p ≡ true
  concerned_signal pids p (terminated q) c test = ground (arith, ==→≡ p q)
  concerned_signal pids p (killed q) c test = ground (arith, ==→≡ p q)
  concerned_signal pids p e c test = ground arith

  -- Stopping services signals no process but theirs, spawns none, and unless the wait for one times out
  -- twice each of them was waited for and its log closed.
  pub stop_services_sound :
      (services : List ServiceProcess) (h : Host)
      → let h' = (stop_services os services h).1 in
        ((p : ℕ)
          → Did (is_signal p) h'
          → Did (is_signal p) h ⊎ (contains (pids_of services) p ≡ true))
        × ((p : ℕ) → Did (is_spawn p) h' → Did (is_spawn p) h)
        × ((stop_services os services h).0 ≢ raise timeout_expired → All (Stopped os h') services)
  stop_services_sound services h =
      let pids = pids_of services in
      let runs = stop-Runs os services h in
      (
        λ p. Did-before os (is_signal p) (concerned_signal pids p) runs,
        λ p d. elim (Did-before os (is_spawn p) (concerned_spawn os pids p) runs d) [
          | inl b ↦ b
          | inr never ↦ absurd never
        ],
        stop_stops os services h,
      )

  start_service-Runs :
      (spec : Specification) (h : Host) → Runs os spares h (start_service os spec h).1
  start_service-Runs spec h = elim (start-Starts os spec h) [
    | inl (s, _, after) ↦
        rw after (then_do (spawned s.pid) refl (then_do (opened s.log_path) refl done))
    | inr (_, _, inl after) ↦ rw after done
    | inr (_, _, inr (l, after)) ↦ rw after (then_do (closed l) refl (then_do (opened l) refl done))
  ]

  start_each-Runs :
      (specs : List Specification) (services : List ServiceProcess) (h : Host)
      → Runs os spares h (start_each os specs services h).2
  unfolding start_each
  start_each-Runs [] services h = done
  start_each-Runs (spec ∷ rest) services h =
      let first = start_service-Runs spec h in
      elim (Result-cases (start_service os spec h).0) [
        | inr (x, e) ↦ rw (e, start_each) first
        | inl (s, e) ↦
            let h₁ = (start_service os spec h).1 in
            let runs = and_then os first (wider os spares_quiet (health-Runs os s h₁)) in
            elim (Result-cases (wait_for_health os s h₁).0) [
              | inr (x, e') ↦ rw (e, e', start_each) runs
              | inl (u, e') ↦
                  rw (e, e', start_each)
                    (and_then os runs
                      (start_each-Runs rest (services ++ (s ∷ [])) (wait_for_health os s h₁).1))
            ]
      ]

  close_owned :
      (base h : Host) (outcome : Result (Unit {0})) (services : List ServiceProcess) (p : ℕ)
      → Runs os spares base h
      → Tracks os base services h
      → Did (is_signal p) (close_start os outcome services h).1
      → Did (is_signal p) base ⊎ Did (is_spawn p) (close_start os outcome services h).1
  unfolding close_start
  close_owned base h outcome services p runs t =
      let unsignalled : Did (is_signal p) h → Did (is_signal p) base = λ d.
        elim (Did-before os (is_signal p) (spares_signal p) runs d) [
          | inl b ↦ b
          | inr never ↦ absurd never
        ] in
      by_outcome outcome unsignalled
    where
      by_outcome :
          (o : Result (Unit {0}))
          → (Did (is_signal p) h → Did (is_signal p) base)
          → Did (is_signal p) (close_start os o services h).1
          → Did (is_signal p) base ⊎ Did (is_spawn p) (close_start os o services h).1
      by_outcome (ok u) unsignalled d = inl (unsignalled d)
      by_outcome (raise x) unsignalled d = elim (Bool-cases (is_process_error x)) [
        | inr e ↦ inl (unsignalled (ground arith))
        | inl e ↦
            let h' = (stop_services os services h).1 in
            let signalled : Did (is_signal p) h' = ground arith in
            rw (e, close_start)
              (elim ((stop_services_sound services h).0 p signalled) [
                | inl b ↦ inl (unsignalled b)
                | inr known ↦ inr (
                    Did-stays os (is_spawn p) (stop-Runs os services h) (
                      contains-All (λ s. s.pid) (λ q. Did (is_spawn q) h) services p t.owned known))
              ])
      ]

  -- However starting the services ends, it signals only processes that were spawned by it or before.
  pub start_signals_own :
      (h : Host) (p : ℕ)
      → Did (is_signal p) (start_services os h).1
      → Did (is_signal p) h ⊎ Did (is_spawn p) (start_services os h).1
  unfolding start_services assert_ports_available
  start_signals_own h p signalled =
      let probed_host = (occupied_ports os ports h).1 in
      let probing = occupied-Runs os ports h in
      let t = Tracks-Runs os h [] (quiet_spawn os) (quiet_open os) probing (Tracks-none os h) in
      elim (Result-cases (assert_ports_available os h).0) [
        | inr (x, e) ↦
            let before : Did (is_signal p) probed_host = ground arith in
            elim (Did-before os (is_signal p) (spares_signal p) (wider os spares_quiet probing)
              before) [ inl b ↦ inl b | inr never ↦ absurd never ]
        | inl (u, e) ↦
            rw (e, start_services)
              (let (outcome, services, h'') = start_each os specifications [] probed_host in
                close_owned h h'' outcome services p
                  (and_then os (wider os spares_quiet probing)
                    (start_each-Runs specifications [] probed_host))
                  (start_each-Tracks os h specifications [] probed_host t) (ground arith))
      ]
