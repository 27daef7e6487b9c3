-- ===== src/Verifier/Processes/Start.antt =====
-- What `start_services` does to processes and logs.
use fixrepro.Base.{
  ℕ, ◌+◌, zero, suc, ◌≡◌, ◌⊎◌, inl, inr, refl, String, Bool, true, false, nat_eq, string_eq, All,
  Bool-cases, Option-cases, ltb, contains, Option, none, some, List, map,
}
use Prim.Native.String.{◌++◌ as concat}
use fixrepro.Core.Errors.{PyError, Result, ok, raise, process_error, recursion_error}
use fixrepro.Verifier.Processes.{
  Event, opened, closed, spawned, polled, requested, terminated, killed, slept, Host,
  OperatingSystem, ServiceProcess, Specification, Health, healthy, wrong_build, not_yet, too_deep,
  act, start_service, check_health, health_round, health_loop, health_timeout, wait_for_health,
}
use fixrepro.Verifier.Processes.Steps.{
  is_spawn, is_open, is_close, is_quiet, Did, Runs, done, then_do, and_then,
}
use fixrepro.Verifier.Processes.Stop.{pids_of}

-- No process is signalled.
abbrev pub spares : Event → Bool
spares (terminated _) = false
spares (killed _) = false
spares _ = true

abbrev pub logs_of : List ServiceProcess → List String
logs_of services = map (λ s. s.log_path) services

module _ (os : OperatingSystem) where
  round-Runs : (s : ServiceProcess) (h : Host) → Runs os is_quiet h (health_round os s h).1
  unfolding health_round
  round-Runs s h =
      let asking = act os (polled s.pid) h in
      elim (Bool-cases (os.has_exited h.events s.pid)) [
        | inl e ↦ rw (e, health_round) (then_do (polled s.pid) refl done)
        | inr e ↦
            rw (e, health_round)
              (by_health (check_health s.expected_build_id (os.get_health asking.events s.port)))
      ]
    where
      by_health :
          (c : Health)
          → Runs os is_quiet h
              (elim c as (λ _. Option (Result (Unit {0})) × Host) [
                | healthy ↦ (some (ok tt), act os (requested s.port) (act os (polled s.pid) h))
                | wrong_build ↦ (
                  some (raise (process_error "exposed an unexpected build identifier")),
                  act os (requested s.port) (act os (polled s.pid) h),
                )
                | too_deep ↦ (
                  some (raise recursion_error),
                  act os (requested s.port) (act os (polled s.pid) h),
                )
                | not_yet ↦
                    (none, act os (slept 150) (act os (requested s.port) (act os (polled s.pid) h)))
              ]).1
      by_health healthy = then_do (requested s.port) refl (then_do (polled s.pid) refl done)
      by_health wrong_build = then_do (requested s.port) refl (then_do (polled s.pid) refl done)
      by_health too_deep = then_do (requested s.port) refl (then_do (polled s.pid) refl done)
      by_health not_yet =
          then_do (slept 150) refl
            (then_do (requested s.port) refl (then_do (polled s.pid) refl done))

  loop-Runs :
      (fuel : ℕ) (s : ServiceProcess) (deadline : ℕ) (h : Host)
      → Runs os is_quiet h (health_loop os fuel s deadline h).1
  unfolding health_loop
  loop-Runs zero s deadline h = done
  loop-Runs (suc fuel) s deadline h = elim (Bool-cases (ltb h.time deadline)) [
    | inr e ↦ rw (e, health_loop) done
    | inl e ↦ elim (Option-cases (health_round os s h).0) [
      | inr (r, e') ↦ rw (e, e', health_loop) (round-Runs s h)
      | inl e' ↦
          rw (e, e', health_loop)
            (and_then os (round-Runs s h) (loop-Runs fuel s deadline (health_round os s h).1))
    ]
  ]

  pub health-Runs : (s : ServiceProcess) (h : Host) → Runs os is_quiet h (wait_for_health os s h).1
  unfolding wait_for_health
  health-Runs s h = loop-Runs 100 s (h.time + health_timeout) h

  abbrev pub Starts : Specification → Host → Result ServiceProcess × Host → Type 0
  Starts spec h x =
      ((s : ServiceProcess) × (x.0 ≡ ok s)
        × (x.1 ≡ act os (spawned s.pid) (act os (opened s.log_path) h)))
      ⊎ ((e : PyError) × (x.0 ≡ raise e)
          × ((x.1 ≡ h) ⊎ ((l : String) × (x.1 ≡ act os (closed l) (act os (opened l) h)))))

  pub start-Starts : (spec : Specification) (h : Host) → Starts spec h (start_service os spec h)
  unfolding start_service
  start-Starts spec h =
      let log_path = concat (concat "phase3-" spec.name) ".log" in
      elim (Bool-cases (os.opens_log h.events log_path)) [
        | inr e ↦ rw (e, start_service) (inr (_, refl, inl refl))
        | inl e ↦
            elim (Option-cases (os.spawns (act os (opened log_path) h).events spec.module_name)) [
              | inl e' ↦ rw (e, e', start_service) (inr (_, refl, inr (log_path, refl)))
              | inr (pid, e') ↦ rw (e, e', start_service) (inl (_, refl, refl))
            ]
      ]

  -- Since `base`, what was spawned is one of the services, a log that was opened is closed or of one of
  -- the services, and the services were spawned.
  pub record Tracks (base : Host) (services : List ServiceProcess) (h : Host) : Type 0 where
    pub pids :
        (p : ℕ)
        → Did (is_spawn p) h
        → Did (is_spawn p) base ⊎ (contains (pids_of services) p ≡ true)
    pub logs :
        (l : String)
        → Did (is_open l) h
        → Did (is_open l) base ⊎ (Did (is_close l) h ⊎ (contains (logs_of services) l ≡ true))
    pub owned : All (λ s. Did (is_spawn s.pid) h) services
