-- ===== src/Verifier/Processes/Deadline.antt =====
-- The two waiting loops end by their deadlines.
use fixrepro.Base.{
  ℕ, zero, suc, ◌+◌, ◌*◌, ◌≤◌, ◌≡◌, inl, inr, refl, ap, Bool, true, ◌||◌, ltb, leb, arith,
  Bool-cases, Option-cases, none, if◌then◌else◌,
}
use fixrepro.Core.Errors.{raise, process_error}
use fixrepro.Verifier.Processes.{
  Event, slept, Host, OperatingSystem, ServiceProcess, act, ports, is_empty, occupied_ports,
  ports_loop, wait_for_ports_closed, health_round, health_loop, wait_for_health, health_timeout,
  port_close_timeout,
}
use fixrepro.Verifier.Processes.Steps.{Runs, done, then_do}
use fixrepro.Verifier.Processes.Stop.{occupied-Runs}

module _ (os : OperatingSystem) where
  -- The clock does not go back.
  time_grows : {allowed : Event → Bool} {h h' : Host} → Runs os allowed h h' → h.time ≤ h'.time
  unfolding act
  time_grows done = omega arith
  time_grows (then_do {h' = h''} e allows more) = omega (arith, time_grows more)

  -- A round that does not decide lasts 150 ms at least.
  round_lasts :
      (s : ServiceProcess) (h : Host)
      → (health_round os s h).0 ≡ none
      → h.time + 150 ≤ (health_round os s h).1.time
  unfolding health_round act
  round_lasts s h undecided = ground arith

  health_fuel :
      (fuel enough : ℕ) (s : ServiceProcess) (deadline : ℕ) (h : Host)
      → fuel ≤ enough
      → deadline ≤ h.time + 150 * fuel
      → health_loop os enough s deadline h ≡ health_loop os fuel s deadline h
  unfolding health_loop
  health_fuel zero zero s deadline h le late = refl
  health_fuel zero (suc enough) s deadline h le late = ground arith
  health_fuel (suc fuel) zero s deadline h le late = absurd (omega arith)
  health_fuel (suc fuel) (suc enough) s deadline h le late =
      elim (Option-cases (health_round os s h).0) [
        | inr (r, e) ↦ rw (e, health_loop) refl
        | inl e ↦
            rw (e, health_loop)
              (ap
                (λ x.
                  if ltb h.time deadline
                  then x
                  else (raise (process_error "Did not become healthy"), h))
                (health_fuel fuel enough s deadline (health_round os s h).1 (omega arith)
                  (omega (arith, round_lasts s h e))))
      ]

  sleeping :
      (fuel deadline : ℕ) (h h' : Host)
      → deadline ≤ h.time + 100 * suc fuel
      → h.time ≤ h'.time
      → deadline ≤ (act os (slept 100) h').time + 100 * fuel
  unfolding act
  sleeping fuel deadline h h' late grown = omega arith

  ports_fuel :
      (fuel enough deadline : ℕ) (h : Host)
      → fuel ≤ enough
      → deadline ≤ h.time + 100 * fuel
      → ports_loop os enough deadline h ≡ ports_loop os fuel deadline h
  unfolding ports_loop
  ports_fuel zero zero deadline h le late = refl
  ports_fuel zero (suc enough) deadline h le late =
      let grown = time_grows (occupied-Runs os ports h) in
      let (occupied, h') = occupied_ports os ports h in
      let over : (is_empty occupied || leb deadline h'.time) ≡ true = ground arith in
      rw (over, ports_loop) refl
  ports_fuel (suc fuel) zero deadline h le late = absurd (omega arith)
  ports_fuel (suc fuel) (suc enough) deadline h le late =
      let (occupied, h') = occupied_ports os ports h in
      elim (Bool-cases (is_empty occupied || leb deadline h'.time)) [
        | inl e ↦ rw (e, ports_loop) refl
        | inr e ↦
            rw (e, ports_loop)
              (ports_fuel fuel enough deadline (act os (slept 100) h') (omega arith)
                (sleeping fuel deadline h h' late (time_grows (occupied-Runs os ports h))))
      ]

  -- Both waits end by their deadlines: more fuel than the loops have changes neither the answer nor what
  -- is done.
  pub waits_end :
      (s : ServiceProcess) (h : Host) (fuel : ℕ)
      → 100 ≤ fuel
      → (health_loop os fuel s (h.time + health_timeout) h ≡ wait_for_health os s h)
        × (ports_loop os fuel (h.time + port_close_timeout) h ≡ wait_for_ports_closed os h)
  unfolding wait_for_health wait_for_ports_closed
  waits_end s h fuel enough = (
    health_fuel 100 fuel s (h.time + health_timeout) h enough (omega arith),
    ports_fuel 50 fuel (h.time + port_close_timeout) h (omega arith) (omega arith),
  )
