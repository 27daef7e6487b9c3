-- ===== src/Verifier/Processes/Stop.antt =====
-- What `stop_services` does to processes and logs.
use fixrepro.Base.{
  ℕ, zero, suc, ◌≡◌, ◌≢◌, ◌⊎◌, inl, inr, refl, sym, subst, Bool, true, ◌||◌, ◌==◌, nat_eq,
  string_eq, ==_refl, ==→≡, PyEq, All, ◌+◌, arith, Bool-cases, leb, contains, List, [], ◌∷◌, ◌++◌,
  map,
}
use fixrepro.Core.Errors.{Result, ok, raise, timeout_expired, Result-cases}
use fixrepro.Verifier.Processes.{
  Event, probed, closed, polled, terminated, waited, timed_out, killed, slept, Host,
  OperatingSystem, ServiceProcess, act, ports, port_close_timeout, is_empty, reversed,
  occupied_ports, ports_loop, wait_for_ports_closed, check_ports_closed, terminate_each, wait_one,
  wait_each, stop_services,
}
use fixrepro.Verifier.Processes.Steps.{
  is_wait, is_close, is_quiet, concerns, quiet-concerns, Did, Runs, done, then_do, and_then, wider,
  Did-stays,
}

abbrev pub pids_of : List ServiceProcess → List ℕ
pids_of services = map (λ s. s.pid) services

module _ {ℓ κ} {A : Type ℓ} (P : A → Type κ) where
  pub All-snoc : (xs : List A) (x : A) → All P xs → P x → All P (xs ++ (x ∷ []))
  All-snoc [] x a p = (p, tt)
  All-snoc (y ∷ ys) x (q, a) p = (q, All-snoc ys x a p)

  All-init : (xs : List A) (x : A) → All P (xs ++ (x ∷ [])) → All P xs × P x
  All-init [] x (p, a) = (tt, p)
  All-init (y ∷ ys) x (q, a) = let (b, p) = All-init ys x a in ((q, b), p)

  pub All-reversed : (xs : List A) → All P xs → All P (reversed xs)
  unfolding reversed
  All-reversed [] a = tt
  All-reversed (x ∷ xs) (p, a) = All-snoc (reversed xs) x (All-reversed xs a) p

  pub reversed-All : (xs : List A) → All P (reversed xs) → All P xs
  unfolding reversed
  reversed-All [] a = tt
  reversed-All (x ∷ xs) a = let (b, p) = All-init (reversed xs) x a in (p, reversed-All xs b)

  pub All-map {μ} : (Q : A → Type μ) (xs : List A) → ((x : A) → P x → Q x) → All P xs → All Q xs
  All-map Q [] f a = tt
  All-map Q (x ∷ xs) f (p, a) = (f x p, All-map Q xs f a)

-- Each process is one of its list's.
abbrev pub Known : List ℕ → ServiceProcess → Type 0
Known pids s = contains pids s.pid ≡ true

All-Known : (services : List ServiceProcess) → All (Known (pids_of services)) services
All-Known [] = tt
All-Known (s ∷ rest) = (
  ground (arith, ==_refl s.pid),
  All-map (Known (pids_of rest)) (Known (s.pid ∷ pids_of rest)) rest (λ x known. ground arith)
      (All-Known rest),
)

-- What holds of all services holds of the one with a given key.
pub contains-All {ℓ κ} :
    {A : Type ℓ} ⦃e : PyEq A⦄ (key : ServiceProcess → A) (P : A → Type κ)
    (services : List ServiceProcess) (x : A)
    → All (λ s. P (key s)) services
    → contains (map key services) x ≡ true
    → P x
contains-All key P [] x a h = absurd (ground arith)
contains-All key P (s ∷ rest) x (p, a) h = elim (Bool-cases (x == key s)) [
  | inl e ↦ subst P (sym (==→≡ x (key s) e)) p
  | inr e ↦ contains-All key P rest x a (ground arith)
]

module _ (os : OperatingSystem) where
  pub occupied-Runs : (ps : List ℕ) (h : Host) → Runs os is_quiet h (occupied_ports os ps h).1
  unfolding occupied_ports
  occupied-Runs [] h = done
  occupied-Runs (p ∷ ps) h =
      and_then os (then_do (probed p) refl done) (occupied-Runs ps (act os (probed p) h))

  ports-Runs : (fuel deadline : ℕ) (h : Host) → Runs os is_quiet h (ports_loop os fuel deadline h).1
  unfolding ports_loop
  ports-Runs zero deadline h = occupied-Runs ports h
  ports-Runs (suc fuel) deadline h =
      let (occupied, h') = occupied_ports os ports h in
      elim (Bool-cases (is_empty occupied || leb deadline h'.time)) [
        | inl e ↦ rw (e, ports_loop) (occupied-Runs ports h)
        | inr e ↦
            rw (e, ports_loop)
              (and_then os (and_then os (occupied-Runs ports h) (then_do (slept 100) refl done))
                (ports-Runs fuel deadline (act os (slept 100) h')))
      ]

  terminate-Runs :
      (pids : List ℕ) (services : List ServiceProcess) (h : Host)
      → All (Known pids) services
      → Runs os (concerns pids) h (terminate_each os services h)
  unfolding terminate_each
  terminate-Runs pids [] h known = done
  terminate-Runs pids (s ∷ rest) h (k, known) = elim (Bool-cases (os.has_exited h.events s.pid)) [
    | inl e ↦
        rw e (and_then os (then_do (polled s.pid) refl done) (terminate-Runs pids rest _ known))
    | inr e ↦ rw e (
        and_then os (then_do (terminated s.pid) k (then_do (polled s.pid) refl done))
          (terminate-Runs pids rest _ known))
  ]

  wait_one-Runs :
      (pids : List ℕ) (s : ServiceProcess) (h : Host)
      → Known pids s
      → Runs os (concerns pids) h (wait_one os s h).1
  unfolding wait_one
  wait_one-Runs pids s h k = elim (Bool-cases (os.exits_in_time h.events s.pid)) [
    | inl e ↦ rw e (then_do (closed s.log_path) refl (then_do (waited s.pid) refl done))
    | inr e ↦ rw e (
        let again = act os (killed s.pid) (act os (timed_out s.pid) h) in
        let killing : Runs os (concerns pids) h again =
          then_do (killed s.pid) k (then_do (timed_out s.pid) refl done) in
        elim (Bool-cases (os.exits_in_time again.events s.pid)) [
          | inl e' ↦ rw e' (then_do (closed s.log_path) refl (then_do (waited s.pid) refl killing))
          | inr e' ↦
              rw e' (then_do (closed s.log_path) refl (then_do (timed_out s.pid) refl killing))
        ])
  ]

  abbrev pub Stopped : Host → ServiceProcess → Type 0
  Stopped h s = Did (is_wait s.pid) h × Did (is_close s.log_path) h

  pub Stopped-stays :
      {allowed : Event → Bool} {h h' : Host} (s : ServiceProcess)
      → Runs os allowed h h'
      → Stopped h s
      → Stopped h' s
  Stopped-stays s runs (w, c) =
      (Did-stays os (is_wait s.pid) runs w, Did-stays os (is_close s.log_path) runs c)

  -- One process ends and was waited for, or the wait for it timed out twice.
  wait_one_ends :
      (s : ServiceProcess) (h : Host)
      → (((wait_one os s h).0 ≡ ok tt) × Stopped (wait_one os s h).1 s)
        ⊎ ((wait_one os s h).0 ≡ raise timeout_expired)
  unfolding wait_one act
  wait_one_ends s h =
      let again = act os (killed s.pid) (act os (timed_out s.pid) h) in
      ground (arith, ==_refl s.pid, ==_refl s.log_path)

  pub wait_each-Runs :
      (pids : List ℕ) (services : List ServiceProcess) (h : Host)
      → All (Known pids) services
      → Runs os (concerns pids) h (wait_each os services h).1
  unfolding wait_each
  wait_each-Runs pids [] h known = done
  wait_each-Runs pids (s ∷ rest) h (k, known) = elim (wait_one_ends s h) [
    | inl (e, _) ↦
        rw (e, wait_each)
          (and_then os (wait_one-Runs pids s h k)
            (wait_each-Runs pids rest (wait_one os s h).1 known))
    | inr e ↦ rw (e, wait_each) (wait_one-Runs pids s h k)
  ]

  wait_each-cons :
      (s : ServiceProcess) (rest : List ServiceProcess) (h : Host)
      → (wait_one os s h).0 ≡ ok tt
      → wait_each os (s ∷ rest) h ≡ wait_each os rest (wait_one os s h).1
  unfolding wait_each
  wait_each-cons s rest h e = rw (e, wait_each) refl

  abbrev Ends : List ServiceProcess → Result (Unit {0}) × Host → Type 0
  Ends services x = ((x.0 ≡ ok tt) × All (Stopped x.1) services) ⊎ (x.0 ≡ raise timeout_expired)

  wait_each-Ends :
      (services : List ServiceProcess) (h : Host) → Ends services (wait_each os services h)
  unfolding wait_each
  wait_each-Ends [] h = inl (refl, tt)
  wait_each-Ends (s ∷ rest) h = elim (wait_one_ends s h) [
    | inl (e, stopped) ↦
        let runs = wait_each-Runs (pids_of rest) rest (wait_one os s h).1 (All-Known rest) in
        subst (Ends (s ∷ rest)) (sym (wait_each-cons s rest h e))
          (elim (wait_each-Ends rest (wait_one os s h).1) [
            | inl (e', others) ↦ inl (e', (Stopped-stays s runs stopped, others))
            | inr e' ↦ inr e'
          ])
    | inr e ↦ rw (e, wait_each) (inr refl)
  ]

  closed-Runs : (h : Host) → Runs os is_quiet h (check_ports_closed os h).1
  unfolding check_ports_closed wait_for_ports_closed
  closed-Runs h = ports-Runs 50 (h.time + port_close_timeout) h

  -- Stopping services signals no other process and starts none: each of its steps only looks, waits or
  -- closes a log, or signals one of the services.
  pub stop-Runs :
      (services : List ServiceProcess) (h : Host)
      → Runs os (concerns (pids_of services)) h (stop_services os services h).1
  unfolding stop_services
  stop-Runs services h =
      let pids = pids_of services in
      let known = All-reversed (Known pids) services (All-Known services) in
      let terminating = terminate-Runs pids (reversed services) h known in
      let waiting =
        wait_each-Runs pids (reversed services) (terminate_each os (reversed services) h) known in
      elim (Result-cases
        (wait_each os (reversed services) (terminate_each os (reversed services) h)).0) [
          | inr (x, e) ↦ rw (e, stop_services) (and_then os terminating waiting)
          | inl (u, e) ↦
              rw (e, stop_services)
                (and_then os (and_then os terminating waiting)
                  (wider os (quiet-concerns os pids) (closed-Runs _)))
        ]

  -- Unless a wait timed out twice, each service was waited for and its log closed.
  pub stop_stops :
      (services : List ServiceProcess) (h : Host)
      → (stop_services os services h).0 ≢ raise timeout_expired
      → All (Stopped (stop_services os services h).1) services
  unfolding stop_services
  stop_stops services h ended =
      let begun = terminate_each os (reversed services) h in
      elim (wait_each-Ends (reversed services) begun) [
        | inr e ↦ absurd (ended (rw (e, stop_services) refl))
        | inl (e, all_stopped) ↦
            rw (e, stop_services)
              (let waited_host = (wait_each os (reversed services) begun).1 in
                let after = (check_ports_closed os waited_host).1 in
                reversed-All (Stopped after) services (
                  All-map (Stopped waited_host) (Stopped after) (reversed services)
                    (λ s. Stopped-stays s (closed-Runs waited_host)) all_stopped))
      ]
