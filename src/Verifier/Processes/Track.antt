-- ===== src/Verifier/Processes/Track.antt =====
-- What was started since a moment is accounted for.
use fixrepro.Base.{
  ℕ, ◌≡◌, inl, inr, sym, ◌∙◌, String, Bool, true, ◌||◌, ◌==◌, nat_eq, string_eq, PyEq, ==_refl,
  arith, Bool-cases, contains, List, [], ◌∷◌, ◌++◌, map,
}
use fixrepro.Core.Errors.{PyError, ok, raise, Result-cases, ok-injective}
use fixrepro.Verifier.Processes.{
  Event, opened, closed, spawned, Host, OperatingSystem, ServiceProcess, Specification, act,
  start_service, wait_for_health, start_each,
}
use fixrepro.Verifier.Processes.Steps.{
  is_spawn, is_open, is_close, is_quiet, concerns, Did, Runs, Did-stays, Did-before,
}
use fixrepro.Verifier.Processes.Stop.{All-map, All-snoc}
use fixrepro.Verifier.Processes.Start.{Tracks, start-Starts, health-Runs}

module _ {ℓ} {A : Type ℓ} ⦃e : PyEq A⦄ (key : ServiceProcess → A) where
  contains-snoc :
      (services : List ServiceProcess) (s : ServiceProcess) (x : A)
      → contains (map key (services ++ (s ∷ []))) x ≡ (contains (map key services) x || x == key s)
  contains-snoc [] s x = ground arith
  contains-snoc (t ∷ rest) s x = ground (arith, contains-snoc rest s x)

module _ (os : OperatingSystem) where
  pub quiet_spawn : (p : ℕ) (e : Event) → is_quiet e ≡ true → is_spawn p e ≡ true → ⊥
  quiet_spawn p e quiet test = ground arith

  pub quiet_open : (l : String) (e : Event) → is_quiet e ≡ true → is_open l e ≡ true → ⊥
  quiet_open l e quiet test = ground arith

  pub concerned_spawn :
      (pids : List ℕ) (p : ℕ) (e : Event) → concerns pids e ≡ true → is_spawn p e ≡ true → ⊥
  concerned_spawn pids p e quiet test = ground arith

  pub concerned_open :
      (pids : List ℕ) (l : String) (e : Event) → concerns pids e ≡ true → is_open l e ≡ true → ⊥
  concerned_open pids l e quiet test = ground arith

  -- Events that neither spawn nor open keep track.
  pub Tracks-Runs :
      {allowed : Event → Bool} {h h' : Host} (base : Host) (services : List ServiceProcess)
      → ((p : ℕ) (e : Event) → allowed e ≡ true → is_spawn p e ≡ true → ⊥)
      → ((l : String) (e : Event) → allowed e ≡ true → is_open l e ≡ true → ⊥)
      → Runs os allowed h h'
      → Tracks os base services h
      → Tracks os base services h'
  Tracks-Runs {h = h} {h' = h'} base services no_spawn no_open runs t = record {
    pids = λ p d. elim (Did-before os (is_spawn p) (no_spawn p) runs d) [
      | inl before ↦ t.pids p before
      | inr never ↦ absurd never
    ];
    logs = λ l d. elim (Did-before os (is_open l) (no_open l) runs d) [
      | inl before ↦ elim (t.logs l before) [
        | inl b ↦ inl b
        | inr (inl c) ↦ inr (inl (Did-stays os (is_close l) runs c))
        | inr (inr known) ↦ inr (inr known)
      ]
      | inr never ↦ absurd never
    ];
    owned =
        All-map (λ s. Did (is_spawn s.pid) h) (λ s. Did (is_spawn s.pid) h') services
          (λ s. Did-stays os (is_spawn s.pid) runs) t.owned;
  }

  -- A service that was spawned joins the services.
  Tracks-spawned :
      (base h : Host) (services : List ServiceProcess) (s : ServiceProcess)
      → Tracks os base services h
      → Tracks os base
          (services ++ (s ∷ []))
          (act os (spawned s.pid) (act os (opened s.log_path) h))
  unfolding act
  Tracks-spawned base h services s t = record {
    pids = λ p d. rw (contains-snoc (λ x. x.pid) services s p) (elim (Bool-cases (p == s.pid)) [
      | inl e ↦ inr (ground arith)
      | inr e ↦
          let before : Did (is_spawn p) h = ground arith in
          elim (t.pids p before) [ inl b ↦ inl b | inr known ↦ inr (ground arith) ]
    ]);
    logs = λ l d.
        rw (contains-snoc (λ x. x.log_path) services s l) (elim (Bool-cases (l == s.log_path)) [
          | inl e ↦ inr (inr (ground arith))
          | inr e ↦
              let before : Did (is_open l) h = ground arith in
              elim (t.logs l before) [
                | inl b ↦ inl b
                | inr (inl c) ↦ inr (inl c)
                | inr (inr known) ↦ inr (inr (ground arith))
              ]
        ]);
    owned =
        All-snoc (λ x. Did (is_spawn x.pid) (act os (spawned s.pid) (act os (opened s.log_path) h)))
          services s
          (All-map (λ x. Did (is_spawn x.pid) h)
            (λ x. Did (is_spawn x.pid) (act os (spawned s.pid) (act os (opened s.log_path) h)))
            services (λ x d. ground arith) t.owned)
          (ground (arith, ==_refl s.pid));
  }

  -- A log that was opened and closed again is no loss.
  Tracks-closed :
      (base h : Host) (services : List ServiceProcess) (k : String)
      → Tracks os base services h
      → Tracks os base services (act os (closed k) (act os (opened k) h))
  unfolding act
  Tracks-closed base h services k t = record {
    pids = λ p d. t.pids p d;
    logs = λ l d. elim (Bool-cases (l == k)) [
      | inl e ↦ inr (inl (ground arith))
      | inr e ↦
          let before : Did (is_open l) h = ground arith in
          elim (t.logs l before) [
            | inl b ↦ inl b
            | inr (inl c) ↦ inr (inl (ground arith))
            | inr (inr known) ↦ inr (inr known)
          ]
    ];
    owned = t.owned;
  }

  Tracks-start :
      (base h : Host) (services : List ServiceProcess) (spec : Specification) (s : ServiceProcess)
      → Tracks os base services h
      → (start_service os spec h).0 ≡ ok s
      → Tracks os base (services ++ (s ∷ [])) (start_service os spec h).1
  Tracks-start base h services spec s t e = elim (start-Starts os spec h) [
    | inl (s', e', after) ↦
        let same : s' ≡ s = ok-injective (sym e' ∙ e) in
        rw (after, same) (Tracks-spawned base h services s t)
    | inr (x, e', _) ↦ absurd (ground arith)
  ]

  Tracks-failed :
      (base h : Host) (services : List ServiceProcess) (spec : Specification) (x : PyError)
      → Tracks os base services h
      → (start_service os spec h).0 ≡ raise x
      → Tracks os base services (start_service os spec h).1
  Tracks-failed base h services spec x t e = elim (start-Starts os spec h) [
    | inl (s', e', _) ↦ absurd (ground arith)
    | inr (_, _, inl after) ↦ rw after t
    | inr (_, _, inr (l, after)) ↦ rw after (Tracks-closed base h services l t)
  ]

  -- The services that were started are tracked, whatever ends the loop.
  pub start_each-Tracks :
      (base : Host) (specs : List Specification) (services : List ServiceProcess) (h : Host)
      → Tracks os base services h
      → (let (_, started, h') = start_each os specs services h in Tracks os base started h')
  unfolding start_each
  start_each-Tracks base [] services h t = t
  start_each-Tracks base (spec ∷ rest) services h t =
      elim (Result-cases (start_service os spec h).0) [
        | inr (x, e) ↦ rw (e, start_each) (Tracks-failed base h services spec x t e)
        | inl (s, e) ↦
            let h₁ = (start_service os spec h).1 in
            let started = services ++ (s ∷ []) in
            let runs = health-Runs os s h₁ in
            let seen =
              Tracks-Runs base started quiet_spawn quiet_open runs
                (Tracks-start base h services spec s t e) in
            elim (Result-cases (wait_for_health os s h₁).0) [
              | inr (x, e') ↦ rw (e, e', start_each) seen
              | inl (u, e') ↦
                  rw (e, e', start_each)
                    (start_each-Tracks base rest started (wait_for_health os s h₁).1 seen)
            ]
      ]

  pub Tracks-none : (h : Host) → Tracks os h [] h
  Tracks-none h = record { pids = λ p d. inl d; logs = λ l d. inl d; owned = tt }
