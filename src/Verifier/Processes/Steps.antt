-- ===== src/Verifier/Processes/Steps.antt =====
-- What the operations on processes do, step by step.
use fixrepro.Base.{
  ℕ, ◌≡◌, ◌⊎◌, inl, inr, refl, Bool, true, false, ◌==◌, nat_eq, string_eq, String, any, arith,
  Bool-cases, contains, List,
}
use fixrepro.Verifier.Processes.{
  Event, probed, opened, closed, spawned, polled, terminated, waited, timed_out, killed, requested,
  slept, Host, OperatingSystem, act,
}

abbrev pub is_spawn : ℕ → Event → Bool
is_spawn p (spawned q) = p == q
is_spawn p _ = false

-- `terminate` or `kill`
abbrev pub is_signal : ℕ → Event → Bool
is_signal p (terminated q) = p == q
is_signal p (killed q) = p == q
is_signal p _ = false

abbrev pub is_wait : ℕ → Event → Bool
is_wait p (waited q) = p == q
is_wait p _ = false

abbrev pub is_open : String → Event → Bool
is_open l (opened k) = l == k
is_open l _ = false

abbrev pub is_close : String → Event → Bool
is_close l (closed k) = l == k
is_close l _ = false

-- Nothing is started, stopped or opened.
abbrev pub is_quiet : Event → Bool
is_quiet (spawned _) = false
is_quiet (opened _) = false
is_quiet (terminated _) = false
is_quiet (killed _) = false
is_quiet _ = true

-- Besides, some processes may be stopped.
abbrev pub concerns : List ℕ → Event → Bool
concerns pids (terminated p) = contains pids p
concerns pids (killed p) = contains pids p
concerns pids e = is_quiet e

abbrev pub Did : (Event → Bool) → Host → Type 0
Did test h = any test h.events ≡ true

module _ (os : OperatingSystem) where
  -- From one host to another by events that are allowed.
  pub data Runs (allowed : Event → Bool) : Host → Host → Type 0 where
    done : {h : Host} → Runs allowed h h
    then_do :
        {h h' : Host} (e : Event)
        → allowed e ≡ true
        → Runs allowed h h'
        → Runs allowed h (act os e h')

  pub and_then :
      {allowed : Event → Bool} {h h' h'' : Host}
      → Runs allowed h h'
      → Runs allowed h' h''
      → Runs allowed h h''
  and_then r done = r
  and_then r (then_do e ok more) = then_do e ok (and_then r more)

  pub wider :
      {narrow wide : Event → Bool} {h h' : Host}
      → ((e : Event) → narrow e ≡ true → wide e ≡ true)
      → Runs narrow h h'
      → Runs wide h h'
  wider widens done = done
  wider widens (then_do e ok more) = then_do e (widens e ok) (wider widens more)

  -- Nothing is undone.
  pub Did-stays :
      {allowed : Event → Bool} {h h' : Host} (test : Event → Bool)
      → Runs allowed h h'
      → Did test h
      → Did test h'
  unfolding act
  Did-stays test done d = d
  Did-stays {h' = h'} test (then_do {h' = h''} e ok more) d =
      let before : Did test h'' = Did-stays test more d in ground arith

  -- What was done was done before, or an allowed event did it.
  pub Did-before :
      {allowed : Event → Bool} {h h' : Host} {Q : Type 0} (test : Event → Bool)
      → ((e : Event) → allowed e ≡ true → test e ≡ true → Q)
      → Runs allowed h h'
      → Did test h'
      → Did test h ⊎ Q
  unfolding act
  Did-before test decide done d = inl d
  Did-before test decide (then_do {h' = h''} e ok more) d = elim (Bool-cases (test e)) [
    | inl now ↦ inr (decide e ok now)
    | inr not_now ↦ let earlier : Did test h'' = ground arith in Did-before test decide more earlier
  ]

  pub quiet-concerns : (pids : List ℕ) (e : Event) → is_quiet e ≡ true → concerns pids e ≡ true
  quiet-concerns pids (spawned _) h = ground arith
  quiet-concerns pids (opened _) h = ground arith
  quiet-concerns pids (terminated _) h = ground arith
  quiet-concerns pids (killed _) h = ground arith
  quiet-concerns pids (probed _) h = refl
  quiet-concerns pids (closed _) h = refl
  quiet-concerns pids (polled _) h = refl
  quiet-concerns pids (waited _) h = refl
  quiet-concerns pids (timed_out _) h = refl
  quiet-concerns pids (requested _) h = refl
  quiet-concerns pids (slept _) h = refl
