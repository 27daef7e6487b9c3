-- ===== src/PhysicalWitness/Roomba/Safe.antt =====
-- What an enabled configuration guarantees, and what one action sends.
use fixrepro.Base.{
  ℕ, suc, ◌+◌, ◌≤◌, ◌≡◌, ◌≢◌, ◌⊎◌, inl, inr, refl, sym, subst, ◌↔◌, String, Bool, true, false,
  nat_eq, string_eq, eq_iff, arith, Bool-cases, Option-cases, none, some, List, [], ◌∷◌, Bytes,
}
use fixrepro.PhysicalWitness.Roomba.{
  disabled, signal_sent, Address, ip_address, parse_octets, parse_octet, in_network, in_rfc1918,
  address_number, RoombaWitnessConfig, expected_model, post_init, MqttEvent, connected, looped,
  disconnect_called, published, LoopAnswer, loop_raises, loop_fails, loop_succeeds, Broker,
  wait_accepted, publish_signal, execute_locate, locate_payload, locate_once, disconnect,
}

-- A private IPv4 address, octet by octet.
abbrev pub IsPrivate : Address → Type 0
IsPrivate i = (i.a ≡ 10) ⊎ (((i.a ≡ 172) × (16 ≤ i.b) × (i.b ≤ 31)) ⊎ ((i.a ≡ 192) × (i.b ≡ 168)))

octet_bound : (cs : List ℕ) (n : ℕ) → parse_octet cs ≡ some n → n ≤ 255
unfolding parse_octet
octet_bound cs n h = ground arith

-- The octets of a parsed address.
ip_address_bounds :
    (s : String) (i : Address)
    → ip_address s ≡ some i
    → (i.a ≤ 255) × (i.b ≤ 255) × (i.c ≤ 255) × (i.d ≤ 255)
unfolding ip_address parse_octets parse_octet
ip_address_bounds s i h = ground arith

in_rfc1918-IsPrivate :
    (i : Address)
    → (i.a ≤ 255) × (i.b ≤ 255) × (i.c ≤ 255) × (i.d ≤ 255)
    → in_rfc1918 i ≡ true
    → IsPrivate i
unfolding in_rfc1918 in_network address_number
in_rfc1918-IsPrivate i (a, b, c, d) h = ground arith

IsPrivate-in_rfc1918 :
    (i : Address)
    → IsPrivate i
    → (i.a ≤ 255) × (i.b ≤ 255) × (i.c ≤ 255) × (i.d ≤ 255)
    → in_rfc1918 i ≡ true
unfolding in_rfc1918 in_network address_number
IsPrivate-in_rfc1918 i p (a, b, c, d) = ground arith

-- The target is a private IPv4 address, the model is the approved one, the credentials are there, and
-- the timeout is between 1 s and 20 s.
abbrev pub IsSafe : RoombaWitnessConfig → Type 0
IsSafe config =
    ((i : Address) × (ip_address config.host ≡ some i) × IsPrivate i)
    × (config.device_model ≡ expected_model)
    × (config.device_id ≢ "")
    × (config.local_password ≢ "")
    × (1000 ≤ config.timeout)
    × (config.timeout ≤ 20000)

-- An enabled configuration is let through exactly if its target is a dotted IPv4 address of 10.0.0.0/8,
-- 172.16.0.0/12 or 192.168.0.0/16, the model is the approved one, device id and password are not empty,
-- and the timeout is between 1 s and 20 s.
pub post_init_iff :
    (is_ipv6 : String → Bool) (config : RoombaWitnessConfig)
    → config.enabled ≡ true
    → (post_init is_ipv6 config ≡ none) ↔ IsSafe config
unfolding post_init
post_init_iff is_ipv6 config enabled = elim (Option-cases (ip_address config.host)) [
  | inl none_is ↦ (λ h. ground arith, λ ((i, found, _), _, _, _, _, _). ground arith)
  | inr (i, found) ↦
      let bounds = ip_address_bounds config.host i found in
      (
        λ h.
            let private : in_rfc1918 i ≡ true = ground arith in
            let target : (j : Address) × (ip_address config.host ≡ some j) × IsPrivate j =
              (i, found, in_rfc1918-IsPrivate i bounds private) in
            let model : config.device_model ≡ expected_model =
              ground (arith, eq_iff config.device_model expected_model) in
            let id : config.device_id ≢ "" = ground (arith, eq_iff config.device_id "") in
            let password : config.local_password ≢ "" =
              ground (arith, eq_iff config.local_password "") in
            let low : 1000 ≤ config.timeout = ground arith in
            let high : config.timeout ≤ 20000 = ground arith in
            (target, model, id, password, low, high),
        λ ((j, found', private), model, id, password, low, high).
            let same : i ≡ j = ground arith in
            let is_private : in_rfc1918 i ≡ true =
              IsPrivate-in_rfc1918 i (subst IsPrivate (sym same) private) bounds in
            ground (
              arith,
              eq_iff config.device_model expected_model,
              eq_iff config.device_id "",
              eq_iff config.local_password "",
            ),
      )
]

-- What was published, the latest first.
abbrev pub publications : List MqttEvent → List (String × Bytes)
publications [] = []
publications (published topic payload ∷ es) = (topic, payload) ∷ publications es
publications (_ ∷ es) = publications es

-- How many connections were made, and how often `client.disconnect()` was called.
abbrev pub connections : List MqttEvent → ℕ
connections [] = 0
connections (connected ∷ es) = suc (connections es)
connections (_ ∷ es) = connections es

abbrev pub disconnect_calls : List MqttEvent → ℕ
disconnect_calls [] = 0
disconnect_calls (disconnect_called ∷ es) = suc (disconnect_calls es)
disconnect_calls (_ ∷ es) = disconnect_calls es

-- Waiting publishes nothing and neither connects nor disconnects.
wait_publishes_nothing :
    (answers : List LoopAnswer) (es : List MqttEvent)
    → (publications (wait_accepted answers es).1 ≡ publications es)
      × (connections (wait_accepted answers es).1 ≡ connections es)
      × (disconnect_calls (wait_accepted answers es).1 ≡ disconnect_calls es)
unfolding wait_accepted
wait_publishes_nothing [] es = (refl, refl, refl)
wait_publishes_nothing (loop_raises ∷ _) es = (refl, refl, refl)
wait_publishes_nothing (loop_fails ∷ _) es = (refl, refl, refl)
wait_publishes_nothing (loop_succeeds accepted ∷ rest) es = elim (Bool-cases accepted) [
  | inl e ↦ rw (e, wait_accepted) (refl, refl, refl)
  | inr e ↦ rw (e, wait_accepted) (wait_publishes_nothing rest (looped ∷ es))
]

-- One call of `locate_once` sends the fixed Locate command to the topic `cmd` once, or nothing. A disabled
-- witness does not touch the network at all; SIGNAL_SENT means that the command was published; and
-- client.disconnect() is called once for the connection that was made, and not without one, whatever
-- fails, that call included, whose own failure changes nothing of the result.
pub one_signal :
    (config : RoombaWitnessConfig) (broker : Broker) (time : ℕ) (es : List MqttEvent)
    → let (result, es') = locate_once config broker time es in
      ((publications es' ≡ publications es)
        ⊎ (publications es' ≡ ("cmd", locate_payload time) ∷ publications es))
      × (config.enabled ≡ false → (result ≡ inr disabled) × (es' ≡ es))
      × (result ≡ inr signal_sent
          → publications es' ≡ ("cmd", locate_payload time) ∷ publications es)
      × (disconnect_calls es' + connections es ≡ disconnect_calls es + connections es')
      × ((returns : Bool)
          → (locate_once config (record broker { disconnect_returns = returns }) time es).0
            ≡ result)
unfolding locate_once execute_locate publish_signal disconnect
one_signal config broker time es =
    let waiting = wait_publishes_nothing broker.waiting (connected ∷ es) in ground arith
