-- ===== src/PhysicalWitness/Roomba.antt =====
-- physical_witness/roomba.py: the configuration of the device that signals, and its one fixed action.
-- The broker is an argument: what each call of the MQTT client gives.
pub mod Safe
use fixrepro.Base.{
  ℕ, zero, suc, ◌⊎◌, inl, inr, ◌+◌, ◌*◌, ◌-◌, ◌/◌, String, Bool, true, false, not, ◌&&◌, ◌||◌, ◌==◌,
  nat_eq, string_eq, list_eq, leb, ltb, all, Option, none, some, is_none, List, [], ◌∷◌, ◌++◌,
  length, Bytes, codes, if◌then◌else◌,
}
use fixrepro.Core.Models.{◌>>=◌, when}
use fixrepro.Core.Canonical.{number_item, utf8}

pub data WitnessError : Type 0 where
  invalid_address not_private wrong_model incomplete_credentials unsafe_timeout : WitnessError
  missing_dependency connection_failed timed_out not_accepted not_sent : WitnessError

pub data WitnessResult : Type 0 where
  disabled signal_sent : WitnessResult

-- `ip_str.split(".")`
unfoldable pub split_dots : List ℕ → List ℕ → List (List ℕ)
split_dots part [] = part ∷ []
split_dots part (c ∷ cs) = elim (c == b'.') [
  | true ↦ part ∷ split_dots [] cs
  | false ↦ split_dots (part ++ (c ∷ [])) cs
]

abbrev pub is_digit : ℕ → Bool
is_digit c = leb b'0' c && leb c b'9'

unfoldable pub digits_value : ℕ → List ℕ → ℕ
digits_value n [] = n
digits_value n (c ∷ cs) = digits_value (10 * n + (c - b'0')) cs

abbrev pub has_leading_zero : List ℕ → Bool
has_leading_zero (c ∷ _ ∷ _) = c == b'0'
has_leading_zero _ = false

-- One octet of `ipaddress.IPv4Address`.
unfoldable pub parse_octet : List ℕ → Option ℕ
unfolding digits_value
parse_octet cs =
    when
      (not (length cs == 0)
        && all is_digit cs
        && leb (length cs) 3
        && not (has_leading_zero cs)
        && leb (digits_value 0 cs) 255)
      (digits_value 0 cs)

pub record Address : Type 0 where
  pub a : ℕ
  pub b : ℕ
  pub c : ℕ
  pub d : ℕ

unfoldable pub parse_octets : List (List ℕ) → Option Address
parse_octets (w ∷ x ∷ y ∷ z ∷ []) = do
  a ← parse_octet w
  b ← parse_octet x
  c ← parse_octet y
  d ← parse_octet z
  some (record { a = a; b = b; c = c; d = d })
parse_octets _ = none

unfoldable pub ip_address : String → Option Address
unfolding split_dots
ip_address s = parse_octets (split_dots [] (codes s))

unfoldable pub address_number : Address → ℕ
address_number i = i.a * 16777216 + i.b * 65536 + i.c * 256 + i.d

-- `address in network`: the number without its host part is the network's. The networks are 10.0.0.0/8,
-- 172.16.0.0/12 and 192.168.0.0/16.
unfoldable pub in_network : ℕ → ℕ → ℕ → Bool
in_network host_size network n = n / host_size * host_size == network

unfoldable pub in_rfc1918 : Address → Bool
unfolding in_network address_number
in_rfc1918 i =
    in_network 16777216 167772160 (address_number i)
    || in_network 1048576 2886729728 (address_number i)
    || in_network 65536 3232235520 (address_number i)

abbrev pub expected_model : String
expected_model = "Roomba s9+"

-- The timeout in milliseconds.
pub record RoombaWitnessConfig : Type 0 where
  pub enabled : Bool
  pub host : String
  pub device_id : String
  pub local_password : String
  pub device_model : String
  pub timeout : ℕ

-- `__post_init__`; `is_ipv6` is whether the host is an address of the other version. `none` lets the
-- configuration exist.
unfoldable pub post_init : (String → Bool) → RoombaWitnessConfig → Option WitnessError
post_init is_ipv6 config = if not config.enabled then none else elim (ip_address config.host) [
  | none ↦ some (if is_ipv6 config.host then not_private else invalid_address)
  | some address ↦
      if not (in_rfc1918 address)
      then some not_private
      else if not (config.device_model == expected_model)
      then some wrong_model
      else if config.device_id == "" || config.local_password == ""
      then some incomplete_credentials
      else if not (leb 1000 config.timeout && leb config.timeout 20000)
      then some unsafe_timeout
      else none
]

pub data MqttEvent : Type 0 where
  connected looped disconnect_called : MqttEvent
  published : (topic : String) → (payload : Bytes) → MqttEvent

-- A call of `client.loop`: an exception, an error code, or success, and whether the broker has accepted
-- the connection by then.
pub data LoopAnswer : Type 0 where
  loop_raises loop_fails : LoopAnswer
  loop_succeeds : (connection_accepted : Bool) → LoopAnswer

-- What the client's calls give. `waiting` are the loop calls until the deadline; `publishes` is none
-- for an exception. `disconnect_returns` is whether the call in `finally` raises nothing.
pub record Broker : Type 0 where
  pub has_paho : Bool
  pub connects : Bool
  pub waiting : List LoopAnswer
  pub publishes : Option Bool
  pub last_loop_returns : Bool
  pub disconnect_returns : Bool

unfoldable pub wait_accepted :
    List LoopAnswer → List MqttEvent → Option WitnessError × List MqttEvent
wait_accepted [] es = (some timed_out, es)
wait_accepted (loop_raises ∷ _) es = (some not_sent, looped ∷ es)
wait_accepted (loop_fails ∷ _) es = (some connection_failed, looped ∷ es)
wait_accepted (loop_succeeds connection_accepted ∷ rest) es =
    let more = wait_accepted rest (looped ∷ es) in
    if connection_accepted then (none, looped ∷ es) else more

unfoldable pub publish_signal :
    Broker → String → Bytes → List MqttEvent → Option WitnessError × List MqttEvent
publish_signal broker topic payload es = elim broker.publishes [
  | none ↦ (some not_sent, es)
  | some accepted ↦ if not accepted then (some not_accepted, es) else (
    if broker.last_loop_returns then none else some not_sent,
    looped ∷ published topic payload ∷ es,
  )
]

-- `finally`: `client.disconnect()` and one loop call; the exceptions of both are swallowed.
unfoldable pub disconnect : Broker → List MqttEvent → List MqttEvent
disconnect broker es =
    if broker.disconnect_returns then looped ∷ disconnect_called ∷ es else disconnect_called ∷ es

-- `_PahoLocateTransport.execute_locate`; `finally` asks to disconnect what was connected.
unfoldable pub execute_locate :
    Broker → String → Bytes → List MqttEvent → Option WitnessError × List MqttEvent
unfolding disconnect
execute_locate broker topic payload es =
    if not broker.has_paho
    then (some missing_dependency, es)
    else if not broker.connects
    then (some not_sent, es)
    else (let (waited, es₁) = wait_accepted broker.waiting (connected ∷ es) in
        elim waited [
          | some e ↦ (some e, disconnect broker es₁)
          | none ↦
              let (sent, es₂) = publish_signal broker topic payload es₁ in
              (sent, disconnect broker es₂)
        ])

-- The JSON of the fixed command, its keys sorted.
unfoldable pub locate_payload : ℕ → Bytes
locate_payload time =
    utf8 (number_item "{\"command\":\"find\",\"initiator\":\"localApp\",\"time\":" time (codes "}"))

-- `locate_once` at a time in seconds.
unfoldable pub locate_once :
    RoombaWitnessConfig
    → Broker
    → ℕ
    → List MqttEvent
    → (WitnessError ⊎ WitnessResult) × List MqttEvent
locate_once config broker time es =
    if not config.enabled
    then (inr disabled, es)
    else (let (failed, es') = execute_locate broker "cmd" (locate_payload time) es in
        (elim failed [ some e ↦ inl e | none ↦ inr signal_sent ], es'))
