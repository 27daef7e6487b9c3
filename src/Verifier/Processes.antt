-- ===== src/Verifier/Processes.antt =====
-- verifier/processes.py: the three local services, from the check of the ports to the last closed log.
-- The operating system is an argument: what it answers may depend on all that happened before.
pub mod Steps
pub mod Stop
pub mod Start
pub mod Track
pub mod Clean
pub mod Owned
pub mod Deadline
use fixrepro.Base.{
  ℕ, zero, suc, ◌+◌, String, Bool, true, false, not, ltb, leb, ◌==◌, nat_eq, string_eq, option_eq,
  if◌then◌else◌, Option, none, some, List, [], ◌∷◌, ◌++◌, ◌||◌, is_none,
}
use Prim.Native.String.{◌++◌ as concat}
use fixrepro.Core.Errors.{
  PyError, Result, ok, raise, process_error, os_error, timeout_expired, recursion_error,
}
use fixrepro.Core.Json.{Value, obj, get_text}
use fixrepro.Core.Config.{
  device_port, vulnerable_gateway_port, patched_gateway_port, vulnerable_build_id, patched_build_id,
}

-- Times are in milliseconds.
abbrev pub health_timeout : ℕ
health_timeout = 15000

abbrev pub port_close_timeout : ℕ
port_close_timeout = 5000

abbrev pub ports : List ℕ
ports = vulnerable_gateway_port ∷ patched_gateway_port ∷ device_port ∷ []

pub data Event : Type 0 where
  probed : (port : ℕ) → Event
  opened closed : (log_path : String) → Event
  spawned polled terminated waited timed_out killed : (pid : ℕ) → Event
  requested : (port : ℕ) → Event
  slept : (milliseconds : ℕ) → Event

-- The clock, and what was done, the latest first.
pub record Host : Type 0 where
  pub time : ℕ
  pub events : List Event

-- `httpx.RequestError`; a status and the JSON document, if the body is one; or a status and a body that is
-- nested too deeply, on which `response.json()` raises RecursionError.
pub data HealthReply : Type 0 where
  request_error : HealthReply
  http_response : (status_code : ℕ) → Option Value → HealthReply
  nested_response : (status_code : ℕ) → HealthReply

-- The answers, given what was done before. `opens_log` and `spawns` fail with `OSError`; `exits_in_time`
-- fails with `TimeoutExpired`.
pub record OperatingSystem : Type 0 where
  pub accepts : List Event → ℕ → Bool
  pub opens_log : List Event → String → Bool
  pub spawns : List Event → String → Option ℕ
  pub has_exited : List Event → ℕ → Bool
  pub get_health : List Event → ℕ → HealthReply
  pub exits_in_time : List Event → ℕ → Bool
  pub delay : List Event → ℕ

pub record ServiceProcess : Type 0 where
  pub name : String
  pub port : ℕ
  pub pid : ℕ
  pub log_path : String
  pub expected_build_id : Option String

pub record Specification : Type 0 where
  pub name : String
  pub module_name : String
  pub port : ℕ
  pub build_id : Option String

abbrev pub specifications : List Specification
specifications =
    record { name = "device"; module_name = "device.app:app"; port = device_port; build_id = none }
    ∷ record {
      name = "vulnerable-gateway";
      module_name = "targets.vulnerable.app:app";
      port = vulnerable_gateway_port;
      build_id = some vulnerable_build_id;
    }
    ∷ record {
      name = "patched-gateway";
      module_name = "targets.patched.app:app";
      port = patched_gateway_port;
      build_id = some patched_build_id;
    }
    ∷ []

pub data Health : Type 0 where
  healthy wrong_build not_yet too_deep : Health

unfoldable pub check_build : Option String → Option String → Health
check_build none seen = healthy
check_build (some expected) seen = if seen == some expected then healthy else wrong_build

-- What one health response says; an answer that is no JSON object is not yet one.
unfoldable pub check_health : Option String → HealthReply → Health
unfolding check_build
check_health expected request_error = not_yet
check_health expected (http_response status_code (some (obj body))) =
    if status_code == 200
    then if get_text "status" body == some "ok"
      then check_build expected (get_text "build_id" body)
      else not_yet
    else not_yet
check_health expected (http_response status_code _) = not_yet
check_health expected (nested_response status_code) =
    if status_code == 200 then too_deep else not_yet

-- `time.sleep` lasts its time at least.
abbrev pub lasts : Event → ℕ
lasts (slept milliseconds) = milliseconds
lasts _ = 0

abbrev pub is_process_error : PyError → Bool
is_process_error (process_error _) = true
is_process_error _ = false

-- `not occupied`
abbrev pub is_empty {ℓ} : {A : Type ℓ} → List A → Bool
is_empty [] = true
is_empty (_ ∷ _) = false

-- `reversed(services)`
unfoldable pub reversed {ℓ} : {A : Type ℓ} → List A → List A
reversed [] = []
reversed (s ∷ rest) = reversed rest ++ (s ∷ [])

module _ (os : OperatingSystem) where
  -- One thing is done.
  unfoldable pub act : Event → Host → Host
  act e h = record { time = h.time + (lasts e + os.delay h.events); events = e ∷ h.events }

  -- `[port for port in PORTS if port_accepts_connections(port)]`
  unfoldable pub occupied_ports : List ℕ → Host → List ℕ × Host
  unfolding act
  occupied_ports [] h = ([], h)
  occupied_ports (port ∷ rest) h =
      let (occupied, h') = occupied_ports rest (act (probed port) h) in
      (if os.accepts h.events port then port ∷ occupied else occupied, h')

  unfoldable pub assert_ports_available : Host → Result (Unit {0}) × Host
  assert_ports_available h =
      let (occupied, h') = occupied_ports ports h in
      (
        elim occupied [
          | [] ↦ ok tt
          | _ ∷ _ ↦ raise (process_error "required localhost port(s) already occupied")
        ],
        h',
      )

  unfoldable pub start_service : Specification → Host → Result ServiceProcess × Host
  start_service spec h =
      let log_path = concat (concat "phase3-" spec.name) ".log" in
      if os.opens_log h.events log_path
      then (let opening = act (opened log_path) h in
          elim (os.spawns opening.events spec.module_name) [
            | none ↦ (raise (process_error "could not start"), act (closed log_path) opening)
            | some pid ↦ (
              ok (record {
                name = spec.name;
                port = spec.port;
                pid = pid;
                log_path = log_path;
                expected_build_id = spec.build_id;
              }),
              act (spawned pid) opening,
            )
          ])
      else (raise (os_error "could not open the log"), h)

  -- The body of the loop in `_wait_for_health` until it sleeps; `none` is another round.
  unfoldable pub health_round : ServiceProcess → Host → Option (Result (Unit {0})) × Host
  health_round service h =
      if os.has_exited h.events service.pid
      then (
        some (raise (process_error "exited before its health check")),
        act (polled service.pid) h,
      )
      else (let asking = act (polled service.pid) h in
          elim (check_health service.expected_build_id (os.get_health asking.events service.port)) [
            | healthy ↦ (some (ok tt), act (requested service.port) asking)
            | wrong_build ↦ (
              some (raise (process_error "exposed an unexpected build identifier")),
              act (requested service.port) asking,
            )
            | too_deep ↦ (some (raise recursion_error), act (requested service.port) asking)
            | not_yet ↦ (none, act (slept 150) (act (requested service.port) asking))
          ])

  unfoldable pub health_loop : ℕ → ServiceProcess → ℕ → Host → Result (Unit {0}) × Host
  health_loop zero service deadline h = (raise (process_error "Did not become healthy"), h)
  health_loop (suc fuel) service deadline h =
      if ltb h.time deadline
      then (let (done, h') = health_round service h in
          elim done [ some r ↦ (r, h') | none ↦ health_loop fuel service deadline h' ])
      else (raise (process_error "Did not become healthy"), h)

  -- `_wait_for_health`: 15 s of rounds that last 150 ms each, at least.
  unfoldable pub wait_for_health : ServiceProcess → Host → Result (Unit {0}) × Host
  wait_for_health service h = health_loop 100 service (h.time + health_timeout) h

  unfoldable pub terminate_each : List ServiceProcess → Host → Host
  terminate_each [] h = h
  terminate_each (s ∷ rest) h = terminate_each rest (
      if os.has_exited h.events s.pid
      then act (polled s.pid) h
      else act (terminated s.pid) (act (polled s.pid) h))

  -- One process is waited for, killed if it does not end, and its log closed in either case.
  unfoldable pub wait_one : ServiceProcess → Host → Result (Unit {0}) × Host
  wait_one s h =
      if os.exits_in_time h.events s.pid
      then (ok tt, act (closed s.log_path) (act (waited s.pid) h))
      else (let again = act (killed s.pid) (act (timed_out s.pid) h) in
          if os.exits_in_time again.events s.pid
          then (ok tt, act (closed s.log_path) (act (waited s.pid) again))
          else (raise timeout_expired, act (closed s.log_path) (act (timed_out s.pid) again)))

  unfoldable pub wait_each : List ServiceProcess → Host → Result (Unit {0}) × Host
  wait_each [] h = (ok tt, h)
  wait_each (s ∷ rest) h =
      let (ended, h') = wait_one s h in
      elim ended [ raise e ↦ (raise e, h') | ok _ ↦ wait_each rest h' ]

  unfoldable pub ports_loop : ℕ → ℕ → Host → List ℕ × Host
  ports_loop zero deadline h = occupied_ports ports h
  ports_loop (suc fuel) deadline h =
      let (occupied, h') = occupied_ports ports h in
      elim (is_empty occupied || leb deadline h'.time) [
        | true ↦ (occupied, h')
        | false ↦ ports_loop fuel deadline (act (slept 100) h')
      ]

  unfoldable pub wait_for_ports_closed : Host → List ℕ × Host
  wait_for_ports_closed h = ports_loop 50 (h.time + port_close_timeout) h

  -- `stop_services` after both loops.
  unfoldable pub check_ports_closed : Host → Result (Unit {0}) × Host
  check_ports_closed h =
      let (occupied, h') = wait_for_ports_closed h in
      (
        elim occupied [
          | [] ↦ ok tt
          | _ ∷ _ ↦ raise (process_error "verification child services left listening ports")
        ],
        h',
      )

  unfoldable pub stop_services : List ServiceProcess → Host → Result (Unit {0}) × Host
  stop_services services h =
      let (ended, h') = wait_each (reversed services) (terminate_each (reversed services) h) in
      elim ended [ raise e ↦ (raise e, h') | ok _ ↦ check_ports_closed h' ]

  -- The loop of `start_services`: the outcome, and the services that were started.
  unfoldable pub start_each :
      List Specification
      → List ServiceProcess
      → Host
      → Result (Unit {0}) × List ServiceProcess × Host
  start_each [] services h = (ok tt, services, h)
  start_each (spec ∷ rest) services h =
      let (started, h₁) = start_service spec h in
      elim started [
        | raise e ↦ (raise e, services, h₁)
        | ok service ↦
            let (seen, h₂) = wait_for_health service h₁ in
            elim seen [
              | raise e ↦ (raise e, services ++ (service ∷ []), h₂)
              | ok _ ↦ start_each rest (services ++ (service ∷ [])) h₂
            ]
      ]

  -- `except ProcessError` stops what was started, and no other exception does.
  unfoldable pub close_start :
      Result (Unit {0}) → List ServiceProcess → Host → Result (List ServiceProcess) × Host
  close_start (ok _) services h = (ok services, h)
  close_start (raise e) services h =
      if is_process_error e
      then (let (stopped, h') = stop_services services h in
          (elim stopped [ raise x ↦ raise x | ok _ ↦ raise e ], h'))
      else (raise e, h)

  unfoldable pub assert_services_running : List ServiceProcess → Host → Result (Unit {0}) × Host
  assert_services_running [] h = (ok tt, h)
  assert_services_running (s ∷ rest) h =
      if os.has_exited h.events s.pid
      then (raise (process_error "exited unexpectedly"), act (polled s.pid) h)
      else assert_services_running rest (act (polled s.pid) h)

  unfoldable pub start_services : Host → Result (List ServiceProcess) × Host
  start_services h =
      let (available, h') = assert_ports_available h in
      elim available [
        | raise e ↦ (raise e, h')
        | ok _ ↦
            let (outcome, services, h'') = start_each specifications [] h' in
            close_start outcome services h''
      ]
