-- ===== src/Tests/Processes.antt =====
-- A toy operating system, and a session and a failed start on it.
use fixrepro.Base.{
  ℕ, ◌≡◌, ◌≢◌, ◌⊎◌, ◌+◌, refl, String, true, false, ◌==◌, nat_eq, Option, none, some, List, [], ◌∷◌,
  length, if◌then◌else◌, All, contains, arith,
}
use fixrepro.Core.Errors.{Result, ok, raise, process_error, verification_error, timeout_expired}
use fixrepro.Core.Json.{end, field, text, obj, get_field, get_text}
use fixrepro.Verifier.Processes.{
  Host, OperatingSystem, ServiceProcess, http_response, health_timeout, port_close_timeout, act,
  occupied_ports, assert_ports_available, start_service, check_build, check_health, health_round,
  health_loop, wait_for_health, terminate_each, wait_one, wait_each, ports_loop,
  wait_for_ports_closed, check_ports_closed, reversed, stop_services, start_each, close_start,
  start_services,
}
use fixrepro.Verifier.Processes.Steps.{is_spawn, is_signal, done, Did}
use fixrepro.Verifier.Processes.Stop.{pids_of, Stopped}
use fixrepro.Verifier.Processes.Clean.{Cleaned}
use fixrepro.Verifier.Orchestrator.Session.{run_with_services, services_always_stopped}
use fixrepro.Verifier.Processes.Owned.{start_signals_own, stop_services_sound}
use fixrepro.Verifier.Processes.Deadline.{waits_end}

abbrev build : ℕ → String
build port = if port == 8101 then "FIXREPRO-VULNERABLE-OTA-1" else "FIXREPRO-PATCHED-OTA-1"

-- Every answer is the good one, and the builds are as told.
abbrev answering : (ℕ → String) → OperatingSystem
answering builds = record {
  accepts = λ _ _. false;
  opens_log = λ _ _. true;
  spawns = λ es _. some (length es);
  has_exited = λ _ _. false;
  get_health = λ _ port.
      http_response 200
        (some (obj (field "status" (text "ok") (field "build_id" (text (builds port)) end))));
  exits_in_time = λ _ _. true;
  delay = λ _. 1;
}

abbrev good : OperatingSystem
good = answering build

abbrev bad : OperatingSystem
bad = answering (λ _. "FIXREPRO-VULNERABLE-OTA-1")

abbrev fresh : Host
fresh = record { time = 0; events = [] }

-- A run of the scenarios that does nothing.
abbrev no_scenario : List ServiceProcess → Host → Result ℕ × Host
no_scenario services h = (ok 0, h)

abbrev service : String → ℕ → ℕ → String → Option String → ServiceProcess
service name port pid log_path build_id = record {
  name = name;
  port = port;
  pid = pid;
  log_path = log_path;
  expected_build_id = build_id;
}

abbrev started : List ServiceProcess
started =
    service "device" 8200 4 "phase3-device.log" none
    ∷ service "vulnerable-gateway" 8101 8 "phase3-vulnerable-gateway.log"
        (some "FIXREPRO-VULNERABLE-OTA-1")
    ∷ service "patched-gateway" 8102 12 "phase3-patched-gateway.log" (some "FIXREPRO-PATCHED-OTA-1")
    ∷ []

good_starts : (start_services good fresh).0 ≡ ok started
unfolding start_services assert_ports_available start_each start_service wait_for_health health_loop
    health_round check_health check_build get_text get_field act occupied_ports close_start
good_starts = refl

bad_fails :
    (start_services bad fresh).0 ≡ raise (process_error "exposed an unexpected build identifier")
unfolding start_services assert_ports_available start_each start_service wait_for_health health_loop
    health_round check_health check_build get_text get_field act occupied_ports close_start
    stop_services terminate_each wait_each wait_one reversed check_ports_closed
    wait_for_ports_closed ports_loop
bad_fails = refl

good_stops : (stop_services good started (start_services good fresh).1).0 ≢ raise timeout_expired
unfolding stop_services wait_each wait_one reversed check_ports_closed wait_for_ports_closed
    ports_loop occupied_ports
good_stops h = ground arith

services_always_stopped_example :
    ((services : List ServiceProcess)
      → (start_services good fresh).0 ≡ ok services
      → (run_with_services good no_scenario fresh).0 ≢ raise timeout_expired
      → Cleaned good fresh (run_with_services good no_scenario fresh).1)
    × ((message : String)
        → (start_services good fresh).0 ≡ raise (process_error message)
        → ((run_with_services good no_scenario fresh).0 ≡ raise (verification_error message))
          × ((run_with_services good no_scenario fresh).1 ≡ (start_services good fresh).1)
          × Cleaned good fresh (run_with_services good no_scenario fresh).1)
services_always_stopped_example =
    services_always_stopped good no_scenario (λ services h. done) fresh

-- The device's process is signalled when the start fails.
device_signalled : Did (is_signal 4) (start_services bad fresh).1
unfolding start_services assert_ports_available start_each start_service wait_for_health health_loop
    health_round check_health check_build get_text get_field act occupied_ports close_start
    stop_services terminate_each wait_each wait_one reversed check_ports_closed
    wait_for_ports_closed ports_loop
device_signalled = refl

start_signals_own_example : Did (is_signal 4) fresh ⊎ Did (is_spawn 4) (start_services bad fresh).1
start_signals_own_example = start_signals_own bad fresh 4 device_signalled

stop_services_sound_example :
    let h' = (stop_services good started fresh).1 in
    ((p : ℕ)
      → Did (is_signal p) h'
      → Did (is_signal p) fresh ⊎ (contains (pids_of started) p ≡ true))
    × ((p : ℕ) → Did (is_spawn p) h' → Did (is_spawn p) fresh)
    × ((stop_services good started fresh).0 ≢ raise timeout_expired → All (Stopped good h') started)
stop_services_sound_example = stop_services_sound good started fresh

waits_end_example :
    (health_loop good 200
        (service "device" 8200 4 "phase3-device.log" none)
        (0 + health_timeout)
        fresh
      ≡ wait_for_health good (service "device" 8200 4 "phase3-device.log" none) fresh)
    × (ports_loop good 200 (0 + port_close_timeout) fresh ≡ wait_for_ports_closed good fresh)
waits_end_example =
    waits_end good (service "device" 8200 4 "phase3-device.log" none) fresh 200 (omega arith)
