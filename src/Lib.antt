-- ===== src/Lib.antt =====
-- FixRepro: a lab that reproduces a firmware-update vulnerability and verifies its fix.
--
-- A signed update package (fixrepro_core/) is sent to one of two gateways (targets/). The vulnerable
-- gateway accepts a package whose payload has the right checksum; the patched one also asks for the
-- trusted signer. What a gateway accepts it applies to a virtual device (device/). The verifier
-- (verifier/) resets the device, sends an untrusted package to both gateways and a trusted one to the
-- patched gateway, records what it sees as evidence, and calculates verdicts and an outcome from it.
-- The dashboard (app/) runs one verification at a time; an optional physical signal
-- (physical_witness/) is planned from the evidence and never changes it.
--
-- Which file models what:
--   Base                    shared names, tests and lemmas; no code of the repository
--   Core/Errors             the exceptions as values, and the result monad
--   Core/Json, Primitives   the parsed JSON tree, and what the code takes from libraries
--   Core/Models             fixrepro_core/models.py: Manifest, PackageEnvelope, DeviceState
--   Core/Canonical          fixrepro_core/package.py: canonical_manifest_bytes
--   Core/Package            fixrepro_core/package.py and crypto.py: parse, decode, integrity, signatures
--   Core/Evaluation         fixrepro_core/evaluation.py: the two policies and the HTTP status
--   Core/Artifacts          fixrepro_core/artifacts.py: the packages of a demonstration
--   Core/Config             fixrepro_core/config.py: require_local_device_url
--   Core/DeviceClient       fixrepro_core/device_client.py over an endpoint interface
--   Core/Gateway            fixrepro_core/gateway.py: process_gateway_update
--   Device                  device/state.py, device/app.py: the state, the lock and the routes
--   Verifier/Models         verifier/models.py: the evidence records
--   Verifier/Verdicts       verifier/verdicts.py: verdicts, outcome, consistency failures
--   Verifier/Orchestrator   verifier/orchestrator.py: one scenario and the run of the three
--   Verifier/Orchestrator/Demo  verifier/orchestrator.py: from the generated artifacts to the outcome
--   Verifier/Orchestrator/Finish  verifier/orchestrator.py: checks before a run and around publishing
--   Verifier/Orchestrator/Session  verifier/orchestrator.py: the services around the scenarios
--   Verifier/Orchestrator/Staged  verifier/orchestrator.py: the raw record of a capture
--   Verifier/Orchestrator/Output  verifier/orchestrator.py: resolve_output_directory
--   Verifier/Orchestrator/Lab   targets/vulnerable/app.py and targets/patched/app.py on their ports
--   Verifier/Paths          verifier/bundle.py: _safe_relative_path
--   Verifier/Bundle         verifier/bundle.py: the checks of artifact, package and raw records
--   Verifier/BundleVerifier verifier/bundle.py: verify_bundle, part by part
--   Verifier/Processes      verifier/processes.py: starting, watching and stopping the services
--   Verifier/Manifest       verifier/bundle.py: write_manifest
--   Verifier/Publish        verifier/bundle.py: publish_directory
--   Verifier/Report         verifier/report.py: the report page, its cells escaped
--   App/Jobs                app/jobs.py: the job manager, a state machine
--   App/Presentation        app/presentation.py: the registry, the guard and what is shown of a bundle
--   App/Dashboard           app/main.py and app/security.py: the routes and the headers
--   Targets                 targets/vulnerable/app.py and targets/patched/app.py: the update routes
--   PhysicalWitness         physical_witness/policy.py: the plan of a physical signal
--   PhysicalWitness/Roomba  physical_witness/roomba.py: the configuration and the Locate action
--   PhysicalWitness/Live    scripts/roomba_witness.py: the live plan and the command
--   Scripts                 scripts/: exit codes and arguments of the other commands
--
-- A child module named for what it proves (Core/Gateway/Safety, Verifier/Verdicts/Outcome) holds the
-- theorems of its parent; Tests holds concrete inputs on which the theorems are applied.
--
-- State and effects. A call that the code makes over HTTP is an operation of an interface over a
-- world W (Core/DeviceClient.Endpoint, Verifier/Orchestrator.Client), passed from call to call in the
-- order of the source; Core/Gateway/Safety.device_endpoint and Verifier/Orchestrator/Lab.lab implement
-- them by the virtual device, whose lock makes each request one step. An exception is a value of
-- PyError, and `except` is a match that lets the other exceptions through.
--
-- Numbers. Python's integers are unbounded; those of the models are natural numbers, and an integer
-- field that the models require to be positive or non-negative is one where the parsed tree gives it.
-- Texts are sequences of code points. The decimal digits of a number are produced with fuel n + 1,
-- which is more than the number of digits of n. The two waiting loops of the processes have fuel 100
-- and 50: rounds of 150 ms in 15 s and of 100 ms in 5 s, so the clock ends them first.
-- The loop over the parents of an output directory has as fuel one more than the number of its parts:
-- it ends at the repository at the latest.
--
-- Parameters. SHA-256, base64, Ed25519, json.loads and urlparse are arguments (Core/Primitives,
-- Core/Config); json.loads also has the outcomes that the code does not catch, an integer with too
-- many digits and too deep a nesting; the second one is also an outcome of every reply and file
-- that is read by it. The URL of the device is a field of the Endpoint, as urlparse gives it. The
-- policies assume no law of the cryptography: authenticity is that the signature check succeeds.
-- What creating a package relies on (Core/Artifacts/Generated.IsLibrary) is that base64
-- round-trips, that digests, keys and signatures have their form, and that a signature verifies
-- under its own key. The operating system (Verifier/Processes.OperatingSystem) is a record of
-- answers, each of which may depend on all that happened before; the loop calls of the MQTT client
-- until its deadline are a list of answers (PhysicalWitness/Roomba.Broker). Clocks, identifiers and
-- file hashes of a run are arguments of the orchestrator. What paths resolve to and which are links
-- is asked of a FileSystem (Verifier/Orchestrator/Output); what a signal takes and whether it
-- fails, of the Surroundings (PhysicalWitness/Live). The bundle verifier takes the directory as a
-- record of what the code asks of it (BundleDirectory), and JSON loading, the pydantic models, the
-- schema validator and PEM keys as functions (Loaders); which of its renames and removals succeed
-- is an argument of publish_directory. What a job's run gives, and whether its thread starts, are
-- arguments of the job manager.
--
-- Not modelled: key generation and key files, the web pages and their JavaScript, loading the
-- protected credentials of the physical witness, what the scripts print, and the repository's validators.
pub mod Base
pub mod Core
pub mod Device
pub mod Targets
pub mod Verifier
pub mod App
pub mod PhysicalWitness
pub mod Scripts
mod Tests
