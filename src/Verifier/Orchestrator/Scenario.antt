-- ===== src/Verifier/Orchestrator/Scenario.antt =====
-- One scenario in the lab, and the evidence that an accepted and a rejected package leave.
use mathlib.Core.List.Permᴰ
use fixrepro.Base.{
  ℕ, ◌≡◌, inr, refl, ap, String, some, nat_eq, arith, List, [], ◌∷◌, Bytes, ==_refl,
}
use fixrepro.Core.Errors.{Result, ok}
use fixrepro.Core.Primitives.{Primitives}
use fixrepro.Core.Models.{DeviceState}
use fixrepro.Core.Package.{DecodedPackage}
use fixrepro.Core.Evaluation.{
  GatewayRole, PolicyResult, Decision, ReasonCode, package_result, evaluate_vulnerable_policy,
  reason_value,
}
use fixrepro.Core.Gateway.{dump_of, GatewayResponse, make_response, process_gateway_update}
use fixrepro.Core.Gateway.Safety.{device_endpoint, IsValid, init-IsValid, updated}
use fixrepro.Device
use fixrepro.Device.{VirtualDevice, snapshot}
use fixrepro.Verifier.Models.{
  ExecutionRole, ObservedDecision, ArtifactRecord, ExecutionEvidence, patch_verified, state_eq,
}
use fixrepro.Verifier.Verdicts.{calculate_verification_outcome}
use fixrepro.Verifier.Verdicts.Individual.{IsAppliedRun, IsBlockedRun}
use fixrepro.Verifier.Verdicts.Outcome.{IsRun, ShowsFix, patch_verified_iff}
use fixrepro.Verifier.Orchestrator.{
  ScenarioDefinition, Stamp, ScenarioCapture, Client, reply, device_state, parse_device_response,
  observed, conflicts, observe, make_capture, finish_scenario, execute_scenario, execute_all,
  assert_running, execution_from_capture,
}
use fixrepro.Verifier.Orchestrator.Lab.{http_answer, serve_update, lab}

pub in_order :
    (v p c : ExecutionEvidence)
    → v.role ≡ ExecutionRole.vulnerable
    → p.role ≡ ExecutionRole.patched
    → c.role ≡ ExecutionRole.positive_control
    → IsRun v p c (v ∷ p ∷ c ∷ [])
in_order v p c rv rp rc = record { order = Permᴰ.refl _; first = rv; second = rp; third = rc }

pub fix_shown :
    (v p c : ExecutionEvidence)
    → v.role ≡ ExecutionRole.vulnerable
    → p.role ≡ ExecutionRole.patched
    → c.role ≡ ExecutionRole.positive_control
    → ShowsFix v p c
    → calculate_verification_outcome (v ∷ p ∷ c ∷ []) ≡ some patch_verified
fix_shown v p c rv rp rc shows =
    (patch_verified_iff (v ∷ p ∷ c ∷ [])).1 (v, p, c, in_order v p c rv rp rc, shows)

-- Two recorded states that are the seen ones.
pub observe_same :
    (role : GatewayRole) (r : PolicyResult) (before after : DeviceState)
    → observe
        (some (make_response role r (dump_of before) (dump_of after)))
        (device_state before)
        (device_state after)
      ≡ (observed r.decision, reason_value r.reason_code)
unfolding observe conflicts make_response
observe_same role r before after =
    rw (==_refl (device_state before)) (rw (==_refl (device_state after)) refl)

-- The gateway's answers to an accepted and to a rejected package on a device that was just reset.
abbrev pub applied_response : GatewayRole → DecodedPackage → ReasonCode → GatewayResponse
applied_response role p reason =
    make_response role (package_result Decision.accepted reason p) (dump_of (snapshot Device.init))
      (dump_of (snapshot (updated p Device.init)))

abbrev pub blocked_response : GatewayRole → DecodedPackage → ReasonCode → GatewayResponse
blocked_response role p reason =
    make_response role (package_result Decision.rejected reason p) (dump_of (snapshot Device.init))
      (dump_of (snapshot Device.init))

module _ (prim : Primitives) (definition : ScenarioDefinition) (stamp : Stamp) (content : Bytes)
    (role : GatewayRole) (p : DecodedPackage) (reason : ReasonCode) where
  abbrev pub applied_capture : ScenarioCapture
  applied_capture =
      make_capture prim definition stamp (device_state (snapshot Device.init)) 200 content
        (some (applied_response role p reason)) (device_state (snapshot (updated p Device.init)))

  abbrev pub blocked_capture : ScenarioCapture
  blocked_capture =
      make_capture prim definition stamp (device_state (snapshot Device.init)) 403 content
        (some (blocked_response role p reason)) (device_state (snapshot Device.init))

module _ (prim : Primitives) (artifact : ArtifactRecord) (definition : ScenarioDefinition)
    (stamp : Stamp) (content : Bytes) (role : GatewayRole) (p : DecodedPackage)
    (reason : ReasonCode) where
  -- The evidence of an accepted update.
  abbrev pub applied_evidence : ExecutionEvidence
  applied_evidence =
      execution_from_capture prim artifact
        (applied_capture prim definition stamp content role p reason)

  pub applied_evidence-shows :
      (version : String)
      → definition.decoded ≡ p
      → p.envelope.manifest.firmware_version ≡ version
      → IsAppliedRun version applied_evidence
        × (applied_evidence.response.reason_code ≡ reason_value reason)
  unfolding execution_from_capture make_capture package_result observed device_state snapshot
      Device.apply
  applied_evidence-shows version same is_version =
      let o =
        observe_same role (package_result Decision.accepted reason p) (snapshot Device.init)
          (snapshot (updated p Device.init)) in
      (
        record {
          observed = ap (λ (x : ObservedDecision × String). x.0) o;
          decision = ap (λ (x : ObservedDecision × String). x.0) o;
          status = refl;
          sent = refl;
          before = refl;
          after = rw (same, is_version) refl;
        },
        ap (λ (x : ObservedDecision × String). x.1) o,
      )

  -- The evidence of an update that was rejected as UNTRUSTED_SIGNER.
  abbrev pub blocked_evidence : ExecutionEvidence
  blocked_evidence =
      execution_from_capture prim artifact
        (blocked_capture prim definition stamp content role p reason)

  pub blocked_evidence-shows :
      IsBlockedRun blocked_evidence × (blocked_evidence.response.reason_code ≡ reason_value reason)
  unfolding execution_from_capture make_capture package_result observed device_state snapshot
  blocked_evidence-shows =
      let o =
        observe_same role (package_result Decision.rejected reason p) (snapshot Device.init)
          (snapshot Device.init) in
      (
        record {
          observed = ap (λ (x : ObservedDecision × String). x.0) o;
          decision = ap (λ (x : ObservedDecision × String). x.0) o;
          status = inr refl;
          sent = refl;
          before = refl;
          after = refl;
        },
        ap (λ (x : ObservedDecision × String). x.1) o,
      )

module _ (prim : Primitives) (dump : GatewayResponse → Bytes)
    (patched_policy : Bytes → Result PolicyResult) where
  abbrev pub the_lab : Client VirtualDevice
  the_lab = lab prim dump patched_policy

  -- A scenario resets the device, sends the package and reads the device again.
  pub lab_scenario :
      (definition : ScenarioDefinition) (stamp : Stamp) (d d' : VirtualDevice) (status : ℕ)
      (g : GatewayResponse)
      → serve_update prim dump patched_policy definition.gateway_port definition.package_bytes
          Device.init
        ≡ (reply status (dump g) (some g), d')
      → IsValid d'
      → execute_scenario prim the_lab definition stamp d ≡ (
        ok (
            make_capture prim definition stamp
              (device_state (snapshot Device.init))
              status
              (dump g)
              (some g)
              (device_state (snapshot d'))),
        d',
      )
  unfolding execute_scenario finish_scenario parse_device_response lab Device.state Device.reset
  lab_scenario definition stamp d d' status g sent valid =
      rw init-IsValid (rw (sent, finish_scenario) (rw valid refl))

  -- One step of the loop in the lab.
  pub execute_all-cons :
      (a : ScenarioDefinition) (sa : Stamp) (rest : List (ScenarioDefinition × Stamp))
      (d da dz : VirtualDevice) (ca : ScenarioCapture) (cs : List ScenarioCapture)
      → execute_scenario prim the_lab a sa d ≡ (ok ca, da)
      → execute_all prim the_lab rest da ≡ (ok cs, dz)
      → execute_all prim the_lab ((a, sa) ∷ rest) d ≡ (ok (ca ∷ cs), dz)
  unfolding execute_all assert_running lab
  execute_all-cons a sa rest d da dz ca cs ea er = ground arith

  pub execute_all-nil : (d : VirtualDevice) → execute_all prim the_lab [] d ≡ (ok [], d)
  unfolding execute_all assert_running lab
  execute_all-nil d = refl

  pub serve_vulnerable :
      (raw : Bytes) (d d' : VirtualDevice) (status : ℕ) (g : GatewayResponse)
      → process_gateway_update device_endpoint raw GatewayRole.vulnerable
          (evaluate_vulnerable_policy prim)
          d
        ≡ (ok (status, g), d')
      → serve_update prim dump patched_policy 8101 raw d ≡ (reply status (dump g) (some g), d')
  unfolding serve_update http_answer
  serve_vulnerable raw d d' status g h = rw h refl

  pub serve_patched :
      (raw : Bytes) (d d' : VirtualDevice) (status : ℕ) (g : GatewayResponse)
      → process_gateway_update device_endpoint raw GatewayRole.patched patched_policy d
        ≡ (ok (status, g), d')
      → serve_update prim dump patched_policy 8102 raw d ≡ (reply status (dump g) (some g), d')
  unfolding serve_update http_answer
  serve_patched raw d d' status g h = rw h refl
