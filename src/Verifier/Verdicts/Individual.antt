-- ===== src/Verifier/Verdicts/Individual.antt =====
-- What a verdict of one execution means, without the code's order of tests.
use fixrepro.Base.{
  ◌+◌, ◌≡◌, ◌↔◌, ◌⊎◌, String, true, none, some, nat_eq, string_eq, option_eq, option_beq_iff,
  eq_iff, arith,
}
use fixrepro.Verifier.Models.{
  ExecutionRole, vulnerable, patched, positive_control, accepted, rejected, pass, fail,
  ExecutionEvidence, DeviceStateEvidence, role_eq, decision_eq, verdict_eq, state_eq, state_beq_iff,
}
use fixrepro.Verifier.Verdicts.{
  initial_version, untrusted_version, trusted_version, is_initial, is_unchanged, is_applied,
  response_is_coherent, role_verdict, calculate_individual_verdict,
}

abbrev pub initial_state : DeviceStateEvidence
initial_state = record {
  firmware_version = initial_version;
  update_counter = 0;
  last_payload_sha256 = none;
}

-- The update was accepted and applied to a device in its initial state.
pub record IsAppliedRun (version : String) (e : ExecutionEvidence) : Type 0 where
  pub observed : e.observed_decision ≡ accepted
  pub decision : e.response.decision ≡ accepted
  pub status : e.response.http_status ≡ 200
  pub sent : e.package_evidence.envelope_sha256 ≡ e.request.body_sha256
  pub before : e.device_state_before ≡ initial_state
  pub after : e.device_state_after ≡ record {
    firmware_version = version;
    update_counter = 1;
    last_payload_sha256 = some e.package_evidence.sha256;
  }

-- The update was rejected, and the device stayed in its initial state.
pub record IsBlockedRun (e : ExecutionEvidence) : Type 0 where
  pub observed : e.observed_decision ≡ rejected
  pub decision : e.response.decision ≡ rejected
  pub status : (e.response.http_status ≡ 400) ⊎ (e.response.http_status ≡ 403)
  pub sent : e.package_evidence.envelope_sha256 ≡ e.request.body_sha256
  pub before : e.device_state_before ≡ initial_state
  pub after : e.device_state_after ≡ initial_state

-- What an execution of a role has to show to be secure, and what shows that it is not.
abbrev pub IsSecure : ExecutionRole → ExecutionEvidence → Type 0
IsSecure vulnerable e = IsBlockedRun e
IsSecure patched e = IsBlockedRun e
IsSecure positive_control e = IsAppliedRun trusted_version e

abbrev pub IsInsecure : ExecutionRole → ExecutionEvidence → Type 0
IsInsecure vulnerable e = IsAppliedRun untrusted_version e
IsInsecure patched e = IsAppliedRun untrusted_version e
IsInsecure positive_control e = IsBlockedRun e

pub is_initial_iff :
    (e : ExecutionEvidence) → (is_initial e ≡ true) ↔ (e.device_state_before ≡ initial_state)
unfolding is_initial
is_initial_iff e = ground (arith, eq_iff e.device_state_before.firmware_version initial_version)

pub is_unchanged_iff :
    (e : ExecutionEvidence)
    → (is_unchanged e ≡ true) ↔ (e.device_state_after ≡ e.device_state_before)
unfolding is_unchanged
is_unchanged_iff e = state_beq_iff e.device_state_after e.device_state_before

pub is_applied_iff :
    (e : ExecutionEvidence) (version : String)
    → (is_applied e version ≡ true) ↔ (
        (e.device_state_before ≡ initial_state)
        × (e.device_state_after ≡ record {
          firmware_version = version;
          update_counter = 1;
          last_payload_sha256 = some e.package_evidence.sha256;
        }))
unfolding is_applied
is_applied_iff e version = ground (
  arith,
  is_initial_iff e,
  eq_iff e.device_state_after.firmware_version version,
  option_beq_iff e.device_state_after.last_payload_sha256 (some e.package_evidence.sha256),
)

pub coherent_iff :
    (e : ExecutionEvidence)
    → (response_is_coherent e ≡ true) ↔ (
        (e.observed_decision ≡ e.response.decision)
        × (e.package_evidence.envelope_sha256 ≡ e.request.body_sha256)
        × (((e.response.decision ≡ accepted)
              × (e.response.http_status ≡ 200)
              × (e.device_state_after.update_counter ≡ e.device_state_before.update_counter + 1))
            ⊎ ((e.response.decision ≡ rejected)
                × ((e.response.http_status ≡ 400) ⊎ (e.response.http_status ≡ 403))
                × (is_unchanged e ≡ true))))
unfolding response_is_coherent
coherent_iff e = ground (arith, eq_iff e.package_evidence.envelope_sha256 e.request.body_sha256)

pub AppliedRun_iff :
    (e : ExecutionEvidence) (version : String)
    → ((e.observed_decision ≡ accepted)
        × (response_is_coherent e ≡ true)
        × (is_applied e version ≡ true))
      ↔ IsAppliedRun version e
AppliedRun_iff e version = ground (arith, coherent_iff e, is_applied_iff e version)

pub BlockedRun_iff :
    (e : ExecutionEvidence)
    → ((e.observed_decision ≡ rejected)
        × (is_initial e ≡ true)
        × (response_is_coherent e ≡ true)
        × (is_unchanged e ≡ true))
      ↔ IsBlockedRun e
BlockedRun_iff e = ground (arith, coherent_iff e, is_initial_iff e, is_unchanged_iff e)

-- An execution passes exactly if it is secure for its role, and fails exactly if it shows the
-- insecure behaviour: the vulnerable and the patched build must block the update, and the positive
-- control must apply the trusted one. Everything else is inconclusive.
pub verdict_iff :
    (e : ExecutionEvidence)
    → ((calculate_individual_verdict e ≡ pass) ↔ IsSecure e.role e)
      × ((calculate_individual_verdict e ≡ fail) ↔ IsInsecure e.role e)
unfolding calculate_individual_verdict role_verdict
verdict_iff e = ground (
  arith,
  BlockedRun_iff e,
  AppliedRun_iff e untrusted_version,
  AppliedRun_iff e trusted_version,
  is_initial_iff e,
  is_applied_iff e untrusted_version,
  is_applied_iff e trusted_version,
)
