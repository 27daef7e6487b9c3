-- ===== src/Tests/Witness.antt =====
-- Witnesses of the physical witness policy.
use fixrepro.PhysicalWitness.Roomba.{
  RoombaWitnessConfig, Broker, loop_succeeds, not_private, disabled, signal_sent, post_init,
  ip_address, parse_octets, parse_octet, split_dots, digits_value, in_rfc1918, in_network,
  address_number, locate_payload, locate_once, execute_locate, publish_signal, wait_accepted,
}
use fixrepro.PhysicalWitness.Roomba.Safe.{
  IsSafe, post_init_iff, publications, connections, disconnect_calls, one_signal,
}
use fixrepro.Base.{◌≡◌, ◌↔◌, ◌⊎◌, ◌+◌, inr, refl, Bool, true, false, none, some, [], ◌∷◌}
use fixrepro.Verifier.Models.{EvidenceDocument, ExecutionEvidence, patch_verified}
use fixrepro.Verifier.Verdicts.Outcome.{IsRun, ShowsFix}
use fixrepro.PhysicalWitness.{WitnessPlan, plan_physical_witness, eligible_plan}
use fixrepro.PhysicalWitness.Plan.{IsBounded, HasContract, plan-IsBounded, eligible_iff}
use fixrepro.Tests.Verdicts.{v_run, p_run, c_run}

abbrev pub document : EvidenceDocument
document = record {
  schema_version = "1.0.0";
  verification_id = "VER-1";
  created_at = "s";
  test_case = record {
    case_id = "FR-001";
    title = "t";
    security_property = "p";
    positive_control_case_id = "FR-002";
  };
  executions = v_run ∷ p_run ∷ c_run ∷ [];
  verification_outcome = patch_verified;
  bundle_files = [];
}

plan-IsBounded_example :
    (plan : WitnessPlan) × (plan_physical_witness document ≡ some plan) × IsBounded plan
plan-IsBounded_example = plan-IsBounded document

eligible_iff_example : (plan_physical_witness document ≡ some eligible_plan) ↔ (
    (document.verification_outcome ≡ patch_verified)
    × (v p c : ExecutionEvidence) × IsRun v p c document.executions
    × ShowsFix v p c
    × HasContract v p c)
eligible_iff_example = eligible_iff document

abbrev approved : RoombaWitnessConfig
approved = record {
  enabled = true;
  host = "172.16.4.20";
  device_id = "device";
  local_password = "password";
  device_model = "Roomba s9+";
  timeout = 8000;
}

abbrev willing : Broker
willing = record {
  has_paho = true;
  connects = true;
  waiting = loop_succeeds false ∷ loop_succeeds true ∷ [];
  publishes = some true;
  last_loop_returns = true;
  disconnect_returns = false;
}

post_init_iff_example : (post_init (λ _. false) approved ≡ none) ↔ IsSafe approved
post_init_iff_example = post_init_iff (λ _. false) approved refl

-- Both sides hold for it.
approved_passes : post_init (λ _. false) approved ≡ none
unfolding post_init ip_address parse_octets parse_octet split_dots digits_value in_rfc1918
    in_network address_number
approved_passes = refl

public_fails : post_init (λ _. false) (record approved { host = "172.32.4.20" }) ≡ some not_private
unfolding post_init ip_address parse_octets parse_octet split_dots digits_value in_rfc1918
    in_network address_number
public_fails = refl

one_signal_example :
    let (result, es') = locate_once approved willing 1700000000 [] in
    ((publications es' ≡ []) ⊎ (publications es' ≡ ("cmd", locate_payload 1700000000) ∷ []))
    × (true ≡ false → (result ≡ inr disabled) × (es' ≡ []))
    × (result ≡ inr signal_sent → publications es' ≡ ("cmd", locate_payload 1700000000) ∷ [])
    × (disconnect_calls es' + connections [] ≡ disconnect_calls [] + connections es')
    × ((returns : Bool)
        → (locate_once approved (record willing { disconnect_returns = returns }) 1700000000 []).0
          ≡ result)
one_signal_example = one_signal approved willing 1700000000 []

signal_is_sent : (locate_once approved willing 1700000000 []).0 ≡ inr signal_sent
unfolding locate_once execute_locate publish_signal wait_accepted
signal_is_sent = refl
