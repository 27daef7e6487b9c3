-- ===== src/Tests/Verdicts.antt =====
-- Witnesses of the verdict engine and of the run in the lab.
use mathlib.Core.List.Perm
use fixrepro.Base.{ℕ, ◌≡◌, ◌↔◌, refl, String, some, [], ◌∷◌, All}
use fixrepro.Core.Errors.{Returns}
use fixrepro.Core.Evaluation.{evaluate_vulnerable_policy, evaluate_patched_policy}
use fixrepro.Device.{init}
use fixrepro.Verifier.Models.{
  ExecutionRole, vulnerable, patched, positive_control, ObservedDecision, accepted, rejected,
  SecurityVerdict, pass, fail, ExecutionEvidence, DeviceStateEvidence, ArtifactRecord,
  patch_verified, patch_not_verified, untrusted,
}
use fixrepro.Verifier.Verdicts.{
  calculate_individual_verdict, calculate_verification_outcome, evidence_consistency_failures,
  expected_secure,
}
use fixrepro.Verifier.Verdicts.Individual.{IsSecure, IsInsecure, verdict_iff, initial_state}
use fixrepro.Verifier.Verdicts.Outcome.{
  IsRun, ShowsFix, ShowsNoFix, outcome-perm, patch_verified_iff, patch_not_verified_iff,
}
use fixrepro.Verifier.Verdicts.Consistency.{IsConsistent, consistency_failures_iff}
use fixrepro.Verifier.Orchestrator.{Stamp, ScenarioCapture}
use fixrepro.Verifier.Orchestrator.Run.{
  IsDemonstration, run_with, lab_verifies_patch, lab_detects_unpatched,
}
use fixrepro.Tests.Toy.{
  toy, trusted_raw, untrusted_raw, trusted_package, untrusted_package, trusted_key, digest,
}
use fixrepro.Tests.Core.{
  parse_trusted, parse_untrusted, trusted-IsIntact, untrusted-IsIntact, trusted_signed, keys_differ,
}

abbrev execution :
    ExecutionRole
    → ObservedDecision
    → ℕ
    → String
    → DeviceStateEvidence
    → SecurityVerdict
    → ExecutionEvidence
execution role decision status reason after verdict = record {
  execution_id = "EX-1";
  role = role;
  build_id = "B";
  started_at = "s";
  finished_at = "f";
  package_evidence = record {
    filename = "packages/untrusted-update.json";
    sha256 = digest;
    envelope_sha256 = "e";
    signer_fingerprint = "k";
    signer_trust = untrusted;
  };
  request = record {
    method = "POST";
    path = "/api/v1/updates";
    content_type = "application/json";
    body_sha256 = "e";
  };
  response = record {
    http_status = status;
    decision = decision;
    reason_code = reason;
    body_sha256 = "r";
  };
  device_state_before = initial_state;
  device_state_after = after;
  secure_expected_decision = expected_secure role;
  observed_decision = decision;
  security_verdict = verdict;
  artifacts = [];
}

abbrev after_update : String → DeviceStateEvidence
after_update version = record {
  firmware_version = version;
  update_counter = 1;
  last_payload_sha256 = some digest;
}

abbrev pub v_run : ExecutionEvidence
v_run = execution vulnerable accepted 200 "CHECKSUM_ONLY_ACCEPTED" (after_update "9.9.0-test") fail

abbrev pub p_run : ExecutionEvidence
p_run = execution patched rejected 403 "UNTRUSTED_SIGNER" initial_state pass

-- Rejected for another reason than the signer.
abbrev p_malformed : ExecutionEvidence
p_malformed = execution patched rejected 400 "MALFORMED_PACKAGE" initial_state pass

abbrev pub c_run : ExecutionEvidence
c_run =
    execution positive_control accepted 200 "TRUSTED_SIGNATURE_ACCEPTED" (after_update "1.1.0") pass

verdict_iff_example :
    ((calculate_individual_verdict v_run ≡ pass) ↔ IsSecure v_run.role v_run)
    × ((calculate_individual_verdict v_run ≡ fail) ↔ IsInsecure v_run.role v_run)
verdict_iff_example = verdict_iff v_run

outcome-perm_example :
    calculate_verification_outcome (v_run ∷ p_run ∷ c_run ∷ [])
    ≡ calculate_verification_outcome (p_run ∷ v_run ∷ c_run ∷ [])
outcome-perm_example =
    outcome-perm (v_run ∷ p_run ∷ c_run ∷ []) (p_run ∷ v_run ∷ c_run ∷ [])
      (Perm.swap p_run v_run (c_run ∷ []))

patch_verified_iff_example :
    (calculate_verification_outcome (c_run ∷ v_run ∷ p_run ∷ []) ≡ some patch_verified)
    ↔ ((v p c : ExecutionEvidence) × IsRun v p c (c_run ∷ v_run ∷ p_run ∷ []) × ShowsFix v p c)
patch_verified_iff_example = patch_verified_iff (c_run ∷ v_run ∷ p_run ∷ [])

patch_not_verified_iff_example :
    (calculate_verification_outcome (v_run ∷ p_malformed ∷ c_run ∷ []) ≡ some patch_not_verified)
    ↔ ((v p c : ExecutionEvidence) × IsRun v p c (v_run ∷ p_malformed ∷ c_run ∷ [])
        × ShowsNoFix v p c)
patch_not_verified_iff_example = patch_not_verified_iff (v_run ∷ p_malformed ∷ c_run ∷ [])

consistency_failures_iff_example :
    (evidence_consistency_failures (v_run ∷ p_run ∷ []) ≡ [])
    ↔ All IsConsistent (v_run ∷ p_run ∷ [])
consistency_failures_iff_example = consistency_failures_iff (v_run ∷ p_run ∷ [])

abbrev stamp : String → Stamp
stamp id = record { execution_id = id; started_at = "s"; finished_at = "f" }

abbrev artifact : ScenarioCapture → ArtifactRecord
artifact _ = record {
  path = "raw/vulnerable.json";
  sha256 = digest;
  size_bytes = 1;
  media_type = "application/json";
}

demonstration :
    IsDemonstration toy trusted_key untrusted_raw trusted_raw untrusted_package trusted_package
demonstration = record {
  untrusted_parsed = parse_untrusted;
  untrusted_intact = untrusted-IsIntact;
  untrusted_fingerprint = refl;
  untrusted_signer = keys_differ;
  untrusted_firmware = refl;
  trusted_authentic = (parse_trusted, trusted-IsIntact, trusted_signed);
  trusted_firmware = refl;
}

lab_verifies_patch_example :
    Returns
      (run_with toy
        (λ _. [])
        artifact
        trusted_key
        untrusted_raw
        trusted_raw
        untrusted_package
        trusted_package
        demonstration
        (stamp "1")
        (stamp "2")
        (stamp "3")
        init
        (λ body. evaluate_patched_policy toy body trusted_key)).0
      (λ r. r.1 ≡ some patch_verified)
lab_verifies_patch_example =
    lab_verifies_patch toy (λ _. []) artifact trusted_key untrusted_raw trusted_raw
      untrusted_package trusted_package demonstration (stamp "1") (stamp "2") (stamp "3") init

lab_detects_unpatched_example :
    Returns
      (run_with toy
        (λ _. [])
        artifact
        trusted_key
        untrusted_raw
        trusted_raw
        untrusted_package
        trusted_package
        demonstration
        (stamp "1")
        (stamp "2")
        (stamp "3")
        init
        (evaluate_vulnerable_policy toy)).0
      (λ r. r.1 ≡ some patch_not_verified)
lab_detects_unpatched_example =
    lab_detects_unpatched toy (λ _. []) artifact trusted_key untrusted_raw trusted_raw
      untrusted_package trusted_package demonstration (stamp "1") (stamp "2") (stamp "3") init
