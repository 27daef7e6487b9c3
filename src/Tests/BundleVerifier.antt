-- ===== src/Tests/BundleVerifier.antt =====
-- Witnesses of the bundle verifier: a bundle whose evidence is the document `null`.
use fixrepro.Base.{
  ℕ, ◌≡◌, refl, String, Bool, true, false, Option, none, some, ◌==◌, string_eq, if◌then◌else◌, List,
  [], ◌∷◌, ◌++◌, map, Bytes, codes, nat_eq, list_eq,
}
use fixrepro.Core.Errors.{ok}
use fixrepro.Core.Json.{Fields, field, text, end}
use fixrepro.Verifier.Models.{
  ExecutionRole, vulnerable, patched, positive_control, ObservedDecision, accepted, rejected,
  SecurityVerdict, pass, fail, ExecutionEvidence, DeviceStateEvidence, ArtifactRecord,
  EvidenceDocument, patch_verified, trusted, untrusted, role_eq,
}
use fixrepro.Verifier.Verdicts.{expected_secure}
use fixrepro.Verifier.Verdicts.Individual.{initial_state}
use fixrepro.Verifier.Bundle.{RawScenarioRecord, decision_text}
use fixrepro.Verifier.BundleVerifier.{
  ManifestEntry, BundleManifest, Loaders, BundleDirectory, null_document, document, read_digest,
  manifest_digest_name,
}
use fixrepro.Verifier.BundleVerifier.Checks.{
  check_manifest, directory_failures, expected_evidence_artifacts,
}
use fixrepro.Verifier.BundleVerifier.Verify.{
  report_failures, verify_bundle, result_of, BundleVerificationResult,
}
use fixrepro.Verifier.BundleVerifier.Sound.{valid_without_outcome, IsBackedBy, valid_bundle-backed}
use fixrepro.Tests.Toy.{toy, digest, key_digest, trusted_raw, untrusted_raw, trusted_key}

abbrev null_text : Bytes
null_text = codes "null"

abbrev files : String → Option Bytes
files path =
    if path == "evidence.json"
    then some null_text
    else if path == "report.html"
    then some (codes "r")
    else if path == "manifest.json"
    then some (codes "m")
    else if path == "manifest.sha256"
    then some (codes digest ++ (codes "  manifest.json" ++ (10 ∷ [])))
    else none

abbrev null_bundle : BundleDirectory
null_bundle = record {
  is_dir = true;
  is_symlink = false;
  in_repository = true;
  found = "evidence.json" ∷ "manifest.json" ∷ "manifest.sha256" ∷ "report.html" ∷ [];
  linked_directories = [];
  linked_files = [];
  regular = files;
  read_bytes = files;
}

abbrev manifest : BundleManifest
manifest = record {
  schema_version = "1.0.0";
  files =
      record { path = "evidence.json"; sha256 = digest; size_bytes = 4 }
      ∷ record { path = "report.html"; sha256 = digest; size_bytes = 1 }
      ∷ [];
}

abbrev loaders : Loaders ℕ
loaders = record {
  load_manifest = λ _. some manifest;
  load_strict_json = λ _. null_document;
  schema_errors = λ _. some [];
  validate_evidence = λ _. none;
  validate_raw = λ _. none;
  load_public_key = λ _. none;
  nests_too_deeply = λ _. false;
}

-- The bundle verifies without an outcome.
null_bundle_valid :
    verify_bundle toy loaders false null_bundle ≡ ok (result_of [] none (some (codes digest)) 2)
unfolding verify_bundle fixrepro.Verifier.BundleVerifier.Verify.exceeds_nesting
    fixrepro.Verifier.BundleVerifier.Verify.verify_loaded
    fixrepro.Verifier.BundleVerifier.Checks.load_evidence directory_failures read_digest
    check_manifest fixrepro.Base.Text.is_hex
    fixrepro.Verifier.BundleVerifier.paths_are_unique_and_sorted
    fixrepro.Verifier.Paths.safe_relative_path fixrepro.Verifier.Paths.has_drive
    fixrepro.Verifier.Paths.components fixrepro.Verifier.Paths.split_slash
    fixrepro.Verifier.Paths.as_posix fixrepro.Verifier.BundleVerifier.without report_failures
null_bundle_valid = refl

valid_without_outcome_example :
    (raw : Bytes) × (files "evidence.json" ≡ some raw)
    × (loaders.load_strict_json raw ≡ null_document)
valid_without_outcome_example =
    valid_without_outcome toy loaders false null_bundle (result_of [] none (some (codes digest)) 2)
      null_bundle_valid refl refl

-- A bundle of the three runs.
abbrev run :
    ExecutionRole
    → String
    → String
    → String
    → ObservedDecision
    → ℕ
    → String
    → DeviceStateEvidence
    → SecurityVerdict
    → ExecutionEvidence
run role file raw id decision status reason after verdict = record {
  execution_id = id;
  role = role;
  build_id = "B";
  started_at = "s";
  finished_at = "f";
  package_evidence = record {
    filename = file;
    sha256 = digest;
    envelope_sha256 = digest;
    signer_fingerprint = key_digest;
    signer_trust = if role == positive_control then trusted else untrusted;
  };
  request = record {
    method = "POST";
    path = "/api/v1/updates";
    content_type = "application/json";
    body_sha256 = digest;
  };
  response = record {
    http_status = status;
    decision = decision;
    reason_code = reason;
    body_sha256 = digest;
  };
  device_state_before = initial_state;
  device_state_after = after;
  secure_expected_decision = expected_secure role;
  observed_decision = decision;
  security_verdict = verdict;
  artifacts =
      record { path = raw; sha256 = digest; size_bytes = 1; media_type = "application/json" } ∷ [];
}

abbrev after_update : String → DeviceStateEvidence
after_update version = record {
  firmware_version = version;
  update_counter = 1;
  last_payload_sha256 = some digest;
}

abbrev vulnerable_run : ExecutionEvidence
vulnerable_run =
    run vulnerable "packages/untrusted-update.json" "raw/vulnerable.json" "1" accepted 200
      "CHECKSUM_ONLY_ACCEPTED" (after_update "9.9.0-test") fail

abbrev patched_run : ExecutionEvidence
patched_run =
    run patched "packages/untrusted-update.json" "raw/patched.json" "2" rejected 403
      "UNTRUSTED_SIGNER" initial_state pass

abbrev control_run : ExecutionEvidence
control_run =
    run positive_control "packages/trusted-update.json" "raw/positive-control.json" "3" accepted 200
      "TRUSTED_SIGNATURE_ACCEPTED" (after_update "1.1.0") pass

abbrev record_of : ExecutionEvidence → RawScenarioRecord
record_of e = record {
  execution_id = e.execution_id;
  role = e.role;
  started_at = "s";
  finished_at = "f";
  reset_confirmed = true;
  request = e.request;
  gateway_response =
      field "decision" (text (decision_text e.observed_decision))
        (field "reason_code" (text e.response.reason_code) end);
  device_state_before = e.device_state_before;
  device_state_after = e.device_state_after;
}

abbrev artifact : String → ArtifactRecord
artifact path = record {
  path = path;
  sha256 = digest;
  size_bytes = 1;
  media_type = "application/json";
}

abbrev full_document : EvidenceDocument
full_document = record {
  schema_version = "1.0.0";
  verification_id = "VER-1";
  created_at = "s";
  test_case = record {
    case_id = "A";
    title = "t";
    security_property = "p";
    positive_control_case_id = "B";
  };
  executions = vulnerable_run ∷ patched_run ∷ control_run ∷ [];
  verification_outcome = patch_verified;
  bundle_files = map artifact expected_evidence_artifacts;
}

abbrev full_paths : List String
full_paths =
    "evidence.json" ∷ "packages/trusted-update.json" ∷ "packages/untrusted-update.json"
    ∷ "raw/patched.json" ∷ "raw/positive-control.json" ∷ "raw/vulnerable.json" ∷ "report.html"
    ∷ "run.log" ∷ "trust/trusted-public-key.pem" ∷ []

abbrev full_files : String → Option Bytes
full_files path =
    if path == "packages/trusted-update.json"
    then some trusted_raw
    else if path == "packages/untrusted-update.json"
    then some untrusted_raw
    else if path == "raw/vulnerable.json"
    then some (11 ∷ [])
    else if path == "raw/patched.json"
    then some (12 ∷ [])
    else if path == "raw/positive-control.json"
    then some (13 ∷ [])
    else if path == "manifest.sha256"
    then some (codes digest ++ (codes "  manifest.json" ++ (10 ∷ [])))
    else some (0 ∷ [])

abbrev full_bundle : BundleDirectory
full_bundle = record {
  is_dir = true;
  is_symlink = false;
  in_repository = true;
  found = "manifest.json" ∷ "manifest.sha256" ∷ full_paths;
  linked_directories = [];
  linked_files = [];
  regular = full_files;
  read_bytes = full_files;
}

abbrev entry : String → ManifestEntry
entry path = record { path = path; sha256 = digest; size_bytes = 1 }

abbrev full_loaders : Loaders ℕ
full_loaders = record {
  load_manifest = λ _. some record { schema_version = "1.0.0"; files = map entry full_paths };
  load_strict_json = λ _. document 0;
  schema_errors = λ _. some [];
  validate_evidence = λ _. some full_document;
  validate_raw = λ raw.
      if raw == 11 ∷ []
      then some (record_of vulnerable_run)
      else if raw == 12 ∷ []
      then some (record_of patched_run)
      else some (record_of control_run);
  load_public_key = λ _. some trusted_key;
  nests_too_deeply = λ _. false;
}

full_bundle_valid :
    verify_bundle toy full_loaders false full_bundle
    ≡ ok (result_of [] (some patch_verified) (some (codes digest)) 9)
unfolding fixrepro.Verifier.BundleVerifier.universal_newlines
    fixrepro.Verifier.BundleVerifier.digest_group fixrepro.Verifier.BundleVerifier.read_digest
    fixrepro.Verifier.BundleVerifier.codes_leb fixrepro.Verifier.BundleVerifier.insert_text
    fixrepro.Verifier.BundleVerifier.sorted fixrepro.Verifier.BundleVerifier.unique
    fixrepro.Verifier.BundleVerifier.paths_are_unique_and_sorted
    fixrepro.Verifier.BundleVerifier.without
    fixrepro.Verifier.BundleVerifier.Checks.directory_failures
    fixrepro.Verifier.BundleVerifier.Checks.is_listed
    fixrepro.Verifier.BundleVerifier.Checks.listed_paths
    fixrepro.Verifier.BundleVerifier.Checks.layout_failures
    fixrepro.Verifier.BundleVerifier.Checks.digest_matches
    fixrepro.Verifier.BundleVerifier.Checks.entry_failures
    fixrepro.Verifier.BundleVerifier.Checks.all_entry_failures
    fixrepro.Verifier.BundleVerifier.Checks.check_manifest
    fixrepro.Verifier.BundleVerifier.Checks.schema_failures
    fixrepro.Verifier.BundleVerifier.Checks.load_evidence
    fixrepro.Verifier.BundleVerifier.Checks.first_of
    fixrepro.Verifier.BundleVerifier.Checks.input_failures
    fixrepro.Verifier.BundleVerifier.Checks.has_seven_artifacts
    fixrepro.Verifier.BundleVerifier.Checks.trust_failures
    fixrepro.Verifier.BundleVerifier.Verify.read_package
    fixrepro.Verifier.BundleVerifier.Verify.untrusted_key_failures
    fixrepro.Verifier.BundleVerifier.Verify.trusted_key_failures
    fixrepro.Verifier.BundleVerifier.Verify.key_failures
    fixrepro.Verifier.BundleVerifier.Verify.artifact_failures
    fixrepro.Verifier.BundleVerifier.Verify.execution_file_failures
    fixrepro.Verifier.BundleVerifier.Verify.document_failures
    fixrepro.Verifier.BundleVerifier.Verify.evidence_failures
    fixrepro.Verifier.BundleVerifier.Verify.report_failures
    fixrepro.Verifier.BundleVerifier.Verify.verify_loaded
    fixrepro.Verifier.BundleVerifier.Verify.exceeds_nesting
    fixrepro.Verifier.BundleVerifier.Verify.verify_bundle
    fixrepro.Verifier.Bundle.package_mismatches fixrepro.Verifier.Bundle.parse_checked
    fixrepro.Verifier.Bundle.package_content fixrepro.Verifier.Bundle.artifact_content
    fixrepro.Verifier.Bundle.record_failures fixrepro.Verifier.Bundle.package_record_failures
    fixrepro.Verifier.Bundle.expected_raw_path fixrepro.Verifier.Bundle.raw_checks
    fixrepro.Verifier.Bundle.raw_mismatches fixrepro.Verifier.Bundle.references
    fixrepro.Verifier.Bundle.read_raw fixrepro.Verifier.Bundle.raw_record_failures
    fixrepro.Verifier.Paths.has_drive fixrepro.Verifier.Paths.split_slash
    fixrepro.Verifier.Paths.components fixrepro.Verifier.Paths.join_slash
    fixrepro.Verifier.Paths.as_posix fixrepro.Verifier.Paths.check_parts
    fixrepro.Verifier.Paths.safe_relative_path fixrepro.Verifier.Verdicts.is_initial
    fixrepro.Verifier.Verdicts.is_unchanged fixrepro.Verifier.Verdicts.is_applied
    fixrepro.Verifier.Verdicts.response_is_coherent fixrepro.Verifier.Verdicts.role_verdict
    fixrepro.Verifier.Verdicts.calculate_individual_verdict
    fixrepro.Verifier.Verdicts.baseline_reproduced fixrepro.Verifier.Verdicts.patched_rejected
    fixrepro.Verifier.Verdicts.positive_control_passed fixrepro.Verifier.Verdicts.count_role
    fixrepro.Verifier.Verdicts.by_role fixrepro.Verifier.Verdicts.is_inconclusive
    fixrepro.Verifier.Verdicts.combine fixrepro.Verifier.Verdicts.calculate_verification_outcome
    fixrepro.Verifier.Verdicts.execution_failures
    fixrepro.Verifier.Verdicts.evidence_consistency_failures fixrepro.Core.Package.strict_b64decode
    fixrepro.Core.Package.parse_package_bytes fixrepro.Core.Package.decode_package
    fixrepro.Core.Package.parse_and_decode_package fixrepro.Core.Package.verify_payload_integrity
    fixrepro.Core.Package.signer_fingerprint fixrepro.Core.Package.verify_manifest_signature
    fixrepro.Core.Models.within fixrepro.Core.Models.non_empty fixrepro.Core.Models.manifest_valid
    fixrepro.Core.Models.envelope_valid fixrepro.Core.Models.read_manifest
    fixrepro.Core.Models.validate_manifest fixrepro.Core.Models.validate_envelope
    fixrepro.Core.Models.state_valid fixrepro.Core.Json.get_field fixrepro.Core.Json.no_extra
    fixrepro.Core.Json.get_text fixrepro.Core.Json.get_nat fixrepro.Base.Text.count_chars
    fixrepro.Base.Text.is_hex fixrepro.Base.Text.is_sha256
    fixrepro.Verifier.Models.one_execution_per_role
full_bundle_valid = refl

valid_bundle-backed_example :
    (raw : Bytes) × (d : EvidenceDocument) × IsBackedBy toy full_loaders full_bundle patch_verified
      raw d
valid_bundle-backed_example =
    valid_bundle-backed toy full_loaders false full_bundle
      (result_of [] (some patch_verified) (some (codes digest)) 9) patch_verified full_bundle_valid
      refl refl
