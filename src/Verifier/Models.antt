-- ===== src/Verifier/Models.antt =====
-- verifier/models.py: the evidence records and their validators. Timestamps and identifiers are texts;
-- the patterns of single fields are not modelled.
use fixrepro.Base.{
  ℕ, ◌≡◌, ◌↔◌, String, Bool, true, Option, ◌==◌, PyEq, nat_eq, string_eq, option_eq, option_beq_iff,
  eq_iff, ◌&&◌, List, map, contains, length, arith,
}

pub data ExecutionRole : Type 0 where
  vulnerable patched positive_control : ExecutionRole

pub data ObservedDecision : Type 0 where
  accepted rejected error : ObservedDecision

pub data SecurityVerdict : Type 0 where
  pass fail inconclusive : SecurityVerdict

pub data VerificationOutcome : Type 0 where
  patch_verified patch_not_verified inconclusive : VerificationOutcome

pub data SignerTrust : Type 0 where
  trusted untrusted : SignerTrust

-- Equality of enum members.
abbrev pub role_tag : ExecutionRole → ℕ
role_tag vulnerable = 0
role_tag patched = 1
role_tag positive_control = 2

abbrev pub decision_tag : ObservedDecision → ℕ
decision_tag accepted = 0
decision_tag rejected = 1
decision_tag error = 2

abbrev pub verdict_tag : SecurityVerdict → ℕ
verdict_tag pass = 0
verdict_tag fail = 1
verdict_tag SecurityVerdict.inconclusive = 2

abbrev pub outcome_tag : VerificationOutcome → ℕ
outcome_tag patch_verified = 0
outcome_tag patch_not_verified = 1
outcome_tag VerificationOutcome.inconclusive = 2

abbrev pub trust_tag : SignerTrust → ℕ
trust_tag trusted = 0
trust_tag untrusted = 1

pub role_beq_iff : (a b : ExecutionRole) → ((role_tag a == role_tag b) ≡ true) ↔ (a ≡ b)
role_beq_iff a b = ground arith

pub decision_beq_iff :
    (a b : ObservedDecision) → ((decision_tag a == decision_tag b) ≡ true) ↔ (a ≡ b)
decision_beq_iff a b = ground arith

pub verdict_beq_iff : (a b : SecurityVerdict) → ((verdict_tag a == verdict_tag b) ≡ true) ↔ (a ≡ b)
verdict_beq_iff a b = ground arith

pub outcome_beq_iff :
    (a b : VerificationOutcome) → ((outcome_tag a == outcome_tag b) ≡ true) ↔ (a ≡ b)
outcome_beq_iff a b = ground arith

pub trust_beq_iff : (a b : SignerTrust) → ((trust_tag a == trust_tag b) ≡ true) ↔ (a ≡ b)
trust_beq_iff a b = ground arith

instance abbrev pub role_eq : PyEq ExecutionRole
role_eq = record { beq = λ a b. role_tag a == role_tag b; beq_iff = role_beq_iff }

instance abbrev pub decision_eq : PyEq ObservedDecision
decision_eq = record { beq = λ a b. decision_tag a == decision_tag b; beq_iff = decision_beq_iff }

instance abbrev pub verdict_eq : PyEq SecurityVerdict
verdict_eq = record { beq = λ a b. verdict_tag a == verdict_tag b; beq_iff = verdict_beq_iff }

instance abbrev pub outcome_eq : PyEq VerificationOutcome
outcome_eq = record { beq = λ a b. outcome_tag a == outcome_tag b; beq_iff = outcome_beq_iff }

instance abbrev pub trust_eq : PyEq SignerTrust
trust_eq = record { beq = λ a b. trust_tag a == trust_tag b; beq_iff = trust_beq_iff }

pub record PackageEvidence : Type 0 where
  pub filename : String
  pub sha256 : String
  pub envelope_sha256 : String
  pub signer_fingerprint : String
  pub signer_trust : SignerTrust

pub record RequestEvidence : Type 0 where
  pub method : String
  pub path : String
  pub content_type : String
  pub body_sha256 : String

pub record ResponseEvidence : Type 0 where
  pub http_status : ℕ
  pub decision : ObservedDecision
  pub reason_code : String
  pub body_sha256 : String

pub record DeviceStateEvidence : Type 0 where
  pub firmware_version : String
  pub update_counter : ℕ
  pub last_payload_sha256 : Option String

pub record ArtifactRecord : Type 0 where
  pub path : String
  pub sha256 : String
  pub size_bytes : ℕ
  pub media_type : String

pub record ExecutionEvidence : Type 0 where
  pub execution_id : String
  pub role : ExecutionRole
  pub build_id : String
  pub started_at : String
  pub finished_at : String
  pub package_evidence : PackageEvidence
  pub request : RequestEvidence
  pub response : ResponseEvidence
  pub device_state_before : DeviceStateEvidence
  pub device_state_after : DeviceStateEvidence
  pub secure_expected_decision : ObservedDecision
  pub observed_decision : ObservedDecision
  pub security_verdict : SecurityVerdict
  pub artifacts : List ArtifactRecord

pub record TestCaseEvidence : Type 0 where
  pub case_id : String
  pub title : String
  pub security_property : String
  pub positive_control_case_id : String

pub record EvidenceDocument : Type 0 where
  pub schema_version : String
  pub verification_id : String
  pub created_at : String
  pub test_case : TestCaseEvidence
  pub executions : List ExecutionEvidence
  pub verification_outcome : VerificationOutcome
  pub bundle_files : List ArtifactRecord

-- Equality of two device states, field by field.
abbrev pub state_beq : DeviceStateEvidence → DeviceStateEvidence → Bool
state_beq a b =
    a.firmware_version == b.firmware_version
    && a.update_counter == b.update_counter
    && a.last_payload_sha256 == b.last_payload_sha256

pub state_beq_iff : (a b : DeviceStateEvidence) → (state_beq a b ≡ true) ↔ (a ≡ b)
state_beq_iff a b = ground (
  arith,
  eq_iff a.firmware_version b.firmware_version,
  option_beq_iff a.last_payload_sha256 b.last_payload_sha256,
)

instance abbrev pub state_eq : PyEq DeviceStateEvidence
state_eq = record { beq = state_beq; beq_iff = state_beq_iff }

-- The validator of `ExecutionEvidence`.
unfoldable pub decisions_agree : ExecutionEvidence → Bool
decisions_agree e = e.observed_decision == e.response.decision

-- The validator of `EvidenceDocument`, and the length of its list: the set of the roles is the set of
-- all roles, which has three members.
unfoldable pub one_execution_per_role : List ExecutionEvidence → Bool
one_execution_per_role executions =
    let roles = map (λ (e : ExecutionEvidence). e.role) executions in
    length roles == 3
    && contains roles vulnerable
    && contains roles patched
    && contains roles positive_control
