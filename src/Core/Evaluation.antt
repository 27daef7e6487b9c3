-- ===== src/Core/Evaluation.antt =====
-- fixrepro_core/evaluation.py: the vulnerable and the patched policy, and the HTTP status of a result.
pub mod Policy
use fixrepro.Base.{
  ℕ, String, Bool, true, false, Option, none, some, ◌==◌, string_eq, list_eq, nat_eq, if◌then◌else◌,
  not, Bytes,
}
use fixrepro.Core.Errors.{PyError, package_validation, value_error, Result, ok, raise, ◌>>=◌}
use fixrepro.Core.Primitives.{Primitives}
use fixrepro.Core.Package.{
  DecodedPackage, parse_and_decode_package, verify_payload_integrity, signer_fingerprint,
  verify_manifest_signature,
}

pub data GatewayRole : Type 0 where
  vulnerable patched : GatewayRole

pub data Decision : Type 0 where
  accepted rejected error : Decision

pub data ReasonCode : Type 0 where
  checksum_only_accepted trusted_signature_accepted untrusted_signer payload_hash_mismatch :
      ReasonCode
  payload_size_mismatch signer_fingerprint_mismatch invalid_signature : ReasonCode
  malformed_package device_unavailable device_apply_failed trust_configuration_error : ReasonCode

pub record PolicyResult : Type 0 where
  pub decision : Decision
  pub reason_code : ReasonCode
  pub package_id : String
  pub firmware_version : String
  pub payload_sha256 : String
  pub signer_fingerprint : String

-- `StrEnum` values.
unfoldable pub reason_value : ReasonCode → String
reason_value checksum_only_accepted = "CHECKSUM_ONLY_ACCEPTED"
reason_value trusted_signature_accepted = "TRUSTED_SIGNATURE_ACCEPTED"
reason_value untrusted_signer = "UNTRUSTED_SIGNER"
reason_value payload_hash_mismatch = "PAYLOAD_HASH_MISMATCH"
reason_value payload_size_mismatch = "PAYLOAD_SIZE_MISMATCH"
reason_value signer_fingerprint_mismatch = "SIGNER_FINGERPRINT_MISMATCH"
reason_value invalid_signature = "INVALID_SIGNATURE"
reason_value malformed_package = "MALFORMED_PACKAGE"
reason_value device_unavailable = "DEVICE_UNAVAILABLE"
reason_value device_apply_failed = "DEVICE_APPLY_FAILED"
reason_value trust_configuration_error = "TRUST_CONFIGURATION_ERROR"

-- `ReasonCode(value)`, which raises `ValueError` on any other text.
unfoldable pub reason_of : String → Result ReasonCode
reason_of s =
    if s == "CHECKSUM_ONLY_ACCEPTED"
    then ok checksum_only_accepted
    else if s == "TRUSTED_SIGNATURE_ACCEPTED"
    then ok trusted_signature_accepted
    else if s == "UNTRUSTED_SIGNER"
    then ok untrusted_signer
    else if s == "PAYLOAD_HASH_MISMATCH"
    then ok payload_hash_mismatch
    else if s == "PAYLOAD_SIZE_MISMATCH"
    then ok payload_size_mismatch
    else if s == "SIGNER_FINGERPRINT_MISMATCH"
    then ok signer_fingerprint_mismatch
    else if s == "INVALID_SIGNATURE"
    then ok invalid_signature
    else if s == "MALFORMED_PACKAGE"
    then ok malformed_package
    else if s == "DEVICE_UNAVAILABLE"
    then ok device_unavailable
    else if s == "DEVICE_APPLY_FAILED"
    then ok device_apply_failed
    else if s == "TRUST_CONFIGURATION_ERROR"
    then ok trust_configuration_error
    else raise (value_error "not a valid ReasonCode")

-- `PolicyResult(decision, reason_code)`; the other fields default to "".
unfoldable pub bare_result : Decision → ReasonCode → PolicyResult
bare_result d r = record {
  decision = d;
  reason_code = r;
  package_id = "";
  firmware_version = "";
  payload_sha256 = "";
  signer_fingerprint = "";
}

-- `_rejected_from_error`: an unknown code is a malformed package.
unfoldable pub rejected_from_error : String → PolicyResult
rejected_from_error code = elim (reason_of code) [
  | ok reason ↦ bare_result rejected reason
  | raise e ↦ bare_result rejected malformed_package
]

-- `PolicyResult(decision, reason_code, **_package_fields(package))`
unfoldable pub package_result : Decision → ReasonCode → DecodedPackage → PolicyResult
package_result d r p = record {
  decision = d;
  reason_code = r;
  package_id = p.envelope.manifest.package_id;
  firmware_version = p.envelope.manifest.firmware_version;
  payload_sha256 = p.envelope.manifest.payload_sha256;
  signer_fingerprint = p.envelope.signer_fingerprint;
}

-- `try: package = ... except PackageValidationError`; any other exception goes on.
unfoldable pub catch_parse :
    Result DecodedPackage → (DecodedPackage → Result PolicyResult) → Result PolicyResult
catch_parse (ok p) k = k p
catch_parse (raise (package_validation code message)) k = ok (rejected_from_error code)
catch_parse (raise e) k = raise e

-- `try: verify_payload_integrity(package) except PackageValidationError`
unfoldable pub catch_integrity :
    DecodedPackage → Result (Unit {0}) → Result PolicyResult → Result PolicyResult
catch_integrity p (ok _) k = k
catch_integrity p (raise (package_validation code message)) k = do
  reason ← reason_of code
  ok (package_result rejected reason p)
catch_integrity p (raise e) k = raise e

module _ (prim : Primitives) where
  unfoldable pub evaluate_vulnerable_policy : Bytes → Result PolicyResult
  evaluate_vulnerable_policy raw = catch_parse (parse_and_decode_package prim raw) λ p.
      catch_integrity p (verify_payload_integrity prim p)
        (ok (package_result accepted checksum_only_accepted p))

  -- The checks of the patched policy after the payload's integrity.
  unfoldable pub check_signer : DecodedPackage → Bytes → Result PolicyResult
  check_signer p trusted_public_key = do
    actual_fingerprint ← signer_fingerprint prim p.signer_public_key
    if not (actual_fingerprint == p.envelope.signer_fingerprint)
        then ok (package_result rejected signer_fingerprint_mismatch p)
        else if not (p.signer_public_key == trusted_public_key)
        then ok (package_result rejected untrusted_signer p)
        else if not
            (verify_manifest_signature prim p.signer_public_key p.envelope.manifest p.signature)
        then ok (package_result rejected invalid_signature p)
        else ok (package_result accepted trusted_signature_accepted p)

  unfoldable pub evaluate_patched_policy : Bytes → Bytes → Result PolicyResult
  evaluate_patched_policy raw trusted_public_key =
      catch_parse (parse_and_decode_package prim raw)
        λ p. catch_integrity p (verify_payload_integrity prim p) (check_signer p trusted_public_key)

-- The reasons that `http_status_for` singles out, in its order.
status_of_reason : ReasonCode → ℕ
status_of_reason untrusted_signer = 403
status_of_reason device_unavailable = 502
status_of_reason device_apply_failed = 502
status_of_reason trust_configuration_error = 500
status_of_reason _ = 400

status_of : Decision → ReasonCode → ℕ
status_of accepted _ = 200
status_of _ reason = status_of_reason reason

unfoldable pub http_status_for : PolicyResult → ℕ
unfolding status_of_reason status_of
http_status_for r = status_of r.decision r.reason_code
