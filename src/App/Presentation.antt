-- ===== src/App/Presentation.antt =====
-- app/presentation.py: the registry of bundles and the guard in front of every presentation.
pub mod Present
use fixrepro.Base.{
  ℕ, ◌≡◌, ◌⊎◌, inl, inr, String, Bool, true, false, not, ◌&&◌, ◌||◌, ◌==◌, nat_eq, list_eq,
  string_eq, if◌then◌else◌, is_none, List, [], ◌∷◌, codes, arith,
}
use fixrepro.Core.Errors.{Result, ok, raise, PyError}
use fixrepro.Verifier.BundleVerifier.Verify.{BundleVerificationResult}

pub data PresentationError : Type 0 where
  not_jobs_prefix symlinked_live outside_evidence : PresentationError
  bundle_not_found symlinked_bundle failed_verification no_manifest_digest : PresentationError
  verifier_error : PyError → PresentationError
  symlinked_evidence unparsed_evidence wrong_roles different_input : PresentationError
  different_outcomes invalid_presentation : PresentationError

-- What the registry asks of the file system.
pub record PathFacts : Type 0 where
  pub is_symlink : String → Bool
  pub resolve : String → String
  pub in_evidence : String → Bool

-- `self._bundles`, the last entry of a key first.
abbrev pub BundleRegistry : Type 0
BundleRegistry = List (String × String)

unfoldable pub new_registry : String → BundleRegistry
new_registry demo_bundle = ("demo", demo_bundle) ∷ []

abbrev starts_with : List ℕ → List ℕ → Bool
starts_with [] cs = true
starts_with (p ∷ ps) [] = false
starts_with (p ∷ ps) (c ∷ cs) = p == c && starts_with ps cs

unfoldable pub register_live :
    PathFacts → String → String → BundleRegistry → PresentationError ⊎ BundleRegistry
register_live paths bundle_id bundle_path registry =
    let resolved = paths.resolve bundle_path in
    if not (starts_with (codes "JOB-") (codes bundle_id))
    then inl not_jobs_prefix
    else if paths.is_symlink bundle_path
    then inl symlinked_live
    else if not (paths.in_evidence resolved) || paths.is_symlink resolved
    then inl outside_evidence
    else inr ((bundle_id, resolved) ∷ registry)

unfoldable pub resolve_bundle : String → BundleRegistry → PresentationError ⊎ String
resolve_bundle bundle_id [] = inl bundle_not_found
resolve_bundle bundle_id ((k, path) ∷ rest) =
    let later = resolve_bundle bundle_id rest in if k == bundle_id then inr path else later

-- What follows the verification.
unfoldable pub accept_verification :
    String → BundleVerificationResult → PresentationError ⊎ (String × BundleVerificationResult)
accept_verification path v =
    if not v.valid || is_none v.verification_outcome
    then inl failed_verification
    else if is_none v.manifest_sha256
    then inl no_manifest_digest
    else inr (path, v)

module _ (paths : PathFacts) (verify : String → Result BundleVerificationResult) where
  -- `verify` is `verify_bundle` of a path; an exception that it raises goes on.
  unfoldable pub verify_registered_bundle :
      BundleRegistry → String → PresentationError ⊎ (String × BundleVerificationResult)
  unfolding resolve_bundle accept_verification
  verify_registered_bundle registry bundle_id = elim (resolve_bundle bundle_id registry) [
    | inl e ↦ inl e
    | inr path ↦ if paths.is_symlink path then inl symlinked_bundle else elim (verify path) [
      | raise e ↦ inl (verifier_error e)
      | ok v ↦ accept_verification path v
    ]
  ]

  -- A bundle passes the guard only if it is registered under the requested identifier, is no symlink,
  -- and its verification is valid with an outcome and a manifest digest: what verifies without an
  -- outcome is not presented.
  pub registered_bundle_verified :
      (registry : BundleRegistry) (bundle_id path : String) (v : BundleVerificationResult)
      → verify_registered_bundle registry bundle_id ≡ inr (path, v)
      → (resolve_bundle bundle_id registry ≡ inr path)
        × (paths.is_symlink path ≡ false)
        × (verify path ≡ ok v)
        × (v.valid ≡ true)
        × (is_none v.verification_outcome ≡ false)
        × (is_none v.manifest_sha256 ≡ false)
  unfolding verify_registered_bundle accept_verification
  registered_bundle_verified registry bundle_id path v h = ground arith
