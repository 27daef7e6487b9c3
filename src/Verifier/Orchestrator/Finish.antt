-- ===== src/Verifier/Orchestrator/Finish.antt =====
-- verifier/orchestrator.py: the two ends of `run`, the checks of the output before anything starts, and the
-- verification around the publication. A tree is what a directory holds.
use fixrepro.Base.{
  ℕ, ◌≡◌, ◌⊎◌, inl, inr, refl, sym, subst, ◌∙◌, Bool, true, not, ◌&&◌, ◌==◌, nat_eq, list_eq,
  option_eq, option_beq_iff, Option, none, some, is_none, if◌then◌else◌, arith, List,
}
use fixrepro.Core.Errors.{Result, ok, raise, ◌>>=◌, ◌>>◌, raise_if, bundle_error, Result-cases}
use fixrepro.Verifier.BundleVerifier.{not_a_directory}
use fixrepro.Verifier.BundleVerifier.Verify.{BundleVerificationResult, refused}
use fixrepro.Verifier.Publish.{Places, Renames, publish_directory, replace_destination}

pub some-injective : {T : Type 0} {a b : T} → some a ≡ some b → a ≡ b
some-injective h = cc

none-some : {T : Type 0} {a : T} → none ≡ some a → ⊥
none-some h = cc

module _ {T : Type 0} (verify : T → Result BundleVerificationResult) where
  -- `verify_bundle` of a path, which may hold nothing.
  unfoldable pub verify_at : Option T → Result BundleVerificationResult
  verify_at none = ok (refused not_a_directory)
  verify_at (some tree) = verify tree

  -- The result, if it is valid.
  unfoldable pub require_valid : Option T → Result BundleVerificationResult
  unfolding verify_at
  require_valid place = do
    result ← verify_at place
    raise_if (not result.valid) (bundle_error "bundle failed verification")
    ok result

  -- `_verify_existing_demo_before_replace`
  unfoldable pub verify_existing : Bool → Bool → Option T → Result (Unit {0})
  unfolding require_valid
  verify_existing is_demo replace place =
      if is_demo && not (is_none place) && replace
      then require_valid place >>= (λ _. ok tt)
      else ok tt

  -- Before anything is started; `is_demo` is whether the destination is the demonstration's.
  unfoldable pub check_output : Bool → Bool → Places T → Result (Unit {0})
  unfolding verify_existing
  check_output is_demo replace p = do
    raise_if (not (is_none p.destination) && not replace)
        (bundle_error "output directory already exists")
    raise_if p.is_symlink (bundle_error "output directory may not be a symlink")
    verify_existing is_demo replace p.destination

  -- From the staged bundle to the result, where `digest` is that of the manifest that was written.
  unfoldable pub finish_run : Bool → Renames → List ℕ → Places T → Result (Unit {0}) × Places T
  unfolding require_valid
  finish_run replace renames digest p = elim (require_valid p.staged) [
    | raise e ↦ (raise e, p)
    | ok _ ↦
        let (published, p') = publish_directory replace renames p in
        elim published [
          | raise e ↦ (raise e, p')
          | ok _ ↦ (
            (do
              final ← require_valid p'.destination
              raise_if (not (final.manifest_sha256 == some digest))
                  (bundle_error "root digest changed")),
            p',
          )
        ]
  ]

  abbrev pub Verified : T → Type 0
  Verified tree = (v : BundleVerificationResult) × (verify tree ≡ ok v) × (v.valid ≡ true)

  valid_tree :
      (place : Option T) (v : BundleVerificationResult)
      → require_valid place ≡ ok v
      → (tree : T) × (place ≡ some tree) × (verify tree ≡ ok v) × (v.valid ≡ true)
  unfolding require_valid verify_at
  valid_tree none v h = absurd (ground arith)
  valid_tree (some tree) v h = elim (Result-cases (verify tree)) [
    | inr (e, raises) ↦ absurd (ground arith)
    | inl (w, gives) ↦ (tree, refl, ground arith, ground arith)
  ]

  -- Publishing puts the staged tree at the destination, or leaves the old one there, or nothing.
  published_place :
      (replace : Bool) (renames : Renames) (p : Places T)
      → let (published, p') = publish_directory replace renames p in
        (published ≡ ok tt → p'.destination ≡ p.staged)
        × ((p'.destination ≡ p.staged)
            ⊎ ((p'.destination ≡ p.destination) ⊎ (p'.destination ≡ none)))
  unfolding publish_directory replace_destination
  published_place replace renames p = ground arith

  -- The bundle that `finish_run` leaves at the destination is a verified one or the old one: whatever fails,
  -- a tree that is there then was there before, or it is the staged tree and its verification was valid. If it
  -- returns, the destination holds the staged tree, whose verification is valid with the digest of the
  -- manifest that was written.
  pub finish_run_sound :
      (replace : Bool) (renames : Renames) (digest : List ℕ) (p : Places T)
      → let (finished, p') = finish_run replace renames digest p in
        ((tree : T)
          → p'.destination ≡ some tree
          → (p.destination ≡ some tree) ⊎ ((p.staged ≡ some tree) × Verified tree))
        × (finished ≡ ok tt
            → (tree : T) × (v : BundleVerificationResult) × (p.staged ≡ some tree)
              × (p'.destination ≡ some tree)
              × (verify tree ≡ ok v)
              × (v.valid ≡ true)
              × (v.manifest_sha256 ≡ some digest))
  unfolding finish_run
  finish_run_sound replace renames digest p = elim (Result-cases (require_valid p.staged)) [
    | inr (e, invalid) ↦
        rw (invalid, finish_run) (λ tree at. inl at, λ returned. absurd (ground arith))
    | inl (v, valid) ↦
        let (tree, is_staged, verified, is_valid) = valid_tree p.staged v valid in
        let p' = (publish_directory replace renames p).1 in
        let (moved, places) = published_place replace renames p in
        let kept : (t : T)
            → p'.destination ≡ some t
            → (p.destination ≡ some t) ⊎ ((p.staged ≡ some t) × Verified t) =
          λ t at. elim places [
            | inl new ↦
                let same : tree ≡ t = some-injective (sym is_staged ∙ sym new ∙ at) in
                inr (sym new ∙ at, subst Verified same (v, verified, is_valid))
            | inr (inl old) ↦ inl (sym old ∙ at)
            | inr (inr gone) ↦ absurd (none-some (sym gone ∙ at))
          ] in
        elim (Result-cases (publish_directory replace renames p).0) [
          | inr (e, failed) ↦
              rw (valid, failed, finish_run) (kept, λ returned. absurd (ground arith))
          | inl (u, done) ↦
              rw (valid, done, finish_run)
                (
                  kept,
                  λ returned.
                      let new : p'.destination ≡ some tree = moved done ∙ is_staged in
                      elim (Result-cases (require_valid p'.destination)) [
                        | inr (e, failed) ↦ absurd (ground arith)
                        | inl (final, again) ↦
                            let (tree', at, verified', valid') =
                              valid_tree p'.destination final again in
                            let same : tree' ≡ tree = some-injective (sym at ∙ new) in
                            let digests : final.manifest_sha256 ≡ some digest =
                              ground (arith, option_beq_iff final.manifest_sha256 (some digest)) in
                            (
                              tree,
                              final,
                              is_staged,
                              new,
                              subst (λ t. verify t ≡ ok final) same verified',
                              valid',
                              digests,
                            )
                      ],
                )
        ]
  ]
