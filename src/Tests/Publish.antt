-- ===== src/Tests/Publish.antt =====
-- Witness of publishing a bundle: the staged tree cannot be moved, and the old one is restored.
use fixrepro.Base.{ℕ, ◌≡◌, ◌⊎◌, refl, true, false, none, some, [], ◌∷◌}
use fixrepro.Core.Errors.{Result, ok}
use fixrepro.Verifier.BundleVerifier.Verify.{BundleVerificationResult, result_of}
use fixrepro.Verifier.Publish.{Places, Renames, publish_directory, replace_destination}
use fixrepro.Verifier.Orchestrator.Finish.{
  finish_run, require_valid, verify_at, Verified, finish_run_sound,
}

abbrev places : Places ℕ
places = record { staged = some 2; destination = some 1; backup = none; is_symlink = false }

abbrev renames : Renames
renames = record { sets_aside = true; publishes = false; restores = true; removes = true }

abbrev verify_tree : ℕ → Result BundleVerificationResult
verify_tree tree = ok (result_of [] none (some (tree ∷ [])) 9)

abbrev replacing : Places ℕ
replacing = record { staged = some 2; destination = some 1; backup = none; is_symlink = false }

abbrev all_succeed : Renames
all_succeed = record { sets_aside = true; publishes = true; restores = true; removes = true }

finish_run_sound_example :
    let (finished, p') = finish_run verify_tree true all_succeed (2 ∷ []) replacing in
    ((tree : ℕ)
      → p'.destination ≡ some tree
      → (some 1 ≡ some tree) ⊎ ((some 2 ≡ some tree) × Verified verify_tree tree))
    × (finished ≡ ok tt
        → (tree : ℕ) × (v : BundleVerificationResult) × (some 2 ≡ some tree)
          × (p'.destination ≡ some tree)
          × (verify_tree tree ≡ ok v)
          × (v.valid ≡ true)
          × (v.manifest_sha256 ≡ some (2 ∷ [])))
finish_run_sound_example = finish_run_sound verify_tree true all_succeed (2 ∷ []) replacing

run_finishes : (finish_run verify_tree true all_succeed (2 ∷ []) replacing).0 ≡ ok tt
unfolding finish_run require_valid verify_at publish_directory replace_destination
run_finishes = refl
