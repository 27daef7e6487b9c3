-- ===== src/Tests/Presentation.antt =====
-- Witness of the guard on presented bundles.
use fixrepro.Base.{true, false, some, [], ◌∷◌}
use fixrepro.Verifier.Models.{patch_verified}
use fixrepro.Verifier.BundleVerifier.Verify.{BundleVerificationResult, result_of}
use fixrepro.App.Presentation.{PathFacts, BundleRegistry}

abbrev pub paths : PathFacts
paths = record { is_symlink = λ _. false; resolve = λ p. p; in_evidence = λ _. true }

abbrev pub registry : BundleRegistry
registry = ("JOB-00000001", "evidence/run") ∷ ("demo", "evidence/demo-bundle") ∷ []

abbrev pub checked : BundleVerificationResult
checked = result_of [] (some patch_verified) (some []) 9
