-- ===== src/Tests/Bundle.antt =====
-- Witnesses of the bundle's record checks.
use fixrepro.Base.{
  ℕ, ◌≡◌, ◌≢◌, refl, String, true, false, Option, none, some, ◌==◌, nat_eq, string_eq,
  if◌then◌else◌, List, [], ◌∷◌, All, contains, codes, Bytes,
}
use fixrepro.Core.Json.{field, text, end}
use fixrepro.Verifier.Models.{ArtifactRecord}
use fixrepro.Verifier.Paths.{
  safe_relative_path, split_slash, components, join_slash, as_posix, has_drive, check_parts,
}
use fixrepro.Verifier.Paths.Safe.{IsName, safe_relative_path_sound}
use fixrepro.Verifier.Bundle.{BundleFiles, RawScenarioRecord}
use fixrepro.Tests.Toy.{untrusted_raw, digest}
use fixrepro.Tests.Verdicts.{p_run}

abbrev files : BundleFiles
files path =
    if path == "packages/untrusted-update.json"
    then some untrusted_raw
    else if path == "raw/patched.json"
    then some (3 ∷ [])
    else none

abbrev artifact : ArtifactRecord
artifact = record {
  path = "raw/patched.json";
  sha256 = digest;
  size_bytes = 1;
  media_type = "application/json";
}

abbrev listed : List String
listed = "packages/untrusted-update.json" ∷ "raw/patched.json" ∷ []

abbrev parts : List (List ℕ)
parts = codes "raw" ∷ codes "patched.json" ∷ []

safe_relative_path_sound_example :
    (codes "raw/patched.json" ≡ join_slash parts)
    × (parts ≢ [])
    × All IsName parts
    × (contains (codes "raw/patched.json") 92 ≡ false)
    × (has_drive (codes "raw/patched.json") ≡ false)
unfolding safe_relative_path split_slash components as_posix join_slash has_drive check_parts
safe_relative_path_sound_example = safe_relative_path_sound "raw/patched.json" parts refl

abbrev raw_record : Bytes → Option RawScenarioRecord
raw_record _ = some record {
  execution_id = "EX-1";
  role = p_run.role;
  started_at = "s";
  finished_at = "f";
  reset_confirmed = true;
  request = p_run.request;
  gateway_response =
      field "decision" (text "REJECTED") (field "reason_code" (text "UNTRUSTED_SIGNER") end);
  device_state_before = p_run.device_state_before;
  device_state_after = p_run.device_state_after;
}
