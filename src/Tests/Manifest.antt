-- ===== src/Tests/Manifest.antt =====
-- A small bundle, its manifest, and the directory after both were written.
use fixrepro.Base.{
  ℕ, ◌≡◌, refl, String, true, false, not, ◌&&◌, ◌==◌, nat_eq, list_eq, string_eq, none, some, List,
  [], ◌∷◌, ◌++◌, contains, Bytes, codes, arith, if◌then◌else◌,
}
use fixrepro.Base.Text.{is_sha256, is_hex}
use fixrepro.Verifier.Paths.{
  safe_relative_path, has_drive, components, split_slash, as_posix, check_parts,
}
use fixrepro.Verifier.BundleVerifier.{
  BundleManifest, Loaders, BundleDirectory, null_document, manifest_digest_name, read_digest,
  paths_are_unique_and_sorted, sorted, insert_text, codes_leb, unique,
}
use fixrepro.Verifier.BundleVerifier.Checks.{check_manifest}
use fixrepro.Verifier.Manifest.{
  BundleFile, is_own, parts_leb, insert_file, sorted_files, make_entry, manifest_entries,
  write_manifest,
}
use fixrepro.Verifier.Manifest.Entries.{names, entry_names, FoundWith}
use fixrepro.Verifier.Manifest.Roundtrip.{IsWritten, written_manifest_accepted}
use fixrepro.Tests.Toy.{toy, digest}

abbrev bundle : List BundleFile
bundle =
    record { path = "run.log"; is_symlink = false; content = 1 ∷ 2 ∷ [] }
    ∷ record { path = "raw/patched.json"; is_symlink = false; content = 3 ∷ [] }
    ∷ []

abbrev manifest : BundleManifest
manifest = record {
  schema_version = "1.0.0";
  files =
      record { path = "raw/patched.json"; sha256 = digest; size_bytes = 1 }
      ∷ record { path = "run.log"; sha256 = digest; size_bytes = 2 }
      ∷ [];
}

abbrev raw : Bytes
raw = 5 ∷ []

abbrev digest_raw : Bytes
digest_raw = codes digest ++ (codes "  manifest.json" ++ (10 ∷ []))

abbrev loaders : Loaders ℕ
loaders = record {
  load_manifest = λ _. some manifest;
  load_strict_json = λ _. null_document;
  schema_errors = λ _. some [];
  validate_evidence = λ _. none;
  validate_raw = λ _. none;
  load_public_key = λ _. none;
  nests_too_deeply = λ _. false;
}

abbrev directory : BundleDirectory
directory = record {
  is_dir = true;
  is_symlink = false;
  in_repository = true;
  found = "manifest.json" ∷ "manifest.sha256" ∷ "raw/patched.json" ∷ "run.log" ∷ [];
  linked_directories = [];
  linked_files = [];
  regular = λ path.
      if path == "run.log"
      then some (1 ∷ 2 ∷ [])
      else if path == "raw/patched.json"
      then some (3 ∷ [])
      else if path == "manifest.json"
      then some raw
      else if path == "manifest.sha256"
      then some digest_raw
      else none;
  read_bytes = λ _. none;
}

bundle_found : FoundWith toy directory bundle
bundle_found p = ground arith

is_written : IsWritten toy loaders directory (λ _. raw) bundle manifest raw digest_raw
unfolding write_manifest manifest_entries make_entry sorted_files insert_file parts_leb split_slash
    paths_are_unique_and_sorted sorted insert_text codes_leb unique safe_relative_path check_parts
    has_drive components as_posix is_sha256 is_hex
is_written = record {
  written = refl;
  in_place = ((refl, (_, refl)), ((refl, (_, refl)), tt));
  found_with = bundle_found;
  manifest_file = refl;
  digest_file = refl;
  read_back = refl;
  hex_digest = refl;
}

written_manifest_accepted_example :
    (read_digest (directory.regular manifest_digest_name) ≡ ([], some (codes digest)))
    × (check_manifest toy loaders directory (some (codes digest))
        ≡ ([], (entry_names manifest.files, 2)))
    × ((p : String)
        → contains (entry_names manifest.files) p ≡ (contains (names bundle) p && not (is_own p)))
written_manifest_accepted_example =
    written_manifest_accepted toy loaders directory (λ _. raw) bundle manifest raw digest_raw
      is_written
