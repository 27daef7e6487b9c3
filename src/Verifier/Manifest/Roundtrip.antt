-- ===== src/Verifier/Manifest/Roundtrip.antt =====
-- What write_manifest writes, verify_bundle accepts.
use fixrepro.Base.{
  ◌≡◌, inl, inr, refl, ap, ◌∙◌, String, true, not, ◌&&◌, nat_eq, string_eq, list_eq, ==_refl, All,
  some, List, [], ◌++◌, length, contains, Bytes, codes, arith,
}
use fixrepro.Base.Text.{is_sha256}
use fixrepro.Core.Errors.{ok, Result-cases}
use fixrepro.Core.Primitives.{Primitives}
use fixrepro.Verifier.BundleVerifier.{
  BundleManifest, Loaders, BundleDirectory, manifest_name, manifest_digest_name,
  paths_are_unique_and_sorted, read_digest,
}
use fixrepro.Verifier.BundleVerifier.Checks.{digest_matches, check_manifest}
use fixrepro.Verifier.Manifest.{BundleFile, sorted_files, is_own, manifest_entries, write_manifest}
use fixrepro.Verifier.Manifest.Digest.{digest_line, read_digest_written}
use fixrepro.Verifier.Manifest.Entries.{
  names, entry_names, All-sorted_files, contains-sorted_files, InPlace, manifest_entries-Lists,
  passed_entries, FoundWith, no_layout_failures,
}

module _ {V : Type 0} (prim : Primitives) (loaders : Loaders V) (b : BundleDirectory)
    (dump : BundleManifest → Bytes) (files : List BundleFile) (m : BundleManifest)
    (raw digest_raw : Bytes) where
  -- The directory holds the files, and the two that were written.
  pub record IsWritten : Type 0 where
    pub written : write_manifest prim dump files ≡ ok (m, raw, digest_raw)
    pub in_place : All (InPlace prim b) files
    pub found_with : FoundWith prim b files
    pub manifest_file : b.regular manifest_name ≡ some raw
    pub digest_file : b.regular manifest_digest_name ≡ some digest_raw
    pub read_back : loaders.load_manifest raw ≡ some m
    pub hex_digest : is_sha256 (prim.sha256_hex raw) ≡ true

  abbrev Contents : Type 0
  Contents =
      (manifest_entries prim (sorted_files files) ≡ ok m.files)
      × (paths_are_unique_and_sorted m ≡ true)
      × (digest_raw ≡ codes (prim.sha256_hex raw) ++ digest_line)

  written_contents : write_manifest prim dump files ≡ ok (m, raw, digest_raw) → Contents
  unfolding write_manifest
  written_contents h = elim (Result-cases (manifest_entries prim (sorted_files files))) [
    | inr (e, failed) ↦ absurd (ground arith)
    | inl (entries, made) ↦ ground arith
  ]

  -- A bundle whose files are in place passes the manifest checks of verify_bundle right after
  -- write_manifest: the digest file is read as the digest of the manifest's file, and the manifest has no
  -- failure, lists the bundle's files and no other, and counts them.
  pub written_manifest_accepted :
      IsWritten
      → (read_digest (b.regular manifest_digest_name) ≡ ([], some (codes (prim.sha256_hex raw))))
        × (check_manifest prim loaders b (some (codes (prim.sha256_hex raw)))
            ≡ ([], (entry_names m.files, length m.files)))
        × ((p : String)
            → contains (entry_names m.files) p ≡ (contains (names files) p && not (is_own p)))
  unfolding check_manifest digest_matches
  written_manifest_accepted w =
      let (made, valid, line) = written_contents w.written in
      let (pass, listed) =
        manifest_entries-Lists prim b (sorted_files files) m.files
          (All-sorted_files (InPlace prim b) files w.in_place) made in
      let lists : (p : String)
          → contains (entry_names m.files) p ≡ (contains (names files) p && not (is_own p)) =
        λ p. listed p ∙ ap (λ x. x && not (is_own p)) (contains-sorted_files files p) in
      let (entries_fine, same_paths) = passed_entries prim b m.files pass in
      let layout_fine = no_layout_failures prim b files (entry_names m.files) w.found_with lists in
      (
        rw (w.digest_file, line) (read_digest_written (prim.sha256_hex raw) w.hex_digest),
        rw
            (
              w.manifest_file,
              w.read_back,
              valid,
              ==_refl (codes (prim.sha256_hex raw)),
              entries_fine,
              same_paths,
              layout_fine,
              check_manifest,
            )
            refl,
        lists,
      )
