-- ===== src/Verifier/Manifest.antt =====
-- verifier/bundle.py: write_manifest. A directory is its files, in the order in which the walk finds them.
pub mod Digest
pub mod Entries
pub mod Roundtrip
use fixrepro.Base.{
  ℕ, ◌≡◌, ◌⊎◌, inl, inr, refl, String, Bool, true, false, not, ◌&&◌, ◌||◌, ◌==◌, nat_eq, string_eq,
  list_eq, ltb, Option, none, some, is_none, List, [], ◌∷◌, ◌++◌, map, length, contains, Bytes,
  codes, if◌then◌else◌,
}
use fixrepro.Core.Errors.{Result, ok, raise, ◌>>=◌, ◌>>◌, raise_if, bundle_error, value_error}
use fixrepro.Core.Primitives.{Primitives}
use fixrepro.Verifier.Paths.{split_slash}
use fixrepro.Verifier.BundleVerifier.{
  ManifestEntry, BundleManifest, codes_leb, manifest_name, manifest_digest_name,
  paths_are_unique_and_sorted,
}

-- A file under the bundle's root, by its relative path.
pub record BundleFile : Type 0 where
  pub path : String
  pub is_symlink : Bool
  pub content : Bytes

-- The order of `Path`s, which compares their parts.
unfoldable pub parts_leb : List (List ℕ) → List (List ℕ) → Bool
parts_leb [] ys = true
parts_leb (x ∷ xs) [] = false
parts_leb (x ∷ xs) (y ∷ ys) = if x == y then parts_leb xs ys else codes_leb x y

unfoldable pub insert_file : BundleFile → List BundleFile → List BundleFile
unfolding parts_leb
insert_file f [] = f ∷ []
insert_file f (g ∷ gs) =
    let rest = insert_file f gs in
    if parts_leb (split_slash (codes f.path)) (split_slash (codes g.path))
    then f ∷ g ∷ gs
    else g ∷ rest

-- `sorted(bundle_root.rglob("*"))`, the files of it
unfoldable pub sorted_files : List BundleFile → List BundleFile
unfolding insert_file
sorted_files [] = []
sorted_files (f ∷ fs) = insert_file f (sorted_files fs)

-- The manifest and its digest do not list themselves.
abbrev pub is_own : String → Bool
is_own path = path == manifest_name || path == manifest_digest_name

module _ (prim : Primitives) where
  unfoldable pub make_entry : BundleFile → ManifestEntry
  make_entry f = record {
    path = f.path;
    sha256 = prim.sha256_hex f.content;
    size_bytes = length f.content;
  }

  -- The loop of `_manifest_entries`.
  unfoldable pub manifest_entries : List BundleFile → Result (List ManifestEntry)
  unfolding make_entry
  manifest_entries [] = ok []
  manifest_entries (f ∷ fs) =
      if f.is_symlink
      then raise (bundle_error "bundle file may not be a symlink")
      else elim (manifest_entries fs) [
        | raise e ↦ raise e
        | ok rest ↦ ok (if is_own f.path then rest else make_entry f ∷ rest)
      ]

  -- `deterministic_json_bytes` of the manifest is `dump`. The manifest, its file, and the digest's file.
  unfoldable pub write_manifest :
      (BundleManifest → Bytes) → List BundleFile → Result (BundleManifest × Bytes × Bytes)
  unfolding manifest_entries sorted_files
  write_manifest dump files = elim (manifest_entries (sorted_files files)) [
    | raise e ↦ raise e
    | ok entries ↦
        let manifest : BundleManifest = record { schema_version = "1.0.0"; files = entries } in
        if not (paths_are_unique_and_sorted manifest)
        then raise (value_error "BundleManifest")
        else ok (
          manifest,
          dump manifest,
          codes (prim.sha256_hex (dump manifest)) ++ (codes "  manifest.json" ++ (10 ∷ [])),
        )
  ]
