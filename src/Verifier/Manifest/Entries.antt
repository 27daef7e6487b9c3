-- ===== src/Verifier/Manifest/Entries.antt =====
-- A manifest that was just written passes the checks of verify_bundle.
use fixrepro.Base.{
  ℕ, ◌≡◌, inl, inr, refl, sym, ap, ◌∙◌, subst, String, true, false, not, ◌&&◌, ◌||◌, ◌==◌, nat_eq,
  string_eq, list_eq, ==_refl, ==→≡, All, some, List, [], ◌∷◌, ◌++◌, map, length, contains, codes,
  arith, if◌then◌else◌, Bool-cases,
}
use fixrepro.Core.Errors.{ok, Result-cases, ok-injective}
use fixrepro.Core.Primitives.{Primitives}
use fixrepro.Verifier.Paths.{safe_relative_path, split_slash}
use fixrepro.Verifier.BundleVerifier.{
  ManifestEntry, BundleDirectory, manifest_name, manifest_digest_name, without, sorted,
}
use fixrepro.Verifier.BundleVerifier.Checks.{
  is_listed, listed_paths, layout_failures, entry_failures, all_entry_failures,
}
use fixrepro.Verifier.Manifest.{
  BundleFile, parts_leb, insert_file, sorted_files, is_own, make_entry, manifest_entries,
}

abbrev pub names : List BundleFile → List String
names files = map (λ (f : BundleFile). f.path) files

abbrev pub entry_names : List ManifestEntry → List String
entry_names entries = map (λ (e : ManifestEntry). e.path) entries

-- Sorting keeps the files.
All-insert_file :
    (P : BundleFile → Type 0) (f : BundleFile) (fs : List BundleFile)
    → P f
    → All P fs
    → All P (insert_file f fs)
unfolding insert_file
All-insert_file P f [] p a = (p, tt)
All-insert_file P f (g ∷ gs) p (q, a) =
    elim (Bool-cases (parts_leb (split_slash (codes f.path)) (split_slash (codes g.path)))) [
      | inl e ↦ rw (e, insert_file) (p, (q, a))
      | inr e ↦ rw (e, insert_file) (q, All-insert_file P f gs p a)
    ]

pub All-sorted_files :
    (P : BundleFile → Type 0) (fs : List BundleFile) → All P fs → All P (sorted_files fs)
unfolding sorted_files
All-sorted_files P [] a = tt
All-sorted_files P (f ∷ fs) (p, a) =
    All-insert_file P f (sorted_files fs) p (All-sorted_files P fs a)

contains-insert_file :
    (f : BundleFile) (fs : List BundleFile) (p : String)
    → contains (names (insert_file f fs)) p ≡ (p == f.path || contains (names fs) p)
unfolding insert_file
contains-insert_file f [] p = refl
contains-insert_file f (g ∷ gs) p =
    elim (Bool-cases (parts_leb (split_slash (codes f.path)) (split_slash (codes g.path)))) [
      | inl e ↦ rw (e, insert_file) refl
      | inr e ↦ rw (e, insert_file, contains-insert_file f gs p) (ground arith)
    ]

pub contains-sorted_files :
    (fs : List BundleFile) (p : String)
    → contains (names (sorted_files fs)) p ≡ contains (names fs) p
unfolding sorted_files
contains-sorted_files [] p = refl
contains-sorted_files (f ∷ fs) p =
    contains-insert_file f (sorted_files fs) p
    ∙ ap (λ b. p == f.path || b) (contains-sorted_files fs p)

-- Nothing is left of a list that the other one has.
without_nothing :
    (xs taken : List String)
    → ((x : String) → contains xs x ≡ true → contains taken x ≡ true)
    → without xs taken ≡ []
unfolding without
without_nothing [] taken has = refl
without_nothing (x ∷ xs) taken has =
    let here : contains taken x ≡ true = has x (ground (arith, ==_refl x)) in
    rw (here, without) (without_nothing xs taken (λ y later. has y (ground arith)))

module _ (prim : Primitives) (b : BundleDirectory) where
  -- The file is there, as it was when the manifest was written, and its path is safe.
  abbrev pub InPlace : BundleFile → Type 0
  InPlace f =
      (b.regular f.path ≡ some f.content)
      × ((parts : List (List ℕ)) × (safe_relative_path f.path ≡ inr parts))

  abbrev pub Passes : ManifestEntry → Type 0
  Passes e = (entry_failures prim b e ≡ []) × (is_listed e ≡ true)

  make_entry-Passes :
      (f : BundleFile) → is_own f.path ≡ false → InPlace f → Passes (make_entry prim f)
  unfolding make_entry entry_failures is_listed
  make_entry-Passes f other (here, (parts, safe)) = (
    rw
        (
          other,
          safe,
          here,
          ==_refl (length f.content),
          ==_refl (prim.sha256_hex f.content),
          entry_failures,
        )
        refl,
    rw (other, safe, is_listed) refl,
  )

  -- The entries pass, and list the files that are not the manifest's own.
  abbrev pub Lists : List BundleFile → List ManifestEntry → Type 0
  Lists fs entries =
      All Passes entries
      × ((p : String)
          → contains (entry_names entries) p ≡ (contains (names fs) p && not (is_own p)))

  own_skipped :
      (f : BundleFile) (fs : List BundleFile) (p : String)
      → is_own f.path ≡ true
      → (contains (names fs) p && not (is_own p)) ≡ (contains (names (f ∷ fs)) p && not (is_own p))
  own_skipped f fs p own = elim (Bool-cases (p == f.path)) [
    | inr e ↦ rw e refl
    | inl e ↦
        let owned : is_own p ≡ true = subst (λ x. is_own x ≡ true) (sym (==→≡ p f.path e)) own in
        rw (e, owned) (ground arith)
  ]

  other_kept :
      (f : BundleFile) (fs : List BundleFile) (p : String)
      → is_own f.path ≡ false
      → (p == f.path || (contains (names fs) p && not (is_own p)))
        ≡ (contains (names (f ∷ fs)) p && not (is_own p))
  other_kept f fs p other = elim (Bool-cases (p == f.path)) [
    | inr e ↦ rw e refl
    | inl e ↦
        let kept : is_own p ≡ false = subst (λ x. is_own x ≡ false) (sym (==→≡ p f.path e)) other in
        rw (e, kept) refl
  ]

  add-Lists :
      (f : BundleFile) (fs : List BundleFile) (rest : List ManifestEntry)
      → InPlace f
      → Lists fs rest
      → Lists (f ∷ fs) (if is_own f.path then rest else make_entry prim f ∷ rest)
  unfolding make_entry
  add-Lists f fs rest here (pass, listed) = elim (Bool-cases (is_own f.path)) [
    | inl own ↦ rw own (pass, λ p. listed p ∙ own_skipped f fs p own)
    | inr other ↦ rw other (
      (make_entry-Passes f other here, pass),
      λ p. ap (λ x. p == f.path || x) (listed p) ∙ other_kept f fs p other,
    )
  ]

  pub manifest_entries-Lists :
      (fs : List BundleFile) (entries : List ManifestEntry)
      → All InPlace fs
      → manifest_entries prim fs ≡ ok entries
      → Lists fs entries
  unfolding manifest_entries
  manifest_entries-Lists [] entries a h = subst (Lists []) (ok-injective h) (tt, λ p. refl)
  manifest_entries-Lists (f ∷ fs) entries (here, a) h =
      elim (Result-cases (manifest_entries prim fs)) [
        | inr (e, failed) ↦ absurd (ground arith)
        | inl (rest, made) ↦
            let same : (if is_own f.path then rest else make_entry prim f ∷ rest) ≡ entries =
              ground arith in
            subst (Lists (f ∷ fs)) same
              (add-Lists f fs rest here (manifest_entries-Lists fs rest a made))
      ]

  pub passed_entries :
      (entries : List ManifestEntry)
      → All Passes entries
      → (all_entry_failures prim b entries ≡ []) × (listed_paths entries ≡ entry_names entries)
  unfolding all_entry_failures listed_paths
  passed_entries [] a = (refl, refl)
  passed_entries (e ∷ es) ((fine, listed), a) =
      let (more, names_more) = passed_entries es a in
      (rw (fine, more) refl, rw (listed, names_more) refl)

  -- The files that the walk finds are those of the bundle and the two of the manifest.
  abbrev pub FoundWith : List BundleFile → Type 0
  FoundWith files = (p : String) → contains b.found p ≡ (is_own p || contains (names files) p)

  expected_contains :
      (xs : List String) (p : String)
      → contains (xs ++ (manifest_name ∷ manifest_digest_name ∷ [])) p ≡ (contains xs p || is_own p)
  expected_contains [] p = ground arith
  expected_contains (x ∷ xs) p = rw (expected_contains xs p) (ground arith)

  pub no_layout_failures :
      (files : List BundleFile) (paths : List String)
      → FoundWith files
      → ((p : String) → contains paths p ≡ (contains (names files) p && not (is_own p)))
      → layout_failures b paths ≡ []
  unfolding layout_failures sorted
  no_layout_failures files paths found listed =
      let expected = paths ++ (manifest_name ∷ manifest_digest_name ∷ []) in
      let extra : without b.found expected ≡ [] =
        without_nothing b.found expected
          λ p h. ground (arith, found p, listed p, expected_contains paths p) in
      let missing : without expected b.found ≡ [] =
        without_nothing expected b.found
          λ p h. ground (arith, found p, listed p, expected_contains paths p) in
      rw (extra, missing) refl
