-- ===== src/Verifier/Paths/Safe.antt =====
-- What a safe path is.
use fixrepro.Base.{
  ℕ, ◌≡◌, ◌≢◌, refl, sym, ◌∙◌, inl, inr, String, true, false, ◌==◌, nat_eq, list_eq, list_beq_iff,
  Bool-cases, subst, arith, List, [], ◌∷◌, All, contains, codes, ==→≡,
}
use fixrepro.Verifier.Paths.{
  has_drive, split_slash, is_component, components, join_slash, as_posix, dot_dot, check_parts,
  safe_relative_path,
}

abbrev NoSlash : List ℕ → Type 0
NoSlash part = contains part 47 ≡ false

-- A name that stays in its directory.
pub record IsName (part : List ℕ) : Type 0 where
  pub filled : part ≢ []
  pub no_dot : part ≢ b'.' ∷ []
  pub no_parent : part ≢ dot_dot
  pub no_slash : contains part 47 ≡ false

-- `c` in front of the first part.
abbrev extend : ℕ → List (List ℕ) → List (List ℕ)
extend c rest = elim rest [ [] ↦ (c ∷ []) ∷ [] | part ∷ parts ↦ (c ∷ part) ∷ parts ]

extend-NoSlash :
    (c : ℕ) (rest : List (List ℕ))
    → (c == 47) ≡ false
    → All NoSlash rest
    → All NoSlash (extend c rest)
extend-NoSlash c [] other _ = (ground arith, tt)
extend-NoSlash c (part ∷ parts) other (here, there) = (ground arith, there)

split-NoSlash : (value : List ℕ) → All NoSlash (split_slash value)
unfolding split_slash
split-NoSlash [] = (refl, tt)
split-NoSlash (c ∷ cs) = elim (Bool-cases (c == 47)) [
  | inl slash ↦ rw slash (refl, split-NoSlash cs)
  | inr other ↦ rw other (extend-NoSlash c (split_slash cs) other (split-NoSlash cs))
]

components-names :
    (parts : List (List ℕ))
    → All NoSlash parts
    → contains (components parts) dot_dot ≡ false
    → All IsName (components parts)
unfolding components
components-names [] _ _ = tt
components-names (part ∷ parts) (here, there) h = elim (Bool-cases (is_component part)) [
  | inr dropped ↦ rw dropped (components-names parts there (ground arith))
  | inl kept ↦
      let later : contains (components parts) dot_dot ≡ false = ground arith in
      rw kept (
        record {
          filled = ground (arith, list_beq_iff part []);
          no_dot = ground (arith, list_beq_iff part (b'.' ∷ []));
          no_parent = ground (arith, list_beq_iff dot_dot part);
          no_slash = here;
        },
        components-names parts there later,
      )
]

as_posix-join : (parts : List (List ℕ)) → parts ≢ [] → as_posix parts ≡ join_slash parts
unfolding as_posix
as_posix-join [] h = absurd (h refl)
as_posix-join (part ∷ parts) h = refl

-- The guards of `_safe_relative_path` that a path has passed.
guards :
    (value : List ℕ) (ps parts : List (List ℕ))
    → check_parts value ps ≡ inr parts
    → (ps ≡ parts)
      × (contains value 92 ≡ false)
      × (has_drive value ≡ false)
      × ((ps == []) ≡ false)
      × (contains ps dot_dot ≡ false)
      × ((as_posix ps == value) ≡ true)
unfolding check_parts
guards value ps parts h = ground arith

not_empty : (parts : List (List ℕ)) → (parts == []) ≡ false → parts ≢ []
not_empty [] e h = ground arith
not_empty (part ∷ parts) e h = ground arith

-- A path that is let through is relative to the bundle and stays in it: it is its components joined
-- by slashes, there is at least one, and each is a proper name, neither empty nor `.` nor `..` and
-- without a slash; it has no drive letter and no backslash.
pub safe_relative_path_sound :
    (value : String) (parts : List (List ℕ))
    → safe_relative_path value ≡ inr parts
    → (codes value ≡ join_slash parts)
      × (parts ≢ [])
      × All IsName parts
      × (contains (codes value) 92 ≡ false)
      × (has_drive (codes value) ≡ false)
unfolding safe_relative_path
safe_relative_path_sound value parts h =
    let (found, plain, no_drive, nonempty, inside, same) =
      guards (codes value) (components (split_slash (codes value))) parts h in
    let filled : parts ≢ [] =
      λ e. not_empty parts (subst (λ ps. (ps == []) ≡ false) found nonempty) e in
    (
      sym (==→≡ _ _ (subst (λ ps. (as_posix ps == codes value) ≡ true) found same))
          ∙ as_posix-join parts filled,
      filled,
      subst (All IsName) found
          (components-names (split_slash (codes value)) (split-NoSlash (codes value)) inside),
      plain,
      no_drive,
    )
