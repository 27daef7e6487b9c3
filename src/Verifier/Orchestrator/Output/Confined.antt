-- ===== src/Verifier/Orchestrator/Output/Confined.antt =====
-- verifier/orchestrator.py: what `resolve_output_directory` accepts, and that its loop ends.
use fixrepro.Base.{
  ℕ, zero, suc, ◌+◌, ◌<◌, ◌≡◌, ◌≢◌, ◌↔◌, inl, inr, refl, sym, subst, ap, ◌∙◌, String, true, false,
  not, ◌&&◌, ◌||◌, ◌==◌, nat_eq, list_eq, list_beq_iff, Bool-cases, Option, none, some, arith, List,
  [], ◌∷◌, ◌++◌, length, length-append,
}
use fixrepro.Core.Errors.{ok, ok-injective, Result-cases}
use fixrepro.Verifier.Orchestrator.Output.{
  PathParts, FileSystem, parent, join_path, is_relative_to, output_parts, check_parents,
  evidence_root, check_candidate, resolve_output_directory,
}

base_related : (base : PathParts) → is_relative_to base base ≡ true
unfolding is_relative_to
base_related [] = refl
base_related (part ∷ above) = ground (arith, list_beq_iff (part ∷ above) (part ∷ above))

below_related : (below base : PathParts) → is_relative_to (below ++ base) base ≡ true
unfolding is_relative_to
below_related [] base = base_related base
below_related (part ∷ below) base = ground (arith, below_related below base)

related_below :
    (path base : PathParts)
    → is_relative_to path base ≡ true
    → (below : PathParts) × (path ≡ below ++ base)
unfolding is_relative_to
related_below [] base related = ([], (list_beq_iff [] base).0 related)
related_below (part ∷ above) base related = elim (Bool-cases ((part ∷ above) == base)) [
  | inl same ↦ ([], (list_beq_iff (part ∷ above) base).0 same)
  | inr differs ↦
      let (below, joined) = related_below above base (ground arith) in
      (part ∷ below, ap (λ p. part ∷ p) joined)
]

append_same : (below base : PathParts) → below ++ base ≡ base → below ≡ []
append_same [] base h = refl
append_same (part ∷ below) base h =
    let sizes : length (part ∷ (below ++ base)) ≡ length base = ap length h in
    absurd (ground (arith, length-append below base))

unfoldable pub ancestor : ℕ → PathParts → PathParts
unfolding parent
ancestor zero path = path
ancestor (suc k) path = ancestor k (parent path)

module _ (fs : FileSystem) (repository : PathParts) where
  abbrev IsFreeTo : ℕ → PathParts → Type 0
  IsFreeTo k path =
      (j : ℕ) → j < k → fs.exists (ancestor j path) && fs.is_symlink (ancestor j path) ≡ false

  free_one_more :
      (path : PathParts) (k : ℕ)
      → fs.exists path && fs.is_symlink path ≡ false
      → IsFreeTo k (parent path)
      → IsFreeTo (suc k) path
  unfolding ancestor
  free_one_more path k free above zero lt = free
  free_one_more path k free above (suc j) lt = above j (omega arith)

  -- Some path above `candidate`, or itself, leads to the repository, and no path before it is a link that exists.
  abbrev pub IsClear : PathParts → Type 0
  IsClear candidate =
      (k : ℕ) × (fs.resolve (ancestor k candidate) ≡ fs.resolve repository) × IsFreeTo k candidate

  parents-IsClear :
      (fuel : ℕ) (path : PathParts)
      → check_parents fs repository fuel path ≡ some (ok tt)
      → IsClear path
  unfolding check_parents ancestor
  parents-IsClear zero path h = absurd (ground arith)
  parents-IsClear (suc fuel) path h = elim (Bool-cases (fs.resolve path == fs.resolve repository)) [
    | inl arrived ↦ (
      0,
      (list_beq_iff (fs.resolve path) (fs.resolve repository)).0 arrived,
      λ j lt. absurd (omega arith),
    )
    | inr further ↦
        let (k, arrived, clear) = parents-IsClear fuel (parent path) (ground arith) in
        (suc k, arrived, free_one_more path k (ground arith) clear)
  ]

  check_parents_ok :
      (fuel : ℕ) (path : PathParts)
      → check_parents fs repository fuel path ≢ none
      → IsClear path
      → check_parents fs repository fuel path ≡ some (ok tt)
  unfolding check_parents ancestor
  check_parents_ok zero path ended clear = absurd (ended refl)
  check_parents_ok (suc fuel) path ended (zero, arrived, clear) =
      ground (arith, list_beq_iff (fs.resolve path) (fs.resolve repository))
  check_parents_ok (suc fuel) path ended (suc k, arrived, clear) =
      let free : fs.exists path && fs.is_symlink path ≡ false = clear 0 (omega arith) in
      elim (Bool-cases (fs.resolve path == fs.resolve repository)) [
        | inl here ↦ ground arith
        | inr further ↦
            let rest =
              check_parents_ok fuel (parent path) (λ stuck. ended (ground arith))
                (k, arrived, λ j lt. clear (suc j) (omega arith)) in
            ground arith
      ]

  longer_ends :
      (fuel : ℕ) (part : List ℕ) (path : PathParts)
      → check_parents fs repository fuel path ≢ none
      → check_parents fs repository (suc fuel) (part ∷ path) ≢ none
  unfolding check_parents parent
  longer_ends fuel part path ended none_left = ground arith

  joined_ends :
      (fuel : ℕ) (path : PathParts) (parts : List (List ℕ))
      → check_parents fs repository fuel path ≢ none
      → check_parents fs repository (fuel + length parts) (join_path path parts) ≢ none
  unfolding join_path
  joined_ends fuel path [] ended =
      subst (λ n. check_parents fs repository n path ≢ none) (omega arith) ended
  joined_ends fuel path (part ∷ parts) ended =
      subst (λ n. check_parents fs repository n (join_path (part ∷ path) parts) ≢ none)
        (omega arith)
        (joined_ends (suc fuel) (part ∷ path) parts (longer_ends fuel part path ended))

  abbrev pub IsInside : PathParts → Type 0
  IsInside d =
      (d ≢ fs.resolve repository)
      × ((below : PathParts) × (below ≢ []) × (d ≡ below ++ evidence_root fs repository))

  -- A directory below the one for evidence, whose candidate has no link on its way.
  abbrev pub IsConfined : PathParts → PathParts → Type 0
  IsConfined candidate directory =
      (directory ≡ fs.resolve candidate) × IsInside directory × IsClear candidate

  parents_end :
      (parts : List (List ℕ))
      → check_parents fs repository (suc (length parts)) (join_path repository parts) ≢ none
  unfolding check_parents
  parents_end parts =
      let ends : check_parents fs repository 1 repository ≢ none =
        λ stuck. ground (arith, list_beq_iff (fs.resolve repository) (fs.resolve repository)) in
      subst (λ n. check_parents fs repository n (join_path repository parts) ≢ none)
        {y = suc (length parts)} (omega arith) (joined_ends 1 repository parts ends)

  -- The two tests of the resolved directory.
  tests-IsInside :
      (d : PathParts)
      → (((d == fs.resolve repository || not (is_relative_to d (evidence_root fs repository)))
            ≡ false)
          × ((d == evidence_root fs repository) ≡ false))
        ↔ IsInside d
  tests-IsInside d =
      let root = evidence_root fs repository in
      let same_root = list_beq_iff d root in
      let same_repository = list_beq_iff d (fs.resolve repository) in
      (
        λ (inside, strict).
            let (below, joined) = related_below d root (ground arith) in
            (
              λ same. ground (arith, same_repository),
              (
                below,
                λ empty.
                    let same : d ≡ root = joined ∙ ap (λ b. b ++ root) empty in
                    ground (arith, same_root),
                joined,
              ),
            ),
        λ (outside, (below, some_below, joined)).
            let related : is_relative_to d root ≡ true =
              subst (λ p. is_relative_to p root ≡ true) (sym joined) (below_related below root) in
            let strict : d ≢ root =
              λ same. some_below (append_same below root (sym joined ∙ same)) in
            (ground (arith, same_repository), ground (arith, same_root)),
      )

  -- What becomes of the two tests and of the loop.
  candidate_cases :
      (fuel : ℕ) (candidate : PathParts)
      → let resolved = fs.resolve candidate in
        let outside =
          resolved == fs.resolve repository
          || not (is_relative_to resolved (evidence_root fs repository)) in
        let is_root = resolved == evidence_root fs repository in
        let loop = check_parents fs repository fuel candidate in
        let checked = check_candidate fs repository fuel candidate in
        (checked ≡ none → loop ≡ none)
        × ((directory : PathParts)
            → checked ≡ some (ok directory)
            → (outside ≡ false)
              × (is_root ≡ false)
              × (loop ≡ some (ok tt))
              × (directory ≡ resolved))
  unfolding check_candidate
  candidate_cases fuel candidate =
      let resolved = fs.resolve candidate in
      elim (Bool-cases (
        resolved == fs.resolve repository
        || not (is_relative_to resolved (evidence_root fs repository)))) [
          | inl out ↦ rw (out, check_candidate) (ground arith)
          | inr inside ↦ elim (Bool-cases (resolved == evidence_root fs repository)) [
            | inl root ↦ rw (inside, root, check_candidate) (ground arith)
            | inr strict ↦ rw (inside, strict, check_candidate) (ground arith)
          ]
        ]

  candidate-IsConfined :
      (fuel : ℕ) (candidate directory : PathParts)
      → check_parents fs repository fuel candidate ≢ none
      → (check_candidate fs repository fuel candidate ≡ some (ok directory))
        ↔ IsConfined candidate directory
  unfolding check_candidate
  candidate-IsConfined fuel candidate directory ends = (
    λ h.
        let (in_evidence, strict, loop_ok, same) = (candidate_cases fuel candidate).1 directory h in
        let inside = (tests-IsInside (fs.resolve candidate)).0 (in_evidence, strict) in
        (same, subst IsInside (sym same) inside, parents-IsClear fuel candidate loop_ok),
    λ (same, inside, clear).
        let loop_ok = check_parents_ok fuel candidate ends clear in
        let (in_evidence, strict) =
          (tests-IsInside (fs.resolve candidate)).1 (subst IsInside same inside) in
        rw (in_evidence, strict, loop_ok, check_candidate) (ap (λ d. some (ok d)) (sym same)),
  )

  -- The output directory is always decided, the loop over the parents included. A directory is accepted
  -- exactly if the argument has parts and it is what the path of these parts below the repository resolves
  -- to, this is not the repository, it is strictly below the resolved evidence directory, and going up from the path
  -- there is no link that exists before the first path that resolves to the repository.
  pub resolve_output_directory_iff :
      (verification_id : List ℕ) (argument : Option String)
      → (resolve_output_directory fs repository verification_id argument ≢ none)
        × ((directory : PathParts)
            → (resolve_output_directory fs repository verification_id argument
                ≡ some (ok directory))
              ↔ ((parts : List (List ℕ)) × (output_parts verification_id argument ≡ ok parts)
                  × IsConfined (join_path repository parts) directory))
  unfolding resolve_output_directory
  resolve_output_directory_iff verification_id argument =
      elim (Result-cases (output_parts verification_id argument)) [
        | inr (e, refused) ↦
            rw (refused, resolve_output_directory)
              (
                λ stuck. ground arith,
                λ directory.
                    ((λ h. absurd (ground arith)), λ (parts, accepted, _). absurd (ground arith)),
              )
        | inl (parts, accepted) ↦
            let fuel = suc (length parts) in
            let candidate = join_path repository parts in
            let ends = parents_end parts in
            rw (accepted, resolve_output_directory)
              (
                λ stuck. ends ((candidate_cases fuel candidate).0 stuck),
                λ directory. (
                  λ h. (parts, refl, (candidate-IsConfined fuel candidate directory ends).0 h),
                  λ (parts', same, confined).
                      (candidate-IsConfined fuel candidate directory ends).1 (
                        subst (λ ps. IsConfined (join_path repository ps) directory)
                          (sym (ok-injective same)) confined),
                ),
              )
      ]
