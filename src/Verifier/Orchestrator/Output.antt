-- ===== src/Verifier/Orchestrator/Output.antt =====
-- verifier/orchestrator.py: `resolve_output_directory`. An absolute path is its parts, the last one first, so
-- that its parent is the tail.
pub mod Confined
use fixrepro.Base.{
  ℕ, zero, suc, ◌+◌, ◌<◌, ◌≡◌, ◌≢◌, ◌⊎◌, ◌↔◌, inl, inr, refl, sym, subst, ap, ◌∙◌, String, Bool,
  true, false, not, ◌&&◌, ◌||◌, ◌==◌, nat_eq, list_eq, list_beq_iff, Bool-cases, Option, none, some,
  if◌then◌else◌, arith, List, [], ◌∷◌, ◌++◌, length, contains, codes,
}
use fixrepro.Core.Errors.{Result, ok, raise, bundle_error, Result-cases}
use fixrepro.Verifier.Paths.{split_slash, components, is_absolute, dot_dot}

abbrev pub PathParts : Type 0
PathParts = List (List ℕ)

-- What the code asks of the file system.
pub record FileSystem : Type 0 where
  pub resolve : PathParts → PathParts
  pub exists : PathParts → Bool
  pub is_symlink : PathParts → Bool

-- `path.parent`; the root is its own parent.
unfoldable pub parent : PathParts → PathParts
parent [] = []
parent (_ ∷ above) = above

-- `base / part / …`
unfoldable pub join_path : PathParts → List (List ℕ) → PathParts
join_path base [] = base
join_path base (part ∷ parts) = join_path (part ∷ base) parts

-- `path.is_relative_to(base)`
unfoldable pub is_relative_to : PathParts → PathParts → Bool
is_relative_to [] base = [] == base
is_relative_to (part ∷ above) base = (part ∷ above) == base || is_relative_to above base

-- The parts below the repository of the directory that is asked for.
unfoldable pub output_parts : List ℕ → Option String → Result (List (List ℕ))
output_parts verification_id none = ok (codes "evidence" ∷ codes "runs" ∷ verification_id ∷ [])
output_parts verification_id (some argument) =
    let parts = components (split_slash (codes argument)) in
    if is_absolute (codes argument) || contains parts dot_dot
    then raise (bundle_error "output directory must be a traversal-free repository-relative path")
    else ok parts

module _ (fs : FileSystem) (repository : PathParts) where
  -- The `while` loop; none if it has not ended after `fuel` steps.
  unfoldable pub check_parents : ℕ → PathParts → Option (Result (Unit {0}))
  unfolding parent
  check_parents zero current = none
  check_parents (suc fuel) current =
      let rest = check_parents fuel (parent current) in
      if fs.resolve current == fs.resolve repository
      then some (ok tt)
      else if fs.exists current && fs.is_symlink current
      then some (raise (bundle_error "output directory or one of its parents may not be a symlink"))
      else rest

  abbrev pub evidence_root : PathParts
  evidence_root = fs.resolve (codes "evidence" ∷ repository)

  -- From the resolved candidate on.
  unfoldable pub check_candidate : ℕ → PathParts → Option (Result PathParts)
  unfolding check_parents is_relative_to
  check_candidate fuel candidate =
      let resolved = fs.resolve candidate in
      if resolved == fs.resolve repository || not (is_relative_to resolved evidence_root)
      then some (
          raise
            (bundle_error "output directory must be a child of the repository evidence directory"))
      else if resolved == evidence_root
      then some (raise (bundle_error "the evidence directory itself cannot be used as output"))
      else elim (check_parents fuel candidate) [
        | none ↦ none
        | some (raise e) ↦ some (raise e)
        | some (ok _) ↦ some (ok resolved)
      ]

  unfoldable pub resolve_output_directory : List ℕ → Option String → Option (Result PathParts)
  unfolding output_parts check_candidate join_path
  resolve_output_directory verification_id argument = elim (output_parts verification_id argument) [
    | raise e ↦ some (raise e)
    | ok parts ↦ check_candidate (suc (length parts)) (join_path repository parts)
  ]
