-- ===== src/Verifier/Paths.antt =====
-- verifier/bundle.py: `_safe_relative_path`. A path is a list of code points; `PurePosixPath` is its
-- components without the empty ones and the single dots.
pub mod Safe
use fixrepro.Base.{
  ℕ, String, Bool, true, false, not, ◌&&◌, ◌||◌, leb, ◌==◌, nat_eq, list_eq, if◌then◌else◌, List,
  [], ◌∷◌, ◌++◌, all, contains, codes, ◌⊎◌, inl, inr,
}

pub data PathError : Type 0 where
  posix_separators drive_letter absolute unsafe_component not_normalized : PathError

abbrev pub is_letter : ℕ → Bool
is_letter c = leb b'A' c && leb c b'Z' || leb b'a' c && leb c b'z'

-- `re.match(r"^[A-Za-z]:", value)`
unfoldable pub has_drive : List ℕ → Bool
has_drive (c ∷ d ∷ _) = is_letter c && d == 58
has_drive _ = false

-- `value.split("/")`
unfoldable pub split_slash : List ℕ → List (List ℕ)
split_slash [] = [] ∷ []
split_slash (c ∷ cs) =
    let rest = split_slash cs in
    if c == 47
    then [] ∷ rest
    else elim rest [ [] ↦ (c ∷ []) ∷ [] | part ∷ parts ↦ (c ∷ part) ∷ parts ]

abbrev pub is_component : List ℕ → Bool
is_component part = not (part == []) && not (part == b'.' ∷ [])

-- `path.parts` of a relative path.
unfoldable pub components : List (List ℕ) → List (List ℕ)
components [] = []
components (part ∷ parts) =
    let rest = components parts in if is_component part then part ∷ rest else rest

-- `"/".join(parts)`
unfoldable pub join_slash : List (List ℕ) → List ℕ
join_slash [] = []
join_slash (part ∷ []) = part
join_slash (part ∷ parts) = part ++ (47 ∷ join_slash parts)

-- `path.as_posix()`
unfoldable pub as_posix : List (List ℕ) → List ℕ
unfolding join_slash
as_posix [] = b'.' ∷ []
as_posix (part ∷ parts) = join_slash (part ∷ parts)

abbrev pub is_absolute : List ℕ → Bool
is_absolute [] = false
is_absolute (c ∷ _) = c == 47

abbrev pub dot_dot : List ℕ
dot_dot = b'.' ∷ b'.' ∷ []

-- The checks of a path with its parts, in their order.
unfoldable pub check_parts : List ℕ → List (List ℕ) → PathError ⊎ List (List ℕ)
check_parts value parts =
    if contains value 92
    then inl posix_separators
    else if has_drive value
    then inl drive_letter
    else if is_absolute value
    then inl absolute
    else if parts == [] || contains parts dot_dot || contains parts (b'.' ∷ [])
    then inl unsafe_component
    else if not (as_posix parts == value)
    then inl not_normalized
    else inr parts

unfoldable pub safe_relative_path : String → PathError ⊎ List (List ℕ)
unfolding check_parts
safe_relative_path value = check_parts (codes value) (components (split_slash (codes value)))
