-- ===== src/Verifier/Verdicts/Roles.antt =====
-- One execution per role: the counts, the dictionary by role, and their independence of the order.
use mathlib.Core.List.{Permᴰ}
use fixrepro.Base.{
  suc, ◌≤◌, ◌≡◌, ◌≢◌, inl, inr, refl, sym, ap, ◌∙◌, Bool, none, some, ◌==◌, nat_eq, arith,
  Bool-cases, Option-cases, List, [], ◌∷◌, length, any, ◌||◌,
}
use fixrepro.Verifier.Models.{ExecutionRole, ExecutionEvidence, role_eq, role_beq_iff}
use fixrepro.Verifier.Verdicts.{count_role, by_role}

pub count_role-perm :
    (role : ExecutionRole) {xs ys : List ExecutionEvidence}
    → Permᴰ xs ys
    → count_role role xs ≡ count_role role ys
unfolding count_role
count_role-perm role Permᴰ.nil = refl
count_role-perm role (Permᴰ.cons e d) = ground (arith, count_role-perm role d)
count_role-perm role (Permᴰ.swap e e') = ground arith
count_role-perm role (Permᴰ.trans d d') = count_role-perm role d ∙ count_role-perm role d'

pub length-perm : {xs ys : List ExecutionEvidence} → Permᴰ xs ys → length xs ≡ length ys
length-perm Permᴰ.nil = refl
length-perm (Permᴰ.cons e d) = ap suc (length-perm d)
length-perm (Permᴰ.swap e e') = refl
length-perm (Permᴰ.trans d d') = length-perm d ∙ length-perm d'

pub any-perm :
    (f : ExecutionEvidence → Bool) {xs ys : List ExecutionEvidence}
    → Permᴰ xs ys
    → any f xs ≡ any f ys
any-perm f Permᴰ.nil = refl
any-perm f (Permᴰ.cons e d) = cc (e, any-perm f d)
any-perm f (Permᴰ.swap {a = a} {b = b} {l = l} e e') =
    rw (sym e, sym e') (or_swap (f a) (f b) (any f l))
  where
    or_swap : (a b c : Bool) → (a || (b || c)) ≡ (b || (a || c))
    or_swap a b c = ground arith
any-perm f (Permᴰ.trans d d') = any-perm f d ∙ any-perm f d'

-- A role that occurs at most once is looked up alike in every order.
pub by_role-perm :
    (role : ExecutionRole) {xs ys : List ExecutionEvidence}
    → Permᴰ xs ys
    → count_role role xs ≤ 1
    → by_role role xs ≡ by_role role ys
unfolding count_role by_role
by_role-perm role Permᴰ.nil h = refl
by_role-perm role (Permᴰ.cons e d) h = ground (arith, by_role-perm role d)
by_role-perm role (Permᴰ.swap e e') h = ground arith
by_role-perm role (Permᴰ.trans {l₁ = xs} {l₂ = ys} d d') h =
    by_role-perm role d h ∙ by_role-perm role d' (omega (arith, count_role-perm role d))

by_role-none :
    (role : ExecutionRole) (xs : List ExecutionEvidence)
    → by_role role xs ≡ none
    → count_role role xs ≡ 0
unfolding count_role by_role
by_role-none role [] h = refl
by_role-none role (e ∷ es) h = ground (arith, by_role-none role es)

by_role-role :
    (role : ExecutionRole) (xs : List ExecutionEvidence) (e : ExecutionEvidence)
    → by_role role xs ≡ some e
    → e.role ≡ role
unfolding by_role
by_role-role role [] e h = cc
by_role-role role (x ∷ xs) e h = ground (arith, by_role-role role xs e)

-- A role that occurs is found, with an execution of that role.
pub by_role-found :
    (role : ExecutionRole) (xs : List ExecutionEvidence)
    → count_role role xs ≢ 0
    → (e : ExecutionEvidence) × (by_role role xs ≡ some e) × (e.role ≡ role)
unfolding count_role by_role
by_role-found role [] h = absurd (h refl)
by_role-found role (e ∷ es) h = elim (Option-cases (by_role role es)) [
  | inl missing ↦ elim (Bool-cases (e.role == role)) [
    | inl this ↦ (e, rw (missing, this), (role_beq_iff e.role role).0 this)
    | inr other ↦ absurd (ground (arith, by_role-none role es missing))
  ]
  | inr (found, is_found) ↦ (found, rw is_found, by_role-role role es found is_found)
]
