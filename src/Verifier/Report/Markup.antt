-- ===== src/Verifier/Report/Markup.antt =====
-- The characters of a text that HTML reads as markup, through escaping, numbers and lines.
use fixrepro.Base.{
  ℕ, zero, suc, ◌+◌, ◌/◌, ◌%◌, ◌≡◌, refl, sym, ap, ◌∙◌, inl, inr, Bool, true, false, ◌&&◌, ◌||◌,
  ◌==◌, nat_eq, ltb, Bool-cases, contains, arith, List, [], ◌∷◌, ◌++◌, if◌then◌else◌,
}
use mathlib.Core.List.{append_assoc}
use fixrepro.Core.Canonical.{decimal}
use fixrepro.Verifier.Models.{role_eq}
use fixrepro.Verifier.Report.{
  escape_html, escape_cell, space_characters, line_ends, rstrip, splitlines, join_lines,
}

-- `<`, `>` and the two quotes.
abbrev pub is_markup : ℕ → Bool
is_markup c = c == b'<' || c == b'>' || c == 34 || c == 39

unfoldable pub markups : List ℕ → List ℕ
markups [] = []
markups (c ∷ cs) = let rest = markups cs in if is_markup c then c ∷ rest else rest

pub markups-append : (xs ys : List ℕ) → markups (xs ++ ys) ≡ markups xs ++ markups ys
unfolding markups
markups-append [] ys = refl
markups-append (x ∷ xs) ys = elim (Bool-cases (is_markup x)) [
  | inl e ↦ rw (e, markups) (ap (λ m. x ∷ m) (markups-append xs ys))
  | inr e ↦ rw (e, markups) (markups-append xs ys)
]

markups-escape_html : (c : ℕ) → markups (escape_html c) ≡ []
unfolding markups escape_html
markups-escape_html c = ground arith

pub markups-escape_cell : (cs : List ℕ) → markups (escape_cell cs) ≡ []
unfolding escape_cell markups
markups-escape_cell [] = refl
markups-escape_cell (c ∷ cs) =
    rw
      (
        markups-append (escape_html c) (escape_cell cs),
        markups-escape_html c,
        markups-escape_cell cs,
      )
      refl

-- A character that is no markup is left out.
markups-plain : (c : ℕ) (cs : List ℕ) → is_markup c ≡ false → markups (c ∷ cs) ≡ markups cs
unfolding markups
markups-plain c cs plain = rw (plain, markups) refl

pub markups-decimal : (fuel n : ℕ) (rest : List ℕ) → markups (decimal fuel n rest) ≡ markups rest
unfolding decimal
markups-decimal zero n rest = refl
markups-decimal (suc fuel) n rest =
    let digit : is_markup (b'0' + n % 10) ≡ false = ground arith in
    elim (Bool-cases (ltb n 10)) [
      | inl e ↦ rw (e, decimal) (markups-plain (b'0' + n) rest (ground arith))
      | inr e ↦
          rw (e, decimal)
            (markups-decimal fuel (n / 10) ((b'0' + n % 10) ∷ rest)
              ∙ markups-plain (b'0' + n % 10) rest digit)
    ]

space_plain : (c : ℕ) → contains space_characters c ≡ true → is_markup c ≡ false
space_plain c h = ground arith

end_plain : (c : ℕ) → contains line_ends c ≡ true → is_markup c ≡ false
end_plain c h = ground arith

markups-cong :
    (c : ℕ) (xs ys : List ℕ) → markups xs ≡ markups ys → markups (c ∷ xs) ≡ markups (c ∷ ys)
unfolding markups
markups-cong c xs ys h = ap (λ m. if is_markup c then c ∷ m else m) h

markups-rstrip : (cs : List ℕ) → markups (rstrip cs) ≡ markups cs
unfolding rstrip
markups-rstrip [] = refl
markups-rstrip (c ∷ cs) = by_rest (rstrip cs) (markups-rstrip cs)
  where
    by_rest :
        (rest : List ℕ)
        → markups rest ≡ markups cs
        → markups (elim rest as (λ _. List ℕ) [
          | [] ↦ if contains space_characters c then [] else c ∷ []
          | d ∷ ds ↦ c ∷ d ∷ ds
        ])
          ≡ markups (c ∷ cs)
    by_rest [] h = elim (Bool-cases (contains space_characters c)) [
      | inl e ↦ rw e (h ∙ sym (markups-plain c cs (space_plain c e)))
      | inr e ↦ rw e (markups-cong c [] cs h)
    ]
    by_rest (d ∷ ds) h = markups-cong c (d ∷ ds) cs h

markups-line :
    (line rest : List ℕ) → markups (rstrip line ++ (10 ∷ rest)) ≡ markups line ++ markups rest
markups-line line rest =
    markups-append (rstrip line) (10 ∷ rest)
    ∙ ap (λ m. m ++ markups (10 ∷ rest)) (markups-rstrip line)
    ∙ ap (λ m. markups line ++ m) (markups-plain 10 rest refl)

markups-snoc :
    (line : List ℕ) (c : ℕ) (cs : List ℕ)
    → markups (line ++ (c ∷ [])) ++ markups cs ≡ markups line ++ markups (c ∷ cs)
unfolding markups
markups-snoc line c cs = elim (Bool-cases (is_markup c)) [
  | inl e ↦
      rw (markups-append line (c ∷ []), e, markups)
        (append_assoc (markups line) (c ∷ []) (markups cs))
  | inr e ↦
      rw (markups-append line (c ∷ []), e, markups) (append_assoc (markups line) [] (markups cs))
]

-- Splitting the page into lines and stripping them keeps the markup.
pub markups-lines :
    (after_cr : Bool) (line cs : List ℕ)
    → markups (join_lines (splitlines after_cr line cs)) ≡ markups line ++ markups cs
unfolding splitlines join_lines markups
markups-lines after_cr [] [] = refl
markups-lines after_cr (c ∷ cs) [] = markups-line (c ∷ cs) []
markups-lines after_cr line (c ∷ cs) = elim (Bool-cases (after_cr && c == 10)) [
  | inl e ↦
      let ten : is_markup c ≡ false = ground arith in
      rw (e, splitlines)
        (markups-lines false line cs ∙ ap (λ m. markups line ++ m) (sym (markups-plain c cs ten)))
  | inr e ↦ elim (Bool-cases (contains line_ends c)) [
    | inl e' ↦
        rw (e, e', splitlines)
          (markups-line line (join_lines (splitlines (c == 13) [] cs))
            ∙ ap (λ m. markups line ++ m)
                (markups-lines (c == 13) [] cs ∙ sym (markups-plain c cs (end_plain c e'))))
    | inr e' ↦
        rw (e, e', splitlines) (markups-lines false (line ++ (c ∷ [])) cs ∙ markups-snoc line c cs)
  ]
]
