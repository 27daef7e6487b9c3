-- ===== src/Core/Canonical/Injective.antt =====
-- The canonical bytes determine the manifest: nothing that is signed can be read as another
-- manifest. Each printed piece has a reader that returns the piece and what follows it.
use mathlib.Core.List.{append_cancel_left}
use text.Mathlib.TextEquality.{Char-path}
use fixrepro.Base.{
  ℕ, zero, suc, ◌+◌, ◌-◌, ◌*◌, ◌/◌, ◌%◌, ◌<◌, ◌≡◌, refl, sym, ap, ◌∙◌, String, Option, none, some,
  ◌==◌, nat_eq, ltb, leb, if◌then◌else◌, List, [], ◌∷◌, ◌++◌, Bytes, codes, arith, ◌&&◌, Bool-cases,
  inl, inr,
}
use fixrepro.Core.Models.{Manifest}
use fixrepro.Core.Canonical.{
  utf8_char, utf8, hex_digit, escape_char, escape, decimal, text_item, number_item, canonical_text,
  canonical_manifest_bytes,
}

cons_parts {ℓ} : {A : Type ℓ} {x y : A} {xs ys : List A} → x ∷ xs ≡ y ∷ ys → (x ≡ y) × (xs ≡ ys)
cons_parts h = ground arith

-- Reads one UTF-8 sequence.
utf8_first : Bytes → Option (ℕ × Bytes)
utf8_first [] = none
utf8_first (a ∷ []) = some (a, [])
utf8_first (a ∷ b ∷ []) =
    if ltb a 0x80 then some (a, b ∷ []) else some ((a - 0xc0) * 64 + (b - 0x80), [])
utf8_first (a ∷ b ∷ c ∷ []) =
    if ltb a 0x80
    then some (a, b ∷ c ∷ [])
    else if ltb a 0xe0
    then some ((a - 0xc0) * 64 + (b - 0x80), c ∷ [])
    else some ((a - 0xe0) * 4096 + (b - 0x80) * 64 + (c - 0x80), [])
utf8_first (a ∷ b ∷ c ∷ d ∷ r) =
    if ltb a 0x80
    then some (a, b ∷ c ∷ d ∷ r)
    else if ltb a 0xe0
    then some ((a - 0xc0) * 64 + (b - 0x80), c ∷ d ∷ r)
    else if ltb a 0xf0
    then some ((a - 0xe0) * 4096 + (b - 0x80) * 64 + (c - 0x80), d ∷ r)
    else some ((a - 0xf0) * 262144 + (b - 0x80) * 4096 + (c - 0x80) * 64 + (d - 0x80), r)

utf8_first_lem : (c : ℕ) (r : Bytes) → utf8_first (utf8_char c ++ r) ≡ some (c, r)
unfolding utf8_first utf8_char
utf8_first_lem c [] = ground arith
utf8_first_lem c (x ∷ []) = ground arith
utf8_first_lem c (x ∷ y ∷ []) = ground arith
utf8_first_lem c (x ∷ y ∷ z ∷ r) = ground arith

some_pair {ℓ κ} :
    {A : Type ℓ} {B : Type κ} {a b : A} {r s : B}
    → ◌≡◌ {A = Option (A × B)} (some (a, r)) (some (b, s))
    → (a ≡ b) × (r ≡ s)
some_pair h = ground arith

utf8_char_cancel : (c d : ℕ) (r s : Bytes) → utf8_char c ++ r ≡ utf8_char d ++ s → (c ≡ d) × (r ≡ s)
utf8_char_cancel c d r s h =
    some_pair (sym (utf8_first_lem c r) ∙ ap utf8_first h ∙ utf8_first_lem d s)

utf8_char-ne-nil : (c : ℕ) (r : Bytes) → utf8_char c ++ r ≡ [] → ⊥
unfolding utf8_char
utf8_char-ne-nil c r h = ground arith

-- UTF-8 is injective.
pub utf8-injective : (cs ds : List ℕ) → utf8 cs ≡ utf8 ds → cs ≡ ds
unfolding utf8
utf8-injective [] [] h = refl
utf8-injective [] (d ∷ ds) h = absurd (utf8_char-ne-nil d (utf8 ds) (sym h))
utf8-injective (c ∷ cs) [] h = absurd (utf8_char-ne-nil c (utf8 cs) h)
utf8-injective (c ∷ cs) (d ∷ ds) h =
    let (e, rest) = utf8_char_cancel c d (utf8 cs) (utf8 ds) h in cc (e, utf8-injective cs ds rest)

-- Reads one character of a JSON text; the inner `none` is the closing quote.
unescape : ℕ → ℕ
unescape c =
    if c == b'b'
    then 8
    else if c == b't'
    then 9
    else if c == b'n'
    then 10
    else if c == b'f'
    then 12
    else if c == b'r'
    then 13
    else c

hex_value : ℕ → ℕ
hex_value c = if ltb c 58 then c - 48 else c - 87

json_first : List ℕ → Option (Option ℕ × List ℕ)
unfolding unescape hex_value
json_first (a ∷ b ∷ z₁ ∷ z₂ ∷ h ∷ l ∷ r) =
    if a == 34
    then some (none, b ∷ z₁ ∷ z₂ ∷ h ∷ l ∷ r)
    else if a == 92
    then (if b == b'u'
        then some (some (hex_value h * 16 + hex_value l), r)
        else some (some (unescape b), z₁ ∷ z₂ ∷ h ∷ l ∷ r))
    else some (some a, b ∷ z₁ ∷ z₂ ∷ h ∷ l ∷ r)
json_first (a ∷ b ∷ r) =
    if a == 34
    then some (none, b ∷ r)
    else if a == 92
    then some (some (unescape b), r)
    else some (some a, b ∷ r)
json_first (a ∷ []) = if a == 34 then some (none, []) else some (some a, [])
json_first [] = none

json_first-quote : (r : List ℕ) → json_first (34 ∷ r) ≡ some (none, r)
unfolding json_first
json_first-quote [] = refl
json_first-quote (a ∷ []) = refl
json_first-quote (a ∷ b ∷ []) = refl
json_first-quote (a ∷ b ∷ c ∷ []) = refl
json_first-quote (a ∷ b ∷ c ∷ d ∷ []) = refl
json_first-quote (a ∷ b ∷ c ∷ d ∷ e ∷ r) = refl

json_first-escape_char : (c : ℕ) (r : List ℕ) → json_first (escape_char c ++ r) ≡ some (some c, r)
unfolding json_first escape_char hex_digit
json_first-escape_char c [] = ground arith
json_first-escape_char c (x ∷ []) = ground arith
json_first-escape_char c (x ∷ y ∷ []) = ground arith
json_first-escape_char c (x ∷ y ∷ z ∷ []) = ground arith
json_first-escape_char c (x ∷ y ∷ z ∷ w ∷ []) = ground arith
json_first-escape_char c (x ∷ y ∷ z ∷ w ∷ v ∷ r) = ground arith

-- A JSON text ends at its closing quote, so what follows is determined too.
escape_cancel : (cs ds r s : List ℕ) → escape cs r ≡ escape ds s → (cs ≡ ds) × (r ≡ s)
unfolding escape
escape_cancel [] [] r s h = ground arith
escape_cancel [] (d ∷ ds) r s h = absurd (
    ground
      (arith, sym (json_first-quote r) ∙ ap json_first h ∙ json_first-escape_char d (escape ds s)))
escape_cancel (c ∷ cs) [] r s h = absurd (
    ground
      (arith, sym (json_first-escape_char c (escape cs r)) ∙ ap json_first h ∙ json_first-quote s))
escape_cancel (c ∷ cs) (d ∷ ds) r s h =
    let (e, rest) = some_pair (
      sym (json_first-escape_char c (escape cs r))
      ∙ ap json_first h
      ∙ json_first-escape_char d (escape ds s)) in
    let (es, follows) = escape_cancel cs ds r s rest in (cc (e, es), follows)

-- Reads decimal digits behind the value of those already read.
number_first : ℕ → List ℕ → ℕ × List ℕ
number_first n [] = (n, [])
number_first n (c ∷ r) =
    let more = number_first (n * 10 + (c - 48)) r in
    if leb 48 c && leb c 57 then more else (n, c ∷ r)

number_first-decimal :
    (fuel n : ℕ) (r : List ℕ) → n < fuel → number_first 0 (decimal fuel n r) ≡ number_first n r
unfolding number_first decimal
number_first-decimal zero n r h = absurd (omega arith)
number_first-decimal (suc f) n r h = elim (Bool-cases (ltb n 10)) [
  | inl small ↦ rw small (ground arith)
  | inr large ↦
      rw large (number_first-decimal f (n / 10) ((b'0' + n % 10) ∷ r) (ground arith) ∙ ground arith)
]

decimal_cancel :
    (m n : ℕ) (r s : List ℕ)
    → decimal (suc m) m (44 ∷ r) ≡ decimal (suc n) n (44 ∷ s)
    → (m ≡ n) × (r ≡ s)
unfolding number_first
decimal_cancel m n r s h = ground (
  arith,
  number_first-decimal (suc m) m (44 ∷ r),
  number_first-decimal (suc n) n (44 ∷ s),
  ap (number_first 0) h,
)

codes-injective : (s t : String) → codes s ≡ codes t → s ≡ t
codes-injective String.[] String.[] h = refl
codes-injective String.[] (String.◌∷◌ d t) h = cc
codes-injective (String.◌∷◌ c s) String.[] h = cc
codes-injective (String.◌∷◌ c s) (String.◌∷◌ d t) h =
    let (e, es) = cons_parts h in cc (Char-path c d e, codes-injective s t es)

text_item_cancel :
    (key v w : String) (r s : List ℕ) → text_item key v r ≡ text_item key w s → (v ≡ w) × (r ≡ s)
unfolding text_item
text_item_cancel key v w r s h =
    let (_, behind) = cons_parts (append_cancel_left (codes key) _ _ h) in
    let (e, rest) = escape_cancel (codes v) (codes w) r s behind in (codes-injective v w e, rest)

-- The size stands before a comma.
size_item_cancel :
    (v w : String) (m n : ℕ) (r s : List ℕ)
    → number_item ",\"payload_size\":" m (text_item ",\"schema_version\":" v r)
      ≡ number_item ",\"payload_size\":" n (text_item ",\"schema_version\":" w s)
    → (m ≡ n) × (text_item ",\"schema_version\":" v r ≡ text_item ",\"schema_version\":" w s)
unfolding number_item text_item
size_item_cancel v w m n r s h =
    let (e, rest) =
      decimal_cancel m n _ _ (append_cancel_left (codes ",\"payload_size\":") _ _ h) in
    (e, ap (λ (l : List ℕ). 44 ∷ l) rest)

-- Two manifests with the same canonical bytes are equal, whatever quotes, backslashes, control or
-- non-ASCII characters their texts hold: a signature over those bytes is over one manifest.
pub canonical_manifest_bytes-injective :
    (m n : Manifest) → canonical_manifest_bytes m ≡ canonical_manifest_bytes n → m ≡ n
unfolding canonical_manifest_bytes canonical_text
canonical_manifest_bytes-injective m n h =
    let (firmware, h₁) = text_item_cancel "{\"firmware_version\":" _ _ _ _ (utf8-injective _ _ h) in
    let (id, h₂) = text_item_cancel ",\"package_id\":" _ _ _ _ h₁ in
    let (hash, h₃) = text_item_cancel ",\"payload_sha256\":" _ _ _ _ h₂ in
    let (size, h₄) = size_item_cancel _ _ _ _ _ _ h₃ in
    let (schema, h₅) = text_item_cancel ",\"schema_version\":" _ _ _ _ h₄ in
    let (algorithm, _) = text_item_cancel ",\"signature_algorithm\":" _ _ _ _ h₅ in
    cc (firmware, id, hash, size, schema, algorithm)
