-- ===== src/Core/Canonical.antt =====
-- `canonical_manifest_bytes` of fixrepro_core/package.py: `json.dumps` of a flat object of texts and
-- one number, keys sorted, no spaces, `ensure_ascii=False`, encoded as UTF-8.
pub mod Injective
use fixrepro.Base.{
  ℕ, zero, suc, ◌+◌, ◌/◌, ◌%◌, String, ◌==◌, nat_eq, ltb, if◌then◌else◌, List, [], ◌∷◌, ◌++◌, Bytes,
  codes,
}
use fixrepro.Core.Models.{Manifest}

-- One UTF-8 sequence.
unfoldable pub utf8_char : ℕ → Bytes
utf8_char c =
    if ltb c 0x80
    then c ∷ []
    else if ltb c 0x800
    then (0xc0 + c / 64) ∷ (0x80 + c % 64) ∷ []
    else if ltb c 0x10000
    then (0xe0 + c / 4096) ∷ (0x80 + c / 64 % 64) ∷ (0x80 + c % 64) ∷ []
    else (0xf0 + c / 262144) ∷ (0x80 + c / 4096 % 64) ∷ (0x80 + c / 64 % 64) ∷ (0x80 + c % 64) ∷ []

-- `text.encode("utf-8")`
unfoldable pub utf8 : List ℕ → Bytes
utf8 [] = []
utf8 (c ∷ cs) = utf8_char c ++ utf8 cs

-- A lowercase hexadecimal digit.
unfoldable pub hex_digit : ℕ → ℕ
hex_digit d = if ltb d 10 then b'0' + d else 87 + d

-- One character inside a JSON text.
unfoldable pub escape_char : ℕ → List ℕ
escape_char c =
    if c == 34
    then 92 ∷ 34 ∷ []
    else if c == 92
    then 92 ∷ 92 ∷ []
    else if c == 8
    then 92 ∷ b'b' ∷ []
    else if c == 9
    then 92 ∷ b't' ∷ []
    else if c == 10
    then 92 ∷ b'n' ∷ []
    else if c == 12
    then 92 ∷ b'f' ∷ []
    else if c == 13
    then 92 ∷ b'r' ∷ []
    else if ltb c 32
    then 92 ∷ b'u' ∷ b'0' ∷ b'0' ∷ hex_digit (c / 16) ∷ hex_digit (c % 16) ∷ []
    else c ∷ []

-- The characters of a JSON text, and its closing quote.
unfoldable pub escape : List ℕ → List ℕ → List ℕ
escape [] rest = 34 ∷ rest
escape (c ∷ cs) rest = escape_char c ++ escape cs rest

-- `str(n)` before `rest`; the fuel is more than the number of digits.
unfoldable pub decimal : ℕ → ℕ → List ℕ → List ℕ
decimal zero n rest = rest
decimal (suc fuel) n rest =
    let more = decimal fuel (n / 10) ((b'0' + n % 10) ∷ rest) in
    if ltb n 10 then (b'0' + n) ∷ rest else more

-- `"key":` and a text value, before `rest`; `key` is written with its quotes and colon.
unfoldable pub text_item : String → String → List ℕ → List ℕ
text_item key value rest = codes key ++ 34 ∷ escape (codes value) rest

unfoldable pub number_item : String → ℕ → List ℕ → List ℕ
number_item key value rest = codes key ++ decimal (suc value) value rest

unfoldable pub canonical_text : Manifest → List ℕ
canonical_text m = text_item "{\"firmware_version\":" m.firmware_version (
    text_item ",\"package_id\":" m.package_id (
      text_item ",\"payload_sha256\":" m.payload_sha256 (
        number_item ",\"payload_size\":" m.payload_size (
          text_item ",\"schema_version\":" m.schema_version
            (text_item ",\"signature_algorithm\":" m.signature_algorithm (codes "}"))))))

unfoldable pub canonical_manifest_bytes : Manifest → Bytes
canonical_manifest_bytes m = utf8 (canonical_text m)
