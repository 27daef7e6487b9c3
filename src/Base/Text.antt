-- ===== src/Base/Text.antt =====
-- Bytes, and what the models' field patterns ask of a text.
use Prim.Native.Nat.{ℕ}
use Prim.Native.Char.{code}
use Prim.Native.String.{String}
use mathlib.Core.Bool.{Bool, ◌&&◌, ◌||◌}
use mathlib.Core.List.{List, [], ◌∷◌}
use fixrepro.Base.Tests.{leb}
use fixrepro.Base.Equality.{◌==◌, nat_eq}
use fixrepro.Base.Lists.{length, all}

abbrev pub Bytes : Type 0
Bytes = List ℕ

-- The code points of a text.
abbrev pub codes : String → List ℕ
codes String.[] = []
codes (String.◌∷◌ c s) = code c ∷ codes s

-- Python's `len` of a `str`.
unfoldable pub count_chars : String → ℕ
count_chars s = length (codes s)

-- `[a-f0-9]`
unfoldable pub is_hex : ℕ → Bool
is_hex c = leb b'a' c && leb c b'f' || leb b'0' c && leb c b'9'

-- `^[a-f0-9]{64}$`
unfoldable pub is_sha256 : String → Bool
unfolding is_hex
is_sha256 s = length (codes s) == 64 && all is_hex (codes s)
