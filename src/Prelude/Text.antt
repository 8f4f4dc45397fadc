-- ===== src/Prelude/Text.antt =====
-- `str.strip`, `str.lower` and equality, over the code points of a text.
use Prim.Native.Nat.{ℕ, ◌+◌}
use Prim.Native.Char.{code}
use Prim.Native.String.{String, ◌++◌ as str_append}
use mathlib.Core.Bool.{Bool, true, false, ◌&&◌, ◌||◌}
use mathlib.Core.List.{List, [], ◌∷◌, reverse}
use fragchain_core.Prelude.Tests.{leb, ◌==◌, if◌then◌else◌}

abbrev pub codes : String → List ℕ
codes String.[] = []
codes (String.◌∷◌ c s) = code c ∷ codes s

abbrev between : ℕ → ℕ → ℕ → Bool
between lo c hi = leb lo c && leb c hi

-- `str.isspace`: every code point that Python strips.
unfoldable pub is_space : ℕ → Bool
is_space c =
    between 9 c 13
    || between 28 c 32
    || c == 0x85
    || c == 0xa0
    || c == 0x1680
    || between 0x2000 c 0x200a
    || between 0x2028 c 0x2029
    || c == 0x202f
    || c == 0x205f
    || c == 0x3000

unfoldable pub lstrip : List ℕ → List ℕ
unfolding is_space
lstrip [] = []
lstrip (c ∷ s) = let rest = lstrip s in if is_space c then rest else c ∷ s

unfoldable pub strip : List ℕ → List ℕ
unfolding lstrip
strip s = reverse (lstrip (reverse (lstrip s)))

-- The ASCII part of `str.lower`; any other code point is left as it is.
unfoldable pub lower : ℕ → ℕ
lower c = if between b'A' c b'Z' then c + 32 else c

abbrev pub same_codes : List ℕ → List ℕ → Bool
same_codes [] [] = true
same_codes (c ∷ s) (d ∷ t) = c == d && same_codes s t
same_codes _ _ = false

-- An f-string, from its parts.
abbrev pub fstring : List String → String
fstring [] = ""
fstring (part ∷ parts) = str_append part (fstring parts)
