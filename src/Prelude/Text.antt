-- ===== src/Prelude/Text.antt =====
-- Texts: what the program uses of Go's `strings` and `regexp`. A `String` is a list of code points;
-- Go's `len` counts bytes, as the native `len` does.
use Prim.Native.Nat.{ℕ}
use Prim.Native.Char.{Char, code}
use Prim.Native.String.{String}
use mathlib.Core.Bool.{Bool, false, ◌&&◌, ◌||◌}
use mathlib.Core.List.{List, [], ◌∷◌}
use sgsu.Prelude.Tests.{leb, ◌==◌, if◌then◌else◌}
use sgsu.Prelude.Lists.{length, all}

-- The code points of a text, what `for _, r := range s` visits.
abbrev pub codes : String → List ℕ
codes String.[] = []
codes (String.◌∷◌ c s) = code c ∷ codes s

abbrev pub between : ℕ → ℕ → ℕ → Bool
between lo hi c = leb lo c && leb c hi

abbrev pub is_lower : ℕ → Bool
is_lower = between b'a' b'z'

abbrev pub is_upper : ℕ → Bool
is_upper = between b'A' b'Z'

abbrev pub is_digit : ℕ → Bool
is_digit = between b'0' b'9'

-- `unicode.IsSpace`
unfoldable pub is_space : ℕ → Bool
is_space c =
    between 9 13 c
    || c == 32
    || c == 0x85
    || c == 0xa0
    || c == 0x1680
    || between 0x2000 0x200a c
    || c == 0x2028
    || c == 0x2029
    || c == 0x202f
    || c == 0x205f
    || c == 0x3000

unfoldable pub trim_left : String → String
unfolding is_space
trim_left String.[] = String.[]
trim_left (String.◌∷◌ c s) =
    let rest = trim_left s in if is_space (code c) then rest else String.◌∷◌ c s

abbrev pub add_trimmed : Char → String → String
add_trimmed c String.[] = if is_space (code c) then String.[] else String.◌∷◌ c String.[]
add_trimmed c s = String.◌∷◌ c s

unfoldable pub trim_right : String → String
unfolding is_space
trim_right String.[] = String.[]
trim_right (String.◌∷◌ c s) = add_trimmed c (trim_right s)

-- `strings.TrimSpace`
unfoldable pub trim_space : String → String
unfolding trim_left trim_right
trim_space s = trim_right (trim_left s)

-- The regular expression `^[first][more]{lo,hi}$`, over its two classes.
abbrev pub matches : (ℕ → Bool) → (ℕ → Bool) → ℕ → ℕ → List ℕ → Bool
matches first more lo hi [] = false
matches first more lo hi (c ∷ cs) = first c && all more cs && between lo hi (length cs)
