-- ===== src/Prelude/Format.antt =====
-- Texts that the program builds: what it uses of Go's `fmt`, `strings` and `sort`.
use Prim.Native.String
use mathlib.Core.List.{List, [], ◌∷◌}
use Prim.Native.Nat.{ℕ, zero, suc, ◌/◌, ◌%◌}
use Prim.Native.Char.{code}
use Prim.Native.String.{String}
use mathlib.Core.Bool.{Bool, true, false, ◌&&◌, ◌||◌}
use sgsu.Prelude.Tests.{ltb, ◌==◌, if◌then◌else◌}
use sgsu.Prelude.Integers.{ℤ, pos, negsuc}
use sgsu.Prelude.Text.{codes}

infixr 60 ◌^^◌
-- `+` on strings
abbrev pub ◌^^◌ : String → String → String
a ^^ b = String.◌++◌ a b

-- `strings.Join`
abbrev pub join : String → List String → String
join sep [] = ""
join sep (s ∷ []) = s
join sep (s ∷ ss) = s ^^ (sep ^^ join sep ss)

-- All texts, one after the other
abbrev pub concat : List String → String
concat ss = join "" ss

abbrev nth_text : ℕ → List String → String
nth_text n [] = ""
nth_text zero (s ∷ ss) = s
nth_text (suc n) (s ∷ ss) = nth_text n ss

abbrev pub digit_text : ℕ → String
digit_text n = nth_text n (
    "0" ∷ "1" ∷ "2" ∷ "3" ∷ "4" ∷ "5" ∷ "6" ∷ "7" ∷ "8" ∷ "9" ∷ "a" ∷ "b" ∷ "c" ∷ "d" ∷ "e" ∷ "f"
    ∷ [])

-- The digits of a number in a base; the fuel is the number itself, which has fewer digits.
abbrev pub digits : (base fuel n : ℕ) → String
digits base zero n = digit_text n
digits base (suc fuel) n = elim (ltb n base) [
  | true ↦ digit_text n
  | false ↦ digits base fuel (n / base) ^^ digit_text (n % base)
]

-- `%d`
abbrev pub decimal_text : ℕ → String
decimal_text n = digits 10 n n

abbrev pub int_text : ℤ → String
int_text (pos n) = decimal_text n
int_text (negsuc n) = "-" ^^ decimal_text (suc n)

-- `0x%x`
abbrev pub hex_text : ℤ → String
hex_text (pos n) = "0x" ^^ digits 16 n n
hex_text (negsuc n) = "0x-" ^^ digits 16 (suc n) (suc n)

-- A character of `%q`; every character after ASCII is taken as printable.
abbrev pub quote_char : ℕ → String → String
quote_char c s =
    if c == 34
    then "\\\""
    else if c == 92
    then "\\\\"
    else if c == 7
    then "\\a"
    else if c == 8
    then "\\b"
    else if c == 9
    then "\\t"
    else if c == 10
    then "\\n"
    else if c == 11
    then "\\v"
    else if c == 12
    then "\\f"
    else if c == 13
    then "\\r"
    else if ltb c 32 || c == 127
    then "\\x" ^^ (digit_text (c / 16) ^^ digit_text (c % 16))
    else s

abbrev quote_chars : String → String
quote_chars String.[] = ""
quote_chars (String.◌∷◌ c s) = quote_char (code c) (String.◌∷◌ c "") ^^ quote_chars s

-- `%q`
unfoldable pub quote : String → String
quote s = "\"" ^^ (quote_chars s ^^ "\"")

-- Go's `<` on strings. It compares bytes, and UTF-8 keeps the order of the code points.
abbrev pub before_codes : List ℕ → List ℕ → Bool
before_codes xs [] = false
before_codes [] (b ∷ bs) = true
before_codes (a ∷ xs) (b ∷ bs) = ltb a b || (a == b && before_codes xs bs)

abbrev pub insert_text : String → List String → List String
insert_text s [] = s ∷ []
insert_text s (t ∷ ts) = elim (before_codes (codes t) (codes s)) [
  | true ↦ t ∷ insert_text s ts
  | false ↦ s ∷ t ∷ ts
]

-- `sort.Strings`
unfoldable pub sort_texts : List String → List String
sort_texts [] = []
sort_texts (s ∷ ss) = insert_text s (sort_texts ss)
