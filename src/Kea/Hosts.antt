-- ===== src/Kea/Hosts.antt =====
-- internal/adapters/kea/hosts.go: the forms in which the table of reservations keeps hardware and
-- IPv4 addresses.
use Prim.Native.String.{len}
use Prim.Native.Char.{Char, code}
use sgsu.Prelude.{
  ℕ, zero, suc, ◌<◌, ◌^◌, Bool, true, false, not, ◌&&◌, ◌||◌, Option, none, some, String, List, [],
  ◌∷◌, ◌==◌, if◌then◌else◌, all, ◌≡◌, refl, arith, Bool-cases, inl, inr, ap, ◌∙◌,
}
use sgsu.Prelude.Text.{
  codes, add_trimmed, trim_space, trim_left, trim_right, is_space, is_digit, between,
}
use sgsu.Prelude.Format.{join}
use sgsu.Prelude.Net.{parse_ip, to4}
use sgsu.Prelude.Net.Texts.{ip_text, parse_ip-ip_text, all-ip_text}
use sgsu.Kea.{ip4_to_int}

-- `IntToIP4` of a number that is not negative
unfoldable pub int_to_ip4 : ℕ → String
unfolding ip_text
int_to_ip4 n = ip_text n

abbrev is_hex : ℕ → Bool
is_hex c = is_digit c || between b'a' b'f' c

abbrev is_separator : ℕ → Bool
is_separator c = c == b':' || c == b'-'

-- `macRe`, from the pair that comes next on
abbrev mac_codes : ℕ → List ℕ → Bool
mac_codes zero (a ∷ b ∷ []) = is_hex a && is_hex b
mac_codes (suc n) (a ∷ b ∷ c ∷ cs) = is_hex a && is_hex b && is_separator c && mac_codes n cs
mac_codes _ _ = false

-- The replacer, which takes the separators out
abbrev bare : String → String
bare String.[] = String.[]
bare (String.◌∷◌ c s) = if is_separator (code c) then bare s else String.◌∷◌ c (bare s)

-- `NormalizeMAC`, over `strings.ToLower`
unfoldable pub normalize_mac : (String → String) → String → Option String
normalize_mac to_lower mac =
    let m = to_lower (trim_space mac) in if mac_codes 5 (codes m) then some (bare m) else none

abbrev pairs : String → List String
pairs String.[] = []
pairs (String.◌∷◌ c String.[]) = String.◌∷◌ c String.[] ∷ []
pairs (String.◌∷◌ c (String.◌∷◌ d s)) = String.◌∷◌ c (String.◌∷◌ d String.[]) ∷ pairs s

-- `FormatMACHex` of a text in ASCII
unfoldable pub format_mac_hex : String → String
format_mac_hex s = if len s == 12 then join ":" (pairs s) else s

-- A text without spaces stays as it is when it is trimmed.
abbrev solid : List ℕ → Bool
solid cs = all (λ c. not (is_space c)) cs

trim_left-solid : (s : String) → solid (codes s) ≡ true → trim_left s ≡ s
unfolding trim_left
trim_left-solid String.[] h = refl
trim_left-solid (String.◌∷◌ c s) h = elim (Bool-cases (is_space (code c))) [
  | inl space ↦ let no : ⊥ = ground arith in absurd no
  | inr other ↦ ground arith
]

add_trimmed-solid :
    (c : Char) (s : String) → is_space (code c) ≡ false → add_trimmed c s ≡ String.◌∷◌ c s
add_trimmed-solid c String.[] h = rw (h) refl
add_trimmed-solid c (String.◌∷◌ d s) h = refl

trim_right-solid : (s : String) → solid (codes s) ≡ true → trim_right s ≡ s
unfolding trim_right
trim_right-solid String.[] h = refl
trim_right-solid (String.◌∷◌ c s) h =
    let other : is_space (code c) ≡ false = ground arith in
    let rest = trim_right-solid s (ground arith) in
    ap (add_trimmed c) rest ∙ add_trimmed-solid c s other

trim_space-solid : (s : String) → solid (codes s) ≡ true → trim_space s ≡ s
unfolding trim_space
trim_space-solid s h = ap trim_right (trim_left-solid s h) ∙ trim_right-solid s h

int_to_ip4-solid : (n : ℕ) → solid (codes (int_to_ip4 n)) ≡ true
unfolding int_to_ip4 is_space
int_to_ip4-solid n = all-ip_text (λ c. not (is_space c)) refl refl n

-- An IPv4 address goes into the table of reservations and back: the text of a number is read back as
-- that number.
ip4_to_int-int_to_ip4 : (n : ℕ) → n < 2 ^ 32 → ip4_to_int (int_to_ip4 n) ≡ some n
unfolding ip4_to_int int_to_ip4
ip4_to_int-int_to_ip4 n lt =
    ap (λ s. to4 (parse_ip s)) (trim_space-solid (int_to_ip4 n) (int_to_ip4-solid n))
    ∙ ap to4 (parse_ip-ip_text n lt)
