-- ===== src/Prelude/Net/Texts.antt =====
-- The text of an IPv4 address, Go's `String` of a `net.IP` of four bytes, and how `ParseIP` reads it
-- back.
use Prim.Native.Nat.{ℕ, zero, suc, ◌+◌, ◌-◌, ◌*◌, ◌/◌, ◌%◌, ◌^◌, ◌<◌}
use Prim.Native.Char.{code}
use Prim.Native.String.{String}
use text.Mathlib.TextLemmas.{cons-append, nil-append}
use mathlib.Core.Path.{◌≡◌, refl, ap, sym, ◌∙◌}
use mathlib.Core.Logic.{inl, inr}
use mathlib.Core.Bool.{Bool, true, false, ◌&&◌}
use mathlib.Core.Option.{some}
use mathlib.Core.List.{List, [], ◌∷◌, ◌++◌, append-nil}
use native.Mathlib.Omega.{arith}
use sgsu.Prelude.Tests.{ltb, ◌==◌, if◌then◌else◌, Bool-cases}
use sgsu.Prelude.Lists.{all, all-append}
use sgsu.Prelude.Text.{codes, is_digit}
use sgsu.Prelude.Format.{◌^^◌, decimal_text}
use sgsu.Prelude.Net.Addresses.{
  v4, Field, v4_fields, parsed_v4, parse_v4, parse_addr, parse_ip, to_ip,
}

abbrev pub byte_of : ℕ → ℕ → ℕ
byte_of shift n = n / shift % 256

-- Four bytes with dots between them
unfoldable pub ip_text : ℕ → String
ip_text n =
    decimal_text (byte_of 16777216 n)
    ^^ ("."
        ^^ (decimal_text (byte_of 65536 n)
            ^^ ("." ^^ (decimal_text (byte_of 256 n) ^^ ("." ^^ decimal_text (byte_of 1 n))))))

-- The digits of a byte
abbrev pub byte_codes : ℕ → List ℕ
byte_codes b =
    if ltb b 10
    then (48 + b) ∷ []
    else if ltb b 100
    then (48 + b / 10) ∷ (48 + b % 10) ∷ []
    else (48 + b / 100) ∷ (48 + b / 10 % 10) ∷ (48 + b % 10) ∷ []

pub codes-append : (s t : String) → codes (s ^^ t) ≡ codes s ++ codes t
codes-append String.[] t = ap codes (nil-append t)
codes-append (String.◌∷◌ c s) t =
    ap codes (cons-append c s t) ∙ ap (λ cs. code c ∷ cs) (codes-append s t)

abbrev pub same_codes : List ℕ → List ℕ → Bool
same_codes [] [] = true
same_codes (a ∷ xs) (b ∷ ys) = a == b && same_codes xs ys
same_codes _ _ = false

pub same_codes_lem : (xs ys : List ℕ) → same_codes xs ys ≡ true → xs ≡ ys
same_codes_lem [] [] h = refl
same_codes_lem [] (b ∷ ys) h = cc
same_codes_lem (a ∷ xs) [] h = cc
same_codes_lem (a ∷ xs) (b ∷ ys) h =
    let first : a ≡ b = ground arith in let rest = same_codes_lem xs ys (ground arith) in cc

-- A test of all numbers below a bound
abbrev pub below : (ℕ → Bool) → ℕ → Bool
below p zero = true
below p (suc n) = p n && below p n

pub below_lem : (p : ℕ → Bool) (n b : ℕ) → below p n ≡ true → b < n → p b ≡ true
below_lem p zero b h lt = let no : ⊥ = omega arith in absurd no
below_lem p (suc n) b h lt = elim (Bool-cases (b == n)) [
  | inl e ↦ let same : b ≡ n = ground arith in rw (same) (ground arith)
  | inr ne ↦ below_lem p n b (ground arith) (ground arith)
]

bytes_written : below (λ b. same_codes (codes (decimal_text b)) (byte_codes b)) 256 ≡ true
bytes_written = refl

byte_codes_lem : (b : ℕ) → b < 256 → codes (decimal_text b) ≡ byte_codes b
byte_codes_lem b lt =
    same_codes_lem _ _
      (below_lem (λ b. same_codes (codes (decimal_text b)) (byte_codes b)) 256 b bytes_written lt)

-- A digit of a field that stays below 256
digit_read :
    (fields total value value' digits d e : ℕ) (cs : List ℕ)
    → e ≡ 48 + d
    → d < 10
    → value' ≡ value * 10 + d
    → value' < 256
    → ((digits == 1 && value == 0) ≡ false)
    → v4_fields fields total (record { value = value; digits = digits }) (e ∷ cs)
      ≡ v4_fields fields total (record { value = value'; digits = suc digits }) cs
digit_read fields total value value' digits d e cs is small grown fits lead =
    let digit : is_digit e ≡ true = ground arith in
    let same : value * 10 + (e - 48) ≡ value' = omega arith in
    let bound : ltb 255 value' ≡ false = ground arith in ground arith

abbrev start : ℕ → ℕ → Field
start value digits = record { value = value; digits = digits }

-- A byte is read as a field.
byte_read :
    (fields total b : ℕ) (cs : List ℕ)
    → b < 256
    → (k : ℕ) × (0 < k)
      × (v4_fields fields total (start 0 0) (byte_codes b ++ cs)
          ≡ v4_fields fields total (record { value = b; digits = k }) cs)
byte_read fields total b cs lt = elim (Bool-cases (ltb b 10)) [
  | inl one ↦
      let codes_are : byte_codes b ≡ (48 + b) ∷ [] = rw (one) refl in
      (
        1,
        omega arith,
        ap (λ ds. v4_fields fields total (start 0 0) (ds ++ cs)) codes_are
            ∙ digit_read fields total 0 b 0 b (48 + b) cs refl (ground arith) (omega arith) lt refl,
      )
  | inr more ↦ elim (Bool-cases (ltb b 100)) [
    | inl two ↦
        let codes_are : byte_codes b ≡ (48 + b / 10) ∷ (48 + b % 10) ∷ [] = rw (more, two) refl in
        (
          2,
          omega arith,
          ap (λ ds. v4_fields fields total (start 0 0) (ds ++ cs)) codes_are
              ∙ digit_read fields total 0 (b / 10) 0 (b / 10) (48 + b / 10) ((48 + b % 10) ∷ cs)
                  refl (ground arith) (omega arith) (ground arith) refl
              ∙ digit_read fields total (b / 10) b 1 (b % 10) (48 + b % 10) cs refl (ground arith)
                  (omega arith) lt (ground arith),
        )
    | inr three ↦
        let codes_are : byte_codes b ≡ (48 + b / 100) ∷ (48 + b / 10 % 10) ∷ (48 + b % 10) ∷ [] =
          rw (more, three) refl in
        (
          3,
          omega arith,
          ap (λ ds. v4_fields fields total (start 0 0) (ds ++ cs)) codes_are
              ∙ digit_read fields total 0 (b / 100) 0 (b / 100) (48 + b / 100)
                  ((48 + b / 10 % 10) ∷ (48 + b % 10) ∷ cs) refl (omega arith) (omega arith)
                  (omega arith) refl
              ∙ digit_read fields total (b / 100) (b / 10) 1 (b / 10 % 10) (48 + b / 10 % 10)
                  ((48 + b % 10) ∷ cs) refl (omega arith) (omega arith) (omega arith) (ground arith)
              ∙ digit_read fields total (b / 10) b 2 (b % 10) (48 + b % 10) cs refl (omega arith)
                  (omega arith) lt refl,
        )
  ]
]

-- A byte and the dot after it
byte_dot_read :
    (fields total b : ℕ) (cs : List ℕ)
    → b < 256
    → fields < 3
    → v4_fields fields total (start 0 0) (byte_codes b ++ (46 ∷ cs))
      ≡ v4_fields (suc fields) (total * 256 + b) (start 0 0) cs
byte_dot_read fields total b cs lt early =
    let (k, some_digits, read) = byte_read fields total b (46 ∷ cs) lt in read ∙ ground arith

-- The last byte
byte_end_read :
    (total b : ℕ)
    → b < 256
    → v4_fields 3 total (start 0 0) (byte_codes b ++ []) ≡ some (total * 256 + b)
byte_end_read total b lt =
    let (k, some_digits, read) = byte_read 3 total b [] lt in read ∙ ground arith

-- The digits of a byte are no mark.
byte_mark :
    (b : ℕ) (ms cs : List ℕ)
    → b < 256
    → parse_addr (byte_codes b ++ (46 ∷ ms)) cs ≡ parsed_v4 (parse_v4 cs)
byte_mark b ms cs lt = elim (Bool-cases (ltb b 10)) [
  | inl one ↦ ground arith
  | inr more ↦ elim (Bool-cases (ltb b 100)) [ inl two ↦ ground arith | inr three ↦ ground arith ]
]

dot_codes :
    (b : ℕ) (s : String)
    → b < 256
    → codes (decimal_text b ^^ ("." ^^ s)) ≡ byte_codes b ++ (46 ∷ codes s)
dot_codes b s lt =
    codes-append (decimal_text b) ("." ^^ s)
    ∙ ap (λ cs. cs ++ codes ("." ^^ s)) (byte_codes_lem b lt)
    ∙ ap (λ cs. byte_codes b ++ cs) (codes-append "." s)

ip_codes :
    (a b c d : ℕ)
    → a < 256
    → b < 256
    → c < 256
    → d < 256
    → codes (
        decimal_text a
        ^^ ("." ^^ (decimal_text b ^^ ("." ^^ (decimal_text c ^^ ("." ^^ decimal_text d))))))
      ≡ byte_codes a ++ (46 ∷ (byte_codes b ++ (46 ∷ (byte_codes c ++ (46 ∷ byte_codes d)))))
ip_codes a b c d lta ltb ltc ltd =
    dot_codes a (decimal_text b ^^ ("." ^^ (decimal_text c ^^ ("." ^^ decimal_text d)))) lta
    ∙ ap (λ cs. byte_codes a ++ (46 ∷ cs))
        (dot_codes b (decimal_text c ^^ ("." ^^ decimal_text d)) ltb
          ∙ ap (λ cs. byte_codes b ++ (46 ∷ cs))
              (dot_codes c (decimal_text d) ltc
                ∙ ap (λ cs. byte_codes c ++ (46 ∷ cs)) (byte_codes_lem d ltd)))

bytes_read :
    (a b c d : ℕ)
    → a < 256
    → b < 256
    → c < 256
    → d < 256
    → parse_v4
        (byte_codes a ++ (46 ∷ (byte_codes b ++ (46 ∷ (byte_codes c ++ (46 ∷ byte_codes d))))))
      ≡ some (((a * 256 + b) * 256 + c) * 256 + d)
unfolding parse_v4
bytes_read a b c d lta ltb ltc ltd =
    byte_dot_read 0 0 a _ lta (omega arith)
    ∙ byte_dot_read 1 (0 * 256 + a) b _ ltb (omega arith)
    ∙ byte_dot_read 2 ((0 * 256 + a) * 256 + b) c _ ltc (omega arith)
    ∙ ap (v4_fields 3 (((0 * 256 + a) * 256 + b) * 256 + c) (start 0 0))
        (sym (append-nil (byte_codes d)))
    ∙ byte_end_read (((0 * 256 + a) * 256 + b) * 256 + c) d ltd
    ∙ ap some (omega arith)

-- The text of an address is read back as that address.
pub parse_ip-ip_text : (n : ℕ) → n < 2 ^ 32 → parse_ip (ip_text n) ≡ some (v4 n)
unfolding parse_ip ip_text
parse_ip-ip_text n lt =
    let a = byte_of 16777216 n in
    let b = byte_of 65536 n in
    let c = byte_of 256 n in
    let d = byte_of 1 n in
    let bytes = ip_codes a b c d (omega arith) (omega arith) (omega arith) (omega arith) in
    let mark = byte_mark a (byte_codes b ++ (46 ∷ (byte_codes c ++ (46 ∷ byte_codes d)))) in
    let read = bytes_read a b c d (omega arith) (omega arith) (omega arith) (omega arith) in
    ap (λ cs. to_ip (parse_addr cs cs)) bytes
    ∙ ap to_ip (mark _ (omega arith))
    ∙ ap (λ o. to_ip (parsed_v4 o)) read
    ∙ ap (λ m. some (v4 m)) (omega arith)

module _ (p : ℕ → Bool) (dot : p 46 ≡ true)
    (bytes : below (λ b. all p (byte_codes b)) 256 ≡ true) where
  all-byte : (b : ℕ) → b < 256 → all p (byte_codes b) ≡ true
  all-byte b lt = below_lem (λ b. all p (byte_codes b)) 256 b bytes lt

  all-dot :
      (b : ℕ) (cs : List ℕ) → b < 256 → all p cs ≡ true → all p (byte_codes b ++ (46 ∷ cs)) ≡ true
  all-dot b cs lt h = all-append p (byte_codes b) (46 ∷ cs) ∙ ground (arith, all-byte b lt)

  -- A test of dots and digits holds of the characters of an address.
  pub all-ip_text : (n : ℕ) → all p (codes (ip_text n)) ≡ true
  unfolding ip_text
  all-ip_text n =
      let a = byte_of 16777216 n in
      let b = byte_of 65536 n in
      let c = byte_of 256 n in
      let d = byte_of 1 n in
      let bytes = ip_codes a b c d (omega arith) (omega arith) (omega arith) (omega arith) in
      ap (all p) bytes
      ∙ all-dot a _ (omega arith)
          (all-dot b _ (omega arith) (all-dot c _ (omega arith) (all-byte d (omega arith))))
