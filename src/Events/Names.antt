-- ===== src/Events/Names.antt =====
-- internal/events/events.go: the names of partitions and the months they stand for.
use sgsu.Prelude.{
  ℕ, ◌+◌, ◌-◌, ◌*◌, ◌/◌, ◌%◌, ◌<◌, ◌≤◌, true, some, String, [], ◌∷◌, ◌++◌, ◌≡◌, refl, ap, ◌∙◌,
  arith, ltb,
}
use sgsu.Prelude.Text.{codes, is_digit, between}
use sgsu.Prelude.Format.{◌^^◌, digit_text}
use sgsu.Prelude.Net.Texts.{codes-append, below_lem, same_codes, same_codes_lem}
use sgsu.Events.Partitions.{
  Date, month_index, partition_name, table_month, six_digits, after_prefix, year_text, month_text,
  four_digits, digits_after,
}

-- A date of the years that four digits show
abbrev pub IsDate : Date → Type 0
IsDate d = (d.year < 10000) × (1 ≤ d.month) × (d.month ≤ 12) × (1 ≤ d.day) × (d.day ≤ 31)

digit_codes : (n : ℕ) → n < 10 → codes (digit_text n) ≡ (48 + n) ∷ []
digit_codes n h =
    same_codes_lem _ _
      (below_lem (λ b. same_codes (codes (digit_text b)) ((48 + b) ∷ [])) 10 n refl h)

-- A text that starts with a digit
digit-append : (n : ℕ) (t : String) → n < 10 → codes (digit_text n ^^ t) ≡ (48 + n) ∷ codes t
digit-append n t h = codes-append (digit_text n) t ∙ ap (λ cs. cs ++ codes t) (digit_codes n h)

four_codes :
    (y : ℕ)
    → y < 10000
    → codes (four_digits y)
      ≡ (48 + y / 1000) ∷ (48 + y / 100 % 10) ∷ (48 + y / 10 % 10) ∷ (48 + y % 10) ∷ []
four_codes y h =
    digit-append (y / 1000) _ (omega arith)
    ∙ ap (λ cs. (48 + y / 1000) ∷ cs)
        (digit-append (y / 100 % 10) _ (omega arith)
          ∙ ap (λ cs. (48 + y / 100 % 10) ∷ cs)
              (digit-append (y / 10 % 10) _ (omega arith)
                ∙ ap (λ cs. (48 + y / 10 % 10) ∷ cs) (digit_codes (y % 10) (omega arith))))

month_codes : (m : ℕ) → m ≤ 12 → codes (month_text m) ≡ (48 + m / 10) ∷ (48 + m % 10) ∷ []
month_codes m h =
    digit-append (m / 10) (digit_text (m % 10)) (omega arith)
    ∙ ap (λ cs. (48 + m / 10) ∷ cs) (digit_codes (m % 10) (omega arith))

digit-IsDigit : (d : ℕ) → d < 10 → is_digit (48 + d) ≡ true
digit-IsDigit d h = ground arith

read_digits :
    (a b c d e f : ℕ)
    → a < 10
    → b < 10
    → c < 10
    → d < 10
    → e < 10
    → f < 10
    → between 1 12 (e * 10 + f) ≡ true
    → six_digits ((48 + a) ∷ (48 + b) ∷ (48 + c) ∷ (48 + d) ∷ (48 + e) ∷ (48 + f) ∷ [])
      ≡ some ((a * 1000 + b * 100 + c * 10 + d) * 12 + (e * 10 + f - 1))
read_digits a b c d e f ha hb hc hd he hf month =
    rw
      (
        digit-IsDigit a ha,
        digit-IsDigit b hb,
        digit-IsDigit c hc,
        digit-IsDigit d hd,
        digit-IsDigit e he,
        digit-IsDigit f hf,
      )
      (rw (back a, back b, back c, back d, back e, back f, month) refl)
  where
    back : (n : ℕ) → 48 + n - 48 ≡ n
    back n = omega arith

digits_add :
    (y : ℕ) → y < 10000 → y / 1000 * 1000 + y / 100 % 10 * 100 + y / 10 % 10 * 10 + y % 10 ≡ y
digits_add y h = omega arith

month_add : (m : ℕ) → m / 10 * 10 + m % 10 ≡ m
month_add m = omega arith

read_back :
    (y m : ℕ)
    → y < 10000
    → 1 ≤ m
    → m ≤ 12
    → six_digits (
        (48 + y / 1000)
        ∷ (48 + y / 100 % 10)
        ∷ (48 + y / 10 % 10)
        ∷ (48 + y % 10)
        ∷ (48 + m / 10)
        ∷ (48 + m % 10)
        ∷ [])
      ≡ some (y * 12 + (m - 1))
read_back y m hy h1 h2 =
    read_digits (y / 1000) (y / 100 % 10) (y / 10 % 10) (y % 10) (m / 10) (m % 10) (omega arith)
      (omega arith) (omega arith) (omega arith) (omega arith) (omega arith)
      (let e = month_add m in ground arith)
    ∙ ap some (rw (digits_add y hy, month_add m) refl)

name_codes :
    (d : Date)
    → IsDate d
    → codes (year_text d.year ^^ month_text d.month)
      ≡ (48 + d.year / 1000)
        ∷ (48 + d.year / 100 % 10)
        ∷ (48 + d.year / 10 % 10)
        ∷ (48 + d.year % 10)
        ∷ (48 + d.month / 10)
        ∷ (48 + d.month % 10)
        ∷ []
name_codes d h =
    let less = h.0 in
    let small : ltb d.year 10000 ≡ true = ground arith in
    let year : year_text d.year ≡ four_digits d.year = rw (small) refl in
    codes-append (year_text d.year) (month_text d.month)
    ∙ ap (λ s. codes s ++ codes (month_text d.month)) year
    ∙ ap (λ cs. cs ++ codes (month_text d.month)) (four_codes d.year h.0)
    ∙ ap
        (λ cs.
          (48 + d.year / 1000)
          ∷ (48 + d.year / 100 % 10)
          ∷ (48 + d.year / 10 % 10)
          ∷ (48 + d.year % 10)
          ∷ cs)
        (month_codes d.month h.2)

-- The name of a partition is read back as its month, for the years of four digits.
pub table_month-partition_name :
    (d : Date) → IsDate d → table_month (partition_name d) ≡ some (month_index d)
unfolding table_month partition_name month_index
table_month-partition_name d h =
    ap (λ cs. digits_after (after_prefix (codes "events_") cs))
      (codes-append "events_" _ ∙ ap (λ cs. codes "events_" ++ cs) (name_codes d h))
    ∙ read_back d.year d.month h.0 h.1 h.2
