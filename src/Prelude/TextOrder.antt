-- ===== src/Prelude/TextOrder.antt =====
-- Go's order of strings, and what sorting by it keeps.
use Prim.Native.Nat.{ℕ}
use Prim.Native.Char.{code}
use Prim.Native.String.{String}
use mathlib.Core.Path.{◌≡◌, ◌∙◌, refl, ap}
use mathlib.Core.Bool.{Bool, true, false, ◌||◌}
use mathlib.Core.Logic.{◌≢◌, inl, inr}
use mathlib.Core.List.{List, [], ◌∷◌}
use native.Mathlib.Omega.{arith}
use text.Mathlib.TextEquality.{codes_equal}
use text.Mathlib.TextPositions.{compare_self}
use sgsu.Prelude.Tests.{Bool-cases}
use sgsu.Prelude.Lists.{any}
use sgsu.Prelude.Text.{codes}
use sgsu.Prelude.Format.{before_codes, insert_text, sort_texts}

-- Go's `<` on strings
unfoldable pub precedes : String → String → Bool
precedes s t = before_codes (codes s) (codes t)

codes-inj : (s t : String) → codes s ≡ codes t → s ≡ t
codes-inj String.[] String.[] h = refl
codes-inj String.[] (String.◌∷◌ d t) h = cc
codes-inj (String.◌∷◌ c s) String.[] h = cc
codes-inj (String.◌∷◌ c s) (String.◌∷◌ d t) h =
    let heads : code c ≡ code d = ground arith in
    let tails : codes s ≡ codes t = ground arith in
    λ i. String.◌∷◌ (same heads i) (codes-inj s t tails i)
  where
    same : code c ≡ code d → c ≡ d
    same e = codes_equal c d (rw e (compare_self (code d)))

before_codes_irrefl : (xs : List ℕ) → before_codes xs xs ≡ false
before_codes_irrefl [] = refl
before_codes_irrefl (x ∷ xs) = ground (arith, before_codes_irrefl xs)

before_codes_trans :
    (xs ys zs : List ℕ)
    → before_codes xs ys ≡ true
    → before_codes ys zs ≡ true
    → before_codes xs zs ≡ true
before_codes_trans [] [] zs h k = cc
before_codes_trans [] (y ∷ ys) [] h k = cc
before_codes_trans [] (y ∷ ys) (z ∷ zs) h k = refl
before_codes_trans (x ∷ xs) [] zs h k = cc
before_codes_trans (x ∷ xs) (y ∷ ys) [] h k = cc
before_codes_trans (x ∷ xs) (y ∷ ys) (z ∷ zs) h k = ground (arith, before_codes_trans xs ys zs)

before_codes_total :
    (xs ys : List ℕ) → before_codes xs ys ≡ false → before_codes ys xs ≡ false → xs ≡ ys
before_codes_total [] [] h k = refl
before_codes_total [] (y ∷ ys) h k = cc
before_codes_total (x ∷ xs) [] h k = cc
before_codes_total (x ∷ xs) (y ∷ ys) h k = ground (arith, before_codes_total xs ys)

pub precedes_irrefl : (s : String) → precedes s s ≡ false
unfolding precedes
precedes_irrefl s = before_codes_irrefl (codes s)

pub precedes_trans :
    (s t u : String) → precedes s t ≡ true → precedes t u ≡ true → precedes s u ≡ true
unfolding precedes
precedes_trans s t u h k = before_codes_trans (codes s) (codes t) (codes u) h k

-- Of two texts that differ one comes before the other.
pub precedes_total : (s t : String) → s ≢ t → precedes s t ≡ false → precedes t s ≡ true
unfolding precedes
precedes_total s t ne h = elim (Bool-cases (before_codes (codes t) (codes s))) [
  | inl yes_before ↦ yes_before
  | inr not_before ↦
      absurd (ne (codes-inj s t (before_codes_total (codes s) (codes t) h not_before)))
]

any-insert_text :
    (p : String → Bool) (s : String) (ss : List String)
    → any p (insert_text s ss) ≡ (p s || any p ss)
any-insert_text p s [] = refl
any-insert_text p s (t ∷ ts) = ground (arith, any-insert_text p s ts)

pub any-sort_texts : (p : String → Bool) (ss : List String) → any p (sort_texts ss) ≡ any p ss
unfolding sort_texts
any-sort_texts p [] = refl
any-sort_texts p (s ∷ ss) =
    any-insert_text p s (sort_texts ss) ∙ ap (λ b. p s || b) (any-sort_texts p ss)
