-- ===== src/Prelude/Trim.antt =====
-- Go's `strings.TrimSpace` of a text that is trimmed.
use Prim.Native.Char.{Char, code}
use Prim.Native.String.{String}
use mathlib.Core.Path.{◌≡◌, refl, ap, ◌∙◌}
use mathlib.Core.Logic.{inl, inr}
use mathlib.Core.Bool.{false}
use sgsu.Prelude.Tests.{Bool-cases}
use sgsu.Prelude.Text.{is_space, trim_left, trim_right, trim_space, add_trimmed}

trim_right-add_trimmed :
    (c : Char) (s : String) → trim_right s ≡ s → trim_right (add_trimmed c s) ≡ add_trimmed c s
unfolding trim_right
trim_right-add_trimmed c String.[] h = elim (Bool-cases (is_space (code c))) [
  | inl blank ↦ rw (blank) refl
  | inr solid ↦ rw (solid) (rw (solid) refl)
]
trim_right-add_trimmed c (String.◌∷◌ d s) h = ap (λ t. add_trimmed c t) h

trim_right_idem : (s : String) → trim_right (trim_right s) ≡ trim_right s
unfolding trim_right
trim_right_idem String.[] = refl
trim_right_idem (String.◌∷◌ c s) = trim_right-add_trimmed c (trim_right s) (trim_right_idem s)

-- A text that is empty or starts with no space
abbrev Solid : String → Type 0
Solid String.[] = Unit
Solid (String.◌∷◌ c s) = is_space (code c) ≡ false

trim_left-Solid : (s : String) → Solid (trim_left s)
unfolding trim_left
trim_left-Solid String.[] = tt
trim_left-Solid (String.◌∷◌ c s) = elim (Bool-cases (is_space (code c))) [
  | inl blank ↦ rw (blank) (trim_left-Solid s)
  | inr solid ↦ rw (solid) solid
]

unchanged_start : (s : String) → Solid s → trim_left s ≡ s
unfolding trim_left
unchanged_start String.[] h = refl
unchanged_start (String.◌∷◌ c s) h = rw (h) refl

add_trimmed-Solid : (c : Char) (s : String) → is_space (code c) ≡ false → Solid (add_trimmed c s)
add_trimmed-Solid c String.[] h = rw (h) h
add_trimmed-Solid c (String.◌∷◌ d s) h = h

trim_right-Solid : (s : String) → Solid s → Solid (trim_right s)
unfolding trim_right
trim_right-Solid String.[] h = tt
trim_right-Solid (String.◌∷◌ c s) h = add_trimmed-Solid c (trim_right s) h

pub trim_space_idem : (s : String) → trim_space (trim_space s) ≡ trim_space s
unfolding trim_space
trim_space_idem s =
    ap trim_right (
      unchanged_start (trim_right (trim_left s))
        (trim_right-Solid (trim_left s) (trim_left-Solid s)))
    ∙ trim_right_idem (trim_left s)
