-- ===== src/Prelude/Table.antt =====
-- Go's map[string]V as an association list. Iterating over a map follows the list, and each law
-- holds for every list with distinct keys, so for every order of iteration.
use Prim.Native.String.{String}
use mathlib.Core.Path.{◌≡◌, refl}
use mathlib.Core.Bool.{Bool}
use mathlib.Core.Option.{Option, none, some}
use mathlib.Core.List.{List, [], ◌∷◌}
use native.Mathlib.Omega.{arith}
use text.Mathlib.TextEquality.{eq_iff}
use sgsu.Prelude.Tests.{str_eq, if◌then◌else◌}
use sgsu.Prelude.Lists.{keep}

module _ {ℓ} {V : Type ℓ} where
  -- `v, ok := m[k]`
  unfoldable pub lookup : String → List (String × V) → Option V
  lookup k [] = none
  lookup k ((j, v) ∷ m) = if str_eq j k then some v else lookup k m

  -- `m[k] = v`
  unfoldable pub insert : String → V → List (String × V) → List (String × V)
  insert k v [] = (k, v) ∷ []
  insert k v ((j, w) ∷ m) = if str_eq j k then (j, v) ∷ m else (j, w) ∷ insert k v m

  -- `delete(m, k)`
  unfoldable pub remove : String → List (String × V) → List (String × V)
  remove k [] = []
  remove k ((j, v) ∷ m) = if str_eq j k then remove k m else (j, v) ∷ remove k m

  -- No key stands twice.
  abbrev pub IsDistinct : List (String × V) → Type ℓ
  IsDistinct [] = Unit
  IsDistinct ((k, _) ∷ m) = (lookup k m ≡ none) × IsDistinct m

  -- A lookup after a write finds what was written under its key and the old value elsewhere.
  pub lookup-insert :
      (key other : String) (value : V) (table : List (String × V))
      → lookup other (insert key value table)
        ≡ (if str_eq key other then some value else lookup other table)
  unfolding lookup insert
  lookup-insert key other value [] = refl
  lookup-insert key other value ((here, old) ∷ rest) = ground (
    arith,
    lookup-insert key other value rest,
    eq_iff here key,
    eq_iff here other,
    eq_iff key other,
  )

  pub lookup-remove :
      (k j : String) (m : List (String × V))
      → lookup j (remove k m) ≡ (if str_eq k j then none else lookup j m)
  unfolding lookup remove
  lookup-remove k j [] = ground arith
  lookup-remove k j ((i, w) ∷ m) =
      ground (arith, eq_iff k j, eq_iff i k, eq_iff i j, lookup-remove k j m)

  -- What a lookup finds after the entries that fail a test are deleted.
  abbrev pub passing : (String × V → Bool) → String → Option V → Option V
  passing p k none = none
  passing p k (some v) = if p (k, v) then some v else none

  pub lookup-keep-none :
      (p : String × V → Bool) (k : String) (m : List (String × V))
      → lookup k m ≡ none
      → lookup k (keep p m) ≡ none
  unfolding lookup
  lookup-keep-none p k [] h = refl
  lookup-keep-none p k ((i, w) ∷ m) h = ground (arith, lookup-keep-none p k m, eq_iff i k)

  pub lookup-keep :
      (p : String × V → Bool) (k : String) (m : List (String × V))
      → IsDistinct m
      → lookup k (keep p m) ≡ passing p k (lookup k m)
  unfolding lookup
  lookup-keep p k [] h = refl
  lookup-keep p k ((i, w) ∷ m) (h, d) =
      ground (arith, lookup-keep p k m d, eq_iff i k, lookup-keep-none p k m)

  pub insert-IsDistinct :
      (k : String) (v : V) (m : List (String × V)) → IsDistinct m → IsDistinct (insert k v m)
  unfolding insert lookup
  insert-IsDistinct k v [] d = (refl, tt)
  insert-IsDistinct k v ((i, w) ∷ m) (h, d) =
      ground (arith, insert-IsDistinct k v m d, lookup-insert k i v m, eq_iff i k, eq_iff k i)

  pub remove-IsDistinct :
      (k : String) (m : List (String × V)) → IsDistinct m → IsDistinct (remove k m)
  unfolding remove
  remove-IsDistinct k [] d = tt
  remove-IsDistinct k ((i, w) ∷ m) (h, d) =
      ground (arith, remove-IsDistinct k m d, lookup-remove k i m)

  pub keep-IsDistinct :
      (p : String × V → Bool) (m : List (String × V)) → IsDistinct m → IsDistinct (keep p m)
  keep-IsDistinct p [] d = tt
  keep-IsDistinct p ((i, w) ∷ m) (h, d) =
      ground (arith, keep-IsDistinct p m d, lookup-keep-none p i m h)
