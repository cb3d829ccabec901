-- ===== src/Prelude/Json.antt =====
-- Go's `any` and `map[string]any` as encoding/json uses them. A decoded number is a float64, here one
-- with an integral value; an integer that the program has put into a map itself has another type.
use Prim.Native.String.{String}
use mathlib.Core.Path.{◌≡◌, refl, ap}
use mathlib.Core.Bool.{Bool}
use mathlib.Core.Option.{Option, none, some}
use mathlib.Core.List.{List, [], ◌∷◌, map}
use native.Mathlib.Omega.{arith}
use text.Mathlib.TextEquality.{eq_iff}
use sgsu.Prelude.Tests.{str_eq, if◌then◌else◌, Bool-cases}
use mathlib.Core.Logic.{inl, inr}
use sgsu.Prelude.Integers.{ℤ}

mutual
  pub data Json : Type 0 where
    null : Json
    bool : Bool → Json
    num : ℤ → Json
    int : ℤ → Json
    string : String → Json
    list : Items → Json
    object : Fields → Json

  pub data Items : Type 0 where
    end : Items
    item : Json → Items → Items

  pub data Fields : Type 0 where
    empty : Fields
    field : String → Json → Fields → Fields

abbrev pub elements : Items → List Json
elements end = []
elements (item j js) = j ∷ elements js

abbrev pub of_elements : List Json → Items
of_elements [] = end
of_elements (j ∷ js) = item j (of_elements js)

pub elements-of_elements : (js : List Json) → elements (of_elements js) ≡ js
elements-of_elements [] = refl
elements-of_elements (j ∷ js) = ground (arith, elements-of_elements js)

-- A value after `json.Marshal` and `json.Unmarshal`: an integer becomes the float64 nearest to it.
abbrev mutual
  pub transmitted : (round : ℤ → ℤ) → Json → Json
  transmitted round (int n) = num (round n)
  transmitted round null = null
  transmitted round (bool b) = bool b
  transmitted round (num n) = num n
  transmitted round (string s) = string s
  transmitted round (list js) = list (transmitted_items round js)
  transmitted round (object m) = object (transmitted_fields round m)

  pub transmitted_items : (round : ℤ → ℤ) → Items → Items
  transmitted_items round end = end
  transmitted_items round (item j js) = item (transmitted round j) (transmitted_items round js)

  pub transmitted_fields : (round : ℤ → ℤ) → Fields → Fields
  transmitted_fields round empty = empty
  transmitted_fields round (field k j m) =
      field k (transmitted round j) (transmitted_fields round m)

-- `m[k]`; a missing key reads as `nil`.
unfoldable pub get : String → Fields → Option Json
get k empty = none
get k (field j v rest) = let found = get k rest in if str_eq j k then some v else found

-- `m[k] = v`
unfoldable pub set : String → Json → Fields → Fields
set k v empty = field k v empty
set k v (field j w rest) =
    let below = set k v rest in if str_eq j k then field j v rest else field j w below

-- `delete(m, k)`
unfoldable pub unset : String → Fields → Fields
unset k empty = empty
unset k (field j w rest) = let below = unset k rest in if str_eq j k then below else field j w below

-- The type assertions that the program uses; each gives the zero value where it fails.
abbrev pub as_text : Option Json → String
as_text (some (string s)) = s
as_text _ = ""

abbrev pub as_list : Option Json → List Json
as_list (some (list js)) = elements js
as_list _ = []

abbrev pub as_object : Option Json → Option Fields
as_object (some (object m)) = some m
as_object _ = none

pub get-set :
    (k j : String) (v : Json) (m : Fields)
    → get k (set j v m) ≡ (if str_eq j k then some v else get k m)
unfolding get set
get-set k j v empty = refl
get-set k j v (field i w rest) =
    ground (arith, get-set k j v rest, eq_iff i j, eq_iff i k, eq_iff j k)

pub get-unset :
    (k j : String) (m : Fields) → get k (unset j m) ≡ (if str_eq j k then none else get k m)
unfolding get unset
get-unset k j empty = ground arith
get-unset k j (field i w rest) =
    ground (arith, get-unset k j rest, eq_iff i j, eq_iff i k, eq_iff j k)

module _ (round : ℤ → ℤ) where
  elements-transmitted_items :
      (js : Items) → elements (transmitted_items round js) ≡ map (transmitted round) (elements js)
  elements-transmitted_items end = refl
  elements-transmitted_items (item j js) =
      ap (λ ks. transmitted round j ∷ ks) (elements-transmitted_items js)

  -- A list under a key, after the transmission
  pub as_list-transmitted :
      (k : String) (m : Fields)
      → as_list (get k (transmitted_fields round m)) ≡ map (transmitted round) (as_list (get k m))
  unfolding get
  as_list-transmitted k empty = refl
  as_list-transmitted k (field j v m) = elim (Bool-cases (str_eq j k)) [
    | inl same ↦ simp (same, as_list_value v)
    | inr other ↦ simp (other, as_list-transmitted k m)
  ]
    where
      as_list_value :
          (v : Json)
          → as_list (some (transmitted round v)) ≡ map (transmitted round) (as_list (some v))
      as_list_value null = refl
      as_list_value (bool b) = refl
      as_list_value (num n) = refl
      as_list_value (int n) = refl
      as_list_value (string s) = refl
      as_list_value (list js) = elements-transmitted_items js
      as_list_value (object m) = refl
