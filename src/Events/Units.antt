-- ===== src/Events/Units.antt =====
-- internal/events/journal.go: which module a unit of systemd belongs to.
use sgsu.Prelude.{
  ℕ, ◌≤◌, Bool, true, not, ◌&&◌, Option, none, some, String, List, [], ◌∷◌, ◌≡◌, refl, arith, ltb,
  all, length, Bool-cases, inl, inr, str_eq, any, eq_iff, eq_refl,
}
use sgsu.Prelude.Text.{codes}
use sgsu.Events.Collector.{
  has_prefix, trim_suffix, unit_modules, first_prefix, name_or_system, module_for_unit,
}

-- Two prefixes of one text
prefix_of_prefix :
    (p q cs : List ℕ)
    → has_prefix p cs ≡ true
    → has_prefix q cs ≡ true
    → ltb (length q) (length p) ≡ true
    → has_prefix q p ≡ true
prefix_of_prefix p [] cs hp hq less = refl
prefix_of_prefix [] (b ∷ q) cs hp hq less = let no : ⊥ = ground arith in absurd no
prefix_of_prefix (a ∷ p) (b ∷ q) [] hp hq less = let no : ⊥ = ground arith in absurd no
prefix_of_prefix (a ∷ p) (b ∷ q) (c ∷ cs) hp hq less = ground (arith, prefix_of_prefix p q cs)

-- No entry's prefix is a shorter prefix of a later one's.
abbrev none_shadowed : List (String × String) → Bool
none_shadowed [] = true
none_shadowed (e ∷ more) =
    all
      (λ f.
        not (ltb (length (codes e.0)) (length (codes f.0)) && has_prefix (codes e.0) (codes f.0)))
      more
    && none_shadowed more

abbrev pub in_table : String × String → List (String × String) → Bool
in_table t ts = any (λ u. str_eq t.0 u.0 && str_eq t.1 u.1) ts

all-member :
    (p : String × String → Bool) (t : String × String) (ts : List (String × String))
    → all p ts ≡ true
    → in_table t ts ≡ true
    → p t ≡ true
all-member p t [] h k = let no : ⊥ = ground arith in absurd no
all-member p (a, b) ((c, d) ∷ ts) h k = elim (Bool-cases (str_eq a c && str_eq b d)) [
  | inl here ↦
      let one : a ≡ c = ground (arith, eq_iff a c) in
      let two : b ≡ d = ground (arith, eq_iff b d) in rw (one, two) (ground arith)
  | inr further ↦ all-member p (a, b) ts (ground arith) (ground arith)
]

-- The entry found is one of the table and has a prefix at least as long as that of another entry.
abbrev Longest :
    String × String → List ℕ → List (String × String) → Option (String × String) → Type 0
Longest e unit table none = ⊥
Longest e unit table (some f) =
    (in_table f table ≡ true)
    × (has_prefix (codes f.0) unit ≡ true)
    × (length (codes e.0) ≤ length (codes f.0))

-- An entry of a longer prefix does not come after one that fits.
first_is_longest :
    (more : List (String × String)) (f e : String × String) (unit : List ℕ)
    → none_shadowed (f ∷ more) ≡ true
    → in_table e (f ∷ more) ≡ true
    → has_prefix (codes e.0) unit ≡ true
    → has_prefix (codes f.0) unit ≡ true
    → length (codes e.0) ≤ length (codes f.0)
first_is_longest more (p, m) (a, b) unit h there fits found =
    elim (Bool-cases (ltb (length (codes p)) (length (codes a)))) [
      | inr short ↦ ground arith
      | inl long ↦ elim (Bool-cases (str_eq a p && str_eq b m)) [
        | inl same ↦ let equal : a ≡ p = ground (arith, eq_iff a p) in rw (equal) (omega arith)
        | inr other ↦
            let inside = prefix_of_prefix (codes a) (codes p) unit fits found long in
            let clear =
              all-member
                (λ g.
                  not (
                    ltb (length (codes p)) (length (codes g.0))
                    && has_prefix (codes p) (codes g.0)))
                (a, b) more (ground arith) (ground arith) in
            let no : ⊥ = ground arith in absurd no
      ]
    ]

Longest-weaken :
    (e f : String × String) (unit : List ℕ) (table : List (String × String))
    (found : Option (String × String))
    → Longest e unit table found
    → Longest e unit (f ∷ table) found
Longest-weaken e f unit table none h = h
Longest-weaken e f unit table (some g) h = let there = h.0 in (ground arith, h.1, h.2)

first_prefix-Longest :
    (table : List (String × String)) (e : String × String) (unit : List ℕ)
    → none_shadowed table ≡ true
    → in_table e table ≡ true
    → has_prefix (codes e.0) unit ≡ true
    → Longest e unit table (first_prefix table unit)
first_prefix-Longest [] e unit h there fits = let no : ⊥ = ground arith in absurd no
first_prefix-Longest ((p, m) ∷ more) (a, b) unit h there fits =
    elim (Bool-cases (has_prefix (codes p) unit)) [
      | inl found ↦
          let long = first_is_longest more (p, m) (a, b) unit h there fits found in
          let own : in_table (p, m) ((p, m) ∷ more) ≡ true = ground (arith, eq_refl p, eq_refl m) in
          rw (found) (own, found, long)
      | inr missed ↦ elim (Bool-cases (str_eq a p && str_eq b m)) [
        | inl same ↦
            let equal : a ≡ p = ground (arith, eq_iff a p) in let no : ⊥ = ground arith in absurd no
        | inr other ↦ rw (missed) (
            Longest-weaken (a, b) (p, m) unit more (first_prefix more unit)
              (first_prefix-Longest more (a, b) unit (ground arith) (ground arith) fits))
      ]
    ]

module_of :
    (e : String × String) (unit : List ℕ) (o : Option (String × String))
    → Longest e unit unit_modules o
    → (f : String × String) × (name_or_system o ≡ f.1)
      × (in_table f unit_modules ≡ true)
      × (has_prefix (codes f.0) unit ≡ true)
      × (length (codes e.0) ≤ length (codes f.0))
module_of e unit none h = absurd h
module_of e unit (some f) h = (f, refl, h.0, h.1, h.2)

-- If the name of a unit, without its suffix ".service", starts with the prefix of some entry of the
-- table, then its module is that of an entry whose prefix it starts with too, and which is at least
-- as long: the order of the table hides no more exact entry.
pub module_for_unit_longest :
    (unit : String) (e : String × String)
    → in_table e unit_modules ≡ true
    → has_prefix (codes e.0) (trim_suffix (codes ".service") (codes unit)) ≡ true
    → (f : String × String) × (module_for_unit unit ≡ f.1)
      × (in_table f unit_modules ≡ true)
      × (has_prefix (codes f.0) (trim_suffix (codes ".service") (codes unit)) ≡ true)
      × (length (codes e.0) ≤ length (codes f.0))
unfolding module_for_unit
module_for_unit_longest unit e there fits =
    let name = trim_suffix (codes ".service") (codes unit) in
    module_of e name (first_prefix unit_modules name)
      (first_prefix-Longest unit_modules e name refl there fits)
