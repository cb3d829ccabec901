-- ===== src/Gateway/BlockLists.antt =====
-- cmd/saguaro/firewall_block.go: the list of blocked addresses and the rule over it.
use sgsu.Prelude.{
  Bool, true, false, not, ◌||◌, Option, none, some, String, List, [], ◌∷◌, ◌++◌, str_eq,
  if◌then◌else◌, any, all, ◌≡◌, refl, ap, sym, ◌∙◌, arith, Bool-cases, inl, inr, eq_iff, eq_refl,
}
use sgsu.Prelude.Text.{trim_space}
use sgsu.Prelude.Net.{Ip, v4, v6, parse_ip, same_ip}
use sgsu.Firewall.{Config, Alias, Rule}
use sgsu.Firewall.Evaluate.{
  Packet, first_match, rule_matches, alias_passes, alias_named, alias_contains, value_contains,
}
use sgsu.Firewall.Objects.{aliases_ok}
use sgsu.Gateway.Block.{
  block_aliases, blocklist_alias, block_rule_name, new_blocklist, block_rule, has_alias, blocked,
}

absent_named :
    (found : Option Alias) (xs : List Alias)
    → has_alias xs ≡ false
    → alias_named blocklist_alias found xs ≡ found
unfolding alias_named
absent_named found [] h = refl
absent_named found (x ∷ xs) h =
    let other : str_eq x.name blocklist_alias ≡ false = ground arith in
    rw (other) (absent_named found xs (ground arith))

named_head :
    (found : Option Alias) (x : Alias) (xs : List Alias) (b : Bool)
    → str_eq x.name blocklist_alias ≡ b
    → alias_named blocklist_alias found (x ∷ xs)
      ≡ alias_named blocklist_alias (if b then some x else found) xs
unfolding alias_named
named_head found x xs b h = ap (λ c. alias_named blocklist_alias (if c then some x else found) xs) h

-- A list of aliases that is valid after one of the name has no second one.
only_one :
    (seen : List String) (xs : List Alias)
    → any (λ t. str_eq t blocklist_alias) seen ≡ true
    → aliases_ok seen xs ≡ true
    → has_alias xs ≡ false
unfolding aliases_ok
only_one seen [] known h = refl
only_one seen (x ∷ xs) known h = elim (Bool-cases (str_eq x.name blocklist_alias)) [
  | inl same ↦
      let equal : x.name ≡ blocklist_alias = ground (arith, eq_iff x.name blocklist_alias) in
      let twice : any (λ t. str_eq t x.name) seen ≡ true = rw (equal) known in
      let no : ⊥ = ground arith in absurd no
  | inr other ↦ rw (other) (only_one (x.name ∷ seen) xs (ground arith) (ground arith))
]

-- An alias of addresses that has one of them
unfoldable pub Lists : String → Option Alias → Type 0
Lists ip o =
    (al : Alias) × (o ≡ some al) × (al.type ≡ "host") × (any (λ v. str_eq v ip) al.values ≡ true)

abbrev pub hosts : List Alias → Bool
hosts xs = all (λ al. not (str_eq al.name blocklist_alias) || str_eq al.type "host") xs

listed_last : (ip : String) (vs : List String) → any (λ v. str_eq v ip) (vs ++ (ip ∷ [])) ≡ true
listed_last ip [] = rw (eq_refl ip) refl
listed_last ip (v ∷ vs) = ground (arith, listed_last ip vs)

listed_after :
    (ip : String) (vs : List String) (known : Bool)
    → any (λ v. str_eq v ip) vs ≡ known
    → any (λ v. str_eq v ip) (if known then vs else vs ++ (ip ∷ [])) ≡ true
listed_after ip vs true h = h
listed_after ip vs false h = listed_last ip vs

block_aliases-Lists :
    (ip : String) (found : Option Alias) (seen : List String) (xs : List Alias)
    → has_alias xs ≡ true
    → hosts xs ≡ true
    → aliases_ok seen (block_aliases ip false xs) ≡ true
    → Lists ip (alias_named blocklist_alias found (block_aliases ip false xs))
unfolding block_aliases alias_named aliases_ok Lists
block_aliases-Lists ip found seen [] there h ok = let no : ⊥ = ground arith in absurd no
block_aliases-Lists ip found seen (x ∷ xs) there h ok =
    elim (Bool-cases (str_eq x.name blocklist_alias)) [
      | inl same ↦
          let known = any (λ v. str_eq v ip) x.values in
          let next : Alias = record x {
            values = if known then x.values else x.values ++ (ip ∷ []);
          } in
          let rest = block_aliases ip known xs in
          let shape : block_aliases ip false (x ∷ xs) ≡ next ∷ rest = rw (same) refl in
          let fine : aliases_ok seen (next ∷ rest) ≡ true = ap (aliases_ok seen) (sym shape) ∙ ok in
          let single : has_alias rest ≡ false =
            only_one (x.name ∷ seen) rest (rw (same) refl) (ground arith) in
          let kind : x.type ≡ "host" = ground (arith, eq_iff x.type "host") in
          let chosen : alias_named blocklist_alias found (next ∷ rest) ≡ some next =
            named_head found next rest true same ∙ absent_named (some next) rest single in
          (
            next,
            ap (alias_named blocklist_alias found) shape ∙ chosen,
            kind,
            listed_after ip x.values known refl,
          )
      | inr other ↦
          let shape : block_aliases ip false (x ∷ xs) ≡ x ∷ block_aliases ip false xs =
            rw (other) refl in
          let fine : aliases_ok seen (x ∷ block_aliases ip false xs) ≡ true =
            ap (aliases_ok seen) (sym shape) ∙ ok in
          let later =
            block_aliases-Lists ip found (x.name ∷ seen) xs (ground arith) (ground arith)
              (ground arith) in
          (
            later.0,
            ap (alias_named blocklist_alias found) shape
                ∙ named_head found x (block_aliases ip false xs) false other
                ∙ later.1,
            later.2,
            later.3,
          )
    ]

new_blocklist-Lists :
    (ip : String) (found : Option Alias) (xs : List Alias)
    → has_alias xs ≡ false
    → Lists ip (alias_named blocklist_alias found (xs ++ (new_blocklist ip ∷ [])))
unfolding Lists alias_named
new_blocklist-Lists ip found [] h = (new_blocklist ip, refl, refl, rw (eq_refl ip) refl)
new_blocklist-Lists ip found (x ∷ xs) h = elim (Bool-cases (str_eq x.name blocklist_alias)) [
  | inl same ↦ let no : ⊥ = ground arith in absurd no
  | inr other ↦
      let later = new_blocklist-Lists ip found xs (ground arith) in
      (
        later.0,
        named_head found x (xs ++ (new_blocklist ip ∷ [])) false other ∙ later.1,
        later.2,
        later.3,
      )
]

pub blocked-Lists :
    (ip : String) (c : Config)
    → hosts c.aliases ≡ true
    → aliases_ok [] (blocked ip c).aliases ≡ true
    → Lists ip (alias_named blocklist_alias none (blocked ip c).aliases)
unfolding blocked
blocked-Lists ip c h ok = elim (Bool-cases (has_alias c.aliases)) [
  | inl there ↦
      let shape : (blocked ip c).aliases ≡ block_aliases ip false c.aliases = rw (there) refl in
      rw (there)
        (block_aliases-Lists ip none [] c.aliases there h (ap (aliases_ok []) (sym shape) ∙ ok))
  | inr missing ↦ rw (missing) (new_blocklist-Lists ip none c.aliases missing)
]

same_ip_refl : (src : Ip) → same_ip (some src) src ≡ true
same_ip_refl (v4 a) = ground arith
same_ip_refl (v6 a) = ground arith

value_contains-own :
    (ip : String) (src : Ip)
    → trim_space ip ≡ ip
    → parse_ip ip ≡ some src
    → value_contains "host" src ip ≡ true
unfolding value_contains
value_contains-own ip src clean read = rw (clean, read) (same_ip_refl src)

values_contain :
    (ip : String) (src : Ip) (vs : List String)
    → trim_space ip ≡ ip
    → parse_ip ip ≡ some src
    → any (λ v. str_eq v ip) vs ≡ true
    → any (value_contains "host" src) vs ≡ true
values_contain ip src [] clean read h = let no : ⊥ = ground arith in absurd no
values_contain ip src (v ∷ vs) clean read h = elim (Bool-cases (str_eq v ip)) [
  | inl same ↦
      let equal : v ≡ ip = ground (arith, eq_iff v ip) in
      let own : value_contains "host" src v ≡ true =
        ap (value_contains "host" src) equal ∙ value_contains-own ip src clean read in
      ground arith
  | inr other ↦ let later = values_contain ip src vs clean read (ground arith) in ground arith
]

alias_passes-Lists :
    (ip : String) (src : Ip) (aliases : List Alias)
    → trim_space ip ≡ ip
    → parse_ip ip ≡ some src
    → Lists ip (alias_named blocklist_alias none aliases)
    → alias_passes aliases blocklist_alias (some src) ≡ true
unfolding alias_passes Lists alias_contains
alias_passes-Lists ip src aliases clean read (al, is, kind, there) =
    rw (is, kind) (values_contain ip src al.values clean read there)

no_alias : (aliases : List Alias) (o : Option Ip) → alias_passes aliases "" o ≡ true
unfolding alias_passes
no_alias aliases none = refl
no_alias aliases (some ip) = refl

module _ (ip : String) (src : Ip) (c : Config) (p : Packet) (clean : trim_space ip ≡ ip)
    (read : parse_ip ip ≡ some src) (from : parse_ip (trim_space p.src) ≡ some src) where
  pub block_rule_matches :
      Lists ip (alias_named blocklist_alias none c.aliases) → rule_matches c p block_rule ≡ true
  unfolding rule_matches
  block_rule_matches there =
      let passes = alias_passes-Lists ip src c.aliases clean read there in
      rw (from, passes, no_alias c.aliases (parse_ip (trim_space p.dst))) refl

pub first_match-block_rule :
    (c : Config) (p : Packet) (rs : List Rule)
    → rule_matches c p block_rule ≡ true
    → (first_match c p 0 (block_rule ∷ rs)
        ≡ record { matched = true; rule_name = block_rule_name; rule_index = 1; action = "drop" })
unfolding first_match
first_match-block_rule c p rs h = rw (h) refl
