-- ===== src/System/Names.antt =====
-- cmd/saguaro/firewall_objects.go and firewall_block.go: the names of aliases in the stored rules.
use sgsu.Prelude.{
  Bool, true, false, not, ◌&&◌, ◌||◌, String, List, [], ◌∷◌, ◌++◌, str_eq, if◌then◌else◌, any, all,
  keep, map, ◌≡◌, refl, arith, Bool-cases, eq_iff, inl, inr, ap, ◌∙◌,
}
use sgsu.Firewall.{Config, Alias, Rule}
use sgsu.Firewall.Objects.{validate_objects, rules_ok, references_ok, listed}
use sgsu.Gateway.Objects.{ObjectTest}
use sgsu.Gateway.Block.{
  blocklist_alias, block_rule_name, block_rule, has_alias, has_rule, new_blocklist, block_aliases,
  blocked, unblock_aliases, left_empty, unblocked,
}

abbrev pub names : Config → List String
names c = map (λ al. al.name) c.aliases

-- A name that is left out or that an alias has, or that of the list of blocked addresses, if it may
-- be lost
abbrev pub known : Bool → List String → String → Bool
known lost ns n = (str_eq n "" || listed n ns) || (lost && str_eq n blocklist_alias)

abbrev pub rule_known : Bool → List String → Rule → Bool
rule_known lost ns r = known lost ns r.src_alias && known lost ns r.dst_alias

abbrev pub named : Bool → Config → Bool
named lost c = all (rule_known lost (names c)) c.rules

pub all_mono {ℓ} :
    {A : Type ℓ}
    → (p q : A → Bool) (xs : List A) → ((x : A) → p x ≡ true → q x ≡ true)
    → all p xs ≡ true
    → all q xs ≡ true
all_mono p q [] h e = refl
all_mono p q (x ∷ xs) h e = ground (arith, h x, all_mono p q xs h)

all-keep {ℓ} :
    {A : Type ℓ} → (p q : A → Bool) (xs : List A) → all p xs ≡ true → all p (keep q xs) ≡ true
all-keep p q [] e = refl
all-keep p q (x ∷ xs) e = ground (arith, all-keep p q xs)

rules_ok-all :
    (lost : Bool) (aliases zones seen : List String) (rs : List Rule)
    → rules_ok aliases zones seen rs ≡ true
    → all (rule_known lost aliases) rs ≡ true
unfolding rules_ok references_ok
rules_ok-all lost aliases zones seen [] h = refl
rules_ok-all lost aliases zones seen (r ∷ rs) h =
    ground (arith, rules_ok-all lost aliases zones (r.name ∷ seen) rs)

pub valid_named : (lost : Bool) (c : Config) → validate_objects c ≡ true → named lost c ≡ true
unfolding validate_objects
valid_named lost c h =
    rules_ok-all lost (names c) (map (λ z. z.name) c.zones) [] c.rules (ground arith)

pub same_named :
    (lost : Bool) (c d : Config)
    → c.aliases ≡ d.aliases
    → c.zones ≡ d.zones
    → c.rules ≡ d.rules
    → named lost d ≡ true
    → named lost c ≡ true
same_named lost c d aliases zones rules h = rw (aliases, rules) h

abbrev pub test : Bool → ObjectTest
test lost = record {
  passes = named lost;
  valid_passes = valid_named lost;
  same_objects = same_named lost;
}

known_more :
    (lost : Bool) (ns ms : List String)
    → ((n : String) → listed n ns ≡ true → listed n ms ≡ true)
    → (r : Rule) → rule_known lost ns r ≡ true
    → rule_known lost ms r ≡ true
known_more lost ns ms h r e = ground (arith, h r.src_alias, h r.dst_alias)

-- Blocking an address

names-block_aliases :
    (ip : String) (already : Bool) (aliases : List Alias)
    → map (λ al. al.name) (block_aliases ip already aliases) ≡ map (λ al. al.name) aliases
unfolding block_aliases
names-block_aliases ip already [] = refl
names-block_aliases ip already (al ∷ more) = ground (
  arith,
  names-block_aliases ip already more,
  names-block_aliases ip (already || any (λ v. str_eq v ip) al.values) more,
)

listed-has_alias :
    (aliases : List Alias)
    → listed blocklist_alias (map (λ al. al.name) aliases) ≡ has_alias aliases
listed-has_alias [] = refl
listed-has_alias (al ∷ more) = ground (arith, listed-has_alias more)

listed_last :
    (ip n : String) (aliases : List Alias)
    → (listed n (map (λ al. al.name) (aliases ++ (new_blocklist ip ∷ [])))
        ≡ (listed n (map (λ al. al.name) aliases) || str_eq blocklist_alias n))
listed_last ip n [] = ground arith
listed_last ip n (al ∷ more) = ground (arith, listed_last ip n more)

listed_blocked :
    (ip n : String) (c : Config)
    → (listed n (names c) || str_eq n blocklist_alias) ≡ true
    → listed n (names (blocked ip c)) ≡ true
unfolding blocked
listed_blocked ip n c h = elim (Bool-cases (has_alias c.aliases)) [
  | inl has ↦
      rw (has, blocked)
        (ap (listed n) (names-block_aliases ip false c.aliases)
          ∙ ground (arith, listed-has_alias c.aliases, eq_iff n blocklist_alias))
  | inr new ↦
      rw (new, blocked)
        (listed_last ip n c.aliases
          ∙ ground (arith, eq_iff n blocklist_alias, eq_iff blocklist_alias n))
]

rules-blocked :
    (ip : String) (c : Config)
    → (blocked ip c).rules ≡ (if has_rule c.rules then c.rules else block_rule ∷ c.rules)
unfolding blocked
rules-blocked ip c = refl

all_if :
    (p : Rule → Bool) (b : Bool) (r : Rule) (rs : List Rule)
    → p r ≡ true
    → all p rs ≡ true
    → all p (if b then rs else r ∷ rs) ≡ true
all_if p true r rs h k = k
all_if p false r rs h k = ground arith

pub named-blocked :
    (lost : Bool) (ip : String) (c : Config)
    → named lost c ≡ true
    → named lost (blocked ip c) ≡ true
named-blocked lost ip c h =
    let ns = names (blocked ip c) in
    let more = known_more lost (names c) ns (λ n e. listed_blocked ip n c (ground arith)) in
    let kept = all_mono _ (rule_known lost ns) c.rules more h in
    let list : listed blocklist_alias ns ≡ true =
      listed_blocked ip blocklist_alias c (ground arith) in
    ap (all (rule_known lost ns)) (rules-blocked ip c)
    ∙ all_if (rule_known lost ns) (has_rule c.rules) block_rule c.rules (ground arith) kept

-- Taking a block back

listed_unblocked :
    (ip n : String) (aliases : List Alias)
    → str_eq n blocklist_alias ≡ false
    → listed n (map (λ al. al.name) aliases) ≡ true
    → listed n (
        map
          (λ al. al.name)
          (keep (λ al. not (str_eq al.name blocklist_alias)) (unblock_aliases ip aliases)))
      ≡ true
unfolding unblock_aliases
listed_unblocked ip n [] other h = h
listed_unblocked ip n (al ∷ more) other h =
    ground (arith, listed_unblocked ip n more, eq_iff al.name n, eq_iff al.name blocklist_alias)

names-unblock_aliases :
    (ip : String) (aliases : List Alias)
    → map (λ al. al.name) (unblock_aliases ip aliases) ≡ map (λ al. al.name) aliases
unfolding unblock_aliases
names-unblock_aliases ip [] = refl
names-unblock_aliases ip (al ∷ more) = ground (arith, names-unblock_aliases ip more)

known_lost :
    (lost : Bool) (ip : String) (aliases : List Alias) (n : String)
    → known lost (map (λ al. al.name) aliases) n ≡ true
    → known true
        (map
          (λ al. al.name)
          (keep (λ al. not (str_eq al.name blocklist_alias)) (unblock_aliases ip aliases)))
        n
      ≡ true
known_lost lost ip aliases n h = elim (Bool-cases (str_eq n blocklist_alias)) [
  | inl list ↦ ground arith
  | inr other ↦ ground (arith, listed_unblocked ip n aliases other)
]

pub named-unblocked :
    (lost : Bool) (ip : String) (c : Config)
    → named lost c ≡ true
    → named true (unblocked ip c) ≡ true
unfolding unblocked
named-unblocked lost ip c h = elim (Bool-cases (left_empty ip false c.aliases)) [
  | inl gone ↦
      let ns =
        map (λ al. al.name)
          (keep (λ al. not (str_eq al.name blocklist_alias)) (unblock_aliases ip c.aliases)) in
      let weaker : (r : Rule) → rule_known lost (names c) r ≡ true → rule_known true ns r ≡ true =
        λ r e. ground (
          arith,
          known_lost lost ip c.aliases r.src_alias,
          known_lost lost ip c.aliases r.dst_alias,
        ) in
      rw (gone, unblocked)
        (all-keep (rule_known true ns) (λ r. not (str_eq r.name block_rule_name)) c.rules
          (all_mono _ (rule_known true ns) c.rules weaker h))
  | inr left ↦
      rw (left, unblocked)
        (rw (names-unblock_aliases ip c.aliases)
          (all_mono _ (rule_known true (names c)) c.rules (λ r e. ground arith) h))
]
