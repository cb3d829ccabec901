-- ===== src/Firewall/Objects.antt =====
-- internal/adapters/nftgen/nftgen.go: the validation of aliases, zones and rules.
use sgsu.Prelude.{
  ℕ, Bool, true, false, not, ◌&&◌, ◌||◌, Option, none, some, String, List, [], ◌∷◌, str_eq, ltb,
  ◌==◌, if◌then◌else◌, any, all, map, ◌≡◌, ◌⊎◌, inl, inr, refl, arith, Bool-cases, eq_iff, All,
}
use sgsu.Prelude.Integers.{ℤ, pos, negsuc}
use sgsu.Prelude.Text.{codes, trim_space, matches, between, is_lower, is_upper, is_digit}
use sgsu.Prelude.Net.{cidr_ip, to4, split_once}
use sgsu.Firewall.{Config, Rule, Alias, Zone, Schedule, iface_name, valid_iface, is_ip4, is_some}
use sgsu.Firewall.Evaluate.{alias_named}

-- `validCIDR4`
unfoldable pub valid_cidr4 : String → Bool
valid_cidr4 s = is_some (to4 (cidr_ip s))

-- `validAliasValue`
unfoldable pub valid_alias_value : String → String → Bool
valid_alias_value type value =
    let v = trim_space value in
    let range : Bool = elim (split_once b'-' v) [
      | none ↦ false
      | some (a, b) ↦ is_ip4 (trim_space a) && is_ip4 (trim_space b)
    ] in
    if str_eq type "host"
    then is_ip4 v
    else if str_eq type "network"
    then valid_cidr4 v
    else str_eq type "range" && range

abbrev alias_char : ℕ → Bool
alias_char c = is_lower c || is_digit c || c == b'_'

abbrev zone_char : ℕ → Bool
zone_char c = is_lower c || is_digit c || c == b'_' || c == b'-'

abbrev rule_char : ℕ → Bool
rule_char c =
    is_lower c || is_upper c || is_digit c || c == 32 || c == b'.' || c == b'_' || c == b'-'

abbrev is_empty {ℓ} : {A : Type ℓ} → List A → Bool
is_empty [] = true
is_empty _ = false

abbrev pub listed : String → List String → Bool
listed s ss = any (λ t. str_eq t s) ss

-- An alias of `validateObjects`, apart from the comparison with the names before it
unfoldable pub alias_ok : Alias → Bool
unfolding valid_alias_value
alias_ok a =
    matches is_lower alias_char 0 30 (codes a.name)
    && ((str_eq a.type "host" || str_eq a.type "network" || str_eq a.type "range")
        && (not (is_empty a.values) && all (valid_alias_value a.type) a.values))

unfoldable pub aliases_ok : List String → List Alias → Bool
unfolding alias_ok
aliases_ok seen [] = true
aliases_ok seen (a ∷ more) =
    alias_ok a && (not (listed a.name seen) && aliases_ok (a.name ∷ seen) more)

-- A zone of `validateObjects`
unfoldable pub zone_ok : Zone → Bool
unfolding iface_name
zone_ok z =
    let tag : Bool = elim z.vlan_id [ pos n ↦ not (ltb 4094 n) | negsuc n ↦ false ] in
    let tagged : Bool = elim z.vlan_id [ pos n ↦ ltb 0 n | negsuc n ↦ false ] in
    matches is_lower zone_char 0 20 (codes z.name)
    && ((str_eq z.kind "wan" || str_eq z.kind "lan" || str_eq z.kind "dmz" || str_eq z.kind "guest")
        && (valid_iface z.interface
            && (tag
                && (valid_iface (iface_name z)
                    && ((str_eq z.kind "wan" || valid_cidr4 z.network)
                        && (not tagged || valid_cidr4 z.address))))))

unfoldable pub zones_ok : (names ifaces : List String) → List Zone → Bool
unfolding zone_ok iface_name
zones_ok names ifaces [] = true
zones_ok names ifaces (z ∷ zs) =
    zone_ok z
    && (not (listed z.name names)
        && (not (listed (iface_name z) ifaces)
            && zones_ok (z.name ∷ names) (iface_name z ∷ ifaces) zs))

-- `clockRe`
unfoldable pub is_clock : List ℕ → Bool
is_clock (h ∷ i ∷ c ∷ m ∷ n ∷ []) =
    ((between b'0' b'1' h && is_digit i) || (h == b'2' && between b'0' b'3' i))
    && (c == b':' && (between b'0' b'5' m && is_digit n))
is_clock _ = false

abbrev is_weekday : ℤ → Bool
is_weekday (pos n) = not (ltb 6 n)
is_weekday (negsuc n) = false

-- `nftMatch`, whether it succeeds
unfoldable pub schedule_ok : Option Schedule → Bool
unfolding is_clock
schedule_ok none = true
schedule_ok (some s) =
    all is_weekday s.days
    && ((str_eq s.start "" && str_eq s.end "")
        || (is_clock (codes s.start) && is_clock (codes s.end)))

-- The destination port of a rule
unfoldable pub rule_port_ok : Rule → Bool
rule_port_ok r = elim r.dst_port [
  | pos n ↦ n == 0 || ((str_eq r.proto "tcp" || str_eq r.proto "udp") && not (ltb 65535 n))
  | negsuc n ↦ false
]

-- `RuleCategories`
unfoldable pub valid_category : String → Bool
valid_category s =
    listed s ("" ∷ "lan2wan" ∷ "wan2lan" ∷ "wan2dmz" ∷ "vpn" ∷ "local" ∷ "other" ∷ [])

-- The names that a rule refers to
unfoldable pub references_ok : (aliases zones : List String) → Rule → Bool
references_ok aliases zones r =
    (str_eq r.src_alias "" || listed r.src_alias aliases)
    && ((str_eq r.dst_alias "" || listed r.dst_alias aliases)
        && ((str_eq r.from_zone "" || listed r.from_zone zones)
            && (str_eq r.to_zone "" || listed r.to_zone zones)))

-- A rule of `validateObjects`, apart from its references and the names before it
unfoldable pub rule_ok : Rule → Bool
rule_ok r =
    matches rule_char rule_char 0 39 (codes r.name)
    && ((str_eq r.action "accept" || str_eq r.action "drop" || str_eq r.action "reject")
        && ((str_eq r.proto "any" || str_eq r.proto "tcp" || str_eq r.proto "udp")
            && (rule_port_ok r && (valid_category r.category && schedule_ok r.schedule))))

unfoldable pub rules_ok : (aliases zones seen : List String) → List Rule → Bool
rules_ok aliases zones seen [] = true
rules_ok aliases zones seen (r ∷ rs) =
    rule_ok r
    && (not (listed r.name seen)
        && (references_ok aliases zones r && rules_ok aliases zones (r.name ∷ seen) rs))

-- `validateObjects`, whether it succeeds
unfoldable pub validate_objects : Config → Bool
validate_objects c =
    aliases_ok [] c.aliases
    && (zones_ok [] [] c.zones
        && rules_ok (map (λ a. a.name) c.aliases) (map (λ z. z.name) c.zones) [] c.rules)

-- A name that a rule leaves out or that the tester of rules finds
abbrev pub Resolves : List Alias → String → Type 0
Resolves aliases name =
    (name ≡ "") ⊎ ((a : Alias) × (alias_named name none aliases ≡ some a) × (a.name ≡ name))

named_later :
    (name : String) (found : Alias) (more : List Alias)
    → found.name ≡ name
    → (a : Alias) × (alias_named name (some found) more ≡ some a) × (a.name ≡ name)
unfolding alias_named
named_later name found [] h = (found, refl, h)
named_later name found (b ∷ more) h = elim (Bool-cases (str_eq b.name name)) [
  | inl e ↦ rw (e) (named_later name b more ((eq_iff b.name name).0 e))
  | inr e ↦ rw (e) (named_later name found more h)
]

alias_named-listed :
    (name : String) (aliases : List Alias)
    → listed name (map (λ a. a.name) aliases) ≡ true
    → (a : Alias) × (alias_named name none aliases ≡ some a) × (a.name ≡ name)
unfolding alias_named
alias_named-listed name [] h = cc
alias_named-listed name (b ∷ more) h = elim (Bool-cases (str_eq b.name name)) [
  | inl e ↦ rw (e) (named_later name b more ((eq_iff b.name name).0 e))
  | inr e ↦ rw (e) (alias_named-listed name more (ground arith))
]

pub resolves :
    (aliases : List Alias) (name : String)
    → (str_eq name "" || listed name (map (λ a. a.name) aliases)) ≡ true
    → Resolves aliases name
resolves aliases name h = elim (Bool-cases (str_eq name "")) [
  | inl e ↦ inl ((eq_iff name "").0 e)
  | inr e ↦ inr (alias_named-listed name aliases (ground arith))
]

rules_resolve :
    (c : Config) (seen : List String) (rs : List Rule)
    → rules_ok (map (λ a. a.name) c.aliases) (map (λ z. z.name) c.zones) seen rs ≡ true
    → All (λ r. Resolves c.aliases r.src_alias × Resolves c.aliases r.dst_alias) rs
unfolding rules_ok references_ok
rules_resolve c seen [] h = tt
rules_resolve c seen (r ∷ rs) h = (
  (resolves c.aliases r.src_alias (ground arith), resolves c.aliases r.dst_alias (ground arith)),
  rules_resolve c (r.name ∷ seen) rs (ground arith),
)

-- Where the validation of the objects succeeds, every alias that a rule names is one that the
-- tester of rules finds, under that name.
pub validate_objects-Resolves :
    (c : Config)
    → validate_objects c ≡ true
    → All (λ r. Resolves c.aliases r.src_alias × Resolves c.aliases r.dst_alias) c.rules
unfolding validate_objects
validate_objects-Resolves c h = rules_resolve c [] c.rules (ground arith)
