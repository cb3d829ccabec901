-- ===== src/MultiWan.antt =====
-- internal/adapters/multiwan/multiwan.go: the uplinks of the Multi-WAN module, and the default route
-- over those that are healthy.
use sgsu.Prelude.{
  ℕ, suc, Bool, true, false, not, ◌&&◌, ◌||◌, Option, none, some, String, List, [], ◌∷◌, ◌++◌,
  str_eq, ltb, leb, ◌==◌, if◌then◌else◌, keep, map, length, gather, ◌≡◌, refl, arith, Bool-cases,
  inl, inr, ap, ◌∙◌,
}
use sgsu.Prelude.Integers.{ℤ, pos, negsuc}
use sgsu.Prelude.Format.{◌^^◌, concat, int_text}
use sgsu.Prelude.Net.{parse_ip}
use sgsu.Firewall.{valid_iface, is_some}
use sgsu.Firewall.Objects.{listed}
use mathlib.Core.List.{append-nil, append_assoc}

-- `Uplink`
pub record Uplink : Type 0 where
  pub name : String
  pub interface : String
  pub gateway : String
  pub weight : ℤ
  pub health_check : String

-- `Config`
pub record WanConfig : Type 0 where
  pub enabled : Bool
  pub mode : String
  pub uplinks : List Uplink

-- `mode`, and `GenerateMode`
unfoldable pub wan_mode : WanConfig → String
wan_mode c = if str_eq c.mode "failover" then "failover" else "loadbalance"

abbrev weight_ok : ℤ → Bool
weight_ok (pos n) = leb 1 n && leb n 256
weight_ok (negsuc n) = false

-- An uplink of `Validate`, apart from the names before it
unfoldable pub uplink_ok : Uplink → Bool
uplink_ok u =
    valid_iface u.interface
    && (is_some (parse_ip u.gateway)
        && (weight_ok u.weight && (str_eq u.health_check "" || is_some (parse_ip u.health_check))))

unfoldable pub uplinks_ok : List String → List Uplink → Bool
unfolding uplink_ok
uplinks_ok seen [] = true
uplinks_ok seen (u ∷ us) =
    not (str_eq u.name "" || listed u.name seen) && (uplink_ok u && uplinks_ok (u.name ∷ seen) us)

-- `Validate`, whether it succeeds
unfoldable pub validate : WanConfig → Bool
unfolding uplinks_ok
validate c =
    if not c.enabled
    then true
    else (str_eq c.mode "" || str_eq c.mode "loadbalance" || str_eq c.mode "failover")
      && (not (ltb (length c.uplinks) 2) && uplinks_ok [] c.uplinks)

-- The map of the healthy uplinks, which is nil where all are taken as healthy
abbrev pub is_up : Option (String → Bool) → Uplink → Bool
is_up none u = true
is_up (some healthy) u = healthy u.name

abbrev pub route_words : List String
route_words = "route" ∷ "replace" ∷ "default" ∷ []

abbrev pub single_hop : Uplink → List String
single_hop u = route_words ++ ("via" ∷ u.gateway ∷ "dev" ∷ u.interface ∷ [])

abbrev pub next_hop : Uplink → List String
next_hop u = "nexthop" ∷ "via" ∷ u.gateway ∷ "dev" ∷ u.interface ∷ "weight" ∷ int_text u.weight ∷ []

-- The loop of the mode failover
unfoldable pub first_up : Option (String → Bool) → List Uplink → Option (List String)
first_up healthy [] = none
first_up healthy (u ∷ us) =
    let later = first_up healthy us in if not (is_up healthy u) then later else some (single_hop u)

-- The loop of the mode loadbalance
unfoldable pub all_up :
    Option (String → Bool) → (args : List String) (count : ℕ) → List Uplink → Option (List String)
all_up healthy args count [] = if count == 0 then none else some args
all_up healthy args count (u ∷ us) =
    let skipped = all_up healthy args count us in
    let added = all_up healthy (args ++ next_hop u) (suc count) us in
    if not (is_up healthy u) then skipped else added

-- `DefaultRouteArgs`: none for an error
unfoldable pub default_route_args : WanConfig → Option (String → Bool) → Option (List String)
unfolding validate wan_mode first_up all_up
default_route_args c healthy =
    if not (validate c)
    then none
    else if str_eq (wan_mode c) "failover"
    then first_up healthy c.uplinks
    else all_up healthy route_words 0 c.uplinks

abbrev spec_line : Uplink → String
spec_line u =
    u.name
    ^^ (" "
        ^^ (u.interface
            ^^ (" "
                ^^ (u.gateway
                    ^^ (" "
                        ^^ (int_text u.weight
                            ^^ (" "
                                ^^ ((if str_eq u.health_check "" then "-" else u.health_check)
                                    ^^ "\n"))))))))

-- `GenerateSpec`: none for an error
unfoldable pub generate_spec : WanConfig → Option String
unfolding validate
generate_spec c =
    if validate c
    then some (
        "# Managed by Saguaro (generated). name iface gateway weight healthcheck\n"
        ^^ concat (map spec_line c.uplinks))
    else none

-- The route over the healthy uplinks: the first of them in the mode failover, and otherwise all of
-- them in order, with their weights
abbrev pub route_over : Bool → List Uplink → Option (List String)
route_over failover [] = none
route_over failover (u ∷ us) =
    some (if failover then single_hop u else route_words ++ gather next_hop (u ∷ us))

first_up_lem :
    (healthy : Option (String → Bool)) (us : List Uplink)
    → first_up healthy us ≡ route_over true (keep (is_up healthy) us)
unfolding first_up
first_up_lem healthy [] = refl
first_up_lem healthy (u ∷ us) = elim (Bool-cases (is_up healthy u)) [
  | inl up ↦ ground arith
  | inr down ↦ ground (arith, first_up_lem healthy us)
]

abbrev no_uplink : List Uplink → Bool
no_uplink [] = true
no_uplink _ = false

abbrev balanced : List String → ℕ → List Uplink → Option (List String)
balanced args count us =
    if count == 0 && no_uplink us then none else some (args ++ gather next_hop us)

all_up_lem :
    (healthy : Option (String → Bool)) (args : List String) (count : ℕ) (us : List Uplink)
    → all_up healthy args count us ≡ balanced args count (keep (is_up healthy) us)
unfolding all_up
all_up_lem healthy args count [] = elim (Bool-cases (count == 0)) [
  | inl e ↦ ground arith
  | inr ne ↦ ground (arith, append-nil args)
]
all_up_lem healthy args count (u ∷ us) = elim (Bool-cases (is_up healthy u)) [
  | inl up ↦
      let rest = all_up_lem healthy (args ++ next_hop u) (suc count) us in
      let joined = append_assoc args (next_hop u) (gather next_hop (keep (is_up healthy) us)) in
      ground arith
  | inr down ↦ ground (arith, all_up_lem healthy args count us)
]

balanced_route : (us : List Uplink) → balanced route_words 0 us ≡ route_over false us
balanced_route [] = refl
balanced_route (u ∷ us) = refl

routes_agree :
    (failover : Bool) (healthy : Option (String → Bool)) (us : List Uplink)
    → (if failover then first_up healthy us else all_up healthy route_words 0 us)
      ≡ route_over failover (keep (is_up healthy) us)
routes_agree true healthy us = first_up_lem healthy us
routes_agree false healthy us =
    all_up_lem healthy route_words 0 us ∙ balanced_route (keep (is_up healthy) us)

if_valid {ℓ} :
    {A : Type ℓ}
    → (valid : Bool) (o : Option A) → valid ≡ true
    → (if not valid then none else o) ≡ o
if_valid valid o h = rw (h) refl

mode_failover : (c : WanConfig) → str_eq (wan_mode c) "failover" ≡ str_eq c.mode "failover"
unfolding wan_mode
mode_failover c = elim (Bool-cases (str_eq c.mode "failover")) [
  | inl e ↦ rw (e) refl
  | inr ne ↦ rw (ne) refl
]

-- The default route of a configuration that passes the validation goes over exactly the healthy
-- uplinks: in the mode failover over the first of them, otherwise over all of them, in order and
-- with their weights. It is an error exactly where none is healthy.
pub default_route_args_lem :
    (c : WanConfig) (healthy : Option (String → Bool))
    → validate c ≡ true
    → default_route_args c healthy
      ≡ route_over (str_eq c.mode "failover") (keep (is_up healthy) c.uplinks)
unfolding default_route_args
default_route_args_lem c healthy valid =
    if_valid (validate c) _ valid
    ∙ routes_agree (str_eq (wan_mode c) "failover") healthy c.uplinks
    ∙ ap (λ m. route_over m (keep (is_up healthy) c.uplinks)) (mode_failover c)
