-- ===== src/Firewall/Nft.antt =====
-- internal/adapters/nftgen/nftgen.go: the lines of the generated nftables configuration, as the
-- conditions, the verdict and the comment that the source writes one after the other, and the parts
-- of a line that functions of their own write.
use sgsu.Prelude.{
  ℕ, zero, suc, Bool, true, false, not, ◌||◌, Option, none, some, String, List, [], ◌∷◌, ◌++◌,
  str_eq, if◌then◌else◌, all, any, map,
}
use sgsu.Prelude.Integers.{ℤ, pos, eq_int}
use sgsu.Prelude.Text.{trim_space}
use sgsu.Prelude.Format.{◌^^◌, join, quote, int_text, decimal_text, sort_texts}
use sgsu.Prelude.Net.{split_once}
use sgsu.Firewall.{Rule, Alias, Zone, Schedule, zone_iface}
use sgsu.Firewall.Objects.{valid_cidr4, listed, schedule_ok}

-- A condition of a line
pub data Match : Type 0 where
  -- `iifname %q`, `oifname %q`
  in_iface : String → Match
  out_iface : String → Match
  -- `ip saddr %s`, `ip daddr %s`
  from_addr : String → Match
  to_addr : String → Match
  -- `%s dport %d`, `%s dport { … }`
  to_port : String → ℤ → Match
  to_ports : String → List ℕ → Match
  -- `meta l4proto %s`
  protocol : String → Match
  -- Any other condition, as it is written
  other : String → Match

-- A line of a chain
pub record Line : Type 0 where
  pub matches : List Match
  pub counted : Bool
  pub log_prefix : Option String
  pub verdict : String
  pub comment : Option String

-- The text of a condition
unfoldable pub match_text : Match → String
match_text (in_iface i) = "iifname " ^^ quote i
match_text (out_iface i) = "oifname " ^^ quote i
match_text (from_addr a) = "ip saddr " ^^ a
match_text (to_addr a) = "ip daddr " ^^ a
match_text (to_port p n) = p ^^ (" dport " ^^ int_text n)
match_text (to_ports p ns) = p ^^ (" dport { " ^^ (join ", " (map decimal_text ns) ^^ " }"))
match_text (protocol p) = "meta l4proto " ^^ p
match_text (other s) = s

abbrev if_some : String → Option String → List String
if_some word none = []
if_some word (some s) = (word ^^ quote s) ∷ []

-- A line without indentation
unfoldable pub line_text : Line → String
unfolding match_text
line_text l = join " " (
    map match_text l.matches
    ++ ((if l.counted then "counter" ∷ [] else [])
        ++ (if_some "log prefix " l.log_prefix ++ (l.verdict ∷ if_some "comment " l.comment))))

-- A line that only accepts
abbrev pub accept_line : List Match → Line
accept_line ms = record {
  matches = ms;
  counted = false;
  log_prefix = none;
  verdict = "accept";
  comment = none;
}

-- What becomes of a packet: the verdict of the first line whose conditions all hold of it
abbrev pub first_hit : (Match → Bool) → List Line → Option String
first_hit holds [] = none
first_hit holds (l ∷ ls) = if all holds l.matches then some l.verdict else first_hit holds ls

-- `zoneTrust`
unfoldable pub zone_trust : String → ℕ
zone_trust kind =
    if str_eq kind "guest"
    then 1
    else if str_eq kind "dmz"
    then 2
    else if str_eq kind "lan"
    then 3
    else 0

-- The loop of `ZoneNetworks`
unfoldable pub networks_of : List String → List Zone → List String
networks_of seen [] = []
networks_of seen (z ∷ zs) =
    let n = trim_space z.network in
    let skip = str_eq z.kind "wan" || not (valid_cidr4 n) || listed n seen in
    let rest = networks_of (if skip then seen else n ∷ seen) zs in if skip then rest else n ∷ rest

-- `ZoneNetworks`
unfoldable pub zone_networks : List Zone → List String
zone_networks zs = sort_texts (networks_of [] zs)

-- `InternalNetworks`
unfoldable pub internal_networks : List Zone → String → List String
internal_networks zs client =
    let nets = zone_networks zs in
    let cn = trim_space client in
    if not (valid_cidr4 cn)
    then nets
    else if listed cn nets
    then nets
    else sort_texts (nets ++ (cn ∷ []))

-- A value in `aliasSetType`; a range without a dash, for which the source panics, does not pass the
-- validation.
unfoldable pub alias_element : String → String → String
alias_element type value =
    let v = trim_space value in
    let range : String = elim (split_once b'-' v) [
      | none ↦ v
      | some (a, b) ↦ trim_space a ^^ ("-" ^^ trim_space b)
    ] in
    if str_eq type "range" then range else v

-- `aliasSetType`
unfoldable pub alias_set_type : Alias → String
alias_set_type a =
    let interval = str_eq a.type "network" || str_eq a.type "range" in
    "type ipv4_addr;"
    ^^ ((if interval then " flags interval;" else "")
        ^^ (" elements = { " ^^ (join ", " (map (alias_element a.type) a.values) ^^ " }")))

-- `nftSet`
unfoldable pub nft_set : List String → String
nft_set (c ∷ []) = trim_space c
nft_set cs = "{ " ^^ (join ", " (map trim_space cs) ^^ " }")

-- The weekdays without those that came before
abbrev pub distinct_days : List ℤ → List ℤ → List ℤ
distinct_days seen [] = []
distinct_days seen (d ∷ ds) =
    let rest = distinct_days (d ∷ seen) ds in if any (eq_int d) seen then rest else d ∷ rest

abbrev day_part : List ℤ → List String
day_part [] = []
day_part ds = ("meta day { " ^^ (join ", " (map int_text (distinct_days [] ds)) ^^ " }")) ∷ []

abbrev hour_part : String → String → List String
hour_part start end =
    if not (str_eq start "") || not (str_eq end "")
    then ("meta hour " ^^ (quote start ^^ ("-" ^^ quote end))) ∷ []
    else []

-- `nftMatch`: none for an error
unfoldable pub schedule_match : Option Schedule → Option String
unfolding schedule_ok
schedule_match none = some ""
schedule_match (some s) =
    if schedule_ok (some s)
    then some (join " " (day_part s.days ++ hour_part s.start s.end))
    else none

abbrev pub schedule_part : Option String → List Match
schedule_part none = []
schedule_part (some t) = if str_eq t "" then [] else other t ∷ []

abbrev pub zone_part : (String → Match) → List Zone → String → List Match
zone_part side zs name =
    if str_eq name ""
    then []
    else if str_eq (zone_iface name "" zs) ""
    then []
    else side (zone_iface name "" zs) ∷ []

abbrev pub alias_part : (String → Match) → String → List Match
alias_part side name = if str_eq name "" then [] else side ("@alias_" ^^ name) ∷ []

abbrev pub port_part : String → ℤ → List Match
port_part proto port =
    if not (eq_int port (pos 0))
    then to_port proto port ∷ []
    else if str_eq proto "tcp" || str_eq proto "udp"
    then protocol proto ∷ []
    else []

-- The conditions that `ruleMatch` writes
unfoldable pub rule_conditions : List Zone → Rule → List Match
unfolding schedule_match
rule_conditions zs r =
    zone_part in_iface zs r.from_zone
    ++ (zone_part out_iface zs r.to_zone
        ++ (alias_part from_addr r.src_alias
            ++ (alias_part to_addr r.dst_alias
                ++ (port_part r.proto r.dst_port ++ schedule_part (schedule_match r.schedule)))))

-- `s[:n]` of an ASCII text
abbrev pub first_chars : ℕ → String → String
first_chars zero s = ""
first_chars (suc n) String.[] = ""
first_chars (suc n) (String.◌∷◌ c s) = String.◌∷◌ c (first_chars n s)

abbrev rule_label : Rule → String
rule_label r = if str_eq r.category "" then r.name else r.name ^^ (" [" ^^ (r.category ^^ "]"))

-- The line of a custom rule: `ruleMatch` and the comment that `Generate` puts after it
unfoldable pub rule_line : List Zone → Rule → Line
unfolding rule_conditions
rule_line zs r = record {
  matches = rule_conditions zs r;
  counted = true;
  log_prefix = if r.log then some ("SNA:" ^^ (first_chars 24 r.name ^^ " ")) else none;
  verdict = r.action;
  comment = some (rule_label r);
}
