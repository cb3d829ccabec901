-- ===== src/Firewall/Evaluate.antt =====
-- internal/adapters/nftgen/nftgen.go: the tester of forward rules.
use sgsu.Prelude.{
  ℕ, suc, ◌+◌, ◌<◌, Bool, true, false, not, ◌&&◌, ◌||◌, Option, none, some, String, List, [], ◌∷◌,
  str_eq, leb, ◌==◌, if◌then◌else◌, any, keep, ◌≡◌, ◌⊎◌, inl, inr, refl, arith, Bool-cases, length,
  ap, sym, subst, ◌∙◌, ◌++◌,
}
use sgsu.Prelude.Integers.{ℤ, pos, eq_int}
use sgsu.Prelude.Text.{trim_space}
use sgsu.Prelude.Net.{Ip, parse_ip, parse_cidr, to4, contains, same_ip, split_once}
use sgsu.Firewall.{Config, Rule, Alias, Zone}

-- `Packet`
pub record Packet : Type 0 where
  pub src : String
  pub dst : String
  pub proto : String
  pub dst_port : ℤ

-- `RuleEval`, without the reason
pub record RuleEval : Type 0 where
  pub matched : Bool
  pub rule_name : String
  pub rule_index : ℕ
  pub action : String

-- The numbers of three IPv4 addresses in order
abbrev in_range : Option ℕ → Option ℕ → Option ℕ → Bool
in_range (some lo) (some hi) (some n) = leb lo n && leb n hi
in_range _ _ _ = false

abbrev net_contains : Option sgsu.Prelude.Net.IpNet → Ip → Bool
net_contains none ip = false
net_contains (some n) ip = contains n ip

-- One value of an alias of the type
unfoldable pub value_contains : String → Ip → String → Bool
value_contains type ip text =
    let v = trim_space text in
    let in_parts : Bool = elim (split_once b'-' v) [
      | none ↦ false
      | some (a, b) ↦
          in_range (to4 (parse_ip (trim_space a))) (to4 (parse_ip (trim_space b))) (to4 (some ip))
    ] in
    if str_eq type "host"
    then same_ip (parse_ip v) ip
    else if str_eq type "network"
    then net_contains (parse_cidr v) ip
    else str_eq type "range" && in_parts

-- `aliasContains`
unfoldable pub alias_contains : Alias → Ip → Bool
alias_contains a ip = any (value_contains a.type ip) a.values

-- `zoneOf`, of an address that may be nil
unfoldable pub zone_of : List Zone → Option Ip → String
zone_of zs none = ""
zone_of [] (some ip) = ""
zone_of (z ∷ zs) (some ip) =
    let rest = zone_of zs (some ip) in
    if not (str_eq z.network "") && net_contains (parse_cidr z.network) ip then z.name else rest

-- The map of aliases, at a name; a later alias wins.
unfoldable pub alias_named : String → Option Alias → List Alias → Option Alias
alias_named name found [] = found
alias_named name found (a ∷ more) =
    alias_named name (if str_eq a.name name then some a else found) more

-- Whether an address passes the alias that a rule names for it
unfoldable pub alias_passes : List Alias → String → Option Ip → Bool
unfolding alias_named
alias_passes listed name none = str_eq name ""
alias_passes listed name (some ip) =
    let found : Bool = elim (alias_named name none listed) [
      | none ↦ false
      | some a ↦ alias_contains a ip
    ] in
    str_eq name "" || found

-- The conditions of a rule, in the order of the loop
unfoldable pub rule_matches : Config → Packet → Rule → Bool
unfolding alias_passes zone_of
rule_matches c p r =
    let src = parse_ip (trim_space p.src) in
    let dst = parse_ip (trim_space p.dst) in
    (str_eq r.from_zone "" || str_eq r.from_zone (zone_of c.zones src))
    && ((str_eq r.to_zone "" || str_eq r.to_zone (zone_of c.zones dst))
        && (alias_passes c.aliases r.src_alias src
            && (alias_passes c.aliases r.dst_alias dst
                && ((str_eq r.proto "any" || str_eq p.proto "any" || str_eq r.proto p.proto)
                    && (eq_int r.dst_port (pos 0)
                        || eq_int p.dst_port (pos 0)
                        || eq_int r.dst_port p.dst_port)))))

-- The loop of `EvaluateForward` from the enabled rules that it has counted
unfoldable pub first_match : Config → Packet → ℕ → List Rule → RuleEval
first_match c p idx [] = record {
  matched = false;
  rule_name = "";
  rule_index = 0;
  action = "default";
}
first_match c p idx (r ∷ rs) =
    let later = first_match c p (if r.enabled then suc idx else idx) rs in
    if not r.enabled
    then later
    else if rule_matches c p r
    then record { matched = true; rule_name = r.name; rule_index = suc idx; action = r.action }
    else later

-- `EvaluateForward`
unfoldable pub evaluate_forward : Config → Packet → RuleEval
evaluate_forward c p = first_match c p 0 c.rules

-- The rules that the loop looks at
abbrev pub enabled_rules : Config → List Rule
enabled_rules c = keep (λ r. r.enabled) c.rules

-- What `EvaluateForward` should answer: the first enabled rule that matches, with its position from
-- 1 and its action, or the default where none matches
abbrev pub FirstMatch : Config → Packet → ℕ → List Rule → RuleEval → Type 0
FirstMatch c p idx rules e =
    ((before : List Rule) × (r : Rule) × (after : List Rule) × (rules ≡ before ++ (r ∷ after))
      × (any (rule_matches c p) before ≡ false)
      × (rule_matches c p r ≡ true)
      × (e ≡ record {
        matched = true;
        rule_name = r.name;
        rule_index = idx + suc (length before);
        action = r.action;
      }))
    ⊎ ((any (rule_matches c p) rules ≡ false)
        × (e ≡ record { matched = false; rule_name = ""; rule_index = 0; action = "default" }))

skip_rule :
    (c : Config) (p : Packet) (idx : ℕ) (r : Rule) (rules : List Rule) (e : RuleEval)
    → rule_matches c p r ≡ false
    → FirstMatch c p (suc idx) rules e
    → FirstMatch c p idx (r ∷ rules) e
skip_rule c p idx r rules e miss (inl (before, s, after, split, none_before, hit, same)) = inl (
  r ∷ before,
  s,
  after,
  ap (λ rs. r ∷ rs) split,
  rw (miss) none_before,
  hit,
  same
      ∙ ap (λ n. record { matched = true; rule_name = s.name; rule_index = n; action = s.action })
          (omega arith),
)
skip_rule c p idx r rules e miss (inr (none_at_all, same)) = inr (rw (miss) none_at_all, same)

FirstMatch-eq :
    (c : Config) (p : Packet) (idx : ℕ) (rules rules' : List Rule) (e e' : RuleEval)
    → rules' ≡ rules
    → e' ≡ e
    → FirstMatch c p idx rules e
    → FirstMatch c p idx rules' e'
FirstMatch-eq c p idx rules rules' e e' same_rules same m =
    subst (λ rs. FirstMatch c p idx rs e') (sym same_rules)
      (subst (λ v. FirstMatch c p idx rules v) (sym same) m)

first_match_lem :
    (c : Config) (p : Packet) (idx : ℕ) (rs : List Rule)
    → FirstMatch c p idx (keep (λ r. r.enabled) rs) (first_match c p idx rs)
unfolding first_match
first_match_lem c p idx [] = inr (refl, refl)
first_match_lem c p idx (r ∷ rs) = elim (Bool-cases r.enabled) [
  | inr off ↦
      FirstMatch-eq c p idx _ _ _ _ (ground arith) (ground arith) (first_match_lem c p idx rs)
  | inl on ↦
      let kept : keep (λ q. q.enabled) (r ∷ rs) ≡ r ∷ keep (λ q. q.enabled) rs = ground arith in
      elim (Bool-cases (rule_matches c p r)) [
        | inl hit ↦
            let here : first_match c p idx (r ∷ rs) ≡ record {
              matched = true;
              rule_name = r.name;
              rule_index = idx + suc (length {A = Rule} []);
              action = r.action;
            } =
              ground arith in
            FirstMatch-eq c p idx _ _ _ _ kept here
              (inl ([], r, keep (λ q. q.enabled) rs, refl, refl, hit, refl))
        | inr miss ↦
            let later : first_match c p idx (r ∷ rs) ≡ first_match c p (suc idx) rs =
              ground arith in
            FirstMatch-eq c p idx _ _ _ _ kept later (
              skip_rule c p idx r (keep (λ q. q.enabled) rs) (first_match c p (suc idx) rs) miss
                (first_match_lem c p (suc idx) rs))
      ]
]

-- The tester of rules answers with the first enabled rule that matches the packet, its position
-- among the enabled rules counted from 1 and its action, and with the default exactly where no
-- enabled rule matches.
evaluate_forward_lem :
    (c : Config) (p : Packet) → FirstMatch c p 0 (enabled_rules c) (evaluate_forward c p)
unfolding evaluate_forward
evaluate_forward_lem c p = first_match_lem c p 0 c.rules
