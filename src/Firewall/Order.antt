-- ===== src/Firewall/Order.antt =====
-- internal/adapters/nftgen/nftgen.go: the tester of rules against the generated chain `forward`.
use sgsu.Prelude.{
  ℕ, suc, Bool, true, false, not, ◌&&◌, ◌||◌, Option, none, some, String, List, [], ◌∷◌, ◌++◌,
  str_eq, if◌then◌else◌, all, map, keep, only_if, ◌≡◌, ◌≢◌, inl, inr, refl, arith, Bool-cases,
  eq_iff, All, ◌∙◌,
}
use sgsu.Prelude.Integers.{ℤ, pos, eq_int}
use sgsu.Prelude.Text.{trim_space}
use sgsu.Prelude.Net.{parse_ip}
use sgsu.Prelude.Format.{◌^^◌}
use sgsu.Firewall.{Config, Rule, zone_iface}
use sgsu.Firewall.Objects.{rule_ok, rules_ok, references_ok, zones_ok, listed, validate_objects}
use sgsu.Firewall.Evaluate.{
  Packet, RuleEval, rule_matches, first_match, evaluate_forward, alias_passes, zone_of,
}
use sgsu.Firewall.Nft.{
  accept_line, Match, Line, in_iface, out_iface, from_addr, to_addr, to_port, protocol, first_hit,
  rule_line, rule_conditions, zone_part, schedule_part, schedule_match,
}
use sgsu.Firewall.Chains.{is_new, established, invalid, geo_lines, is_empty, drop_line}
use sgsu.Firewall.Forward.{
  forward_head, forward_start, queue_line, forward_tail, forward_chain, custom_lines,
  forward_active,
}
use sgsu.Firewall.RuleLines.{
  alias_agrees, zone_agrees, port_agrees, rule_port_word, zone_iface-given, alias_unasked,
  all_parts,
}
use sgsu.Firewall.Verdicts.{first_hit-skip, first_hit-stop, both-miss, only_if-miss}

-- The conditions of the chain hold of a packet as the tester reads it: the interfaces are those of
-- the zones of its addresses, the sets are the aliases, and the packet has a protocol and a port.
pub record Sees (c : Config) (p : Packet) (holds : Match → Bool) : Type 0 where
  pub on_in :
      (z : String)
      → zone_iface z "" c.zones ≢ ""
      → holds (in_iface (zone_iface z "" c.zones))
        ≡ str_eq z (zone_of c.zones (parse_ip (trim_space p.src)))
  pub on_out :
      (z : String)
      → zone_iface z "" c.zones ≢ ""
      → holds (out_iface (zone_iface z "" c.zones))
        ≡ str_eq z (zone_of c.zones (parse_ip (trim_space p.dst)))
  pub on_src :
      (a : String)
      → a ≢ ""
      → holds (from_addr ("@alias_" ^^ a)) ≡ alias_passes c.aliases a (parse_ip (trim_space p.src))
  pub on_dst :
      (a : String)
      → a ≢ ""
      → holds (to_addr ("@alias_" ^^ a)) ≡ alias_passes c.aliases a (parse_ip (trim_space p.dst))
  pub on_proto : (t : String) → holds (protocol t) ≡ str_eq t p.proto
  pub on_port :
      (t : String) (n : ℤ) → holds (to_port t n) ≡ (str_eq t p.proto && eq_int n p.dst_port)
  pub has_proto : str_eq p.proto "any" ≡ false
  pub has_port : eq_int p.dst_port (pos 0) ≡ false

-- The schedule of a rule, if it has one, holds of the packet.
abbrev pub InTime : (Match → Bool) → Rule → Type 0
InTime holds r = all holds (schedule_part (schedule_match r.schedule)) ≡ true

-- The action that the tester answers, or what happens where it found no rule
abbrev pub answer : RuleEval → Option String → Option String
answer e later = if e.matched then some e.action else later

module _ (c : Config) (p : Packet) (holds : Match → Bool) (sees : Sees c p holds) where
  rule_agrees :
      (r : Rule)
      → rule_ok r ≡ true
      → (r.from_zone ≢ "" → zone_iface r.from_zone "" c.zones ≢ "")
      → (r.to_zone ≢ "" → zone_iface r.to_zone "" c.zones ≢ "")
      → InTime holds r
      → all holds (rule_conditions c.zones r) ≡ rule_matches c p r
  unfolding rule_ok rule_conditions rule_matches alias_passes
  rule_agrees r ok from to in_time =
      let source : all holds (zone_part in_iface c.zones r.from_zone) ≡ _ =
        zone_agrees holds in_iface c.zones r.from_zone _ sees.on_in from in
      let target : all holds (zone_part out_iface c.zones r.to_zone) ≡ _ =
        zone_agrees holds out_iface c.zones r.to_zone _ sees.on_out to in
      let src =
        alias_agrees holds from_addr r.src_alias _ (alias_unasked c.aliases r.src_alias _)
          (sees.on_src r.src_alias) in
      let dst =
        alias_agrees holds to_addr r.dst_alias _ (alias_unasked c.aliases r.dst_alias _)
          (sees.on_dst r.dst_alias) in
      let port =
        port_agrees holds r.proto r.dst_port p.proto p.dst_port (ground arith)
          (rule_port_word r (ground arith)) sees.has_proto sees.has_port sees.on_proto
          sees.on_port in
      all_parts holds _ _ _ _ _ _ _ _ _ _ _ source target src dst port in_time

  zone_known :
      (name : String)
      → zones_ok [] [] c.zones ≡ true
      → (str_eq name "" || listed name (map (λ z. z.name) c.zones)) ≡ true
      → name ≢ ""
      → zone_iface name "" c.zones ≢ ""
  zone_known name ok known there =
      let named : listed name (map (λ z. z.name) c.zones) ≡ true = ground (arith, eq_iff name "") in
      zone_iface-given name "" _ _ c.zones ok (inr named)

  rules_agree :
      (seen aliases : List String) (idx : ℕ) (rs : List Rule) (tail : List Line)
      → zones_ok [] [] c.zones ≡ true
      → rules_ok aliases (map (λ z. z.name) c.zones) seen rs ≡ true
      → All (InTime holds) rs
      → first_hit holds (map (rule_line c.zones) (keep (λ r. r.enabled) rs) ++ tail)
        ≡ answer (first_match c p idx rs) (first_hit holds tail)
  unfolding rules_ok first_match rule_line references_ok
  rules_agree seen aliases idx [] tail zones ok _ = refl
  rules_agree seen aliases idx (r ∷ rs) tail zones ok (in_time, later) =
      let later_idx = if r.enabled then suc idx else idx in
      let rest = rules_agree (r.name ∷ seen) aliases later_idx rs tail zones (ground arith) later in
      let same =
        rule_agrees r (ground arith) (zone_known r.from_zone zones (ground arith))
          (zone_known r.to_zone zones (ground arith)) in_time in
      elim (Bool-cases r.enabled) [
        | inr off ↦ ground arith
        | inl on ↦ elim (Bool-cases (rule_matches c p r)) [
          | inl hit ↦ ground arith
          | inr miss ↦ ground arith
        ]
      ]

-- A packet that the first lines of the chain leave undecided
abbrev pub IsUndecided : (Match → Bool) → Type 0
IsUndecided holds =
    (holds established ≡ false) × (holds invalid ≡ false) × (holds (from_addr "@geo4") ≡ false)

forward_start-miss :
    (c : Config) (holds : Match → Bool)
    → IsUndecided holds
    → first_hit holds (forward_start c) ≡ none
forward_start-miss c holds (e, i, g) =
    let first = accept_line (established ∷ []) ∷ drop_line (invalid ∷ []) ∷ [] in
    let geo = drop_line (from_addr "@geo4" ∷ []) ∷ [] in
    both-miss holds (only_if (forward_active c) first) (geo_lines c)
      (only_if-miss holds (forward_active c) first (ground arith))
      (only_if-miss holds (not (is_empty c.geo_cidrs)) geo (ground arith))

-- Where the objects of a configuration pass the validation, intrusion prevention does not take the
-- new packets, and the conditions of the chain hold of a packet as the tester reads it: the
-- generated chain `forward` does with the packet what the tester answers, and where the tester
-- finds no rule, what the lines after the custom rules do with it.
pub evaluate_forward-chain :
    (c : Config) (p : Packet) (holds : Match → Bool)
    → validate_objects c ≡ true
    → Sees c p holds
    → All (InTime holds) c.rules
    → IsUndecided holds
    → (c.gateway_enabled && c.ips_enabled) ≡ false
    → first_hit holds (forward_chain c)
      ≡ answer (evaluate_forward c p) (first_hit holds (forward_tail c))
unfolding validate_objects forward_chain forward_head custom_lines evaluate_forward
evaluate_forward-chain c p holds ok sees in_time undecided off =
    let queue = only_if (c.gateway_enabled && c.ips_enabled) (queue_line ∷ []) in
    let queue_miss : first_hit holds queue ≡ none = ground arith in
    let head_miss =
      both-miss holds (forward_start c) queue (forward_start-miss c holds undecided) queue_miss in
    first_hit-skip holds (forward_head c) (custom_lines c ++ forward_tail c) head_miss
    ∙ rules_agree c p holds sees [] (map (λ a. a.name) c.aliases) 0 c.rules (forward_tail c)
        (ground arith) (ground arith) in_time

-- In gateway mode with intrusion prevention: a new packet that the first lines leave undecided goes
-- to queue 0, whatever the custom rules say of it.
ips_queues :
    (c : Config) (holds : Match → Bool)
    → (c.gateway_enabled && c.ips_enabled) ≡ true
    → IsUndecided holds
    → holds is_new ≡ true
    → first_hit holds (forward_chain c) ≡ some "queue num 0 bypass"
unfolding forward_chain forward_head
ips_queues c holds on undecided new =
    let queue = only_if (c.gateway_enabled && c.ips_enabled) (queue_line ∷ []) in
    let queued : first_hit holds queue ≡ some "queue num 0 bypass" = ground arith in
    first_hit-stop holds "queue num 0 bypass" (forward_head c) (custom_lines c ++ forward_tail c)
      (first_hit-skip holds (forward_start c) queue (forward_start-miss c holds undecided) ∙ queued)
