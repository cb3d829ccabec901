-- ===== src/Examples/Chains.antt =====
-- The theorems on the generated chains at a concrete configuration.
use sgsu.Prelude.{
  ◌≡◌, ◌≢◌, refl, Bool, true, false, ◌&&◌, ◌||◌, none, some, String, [], ◌∷◌, str_eq, any,
  Bool-cases, inl, inr, arith, eq_iff, ap, sym, if◌then◌else◌, ltb, ◌==◌,
}
use mathlib.Core.List.{Memᴰ}
use text.Mathlib.TextLemmas.{append_cancel_left}
use sgsu.Prelude.Format.{◌^^◌}
use sgsu.Prelude.Integers.{pos, eq_int}
use sgsu.Prelude.Net.{parse_ip, parse_cidr, contains, cidr_ip}
use sgsu.Prelude.Text.{trim_space}
use sgsu.Firewall.{Config, Zone, service_acl_rows, valid_iface, zone_iface, iface_name}
use sgsu.Firewall.Evaluate.{
  evaluate_forward, alias_contains, value_contains, alias_passes, alias_named, zone_of,
}
use sgsu.Firewall.Objects.{
  validate_objects, alias_ok, aliases_ok, valid_alias_value, valid_cidr4, zone_ok, zones_ok,
  rules_ok, rule_ok, rule_port_ok, valid_category, schedule_ok, references_ok,
}
use sgsu.Firewall.Reach.{validate, base_ok, gateway_ok, management_reachable}
use sgsu.Firewall.Nft.{
  Match, in_iface, out_iface, from_addr, to_addr, to_port, to_ports, protocol, other, first_hit,
  zone_trust, schedule_match,
}
use sgsu.Firewall.Chains.{input_chain}
use sgsu.Firewall.Forward.{forward_chain, forward_tail, zone_lines}
use sgsu.Firewall.Order.{Sees, answer, evaluate_forward-chain}
use sgsu.Firewall.Isolation.{zone_lines-isolate}
use sgsu.Firewall.Management.{Attempt, attempt_holds, admits, input_chain-admits}
use sgsu.Firewall.WayIn.{validate-input_chain}
use sgsu.Examples.Rules.{gateway, no_printing, print_job}

abbrev pub office : Zone
office = record {
  name = "office";
  kind = "lan";
  interface = "enp2s0";
  network = "10.1.0.0/16";
  vlan_id = pos 0;
  address = "";
}

abbrev guests : Zone
guests = record {
  name = "guests";
  kind = "guest";
  interface = "enp2s0";
  network = "10.9.0.0/16";
  vlan_id = pos 30;
  address = "10.9.0.1/16";
}

abbrev pub with_zones : Config
with_zones = record gateway {
  zones = office ∷ guests ∷ [];
  rules = record no_printing { from_zone = "office" } ∷ [];
}

-- The conditions of the chain at the print job
abbrev print_holds : Match → Bool
print_holds (in_iface i) = str_eq i "enp2s0"
print_holds (out_iface i) = str_eq i "enp2s0"
print_holds (from_addr s) = false
print_holds (to_addr s) = str_eq s "@alias_printers"
print_holds (to_port p n) = str_eq p "tcp" && eq_int n (pos 631)
print_holds (to_ports p ns) = str_eq p "tcp" && any (λ n. n == 631) ns
print_holds (protocol p) = str_eq p "tcp"
print_holds (other s) = str_eq s "ct state new"

sees_zone :
    (z : String)
    → zone_iface z "" with_zones.zones ≢ ""
    → str_eq (zone_iface z "" with_zones.zones) "enp2s0" ≡ str_eq z "office"
unfolding zone_iface iface_name
sees_zone z known = elim (Bool-cases (str_eq "guests" z)) [
  | inl e ↦ let word : "guests" ≡ z = ground (arith, eq_iff "guests" z) in rw (sym word) refl
  | inr ne ↦ elim (Bool-cases (str_eq "office" z)) [
    | inl e ↦ let word : "office" ≡ z = ground (arith, eq_iff "office" z) in rw (sym word) refl
    | inr off ↦ let no : ⊥ = known (ground arith) in absurd no
  ]
]

print_source :
    (a : String)
    → a ≢ ""
    → false ≡ alias_passes with_zones.aliases a (parse_ip (trim_space print_job.src))
unfolding alias_passes alias_named alias_contains value_contains parse_ip trim_space parse_cidr
    contains
print_source a there = elim (Bool-cases (str_eq "printers" a)) [
  | inl e ↦ let word : "printers" ≡ a = ground (arith, eq_iff "printers" a) in rw (sym word) refl
  | inr ne ↦ ground (arith, eq_iff a "")
]

print_target :
    (a : String)
    → a ≢ ""
    → str_eq ("@alias_" ^^ a) "@alias_printers"
      ≡ alias_passes with_zones.aliases a (parse_ip (trim_space print_job.dst))
unfolding alias_passes alias_named alias_contains value_contains parse_ip trim_space parse_cidr
    contains
print_target a there = elim (Bool-cases (str_eq "printers" a)) [
  | inl e ↦ let word : "printers" ≡ a = ground (arith, eq_iff "printers" a) in rw (sym word) refl
  | inr ne ↦ elim (Bool-cases (str_eq ("@alias_" ^^ a) "@alias_printers")) [
    | inl e ↦
        let both : "@alias_" ^^ a ≡ "@alias_" ^^ "printers" =
          ground (arith, eq_iff ("@alias_" ^^ a) "@alias_printers") in
        let word : a ≡ "printers" = append_cancel_left "@alias_" a "printers" both in
        ground (arith, eq_iff "printers" a)
    | inr off ↦ ground (arith, eq_iff a "")
  ]
]

print-Sees : Sees with_zones print_job print_holds
unfolding alias_passes alias_named alias_contains value_contains parse_ip trim_space parse_cidr
    contains zone_of
print-Sees = record {
  on_in = sees_zone;
  on_out = sees_zone;
  on_src = λ a there. print_source a there;
  on_dst = λ a there. print_target a there;
  on_proto = λ t. refl;
  on_port = λ t n. refl;
  has_proto = refl;
  has_port = refl;
}

evaluate_forward-chain_example :
    first_hit print_holds (forward_chain with_zones)
    ≡ answer
        (evaluate_forward with_zones print_job)
        (first_hit print_holds (forward_tail with_zones))
unfolding validate_objects aliases_ok alias_ok valid_alias_value valid_cidr4 cidr_ip trim_space
    zones_ok zone_ok rules_ok rule_ok rule_port_ok valid_category schedule_ok references_ok
    valid_iface iface_name schedule_match
evaluate_forward-chain_example =
    evaluate_forward-chain with_zones print_job print_holds refl print-Sees (refl, tt)
      (refl, refl, refl) refl

abbrev web_attempt : Attempt
web_attempt = record { iface = "enp2s0"; from_admin = false; port = 443 }

input_chain-admits_example :
    first_hit (attempt_holds web_attempt) (input_chain with_zones)
    ≡ some (if admits with_zones web_attempt then "accept" else "drop")
input_chain-admits_example = input_chain-admits web_attempt refl with_zones

validate-input_chain_example :
    (a : Attempt) × ((a.port == 22 || a.port == 443) ≡ true)
    × (first_hit (attempt_holds a) (input_chain with_zones) ≡ some "accept")
unfolding validate base_ok gateway_ok management_reachable service_acl_rows valid_iface
    validate_objects aliases_ok alias_ok valid_alias_value valid_cidr4 cidr_ip trim_space zones_ok
    zone_ok rules_ok rule_ok rule_port_ok valid_category schedule_ok references_ok iface_name
validate-input_chain_example = validate-input_chain with_zones refl

abbrev to_guests : Match → Bool
to_guests (in_iface i) = str_eq i "enp2s0"
to_guests (out_iface i) = str_eq i "enp2s0.30"
to_guests _ = false

names_differ : office.name ≢ guests.name
names_differ e = let no : true ≡ false = ap (str_eq office.name) e in cc

off_wan : iface_name guests ≢ with_zones.wan_interface
unfolding iface_name
off_wan e = let no : true ≡ false = ap (str_eq (iface_name guests)) e in cc

zone_lines-isolate_example :
    first_hit to_guests (zone_lines with_zones)
    ≡ (if ltb (zone_trust guests.kind) (zone_trust office.kind) then some "accept" else none)
unfolding validate_objects aliases_ok alias_ok valid_alias_value valid_cidr4 cidr_ip trim_space
    zones_ok zone_ok rules_ok rule_ok rule_port_ok valid_category schedule_ok references_ok
    valid_iface iface_name
zone_lines-isolate_example =
    zone_lines-isolate with_zones office guests to_guests refl refl (Memᴰ.head refl)
      (Memᴰ.tail (Memᴰ.head refl)) refl names_differ off_wan (λ x. refl) (λ x. refl)

abbrev queued : Match → Bool
queued (other s) = str_eq s "ct state new"
queued _ = false
