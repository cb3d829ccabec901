-- ===== src/Examples/Blocks.antt =====
-- The theorems on blocked addresses at concrete requests.
use sgsu.Prelude.{◌≡◌, refl, true, false, none, some, List, [], ◌∷◌, All}
use sgsu.Prelude.Integers.{pos}
use sgsu.Prelude.Net.{cidr_ip, parse_ip}
use sgsu.Prelude.Text.{trim_space}
use sgsu.Firewall.{Config, service_acl_rows, valid_iface}
use sgsu.Firewall.Evaluate.{Packet, evaluate_forward, first_match, rule_matches}
use sgsu.Firewall.Objects.{
  validate_objects, aliases_ok, valid_cidr4, zones_ok, rules_ok, rule_ok, rule_port_ok,
  valid_category, schedule_ok, references_ok, alias_ok, valid_alias_value,
}
use sgsu.Firewall.Reach.{validate, base_ok, gateway_ok, management_reachable}
use sgsu.Firewall.Generate.{generate}
use sgsu.Gateway.{GatewayApp, Around, api_gateway_put, store, get_gateway}
use sgsu.Gateway.Block.{
  Attached, Answers, firewall_config, load, apply_and_confirm, block_aliases, blocked, block_stored,
  store_and_load, api_firewall_block_ip, unblocked, api_firewall_unblock_ip, block_rule,
  new_blocklist, unblock_aliases, left_empty,
}
use sgsu.System.{
  SystemApp, SystemCall, put_profile, firewall_call, block_ip, system_run, get_profile,
}
use sgsu.System.Mode.{contradicts, system_run-consistent}
use sgsu.System.Resolved.{ResolvesUnless, system_run-Resolves}
use sgsu.Gateway.Objects.{put_gateway, put_aliases, put_zones, put_rules, put_access}
use sgsu.Gateway.Blocked.{block_drops, unblock-block}
use sgsu.Examples.Rules.{gateway, no_printing, printers, lan_row}
use sgsu.Examples.Chains.{office}
use sgsu.Examples.Gateways.{calm, form}

abbrev nothing_more : Attached
nothing_more = record {
  tunnel_nets = [];
  pbr_uplinks = [];
  geo_cidrs = λ codes. [];
  vpn_ports = [];
  openvpn_iface = "";
  openvpn_subnet = "";
  openvpn_access = [];
}

abbrev works : Answers
works = record { staged = true; applied = true; confirmed = true }

abbrev running : GatewayApp
running = record { gateway = some gateway; audit = [] }

abbrev attack : Packet
attack = record { src = "203.0.113.9"; dst = "10.1.9.7"; proto = "tcp"; dst_port = pos 443 }

answered : (api_firewall_block_ip calm nothing_more works " 203.0.113.9" running).1 ≡ 200
unfolding api_firewall_block_ip block_stored store_and_load apply_and_confirm load firewall_config
    generate validate base_ok gateway_ok management_reachable service_acl_rows valid_iface
    validate_objects aliases_ok alias_ok valid_alias_value valid_cidr4 cidr_ip parse_ip trim_space
    zones_ok rules_ok rule_ok rule_port_ok valid_category schedule_ok references_ok blocked
    block_aliases
answered = refl

block_drops_example :
    evaluate_forward
      (get_gateway (api_firewall_block_ip calm nothing_more works " 203.0.113.9" running).0)
      attack
    ≡ record { matched = true; rule_name = "Auto-blokada"; rule_index = 1; action = "drop" }
unfolding trim_space parse_ip
block_drops_example =
    block_drops calm nothing_more works " 203.0.113.9" running gateway attack refl refl refl refl
      answered

unblock-block_example :
    (api_firewall_unblock_ip calm nothing_more works "203.0.113.9"
      (api_firewall_block_ip calm nothing_more works "203.0.113.9" running).0).0.gateway
    ≡ some gateway
unfolding api_firewall_block_ip block_stored store_and_load apply_and_confirm load firewall_config
    generate validate base_ok gateway_ok management_reachable service_acl_rows valid_iface
    validate_objects aliases_ok alias_ok valid_alias_value valid_cidr4 cidr_ip parse_ip trim_space
    zones_ok rules_ok rule_ok rule_port_ok valid_category schedule_ok references_ok blocked
    block_aliases
unblock-block_example =
    unblock-block calm calm nothing_more nothing_more works works "203.0.113.9" running gateway refl
      refl refl refl

-- A rule of the administrator over the list of blocked addresses
abbrev with_rule : Config
with_rule = record gateway {
  aliases = new_blocklist "203.0.113.9" ∷ gateway.aliases;
  rules = record no_printing { src_alias = "blocklist" } ∷ block_rule ∷ [];
}

-- The last address is taken off the list, which goes, and that rule's name has no alias any more.
list_gone :
    (api_firewall_unblock_ip calm nothing_more works "203.0.113.9"
      (record { gateway = some with_rule; audit = [] })).1
    ≡ 502
unfolding api_firewall_unblock_ip store_and_load apply_and_confirm load firewall_config generate
    validate base_ok validate_objects aliases_ok zones_ok rules_ok references_ok unblocked
    unblock_aliases left_empty trim_space valid_cidr4 cidr_ip alias_ok valid_alias_value rule_ok
    rule_port_ok valid_category schedule_ok
list_gone = refl

-- A block's rule that has been switched off stays so, and the block is answered 200.
abbrev switched_off : Config
switched_off = record gateway { rules = record block_rule { enabled = false } ∷ [] }

not_dropped :
    evaluate_forward (blocked "203.0.113.9" switched_off) attack
    ≡ record { matched = false; rule_name = ""; rule_index = 0; action = "default" }
unfolding evaluate_forward first_match rule_matches blocked
not_dropped = refl

abbrev in_gateway_mode : SystemApp
in_gateway_mode = record { firewall = running; profile = "gateway" }

abbrev mode_requests : List (Around × SystemCall)
mode_requests =
    (calm, put_profile "router")
    ∷ (calm, block_ip nothing_more works "203.0.113.9")
    ∷ (
      calm,
      firewall_call
          (put_gateway (record form { gateway_enabled = false; admin_network = "10.1.0.0/24" })),
    )
    ∷ (calm, put_profile "router")
    ∷ (calm, firewall_call (put_gateway form))
    ∷ []

system_run-consistent_example : contradicts (system_run mode_requests in_gateway_mode) ≡ false
unfolding get_profile
system_run-consistent_example = system_run-consistent mode_requests in_gateway_mode refl

-- The mode changes only after the gateway mode is off, which then stays off.
router_in_the_end : (system_run mode_requests in_gateway_mode).profile ≡ "router"
unfolding system_run get_profile get_gateway api_gateway_put store store_and_load apply_and_confirm
    load firewall_config generate validate base_ok gateway_ok management_reachable service_acl_rows
    valid_iface validate_objects aliases_ok alias_ok valid_alias_value valid_cidr4 cidr_ip parse_ip
    trim_space zones_ok rules_ok rule_ok rule_port_ok valid_category schedule_ok references_ok
    blocked block_aliases
router_in_the_end = refl

abbrev unconfigured : SystemApp
unconfigured = record { firewall = record { gateway = none; audit = [] }; profile = "" }

abbrev set_up : List (Around × SystemCall)
set_up =
    (calm, firewall_call (put_gateway form))
    ∷ (calm, firewall_call (put_aliases (printers ∷ [])))
    ∷ (calm, firewall_call (put_zones (office ∷ [])))
    ∷ (calm, firewall_call (put_rules (no_printing ∷ [])))
    ∷ (calm, block_ip nothing_more works "203.0.113.9")
    ∷ (calm, firewall_call (put_access (lan_row ∷ []) none))
    ∷ []

system_run-Resolves_example :
    All
      (λ r.
        ResolvesUnless false
          (get_gateway (system_run set_up unconfigured).firewall).aliases
          r.src_alias
        × ResolvesUnless false
            (get_gateway (system_run set_up unconfigured).firewall).aliases
            r.dst_alias)
      (get_gateway (system_run set_up unconfigured).firewall).rules
unfolding get_gateway validate_objects aliases_ok zones_ok rules_ok
system_run-Resolves_example = system_run-Resolves set_up unconfigured refl

set_up_stores :
    (get_gateway (system_run set_up unconfigured).firewall).rules ≡ block_rule ∷ no_printing ∷ []
unfolding get_gateway system_run get_profile api_gateway_put store store_and_load apply_and_confirm
    load firewall_config generate validate base_ok gateway_ok management_reachable service_acl_rows
    valid_iface validate_objects aliases_ok alias_ok valid_alias_value valid_cidr4 cidr_ip parse_ip
    trim_space zones_ok rules_ok rule_ok rule_port_ok valid_category schedule_ok references_ok
    blocked block_aliases
set_up_stores = refl
