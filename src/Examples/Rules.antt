-- ===== src/Examples/Rules.antt =====
-- The theorems on the firewall at a concrete configuration.
use sgsu.Prelude.{◌≡◌, refl, true, false, none, [], ◌∷◌}
use sgsu.Prelude.Integers.{pos}
use sgsu.Prelude.Net.{parse_ip, parse_cidr, contains}
use sgsu.Prelude.Text.{trim_space}
use sgsu.Firewall.{Config, Rule, Alias, ServiceAcl}
use sgsu.Firewall.Evaluate.{
  Packet, evaluate_forward, first_match, rule_matches, alias_contains, value_contains,
}

abbrev pub printers : Alias
printers = record { name = "printers"; type = "network"; values = "10.1.9.0/24" ∷ [] }

abbrev pub no_printing : Rule
no_printing = record {
  name = "no printing";
  action = "drop";
  proto = "tcp";
  src_alias = "";
  dst_alias = "printers";
  dst_port = pos 631;
  category = "local";
  from_zone = "";
  to_zone = "";
  log = false;
  enabled = true;
  schedule = none;
}

abbrev pub lan_row : ServiceAcl
lan_row = record {
  zone = "lan";
  https = true;
  ssh = false;
  dns = true;
  ping = true;
  dhcp = true;
  vpn = false;
}

abbrev pub gateway : Config
gateway = record {
  admin_network = "";
  client_network = "10.1.0.0/16";
  dhcp_interface = "";
  gateway_enabled = true;
  wan_interface = "enp1s0";
  lan_interface = "enp2s0";
  mgmt_on_wan = false;
  mgmt_on_lan = false;
  nat_enabled = true;
  port_forwards = [];
  hairpin_nat = false;
  brute_force_protect = false;
  snat_rules = [];
  nat11 = [];
  ips_enabled = false;
  aliases = printers ∷ [];
  rules = record no_printing { name = "off"; enabled = false } ∷ no_printing ∷ [];
  service_acls = lan_row ∷ [];
  zones = [];
  geo_countries = [];
  tunnel_nets = [];
  pbr_uplinks = [];
  geo_cidrs = [];
  vpn_ports = [];
  openvpn_iface = "";
  openvpn_subnet = "";
  openvpn_access = [];
}

abbrev pub print_job : Packet
print_job = record { src = "10.1.2.3"; dst = "10.1.9.7"; proto = "tcp"; dst_port = pos 631 }

print_job_dropped :
    evaluate_forward gateway print_job
    ≡ record { matched = true; rule_name = "no printing"; rule_index = 1; action = "drop" }
unfolding evaluate_forward first_match rule_matches parse_ip trim_space alias_contains
    value_contains parse_cidr contains
print_job_dropped = refl
