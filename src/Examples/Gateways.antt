-- ===== src/Examples/Gateways.antt =====
-- Concrete requests of the firewall.
use sgsu.Prelude.{true, []}
use sgsu.Firewall.{Config}
use sgsu.Gateway.{Around}
use sgsu.Examples.Rules.{gateway}

abbrev pub calm : Around
calm = record {
  saves = true;
  dns_applies = true;
  profile = "gateway";
  openvpn_iface = "";
  now = 1700000000000000000;
  actor = "admin";
  remote_ip = "10.1.0.7";
}

-- The form of the gateway, which has no objects and no matrix
abbrev pub form : Config
form = record gateway {
  aliases = [];
  rules = [];
  zones = [];
  service_acls = [];
  mgmt_on_lan = true;
}
