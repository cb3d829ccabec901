-- ===== src/Examples/Tunnels.antt =====
-- The theorems on OpenVPN at a concrete configuration.
use sgsu.Prelude.{Bool, true, false, none, some, String, List, [], ◌∷◌, map, ◌≡◌, refl}
use sgsu.Prelude.Integers.{pos}
use sgsu.Prelude.Net.{parse_ip, parse_cidr, contains, cidr_ip}
use sgsu.Prelude.Net.Texts.{ip_text}
use sgsu.Prelude.Text.{trim_space}
use sgsu.Firewall.Objects.{valid_cidr4}
use sgsu.Vpn.{ok}
use sgsu.Vpn.Requests.{status}
use sgsu.Vpn.Addresses.{distinct}
use sgsu.OpenVpn.{
  Client, OvpnConfig, validate, next_free, inc_ip, next_free_addr, openvpn_firewall,
  port_or_default,
}
use sgsu.OpenVpn.Requests.{
  OvpnApp, Outer, OvpnSettings, OvpnCall, add, drop_client, get_ovpn, default_ovpn,
  api_openvpn_apply, ovpn_run, with_ovpn_settings,
}
use sgsu.OpenVpn.Apart.{active_names, ovpn_run-apart}
use sgsu.OpenVpn.Subnet.{subnet_moves}

abbrev client : (name address : String) → Bool → Client
client name address revoked = record {
  name = name;
  serial = "01";
  cert_pem = "cert";
  pass_hash = "phc";
  vpn_addr = address;
  access = [];
  revoked = revoked;
  created_at = 1;
  expires_at = 9;
}

abbrev tunnel : OvpnConfig
tunnel = record default_ovpn {
  enabled = true;
  endpoint = "vpn.example.org";
  ca_cert_pem = "ca";
  clients = client "ana" "10.9.0.2" false ∷ client "ana" "10.9.0.2" true ∷ [];
}

abbrev tunnels : OvpnApp
tunnels = record { openvpn = some tunnel; audit = [] }

abbrev outer : Outer
outer = record {
  disables = true;
  stages = true;
  saves = true;
  has_key = true;
  pki = none;
  has_gateway = false;
  client_network = "";
  aliases = [];
  syncs = true;
  opens_ca = true;
  opens_tls = true;
  signed = some ("02", "cert of ivo");
  hashed = some "phc of ivo";
  not_after = 9;
  now = 2;
  actor = "alice";
  remote_ip = "10.0.0.9";
}

abbrev settings : Bool → String → OvpnSettings
settings on subnet = record {
  enabled = on;
  subnet = subnet;
  port = pos 1194;
  endpoint = "vpn.example.org";
  dns = "";
  split_networks = [];
}

ivo_gets : next_free_addr tunnel ≡ ok "10.9.0.3"
unfolding next_free_addr next_free inc_ip parse_cidr trim_space parse_ip contains ip_text
ivo_gets = refl

abbrev two_calls : List (Outer × OvpnCall)
two_calls = (outer, add "ivo" "a long password") ∷ (outer, drop_client "ana") ∷ []

ovpn_run-apart_example :
    (distinct (active_names (get_ovpn (ovpn_run two_calls tunnels)).clients) ≡ true)
    × (distinct (map (λ x. x.addr) (openvpn_firewall (get_ovpn (ovpn_run two_calls tunnels))).2)
        ≡ true)
unfolding get_ovpn
ovpn_run-apart_example = ovpn_run-apart two_calls tunnels refl

abbrev moving : OvpnSettings
moving = settings true "10.8.0.0/24"

abbrev emptied : OvpnApp
emptied = (api_openvpn_apply outer (settings false "") tunnels).0

subnet_moves_example :
    (api_openvpn_apply outer moving tunnels ≡ (tunnels, status 409))
    × ((api_openvpn_apply outer moving emptied).1 ≡ status 200)
    × ((get_ovpn (api_openvpn_apply outer moving emptied).0).subnet ≡ "10.8.0.0/24")
    × ((get_ovpn (api_openvpn_apply outer moving emptied).0).clients ≡ (get_ovpn tunnels).clients)
unfolding get_ovpn with_ovpn_settings validate cidr_ip trim_space parse_ip port_or_default
    valid_cidr4
subnet_moves_example =
    subnet_moves outer outer (settings false "") moving tunnels refl refl refl refl refl refl refl
      refl refl refl refl refl refl
