-- ===== src/Gateway.antt =====
-- cmd/saguaro/gateway.go, firewall_objects.go and deviceaccess.go: the handlers that change the stored
-- configuration of the firewall.
pub mod Objects
pub mod Block
pub mod Apply
pub mod Unblock
pub mod BlockLists
pub mod Blocked
use sgsu.Prelude.{
  ℕ, zero, suc, Bool, true, false, not, ◌&&◌, ◌||◌, Option, none, some, String, List, [], ◌∷◌, ◌++◌,
  str_eq, if◌then◌else◌, ◌==◌, any, all, map, keep, take, only_if,
}
use sgsu.Prelude.Text.{trim_space}
use sgsu.App.{Event, Status}
use sgsu.Firewall.{Config, Alias, Rule, Zone, ServiceAcl}
use sgsu.Firewall.Objects.{validate_objects, listed}
use sgsu.Firewall.Reach.{validate}

-- The part of the state that the handlers change
pub record GatewayApp : Type 0 where
  pub gateway : Option Config
  pub audit : List Event

-- What one request meets outside: whether state.json can be written and the resolver takes its new
-- access list, the system profile, the interface of OpenVPN where it is on, the time, who asks and
-- from where
pub record Around : Type 0 where
  pub saves : Bool
  pub dns_applies : Bool
  pub profile : String
  pub openvpn_iface : String
  pub now : ℕ
  pub actor : String
  pub remote_ip : String

-- `recordSev` up to what it forwards outside
unfoldable pub add_event :
    Around → (action target result severity : String) → GatewayApp → GatewayApp
add_event o action target result severity a = record a {
  audit = take 5000 (
      record {
        time = o.now;
        severity = severity;
        actor = o.actor;
        action = action;
        target = target;
        result = result;
        remote_ip = o.remote_ip;
      }
      ∷ a.audit);
}

-- The zero value of `nftgen.Config`
abbrev pub empty_config : Config
empty_config = record {
  admin_network = "";
  client_network = "";
  dhcp_interface = "";
  gateway_enabled = false;
  wan_interface = "";
  lan_interface = "";
  mgmt_on_wan = false;
  mgmt_on_lan = false;
  nat_enabled = false;
  port_forwards = [];
  hairpin_nat = false;
  brute_force_protect = false;
  snat_rules = [];
  nat11 = [];
  ips_enabled = false;
  aliases = [];
  rules = [];
  service_acls = [];
  zones = [];
  geo_countries = [];
  tunnel_nets = [];
  pbr_uplinks = [];
  geo_cidrs = [];
  vpn_ports = [];
  openvpn_iface = "";
  openvpn_subnet = "";
  openvpn_access = [];
}

-- `getGateway`, with the zero value where nothing is stored
unfoldable pub get_gateway : GatewayApp → Config
get_gateway a = elim a.gateway [ none ↦ empty_config | some c ↦ c ]

-- `setGateway`: the memory changes even where the file cannot be written.
unfoldable pub set_gateway : Config → GatewayApp → GatewayApp
set_gateway c a = record a { gateway = some c }

-- A configuration is stored, and the request is answered.
unfoldable pub store :
    Around → Config → (action target severity : String) → GatewayApp → GatewayApp × Status
unfolding set_gateway add_event
store o c action target severity a =
    if not o.saves
    then (set_gateway c a, 500)
    else (add_event o action target "success" severity (set_gateway c a), 200)

-- The stored configuration, with what the form of the gateway does not carry
unfoldable pub merge_stored : Option Config → Config → Config
merge_stored none new = new
merge_stored (some cur) new = record new {
  aliases = cur.aliases;
  rules = cur.rules;
  zones = cur.zones;
  ips_enabled = cur.ips_enabled;
  geo_countries = cur.geo_countries;
}

-- `apiGatewayPut`
unfoldable pub api_gateway_put : Around → Config → GatewayApp → GatewayApp × Status
unfolding validate merge_stored store
api_gateway_put o new a =
    if not (validate new)
    then (a, 400)
    else if new.gateway_enabled && not (str_eq o.profile "gateway")
    then (a, 409)
    else store o (merge_stored a.gateway new) "gateway-config" "firewall" "info" a

-- A configuration with new objects is stored where they pass the validation.
unfoldable pub store_objects :
    Around → Config → (action : String) → GatewayApp → GatewayApp × Status
unfolding validate_objects store
store_objects o c action a =
    if not (validate_objects c) then (a, 400) else store o c action "objects" "info" a

-- `apiFirewallAliasesPut`
unfoldable pub api_firewall_aliases_put : Around → List Alias → GatewayApp → GatewayApp × Status
unfolding get_gateway store_objects
api_firewall_aliases_put o aliases a =
    store_objects o (record (get_gateway a) { aliases = aliases }) "firewall-aliases" a

-- `apiFirewallRulesPut`
unfoldable pub api_firewall_rules_put : Around → List Rule → GatewayApp → GatewayApp × Status
unfolding get_gateway store_objects
api_firewall_rules_put o rules a =
    store_objects o (record (get_gateway a) { rules = rules }) "firewall-rules" a

-- The access list of the resolver after the zones have been stored
unfoldable pub refresh_dns : Around → GatewayApp → GatewayApp
unfolding add_event
refresh_dns o a = if o.dns_applies then a else add_event o "zone-dns" "unbound" "failed" "warning" a

-- `apiFirewallZonesPut`
unfoldable pub api_firewall_zones_put : Around → List Zone → GatewayApp → GatewayApp × Status
unfolding get_gateway store_objects refresh_dns
api_firewall_zones_put o zones a =
    let stored = store_objects o (record (get_gateway a) { zones = zones }) "firewall-zones" a in
    if stored.1 == 200 then (refresh_dns o stored.0, 200) else stored

-- `accessZones`, by their names
unfoldable pub access_zones : Around → Config → List String
access_zones o c =
    only_if (not (str_eq c.wan_interface "")) ("wan" ∷ [])
    ++ (only_if (not (str_eq c.lan_interface "")) ("lan" ∷ [])
        ++ (map (λ z. z.name) (keep (λ z. not (str_eq z.kind "wan")) c.zones)
            ++ only_if (not (str_eq o.openvpn_iface "")) ("vpn" ∷ [])))

abbrev trimmed_row : ServiceAcl → ServiceAcl
trimmed_row r = record r { zone = trim_space r.zone }

abbrev admin_or : Option String → String → String
admin_or none old = old
admin_or (some new) old = trim_space new

-- The configuration with a new matrix
unfoldable pub with_matrix : List ServiceAcl → Option String → Config → Config
with_matrix rows admin c = record c {
  service_acls = map trimmed_row rows;
  admin_network = admin_or admin c.admin_network;
}

unfoldable pub put_matrix :
    Around → List ServiceAcl → Option String → Option Config → GatewayApp → GatewayApp × Status
unfolding access_zones with_matrix validate store
put_matrix o rows admin none a = (a, 409)
put_matrix o rows admin (some c) a =
    if not (all (λ r. listed (trim_space r.zone) (access_zones o c)) rows)
    then (a, 400)
    else if not (validate (with_matrix rows admin c))
    then (a, 400)
    else store o (with_matrix rows admin c) "device-access" "firewall" "security" a

-- `apiDeviceAccessPut`
unfoldable pub api_device_access_put :
    Around → List ServiceAcl → Option String → GatewayApp → GatewayApp × Status
unfolding put_matrix
api_device_access_put o rows admin a = put_matrix o rows admin a.gateway a
