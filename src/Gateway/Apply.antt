-- ===== src/Gateway/Apply.antt =====
-- cmd/saguaro/gateway.go and firewall_objects.go: loading the generated rules with the window for a
-- confirmation, and what the stored configuration is generated with.
use sgsu.Prelude.{
  ℕ, suc, Bool, true, false, not, ◌&&◌, ◌||◌, Option, none, some, String, List, [], ◌∷◌, ◌++◌,
  str_eq, if◌then◌else◌, only_if,
}
use sgsu.Prelude.Integers.{ℤ, pos, lt_int}
use sgsu.App.{Status}
use sgsu.Firewall.{TunnelNet, PbrUplink}
use sgsu.Firewall.Generate.{generate}
use sgsu.Gateway.{GatewayApp, Around, add_event}
use sgsu.Gateway.Block.{Attached, Answers, firewall_config}
use sgsu.Vpn.{VpnConfig}
use sgsu.MultiWan.{WanConfig, Uplink}
use sgsu.OpenVpn.{OvpnConfig, port_or_default, openvpn_firewall}

-- What the firewall reads of a site-to-site or IPsec configuration: whether it is on, and for each
-- site or connection the local and the remote networks
pub record Tunnels : Type 0 where
  pub enabled : Bool
  pub sites : List (List String × List String)

abbrev no_networks : List String → Bool
no_networks [] = true
no_networks (_ ∷ _) = false

unfoldable pub site_nets : List (List String × List String) → List TunnelNet
site_nets [] = []
site_nets ((here, there) ∷ more) =
    let rest = site_nets more in
    if no_networks here || no_networks there
    then rest
    else record { local = here; remote = there } ∷ rest

-- `tunnelNets`
unfoldable pub tunnel_nets : (s2s ipsec : Tunnels) → List TunnelNet
unfolding site_nets
tunnel_nets s2s ipsec =
    only_if s2s.enabled (site_nets s2s.sites) ++ only_if ipsec.enabled (site_nets ipsec.sites)

-- The marks of the uplinks from a number on
unfoldable pub marked : ℕ → List Uplink → List PbrUplink
marked n [] = []
marked n (u ∷ us) = record { interface = u.interface; mark = pos n } ∷ marked (suc n) us

-- `pbrUplinks`
unfoldable pub pbr_uplinks : WanConfig → List PbrUplink
unfolding marked
pbr_uplinks c = only_if c.enabled (marked 1 c.uplinks)

-- `vpnPorts`
unfoldable pub vpn_ports : VpnConfig → OvpnConfig → List ℤ
unfolding port_or_default
vpn_ports v o =
    only_if (v.enabled && lt_int (pos 0) v.listen_port) (v.listen_port ∷ [])
    ++ only_if o.enabled (port_or_default o ∷ [])

-- What `firewallConfig` adds, from the configurations of the other components
unfoldable pub attached :
    (s2s ipsec : Tunnels)
    → WanConfig
    → VpnConfig
    → OvpnConfig
    → (geo : List String → List String) → Attached
unfolding tunnel_nets pbr_uplinks vpn_ports openvpn_firewall
attached s2s ipsec wan v o geo =
    let (iface, subnet, access) = openvpn_firewall o in
    record {
      tunnel_nets = tunnel_nets s2s ipsec;
      pbr_uplinks = pbr_uplinks wan;
      geo_cidrs = geo;
      vpn_ports = vpn_ports v o;
      openvpn_iface = iface;
      openvpn_subnet = subnet;
      openvpn_access = access;
    }

-- The generated rules are staged and loaded.
unfoldable pub load_rules : Around → Answers → Option String → GatewayApp → GatewayApp × Status
unfolding add_event
load_rules o w none a = (a, 400)
load_rules o w (some text) a =
    if not w.staged
    then (a, 500)
    else if not w.applied
    then (add_event o "firewall-apply" "nftables" "failed" "security" a, 502)
    else (add_event o "firewall-apply" "nftables" "success" "security" a, 200)

-- `apiGatewayApply`
unfoldable pub api_gateway_apply : Around → Attached → Answers → GatewayApp → GatewayApp × Status
unfolding load_rules generate firewall_config
api_gateway_apply o x w a = elim a.gateway [
  | none ↦ (a, 400)
  | some c ↦ load_rules o w (generate (firewall_config x c)) a
]

-- `apiFirewallApply`
unfoldable pub api_firewall_apply : Around → Attached → Answers → GatewayApp → GatewayApp × Status
unfolding load_rules generate firewall_config
api_firewall_apply o x w a = elim a.gateway [
  | none ↦ (a, 409)
  | some c ↦
      if str_eq c.client_network ""
      then (a, 409)
      else load_rules o w (generate (firewall_config x c)) a
]

-- `apiGatewayConfirm`, `apiGatewayRollback`
unfoldable pub api_gateway_confirm : Around → (works : Bool) → GatewayApp → GatewayApp × Status
unfolding add_event
api_gateway_confirm o works a =
    if not works
    then (a, 502)
    else (add_event o "firewall-confirm" "nftables" "success" "security" a, 200)

unfoldable pub api_gateway_rollback : Around → (works : Bool) → GatewayApp → GatewayApp × Status
unfolding add_event
api_gateway_rollback o works a =
    if not works
    then (a, 502)
    else (add_event o "firewall-rollback" "nftables" "success" "security" a, 200)
