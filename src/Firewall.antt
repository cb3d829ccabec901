-- ===== src/Firewall.antt =====
-- internal/adapters/nftgen/nftgen.go: the configuration of the firewall, and the interfaces that it
-- names.
pub mod Objects
pub mod Evaluate
pub mod Reach
pub mod Nft
pub mod Chains
pub mod Forward
pub mod Generate
pub mod Verdicts
pub mod RuleLines
pub mod Order
pub mod Management
pub mod Isolation
pub mod WayIn
use Prim.Native.String
use Prim.Native.String.{len}
use sgsu.Prelude.{
  ℕ, zero, suc, ◌/◌, ◌%◌, Bool, true, false, not, ◌&&◌, ◌||◌, Option, none, some, String, List, [],
  ◌∷◌, str_eq, ltb, ◌==◌, if◌then◌else◌, any, all,
}
use sgsu.Prelude.Integers.{ℤ, pos, negsuc}
use sgsu.Prelude.Text.{codes, is_lower, is_upper, is_digit}
use sgsu.Prelude.Format.{◌^^◌, decimal_text}
use sgsu.Prelude.Net.{Ip, parse_ip, parse_cidr, to4}

-- `PortForward`, `NAT11Rule`, `SNATRule`, `Alias`
pub record PortForward : Type 0 where
  pub proto : String
  pub ext_port : ℤ
  pub dest_ip : String
  pub dest_port : ℤ
  pub ext_ip : String

pub record Nat11Rule : Type 0 where
  pub ext_ip : String
  pub int_ip : String

pub record SnatRule : Type 0 where
  pub source : String
  pub to_address : String

pub record Alias : Type 0 where
  pub name : String
  pub type : String
  pub values : List String

-- `Schedule`
pub record Schedule : Type 0 where
  pub days : List ℤ
  pub start : String
  pub end : String

-- `Rule`
pub record Rule : Type 0 where
  pub name : String
  pub action : String
  pub proto : String
  pub src_alias : String
  pub dst_alias : String
  pub dst_port : ℤ
  pub category : String
  pub from_zone : String
  pub to_zone : String
  pub log : Bool
  pub enabled : Bool
  pub schedule : Option Schedule

-- `Zone`
pub record Zone : Type 0 where
  pub name : String
  pub kind : String
  pub interface : String
  pub network : String
  pub vlan_id : ℤ
  pub address : String

-- `ServiceACL`
pub record ServiceAcl : Type 0 where
  pub zone : String
  pub https : Bool
  pub ssh : Bool
  pub dns : Bool
  pub ping : Bool
  pub dhcp : Bool
  pub vpn : Bool

-- `TunnelNet`, `PBRUplink`
pub record TunnelNet : Type 0 where
  pub local : List String
  pub remote : List String

pub record PbrUplink : Type 0 where
  pub interface : String
  pub mark : ℤ

-- `OVPNRule`, `OVPNAccess`
pub record OvpnRule : Type 0 where
  pub dest : String
  pub dest_alias : String
  pub proto : String
  pub port : ℤ

pub record OvpnAccess : Type 0 where
  pub addr : String
  pub allow_all : Bool
  pub rules : List OvpnRule

-- `Config`
pub record Config : Type 0 where
  pub admin_network : String
  pub client_network : String
  pub dhcp_interface : String
  pub gateway_enabled : Bool
  pub wan_interface : String
  pub lan_interface : String
  pub mgmt_on_wan : Bool
  pub mgmt_on_lan : Bool
  pub nat_enabled : Bool
  pub port_forwards : List PortForward
  pub hairpin_nat : Bool
  pub brute_force_protect : Bool
  pub snat_rules : List SnatRule
  pub nat11 : List Nat11Rule
  pub ips_enabled : Bool
  pub aliases : List Alias
  pub rules : List Rule
  pub service_acls : List ServiceAcl
  pub zones : List Zone
  pub geo_countries : List String
  pub tunnel_nets : List TunnelNet
  pub pbr_uplinks : List PbrUplink
  pub geo_cidrs : List String
  pub vpn_ports : List ℤ
  pub openvpn_iface : String
  pub openvpn_subnet : String
  pub openvpn_access : List OvpnAccess

-- `IfaceName`
unfoldable pub iface_name : Zone → String
iface_name z = elim z.vlan_id [
  | pos n ↦ if ltb 0 n then z.interface ^^ ("." ^^ decimal_text n) else z.interface
  | negsuc n ↦ z.interface
]

abbrev is_iface_char : ℕ → Bool
is_iface_char c = is_lower c || is_upper c || is_digit c || c == b'.' || c == b'_' || c == b'-'

-- `validIface`
unfoldable pub valid_iface : String → Bool
valid_iface name = not (str_eq name "" || ltb 15 (len name)) && all is_iface_char (codes name)

abbrev pub is_some {ℓ} : {A : Type ℓ} → Option A → Bool
is_some none = false
is_some (some _) = true

-- An address that is IPv4
abbrev pub is_ip4 : String → Bool
is_ip4 s = is_some (to4 (parse_ip s))

-- `zoneIfaceMap`, at a name; a later zone wins.
unfoldable pub zone_iface : String → String → List Zone → String
zone_iface name found [] = found
zone_iface name found (z ∷ zs) =
    zone_iface name (if str_eq z.name name then iface_name z else found) zs

-- The interface that a row of the matrix resolves to
unfoldable pub acl_iface : Config → ServiceAcl → String
unfolding zone_iface
acl_iface c r =
    if str_eq r.zone "wan"
    then c.wan_interface
    else if str_eq r.zone "lan"
    then c.lan_interface
    else if str_eq r.zone "vpn"
    then c.openvpn_iface
    else zone_iface r.zone "" c.zones

-- `serviceACLRows`, without the interfaces
unfoldable pub service_acl_rows : Config → List ServiceAcl → List ServiceAcl
unfolding acl_iface
service_acl_rows c [] = []
service_acl_rows c (r ∷ rs) =
    let rest = service_acl_rows c rs in if str_eq (acl_iface c r) "" then rest else r ∷ rest
