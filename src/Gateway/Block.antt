-- ===== src/Gateway/Block.antt =====
-- cmd/saguaro/firewall_block.go, with firewallConfig of firewall_objects.go: blocking an address, and
-- taking the block back.
use sgsu.Prelude.{
  Bool, true, false, not, ◌&&◌, ◌||◌, Option, none, some, String, List, [], ◌∷◌, ◌++◌, str_eq,
  if◌then◌else◌, any, keep,
}
use sgsu.Prelude.Integers.{ℤ, pos}
use sgsu.Prelude.Text.{trim_space}
use sgsu.App.{Status}
use sgsu.Firewall.{Config, Alias, Rule, TunnelNet, PbrUplink, OvpnAccess, is_ip4}
use sgsu.Firewall.Generate.{generate}
use sgsu.Gateway.{GatewayApp, Around, set_gateway, add_event}

-- What the other parts of the program add to the stored configuration: the networks of tunnels, the
-- marks of the uplinks, the networks of a country list, the ports of the VPNs, and OpenVPN's policy.
pub record Attached : Type 0 where
  pub tunnel_nets : List TunnelNet
  pub pbr_uplinks : List PbrUplink
  pub geo_cidrs : List String → List String
  pub vpn_ports : List ℤ
  pub openvpn_iface : String
  pub openvpn_subnet : String
  pub openvpn_access : List OvpnAccess

-- Whether the ruleset can be staged, and whether the root adapter loads and confirms it
pub record Answers : Type 0 where
  pub staged : Bool
  pub applied : Bool
  pub confirmed : Bool

-- `firewallConfig`, of a configuration that is stored
unfoldable pub firewall_config : Attached → Config → Config
firewall_config x c = record c {
  tunnel_nets = x.tunnel_nets;
  pbr_uplinks = x.pbr_uplinks;
  geo_cidrs = x.geo_cidrs c.geo_countries;
  vpn_ports = x.vpn_ports;
  openvpn_iface = x.openvpn_iface;
  openvpn_subnet = x.openvpn_subnet;
  openvpn_access = x.openvpn_access;
}

unfoldable pub load : Answers → Option String → Option String
load w none = none
load w (some text) = if w.staged && (w.applied && w.confirmed) then some text else none

-- `applyAndConfirm`: the ruleset that is in force, or none for an error
unfoldable pub apply_and_confirm : Attached → Answers → Option Config → Option String
unfolding load firewall_config generate
apply_and_confirm x w none = none
apply_and_confirm x w (some c) = load w (generate (firewall_config x c))

-- `blocklistAlias`, `blockRuleName`
abbrev pub blocklist_alias : String
blocklist_alias = "blocklist"

abbrev pub block_rule_name : String
block_rule_name = "Auto-blokada"

-- The loop over the aliases; an address that an earlier alias of the name has is not added again.
unfoldable pub block_aliases : (ip : String) → (already : Bool) → List Alias → List Alias
block_aliases ip already [] = []
block_aliases ip already (al ∷ more) =
    let known = already || any (λ v. str_eq v ip) al.values in
    let next = record al { values = if known then al.values else al.values ++ (ip ∷ []) } in
    let rest = block_aliases ip already more in
    let rest_known = block_aliases ip known more in
    if str_eq al.name blocklist_alias then next ∷ rest_known else al ∷ rest

abbrev pub new_blocklist : String → Alias
new_blocklist ip = record { name = blocklist_alias; type = "host"; values = ip ∷ [] }

abbrev pub block_rule : Rule
block_rule = record {
  name = block_rule_name;
  action = "drop";
  proto = "any";
  src_alias = blocklist_alias;
  dst_alias = "";
  dst_port = pos 0;
  category = "other";
  from_zone = "";
  to_zone = "";
  log = true;
  enabled = true;
  schedule = none;
}

abbrev pub has_alias : List Alias → Bool
has_alias aliases = any (λ al. str_eq al.name blocklist_alias) aliases

abbrev pub has_rule : List Rule → Bool
has_rule rules = any (λ r. str_eq r.name block_rule_name) rules

-- The configuration that blocks an address too
unfoldable pub blocked : String → Config → Config
unfolding block_aliases
blocked ip c = record c {
  aliases =
      if has_alias c.aliases
      then block_aliases ip false c.aliases
      else c.aliases ++ (new_blocklist ip ∷ []);
  rules = if has_rule c.rules then c.rules else block_rule ∷ c.rules;
}

-- A changed configuration is stored and loaded.
unfoldable pub store_and_load :
    Around
    → Attached
    → Answers
    → (next : Config) → (failed done : GatewayApp → GatewayApp) → GatewayApp
    → GatewayApp × Status
unfolding set_gateway apply_and_confirm
store_and_load o x w next failed done a =
    let stored = set_gateway next a in
    if not o.saves then (stored, 500) else elim (apply_and_confirm x w (some next)) [
      | none ↦ (failed stored, 502)
      | some text ↦ (done stored, 200)
    ]

unfoldable pub block_stored :
    Around → Attached → Answers → (ip : String) → Option Config → GatewayApp → GatewayApp × Status
unfolding blocked store_and_load add_event
block_stored o x w ip none a = (a, 409)
block_stored o x w ip (some c) a =
    if str_eq c.client_network ""
    then (a, 409)
    else store_and_load o x w (blocked ip c)
        (add_event o "firewall-block-ip" "nftables" "failed" "security")
        (add_event o "firewall-block-ip" "nftables" "success" "security") a

-- `apiFirewallBlockIP`
unfoldable pub api_firewall_block_ip :
    Around → Attached → Answers → (ip : String) → GatewayApp → GatewayApp × Status
unfolding block_stored
api_firewall_block_ip o x w ip a =
    if not (is_ip4 (trim_space ip))
    then (a, 400)
    else block_stored o x w (trim_space ip) a.gateway a

abbrev pub without_ip : String → Alias → Alias
without_ip ip al = record al { values = keep (λ v. not (str_eq v ip)) al.values }

abbrev pub is_empty {ℓ} : {A : Type ℓ} → List A → Bool
is_empty [] = true
is_empty _ = false

-- The loop over the aliases: the lists without the address
unfoldable pub unblock_aliases : (ip : String) → List Alias → List Alias
unblock_aliases ip [] = []
unblock_aliases ip (al ∷ more) =
    let rest = unblock_aliases ip more in
    (if str_eq al.name blocklist_alias then without_ip ip al else al) ∷ rest

-- Whether the last alias of the name is left empty by the loop
unfoldable pub left_empty : (ip : String) → (empty : Bool) → List Alias → Bool
left_empty ip empty [] = empty
left_empty ip empty (al ∷ more) =
    left_empty ip
      (if str_eq al.name blocklist_alias then is_empty (without_ip ip al).values else empty) more

-- The configuration that blocks an address no longer
unfoldable pub unblocked : String → Config → Config
unfolding unblock_aliases left_empty
unblocked ip c =
    let aliases = unblock_aliases ip c.aliases in
    if left_empty ip false c.aliases
    then record c {
      aliases = keep (λ al. not (str_eq al.name blocklist_alias)) aliases;
      rules = keep (λ r. not (str_eq r.name block_rule_name)) c.rules;
    }
    else record c { aliases = aliases }

unfoldable pub unblock_stored :
    Around → Attached → Answers → (ip : String) → Option Config → GatewayApp → GatewayApp × Status
unfolding unblocked store_and_load add_event
unblock_stored o x w ip none a = (a, 409)
unblock_stored o x w ip (some c) a =
    store_and_load o x w (unblocked ip c) (λ s. s)
      (add_event o "firewall-unblock-ip" "nftables" "success" "security") a

-- `apiFirewallUnblockIP`
unfoldable pub api_firewall_unblock_ip :
    Around → Attached → Answers → (ip : String) → GatewayApp → GatewayApp × Status
unfolding unblock_stored
api_firewall_unblock_ip o x w ip a = unblock_stored o x w (trim_space ip) a.gateway a
