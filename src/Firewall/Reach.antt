-- ===== src/Firewall/Reach.antt =====
-- internal/adapters/nftgen/nftgen.go: the validation of the whole configuration, and the way to the
-- appliance that it leaves open.
use sgsu.Prelude.{
  ℕ, Bool, true, false, not, ◌&&◌, ◌||◌, List, [], ◌∷◌, ◌++◌, str_eq, ltb, ◌==◌, if◌then◌else◌, any,
  all, ◌≡◌, ◌≢◌, ◌⊎◌, inl, inr, refl, arith, Bool-cases, eq_iff,
}
use mathlib.Core.List.{Memᴰ}
use sgsu.Prelude.Integers.{ℤ, pos, negsuc}
use sgsu.Prelude.Text.{codes, trim_space, matches, is_lower}
use sgsu.Firewall.{
  Config, ServiceAcl, PortForward, SnatRule, Nat11Rule, TunnelNet, valid_iface, is_ip4, acl_iface,
  service_acl_rows,
}
use sgsu.Firewall.Objects.{valid_cidr4, validate_objects}

abbrev is_empty {ℓ} : {A : Type ℓ} → List A → Bool
is_empty [] = true
is_empty _ = false

-- A row of the matrix that opens SSH or HTTPS
abbrev pub opens : ServiceAcl → Bool
opens r = r.https || r.ssh

-- `ManagementReachable`
unfoldable pub management_reachable : Config → Bool
management_reachable c =
    let rows = service_acl_rows c c.service_acls in
    if not (str_eq (trim_space c.admin_network) "")
    then true
    else if not (is_empty rows)
    then any opens rows
    else (c.mgmt_on_lan && not (str_eq c.lan_interface ""))
      || (c.mgmt_on_wan && not (str_eq c.wan_interface ""))

abbrev in_ports : ℤ → Bool
in_ports (pos n) = ltb 0 n && not (ltb 65535 n)
in_ports (negsuc n) = false

abbrev is_port : ℕ → ℤ → Bool
is_port p (pos n) = n == p
is_port p (negsuc n) = false

unfoldable pub port_forward_ok : PortForward → Bool
port_forward_ok f =
    (str_eq f.proto "tcp" || str_eq f.proto "udp")
    && ((in_ports f.ext_port && in_ports f.dest_port)
        && (is_ip4 f.dest_ip
            && (not (is_port 22 f.ext_port || is_port 443 f.ext_port)
                && (str_eq f.ext_ip "" || is_ip4 f.ext_ip))))

unfoldable pub snat_ok : SnatRule → Bool
snat_ok s =
    (valid_cidr4 (trim_space s.source) || is_ip4 (trim_space s.source))
    && is_ip4 (trim_space s.to_address)

unfoldable pub nat11_ok : Nat11Rule → Bool
nat11_ok n = is_ip4 (trim_space n.ext_ip) && is_ip4 (trim_space n.int_ip)

abbrev tunnel_ok : TunnelNet → Bool
tunnel_ok t = all (λ s. valid_cidr4 (trim_space s)) (t.local ++ t.remote)

abbrev mark_ok : ℤ → Bool
mark_ok (pos n) = ltb 0 n && not (ltb 255 n)
mark_ok (negsuc n) = false

-- The part of `Validate` before gateway mode
unfoldable pub base_ok : Config → Bool
base_ok c =
    (str_eq c.admin_network "" || valid_cidr4 c.admin_network)
    && (valid_cidr4 c.client_network
        && (all (λ cc. matches is_lower is_lower 1 1 (codes cc)) c.geo_countries
            && (all (λ s. valid_cidr4 (trim_space s)) c.geo_cidrs
                && ((str_eq c.dhcp_interface "" || valid_iface c.dhcp_interface)
                    && (validate_objects c
                        && (all tunnel_ok c.tunnel_nets
                            && all (λ p. valid_iface p.interface && mark_ok p.mark)
                                c.pbr_uplinks))))))

-- The part of `Validate` in gateway mode
unfoldable pub gateway_ok : Config → Bool
gateway_ok c =
    (valid_iface c.wan_interface && valid_iface c.lan_interface)
    && (not (str_eq c.wan_interface c.lan_interface)
        && (management_reachable c
            && (all port_forward_ok c.port_forwards
                && (all snat_ok c.snat_rules && all nat11_ok c.nat11))))

-- `Validate`, whether it succeeds
unfoldable pub validate : Config → Bool
validate c =
    base_ok c && (if not c.gateway_enabled then not (str_eq c.admin_network "") else gateway_ok c)

-- A way to SSH or HTTPS: the admin network, a row of the matrix that opens one of them on an
-- interface that exists, or one of the two toggles where no row resolves to an interface
abbrev pub HasWayIn : Config → Type 0
HasWayIn c =
    (c.admin_network ≢ "")
    ⊎ (((r : ServiceAcl) × Memᴰ r c.service_acls × (acl_iface c r ≢ "") × (opens r ≡ true))
        ⊎ (((c.mgmt_on_lan ≡ true) × (c.lan_interface ≢ ""))
            ⊎ ((c.mgmt_on_wan ≡ true) × (c.wan_interface ≢ ""))))

row_found :
    (c : Config) (rs : List ServiceAcl)
    → any opens (service_acl_rows c rs) ≡ true
    → (r : ServiceAcl) × Memᴰ r rs × (acl_iface c r ≢ "") × (opens r ≡ true)
unfolding service_acl_rows
row_found c [] h = cc
row_found c (r ∷ rs) h = elim (Bool-cases (str_eq (acl_iface c r) "")) [
  | inl gone ↦
      let (s, held, iface, opened) = row_found c rs (ground arith) in
      (s, Memᴰ.tail held, iface, opened)
  | inr there ↦ elim (Bool-cases (opens r)) [
    | inl opened ↦ (r, Memᴰ.head refl, ground (arith, eq_iff (acl_iface c r) ""), opened)
    | inr shut ↦
        let (s, held, iface, opened) = row_found c rs (ground arith) in
        (s, Memᴰ.tail held, iface, opened)
  ]
]

pub trim_empty : trim_space "" ≡ ""
unfolding trim_space
trim_empty = refl

reachable_way : (c : Config) → management_reachable c ≡ true → HasWayIn c
unfolding management_reachable
reachable_way c h = elim (Bool-cases (str_eq (trim_space c.admin_network) "")) [
  | inr given ↦ inl (λ e. let no : true ≡ false = rw (e, trim_empty) at given in cc)
  | inl unset ↦ elim (Bool-cases (is_empty (service_acl_rows c c.service_acls))) [
    | inr some_rows ↦ inr (inl (row_found c c.service_acls (ground arith)))
    | inl no_rows ↦ elim (Bool-cases (c.mgmt_on_lan && not (str_eq c.lan_interface ""))) [
      | inl lan ↦ inr (inr (inl (ground arith, ground (arith, eq_iff c.lan_interface ""))))
      | inr not_lan ↦ inr (inr (inr (ground arith, ground (arith, eq_iff c.wan_interface ""))))
    ]
  ]
]

-- A configuration that passes the validation leaves a way to SSH or HTTPS open: the admin network,
-- a row of the device-access matrix for an interface that exists, or management on LAN or WAN.
validate-HasWayIn : (c : Config) → validate c ≡ true → HasWayIn c
unfolding validate gateway_ok
validate-HasWayIn c h = elim (Bool-cases c.gateway_enabled) [
  | inr off ↦ inl (ground (arith, eq_iff c.admin_network ""))
  | inl on ↦ reachable_way c (ground arith)
]
