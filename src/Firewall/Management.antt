-- ===== src/Firewall/Management.antt =====
-- internal/adapters/nftgen/nftgen.go: who reaches SSH and HTTPS of the appliance through the
-- generated chain `input`.
use sgsu.Prelude.{
  ℕ, Bool, true, false, not, ◌&&◌, ◌||◌, Option, none, some, String, List, [], ◌∷◌, ◌++◌, str_eq,
  ◌==◌, if◌then◌else◌, all, any, map, keep, only_if, gather, ◌≡◌, refl, arith, ap, ◌∙◌,
}
use sgsu.Prelude.Integers.{pos, eq_int}
use sgsu.Firewall.{Config, ServiceAcl, acl_iface, service_acl_rows}
use sgsu.Firewall.Nft.{
  accept_line, Match, Line, in_iface, out_iface, from_addr, to_addr, to_port, to_ports, protocol,
  other, first_hit,
}
use sgsu.Firewall.Chains.{
  is_empty, given, vpn_port, row_ports, row_mgmt, row_services, row_dns, row_ping, row_dhcp,
  row_vpn, row_lines, fixed_lines, input_services, input_head, input_chain, icmp_types, log_drop,
  admin_line, brute_line, fixed_mgmt, fixed_services, any_vpn, fixed_dhcp,
}
use sgsu.Firewall.Verdicts.{first_hit-skip, first_hit-stop, only_if-miss, both-miss, map-miss}

-- A new TCP connection to the appliance from an address that is not blocked and within the limit of
-- new connections
pub record Attempt : Type 0 where
  pub iface : String
  pub from_admin : Bool
  pub port : ℕ

-- The conditions of the chain that hold of it
abbrev pub attempt_holds : Attempt → Match → Bool
attempt_holds a (in_iface i) = str_eq i a.iface
attempt_holds a (out_iface i) = false
attempt_holds a (from_addr s) = str_eq s "@mgmt4" && a.from_admin
attempt_holds a (to_addr s) = false
attempt_holds a (to_port p n) = str_eq p "tcp" && eq_int n (pos a.port)
attempt_holds a (to_ports p ns) = str_eq p "tcp" && any (λ n. n == a.port) ns
attempt_holds a (protocol p) = str_eq p "tcp"
attempt_holds a (other s) = str_eq s "ct state new"

abbrev pub row_admits : Config → Attempt → ServiceAcl → Bool
row_admits c a r = str_eq (acl_iface c r) a.iface && any (λ n. n == a.port) (row_ports r)

abbrev pub side_admits : Bool → String → Attempt → Bool
side_admits on iface a = (on && given iface) && str_eq iface a.iface

-- Whether the configuration lets the connection in: from the network of the administrators, by a
-- row of the matrix for its interface and port, or, where no row resolves to an interface, by the
-- settings for LAN and WAN
abbrev pub admits : Config → Attempt → Bool
admits c a =
    let rows = service_acl_rows c c.service_acls in
    (given c.admin_network && a.from_admin)
    || (if is_empty rows
        then side_admits c.mgmt_on_lan c.lan_interface a
          || side_admits c.mgmt_on_wan c.wan_interface a
        else any (row_admits c a) rows)

abbrev pub accept_if : Bool → Option String → Option String
accept_if b later = if b then some "accept" else later

pub first_hit-either :
    (holds : Match → Bool) (b : Bool) (ls ks : List Line)
    → first_hit holds ls ≡ accept_if b none
    → first_hit holds (ls ++ ks) ≡ accept_if b (first_hit holds ks)
first_hit-either holds true ls ks h = first_hit-stop holds "accept" ls ks h
first_hit-either holds false ls ks h = first_hit-skip holds ls ks h

abbrev services_admit : Config → Attempt → Bool
services_admit c a =
    let rows = service_acl_rows c c.service_acls in
    if is_empty rows
    then side_admits c.mgmt_on_lan c.lan_interface a || side_admits c.mgmt_on_wan c.wan_interface a
    else any (row_admits c a) rows

either_word : (p : Bool) → accept_if p (some "drop") ≡ some (if p then "accept" else "drop")
either_word true = refl
either_word false = refl

if-hit :
    (holds : Match → Bool) (b : Bool) (ls ks : List Line) (p q : Bool)
    → first_hit holds ls ≡ accept_if p none
    → first_hit holds ks ≡ accept_if q none
    → first_hit holds (if b then ls else ks) ≡ accept_if (if b then p else q) none
if-hit holds true ls ks p q h k = h
if-hit holds false ls ks p q h k = k

pub accept_if-or :
    (p q : Bool) (o : Option String) → accept_if p (accept_if q o) ≡ accept_if (p || q) o
accept_if-or true q o = refl
accept_if-or false q o = refl

module _ (a : Attempt) (mgmt : (a.port == 22 || a.port == 443) ≡ true) where
  row_services-miss :
      (c : Config) (r : ServiceAcl) → first_hit (attempt_holds a) (row_services c r) ≡ none
  row_services-miss c r =
      let holds = attempt_holds a in
      let ports = keep vpn_port c.vpn_ports in
      let vpn = only_if r.vpn (map (row_vpn c r) ports) in
      let dhcp = only_if r.dhcp (row_dhcp c r ∷ []) in
      let ping = only_if r.ping (row_ping c r ∷ []) in
      let dns = only_if r.dns (row_dns c r) in
      let miss_vpn =
        only_if-miss holds r.vpn (map (row_vpn c r) ports)
          (map-miss holds (row_vpn c r) ports (λ p. ground arith)) in
      let miss_dhcp = only_if-miss holds r.dhcp (row_dhcp c r ∷ []) (ground arith) in
      let miss_ping = only_if-miss holds r.ping (row_ping c r ∷ []) (ground arith) in
      let miss_dns = only_if-miss holds r.dns (row_dns c r) (ground arith) in
      both-miss holds dns (ping ++ (dhcp ++ vpn)) miss_dns
        (both-miss holds ping (dhcp ++ vpn) miss_ping (both-miss holds dhcp vpn miss_dhcp miss_vpn))

  row_mgmt-hit :
      (c : Config) (r : ServiceAcl)
      → first_hit (attempt_holds a) (only_if (not (is_empty (row_ports r))) (row_mgmt c r ∷ []))
        ≡ accept_if (row_admits c a r) none
  row_mgmt-hit c r = ground arith

  row_lines-hit :
      (c : Config) (r : ServiceAcl)
      → first_hit (attempt_holds a) (row_lines c r) ≡ accept_if (row_admits c a r) none
  unfolding row_lines
  row_lines-hit c r =
      first_hit-either (attempt_holds a) (row_admits c a r)
        (only_if (not (is_empty (row_ports r))) (row_mgmt c r ∷ [])) (row_services c r)
        (row_mgmt-hit c r)
      ∙ ap (accept_if (row_admits c a r)) (row_services-miss c r)

  rows-hit :
      (c : Config) (rs : List ServiceAcl)
      → first_hit (attempt_holds a) (gather (row_lines c) rs)
        ≡ accept_if (any (row_admits c a) rs) none
  rows-hit c [] = refl
  rows-hit c (r ∷ rs) =
      first_hit-either (attempt_holds a) (row_admits c a r) (row_lines c r)
        (gather (row_lines c) rs) (row_lines-hit c r)
      ∙ ground (arith, rows-hit c rs)

  side-hit :
      (on : Bool) (i : String)
      → first_hit (attempt_holds a) (fixed_mgmt on i) ≡ accept_if (side_admits on i a) none
  side-hit on i = ground arith

  fixed_services-miss : (c : Config) → first_hit (attempt_holds a) (fixed_services c) ≡ none
  fixed_services-miss c =
      let holds = attempt_holds a in
      let ports = keep vpn_port c.vpn_ports in
      let vpn = map-miss holds any_vpn ports (λ p. ground arith) in
      let dhcp : first_hit holds (fixed_dhcp c) ≡ none = ground arith in
      let both = both-miss holds (map any_vpn ports) (fixed_dhcp c) vpn dhcp in ground arith

  fixed_lines-hit :
      (c : Config)
      → first_hit (attempt_holds a) (fixed_lines c)
        ≡ accept_if
            (side_admits c.mgmt_on_lan c.lan_interface a
              || side_admits c.mgmt_on_wan c.wan_interface a)
            none
  unfolding fixed_lines
  fixed_lines-hit c =
      let holds = attempt_holds a in
      let wan = fixed_mgmt c.mgmt_on_wan c.wan_interface in
      let by_wan =
        first_hit-either holds (side_admits c.mgmt_on_wan c.wan_interface a) wan (fixed_services c)
          (side-hit c.mgmt_on_wan c.wan_interface) in
      let none_later = fixed_services-miss c in
      first_hit-either holds (side_admits c.mgmt_on_lan c.lan_interface a)
        (fixed_mgmt c.mgmt_on_lan c.lan_interface) (wan ++ fixed_services c)
        (side-hit c.mgmt_on_lan c.lan_interface)
      ∙ ap (accept_if (side_admits c.mgmt_on_lan c.lan_interface a))
          (by_wan ∙ ap (accept_if (side_admits c.mgmt_on_wan c.wan_interface a)) none_later)
      ∙ accept_if-or (side_admits c.mgmt_on_lan c.lan_interface a)
          (side_admits c.mgmt_on_wan c.wan_interface a) none

  input_services-hit :
      (c : Config)
      → first_hit (attempt_holds a) (input_services c) ≡ accept_if (services_admit c a) none
  unfolding input_services
  input_services-hit c =
      let rows = service_acl_rows c c.service_acls in
      if-hit (attempt_holds a) (is_empty rows) (fixed_lines c) (gather (row_lines c) rows) _ _
        (fixed_lines-hit c) (rows-hit c rows)

  input_head-miss : (c : Config) → first_hit (attempt_holds a) (input_head c) ≡ none
  unfolding input_head
  input_head-miss c = ground arith

  -- A new connection to SSH or HTTPS of the appliance, from an address that is not blocked and
  -- within the limit of new connections: the generated chain `input` accepts it where the
  -- configuration lets it in by the network of the administrators, by a row of the matrix or by a
  -- setting for LAN or WAN, and drops it everywhere else.
  pub input_chain-admits :
      (c : Config)
      → first_hit (attempt_holds a) (input_chain c) ≡ some (if admits c a then "accept" else "drop")
  unfolding input_chain
  input_chain-admits c =
      let holds = attempt_holds a in
      let matrix = not (is_empty (service_acl_rows c c.service_acls)) in
      let last = log_drop "SNA-INPUT-DROP " ∷ [] in
      let admin = only_if (given c.admin_network) (admin_line ∷ []) in
      let brute = only_if c.brute_force_protect (brute_line ∷ []) in
      let by_admin : first_hit holds admin
          ≡ accept_if (given c.admin_network && a.from_admin) none =
        ground arith in
      let brute_miss = only_if-miss holds c.brute_force_protect (brute_line ∷ []) (ground arith) in
      let icmp : all holds (icmp_types matrix ∷ []) ≡ false = ground arith in
      let ping =
        accept_line (icmp_types matrix ∷ [])
        ∷ accept_line (other "ip6 nexthdr ipv6-icmp" ∷ [])
        ∷ [] in
      let ping_miss : first_hit holds ping ≡ none = ground arith in
      let let_in = accept_if (given c.admin_network && a.from_admin) in
      let services = input_services c ++ last in
      first_hit-skip holds (input_head c) (ping ++ (brute ++ (admin ++ services)))
        (input_head-miss c)
      ∙ first_hit-skip holds ping (brute ++ (admin ++ services)) ping_miss
      ∙ first_hit-skip holds brute (admin ++ services) brute_miss
      ∙ first_hit-either holds (given c.admin_network && a.from_admin) admin services by_admin
      ∙ ap let_in (
          first_hit-either holds (services_admit c a) (input_services c) last
            (input_services-hit c))
      ∙ accept_if-or (given c.admin_network && a.from_admin) (services_admit c a) (some "drop")
      ∙ either_word (admits c a)
