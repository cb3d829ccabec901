-- ===== src/Firewall/Chains.antt =====
-- internal/adapters/nftgen/nftgen.go: the chain `input` of the filter table, in the order in
-- which `Generate` writes its lines, and what the chains share.
use sgsu.Prelude.{
  ℕ, Bool, true, false, not, ◌&&◌, some, String, List, [], ◌∷◌, ◌++◌, str_eq, ltb, if◌then◌else◌,
  map, keep, only_if, gather,
}
use sgsu.Prelude.Integers.{ℤ, pos, negsuc}
use sgsu.Prelude.Format.{◌^^◌}
use sgsu.Firewall.{Config, ServiceAcl, acl_iface, service_acl_rows}
use sgsu.Firewall.Nft.{Match, Line, in_iface, from_addr, to_port, to_ports, other, accept_line}

abbrev pub is_empty {ℓ} : {A : Type ℓ} → List A → Bool
is_empty [] = true
is_empty _ = false

abbrev pub given : String → Bool
given s = not (str_eq s "")

-- A line that accepts, with a comment
abbrev pub accept_noted : String → List Match → Line
accept_noted note ms = record (accept_line ms) { comment = some note }

abbrev pub drop_line : List Match → Line
drop_line ms = record (accept_line ms) { verdict = "drop" }

-- The line at the end of a chain
abbrev pub log_drop : String → Line
log_drop prefix = record (drop_line []) { counted = true; log_prefix = some prefix }

abbrev pub established : Match
established = other "ct state established,related"

abbrev pub invalid : Match
invalid = other "ct state invalid"

abbrev pub is_new : Match
is_new = other "ct state new"

abbrev pub geo_lines : Config → List Line
geo_lines c = only_if (not (is_empty c.geo_cidrs)) (drop_line (from_addr "@geo4" ∷ []) ∷ [])

-- The first lines of the chain `input`
unfoldable pub input_head : Config → List Line
input_head c =
    accept_line (established ∷ [])
    ∷ drop_line (invalid ∷ [])
    ∷ accept_line (other "iif \"lo\"" ∷ [])
    ∷ geo_lines c

abbrev pub icmp_types : Bool → Match
icmp_types matrix =
    if matrix
    then other
        "ip protocol icmp icmp type { destination-unreachable, time-exceeded, parameter-problem }"
    else other
        "ip protocol icmp icmp type { echo-request, destination-unreachable, time-exceeded, parameter-problem }"

abbrev pub brute_meter : Match
brute_meter = other "update @mgmt_brute4 { ip saddr limit rate over 10/minute burst 15 packets }"

abbrev pub brute_line : Line
brute_line = record (drop_line (to_ports "tcp" (22 ∷ 443 ∷ []) ∷ is_new ∷ brute_meter ∷ [])) {
  counted = true;
  log_prefix = some "SNA-BRUTE-DROP ";
}

abbrev pub admin_line : Line
admin_line = accept_line (from_addr "@mgmt4" ∷ to_ports "tcp" (22 ∷ 443 ∷ []) ∷ [])

-- A port that a client of the VPN may connect to
abbrev pub vpn_port : ℤ → Bool
vpn_port (pos n) = ltb 0 n && not (ltb 65535 n)
vpn_port (negsuc n) = false

abbrev pub row_note : ServiceAcl → String → String
row_note r what = "acl " ^^ (r.zone ^^ (" " ^^ what))

abbrev pub row_ports : ServiceAcl → List ℕ
row_ports r = only_if r.https (443 ∷ []) ++ only_if r.ssh (22 ∷ [])

-- The line of a row of the matrix for the management
abbrev pub row_mgmt : Config → ServiceAcl → Line
row_mgmt c r =
    accept_noted (row_note r "mgmt") (in_iface (acl_iface c r) ∷ to_ports "tcp" (row_ports r) ∷ [])

abbrev pub row_dns : Config → ServiceAcl → List Line
row_dns c r =
    accept_noted (row_note r "dns") (in_iface (acl_iface c r) ∷ to_port "udp" (pos 53) ∷ [])
    ∷ accept_noted (row_note r "dns") (in_iface (acl_iface c r) ∷ to_port "tcp" (pos 53) ∷ [])
    ∷ []

abbrev pub row_ping : Config → ServiceAcl → Line
row_ping c r =
    accept_noted (row_note r "ping")
      (in_iface (acl_iface c r) ∷ other "ip protocol icmp icmp type echo-request" ∷ [])

abbrev pub row_dhcp : Config → ServiceAcl → Line
row_dhcp c r =
    accept_noted (row_note r "dhcp") (in_iface (acl_iface c r) ∷ to_port "udp" (pos 67) ∷ [])

abbrev pub row_vpn : Config → ServiceAcl → ℤ → Line
row_vpn c r p = accept_noted (row_note r "vpn") (in_iface (acl_iface c r) ∷ to_port "udp" p ∷ [])

abbrev pub row_services : Config → ServiceAcl → List Line
row_services c r =
    only_if r.dns (row_dns c r)
    ++ (only_if r.ping (row_ping c r ∷ [])
        ++ (only_if r.dhcp (row_dhcp c r ∷ [])
            ++ only_if r.vpn (map (row_vpn c r) (keep vpn_port c.vpn_ports))))

-- The lines of a row of the matrix
unfoldable pub row_lines : Config → ServiceAcl → List Line
row_lines c r = only_if (not (is_empty (row_ports r))) (row_mgmt c r ∷ []) ++ row_services c r

abbrev pub mgmt_line : String → Line
mgmt_line i = accept_line (in_iface i ∷ to_ports "tcp" (22 ∷ 443 ∷ []) ∷ [])

abbrev pub any_vpn : ℤ → Line
any_vpn p = accept_line (to_port "udp" p ∷ [])

abbrev pub fixed_dhcp : Config → List Line
fixed_dhcp c =
    only_if (given c.dhcp_interface)
      (accept_line (in_iface c.dhcp_interface ∷ to_port "udp" (pos 67) ∷ []) ∷ [])

abbrev pub fixed_services : Config → List Line
fixed_services c =
    accept_line (from_addr "@internal4" ∷ to_port "udp" (pos 53) ∷ [])
    ∷ accept_line (from_addr "@internal4" ∷ to_port "tcp" (pos 53) ∷ [])
    ∷ (map any_vpn (keep vpn_port c.vpn_ports) ++ fixed_dhcp c)

abbrev pub fixed_mgmt : Bool → String → List Line
fixed_mgmt on iface = only_if (on && given iface) (mgmt_line iface ∷ [])

-- The lines where no row of the matrix resolves to an interface
unfoldable pub fixed_lines : Config → List Line
fixed_lines c =
    fixed_mgmt c.mgmt_on_lan c.lan_interface
    ++ (fixed_mgmt c.mgmt_on_wan c.wan_interface ++ fixed_services c)

-- The lines of the chain `input` that open services
unfoldable pub input_services : Config → List Line
unfolding row_lines fixed_lines
input_services c =
    let rows = service_acl_rows c c.service_acls in
    if is_empty rows then fixed_lines c else gather (row_lines c) rows

-- The chain `input`
unfoldable pub input_chain : Config → List Line
unfolding input_head input_services
input_chain c =
    let matrix = not (is_empty (service_acl_rows c c.service_acls)) in
    input_head c
    ++ (accept_line (icmp_types matrix ∷ [])
        ∷ accept_line (other "ip6 nexthdr ipv6-icmp" ∷ [])
        ∷ (only_if c.brute_force_protect (brute_line ∷ [])
            ++ (only_if (given c.admin_network) (admin_line ∷ [])
                ++ (input_services c ++ (log_drop "SNA-INPUT-DROP " ∷ [])))))
