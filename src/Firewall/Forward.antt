-- ===== src/Firewall/Forward.antt =====
-- internal/adapters/nftgen/nftgen.go: the chains `forward` and `mangle_pre` of the filter table, in
-- the order in which `Generate` writes their lines.
use sgsu.Prelude.{
  Bool, true, false, not, ◌&&◌, ◌||◌, String, List, [], ◌∷◌, ◌++◌, str_eq, ltb, if◌then◌else◌, any,
  map, keep, only_if, gather,
}
use sgsu.Prelude.Integers.{ℤ, pos, negsuc}
use sgsu.Prelude.Format.{◌^^◌, hex_text}
use sgsu.Firewall.{
  Config, Zone, TunnelNet, PortForward, Nat11Rule, OvpnRule, OvpnAccess, PbrUplink, iface_name,
}
use sgsu.Firewall.Nft.{
  Match, Line, in_iface, out_iface, from_addr, to_addr, to_port, protocol, other, accept_line,
  rule_line, zone_trust, nft_set,
}
use sgsu.Firewall.Chains.{
  is_empty, given, accept_noted, drop_line, log_drop, established, invalid, is_new, geo_lines,
}

-- `forwardActive`
abbrev pub forward_active : Config → Bool
forward_active c =
    c.gateway_enabled
    || any (λ r. r.enabled) c.rules
    || not (is_empty c.tunnel_nets)
    || not (is_empty c.geo_cidrs)

-- `hairpin`
abbrev pub hairpin : Config → Bool
hairpin c = c.hairpin_nat && not (is_empty c.port_forwards)

-- The first lines of the chain `forward`
abbrev pub forward_start : Config → List Line
forward_start c =
    only_if (forward_active c) (accept_line (established ∷ []) ∷ drop_line (invalid ∷ []) ∷ [])
    ++ geo_lines c

abbrev pub queue_line : Line
queue_line = record (accept_line (is_new ∷ [])) { verdict = "queue num 0 bypass" }

-- All lines before the custom rules
unfoldable pub forward_head : Config → List Line
forward_head c = forward_start c ++ only_if (c.gateway_enabled && c.ips_enabled) (queue_line ∷ [])

-- The lines of the custom rules
unfoldable pub custom_lines : Config → List Line
unfolding rule_line
custom_lines c = map (rule_line c.zones) (keep (λ r. r.enabled) c.rules)

abbrev pub crossing : String → String → List Match
crossing from to = in_iface from ∷ out_iface to ∷ []

abbrev pub is_inner : Zone → Bool
is_inner z = not (str_eq z.kind "wan")

-- The line from a zone to the WAN
unfoldable pub zone_to_wan : Config → Zone → List Line
zone_to_wan c z =
    only_if (is_inner z && (given c.wan_interface && not (str_eq (iface_name z) c.wan_interface)))
      (accept_noted ("zone " ^^ (z.name ^^ "->wan")) (crossing (iface_name z) c.wan_interface) ∷ [])

-- The line from a zone to another
unfoldable pub zone_to_zone : Zone → Zone → List Line
unfolding zone_trust
zone_to_zone s d =
    only_if
      (is_inner s
        && (is_inner d && not (str_eq s.name d.name))
        && ltb (zone_trust d.kind) (zone_trust s.kind))
      (accept_noted ("zone " ^^ (s.name ^^ ("->" ^^ d.name)))
          (crossing (iface_name s) (iface_name d))
        ∷ [])

-- The lines of the zones
unfoldable pub zone_lines : Config → List Line
unfolding zone_to_wan zone_to_zone
zone_lines c =
    only_if c.gateway_enabled
      (gather (zone_to_wan c) c.zones ++ gather (λ s. gather (zone_to_zone s) c.zones) c.zones)

abbrev tunnel_line : String → String → Line
tunnel_line from to = record (accept_noted "tunnel" (from_addr from ∷ to_addr to ∷ [])) {
  counted = true;
}

-- The lines of a tunnel
unfoldable pub tunnel_lines : TunnelNet → List Line
unfolding nft_set
tunnel_lines t = only_if (not (is_empty t.local || is_empty t.remote)) (
    tunnel_line (nft_set t.local) (nft_set t.remote)
    ∷ tunnel_line (nft_set t.remote) (nft_set t.local)
    ∷ [])

abbrev forwarded_line : Config → PortForward → Line
forwarded_line c f =
    accept_line
      (in_iface c.wan_interface ∷ to_addr f.dest_ip ∷ to_port f.proto f.dest_port ∷ is_new ∷ [])

abbrev mapped_line : Config → Nat11Rule → Line
mapped_line c n = accept_line (in_iface c.wan_interface ∷ to_addr n.int_ip ∷ is_new ∷ [])

abbrev hairpin_line : PortForward → Line
hairpin_line f =
    accept_noted "hairpin"
      (to_addr f.dest_ip ∷ to_port f.proto f.dest_port ∷ other "ct status dnat" ∷ is_new ∷ [])

-- The lines of gateway mode
unfoldable pub gateway_lines : Config → List Line
gateway_lines c = only_if c.gateway_enabled (
    accept_line (crossing c.lan_interface c.wan_interface)
    ∷ (map (forwarded_line c) c.port_forwards
        ++ (map (mapped_line c) c.nat11 ++ only_if (hairpin c) (map hairpin_line c.port_forwards))))

abbrev above_zero : ℤ → Bool
above_zero (pos n) = ltb 0 n
above_zero (negsuc n) = false

abbrev ovpn_service : OvpnRule → List Match
ovpn_service r =
    if not (str_eq r.proto "tcp" || str_eq r.proto "udp")
    then []
    else if above_zero r.port
    then to_port r.proto r.port ∷ []
    else protocol r.proto ∷ []

-- The lines of a client of OpenVPN
unfoldable pub ovpn_client_lines : Config → OvpnAccess → List Line
ovpn_client_lines c a =
    let client = in_iface c.openvpn_iface ∷ from_addr a.addr ∷ [] in
    let dest : OvpnRule → String =
      λ r. if given r.dest_alias then "@alias_" ^^ r.dest_alias else r.dest in
    let line : OvpnRule → Line =
      λ r. accept_line (client ++ ((to_addr (dest r) ∷ ovpn_service r) ++ (is_new ∷ []))) in
    if str_eq a.addr ""
    then []
    else if a.allow_all
    then accept_line (client ++ (is_new ∷ [])) ∷ []
    else map line a.rules

-- The lines of OpenVPN
unfoldable pub ovpn_lines : Config → List Line
unfolding ovpn_client_lines
ovpn_lines c = only_if (given c.openvpn_iface && not (is_empty c.openvpn_access)) (
    gather (ovpn_client_lines c) c.openvpn_access
    ++ (record (drop_line (in_iface c.openvpn_iface ∷ [])) { counted = true } ∷ []))

-- The lines of the chain `forward` after the custom rules
unfoldable pub forward_tail : Config → List Line
unfolding zone_lines tunnel_lines gateway_lines ovpn_lines
forward_tail c =
    zone_lines c
    ++ (gather tunnel_lines c.tunnel_nets
        ++ (gateway_lines c
            ++ (ovpn_lines c ++ only_if (forward_active c) (log_drop "SNA-FWD-DROP " ∷ []))))

-- The chain `forward`
unfoldable pub forward_chain : Config → List Line
unfolding forward_head custom_lines forward_tail
forward_chain c = forward_head c ++ (custom_lines c ++ forward_tail c)

-- The chain `mangle_pre`
unfoldable pub mangle_chain : Config → List Line
mangle_chain c =
    let mark : PbrUplink → Line = λ p. record (accept_line (in_iface p.interface ∷ is_new ∷ [])) {
      verdict = "ct mark set " ^^ hex_text p.mark;
    } in
    only_if (not (is_empty c.pbr_uplinks)) (
      map mark c.pbr_uplinks
      ++ (record (accept_line (other "ct mark != 0x0" ∷ [])) { verdict = "meta mark set ct mark" }
          ∷ []))
