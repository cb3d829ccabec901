-- ===== src/Firewall/Generate.antt =====
-- internal/adapters/nftgen/nftgen.go: the table of NAT and the whole text that `Generate` writes.
use sgsu.Prelude.{
  Bool, not, ◌&&◌, ◌||◌, Option, none, some, String, List, [], ◌∷◌, ◌++◌, if◌then◌else◌, map,
  only_if,
}
use sgsu.Prelude.Text.{trim_space}
use sgsu.Prelude.Format.{◌^^◌, join, concat, int_text}
use sgsu.Firewall.{Config, PortForward, SnatRule, Nat11Rule}
use sgsu.Firewall.Nft.{
  Match, Line, in_iface, out_iface, from_addr, to_addr, to_port, other, accept_line, line_text,
  nft_set, internal_networks, alias_set_type,
}
use sgsu.Firewall.Chains.{is_empty, given, input_chain}
use sgsu.Firewall.Forward.{hairpin, forward_chain, mangle_chain}
use sgsu.Firewall.Reach.{validate}

-- A line of the table of NAT
abbrev nat_line : String → List Match → Line
nat_line verdict ms = record (accept_line ms) { verdict = verdict }

abbrev pub internal_nets : Config → List String
internal_nets c = internal_networks c.zones c.client_network

abbrev dnat_to : PortForward → String
dnat_to f = "dnat to " ^^ (f.dest_ip ^^ (":" ^^ int_text f.dest_port))

-- The lines of the chain `prerouting`
unfoldable pub dnat_lines : Config → List Line
unfolding internal_networks nft_set
dnat_lines c =
    let forward : PortForward → Line = λ f. nat_line (dnat_to f) (
      in_iface c.wan_interface
      ∷ (only_if (given f.ext_ip) (to_addr f.ext_ip ∷ []) ++ (to_port f.proto f.ext_port ∷ []))) in
    let whole : Nat11Rule → Line =
      λ n. nat_line ("dnat to " ^^ n.int_ip) (in_iface c.wan_interface ∷ to_addr n.ext_ip ∷ []) in
    let reflected : PortForward → Line = λ f. nat_line (dnat_to f) (
      from_addr (nft_set (internal_nets c))
      ∷ other "fib daddr type local"
      ∷ to_port f.proto f.ext_port
      ∷ []) in
    map forward c.port_forwards
    ++ (map whole c.nat11 ++ only_if (hairpin c) (map reflected c.port_forwards))

-- The lines of the chain `postrouting`
unfoldable pub snat_lines : Config → List Line
unfolding internal_networks nft_set
snat_lines c =
    let fixed : SnatRule → Line = λ s.
      nat_line ("snat to " ^^ trim_space s.to_address)
        (out_iface c.wan_interface ∷ from_addr (trim_space s.source) ∷ []) in
    let whole : Nat11Rule → Line = λ n.
      nat_line ("snat to " ^^ n.ext_ip) (out_iface c.wan_interface ∷ from_addr n.int_ip ∷ []) in
    let reflected : PortForward → Line = λ f. nat_line "masquerade" (
      from_addr (nft_set (internal_nets c))
      ∷ to_addr f.dest_ip
      ∷ to_port f.proto f.dest_port
      ∷ []) in
    map fixed c.snat_rules
    ++ (map whole c.nat11
        ++ (only_if c.nat_enabled (nat_line "masquerade" (out_iface c.wan_interface ∷ []) ∷ [])
            ++ (only_if (given c.openvpn_subnet && given c.lan_interface) (
                  nat_line "masquerade"
                    (out_iface c.lan_interface ∷ from_addr c.openvpn_subnet ∷ [])
                  ∷ [])
                ++ only_if (hairpin c) (map reflected c.port_forwards))))

-- Whether there is a table of NAT, and whether it has the two chains
abbrev pub has_nat : Config → Bool
has_nat c =
    c.gateway_enabled
    && (c.nat_enabled
        || not (is_empty c.port_forwards)
        || not (is_empty c.snat_rules)
        || not (is_empty c.nat11)
        || given c.openvpn_subnet)

abbrev pub has_prerouting : Config → Bool
has_prerouting c = not (is_empty c.port_forwards) || not (is_empty c.nat11)

abbrev pub has_postrouting : Config → Bool
has_postrouting c =
    c.nat_enabled || hairpin c || not (is_empty c.snat_rules) || not (is_empty c.nat11)

-- A chain, with its first line, its hook and its lines
abbrev pub chain_text : String → String → List Line → String
chain_text name hook ls =
    "  chain "
    ^^ (name
        ^^ (" {\n    "
            ^^ (hook
                ^^ ("\n" ^^ (concat (map (λ l. "    " ^^ (line_text l ^^ "\n")) ls) ^^ "  }\n")))))

abbrev pub set_text : String → String → String
set_text name body = "  set " ^^ (name ^^ (" { " ^^ (body ^^ " }\n")))

abbrev interval_set : List String → String
interval_set elements =
    "type ipv4_addr; flags interval; elements = { " ^^ (join ", " elements ^^ " }")

-- The sets of the filter table
unfoldable pub set_texts : Config → List String
unfolding internal_networks alias_set_type
set_texts c =
    only_if (given c.admin_network) (set_text "mgmt4" (interval_set (c.admin_network ∷ [])) ∷ [])
    ++ (only_if (is_empty c.service_acls)
          (set_text "internal4" (interval_set (internal_nets c)) ∷ [])
        ++ (only_if c.brute_force_protect (
              set_text "mgmt_brute4"
                "type ipv4_addr; size 65535; flags dynamic, timeout; timeout 10m;"
              ∷ [])
            ++ (only_if (not (is_empty c.geo_cidrs))
                  (set_text "geo4" (interval_set c.geo_cidrs) ∷ [])
                ++ map (λ a. set_text ("alias_" ^^ a.name) (alias_set_type a)) c.aliases)))

-- The filter table
unfoldable pub filter_text : Config → String
unfolding input_chain forward_chain mangle_chain set_texts
filter_text c =
    "table inet saguaro {\n"
    ^^ (concat (set_texts c)
        ^^ ("\n"
            ^^ (chain_text "input" "type filter hook input priority filter; policy drop;"
                  (input_chain c)
                ^^ ("\n"
                    ^^ (chain_text "forward"
                          "type filter hook forward priority filter; policy drop;" (forward_chain c)
                        ^^ (concat (
                              only_if (not (is_empty c.pbr_uplinks)) (
                                chain_text "mangle_pre"
                                  "type filter hook prerouting priority mangle; policy accept;"
                                  (mangle_chain c)
                                ∷ []))
                            ^^ "}\n"))))))

-- The table of NAT
unfoldable pub nat_text : Config → String
unfolding dnat_lines snat_lines
nat_text c = concat (
    only_if (has_nat c) (
      "\ntable ip saguaro-nat {\n"
      ∷ (only_if (has_prerouting c) (
            chain_text "prerouting" "type nat hook prerouting priority dstnat;" (dnat_lines c) ∷ [])
          ++ (only_if (has_postrouting c) (
                chain_text "postrouting" "type nat hook postrouting priority srcnat;" (snat_lines c)
                ∷ [])
              ++ ("}\n" ∷ [])))))

-- `Generate`: none for an error
unfoldable pub generate : Config → Option String
unfolding validate filter_text nat_text
generate c =
    let text =
      "#!/usr/sbin/nft -f\n# Managed by Saguaro (generated). Manual edits are overwritten on apply.\nflush ruleset\n"
      ^^ (filter_text c ^^ nat_text c) in
    if validate c then some text else none
