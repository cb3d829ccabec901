-- ===== src/OpenVpn.antt =====
-- internal/adapters/openvpn/openvpn.go: the configuration of OpenVPN, the fixed addresses of its
-- clients, and the file of their passwords. Certificates and keys are cryptography.
pub mod Requests
pub mod Apart
pub mod Subnet
use sgsu.Prelude.{
  ℕ, zero, suc, ◌+◌, ◌%◌, ◌^◌, Bool, true, false, not, ◌&&◌, ◌||◌, Option, none, some, String, List,
  [], ◌∷◌, ◌++◌, str_eq, ltb, leb, ◌==◌, if◌then◌else◌, any, all, keep, map, length,
}
use sgsu.Prelude.Integers.{ℤ, pos, negsuc}
use sgsu.Prelude.Text.{codes, trim_space, is_lower, is_digit}
use sgsu.Prelude.Format.{◌^^◌, concat}
use sgsu.Prelude.Net.{Ip, v4, v6, IpNet, parse_ip, parse_cidr, cidr_ip, to4, contains}
use sgsu.Prelude.Net.Texts.{ip_text}
use sgsu.Firewall.Objects.{valid_cidr4}
use sgsu.Firewall.{OvpnAccess, OvpnRule, is_some}
use sgsu.Vpn.{Result, ok, failed, panicked, base_of}

-- `AccessRule`
pub record AccessRule : Type 0 where
  pub dest : String
  pub dest_alias : String
  pub proto : String
  pub port : ℤ

-- `Client`
pub record Client : Type 0 where
  pub name : String
  pub serial : String
  pub cert_pem : String
  pub pass_hash : String
  pub vpn_addr : String
  pub access : List AccessRule
  pub revoked : Bool
  pub created_at : ℕ
  pub expires_at : ℕ

-- `Config`
pub record OvpnConfig : Type 0 where
  pub enabled : Bool
  pub subnet : String
  pub port : ℤ
  pub endpoint : String
  pub dns : String
  pub split_networks : List String
  pub ca_cert_pem : String
  pub ca_key_enc : String
  pub server_cert_pem : String
  pub server_key_enc : String
  pub tls_crypt_enc : String
  pub clients : List Client

-- `PortOrDefault`
unfoldable pub port_or_default : OvpnConfig → ℤ
port_or_default c = elim c.port [ pos n ↦ if n == 0 then pos 1194 else pos n | negsuc n ↦ pos 1194 ]

abbrev ovpn_port_ok : ℤ → Bool
ovpn_port_ok (pos n) = leb 1 n && leb n 65535
ovpn_port_ok (negsuc n) = false

-- `Validate`, whether it succeeds
unfoldable pub validate : OvpnConfig → Bool
unfolding port_or_default valid_cidr4
validate c =
    if not c.enabled
    then true
    else valid_cidr4 (trim_space c.subnet)
      && (ovpn_port_ok (port_or_default c)
          && (not (str_eq c.endpoint "")
              && ((str_eq c.dns "" || is_some (parse_ip c.dns))
                  && all (λ s. valid_cidr4 (trim_space s)) c.split_networks)))

-- The clients that are not revoked
abbrev pub active : List Client → List Client
active cs = keep (λ c. not c.revoked) cs

-- The fixed addresses of clients, apart from the empty one
abbrev pub addresses : List Client → List String
addresses [] = []
addresses (c ∷ cs) =
    if not (str_eq c.vpn_addr "") && not c.revoked then c.vpn_addr ∷ addresses cs else addresses cs

-- `incIP`: addition in 32 bits
unfoldable pub inc_ip : ℕ → ℕ → String
inc_ip base n = ip_text ((base + n) % 2 ^ 32)

abbrev pub in_subnet : IpNet → String → Bool
in_subnet net s = elim (parse_ip s) [ none ↦ false | some ip ↦ contains net ip ]

-- The loop of `NextFreeAddr` from candidate `i` on, with `left` candidates
unfoldable pub next_free : List String → IpNet → (base i left : ℕ) → String
unfolding inc_ip
next_free used net base i zero = ""
next_free used net base i (suc left) =
    let later = next_free used net base (suc i) left in
    let cand = inc_ip base i in
    if not (in_subnet net cand) then "" else if any (λ u. str_eq u cand) used then later else cand

abbrev pub next_from : OvpnConfig → Result (ℕ × IpNet) → Result String
next_from c failed = ok ""
next_from c panicked = panicked
next_from c (ok (base, net)) = ok (next_free (inc_ip base 1 ∷ addresses c.clients) net base 2 252)

-- `NextFreeAddr`; a network without an IPv4 address makes it panic.
unfoldable pub next_free_addr : OvpnConfig → Result String
next_free_addr c = next_from c (base_of (parse_cidr (trim_space c.subnet)))

abbrev auth_line : Client → String
auth_line c = c.name ^^ (":" ^^ (c.pass_hash ^^ "\n"))

-- `GenerateAuthFile`
unfoldable pub generate_auth_file : List Client → String
generate_auth_file cs =
    concat (map auth_line (keep (λ c. not (c.revoked || str_eq c.pass_hash "")) cs))

abbrev firewall_rule : AccessRule → OvpnRule
firewall_rule r = record {
  dest = r.dest;
  dest_alias = r.dest_alias;
  proto = r.proto;
  port = r.port;
}

abbrev no_rules : List AccessRule → Bool
no_rules [] = true
no_rules _ = false

-- The loop of `openvpnFirewall` in cmd/saguaro/firewall_objects.go
abbrev pub access_of : List Client → List OvpnAccess
access_of [] = []
access_of (c ∷ cs) =
    if c.revoked || str_eq c.vpn_addr ""
    then access_of cs
    else record {
      addr = c.vpn_addr;
      allow_all = no_rules c.access;
      rules = map firewall_rule c.access;
    }
      ∷ access_of cs

-- `openvpnFirewall`: the interface, the subnet and the limits of the clients
unfoldable pub openvpn_firewall : OvpnConfig → String × String × List OvpnAccess
openvpn_firewall c =
    if not c.enabled then ("", "", []) else ("ovpn-saguaro", c.subnet, access_of c.clients)
