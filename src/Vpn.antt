-- ===== src/Vpn.antt =====
-- internal/adapters/wireguard/wireguard.go: the configuration of the WireGuard VPN, the addresses of
-- its peers, and the texts that are generated from it.
pub mod Allocation
pub mod Requests
pub mod Addresses
pub mod Invariant
use sgsu.Prelude.{
  ℕ, zero, suc, ◌+◌, ◌-◌, ◌*◌, ◌/◌, ◌%◌, ◌^◌, Bool, true, false, not, ◌&&◌, ◌||◌, Option, none,
  some, String, List, [], ◌∷◌, ◌++◌, str_eq, ltb, leb, ◌==◌, if◌then◌else◌, any, all, keep, map,
  length, take, drop, only_if,
}
use sgsu.Prelude.Integers.{ℤ, pos, negsuc}
use sgsu.Prelude.Text.{codes, trim_space, is_lower, is_upper, is_digit}
use sgsu.Prelude.Format.{◌^^◌, join, concat, decimal_text, int_text}
use sgsu.Prelude.Net.{Ip, v4, v6, IpNet, parse_ip, parse_cidr, cidr_ip, to4, contains}
use sgsu.Prelude.Net.Texts.{ip_text}

-- What a function returns that may fail or panic
pub data Result {ℓ} (A : Type ℓ) : Type ℓ where
  ok : A → Result A
  failed : Result A
  panicked : Result A

-- `Peer`, without the time of its creation; the zero time is 0.
pub record Peer : Type 0 where
  pub name : String
  pub pub_key : String
  pub address : String
  pub full_tunnel : Bool
  pub expires_at : ℕ

-- `Expired`
abbrev pub peer_expired : Peer → ℕ → Bool
peer_expired p now = not (p.expires_at == 0) && ltb p.expires_at now

-- `Config`
pub record VpnConfig : Type 0 where
  pub enabled : Bool
  pub subnet : String
  pub listen_port : ℤ
  pub endpoint : String
  pub dns : String
  pub split_networks : List String
  pub server_pub : String
  pub server_priv_enc : String
  pub peers : List Peer

abbrev is_base64 : ℕ → Bool
is_base64 c = is_lower c || is_upper c || is_digit c || c == b'+' || c == b'/'

abbrev pub among : List ℕ → ℕ → Bool
among cs c = any (λ d. d == c) cs

-- The end of a key: one of the characters that leave the unused bits zero, and the padding
abbrev key_end : List ℕ → Bool
key_end (c ∷ e ∷ []) = among (codes "AEIMQUYcgkosw048") c && e == b'='
key_end _ = false

-- `ValidKey`
unfoldable pub valid_key : String → Bool
valid_key s = all is_base64 (take 42 (codes s)) && key_end (drop 42 (codes s))

abbrev is_name_char : ℕ → Bool
is_name_char c = is_lower c || is_digit c || c == b'.' || c == b'_' || c == b'-'

abbrev is_name_end : ℕ → Bool
is_name_end c = is_lower c || is_digit c

abbrev last_is : (ℕ → Bool) → List ℕ → Bool
last_is p [] = false
last_is p (c ∷ []) = p c
last_is p (c ∷ cs) = last_is p cs

abbrev name_codes : List ℕ → Bool
name_codes [] = false
name_codes (c ∷ []) = is_name_end c
name_codes (c ∷ cs) =
    is_name_end c && all is_name_char cs && last_is is_name_end cs && leb (length cs) 31

-- `peerNameRe`
unfoldable pub valid_peer_name : String → Bool
valid_peer_name s = name_codes (codes s)

abbrev is_colon : ℕ → Bool
is_colon c = c == b':'

abbrev is_bracket : ℕ → Bool
is_bracket c = c == b'[' || c == b']'

-- The text before the last colon and the text after it
abbrev last_colon : List ℕ → List ℕ → Option (List ℕ × List ℕ)
last_colon before [] = none
last_colon before (c ∷ cs) = elim (is_colon c && not (any is_colon cs)) [
  | true ↦ some (before, cs)
  | false ↦ last_colon (before ++ (c ∷ [])) cs
]

abbrev nonempty {ℓ} : {A : Type ℓ} → List A → Bool
nonempty [] = false
nonempty _ = true

-- A host in brackets without the first one
abbrev bracketed : List ℕ → Bool
bracketed [] = false
bracketed (c ∷ []) = false
bracketed cs = last_is (λ c. c == b']') cs && not (any is_bracket (take (length cs - 1) cs))

abbrev host_ok : List ℕ → Bool
host_ok [] = false
host_ok (c ∷ cs) =
    if c == b'[' then bracketed cs else not (any is_colon (c ∷ cs)) && not (any is_bracket (c ∷ cs))

-- Whether `net.SplitHostPort` gives a host and a port that are not empty
unfoldable pub host_port_ok : String → Bool
host_port_ok s = elim (last_colon [] (codes s)) [
  | none ↦ false
  | some (host, port) ↦ host_ok host && (nonempty port && not (any is_bracket port))
]

abbrev is_ip : String → Bool
is_ip s = elim (parse_ip s) [ none ↦ false | some _ ↦ true ]

abbrev is_cidr : String → Bool
is_cidr s = elim (parse_cidr s) [ none ↦ false | some _ ↦ true ]

abbrev in_net : IpNet → String → Bool
in_net net s = elim (parse_ip s) [ none ↦ false | some ip ↦ contains net ip ]

-- `Mask.Size()` of the network of a text: a mask of IPv6 counts 96 ones more than that of the IPv4
-- network in it.
abbrev pub mask_size : String → IpNet → ℕ
mask_size text net = elim net.ip [
  | v4 _ ↦ if any is_colon (codes text) then net.ones + 96 else net.ones
  | v6 _ ↦ net.ones
]

-- A peer of `Validate`
unfoldable pub peer_ok : IpNet → Peer → Bool
peer_ok net p = valid_peer_name p.name && (valid_key p.pub_key && in_net net p.address)

abbrev port_ok : ℤ → Bool
port_ok (pos n) = leb 1 n && leb n 65535
port_ok (negsuc n) = false

-- `Validate` of a configuration whose subnet is a network of IPv4
unfoldable pub settings_ok : IpNet → VpnConfig → Bool
unfolding host_port_ok peer_ok
settings_ok net c =
    leb (mask_size c.subnet net) 30
    && (port_ok c.listen_port
        && ((not c.enabled || host_port_ok (trim_space c.endpoint))
            && ((str_eq c.dns "" || is_ip c.dns)
                && (all (λ s. is_cidr (trim_space s)) c.split_networks
                    && all (peer_ok net) c.peers))))

-- `Validate`, whether it succeeds
unfoldable pub validate : VpnConfig → Bool
unfolding settings_ok
validate c = elim (to4 (cidr_ip (trim_space c.subnet))) [
  | none ↦ false
  | some _ ↦ elim (parse_cidr (trim_space c.subnet)) [ none ↦ false | some net ↦ settings_ok net c ]
]

-- The first host of a network: the last byte of its address is increased and wraps around.
abbrev pub first_host : ℕ → ℕ
first_host n = n / 256 * 256 + (n % 256 + 1) % 256

-- The masked address in four bytes, for which the source panics if it has more
abbrev pub base_at : IpNet → Ip → Result (ℕ × IpNet)
base_at net (v4 n) = ok (n, net)
base_at net (v6 n) = panicked

abbrev pub base_of : Option IpNet → Result (ℕ × IpNet)
base_of none = failed
base_of (some net) = base_at net net.ip

abbrev pub map_result {ℓ κ} : {A : Type ℓ} → {B : Type κ} → (A → B) → Result A → Result B
map_result f (ok a) = ok (f a)
map_result f failed = failed
map_result f panicked = panicked

abbrev server_text : String → ℕ × IpNet → String
server_text subnet (base, net) =
    ip_text (first_host base) ^^ ("/" ^^ decimal_text (mask_size subnet net))

-- `ServerAddress`
unfoldable pub server_address : VpnConfig → Result String
unfolding ip_text
server_address c = map_result (server_text c.subnet) (base_of (parse_cidr c.subnet))

-- The addresses that are taken
abbrev pub taken : VpnConfig → ℕ → List String
taken c base = ip_text (first_host base) ∷ map (λ p. p.address) c.peers

-- The loop of `AllocateAddress` over `left` candidates from `i` on
unfoldable pub find_free : List String → (base i left : ℕ) → Result String
unfolding ip_text
find_free used base i zero = failed
find_free used base i (suc left) =
    let later = find_free used base (suc i) left in
    if any (λ u. str_eq u (ip_text (base + i))) used then later else ok (ip_text (base + i))

abbrev pub host_count : ℕ → ℕ
host_count ones = 2 ^ (32 - ones)

abbrev pub allocate_from : VpnConfig → Result (ℕ × IpNet) → Result String
allocate_from c (ok (base, net)) = find_free (taken c base) base 2 (host_count net.ones - 3)
allocate_from c failed = failed
allocate_from c panicked = panicked

-- `AllocateAddress`
unfoldable pub allocate_address : VpnConfig → Result String
unfolding find_free
allocate_address c = allocate_from c (base_of (parse_cidr c.subnet))

abbrev peer_text : Peer → String
peer_text p =
    "\n# peer: "
    ^^ (p.name
        ^^ ("\n[Peer]\nPublicKey = "
            ^^ (p.pub_key ^^ ("\nAllowedIPs = " ^^ (p.address ^^ "/32\n")))))

abbrev server_conf : VpnConfig → String → ℕ → String → String
server_conf c priv now addr =
    "# Managed by Saguaro (generated). Manual edits are overwritten on apply.\n[Interface]\nAddress = "
    ^^ (addr
        ^^ ("\nListenPort = "
            ^^ (int_text c.listen_port
                ^^ ("\nPrivateKey = "
                    ^^ (priv
                        ^^ ("\n"
                            ^^ concat
                                (map peer_text (keep (λ p. not (peer_expired p now)) c.peers))))))))

-- `GenerateServerConf`
unfoldable pub generate_server_conf : VpnConfig → String → ℕ → Result String
unfolding validate valid_key server_address
generate_server_conf c priv now =
    if validate c && valid_key priv
    then map_result (server_conf c priv now) (server_address c)
    else failed

-- `GenerateClientConf`
unfoldable pub generate_client_conf : VpnConfig → String → Peer → Option String
unfolding valid_key
generate_client_conf c priv p =
    let allowed = if p.full_tunnel then "0.0.0.0/0" else join ", " (c.subnet ∷ c.split_networks) in
    if not (valid_key priv)
    then none
    else some (
        concat (
          ("[Interface]\nPrivateKey = " ^^ (priv ^^ "\n"))
          ∷ ("Address = " ^^ (p.address ^^ "/32\n"))
          ∷ (only_if (not (str_eq c.dns "")) (("DNS = " ^^ (c.dns ^^ "\n")) ∷ [])
              ++ (("\n[Peer]\nPublicKey = " ^^ (c.server_pub ^^ "\n"))
                  ∷ ("AllowedIPs = " ^^ (allowed ^^ "\n"))
                  ∷ ("Endpoint = " ^^ (c.endpoint ^^ "\n"))
                  ∷ "PersistentKeepalive = 25\n"
                  ∷ []))))
