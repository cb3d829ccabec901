-- ===== src/Vpn/Addresses.antt =====
-- internal/adapters/wireguard/wireguard.go: configurations whose addresses differ, and the changes of
-- cmd/saguaro/vpn.go that keep them so.
use sgsu.Prelude.{
  ℕ, ◌-◌, Bool, true, false, not, ◌&&◌, ◌||◌, String, List, [], ◌∷◌, ◌++◌, str_eq, keep, map, ◌≡◌,
  refl, arith, Bool-cases, inl, inr, eq_iff, eq_refl, ap, sym, ◌∙◌,
}
use sgsu.Prelude.Net.{IpNet, parse_cidr}
use sgsu.Prelude.Net.Texts.{ip_text}
use sgsu.Vpn.{
  VpnConfig, Peer, Result, ok, failed, panicked, first_host, taken, base_of, allocate_from,
  allocate_address, host_count,
}
use sgsu.Vpn.Allocation.{is_taken, find_free-IsLowest}
use sgsu.Vpn.Requests.{add_peer, without_peer, no_peers}

abbrev pub distinct : List String → Bool
distinct [] = true
distinct (s ∷ ss) = not (is_taken ss s) && distinct ss

abbrev server_of : Result (ℕ × IpNet) → List String
server_of (ok (base, net)) = ip_text (first_host base) ∷ []
server_of failed = []
server_of panicked = []

abbrev peer_addresses : VpnConfig → List String
peer_addresses c = map (λ p. p.address) c.peers

-- The addresses of the server and of the peers differ from one another, and where there are peers
-- there is a subnet.
abbrev pub is_apart : VpnConfig → Bool
is_apart c =
    distinct (server_of (base_of (parse_cidr c.subnet)) ++ peer_addresses c)
    && (no_peers c.peers || not (str_eq c.subnet ""))

pub taken-last :
    (ss : List String) (s t : String) → is_taken (ss ++ (s ∷ [])) t ≡ (is_taken ss t || str_eq s t)
taken-last [] s t = ground arith
taken-last (u ∷ ss) s t = ground (arith, taken-last ss s t)

str_eq_comm : (s t : String) → str_eq t s ≡ false → str_eq s t ≡ false
str_eq_comm s t h = elim (Bool-cases (str_eq s t)) [
  | inl e ↦
      let same : s ≡ t = ground (arith, eq_iff s t) in
      let no : true ≡ false = sym (eq_refl t) ∙ ap (str_eq t) (sym same) ∙ h in cc
  | inr ne ↦ ne
]

pub distinct-last :
    (ss : List String) (s : String)
    → distinct ss ≡ true
    → is_taken ss s ≡ false
    → distinct (ss ++ (s ∷ [])) ≡ true
distinct-last [] s h free = refl
distinct-last (t ∷ ss) s h free =
    let rest = distinct-last ss s (ground arith) (ground arith) in
    let other = str_eq_comm s t (ground arith) in ground (arith, taken-last ss s t)

server_alone : (r : Result (ℕ × IpNet)) → distinct (server_of r ++ []) ≡ true
server_alone (ok (base, net)) = refl
server_alone failed = refl
server_alone panicked = refl

taken-keep :
    (f : Peer → Bool) (ps : List Peer) (s : String)
    → is_taken (map (λ p. p.address) ps) s ≡ false
    → is_taken (map (λ p. p.address) (keep f ps)) s ≡ false
taken-keep f [] s h = refl
taken-keep f (p ∷ ps) s h = elim (Bool-cases (f p)) [
  | inl kept ↦ ground (arith, taken-keep f ps s)
  | inr off ↦ ground (arith, taken-keep f ps s)
]

distinct-keep :
    (f : Peer → Bool) (ps : List Peer)
    → distinct (map (λ p. p.address) ps) ≡ true
    → distinct (map (λ p. p.address) (keep f ps)) ≡ true
distinct-keep f [] h = refl
distinct-keep f (p ∷ ps) h = elim (Bool-cases (f p)) [
  | inl kept ↦ ground (arith, distinct-keep f ps, taken-keep f ps p.address)
  | inr off ↦ ground (arith, distinct-keep f ps)
]

server-keep :
    (r : Result (ℕ × IpNet)) (f : Peer → Bool) (ps : List Peer)
    → distinct (server_of r ++ map (λ p. p.address) ps) ≡ true
    → distinct (server_of r ++ map (λ p. p.address) (keep f ps)) ≡ true
server-keep (ok (base, net)) f ps h =
    let fewer = distinct-keep f ps (ground arith) in
    let free = taken-keep f ps (ip_text (first_host base)) (ground arith) in ground arith
server-keep failed f ps h = distinct-keep f ps h
server-keep panicked f ps h = distinct-keep f ps h

pub apart-same :
    (c next : VpnConfig)
    → next.subnet ≡ c.subnet
    → next.peers ≡ c.peers
    → is_apart c ≡ true
    → is_apart next ≡ true
apart-same c next subnet peers h = rw (subnet, peers) h

apart_at :
    (subnet : String) (ps : List Peer)
    → no_peers ps ≡ true
    → (distinct (server_of (base_of (parse_cidr subnet)) ++ map (λ p. p.address) ps)
        && (no_peers ps || not (str_eq subnet "")))
      ≡ true
apart_at subnet [] h = ground (arith, server_alone (base_of (parse_cidr subnet)))
apart_at subnet (p ∷ ps) h = cc

pub apart-empty : (c : VpnConfig) → no_peers c.peers ≡ true → is_apart c ≡ true
apart-empty c none_there = apart_at c.subnet c.peers none_there

added_at :
    (c : VpnConfig) (r : Result (ℕ × IpNet)) (a : String)
    → allocate_from c r ≡ ok a
    → distinct (server_of r ++ peer_addresses c) ≡ true
    → distinct (server_of r ++ (peer_addresses c ++ (a ∷ []))) ≡ true
added_at c (ok (base, net)) a found h =
    let (j, low, high, same, free, before) =
      find_free-IsLowest (taken c base) base 2 (host_count net.ones - 3) a found in
    distinct-last (taken c base) a h free
added_at c failed a found h = cc
added_at c panicked a found h = cc

map-last :
    (ps : List Peer) (p : Peer)
    → map (λ q. q.address) (ps ++ (p ∷ [])) ≡ map (λ q. q.address) ps ++ (p.address ∷ [])
map-last [] p = refl
map-last (q ∷ ps) p = ap (λ ss. q.address ∷ ss) (map-last ps p)

abbrev is_ok : Result String → Bool
is_ok (ok _) = true
is_ok _ = false

has_subnet : (c : VpnConfig) (a : String) → allocate_address c ≡ ok a → str_eq c.subnet "" ≡ false
unfolding allocate_address parse_cidr
has_subnet c a found = elim (Bool-cases (str_eq c.subnet "")) [
  | inr given ↦ given
  | inl e ↦
      let same : c.subnet ≡ "" = ground (arith, eq_iff c.subnet "") in
      let no : false ≡ true =
        ap (λ s. is_ok (allocate_from c (base_of (parse_cidr s)))) (sym same) ∙ ap is_ok found in
      cc
]

pub apart-add :
    (c : VpnConfig) (p : Peer)
    → allocate_address c ≡ ok p.address
    → is_apart c ≡ true
    → is_apart (add_peer p c) ≡ true
unfolding allocate_address
apart-add c p found h =
    let r = base_of (parse_cidr c.subnet) in
    let wider = added_at c r p.address found (ground arith) in
    let given = has_subnet c p.address found in
    let all_there = ap (λ ss. distinct (server_of r ++ ss)) (map-last c.peers p) ∙ wider in
    ground arith

no_peers-keep :
    (f : Peer → Bool) (ps : List Peer) → no_peers ps ≡ true → no_peers (keep f ps) ≡ true
no_peers-keep f [] h = refl
no_peers-keep f (p ∷ ps) h = cc

pub apart-without :
    (c : VpnConfig) (name : String) → is_apart c ≡ true → is_apart (without_peer name c) ≡ true
apart-without c name h =
    let other : Peer → Bool = λ p. not (str_eq p.name name) in
    let fewer = server-keep (base_of (parse_cidr c.subnet)) other c.peers (ground arith) in
    elim (Bool-cases (no_peers c.peers)) [
      | inl none_there ↦ let still = no_peers-keep other c.peers none_there in ground arith
      | inr some_there ↦ ground arith
    ]
