-- ===== src/OpenVpn/Apart.antt =====
-- cmd/saguaro/openvpn.go: the names and the addresses of the clients over sequences of requests.
use mathlib.Core.List.{append-nil}
use sgsu.Prelude.{
  ℕ, zero, suc, Bool, true, false, ◌&&◌, ◌||◌, Option, none, some, String, List, [], ◌∷◌, ◌++◌,
  str_eq, if◌then◌else◌, any, map, ◌≡◌, refl, arith, Bool-cases, inl, inr, ap, sym, ◌∙◌,
}
use sgsu.Prelude.Net.{IpNet, parse_cidr}
use sgsu.Prelude.Text.{trim_space}
use sgsu.Vpn.{Result, ok, failed, panicked, base_of}
use sgsu.Vpn.Allocation.{is_taken}
use sgsu.Vpn.Addresses.{distinct, distinct-last}
use sgsu.Vpn.Requests.{Answer}
use sgsu.OpenVpn.{
  AccessRule, Client, OvpnConfig, addresses, inc_ip, in_subnet, next_free, next_from,
  next_free_addr, access_of, openvpn_firewall,
}
use sgsu.OpenVpn.Requests.{
  OvpnApp, Outer, OvpnSettings, OvpnCall, configure, add, limit, drop_client, get_ovpn, set_ovpn,
  note_event, with_ovpn_settings, with_pki, apply_disabled, apply_enabled, api_openvpn_apply,
  is_active, add_client, new_client, store_client, add_addressed, add_signed,
  api_openvpn_add_client, with_access, api_openvpn_client_access, without_client, made_pki, Pki,
  revoke, set_access, api_openvpn_del_client, ovpn_step, ovpn_run, valid_client_name,
}

-- The names of the clients that are not revoked
abbrev pub active_names : List Client → List String
active_names [] = []
active_names (c ∷ cs) = if c.revoked then active_names cs else c.name ∷ active_names cs

-- The clients that are not revoked have different names, and different addresses where they have one.
abbrev pub is_apart : OvpnConfig → Bool
is_apart c = distinct (active_names c.clients) && distinct (addresses c.clients)

taken-next_free :
    (used : List String) (net : IpNet) (base i left : ℕ)
    → str_eq (next_free used net base i left) "" ≡ false
    → is_taken used (next_free used net base i left) ≡ false
unfolding next_free
taken-next_free used net base i zero h = ground arith
taken-next_free used net base i (suc left) h = elim (Bool-cases (in_subnet net (inc_ip base i))) [
  | inr outside ↦
      let same : next_free used net base i (suc left) ≡ "" = rw outside refl in
      let wrong : true ≡ false = ap (λ t. str_eq t "") (sym same) ∙ h in cc
  | inl inside ↦ elim (Bool-cases (is_taken used (inc_ip base i))) [
    | inl busy ↦
        let same : next_free used net base i (suc left) ≡ next_free used net base (suc i) left =
          rw (inside, busy) refl in
        ap (is_taken used) same
        ∙ taken-next_free used net base (suc i) left (ap (λ t. str_eq t "") (sym same) ∙ h)
    | inr free ↦
        let same : next_free used net base i (suc left) ≡ inc_ip base i = rw (inside, free) refl in
        ap (is_taken used) same ∙ free
  ]
]

addresses-last :
    (cs : List Client) (p : Client)
    → p.revoked ≡ false
    → addresses (cs ++ (p ∷ []))
      ≡ addresses cs ++ (if str_eq p.vpn_addr "" then [] else p.vpn_addr ∷ [])
addresses-last [] p h = ground arith
addresses-last (c ∷ cs) p h = ground (arith, addresses-last cs p h)

active_names-last :
    (cs : List Client) (p : Client)
    → p.revoked ≡ false
    → active_names (cs ++ (p ∷ [])) ≡ active_names cs ++ (p.name ∷ [])
active_names-last [] p h = ground arith
active_names-last (c ∷ cs) p h = ground (arith, active_names-last cs p h)

taken-active_names :
    (cs : List Client) (name : String) → is_taken (active_names cs) name ≡ any (is_active name) cs
taken-active_names [] name = refl
taken-active_names (c ∷ cs) name = ground (arith, taken-active_names cs name)

-- A change of clients that keeps their names and addresses, and revokes some of them
abbrev Thins : (Client → Client) → Type 0
Thins f =
    (c : Client)
    → ((f c).name ≡ c.name)
      × ((f c).vpn_addr ≡ c.vpn_addr)
      × ((c.revoked ≡ true) → (f c).revoked ≡ true)

module _ (f : Client → Client) (thins : Thins f) where
  free-addresses :
      (cs : List Client) (s : String)
      → is_taken (addresses cs) s ≡ false
      → is_taken (addresses (map f cs)) s ≡ false
  free-addresses [] s h = refl
  free-addresses (c ∷ cs) s h = ground (arith, free-addresses cs s, thins c)

  free-active_names :
      (cs : List Client) (s : String)
      → is_taken (active_names cs) s ≡ false
      → is_taken (active_names (map f cs)) s ≡ false
  free-active_names [] s h = refl
  free-active_names (c ∷ cs) s h = ground (arith, free-active_names cs s, thins c)

  distinct-addresses :
      (cs : List Client) → distinct (addresses cs) ≡ true → distinct (addresses (map f cs)) ≡ true
  distinct-addresses [] h = refl
  distinct-addresses (c ∷ cs) h =
      ground (arith, distinct-addresses cs, free-addresses cs c.vpn_addr, thins c)

  distinct-active_names :
      (cs : List Client)
      → distinct (active_names cs) ≡ true
      → distinct (active_names (map f cs)) ≡ true
  distinct-active_names [] h = refl
  distinct-active_names (c ∷ cs) h =
      ground (arith, distinct-active_names cs, free-active_names cs c.name, thins c)

  apart-map :
      (c next : OvpnConfig)
      → next.clients ≡ map f c.clients
      → is_apart c ≡ true
      → is_apart next ≡ true
  apart-map c next e h =
      let names = distinct-active_names c.clients (ground arith) in
      let addrs = distinct-addresses c.clients (ground arith) in rw e (ground arith)

abbrev text_of : String → Result String → String
text_of s (ok t) = t
text_of s _ = s

or_false : (a b : Bool) → (a || b) ≡ false → b ≡ false
or_false true b h = cc
or_false false b h = h

-- The address of a new client is one that no client which is not revoked has, or none.
taken-next_from :
    (c : OvpnConfig) (r : Result (ℕ × IpNet)) (a : String)
    → next_from c r ≡ ok a
    → str_eq a "" ≡ false
    → is_taken (addresses c.clients) a ≡ false
taken-next_from c failed a h filled =
    let wrong : true ≡ false = ap (λ t. str_eq t "") (ap (text_of a) h) ∙ filled in cc
taken-next_from c panicked a h filled = cc
taken-next_from c (ok (base, net)) a h filled =
    let used = inc_ip base 1 ∷ addresses c.clients in
    let same : next_free used net base 2 252 ≡ a = ap (text_of a) h in
    let free = taken-next_free used net base 2 252 (ap (λ t. str_eq t "") same ∙ filled) in
    or_false (str_eq (inc_ip base 1) a) _ (ap (is_taken used) (sym same) ∙ free)

apart-add :
    (c : OvpnConfig) (p : Client)
    → p.revoked ≡ false
    → any (is_active p.name) c.clients ≡ false
    → next_free_addr c ≡ ok p.vpn_addr
    → is_apart c ≡ true
    → is_apart (add_client p c) ≡ true
unfolding next_free_addr
apart-add c p kept fresh found h = elim (Bool-cases (str_eq p.vpn_addr "")) [
  | inl empty ↦
      rw (names, addresses-last c.clients p kept, empty, append-nil (addresses c.clients)) old
  | inr filled ↦
      rw (names, addresses-last c.clients p kept, filled)
        (distinct-last (addresses c.clients) p.vpn_addr old
          (taken-next_from c (base_of (parse_cidr (trim_space c.subnet))) p.vpn_addr found filled))
]
  where
    names : distinct (active_names (c.clients ++ (p ∷ []))) ≡ true
    names =
        ap distinct (active_names-last c.clients p kept)
        ∙ distinct-last (active_names c.clients) p.name (ground arith)
            (taken-active_names c.clients p.name ∙ fresh)

    old : distinct (addresses c.clients) ≡ true
    old = ground arith

access-Thins : (name : String) (rules : List AccessRule) → Thins (set_access name rules)
access-Thins name rules c = ground arith

revoke-Thins : (name : String) → Thins (revoke name)
revoke-Thins name c = ground arith

module _ (o : Outer) (a : OvpnApp) (old : is_apart (get_ovpn a) ≡ true) where
  either_apart :
      (b : Bool) (x y : OvpnApp × Answer)
      → is_apart (get_ovpn x.0) ≡ true
      → is_apart (get_ovpn y.0) ≡ true
      → is_apart (get_ovpn (if b then x else y).0) ≡ true
  either_apart true x y h k = h
  either_apart false x y h k = k

  store_client-apart :
      (c : OvpnConfig) → is_apart c ≡ true → is_apart (get_ovpn (store_client o c a).0) ≡ true
  unfolding store_client get_ovpn set_ovpn note_event
  store_client-apart c h = ground arith

  add_addressed-apart :
      (name serial cert phc : String) (r : Result String)
      → next_free_addr (get_ovpn a) ≡ r
      → any (is_active name) (get_ovpn a).clients ≡ false
      → is_apart (get_ovpn (add_addressed o name serial cert phc r a).0) ≡ true
  unfolding add_addressed
  add_addressed-apart name serial cert phc failed e fresh = old
  add_addressed-apart name serial cert phc panicked e fresh = old
  add_addressed-apart name serial cert phc (ok address) e fresh =
      let p = new_client o name serial cert phc address in
      store_client-apart (add_client p (get_ovpn a)) (apart-add (get_ovpn a) p refl fresh e old)

  add_signed-apart :
      (name : String) (made : Option (String × String)) (phc : Option String)
      → any (is_active name) (get_ovpn a).clients ≡ false
      → is_apart (get_ovpn (add_signed o name made phc a).0) ≡ true
  unfolding add_signed
  add_signed-apart name none phc fresh = old
  add_signed-apart name (some m) none fresh = old
  add_signed-apart name (some (serial, cert)) (some phc) fresh =
      add_addressed-apart name serial cert phc (next_free_addr (get_ovpn a)) refl fresh

  add_client-apart :
      (name password : String)
      → is_apart (get_ovpn (api_openvpn_add_client o name password a).0) ≡ true
  unfolding api_openvpn_add_client
  add_client-apart name password =
      ground
        (arith, add_signed-apart name (if valid_client_name name then o.signed else none) o.hashed)

  client_access-apart :
      (name : String) (rules : List AccessRule)
      → is_apart (get_ovpn (api_openvpn_client_access o name rules a).0) ≡ true
  unfolding api_openvpn_client_access set_ovpn note_event
  client_access-apart name rules =
      let next =
        apart-map (set_access name rules) (access-Thins name rules) (get_ovpn a)
          (with_access name rules (get_ovpn a)) refl old in
      ground arith

  del_client-apart :
      (name : String) → is_apart (get_ovpn (api_openvpn_del_client o name a).0) ≡ true
  unfolding api_openvpn_del_client set_ovpn note_event
  del_client-apart name =
      let next =
        apart-map (revoke name) (revoke-Thins name) (get_ovpn a) (without_client name (get_ovpn a))
          refl old in
      ground arith

  abbrev AllApart : Option OvpnConfig → Type 0
  AllApart none = Unit
  AllApart (some c) = is_apart c ≡ true

  made_pki-apart : (c : OvpnConfig) (k : Option Pki) → is_apart c ≡ true → AllApart (made_pki c k)
  made_pki-apart c none h = tt
  made_pki-apart c (some k) h = h

  with_pki-apart : (c : OvpnConfig) → is_apart c ≡ true → AllApart (with_pki o c)
  unfolding with_pki
  with_pki-apart c h = elim (Bool-cases (str_eq c.ca_cert_pem "")) [
    | inl fresh ↦ rw fresh (made_pki-apart c o.pki h)
    | inr made ↦ rw made h
  ]

  apply_disabled-apart :
      (c : OvpnConfig) → is_apart c ≡ true → is_apart (get_ovpn (apply_disabled o c a).0) ≡ true
  unfolding apply_disabled get_ovpn
  apply_disabled-apart c h = ground arith

  apply_enabled-apart :
      (m : Option OvpnConfig) → AllApart m → is_apart (get_ovpn (apply_enabled o m a).0) ≡ true
  unfolding apply_enabled get_ovpn
  apply_enabled-apart none h = old
  apply_enabled-apart (some c) h = ground arith

  apply-apart : (s : OvpnSettings) → is_apart (get_ovpn (api_openvpn_apply o s a).0) ≡ true
  unfolding api_openvpn_apply
  apply-apart s =
      let c = get_ovpn a in
      let next = with_ovpn_settings o s c in
      let kept : is_apart next ≡ true = unfold with_ovpn_settings in old in
      ground (
        arith,
        apply_disabled-apart next kept,
        apply_enabled-apart (with_pki o next) (with_pki-apart next kept),
      )

step-apart :
    (o : Outer) (call : OvpnCall) (a : OvpnApp)
    → is_apart (get_ovpn a) ≡ true
    → is_apart (get_ovpn (ovpn_step o call a).0) ≡ true
unfolding ovpn_step
step-apart o (configure s) a h = apply-apart o a h s
step-apart o (add name password) a h = add_client-apart o a h name password
step-apart o (limit name rules) a h = client_access-apart o a h name rules
step-apart o (drop_client name) a h = del_client-apart o a h name

run_apart :
    (calls : List (Outer × OvpnCall)) (a : OvpnApp)
    → is_apart (get_ovpn a) ≡ true
    → is_apart (get_ovpn (ovpn_run calls a)) ≡ true
unfolding ovpn_run
run_apart [] a h = h
run_apart ((o, call) ∷ more) a h = run_apart more (ovpn_step o call a).0 (step-apart o call a h)

access_of-addresses : (cs : List Client) → map (λ x. x.addr) (access_of cs) ≡ addresses cs
access_of-addresses [] = refl
access_of-addresses (c ∷ cs) = ground (arith, access_of-addresses cs)

limited_apart :
    (c : OvpnConfig)
    → is_apart c ≡ true
    → distinct (map (λ x. x.addr) (openvpn_firewall c).2) ≡ true
unfolding openvpn_firewall
limited_apart c h = elim (Bool-cases c.enabled) [
  | inl on ↦ rw (on, access_of-addresses c.clients) (ground arith)
  | inr off ↦ rw off refl
]

-- Whatever requests come, with whatever outcome, from clients with different names and addresses on,
-- those that are revoked left aside: the clients that are not revoked have different names, and no two
-- entries of the limits that the firewall gets are for the same address.
pub ovpn_run-apart :
    (calls : List (Outer × OvpnCall)) (a : OvpnApp)
    → is_apart (get_ovpn a) ≡ true
    → (distinct (active_names (get_ovpn (ovpn_run calls a)).clients) ≡ true)
      × (distinct (map (λ x. x.addr) (openvpn_firewall (get_ovpn (ovpn_run calls a))).2) ≡ true)
ovpn_run-apart calls a h =
    let kept = run_apart calls a h in
    (ground arith, limited_apart (get_ovpn (ovpn_run calls a)) kept)
