-- ===== src/Vpn/Invariant.antt =====
-- cmd/saguaro/vpn.go: the addresses of the VPN over sequences of requests.
use sgsu.Prelude.{
  Bool, true, false, not, ◌&&◌, ◌||◌, Option, none, some, String, List, [], ◌∷◌, str_eq,
  if◌then◌else◌, any, ◌≡◌, refl, arith, Bool-cases, inl, inr, eq_iff,
}
use sgsu.Prelude.Text.{trim_space}
use sgsu.Vpn.{
  VpnConfig, Result, ok, failed, panicked, allocate_address, validate, generate_client_conf,
}
use sgsu.Vpn.Requests.{
  VpnApp, Outside, Settings, NewPeer, Answer, status, get_vpn, set_vpn, with_settings, with_keys,
  new_keys, sealed, settle, apply_keyed, settle_peer, settle_delete, add_keyed, add_at, add_peer,
  new_peer, without_peer, api_vpn_apply, api_vpn_peer_add, api_vpn_peer_delete, apply_vpn, no_peers,
  record_event,
}
use sgsu.Vpn.Addresses.{is_apart, apart-same, apart-empty, apart-add, apart-without}

-- One request
pub data VpnCall : Type 0 where
  apply_settings : Settings → VpnCall
  add : NewPeer → VpnCall
  delete : String → VpnCall

unfoldable pub vpn_step : Outside → VpnCall → VpnApp → VpnApp × Answer
unfolding api_vpn_apply api_vpn_peer_add api_vpn_peer_delete
vpn_step o (apply_settings s) a = api_vpn_apply o s a
vpn_step o (add i) a = api_vpn_peer_add o i a
vpn_step o (delete name) a = api_vpn_peer_delete o name a

-- The state after a sequence of requests
unfoldable pub vpn_run : List (Outside × VpnCall) → VpnApp → VpnApp
unfolding vpn_step
vpn_run [] a = a
vpn_run ((o, call) ∷ more) a = vpn_run more (vpn_step o call a).0

-- What is left of a request that ends in one of the two configurations
module _ (o : Outside) (c : VpnConfig) (a : VpnApp) (next : is_apart c ≡ true)
    (old : is_apart (get_vpn a) ≡ true) where
  settle-apart : (r : Result {0} Unit) → is_apart (get_vpn (settle o c r a).0) ≡ true
  unfolding settle get_vpn set_vpn record_event
  settle-apart failed = old
  settle-apart panicked = old
  settle-apart (ok _) = elim (Bool-cases o.saves) [
    | inl on ↦ rw (on) next
    | inr off ↦ rw (off) next
  ]

  settle_peer-apart :
      (conf : Option String) (name : String) (r : Result {0} Unit)
      → is_apart (get_vpn (settle_peer o c conf name r a).0) ≡ true
  unfolding settle_peer get_vpn set_vpn record_event
  settle_peer-apart conf name failed = old
  settle_peer-apart conf name panicked = old
  settle_peer-apart none name (ok _) = next
  settle_peer-apart (some conf) name (ok _) = elim (Bool-cases o.saves) [
    | inl on ↦ rw (on) next
    | inr off ↦ rw (off) next
  ]

  settle_delete-apart :
      (name : String) (r : Result {0} Unit)
      → is_apart (get_vpn (settle_delete o c name r a).0) ≡ true
  unfolding settle_delete get_vpn set_vpn record_event
  settle_delete-apart name failed = old
  settle_delete-apart name panicked = old
  settle_delete-apart name (ok _) = elim (Bool-cases o.saves) [
    | inl on ↦ rw (on) next
    | inr off ↦ rw (off) next
  ]

module _ (o : Outside) (a : VpnApp) (old : is_apart (get_vpn a) ≡ true) where
  either_apart :
      (b : Bool) (x y : VpnApp × Answer)
      → is_apart (get_vpn x.0) ≡ true
      → is_apart (get_vpn y.0) ≡ true
      → is_apart (get_vpn (if b then x else y).0) ≡ true
  either_apart true x y h k = h
  either_apart false x y h k = k

  api_vpn_peer_delete-apart :
      (name : String) → is_apart (get_vpn (api_vpn_peer_delete o name a).0) ≡ true
  unfolding api_vpn_peer_delete
  api_vpn_peer_delete-apart name =
      let c = get_vpn a in
      let next = without_peer name c in
      let applied = if c.enabled then apply_vpn o next else ok tt in
      either_apart (not (any (λ p. str_eq p.name name) c.peers)) (a, status 404)
        (settle_delete o next name applied a) old
        (settle_delete-apart o next a (apart-without c name old) old name applied)

  add_keyed-apart :
      (i : NewPeer) (name address : String) (keys : Option (String × String))
      → allocate_address (get_vpn a) ≡ ok address
      → is_apart (get_vpn (add_keyed o i name address keys a).0) ≡ true
  unfolding add_keyed new_peer
  add_keyed-apart i name address none found = old
  add_keyed-apart i name address (some (priv, public)) found =
      let p = new_peer o i name address public in
      let next = add_peer p (get_vpn a) in
      let conf = generate_client_conf next priv p in
      either_apart (not (validate next)) (a, status 400)
        (settle_peer o next conf name (apply_vpn o next) a) old
        (settle_peer-apart o next a (apart-add (get_vpn a) p found old) old conf name
          (apply_vpn o next))

  add_at-apart :
      (i : NewPeer) (name : String) (r : Result String)
      → allocate_address (get_vpn a) ≡ r
      → is_apart (get_vpn (add_at o i name r a).0) ≡ true
  unfolding add_at
  add_at-apart i name failed found = old
  add_at-apart i name panicked found = old
  add_at-apart i name (ok address) found = add_keyed-apart i name address o.keypair found

  api_vpn_peer_add-apart : (i : NewPeer) → is_apart (get_vpn (api_vpn_peer_add o i a).0) ≡ true
  unfolding api_vpn_peer_add
  api_vpn_peer_add-apart i =
      let c = get_vpn a in
      let name = o.to_lower (trim_space i.name) in
      let added = add_at o i name (allocate_address c) a in
      let listed = any (λ p. str_eq p.name name) c.peers in
      let checked = if listed then (a, status 409) else added in
      either_apart (not c.enabled || str_eq c.server_pub "") (a, status 409) checked old
        (either_apart listed (a, status 409) added old
          (add_at-apart i name (allocate_address c) refl))

  abbrev AllApart : Option VpnConfig → Type 0
  AllApart none = Unit
  AllApart (some c) = is_apart c ≡ true

  sealed-AllApart :
      (c : VpnConfig) (public : String) (m : Option String)
      → is_apart c ≡ true
      → AllApart (sealed c public m)
  sealed-AllApart c public none h = tt
  sealed-AllApart c public (some enc) h = h

  new_keys-AllApart :
      (c : VpnConfig) (keys : Option (String × String))
      → is_apart c ≡ true
      → AllApart (new_keys o c keys)
  new_keys-AllApart c none h = tt
  new_keys-AllApart c (some (priv, public)) h = sealed-AllApart c public (o.seal priv) h

  with_keys-AllApart : (c : VpnConfig) → is_apart c ≡ true → AllApart (with_keys o c)
  unfolding with_keys
  with_keys-AllApart c h = elim (Bool-cases (not (str_eq c.server_pub ""))) [
    | inl made ↦ rw (made) h
    | inr fresh ↦ elim (Bool-cases (not o.has_key)) [
      | inl no_key ↦ rw (fresh, no_key) tt
      | inr key ↦ rw (fresh, key) (new_keys-AllApart c o.keypair h)
    ]
  ]

  apply_keyed-apart :
      (m : Option VpnConfig) → AllApart m → is_apart (get_vpn (apply_keyed o m a).0) ≡ true
  unfolding apply_keyed
  apply_keyed-apart none h = old
  apply_keyed-apart (some c) h = settle-apart o c a h old (apply_vpn o c)

  with_settings-apart :
      (s : Settings) (c : VpnConfig)
      → is_apart c ≡ true
      → (not (no_peers c.peers) && (not (str_eq c.subnet "") && not (str_eq s.subnet c.subnet)))
        ≡ false
      → is_apart (with_settings o s c) ≡ true
  unfolding with_settings
  with_settings-apart s c h stays = elim (Bool-cases (no_peers c.peers)) [
    | inl none_there ↦ apart-empty (with_settings o s c) none_there
    | inr some_there ↦
        let same : s.subnet ≡ c.subnet = ground (arith, eq_iff s.subnet c.subnet) in
        apart-same c (with_settings o s c) same refl h
  ]

  api_vpn_apply-apart : (s : Settings) → is_apart (get_vpn (api_vpn_apply o s a).0) ≡ true
  unfolding api_vpn_apply with_settings
  api_vpn_apply-apart s =
      let c = get_vpn a in
      let next = with_settings o s c in
      let moved =
        not (no_peers c.peers) && (not (str_eq c.subnet "") && not (str_eq s.subnet c.subnet)) in
      let keyed = apply_keyed o (with_keys o next) a in
      let checked = if not (validate next) then (a, status 400) else keyed in
      let done : is_apart next ≡ true → is_apart (get_vpn checked.0) ≡ true = λ h.
        either_apart (not (validate next)) (a, status 400) keyed old
          (apply_keyed-apart (with_keys o next) (with_keys-AllApart next h)) in
      elim (Bool-cases moved) [
        | inl away ↦ rw (away) old
        | inr stays ↦ rw (stays) (done (with_settings-apart s c old stays))
      ]

-- Whatever requests come, with whatever outcome: after each the addresses of the server and of the
-- peers of the VPN differ from one another, from an appliance without a VPN on.
pub vpn_run-apart :
    (calls : List (Outside × VpnCall)) (a : VpnApp)
    → is_apart (get_vpn a) ≡ true
    → is_apart (get_vpn (vpn_run calls a)) ≡ true
unfolding vpn_run vpn_step
vpn_run-apart [] a h = h
vpn_run-apart ((o, apply_settings s) ∷ more) a h =
    vpn_run-apart more (api_vpn_apply o s a).0 (api_vpn_apply-apart o a h s)
vpn_run-apart ((o, add i) ∷ more) a h =
    vpn_run-apart more (api_vpn_peer_add o i a).0 (api_vpn_peer_add-apart o a h i)
vpn_run-apart ((o, delete name) ∷ more) a h =
    vpn_run-apart more (api_vpn_peer_delete o name a).0 (api_vpn_peer_delete-apart o a h name)
