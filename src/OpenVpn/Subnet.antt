-- ===== src/OpenVpn/Subnet.antt =====
-- cmd/saguaro/openvpn.go: when the subnet of OpenVPN can change.
use sgsu.Prelude.{
  Bool, true, false, not, ◌&&◌, Option, none, some, String, str_eq, if◌then◌else◌, ◌≡◌, refl, arith,
  ap, ◌∙◌, sym, Bool-cases, inl, inr, eq_iff,
}
use sgsu.Vpn.Requests.{status}
use sgsu.OpenVpn.{OvpnConfig, validate}
use sgsu.OpenVpn.Requests.{
  OvpnApp, Outer, OvpnSettings, Pki, get_ovpn, set_ovpn, note_event, with_ovpn_settings, with_pki,
  made_pki, apply_disabled, apply_enabled, api_openvpn_apply, no_clients, stage_and_apply,
}

abbrev SubnetOf : String → Option OvpnConfig → Type 0
SubnetOf s none = Unit
SubnetOf s (some c) = c.subnet ≡ s

made_pki-SubnetOf : (c : OvpnConfig) (k : Option Pki) → SubnetOf c.subnet (made_pki c k)
made_pki-SubnetOf c none = tt
made_pki-SubnetOf c (some k) = refl

with_pki-SubnetOf : (o : Outer) (c : OvpnConfig) → SubnetOf c.subnet (with_pki o c)
unfolding with_pki
with_pki-SubnetOf o c = elim (Bool-cases (str_eq c.ca_cert_pem "")) [
  | inl fresh ↦ rw fresh (made_pki-SubnetOf c o.pki)
  | inr made ↦ rw made refl
]

apply_enabled-subnet :
    (o : Outer) (s : String) (m : Option OvpnConfig) (a : OvpnApp)
    → SubnetOf s m
    → (get_ovpn a).subnet ≡ s
    → (get_ovpn (apply_enabled o m a).0).subnet ≡ s
unfolding apply_enabled get_ovpn
apply_enabled-subnet o s none a h old = old
apply_enabled-subnet o s (some c) a h old = ground arith

apply_disabled-subnet :
    (o : Outer) (c : OvpnConfig) (a : OvpnApp)
    → (get_ovpn a).subnet ≡ c.subnet
    → (get_ovpn (apply_disabled o c a).0).subnet ≡ c.subnet
unfolding apply_disabled get_ovpn
apply_disabled-subnet o c a old = ground arith

-- A request that names a subnet, while there are clients and a stored subnet, leaves that subnet,
-- whatever its answer.
subnet_kept :
    (o : Outer) (s : OvpnSettings) (a : OvpnApp)
    → no_clients (get_ovpn a).clients ≡ false
    → str_eq (get_ovpn a).subnet "" ≡ false
    → str_eq s.subnet "" ≡ false
    → (get_ovpn (api_openvpn_apply o s a).0).subnet ≡ (get_ovpn a).subnet
unfolding api_openvpn_apply
subnet_kept o s a some_there stored named =
    let c = get_ovpn a in
    let next = with_ovpn_settings o s c in
    elim (Bool-cases (str_eq s.subnet c.subnet)) [
      | inr other ↦
          let refused : api_openvpn_apply o s a ≡ (a, status 409) =
            rw (some_there, stored, named, other) refl in
          ap (λ x. (get_ovpn x.0).subnet) refused
      | inl same ↦
          let is : c.subnet ≡ next.subnet =
            unfold with_ovpn_settings in sym ((eq_iff s.subnet c.subnet).0 same) in
          ground (
            arith,
            is,
            apply_disabled-subnet o next a is,
            apply_enabled-subnet o next.subnet (with_pki o next) a (with_pki-SubnetOf o next) is,
          )
    ]

validate_off : (c : OvpnConfig) → c.enabled ≡ false → validate c ≡ true
unfolding validate
validate_off c h = rw h refl

unguarded : (p q named t : Bool) → named ≡ true → (p && (q && (not named && t))) ≡ false
unguarded p q named t h = ground arith

third :
    {A : Type 0} (g v e : Bool) (x y z w : A)
    → g ≡ false
    → v ≡ true
    → e ≡ false
    → (if g then x else if not v then y else if not e then z else w) ≡ z
third g v e x y z w hg hv he = rw (hg, hv, he) refl

second : {A : Type 0} (g : Bool) (x y : A) → g ≡ true → (if not g then x else y) ≡ y
second g x y h = rw h refl

switched_off :
    (o : Outer) (s : OvpnSettings) (a : OvpnApp)
    → str_eq s.subnet "" ≡ true
    → s.enabled ≡ false
    → o.disables ≡ true
    → api_openvpn_apply o s a ≡ (
      note_event o "openvpn-config" "openvpn" "success" "warning"
          (set_ovpn (with_ovpn_settings o s (get_ovpn a)) a),
      status 200,
    )
unfolding api_openvpn_apply apply_disabled
switched_off o s a unnamed off runs =
    let c = get_ovpn a in
    let next = with_ovpn_settings o s c in
    let guard =
      not (no_clients c.clients)
      && (not (str_eq c.subnet "")
          && (not (str_eq s.subnet "") && not (str_eq s.subnet c.subnet))) in
    let keyed = if not o.has_key then (a, status 500) else apply_enabled o (with_pki o next) a in
    let open_guard =
      unguarded (not (no_clients c.clients)) (not (str_eq c.subnet "")) (str_eq s.subnet "")
        (not (str_eq s.subnet c.subnet)) unnamed in
    third guard (validate next) s.enabled (a, status 409) (a, status 400) (apply_disabled o next a)
      keyed open_guard (validate_off next (unfold with_ovpn_settings in off)) off
    ∙ second o.disables (a, status 502) _ runs

-- What a configuration keeps of the one that a request asks for
abbrev Asked : OvpnConfig → Option OvpnConfig → Type 0
Asked next none = Unit
Asked next (some c) = (c.subnet ≡ next.subnet) × (c.clients ≡ next.clients)

made_pki-Asked : (c : OvpnConfig) (k : Option Pki) → Asked c (made_pki c k)
made_pki-Asked c none = tt
made_pki-Asked c (some k) = (refl, refl)

with_pki-Asked : (o : Outer) (c : OvpnConfig) → Asked c (with_pki o c)
unfolding with_pki
with_pki-Asked o c = elim (Bool-cases (str_eq c.ca_cert_pem "")) [
  | inl fresh ↦ rw fresh (made_pki-Asked c o.pki)
  | inr made ↦ rw made (refl, refl)
]

enabled-Asked :
    (o : Outer) (next : OvpnConfig) (m : Option OvpnConfig) (a : OvpnApp)
    → Asked next m
    → (apply_enabled o m a).1 ≡ status 200
    → Asked next (some (get_ovpn (apply_enabled o m a).0))
unfolding apply_enabled get_ovpn
enabled-Asked o next none a h done = ground arith
enabled-Asked o next (some c) a h done = ground arith

disabled-Asked :
    (o : Outer) (c : OvpnConfig) (a : OvpnApp)
    → (apply_disabled o c a).1 ≡ status 200
    → Asked c (some (get_ovpn (apply_disabled o c a).0))
unfolding apply_disabled get_ovpn
disabled-Asked o c a done = ground arith

answered :
    (o : Outer) (s : OvpnSettings) (a : OvpnApp)
    → (api_openvpn_apply o s a).1 ≡ status 200
    → Asked (with_ovpn_settings o s (get_ovpn a)) (some (get_ovpn (api_openvpn_apply o s a).0))
unfolding api_openvpn_apply
answered o s a done =
    let next = with_ovpn_settings o s (get_ovpn a) in
    ground (
      arith,
      disabled-Asked o next a,
      enabled-Asked o next (with_pki o next) a (with_pki-Asked o next),
    )

last_branch :
    {A : Type 0} (g v e k : Bool) (x y z w u : A)
    → g ≡ false
    → v ≡ true
    → e ≡ true
    → k ≡ true
    → (if g then x else if not v then y else if not e then z else if not k then w else u) ≡ u
last_branch g v e k x y z w u hg hv he hk = rw (hg, hv, he, hk) refl

no_subnet : (p e q : Bool) → e ≡ true → (p && (not e && q)) ≡ false
no_subnet p e q h = ground arith

staged_done :
    (o : Outer) (c : OvpnConfig) (a : OvpnApp)
    → validate c ≡ true
    → o.stages ≡ true
    → o.saves ≡ true
    → (apply_enabled o (some c) a).1 ≡ status 200
unfolding apply_enabled stage_and_apply
staged_done o c a valid stages saves =
    let taken_in : stage_and_apply o c ≡ true = simp (valid, stages) in simp (taken_in, saves)

made_before : (o : Outer) (c : OvpnConfig) → str_eq c.ca_cert_pem "" ≡ false → with_pki o c ≡ some c
unfolding with_pki
made_before o c h = simp (h)

-- A request with a server that is on, over a stored configuration without a subnet
taken :
    (o : Outer) (s : OvpnSettings) (a : OvpnApp)
    → str_eq (get_ovpn a).subnet "" ≡ true
    → validate (with_ovpn_settings o s (get_ovpn a)) ≡ true
    → s.enabled ≡ true
    → o.has_key ≡ true
    → o.stages ≡ true
    → o.saves ≡ true
    → str_eq (get_ovpn a).ca_cert_pem "" ≡ false
    → (api_openvpn_apply o s a).1 ≡ status 200
unfolding api_openvpn_apply
taken o s a empty valid on key stages saves ca =
    let c = get_ovpn a in
    let next = with_ovpn_settings o s c in
    let guard =
      not (no_clients c.clients)
      && (not (str_eq c.subnet "")
          && (not (str_eq s.subnet "") && not (str_eq s.subnet c.subnet))) in
    let open_guard : guard ≡ false =
      no_subnet (not (no_clients c.clients)) (str_eq c.subnet "") _ empty in
    let kept : with_pki o next ≡ some next = made_before o next (unfold with_ovpn_settings in ca) in
    ap (λ x. x.1)
      (last_branch guard (validate next) s.enabled o.has_key (a, status 409) (a, status 400)
        (apply_disabled o next a) (a, status 500) (apply_enabled o (with_pki o next) a) open_guard
        valid on key)
    ∙ ap (λ m. (apply_enabled o m a).1) kept
    ∙ staged_done o next a valid stages saves

-- With clients, a stored subnet and a certificate authority, a valid request that switches the server
-- on in another subnet is refused with 409 and changes nothing. After a request that switches the
-- server off and names no subnet, where the adapter disables the server, the same request is
-- answered 200, where there is a secret key, the adapter takes the files and state.json can be
-- written: the clients are those from before, and the subnet is the new one.
pub subnet_moves :
    (o o' : Outer) (s s' : OvpnSettings) (a : OvpnApp)
    → no_clients (get_ovpn a).clients ≡ false
    → str_eq (get_ovpn a).subnet "" ≡ false
    → str_eq (get_ovpn a).ca_cert_pem "" ≡ false
    → str_eq s'.subnet "" ≡ false
    → str_eq s'.subnet (get_ovpn a).subnet ≡ false
    → validate (with_ovpn_settings o' s' (get_ovpn a)) ≡ true
    → s'.enabled ≡ true
    → o'.has_key ≡ true
    → o'.stages ≡ true
    → o'.saves ≡ true
    → str_eq s.subnet "" ≡ true
    → s.enabled ≡ false
    → o.disables ≡ true
    → (api_openvpn_apply o' s' a ≡ (a, status 409))
      × ((api_openvpn_apply o' s' (api_openvpn_apply o s a).0).1 ≡ status 200)
      × ((get_ovpn (api_openvpn_apply o' s' (api_openvpn_apply o s a).0).0).subnet ≡ s'.subnet)
      × ((get_ovpn (api_openvpn_apply o' s' (api_openvpn_apply o s a).0).0).clients
          ≡ (get_ovpn a).clients)
unfolding with_ovpn_settings note_event set_ovpn
subnet_moves o o' s s' a there stored ca named other valid on key stages saves unnamed off runs =
    let first = switched_off o s a unnamed off runs in
    let b = (api_openvpn_apply o s a).0 in
    let now : get_ovpn b ≡ with_ovpn_settings o s (get_ovpn a) =
      ap (λ x. get_ovpn x.0) first ∙ (unfold get_ovpn in refl) in
    let done =
      taken o' s' b (ap (λ c. str_eq c.subnet "") now ∙ unnamed)
        (ap (λ c. validate (with_ovpn_settings o' s' c)) now ∙ valid) on key stages saves
        (ap (λ c. str_eq c.ca_cert_pem "") now ∙ ca) in
    let (subnet, clients) = answered o' s' b done in
    let refused : api_openvpn_apply o' s' a ≡ (a, status 409) =
      unfold api_openvpn_apply in rw (there, stored, named, other) refl in
    (refused, done, subnet, clients ∙ ap (λ c. c.clients) now)
