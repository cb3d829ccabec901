-- ===== src/Vpn/Requests.antt =====
-- cmd/saguaro/vpn.go: the handlers of the WireGuard VPN.
use sgsu.Prelude.{
  ℕ, ◌+◌, ◌*◌, Bool, true, false, not, ◌&&◌, ◌||◌, Option, none, some, String, List, [], ◌∷◌, ◌++◌,
  str_eq, ◌==◌, if◌then◌else◌, any, keep, take,
}
use sgsu.Prelude.Integers.{ℤ, pos, negsuc, eq_int}
use sgsu.Prelude.Text.{trim_space}
use sgsu.App.{Event, Status}
use sgsu.Vpn.{
  VpnConfig, Peer, Result, ok, failed, panicked, validate, allocate_address, generate_server_conf,
  generate_client_conf,
}

-- The part of the state that the handlers change
pub record VpnApp : Type 0 where
  pub vpn : Option VpnConfig
  pub audit : List Event

-- What one request meets outside: whether the root adapter runs an action, whether the staged file
-- and state.json can be written, the keys and the sealing of the private key, which fails without a
-- secret key, the client network of the gateway, the lower-casing of Go's `strings.ToLower`, the
-- time, who asks and from where.
pub record Outside : Type 0 where
  pub runs : String → Bool
  pub stages : Bool
  pub saves : Bool
  pub has_key : Bool
  pub keypair : Option (String × String)
  pub seal : String → Option String
  pub unseal : String → Option String
  pub client_network : Option String
  pub to_lower : String → String
  pub now : ℕ
  pub actor : String
  pub remote_ip : String

-- A status, or a panic, which leaves the request without an answer
pub data Answer : Type 0 where
  status : Status → Answer
  no_answer : Answer

-- `recordSev` up to what it forwards outside
unfoldable pub record_event : Outside → (action target result severity : String) → VpnApp → VpnApp
record_event o action target result severity a = record a {
  audit = take 5000 (
      record {
        time = o.now;
        severity = severity;
        actor = o.actor;
        action = action;
        target = target;
        result = result;
        remote_ip = o.remote_ip;
      }
      ∷ a.audit);
}

abbrev pub default_vpn : VpnConfig
default_vpn = record {
  enabled = false;
  subnet = "10.8.0.0/24";
  listen_port = pos 51820;
  endpoint = "";
  dns = "";
  split_networks = [];
  server_pub = "";
  server_priv_enc = "";
  peers = [];
}

-- `getVPN`
unfoldable pub get_vpn : VpnApp → VpnConfig
get_vpn a = elim a.vpn [ none ↦ default_vpn | some c ↦ c ]

-- `setVPN`: the memory changes even where the file cannot be written.
unfoldable pub set_vpn : VpnConfig → VpnApp → VpnApp
set_vpn c a = record a { vpn = some c }

abbrev staged : Outside → Result String → Result {0} Unit
staged o (ok text) = if o.stages && o.runs "apply" then ok tt else failed
staged o failed = failed
staged o panicked = panicked

abbrev unsealed : Outside → VpnConfig → Option String → Result {0} Unit
unsealed o c none = failed
unsealed o c (some priv) = staged o (generate_server_conf c priv o.now)

-- `applyVPN`
unfoldable pub apply_vpn : Outside → VpnConfig → Result {0} Unit
unfolding generate_server_conf
apply_vpn o c =
    if not c.enabled
    then (if o.runs "disable" then ok tt else failed)
    else if not o.has_key
    then failed
    else unsealed o c (o.unseal c.server_priv_enc)

-- The settings of `apiVPNApply`
pub record Settings : Type 0 where
  pub enabled : Bool
  pub subnet : String
  pub listen_port : ℤ
  pub endpoint : String
  pub dns : String
  pub split_networks : List String

abbrev split_or : Option String → List String → List String
split_or none [] = []
split_or (some n) [] = if str_eq n "" then [] else n ∷ []
split_or network ns = ns

-- The configuration with the new settings, before the keys
unfoldable pub with_settings : Outside → Settings → VpnConfig → VpnConfig
with_settings o s c = record c {
  enabled = s.enabled;
  subnet = s.subnet;
  listen_port = if eq_int s.listen_port (pos 0) then pos 51820 else s.listen_port;
  endpoint = s.endpoint;
  dns = s.dns;
  split_networks = split_or o.client_network s.split_networks;
}

abbrev pub no_peers : List Peer → Bool
no_peers [] = true
no_peers _ = false

abbrev pub sealed : VpnConfig → String → Option String → Option VpnConfig
sealed c public none = none
sealed c public (some enc) = some (record c { server_priv_enc = enc; server_pub = public })

abbrev pub new_keys : Outside → VpnConfig → Option (String × String) → Option VpnConfig
new_keys o c none = none
new_keys o c (some (priv, public)) = sealed c public (o.seal priv)

-- The configuration with the keys of the server, which are made once
unfoldable pub with_keys : Outside → VpnConfig → Option VpnConfig
with_keys o c =
    if not (str_eq c.server_pub "")
    then some c
    else if not o.has_key
    then none
    else new_keys o c o.keypair

-- The end of `apiVPNApply`
unfoldable pub settle : Outside → VpnConfig → Result {0} Unit → VpnApp → VpnApp × Answer
unfolding record_event set_vpn
settle o c failed a = (record_event o "vpn-apply" "wireguard" "failed" "security" a, status 502)
settle o c panicked a = (a, no_answer)
settle o c (ok _) a =
    if not o.saves
    then (set_vpn c a, status 500)
    else (record_event o "vpn-apply" "wireguard" "success" "security" (set_vpn c a), status 200)

unfoldable pub apply_keyed : Outside → Option VpnConfig → VpnApp → VpnApp × Answer
unfolding settle apply_vpn
apply_keyed o none a = (a, status 500)
apply_keyed o (some c) a = settle o c (apply_vpn o c) a

-- `apiVPNApply`
unfoldable pub api_vpn_apply : Outside → Settings → VpnApp → VpnApp × Answer
unfolding get_vpn with_settings with_keys apply_keyed validate
api_vpn_apply o s a =
    let c = get_vpn a in
    let next = with_settings o s c in
    if not (no_peers c.peers) && (not (str_eq c.subnet "") && not (str_eq s.subnet c.subnet))
    then (a, status 409)
    else if not (validate next)
    then (a, status 400)
    else apply_keyed o (with_keys o next) a

-- The peer of `apiVPNPeerAdd`
pub record NewPeer : Type 0 where
  pub name : String
  pub full_tunnel : Bool
  pub expire_days : ℤ

abbrev pub day : ℕ
day = 86400000000000

abbrev expiry : ℕ → ℤ → ℕ
expiry now (pos days) = if days == 0 then 0 else now + days * day
expiry now (negsuc days) = 0

unfoldable pub new_peer : Outside → NewPeer → (name address public : String) → Peer
new_peer o i name address public = record {
  name = name;
  pub_key = public;
  address = address;
  full_tunnel = i.full_tunnel;
  expires_at = expiry o.now i.expire_days;
}

abbrev pub add_peer : Peer → VpnConfig → VpnConfig
add_peer p c = record c { peers = c.peers ++ (p ∷ []) }

-- The end of `apiVPNPeerAdd`
unfoldable pub settle_peer :
    Outside
    → VpnConfig
    → Option String
    → (name : String) → Result {0} Unit
    → VpnApp
    → VpnApp × Answer
unfolding record_event set_vpn
settle_peer o c conf name failed a = (a, status 502)
settle_peer o c conf name panicked a = (a, no_answer)
settle_peer o c none name (ok _) a = (set_vpn c a, status 500)
settle_peer o c (some conf) name (ok _) a =
    if not o.saves
    then (set_vpn c a, status 500)
    else (record_event o "vpn-peer-add" name "success" "info" (set_vpn c a), status 200)

unfoldable pub add_keyed :
    Outside
    → NewPeer
    → (name address : String) → Option (String × String)
    → VpnApp
    → VpnApp × Answer
unfolding settle_peer apply_vpn get_vpn new_peer generate_client_conf validate
add_keyed o i name address none a = (a, status 500)
add_keyed o i name address (some (priv, public)) a =
    let p = new_peer o i name address public in
    let next = add_peer p (get_vpn a) in
    if not (validate next)
    then (a, status 400)
    else settle_peer o next (generate_client_conf next priv p) name (apply_vpn o next) a

unfoldable pub add_at :
    Outside → NewPeer → (name : String) → Result String → VpnApp → VpnApp × Answer
unfolding add_keyed
add_at o i name failed a = (a, status 409)
add_at o i name panicked a = (a, no_answer)
add_at o i name (ok address) a = add_keyed o i name address o.keypair a

-- `apiVPNPeerAdd`
unfoldable pub api_vpn_peer_add : Outside → NewPeer → VpnApp → VpnApp × Answer
unfolding get_vpn add_at allocate_address
api_vpn_peer_add o i a =
    let c = get_vpn a in
    let name = o.to_lower (trim_space i.name) in
    if not c.enabled || str_eq c.server_pub ""
    then (a, status 409)
    else if any (λ p. str_eq p.name name) c.peers
    then (a, status 409)
    else add_at o i name (allocate_address c) a

abbrev pub without_peer : String → VpnConfig → VpnConfig
without_peer name c = record c { peers = keep (λ p. not (str_eq p.name name)) c.peers }

-- The end of `apiVPNPeerDelete`
unfoldable pub settle_delete :
    Outside → VpnConfig → (name : String) → Result {0} Unit → VpnApp → VpnApp × Answer
unfolding record_event set_vpn
settle_delete o c name failed a = (a, status 502)
settle_delete o c name panicked a = (a, no_answer)
settle_delete o c name (ok _) a =
    if not o.saves
    then (set_vpn c a, status 500)
    else (record_event o "vpn-peer-delete" name "success" "warning" (set_vpn c a), status 200)

-- `apiVPNPeerDelete`
unfoldable pub api_vpn_peer_delete : Outside → String → VpnApp → VpnApp × Answer
unfolding get_vpn settle_delete apply_vpn
api_vpn_peer_delete o name a =
    let c = get_vpn a in
    let next = without_peer name c in
    if not (any (λ p. str_eq p.name name) c.peers)
    then (a, status 404)
    else settle_delete o next name (if c.enabled then apply_vpn o next else ok tt) a
