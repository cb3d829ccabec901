-- ===== src/OpenVpn/Requests.antt =====
-- cmd/saguaro/openvpn.go: the handlers that change the configuration of OpenVPN. Each holds the lock
-- `mutateMu` from its reading of the configuration on, so they run one after the other.
use Prim.Native.String.{len}
use sgsu.Prelude.{
  ℕ, Bool, true, false, not, ◌&&◌, ◌||◌, Option, none, some, String, List, [], ◌∷◌, ◌++◌, str_eq,
  ltb, leb, ◌==◌, if◌then◌else◌, any, all, map, take, length,
}
use sgsu.Prelude.Integers.{ℤ, pos, negsuc}
use sgsu.Prelude.Text.{codes, is_lower, is_digit}
use sgsu.Prelude.Net.{parse_ip, parse_cidr}
use sgsu.App.{Event}
use sgsu.Firewall.{Alias, is_some}
use sgsu.Firewall.Objects.{listed}
use sgsu.Vpn.{Result, ok, failed, panicked}
use sgsu.Vpn.Requests.{Answer, status, no_answer}
use sgsu.OpenVpn.{AccessRule, Client, OvpnConfig, validate, next_free_addr}

-- The part of the state that the handlers change
pub record OvpnApp : Type 0 where
  pub openvpn : Option OvpnConfig
  pub audit : List Event

-- The certificates and sealed keys of a server
pub record Pki : Type 0 where
  pub ca_cert : String
  pub ca_key : String
  pub server_cert : String
  pub server_key : String
  pub tls_crypt : String

-- What one request meets outside: whether the root adapter disables the server; whether the keys can
-- be opened, the files written and the adapter run; whether state.json can be written; the secret key;
-- a new PKI, or none where it cannot be made or sealed; whether there is a gateway, its client network
-- and its aliases, and whether its rules can be applied; whether the key of the CA and that of tls-crypt
-- can be opened; the serial and certificate of a new client and the hash of its password; the end of
-- its certificate, which follows the calendar; the time, who asks and from where.
pub record Outer : Type 0 where
  pub disables : Bool
  pub stages : Bool
  pub saves : Bool
  pub has_key : Bool
  pub pki : Option Pki
  pub has_gateway : Bool
  pub client_network : String
  pub aliases : List Alias
  pub syncs : Bool
  pub opens_ca : Bool
  pub opens_tls : Bool
  pub signed : Option (String × String)
  pub hashed : Option String
  pub not_after : ℕ
  pub now : ℕ
  pub actor : String
  pub remote_ip : String

-- `recordSev` up to what it forwards outside
unfoldable pub note_event : Outer → (action target result severity : String) → OvpnApp → OvpnApp
note_event o action target result severity a = record a {
  audit = take 5000 (
      record {
        time = o.now;
        severity = severity;
        actor = o.actor;
        action = action;
        target = target;
        result = result;
        remote_ip = o.remote_ip;
      }
      ∷ a.audit);
}

abbrev pub default_ovpn : OvpnConfig
default_ovpn = record {
  enabled = false;
  subnet = "10.9.0.0/24";
  port = pos 1194;
  endpoint = "";
  dns = "";
  split_networks = [];
  ca_cert_pem = "";
  ca_key_enc = "";
  server_cert_pem = "";
  server_key_enc = "";
  tls_crypt_enc = "";
  clients = [];
}

abbrev pub or_default : Option OvpnConfig → OvpnConfig
or_default none = default_ovpn
or_default (some c) = c

-- `getOpenVPN`
unfoldable pub get_ovpn : OvpnApp → OvpnConfig
get_ovpn a = or_default a.openvpn

-- `setOpenVPN`: the state in memory changes also where the file cannot be written.
unfoldable pub set_ovpn : OvpnConfig → OvpnApp → OvpnApp
set_ovpn c a = record a { openvpn = some c }

-- The body of `apiOpenVPNApply`
pub record OvpnSettings : Type 0 where
  pub enabled : Bool
  pub subnet : String
  pub port : ℤ
  pub endpoint : String
  pub dns : String
  pub split_networks : List String

abbrev split_or_lan : Outer → List String → List String
split_or_lan o (n ∷ ns) = n ∷ ns
split_or_lan o [] =
    if o.has_gateway && not (str_eq o.client_network "") then o.client_network ∷ [] else []

-- The configuration with the settings of a request
unfoldable pub with_ovpn_settings : Outer → OvpnSettings → OvpnConfig → OvpnConfig
with_ovpn_settings o s c = record c {
  enabled = s.enabled;
  subnet = s.subnet;
  port = s.port;
  endpoint = s.endpoint;
  dns = s.dns;
  split_networks = split_or_lan o s.split_networks;
}

abbrev pub no_clients : List Client → Bool
no_clients [] = true
no_clients _ = false

-- `stageAndApplyOpenVPN`, whether it succeeds
unfoldable pub stage_and_apply : Outer → OvpnConfig → Bool
stage_and_apply o c = validate c && o.stages

abbrev pub made_pki : OvpnConfig → Option Pki → Option OvpnConfig
made_pki c none = none
made_pki c (some k) = some (record c {
  ca_cert_pem = k.ca_cert;
  ca_key_enc = k.ca_key;
  server_cert_pem = k.server_cert;
  server_key_enc = k.server_key;
  tls_crypt_enc = k.tls_crypt;
})

-- The configuration with its certificates, which are made once
unfoldable pub with_pki : Outer → OvpnConfig → Option OvpnConfig
with_pki o c = if str_eq c.ca_cert_pem "" then made_pki c o.pki else some c

-- The end of `apiOpenVPNApply` of a server that is switched off
unfoldable pub apply_disabled : Outer → OvpnConfig → OvpnApp → OvpnApp × Answer
unfolding set_ovpn note_event
apply_disabled o c a =
    if not o.disables
    then (a, status 502)
    else (note_event o "openvpn-config" "openvpn" "success" "warning" (set_ovpn c a), status 200)

abbrev synced : Outer → OvpnApp → OvpnApp
synced o a =
    if o.has_gateway && not o.syncs
    then note_event o "openvpn-fwsync" "nftables" "failed" "warning" a
    else a

-- The end of `apiOpenVPNApply` of a server that is switched on
unfoldable pub apply_enabled : Outer → Option OvpnConfig → OvpnApp → OvpnApp × Answer
unfolding set_ovpn note_event stage_and_apply
apply_enabled o none a = (a, status 500)
apply_enabled o (some c) a =
    if not (stage_and_apply o c)
    then (note_event o "openvpn-config" "openvpn" "failed" "security" a, status 502)
    else if not o.saves
    then (set_ovpn c a, status 500)
    else (
      note_event o "openvpn-config" "openvpn" "success" "security" (synced o (set_ovpn c a)),
      status 200,
    )

-- `apiOpenVPNApply`
unfoldable pub api_openvpn_apply : Outer → OvpnSettings → OvpnApp → OvpnApp × Answer
unfolding get_ovpn with_ovpn_settings with_pki apply_disabled apply_enabled
api_openvpn_apply o s a =
    let c = get_ovpn a in
    let next = with_ovpn_settings o s c in
    if not (no_clients c.clients)
      && (not (str_eq c.subnet "") && (not (str_eq s.subnet "") && not (str_eq s.subnet c.subnet)))
    then (a, status 409)
    else if not (validate next)
    then (a, status 400)
    else if not s.enabled
    then apply_disabled o next a
    else if not o.has_key
    then (a, status 500)
    else apply_enabled o (with_pki o next) a

abbrev is_client_char : ℕ → Bool
is_client_char c = is_lower c || is_digit c || c == b'.' || c == b'_' || c == b'-'

abbrev is_client_end : ℕ → Bool
is_client_end c = is_lower c || is_digit c

abbrev inner_ok : List ℕ → Bool
inner_ok [] = false
inner_ok (c ∷ []) = is_client_end c
inner_ok (c ∷ cs) = is_client_char c && inner_ok cs

-- `nameRe` of the package
unfoldable pub valid_client_name : String → Bool
valid_client_name s = elim (codes s) [
  | [] ↦ false
  | c ∷ cs ↦ elim cs [
    | [] ↦ is_client_end c
    | d ∷ ds ↦ is_client_end c && (leb (length (d ∷ ds)) 31 && inner_ok (d ∷ ds))
  ]
]

-- A client of this name that is not revoked
abbrev pub is_active : String → Client → Bool
is_active name c = str_eq c.name name && not c.revoked

abbrev pub add_client : Client → OvpnConfig → OvpnConfig
add_client p c = record c { clients = c.clients ++ (p ∷ []) }

-- The end of `apiOpenVPNAddClient`: the client is stored before the server is told.
unfoldable pub store_client : Outer → OvpnConfig → OvpnApp → OvpnApp × Answer
unfolding set_ovpn note_event stage_and_apply
store_client o c a =
    if not o.saves
    then (set_ovpn c a, status 500)
    else if c.enabled && not (stage_and_apply o c)
    then (set_ovpn c a, status 502)
    else if not o.opens_tls
    then (set_ovpn c a, status 500)
    else (
      note_event o "openvpn-client-add" "openvpn" "success" "security" (set_ovpn c a),
      status 200,
    )

abbrev pub new_client : Outer → (name : String) → (serial cert phc address : String) → Client
new_client o name serial cert phc address = record {
  name = name;
  serial = serial;
  cert_pem = cert;
  pass_hash = phc;
  vpn_addr = address;
  access = [];
  revoked = false;
  created_at = o.now;
  expires_at = o.not_after;
}

unfoldable pub add_addressed :
    Outer → (name serial cert phc : String) → Result String → OvpnApp → OvpnApp × Answer
unfolding store_client get_ovpn
add_addressed o name serial cert phc (ok address) a =
    store_client o (add_client (new_client o name serial cert phc address) (get_ovpn a)) a
add_addressed o name serial cert phc failed a = (a, no_answer)
add_addressed o name serial cert phc panicked a = (a, no_answer)

unfoldable pub add_signed :
    Outer → (name : String) → Option (String × String) → Option String → OvpnApp → OvpnApp × Answer
unfolding add_addressed get_ovpn
add_signed o name none phc a = (a, status 400)
add_signed o name (some _) none a = (a, status 500)
add_signed o name (some (serial, cert)) (some phc) a =
    add_addressed o name serial cert phc (next_free_addr (get_ovpn a)) a

-- `apiOpenVPNAddClient`
unfoldable pub api_openvpn_add_client :
    Outer → (name password : String) → OvpnApp → OvpnApp × Answer
unfolding get_ovpn add_signed
api_openvpn_add_client o name password a =
    let c = get_ovpn a in
    if ltb (len password) 8
    then (a, status 400)
    else if str_eq c.ca_cert_pem ""
    then (a, status 409)
    else if any (is_active name) c.clients
    then (a, status 409)
    else if not o.opens_ca
    then (a, status 500)
    else add_signed o name (if valid_client_name name then o.signed else none) o.hashed a

abbrev access_port_ok : ℤ → Bool
access_port_ok (pos n) = leb n 65535
access_port_ok (negsuc n) = false

-- A rule of `apiOpenVPNClientAccess`
unfoldable pub access_rule_ok : Outer → AccessRule → Bool
access_rule_ok o r =
    (if not (str_eq r.dest_alias "")
      then o.has_gateway && listed r.dest_alias (map (λ al. al.name) o.aliases)
      else is_some (parse_ip r.dest) || is_some (parse_cidr r.dest))
    && ((str_eq r.proto "any" || str_eq r.proto "tcp" || str_eq r.proto "udp")
        && access_port_ok r.port)

abbrev pub set_access : String → List AccessRule → Client → Client
set_access name rules c = if is_active name c then record c { access = rules } else c

abbrev pub with_access : String → List AccessRule → OvpnConfig → OvpnConfig
with_access name rules c = record c { clients = map (set_access name rules) c.clients }

-- `apiOpenVPNClientAccess`
unfoldable pub api_openvpn_client_access :
    Outer → (name : String) → List AccessRule → OvpnApp → OvpnApp × Answer
unfolding get_ovpn set_ovpn note_event access_rule_ok
api_openvpn_client_access o name rules a =
    let c = get_ovpn a in
    let next = with_access name rules c in
    if not (all (access_rule_ok o) rules)
    then (a, status 400)
    else if not (any (is_active name) c.clients)
    then (a, status 404)
    else if not o.saves
    then (set_ovpn next a, status 500)
    else (
      note_event o "openvpn-client-access" "openvpn" "success" "security" (set_ovpn next a),
      status 200,
    )

abbrev pub revoke : String → Client → Client
revoke name c = if is_active name c then record c { revoked = true } else c

abbrev pub without_client : String → OvpnConfig → OvpnConfig
without_client name c = record c { clients = map (revoke name) c.clients }

-- `apiOpenVPNDelClient`: the revocation is stored after the server was told.
unfoldable pub api_openvpn_del_client : Outer → (name : String) → OvpnApp → OvpnApp × Answer
unfolding get_ovpn set_ovpn note_event stage_and_apply
api_openvpn_del_client o name a =
    let c = get_ovpn a in
    let next = without_client name c in
    if not (any (is_active name) c.clients)
    then (a, status 404)
    else if c.enabled && not (stage_and_apply o next)
    then (a, status 502)
    else if not o.saves
    then (set_ovpn next a, status 500)
    else (
      note_event o "openvpn-client-revoke" "openvpn" "success" "security" (set_ovpn next a),
      status 200,
    )

-- One request
pub data OvpnCall : Type 0 where
  configure : OvpnSettings → OvpnCall
  add : (name password : String) → OvpnCall
  limit : (name : String) → List AccessRule → OvpnCall
  drop_client : (name : String) → OvpnCall

unfoldable pub ovpn_step : Outer → OvpnCall → OvpnApp → OvpnApp × Answer
ovpn_step o (configure s) a = api_openvpn_apply o s a
ovpn_step o (add name password) a = api_openvpn_add_client o name password a
ovpn_step o (limit name rules) a = api_openvpn_client_access o name rules a
ovpn_step o (drop_client name) a = api_openvpn_del_client o name a

-- The state after a sequence of requests
unfoldable pub ovpn_run : List (Outer × OvpnCall) → OvpnApp → OvpnApp
unfolding ovpn_step
ovpn_run [] a = a
ovpn_run ((o, call) ∷ more) a = ovpn_run more (ovpn_step o call a).0
