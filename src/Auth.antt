-- ===== src/Auth.antt =====
-- cmd/saguaro/main.go and authz.go: who may call a handler. `auth` resolves a bearer token or a
-- session cookie to a live user, and `authz` asks for a permission of that user's role.
pub mod Gate
pub mod Refusals
use Prim.Native.String
use sgsu.Prelude.{
  ℕ, Bool, true, false, not, ◌&&◌, ◌||◌, Option, none, some, String, List, str_eq, ltb,
  if◌then◌else◌,
}
use sgsu.Users.{
  User, UserStore, role_admin, role_network_operator, role_dns_operator, role_auditor,
  role_read_only,
}
use sgsu.Sessions.{Session, SessionStore}
use sgsu.App.{App, Request, Caller, Primitives, Status, record_sev, record_info}
use sgsu.Tokens.{bearer_token, authenticate_token}

-- The permission keys
pub data Permission : Type 0 where
  dns_write dhcp_write service_check service_control mail_write users_write sessions_revoke
        firewall_write proxy_write certs_write backup_write packages_write power_control
        config_restore :
      Permission

abbrev permission_key : Permission → String
permission_key dns_write = "dns:write"
permission_key dhcp_write = "dhcp:write"
permission_key service_check = "service:check"
permission_key service_control = "service:control"
permission_key mail_write = "mail:write"
permission_key users_write = "users:write"
permission_key sessions_revoke = "sessions:revoke"
permission_key firewall_write = "firewall:write"
permission_key proxy_write = "proxy:write"
permission_key certs_write = "certs:write"
permission_key backup_write = "backup:write"
permission_key packages_write = "packages:write"
permission_key power_control = "power:control"
permission_key config_restore = "config:restore"

abbrev operator_allows : Permission → Bool
operator_allows dhcp_write = true
operator_allows service_check = true
operator_allows service_control = true
operator_allows firewall_write = true
operator_allows proxy_write = true
operator_allows _ = false

abbrev dns_allows : Permission → Bool
dns_allows dns_write = true
dns_allows service_check = true
dns_allows _ = false

-- `roleAllows`, the table `rolePermissions` read at a role; a role that is not in it has no entry
unfoldable pub role_allows : String → Permission → Bool
role_allows role perm =
    if str_eq role role_admin
    then true
    else if str_eq role role_network_operator
    then operator_allows perm
    else if str_eq role role_dns_operator
    then dns_allows perm
    else false

-- Whether `rolePermissions` has an entry for the role
unfoldable pub known_role : String → Bool
known_role r =
    str_eq r role_admin
    || str_eq r role_network_operator
    || str_eq r role_dns_operator
    || str_eq r role_auditor
    || str_eq r role_read_only

-- Whether a request cannot change anything, so that it needs no CSRF token
abbrev pub is_safe_method : Request → Bool
is_safe_method r = str_eq r.method "GET" || str_eq r.method "HEAD" || str_eq r.method "OPTIONS"

-- `mustChangeAllowed`
unfoldable pub must_change_allowed : Request → Bool
must_change_allowed r =
    (str_eq r.method "GET" && str_eq r.path "/api/profile")
    || (str_eq r.method "POST" && str_eq r.path "/api/profile/password")
    || (str_eq r.method "POST" && str_eq r.path "/api/logout")

-- What `auth` decides: an answer of its own, or a call of the handler.
pub data Decision : Type 0 where
  deny : Status → Decision
  pass : Caller → Decision

-- The comparison of the CSRF header with the session's hash
abbrev pub csrf_ok : Primitives → Request → Session → Bool
csrf_ok P r s =
    not (str_eq r.csrf_header "")
    && not (str_eq s.csrf_hash "")
    && str_eq (P.hash_token r.csrf_header) s.csrf_hash

module _ {U : UserStore} {S : SessionStore} where
  -- `authz`, inside `auth`: the check of the permission
  unfoldable pub permit :
      Permission
      → (App U S → Caller → App U S × Status)
      → Request
      → App U S
      → Caller
      → App U S × Status
  permit perm next r a c = elim c.user [
    | none ↦ (a, 401)
    | some u ↦ if role_allows u.role perm then next a c else (
      record_sev a r u.username "authz-deny"
          (String.◌++◌ (permission_key perm) (String.◌++◌ " " r.path)) "denied" "security",
      403,
    )
  ]

module _ {U : UserStore} {S : SessionStore} (P : Primitives) where
  open P use {hash_token}

  -- `resolveUser`; a failed lookup counts as no user
  unfoldable pub resolve_user : App U S → String → Option User
  resolve_user a username = elim (U.get a.users username) [
    | none ↦ none
    | some none ↦ none
    | some (some u) ↦ if u.enabled then some u else none
  ]

  -- A failed deletion of a session is only logged.
  abbrev pub drop_session : App U S → String → App U S
  drop_session a hash = record a { sessions = (S.delete a.sessions hash).0 }

  -- The last part of `auth`: the account behind a valid session
  unfoldable pub auth_user : App U S → Request → String → Session → App U S × Decision
  unfolding resolve_user must_change_allowed
  auth_user a r hash s = elim (resolve_user a s.username) [
    | none ↦ (drop_session a hash, deny 401)
    | some u ↦
        if u.must_change_password && not (must_change_allowed r)
        then (a, deny 403)
        else (a, pass (record { user = some u; session = hash; by_token = false }))
  ]

  -- `auth` from the point where the session of the cookie has been looked up
  unfoldable pub auth_session : App U S → Request → String → Option Session → App U S × Decision
  unfolding auth_user
  auth_session a r hash none = (a, deny 401)
  auth_session a r hash (some s) =
      if ltb s.expires_at r.now
      then (drop_session a hash, deny 401)
      else if not (is_safe_method r) && not (csrf_ok P r s)
      then (record_sev a r s.username "csrf-reject" r.path "denied" "security", deny 403)
      else auth_user a r hash s

  unfoldable pub auth_cookie : App U S → Request → App U S × Decision
  unfolding auth_session
  auth_cookie a r = elim r.cookie [
    | none ↦ (a, deny 401)
    | some value ↦ elim (S.get a.sessions (hash_token value)) [
      | none ↦ (a, deny 500)
      | some found ↦ auth_session a r (hash_token value) found
    ]
  ]

  unfoldable pub auth_token : App U S → Request → String → App U S × Decision
  auth_token a r secret =
      let (toks, user) = authenticate_token P a.tokens secret r.now in
      let a' = record a { tokens = toks } in
      elim user [
        | none ↦ (record_sev a' r "token" "token-reject" r.path "denied" "security", deny 401)
        | some u ↦ (a', pass (record { user = some u; session = ""; by_token = true }))
      ]

  -- `auth`
  unfoldable pub auth : App U S → Request → App U S × Decision
  unfolding auth_cookie auth_token
  auth a r =
      let secret = bearer_token r.authorization in
      if str_eq secret "" then auth_cookie a r else auth_token a r secret

  -- A handler that `auth` guards
  unfoldable pub with_auth :
      (App U S → Caller → App U S × Status) → App U S → Request → App U S × Status
  unfolding auth
  with_auth next a r = elim (auth a r).1 [
    | deny st ↦ ((auth a r).0, st)
    | pass c ↦ next (auth a r).0 c
  ]

  -- `authz`
  unfoldable pub authz :
      Permission → (App U S → Caller → App U S × Status) → App U S → Request → App U S × Status
  unfolding permit with_auth
  authz perm next a r = with_auth (permit perm next r) a r
