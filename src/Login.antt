-- ===== src/Login.antt =====
-- cmd/saguaro/main.go: `login`, `logout` and the handlers of sessions.
pub mod Outcomes
pub mod Lockout
use Prim.Native.String
use sgsu.Prelude.{
  ℕ, zero, suc, ◌+◌, ◌/◌, Bool, true, false, not, ◌&&◌, ◌||◌, Option, none, some, String, List, [],
  ◌∷◌, str_eq, ltb, if◌then◌else◌, keep, map,
}
use sgsu.Prelude.Text.{trim_space}
use sgsu.Limiter.{Limiter, check, fail, success}
use sgsu.Users.{User, UserStore}
use sgsu.Sessions.{Session, SessionStore, session_id}
use sgsu.App.{App, Request, Caller, Primitives, Status, record_sev, record_info, actor}
use sgsu.Auth.{role_allows, sessions_revoke}

-- The body of a login
pub record Credentials : Type 0 where
  pub username : String
  pub password : String

-- The two random tokens that a successful login draws
pub record Draw : Type 0 where
  pub token : String
  pub csrf : String

-- What `listSessions` shows of a session
pub record SessionView : Type 0 where
  pub id : String
  pub username : String
  pub created_at : ℕ
  pub expires_at : ℕ
  pub remote_ip : String
  pub current : Bool

-- `maxDuration`
abbrev pub max_duration : ℕ → ℕ → ℕ
max_duration a b = if ltb b a then a else b

-- The keys of the two limiters
abbrev pub ip_key : Request → String
ip_key r = String.◌++◌ "ip:" r.remote_ip

abbrev pub user_key : Credentials → String
user_key i = String.◌++◌ "user:" i.username

module _ {U : UserStore} {S : SessionStore} (P : Primitives) where
  -- The account that a login may open: found, enabled, and with the password. An unknown name is
  -- verified against the dummy hash all the same.
  unfoldable pub accepted : App U S → Credentials → Option User → Option User
  accepted a i found =
      let phc : String = elim found [ none ↦ a.dummy_phc | some u ↦ u.phc ] in
      elim found [
        | none ↦ none
        | some u ↦ if not (P.verify_password i.password phc) || not u.enabled then none else some u
      ]

  -- The branch of bad credentials: both limiters count, and a lock that this triggers is answered
  -- 429
  unfoldable pub login_denied : Credentials → Request → App U S → App U S × Status
  login_denied i r a =
      let (ip_limiter, lock_ip) = fail a.ip_limiter (ip_key r) r.now in
      let (user_limiter, lock_user) = fail a.user_limiter (user_key i) r.now in
      let a' =
        record_info (record a { ip_limiter = ip_limiter; user_limiter = user_limiter }) r i.username
          "login" "control-plane" "denied" in
      if ltb 0 (max_duration lock_ip lock_user)
      then (record_sev a' r i.username "login-lockout" "control-plane" "locked" "security", 429)
      else (a', 401)

  -- The session that a login creates
  unfoldable pub new_session : App U S → Request → User → Draw → Session
  unfolding session_id
  new_session a r u d =
      let hash = P.hash_token d.token in
      record {
        token_hash = hash;
        id = session_id hash;
        username = u.username;
        created_at = r.now;
        expires_at = r.now + a.session_ttl;
        remote_ip = r.remote_ip;
        csrf_hash = P.hash_token d.csrf;
      }

  -- The branch of good credentials
  unfoldable pub login_accepted : Credentials → Draw → Request → App U S → User → App U S × Status
  login_accepted i d r a u =
      let (sessions, done) = S.create a.sessions (new_session a r u d) in
      let a' = record a {
        ip_limiter = success a.ip_limiter (ip_key r);
        user_limiter = success a.user_limiter (user_key i);
        sessions = sessions;
      } in
      if done
      then (record_info a' r u.username "login" "control-plane" "success", 200)
      else (a', 500)

  -- `login` after the two checks of the limiters
  unfoldable pub login_unlocked :
      Credentials → Draw → Request → App U S → Option (Option User) → App U S × Status
  login_unlocked i d r a none = (a, 500)
  login_unlocked i d r a (some found) = elim (accepted a i found) [
    | none ↦ login_denied i r a
    | some u ↦ login_accepted i d r a u
  ]

  -- `login`
  unfoldable pub login : Option Credentials → Draw → Request → App U S → App U S × Status
  login none d r a = (a, 400)
  login (some i) d r a =
      if (check a.ip_limiter (ip_key r) r.now).0
      then (a, 429)
      else if (check a.user_limiter (user_key i) r.now).0
      then (a, 429)
      else login_unlocked i d r a (U.get a.users (P.to_lower (trim_space i.username)))

  -- `logout`; a failed deletion is only logged
  unfoldable pub logout : Request → App U S → Caller → App U S × Status
  logout r a c = elim r.cookie [
    | none ↦ (a, 200)
    | some value ↦ (record a { sessions = (S.delete a.sessions (P.hash_token value)).0 }, 200)
  ]

-- The caller's record, and the empty one where the context has none
abbrev pub caller_user : Caller → User
caller_user c = elim c.user [
  | none ↦ record {
    username = "";
    phc = "";
    role = "";
    enabled = false;
    created_at = 0;
    must_change_password = false;
  }
  | some u ↦ u
]

-- The view of a session
abbrev pub view_session : Caller → Session → SessionView
view_session c s = record {
  id = s.id;
  username = s.username;
  created_at = s.created_at;
  expires_at = s.expires_at;
  remote_ip = s.remote_ip;
  current = str_eq s.token_hash c.session;
}

-- The loop of `listSessions`
unfoldable pub visible_sessions : Caller → List Session → List SessionView
visible_sessions c [] = []
visible_sessions c (s ∷ ss) =
    let me = caller_user c in
    let rest = visible_sessions c ss in
    if not (role_allows me.role sessions_revoke) && not (str_eq s.username me.username)
    then rest
    else view_session c s ∷ rest

module _ {U : UserStore} {S : SessionStore} where
  -- `listSessions`: the status, and the views where it is 200
  unfoldable pub list_sessions : App U S → Caller → Status × List SessionView
  unfolding visible_sessions
  list_sessions a c = elim (S.list a.sessions) [
    | none ↦ (500, [])
    | some ss ↦ (200, visible_sessions c ss)
  ]

  -- `revokeSession`
  unfoldable pub revoke_session : String → Request → App U S → Caller → App U S × Status
  revoke_session id r a c =
      let (sessions, removed) = S.delete_by_id a.sessions id in
      let a' = record a { sessions = sessions } in
      elim removed [
        | none ↦ (a', 500)
        | some false ↦ (a', 404)
        | some true ↦ (record_info a' r (actor a' c) "session-revoke" id "success", 200)
      ]
