-- ===== src/Login/Outcomes.antt =====
-- What the answer of `login` says about the request and the state that is left.
use sgsu.Prelude.{
  List, [], ◌∷◌, map, keep, str_eq, ◌⊎◌, true, false, not, ◌||◌, Option, none, some, ◌≡◌, ◌≢◌, inl,
  inr, refl, sym, ap, ◌∙◌, arith, Option-cases, Bool-cases,
}
use sgsu.Prelude.Text.{trim_space}
use sgsu.Limiter.{check, success}
use sgsu.Users.{User, UserStore, UserLaws}
use sgsu.Sessions.{Session, SessionStore}
use sgsu.App.{App, Caller, Request, Primitives, record_sev, record_info}
use sgsu.Auth.{role_allows, sessions_revoke}
use sgsu.Login.{
  visible_sessions, view_session, caller_user, Credentials, Draw, ip_key, user_key, accepted,
  login_denied, new_session, login_accepted, login_unlocked, login,
}

module _ {U : UserStore} {S : SessionStore} (P : Primitives) where
  -- A request whose address or name is locked is refused with the status 429.
  pub login_locked :
      (a : App U S) (i : Credentials) (d : Draw) (r : Request)
      → ((check a.ip_limiter (ip_key r) r.now).0 ≡ true)
        ⊎ ((check a.user_limiter (user_key i) r.now).0 ≡ true)
      → (login P (some i) d r a).1 ≡ 429
  unfolding login
  login_locked a i d r h = ground arith

  accepted_parts :
      (a : App U S) (i : Credentials) (found : Option User) (u : User)
      → accepted P a i found ≡ some u
      → (found ≡ some u) × (u.enabled ≡ true) × (P.verify_password i.password u.phc ≡ true)
  unfolding accepted
  accepted_parts a i none u h = cc
  accepted_parts a i (some v) u h =
      elim (Bool-cases (not (P.verify_password i.password v.phc) || not v.enabled)) [
        | inl bad ↦ let no : ⊥ = ground arith in absurd no
        | inr good ↦ let same : v ≡ u = ground arith in (ap some same, ground arith, ground arith)
      ]

  denied_status : (i : Credentials) (r : Request) (a : App U S) → (login_denied P i r a).1 ≢ 200
  unfolding login_denied
  denied_status i r a h = ground arith

-- What a login that is answered 200 went through, with the state that it leaves
pub record Opened {U : UserStore} {S : SessionStore} (P : Primitives) (L : UserLaws U)
    (i : Credentials) (d : Draw) (r : Request) (a a' : App U S) : Type 0 where
  pub user : User
  pub address_free : (check a.ip_limiter (ip_key r) r.now).0 ≡ false
  pub name_free : (check a.user_limiter (user_key i) r.now).0 ≡ false
  pub account : L.rows a.users (P.to_lower (trim_space i.username)) ≡ some user
  pub enabled : user.enabled ≡ true
  pub password : P.verify_password i.password user.phc ≡ true
  pub created : (S.create a.sessions (new_session P a r user d)).1 ≡ true
  pub sessions : a'.sessions ≡ (S.create a.sessions (new_session P a r user d)).0
  pub users : a'.users ≡ a.users
  pub ip_limiter : a'.ip_limiter ≡ success a.ip_limiter (ip_key r)
  pub user_limiter : a'.user_limiter ≡ success a.user_limiter (user_key i)

module _ {U : UserStore} {S : SessionStore} (P : Primitives) (L : UserLaws U) where
  opened :
      (a : App U S) (i : Credentials) (d : Draw) (r : Request) (u : User)
      → (check a.ip_limiter (ip_key r) r.now).0 ≡ false
      → (check a.user_limiter (user_key i) r.now).0 ≡ false
      → L.rows a.users (P.to_lower (trim_space i.username)) ≡ some u
      → (u.enabled ≡ true) × (P.verify_password i.password u.phc ≡ true)
      → (login_accepted P i d r a u).1 ≡ 200
      → Opened P L i d r a (login_accepted P i d r a u).0
  unfolding login_accepted record_info record_sev
  opened a i d r u free_ip free_name at (on, good) h =
      let done : (S.create a.sessions (new_session P a r u d)).1 ≡ true = ground arith in
      record {
        user = u;
        address_free = free_ip;
        name_free = free_name;
        account = at;
        enabled = on;
        password = good;
        created = done;
        sessions = rw (done);
        users = rw (done);
        ip_limiter = rw (done);
        user_limiter = rw (done);
      }

  unlocked_opens :
      (a : App U S) (i : Credentials) (d : Draw) (r : Request) (got : Option (Option User))
      → U.get a.users (P.to_lower (trim_space i.username)) ≡ got
      → (check a.ip_limiter (ip_key r) r.now).0 ≡ false
      → (check a.user_limiter (user_key i) r.now).0 ≡ false
      → (login_unlocked P i d r a got).1 ≡ 200
      → Opened P L i d r a (login_unlocked P i d r a got).0
  unfolding login_unlocked
  unlocked_opens a i d r none e free_ip free_name h = let no : ⊥ = ground arith in absurd no
  unlocked_opens a i d r (some found) e free_ip free_name h =
      elim (Option-cases (accepted P a i found)) [
        | inl no_one ↦
            let no_same : login_unlocked P i d r a (some found) ≡ login_denied P i r a =
              rw (no_one, login_unlocked) in
            absurd (denied_status P i r a (ap (λ o. o.1) (sym no_same) ∙ h))
        | inr (u, ok) ↦
            let (is_u, on, good) = accepted_parts P a i found u ok in
            rw (ok, login_unlocked)
              (opened a i d r u free_ip free_name (sym (L.get_rows a.users _ found e) ∙ is_u)
                (on, good) (rw (ok, login_unlocked) at h))
      ]

  -- Over a user store that keeps its laws: a login that is answered 200 came from an address and
  -- for a name that were not locked, named an enabled account, up to case and surrounding space,
  -- and gave its password. It has stored a new session of that account and cleared the failures of
  -- the address and of the name, and no account has changed.
  pub login_opens :
      (a : App U S) (i : Credentials) (d : Draw) (r : Request)
      → (login P (some i) d r a).1 ≡ 200
      → Opened P L i d r a (login P (some i) d r a).0
  unfolding login
  login_opens a i d r h = elim (Bool-cases (check a.ip_limiter (ip_key r) r.now).0) [
    | inl locked ↦ let no : ⊥ = ground arith in absurd no
    | inr free_ip ↦ elim (Bool-cases (check a.user_limiter (user_key i) r.now).0) [
      | inl locked ↦ let no : ⊥ = ground arith in absurd no
      | inr free_name ↦
          rw (free_ip, free_name)
            (unlocked_opens a i d r (U.get a.users (P.to_lower (trim_space i.username))) refl
              free_ip free_name (rw (free_ip, free_name) at h))
    ]
  ]

-- The sessions that `listSessions` shows are, in the order of the store, all for a caller who may
-- revoke sessions and those of the caller's own name for any other.
pub visible_sessions_lem :
    (c : Caller) (ss : List Session)
    → visible_sessions c ss
      ≡ map (view_session c) (
          keep
            (λ s.
              role_allows (caller_user c).role sessions_revoke
              || str_eq s.username (caller_user c).username)
            ss)
unfolding visible_sessions
visible_sessions_lem c [] = refl
visible_sessions_lem c (s ∷ ss) = ground (arith, visible_sessions_lem c ss)
