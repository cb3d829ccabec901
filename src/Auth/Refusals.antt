-- ===== src/Auth/Refusals.antt =====
-- What `auth` and `authz` do with the requests that they refuse.
use sgsu.Prelude.{
  ◌<◌, true, false, not, ◌&&◌, none, some, String, str_eq, ◌≡◌, ◌⊎◌, inl, inr, refl, arith,
  Option-cases, Bool-cases, eq_iff, eq_refl, if◌then◌else◌, ap, ◌∙◌,
}
use sgsu.Users.{role_admin, User, UserStore}
use sgsu.Sessions.{Session, SessionStore, SessionLaws}
use sgsu.App.{App, Request, Caller, Primitives, Status, record_sev}
use sgsu.Tokens.{bearer_token}
use sgsu.Auth.{
  Permission, users_write, sessions_revoke, role_allows, Decision, deny, pass, csrf_ok,
  is_safe_method, resolve_user, drop_session, auth_user, auth_session, auth_cookie, auth_token,
  auth, with_auth, permit, authz,
}

Decision-cases : (d : Decision) → ((st : Status) × (d ≡ deny st)) ⊎ ((c : Caller) × (d ≡ pass c))
Decision-cases (deny st) = inl (st, refl)
Decision-cases (pass c) = inr (c, refl)

admin_only :
    {role : String} {p : Permission}
    → (p ≡ users_write) ⊎ (p ≡ sessions_revoke)
    → role_allows role p ≡ true
    → role ≡ role_admin
unfolding role_allows
admin_only {role} (inl e) h =
    let h' : role_allows role users_write ≡ true = rw (e) at h in
    ground (arith, eq_iff role "admin")
admin_only {role} (inr e) h =
    let h' : role_allows role sessions_revoke ≡ true = rw (e) at h in
    ground (arith, eq_iff role "admin")

-- The permissions to manage accounts and sessions are the administrator's alone, and whatever a
-- role may do, the administrator may do.
pub role_allows_admin :
    (role : String) (p : Permission)
    → role_allows role p ≡ true
    → (role_allows role_admin p ≡ true)
      × ((p ≡ users_write) ⊎ (p ≡ sessions_revoke) → role ≡ role_admin)
unfolding role_allows
role_allows_admin role p h = (refl, λ which. admin_only which h)

module _ {U : UserStore} {S : SessionStore} (P : Primitives) where
  auth_session-eq :
      (a : App U S) (r : Request) (value : String) (s : Session)
      → bearer_token r.authorization ≡ ""
      → r.cookie ≡ some value
      → S.get a.sessions (P.hash_token value) ≡ some (some s)
      → auth P a r ≡ auth_session P a r (P.hash_token value) (some s)
  unfolding auth auth_cookie
  auth_session-eq a r value s b sent got =
      let e : str_eq (bearer_token r.authorization) "" ≡ true =
        (eq_iff (bearer_token r.authorization) "").1 b in
      ground arith

  auth_dead_session_eq :
      (a : App U S) (r : Request) (value : String) (s : Session)
      → bearer_token r.authorization ≡ ""
      → r.cookie ≡ some value
      → S.get a.sessions (P.hash_token value) ≡ some (some s)
      → (s.expires_at < r.now)
        ⊎ ((resolve_user P a s.username ≡ none)
            × ((not (is_safe_method r) && not (csrf_ok P r s)) ≡ false))
      → auth P a r ≡ (drop_session P a (P.hash_token value), deny 401)
  unfolding auth_session auth_user
  auth_dead_session_eq a r value s b sent got why =
      auth_session-eq a r value s b sent got ∙ dead why
    where
      dead :
          (s.expires_at < r.now)
            ⊎ ((resolve_user P a s.username ≡ none)
                × ((not (is_safe_method r) && not (csrf_ok P r s)) ≡ false))
          → auth_session P a r (P.hash_token value) (some s)
            ≡ (drop_session P a (P.hash_token value), deny 401)
      dead (inl over) = ground arith
      dead (inr (gone, good)) = ground arith

  auth_missing_session :
      (L : SessionLaws S) (a : App U S) (r : Request) (value : String)
      → bearer_token r.authorization ≡ ""
      → r.cookie ≡ some value
      → L.rows a.sessions (P.hash_token value) ≡ none
      → ((auth P a r).1 ≡ deny 401) ⊎ ((auth P a r).1 ≡ deny 500)
  unfolding auth auth_cookie auth_session
  auth_missing_session L a r value b sent missing =
      let e : str_eq (bearer_token r.authorization) "" ≡ true =
        (eq_iff (bearer_token r.authorization) "").1 b in
      elim (Option-cases (S.get a.sessions (P.hash_token value))) [
        | inl failed ↦ inr (ground arith)
        | inr (found, got) ↦
            let nothing : found ≡ none =
              L.get_rows a.sessions (P.hash_token value) found got ∙ missing in
            inl (ground arith)
      ]

  -- A session is past its expiry, or its account is gone, disabled or cannot be looked up while the
  -- request is otherwise in order. Where the store takes the deletion, the request is answered 401,
  -- the session with that hash is gone from the store and every other one stays. So whatever becomes
  -- of the accounts and the rest of the state, a later request with the same cookie and no token finds
  -- no session: it is answered 401, or 500 if the lookup fails.
  pub auth_dead_session :
      (L : SessionLaws S) (a later : App U S) (r again : Request) (value : String) (s : Session)
      → bearer_token r.authorization ≡ ""
      → r.cookie ≡ some value
      → S.get a.sessions (P.hash_token value) ≡ some (some s)
      → (s.expires_at < r.now)
        ⊎ ((resolve_user P a s.username ≡ none)
            × ((not (is_safe_method r) && not (csrf_ok P r s)) ≡ false))
      → (S.delete a.sessions (P.hash_token value)).1 ≡ true
      → later.sessions ≡ (auth P a r).0.sessions
      → bearer_token again.authorization ≡ ""
      → again.cookie ≡ some value
      → ((auth P a r).1 ≡ deny 401)
        × ((k : String)
            → L.rows (auth P a r).0.sessions k
              ≡ (if str_eq (P.hash_token value) k then none else L.rows a.sessions k))
        × (((auth P later again).1 ≡ deny 401) ⊎ ((auth P later again).1 ≡ deny 500))
  auth_dead_session L a later r again value s b sent got why deletes same b' sent' =
      let hash = P.hash_token value in
      let refused = auth_dead_session_eq a r value s b sent got why in
      let gone : (k : String)
          → L.rows (auth P a r).0.sessions k
            ≡ (if str_eq hash k then none else L.rows a.sessions k) =
        λ k. ap (λ x. L.rows x.0.sessions k) refused ∙ (elim (L.delete_rows a.sessions hash) [
          | inl dropped ↦ dropped k
          | inr (failed, kept) ↦ absurd (failed deletes)
        ]) in
      let itself : str_eq hash hash ≡ true = eq_refl hash in
      let absent : L.rows later.sessions hash ≡ none =
        ap (λ t. L.rows t hash) same
        ∙ gone hash
        ∙ ap (λ t. if t then none else L.rows a.sessions hash) itself in
      (ap (λ x. x.1) refused, gone, auth_missing_session L later again value b' sent' absent)

  -- A refusal by `auth` leaves the accounts as they were.
  users-auth : (a : App U S) (r : Request) → (auth P a r).0.users ≡ a.users
  unfolding auth auth_cookie auth_token auth_session auth_user record_sev
  users-auth a r = ground arith

  permit_cases :
      (perm : Permission) (next : App U S → Caller → App U S × Status) (r : Request) (a : App U S)
      (c : Caller)
      → ((u : User) × (c.user ≡ some u)
          × (role_allows u.role perm ≡ true)
          × (permit perm next r a c ≡ next a c))
        ⊎ (((permit perm next r a c).0.users ≡ a.users)
            × (((permit perm next r a c).1 ≡ 401) ⊎ ((permit perm next r a c).1 ≡ 403)))
  unfolding permit record_sev
  permit_cases perm next r a c = elim (Option-cases c.user) [
    | inl e ↦ inr (ground arith, ground arith)
    | inr (u, e) ↦ elim (Bool-cases (role_allows u.role perm)) [
      | inl may ↦ inl (u, e, may, ground arith)
      | inr may_not ↦ inr (ground arith, ground arith)
    ]
  ]

  -- A guarded handler runs only for a caller that `auth` lets through and whose role has the
  -- permission, and then on the state that `auth` leaves. Else no account changes.
  pub authz_cases :
      (perm : Permission) (next : App U S → Caller → App U S × Status) (a : App U S) (r : Request)
      → ((c : Caller) × (u : User) × ((auth P a r).1 ≡ pass c)
          × (c.user ≡ some u)
          × (role_allows u.role perm ≡ true)
          × (authz P perm next a r ≡ next (auth P a r).0 c))
        ⊎ ((authz P perm next a r).0.users ≡ a.users)
  unfolding authz with_auth
  authz_cases perm next a r = elim (Decision-cases (auth P a r).1) [
    | inl (st, e) ↦ inr (rw (e, authz, with_auth) (users-auth a r))
    | inr (c, e) ↦ elim (permit_cases perm next r (auth P a r).0 c) [
      | inl (u, is_u, allowed, runs) ↦ inl (c, u, e, is_u, allowed, rw (e, authz, with_auth) runs)
      | inr (kept, st) ↦ inr (rw (e, authz, with_auth) (kept ∙ users-auth a r))
    ]
  ]
