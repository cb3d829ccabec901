-- ===== src/Auth/Gate.antt =====
-- Whom `auth` lets through.
use sgsu.Prelude.{
  ℕ, zero, suc, ◌+◌, ◌≤◌, Bool, true, false, not, ◌&&◌, Option, none, some, String, List, [], ◌∷◌,
  str_eq, ltb, if◌then◌else◌, ◌≡◌, ◌⊎◌, inl, inr, refl, arith, Option-cases, Bool-cases, eq_iff,
  sym, ◌∙◌, ap,
}
use mathlib.Core.List.{Memᴰ}
use sgsu.Users.{User, UserStore, UserLaws}
use sgsu.Sessions.{Session, SessionStore, SessionLaws}
use sgsu.App.{App, Request, Caller, Primitives, Token}
use sgsu.Tokens.{
  bearer_token, authenticate_token, answers, expired, last_match, token_at, use_token, token_user,
}
use sgsu.Auth.{
  deny, pass, csrf_ok, is_safe_method, must_change_allowed, resolve_user, auth_user, auth_session,
  auth_cookie, auth_token, auth,
}

-- The last position that answers is one at which a token stands that answers.
last_match_sound :
    (want : String) (now : ℕ) (ts : List Token) (base : ℕ) (found : Option ℕ) (i : ℕ)
    → last_match want now ts base found ≡ some i
    → (found ≡ some i)
      ⊎ ((k : ℕ) × (t : Token) × (i ≡ base + k)
          × (token_at ts k ≡ some t)
          × (answers want now t ≡ true))
unfolding last_match token_at
last_match_sound want now [] base found i e = inl e
last_match_sound want now (t ∷ ts) base found i e =
    elim (last_match_sound want now ts (suc base) (if answers want now t then some base else found)
      i e) [
        | inl given ↦ elim (Bool-cases (answers want now t)) [
          | inl here ↦ inr (0, t, ground arith, refl, here)
          | inr other ↦ inl (ground arith)
        ]
        | inr (k, u, at, found_u, good) ↦ inr (suc k, u, omega arith, found_u, good)
      ]

token_at-Memᴰ : (ts : List Token) (i : ℕ) (t : Token) → token_at ts i ≡ some t → Memᴰ t ts
unfolding token_at
token_at-Memᴰ [] i t e = cc
token_at-Memᴰ (u ∷ ts) zero t e = Memᴰ.head (ground arith)
token_at-Memᴰ (u ∷ ts) (suc i) t e = Memᴰ.tail (token_at-Memᴰ ts i t e)

-- What a bearer token proves: a stored token whose hash is that of the secret and that is not
-- expired. The caller gets the token's role and counts as a token.
pub record ByToken (P : Primitives) (toks : List Token) (r : Request) (c : Caller) : Type 0 where
  pub token : Token
  pub listed : Memᴰ token toks
  pub hash : token.hash ≡ P.hash_token (bearer_token r.authorization)
  pub fresh : expired token r.now ≡ false
  pub caller : c ≡ record { user = some (token_user token); session = ""; by_token = true }

answers_parts :
    (want : String) (now : ℕ) (t : Token)
    → answers want now t ≡ true
    → (t.hash ≡ want) × (expired t now ≡ false)
answers_parts want now t h = ground (arith, eq_iff t.hash want)

use_token_sound :
    (toks : List Token) (now i : ℕ) (u : User)
    → (use_token toks now (some i)).1 ≡ some u
    → (t : Token) × (token_at toks i ≡ some t) × (u ≡ token_user t)
unfolding use_token
use_token_sound toks now i u h = elim (Option-cases (token_at toks i)) [
  | inl e ↦ let no : ⊥ = ground arith in absurd no
  | inr (t, e) ↦ (t, e, ground arith)
]

pub authenticate_token_sound :
    (P : Primitives) (toks : List Token) (secret : String) (now : ℕ) (u : User)
    → (authenticate_token P toks secret now).1 ≡ some u
    → (t : Token) × Memᴰ t toks
      × (t.hash ≡ P.hash_token secret)
      × (expired t now ≡ false)
      × (u ≡ token_user t)
unfolding authenticate_token
authenticate_token_sound P toks secret now u h =
    elim (Option-cases (last_match (P.hash_token secret) now toks 0 none)) [
      | inl e ↦ let no : ⊥ = ground arith in absurd no
      | inr (i, e) ↦
          let used : (use_token toks now (some i)).1 ≡ some u = ground arith in
          let (t, at, is_u) = use_token_sound toks now i u used in
          let (hash, fresh) = matched i t e at in (t, token_at-Memᴰ toks i t at, hash, fresh, is_u)
    ]
  where
    matched :
        (i : ℕ) (t : Token)
        → last_match (P.hash_token secret) now toks 0 none ≡ some i
        → token_at toks i ≡ some t
        → (t.hash ≡ P.hash_token secret) × (expired t now ≡ false)
    matched i t e at = elim (last_match_sound (P.hash_token secret) now toks 0 none i e) [
      | inl impossible ↦ cc
      | inr (k, v, same, at_k, good) ↦ answers_parts (P.hash_token secret) now t (ground arith)
    ]

one_holds : (x y : Bool) → (not x && not y) ≡ false → (x ≡ true) ⊎ (y ≡ true)
one_holds true y h = inl refl
one_holds false true h = inr refl
one_holds false false h = cc

module _ {U : UserStore} {S : SessionStore} (P : Primitives) (UL : UserLaws U)
    (SL : SessionLaws S) where
  -- What a session cookie proves: a stored session that is not past its expiry, the session's CSRF
  -- token unless the method is safe, an enabled account that stands under the session's user name,
  -- and no pending change of its password unless the request serves that.
  pub record BySession (a : App U S) (r : Request) (c : Caller) : Type 0 where
    pub cookie : String
    pub sent : r.cookie ≡ some cookie
    pub session : Session
    pub stored : SL.rows a.sessions (P.hash_token cookie) ≡ some session
    pub fresh : r.now ≤ session.expires_at
    pub csrf : (is_safe_method r ≡ true) ⊎ (csrf_ok P r session ≡ true)
    pub user : User
    pub account : UL.rows a.users session.username ≡ some user
    pub enabled : user.enabled ≡ true
    pub password : (user.must_change_password ≡ false) ⊎ (must_change_allowed r ≡ true)
    pub caller : c ≡ record { user = some user; session = P.hash_token cookie; by_token = false }

  resolve_user_sound :
      (a : App U S) (name : String) (u : User)
      → resolve_user P a name ≡ some u
      → (UL.rows a.users name ≡ some u) × (u.enabled ≡ true)
  unfolding resolve_user
  resolve_user_sound a name u h =
      ground (arith, UL.get_rows a.users name none, UL.get_rows a.users name (some u))

  auth_user_sound :
      (a : App U S) (r : Request) (hash : String) (s : Session) (c : Caller)
      → (auth_user P a r hash s).1 ≡ pass c
      → (u : User) × (UL.rows a.users s.username ≡ some u)
        × (u.enabled ≡ true)
        × ((u.must_change_password ≡ false) ⊎ (must_change_allowed r ≡ true))
        × (c ≡ record { user = some u; session = hash; by_token = false })
        × ((auth_user P a r hash s).0 ≡ a)
  unfolding auth_user
  auth_user_sound a r hash s c h = elim (Option-cases (resolve_user P a s.username)) [
    | inl e ↦ let no : ⊥ = ground arith in absurd no
    | inr (u, e) ↦
        let (found, on) = resolve_user_sound a s.username u e in
        (u, found, on, ground arith, ground arith, ground arith)
  ]

  auth_session_sound :
      (a : App U S) (r : Request) (hash : String) (s : Session) (c : Caller)
      → (auth_session P a r hash (some s)).1 ≡ pass c
      → (r.now ≤ s.expires_at)
        × ((is_safe_method r ≡ true) ⊎ (csrf_ok P r s ≡ true))
        × ((auth_user P a r hash s).1 ≡ pass c)
        × (auth_session P a r hash (some s) ≡ auth_user P a r hash s)
  unfolding auth_session
  auth_session_sound a r hash s c h = elim (Bool-cases (ltb s.expires_at r.now)) [
    | inl over ↦ let no : ⊥ = ground arith in absurd no
    | inr fresh ↦ elim (Bool-cases (not (is_safe_method r) && not (csrf_ok P r s))) [
      | inl bad ↦ let no : deny 403 ≡ pass c = rw (fresh, bad) at h in cc
      | inr good ↦ (
        ground arith,
        one_holds (is_safe_method r) (csrf_ok P r s) good,
        rw (fresh, good) at h,
        rw (fresh, good),
      )
    ]
  ]

  found_sound :
      (a : App U S) (r : Request) (c : Caller) (value : String) (found : Option Session)
      → r.cookie ≡ some value
      → S.get a.sessions (P.hash_token value) ≡ some found
      → (auth_session P a r (P.hash_token value) found).1 ≡ pass c
      → BySession a r c × ((auth_session P a r (P.hash_token value) found).0 ≡ a)
  found_sound a r c value none sent got h =
      let no : deny 401 ≡ pass c = unfold auth_session in h in cc
  found_sound a r c value (some s) sent got h =
      let hash = P.hash_token value in
      let (fresh, csrf, h', same) = auth_session_sound a r hash s c h in
      let (u, account, on, password, is_c, kept) = auth_user_sound a r hash s c h' in
      (
        record {
          cookie = value;
          sent = sent;
          session = s;
          stored = sym (SL.get_rows a.sessions hash (some s) got);
          fresh = fresh;
          csrf = csrf;
          user = u;
          account = account;
          enabled = on;
          password = password;
          caller = is_c;
        },
        ap (λ o. o.0) same ∙ kept,
      )

  auth_cookie_sound :
      (a : App U S) (r : Request) (c : Caller)
      → (auth_cookie P a r).1 ≡ pass c
      → BySession a r c × ((auth_cookie P a r).0 ≡ a)
  unfolding auth_cookie
  auth_cookie_sound a r c h = elim (Option-cases r.cookie) [
    | inl e ↦ let no : deny 401 ≡ pass c = rw (e, auth_cookie) at h in cc
    | inr (value, sent) ↦ elim (Option-cases (S.get a.sessions (P.hash_token value))) [
      | inl e ↦ let no : deny 500 ≡ pass c = rw (sent, e, auth_cookie) at h in cc
      | inr (found, got) ↦
          let same : auth_cookie P a r ≡ auth_session P a r (P.hash_token value) found =
            ground arith in
          let (b, kept) = found_sound a r c value found sent got (sym (ap (λ o. o.1) same) ∙ h) in
          (b, ap (λ o. o.0) same ∙ kept)
    ]
  ]

  auth_token_sound :
      (a : App U S) (r : Request) (c : Caller)
      → (auth_token P a r (bearer_token r.authorization)).1 ≡ pass c
      → ByToken P a.tokens r c
  unfolding auth_token
  auth_token_sound a r c h =
      elim (Option-cases (authenticate_token P a.tokens (bearer_token r.authorization) r.now).1) [
        | inl e ↦ let no : deny 401 ≡ pass c = rw (e, auth_token) at h in cc
        | inr (u, e) ↦
            let (t, listed, hash, fresh, is_u) =
              authenticate_token_sound P a.tokens (bearer_token r.authorization) r.now u e in
            record { token = t; listed = listed; hash = hash; fresh = fresh; caller = ground arith }
      ]

  -- Over stores that keep their laws: a request that `auth` lets through carries a stored,
  -- unexpired token, or, with no token sent, the cookie of a live session of an enabled account,
  -- with the session's CSRF token if the method can change something, and no pending password
  -- change unless the request serves it. In the second case nothing of the state has changed.
  pub auth_sound :
      (a : App U S) (r : Request) (c : Caller)
      → (auth P a r).1 ≡ pass c
      → ByToken P a.tokens r c
        ⊎ ((bearer_token r.authorization ≡ "") × BySession a r c × ((auth P a r).0 ≡ a))
  unfolding auth
  auth_sound a r c h = elim (Bool-cases (str_eq (bearer_token r.authorization) "")) [
    | inl e ↦
        let same : auth P a r ≡ auth_cookie P a r = rw (e, auth) in
        let (b, kept) = auth_cookie_sound a r c (sym (ap (λ o. o.1) same) ∙ h) in
        inr ((eq_iff (bearer_token r.authorization) "").0 e, b, ap (λ o. o.0) same ∙ kept)
    | inr e ↦
        let same : auth P a r ≡ auth_token P a r (bearer_token r.authorization) = rw (e, auth) in
        inl (auth_token_sound a r c (sym (ap (λ o. o.1) same) ∙ h))
  ]
