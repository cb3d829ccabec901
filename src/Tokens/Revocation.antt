-- ===== src/Tokens/Revocation.antt =====
-- What revoking a token achieves, and who may not.
use sgsu.Prelude.{
  ℕ, zero, suc, ◌-◌, ◌<◌, true, false, Option, none, some, String, List, [], ◌∷◌, str_eq, any, ◌≡◌,
  ◌≢◌, refl, arith, Bool-cases, inl, inr, ap, ◌∙◌, subst, eq_iff,
}
use mathlib.Core.List.{Memᴰ}
use mathlib.Core.List.Memᴰ
use text.Mathlib.Text.{starts_with}
use sgsu.Users.{User, UserStore}
use sgsu.Sessions.{SessionStore}
use sgsu.App.{App, Token, Request, Caller, Primitives, record_sev}
use sgsu.Tokens.{
  authenticate_token, expired, last_match, token_at, set_used, token_user, use_token, minute,
}
use sgsu.Tokens.Requests.{
  TokenSpec, TokenDraw, without_id, api_tokens_create, api_tokens_revoke, set_api_tokens,
}
use sgsu.Auth.Gate.{authenticate_token_sound}

without_id-Memᴰ :
    (id : String) (t : Token) (ts : List Token)
    → Memᴰ t (without_id id ts)
    → Memᴰ t ts × (t.id ≢ id)
without_id-Memᴰ id t [] m = absurd (Memᴰ.not-nil m)
without_id-Memᴰ id t (u ∷ ts) m = elim (Bool-cases (str_eq u.id id)) [
  | inl e ↦
      let same : without_id id (u ∷ ts) ≡ without_id id ts = ground arith in
      let (held, other) = without_id-Memᴰ id t ts (subst (Memᴰ t) same m) in (Memᴰ.tail held, other)
  | inr e ↦
      let same : without_id id (u ∷ ts) ≡ u ∷ without_id id ts = ground arith in
      elim (Memᴰ.cases_cons (subst (Memᴰ t) same m)) [
        | inl is_u ↦ (Memᴰ.head is_u, λ h. ground (arith, eq_iff u.id id, ap (λ v. v.id) is_u))
        | inr below ↦ let (held, other) = without_id-Memᴰ id t ts below in (Memᴰ.tail held, other)
      ]
]

any-without_id :
    (id : String) (ts : List Token) → any (λ t. str_eq t.id id) (without_id id ts) ≡ false
any-without_id id [] = refl
any-without_id id (t ∷ ts) = ground (arith, any-without_id id ts)

module _ {U : UserStore} {S : SessionStore} where
  -- A caller that a token stands for can neither create nor revoke tokens: both are answered 403
  -- and change nothing.
  pub token_manages_no_tokens :
      (P : Primitives) (body : Option TokenSpec) (d : TokenDraw) (id : String) (r : Request)
      (a : App U S) (c : Caller)
      → c.by_token ≡ true
      → (api_tokens_create P body d r a c ≡ (a, 403, none))
        × (api_tokens_revoke id r a c ≡ (a, 403))
  unfolding api_tokens_create api_tokens_revoke
  token_manages_no_tokens P none d id r a c h = (ground arith, ground arith)
  token_manages_no_tokens P (some spec) d id r a c h = (ground arith, ground arith)

  tokens-revoke :
      (id : String) (r : Request) (a : App U S) (c : Caller)
      → (api_tokens_revoke id r a c).1 ≡ 200
      → (api_tokens_revoke id r a c).0.tokens ≡ without_id id a.tokens
  unfolding api_tokens_revoke record_sev
  tokens-revoke id r a c h = ground arith

  -- After a revocation that is answered 200, whoever is let in with a bearer secret holds that of
  -- a stored token with another id, one that has not expired.
  pub authenticate_token-revoke :
      (P : Primitives) (id : String) (r : Request) (a : App U S) (c : Caller) (secret : String)
      (later : ℕ) (u : User)
      → (api_tokens_revoke id r a c).1 ≡ 200
      → (authenticate_token P (api_tokens_revoke id r a c).0.tokens secret later).1 ≡ some u
      → (t : Token) × Memᴰ t a.tokens
        × (t.id ≢ id)
        × (t.hash ≡ P.hash_token secret)
        × (expired t later ≡ false)
        × (u ≡ token_user t)
  authenticate_token-revoke P id r a c secret later u done h =
      let h' =
        subst (λ ts. (authenticate_token P ts secret later).1 ≡ some u)
          (tokens-revoke id r a c done) h in
      let (t, listed, hash, fresh, is_u) =
        authenticate_token_sound P (without_id id a.tokens) secret later u h' in
      let (held, other) = without_id-Memᴰ id t a.tokens listed in
      (t, held, other, hash, fresh, is_u)

any-set_used :
    (id : String) (ts : List Token) (i now : ℕ)
    → any (λ t. str_eq t.id id) (set_used ts i now) ≡ any (λ t. str_eq t.id id) ts
unfolding set_used
any-set_used id [] i now = refl
any-set_used id (t ∷ ts) zero now = refl
any-set_used id (t ∷ ts) (suc i) now = ground (arith, any-set_used id ts i now)

module _ {U : UserStore} {S : SessionStore} where
  -- `authenticateToken` reads the list and writes it back in two steps. If the token in use was
  -- last used over a minute ago, and a token of the list is revoked, with the answer 200, between
  -- the two steps, the revocation takes the id out of the list and the write puts it back.
  stale_use_restores :
      (P : Primitives) (secret id : String) (now i : ℕ) (t : Token) (r : Request) (a : App U S)
      (c : Caller)
      → starts_with secret "sgs_" ≡ true
      → last_match (P.hash_token secret) now a.tokens 0 none ≡ some i
      → token_at a.tokens i ≡ some t
      → minute < now - t.last_used
      → any (λ t. str_eq t.id id) a.tokens ≡ true
      → (api_tokens_revoke id r a c).1 ≡ 200
      → let revoked = (api_tokens_revoke id r a c).0 in
        let written = set_api_tokens (authenticate_token P a.tokens secret now).0 revoked in
        ((authenticate_token P a.tokens secret now).0 ≡ set_used a.tokens i now)
        × (any (λ t. str_eq t.id id) revoked.tokens ≡ false)
        × (any (λ t. str_eq t.id id) written.tokens ≡ true)
  unfolding authenticate_token use_token
  stale_use_restores P secret id now i t r a c prefix match at old had done =
      let wrote : (authenticate_token P a.tokens secret now).0 ≡ set_used a.tokens i now =
        ground arith in
      (
        wrote,
        ap (any (λ t. str_eq t.id id)) (tokens-revoke id r a c done) ∙ any-without_id id a.tokens,
        ap (any (λ t. str_eq t.id id)) wrote ∙ any-set_used id a.tokens i now ∙ had,
      )
