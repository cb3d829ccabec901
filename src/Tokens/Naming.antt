-- ===== src/Tokens/Naming.antt =====
-- The names and roles of the stored tokens.
use sgsu.Prelude.{
  ℕ, Bool, true, false, Option, none, some, String, List, [], ◌∷◌, ◌++◌, keep, ◌≡◌, refl, arith,
  Option-cases, Bool-cases, inl, inr, ◌*◌, All, All-append, subst,
}
use sgsu.Prelude.Text.{codes, trim_space}
use sgsu.Users.{UserStore}
use sgsu.Sessions.{SessionStore}
use sgsu.App.{App, Token, Request, Caller, Primitives, record_sev, actor}
use sgsu.Auth.{known_role}
use sgsu.Tokens.{equal_fold, day}
use sgsu.Tokens.Requests.{
  TokenSpec, TokenDraw, valid_token_name, valid_days, new_api_token, name_taken, store_token,
  create_named, api_tokens_create,
}

-- Every name is well formed and every role is known.
abbrev pub IsWellFormed : Token → Type 0
IsWellFormed t = (valid_token_name t.name ≡ true) × (known_role t.role ≡ true)

-- No two names are equal up to case.
abbrev pub IsNamedApart : List Token → Type 0
IsNamedApart [] = Unit
IsNamedApart (t ∷ ts) = (name_taken t.name ts ≡ false) × IsNamedApart ts

abbrev pub IsValid : List Token → Type 0
IsValid toks = All IsWellFormed toks × IsNamedApart toks

equal_fold_comm : (cs ds : List ℕ) → equal_fold cs ds ≡ equal_fold ds cs
unfolding equal_fold
equal_fold_comm [] [] = refl
equal_fold_comm [] (d ∷ ds) = refl
equal_fold_comm (c ∷ cs) [] = refl
equal_fold_comm (c ∷ cs) (d ∷ ds) = ground (arith, equal_fold_comm cs ds)

name_taken-append :
    (name : String) (ts : List Token) (t : Token)
    → name_taken name ts ≡ false
    → equal_fold (codes t.name) (codes name) ≡ false
    → name_taken name (ts ++ (t ∷ [])) ≡ false
name_taken-append name [] t h k = ground arith
name_taken-append name (u ∷ ts) t h k =
    let first : equal_fold (codes u.name) (codes name) ≡ false = ground arith in
    let rest : name_taken name ts ≡ false = ground arith in
    ground (arith, name_taken-append name ts t rest k)

append-IsNamedApart :
    (ts : List Token) (t : Token)
    → IsNamedApart ts
    → name_taken t.name ts ≡ false
    → IsNamedApart (ts ++ (t ∷ []))
append-IsNamedApart [] t _ h = (refl, tt)
append-IsNamedApart (u ∷ ts) t (apart, d) h =
    let first : equal_fold (codes u.name) (codes t.name) ≡ false = ground arith in
    let rest : name_taken t.name ts ≡ false = ground arith in
    (
      name_taken-append u.name ts t apart
          (subst (λ b. b ≡ false) (equal_fold_comm (codes u.name) (codes t.name)) first),
      append-IsNamedApart ts t d rest,
    )

name_taken-keep :
    (p : Token → Bool) (name : String) (ts : List Token)
    → name_taken name ts ≡ false
    → name_taken name (keep p ts) ≡ false
name_taken-keep p name [] h = refl
name_taken-keep p name (t ∷ ts) h =
    let first : equal_fold (codes t.name) (codes name) ≡ false = ground arith in
    let rest : name_taken name ts ≡ false = ground arith in
    ground (arith, name_taken-keep p name ts rest)

keep-IsNamedApart :
    (p : Token → Bool) (ts : List Token) → IsNamedApart ts → IsNamedApart (keep p ts)
keep-IsNamedApart p [] _ = tt
keep-IsNamedApart p (t ∷ ts) (h, d) = elim (Bool-cases (p t)) [
  | inl e ↦ rw (e) (name_taken-keep p t.name ts h, keep-IsNamedApart p ts d)
  | inr e ↦ rw (e) (keep-IsNamedApart p ts d)
]

module _ {U : UserStore} {S : SessionStore} where
  store_token-IsValid :
      (P : Primitives) (name role by : String) (ttl now : ℕ) (d : TokenDraw) (r : Request)
      (a : App U S) (c : Caller)
      → IsValid a.tokens
      → valid_token_name name ≡ true
      → known_role role ≡ true
      → name_taken name a.tokens ≡ false
      → IsValid (store_token r a c (new_api_token P name role by ttl now d)).0.tokens
  unfolding store_token new_api_token record_sev
  store_token-IsValid P name role by ttl now d r a c (ok, apart) good known free =
      elim (Option-cases d.secret) [
        | inl e ↦ rw (e) (ok, apart)
        | inr (part, e) ↦ elim (Bool-cases r.saves) [
          | inl s ↦
              rw (e, s)
                (
                  All-append IsWellFormed a.tokens _ ok ((good, known), tt),
                  append-IsNamedApart a.tokens _ apart free,
                )
          | inr s ↦
              rw (e, s)
                (
                  All-append IsWellFormed a.tokens _ ok ((good, known), tt),
                  append-IsNamedApart a.tokens _ apart free,
                )
        ]
      ]

  create_named-IsValid :
      (P : Primitives) (name : String) (spec : TokenSpec) (d : TokenDraw) (r : Request)
      (a : App U S) (c : Caller)
      → IsValid a.tokens
      → IsValid (create_named P name spec d r a c).0.tokens
  unfolding create_named
  create_named-IsValid P name spec d r a c ok = elim (Bool-cases (valid_token_name name)) [
    | inr e ↦ rw (e) ok
    | inl good ↦ elim (Bool-cases (known_role spec.role)) [
      | inr e ↦ rw (good, e) ok
      | inl known ↦ elim (Option-cases (valid_days spec.days)) [
        | inl e ↦ rw (good, known, e) ok
        | inr (days, e) ↦ elim (Bool-cases (name_taken name a.tokens)) [
          | inl f ↦ rw (good, known, e, f) ok
          | inr free ↦
              rw (good, known, e, free)
                (store_token-IsValid P name spec.role (actor a c) (days * day) r.now d r a c ok good
                  known free)
        ]
      ]
    ]
  ]

  -- A request for a token, whatever its answer, leaves the stored tokens with well-formed names
  -- and known roles, and with no two names that are equal up to case.
  api_tokens_create-IsValid :
      (P : Primitives) (body : Option TokenSpec) (d : TokenDraw) (r : Request) (a : App U S)
      (c : Caller)
      → IsValid a.tokens
      → IsValid (api_tokens_create P body d r a c).0.tokens
  unfolding api_tokens_create
  api_tokens_create-IsValid P none d r a c ok = elim (Bool-cases c.by_token) [
    | inl e ↦ rw (e) ok
    | inr e ↦ rw (e) ok
  ]
  api_tokens_create-IsValid P (some spec) d r a c ok = elim (Bool-cases c.by_token) [
    | inl e ↦ rw (e) ok
    | inr e ↦ simp (e) (create_named-IsValid P (trim_space spec.name) spec d r a c ok)
  ]
