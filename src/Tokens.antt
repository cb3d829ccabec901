-- ===== src/Tokens.antt =====
-- cmd/saguaro/apitokens.go: bearer tokens of automation clients.
pub mod Requests
pub mod Naming
pub mod Revocation
use Prim.Native.Nat.{pred}
use Prim.Native.Char.{code}
use Prim.Native.String
use text.Mathlib.Text.{starts_with}
use sgsu.Prelude.{
  ℕ, zero, suc, ◌+◌, ◌-◌, ◌*◌, Bool, true, false, not, ◌&&◌, ◌||◌, Option, none, some, String, List,
  [], ◌∷◌, ◌++◌, str_eq, ltb, leb, ◌==◌, if◌then◌else◌, keep, any,
}
use sgsu.Prelude.Text.{codes, trim_space, matches, is_lower, is_upper, is_digit}
use sgsu.Users.{User, UserStore}
use sgsu.Sessions.{SessionStore}
use sgsu.App.{App, Token, Request, Caller, Primitives}

abbrev pub minute : ℕ
minute = 60000000000

abbrev pub day : ℕ
day = 86400000000000

-- `expired`: the zero time means no expiry.
unfoldable pub expired : Token → ℕ → Bool
expired t now = not (t.expires_at == 0) && ltb t.expires_at now

-- Whether a stored token answers to the hash of a presented secret.
abbrev pub answers : String → ℕ → Token → Bool
answers want now t = str_eq t.hash want && not (expired t now)

-- The loop of `authenticateToken`: the position of the last token that answers.
unfoldable pub last_match : String → ℕ → List Token → ℕ → Option ℕ → Option ℕ
last_match want now [] i found = found
last_match want now (t ∷ ts) i found =
    last_match want now ts (suc i) (if answers want now t then some i else found)

-- `toks[idx]`
unfoldable pub token_at : List Token → ℕ → Option Token
token_at [] i = none
token_at (t ∷ ts) zero = some t
token_at (t ∷ ts) (suc i) = token_at ts i

-- `toks[idx].LastUsed = now`
unfoldable pub set_used : List Token → ℕ → ℕ → List Token
set_used [] i now = []
set_used (t ∷ ts) zero now = record t { last_used = now } ∷ ts
set_used (t ∷ ts) (suc i) now = t ∷ set_used ts i now

-- The synthetic user that a token stands for.
abbrev pub token_user : Token → User
token_user t = record {
  username = String.◌++◌ "token:" t.name;
  phc = "";
  role = t.role;
  enabled = true;
  created_at = 0;
  must_change_password = false;
}

-- The list to store, and the token, once the position is known.
unfoldable pub use_token : List Token → ℕ → Option ℕ → List Token × Option User
unfolding token_at set_used
use_token toks now none = (toks, none)
use_token toks now (some i) = elim (token_at toks i) [
  | none ↦ (toks, none)
  | some t ↦
      (if ltb minute (now - t.last_used) then set_used toks i now else toks, some (token_user t))
]

-- `authenticateToken` over the list that it reads; the list that it writes back is beside the
-- user. A failed write is only logged, and the list in memory is replaced all the same.
unfoldable pub authenticate_token : Primitives → List Token → String → ℕ → List Token × Option User
unfolding last_match use_token expired
authenticate_token P toks secret now =
    if starts_with secret "sgs_"
    then use_token toks now (last_match (P.hash_token secret) now toks 0 none)
    else (toks, none)

-- The letters that `strings.EqualFold` identifies, where one of the two texts is ASCII.
unfoldable pub fold : ℕ → ℕ
fold c = if is_upper c then c + 32 else if c == 0x212a then b'k' else if c == 0x17f then b's' else c

unfoldable pub equal_fold : List ℕ → List ℕ → Bool
unfolding fold
equal_fold [] [] = true
equal_fold (c ∷ cs) (d ∷ ds) = fold c == fold d && equal_fold cs ds
equal_fold _ _ = false

-- The text after the first seven characters, if these are "bearer " in any case and more follow.
abbrev after_bearer : String → String
after_bearer
      (String.◌∷◌ a (
        String.◌∷◌ b (
          String.◌∷◌ c
            (String.◌∷◌ d (String.◌∷◌ e (String.◌∷◌ f (String.◌∷◌ g (String.◌∷◌ h rest)))))))) =
    if equal_fold (code a ∷ code b ∷ code c ∷ code d ∷ code e ∷ code f ∷ code g ∷ [])
      (codes "bearer ")
    then String.◌∷◌ h rest
    else ""
after_bearer _ = ""

-- `bearerToken`
unfoldable pub bearer_token : String → String
unfolding equal_fold trim_space
bearer_token header = trim_space (after_bearer header)
