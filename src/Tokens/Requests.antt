-- ===== src/Tokens/Requests.antt =====
-- cmd/saguaro/apitokens.go: the handlers that create and revoke tokens.
use Prim.Native.String
use Prim.Native.String.{slice}
use sgsu.Prelude.{
  ℕ, ◌+◌, ◌*◌, Bool, not, ◌||◌, Option, none, some, String, List, [], ◌∷◌, ◌++◌, str_eq, ltb, ◌==◌,
  if◌then◌else◌, keep, any,
}
use sgsu.Prelude.Integers.{ℤ, pos, negsuc}
use sgsu.Prelude.Text.{codes, trim_space, matches, is_lower, is_upper, is_digit}
use sgsu.Users.{UserStore}
use sgsu.Sessions.{SessionStore}
use sgsu.App.{App, Token, Request, Caller, Primitives, Status, record_sev, actor}
use sgsu.Auth.{known_role}
use sgsu.Tokens.{equal_fold, day}

-- The body of a request for a token
pub record TokenSpec : Type 0 where
  pub name : String
  pub role : String
  pub days : ℤ

-- What a creation draws at random: the encoded secret part, if the source of randomness works,
-- and the id
pub record TokenDraw : Type 0 where
  pub secret : Option String
  pub id : String

-- A character that `tokenNameRe` takes
abbrev is_name_char : ℕ → Bool
is_name_char c = is_lower c || is_upper c || is_digit c || c == b'.' || c == b'_' || c == b'-'

-- `tokenNameRe`
unfoldable pub valid_token_name : String → Bool
valid_token_name name = matches is_name_char is_name_char 0 39 (codes name)

-- The days that a request may ask for
unfoldable pub valid_days : ℤ → Option ℕ
valid_days (negsuc n) = none
valid_days (pos n) = if ltb 3650 n then none else some n

-- `newAPIToken`
unfoldable pub new_api_token :
    Primitives
    → (name role created_by : String) → (ttl now : ℕ) → TokenDraw
    → Option (String × Token)
new_api_token P name role created_by ttl now d = elim d.secret [
  | none ↦ none
  | some part ↦
      let secret = String.◌++◌ "sgs_" part in
      some (
        secret,
        record {
          id = d.id;
          name = name;
          role = role;
          hash = P.hash_token secret;
          preview = slice secret 0 10;
          created_at = now;
          created_by = created_by;
          expires_at = if ltb 0 ttl then now + ttl else 0;
          last_used = 0;
        },
      )
]

-- Whether a stored token has the name, in any case
abbrev pub name_taken : String → List Token → Bool
name_taken name toks = any (λ t. equal_fold (codes t.name) (codes name)) toks

-- The loop of `apiTokensRevoke`: the name of the last token with the id
unfoldable pub revoked_name : String → List Token → String → String
revoked_name id [] found = found
revoked_name id (t ∷ ts) found = revoked_name id ts (if str_eq t.id id then t.name else found)

abbrev pub without_id : String → List Token → List Token
without_id id toks = keep (λ t. not (str_eq t.id id)) toks

module _ {U : UserStore} {S : SessionStore} where
  -- `setAPITokens`: the list in memory is replaced even where it cannot be saved.
  abbrev pub set_api_tokens : List Token → App U S → App U S
  set_api_tokens toks a = record a { tokens = toks }

  -- The last part of `apiTokensCreate`, with the answer's secret
  unfoldable pub store_token :
      Request → App U S → Caller → Option (String × Token) → App U S × Status × Option String
  unfolding record_sev
  store_token r a c none = (a, 500, none)
  store_token r a c (some made) =
      let a' = set_api_tokens (a.tokens ++ (made.1 ∷ [])) a in
      if r.saves
      then (
        record_sev a' r (actor a' c) "api-token-create" made.1.name "success" "security",
        201,
        some made.0,
      )
      else (a', 500, none)

  -- `apiTokensCreate` after the decoding, from the trimmed name on
  unfoldable pub create_named :
      Primitives
      → String
      → TokenSpec
      → TokenDraw
      → Request
      → App U S
      → Caller
      → App U S × Status × Option String
  create_named P name spec d r a c =
      if not (valid_token_name name)
      then (a, 400, none)
      else if not (known_role spec.role)
      then (a, 400, none)
      else elim (valid_days spec.days) [
        | none ↦ (a, 400, none)
        | some days ↦
            if name_taken name a.tokens
            then (a, 409, none)
            else store_token r a c (new_api_token P name spec.role (actor a c) (days * day) r.now d)
      ]

  -- `apiTokensCreate`; a token's caller is refused before the body is read.
  unfoldable pub api_tokens_create :
      Primitives
      → Option TokenSpec
      → TokenDraw
      → Request
      → App U S
      → Caller
      → App U S × Status × Option String
  api_tokens_create P none d r a c = if c.by_token then (a, 403, none) else (a, 400, none)
  api_tokens_create P (some spec) d r a c =
      if c.by_token then (a, 403, none) else create_named P (trim_space spec.name) spec d r a c

  -- `apiTokensRevoke`
  unfoldable pub api_tokens_revoke : String → Request → App U S → Caller → App U S × Status
  unfolding record_sev
  api_tokens_revoke id r a c =
      if c.by_token
      then (a, 403)
      else let revoked = revoked_name id a.tokens "" in
        if str_eq revoked ""
        then (a, 404)
        else let a' = set_api_tokens (without_id id a.tokens) a in
          if r.saves
          then (record_sev a' r (actor a' c) "api-token-revoke" revoked "success" "security", 200)
          else (a', 500)
