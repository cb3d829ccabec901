-- ===== src/Examples/Tokens.antt =====
-- The theorems on tokens at concrete requests.
use sgsu.Prelude.{◌≡◌, ◌≢◌, refl, false, some, [], ◌∷◌}
use mathlib.Core.List.{Memᴰ}
use sgsu.Prelude.Integers.{pos}
use sgsu.App.{Token}
use sgsu.Tokens.{authenticate_token, expired, token_user, last_match, token_at, use_token}
use sgsu.Tokens.Requests.{TokenSpec, TokenDraw, api_tokens_revoke, revoked_name}
use sgsu.Tokens.Revocation.{authenticate_token-revoke}
use sgsu.Examples.{toy, appliance, post, as_alice, robot}

abbrev spec : TokenSpec
spec = record { name = "backup"; role = "auditor"; days = pos 30 }

abbrev draw : TokenDraw
draw = record { secret = some "abcdefgh"; id = "t2" }

abbrev second : Token
second = record {
  id = "t2";
  name = "backup";
  role = "auditor";
  hash = "sgs_backup";
  preview = "sgs_backup";
  created_at = 1;
  created_by = "alice";
  expires_at = 0;
  last_used = 0;
}

authenticate_token-revoke_example :
    (t : Token) × Memᴰ t (robot ∷ second ∷ [])
    × (t.id ≢ "t1")
    × (t.hash ≡ "sgs_backup")
    × (expired t 200 ≡ false)
    × (token_user second ≡ token_user t)
unfolding api_tokens_revoke revoked_name authenticate_token last_match token_at use_token expired
authenticate_token-revoke_example =
    authenticate_token-revoke toy "t1" post (record appliance { tokens = robot ∷ second ∷ [] })
      as_alice "sgs_backup" 200 (token_user second) refl refl
