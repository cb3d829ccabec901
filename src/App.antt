-- ===== src/App.antt =====
-- The part of cmd/saguaro/main.go's `app` that requests for accounts, sessions and tokens change,
-- and the audit trail. A request's random values and outside answers are fields of the request.
-- Every clock reading of one request is `now`, and the writes of state.json during one request
-- all succeed or all fail.
use sgsu.Prelude.{ℕ, Bool, Option, none, some, String, List, ◌∷◌, take}
use sgsu.Users.{User, UserStore}
use sgsu.Sessions.{SessionStore}
use sgsu.Limiter.{Limiter}

-- `auditEvent`, without its random id and the metadata, which no handler reads
pub record Event : Type 0 where
  pub time : ℕ
  pub severity : String
  pub actor : String
  pub action : String
  pub target : String
  pub result : String
  pub remote_ip : String

-- `apiToken`
pub record Token : Type 0 where
  pub id : String
  pub name : String
  pub role : String
  pub hash : String
  pub preview : String
  pub created_at : ℕ
  pub created_by : String
  pub expires_at : ℕ
  pub last_used : ℕ

-- What the handlers call that is not modelled: SHA-256 in hex, the Argon2id check of a password
-- against a stored hash, and the Unicode lower-casing of Go's `strings.ToLower`.
pub record Primitives : Type 0 where
  pub hash_token : String → String
  pub verify_password : String → String → Bool
  pub to_lower : String → String

-- `app`
pub record App (U : UserStore) (S : SessionStore) : Type 0 where
  pub users : U.Store
  pub sessions : S.Store
  pub ip_limiter : Limiter
  pub user_limiter : Limiter
  pub tokens : List Token
  pub audit : List Event
  pub admin_user : String
  pub dummy_phc : String
  pub session_ttl : ℕ

-- `http.Request`: an absent header reads as the empty text, an absent cookie is `none`.
pub record Request : Type 0 where
  pub method : String
  pub path : String
  pub remote_ip : String
  pub authorization : String
  pub cookie : Option String
  pub csrf_header : String
  pub now : ℕ
  pub saves : Bool

-- The values that `auth` puts in a request's context.
pub record Caller : Type 0 where
  pub user : Option User
  pub session : String
  pub by_token : Bool

-- An HTTP answer, by its status.
abbrev pub Status : Type 0
Status = ℕ

module _ {U : UserStore} {S : SessionStore} where
  -- `addAudit`, and `recordSev` up to what it forwards outside
  unfoldable pub record_sev :
      App U S → Request → (actor action target result severity : String) → App U S
  record_sev a r actor action target result severity = record a {
    audit = take 5000 (
        record {
          time = r.now;
          severity = severity;
          actor = actor;
          action = action;
          target = target;
          result = result;
          remote_ip = r.remote_ip;
        }
        ∷ a.audit);
  }

  -- `record`
  unfoldable pub record_info : App U S → Request → (actor action target result : String) → App U S
  unfolding record_sev
  record_info a r actor action target result = record_sev a r actor action target result "info"

  -- `actor`
  unfoldable pub actor : App U S → Caller → String
  actor a c = elim c.user [ none ↦ a.admin_user | some u ↦ u.username ]
