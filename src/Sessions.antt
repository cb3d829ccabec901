-- ===== src/Sessions.antt =====
-- cmd/saguaro/sessions.go: browser sessions, and what the control plane asks of its session store.
pub mod File
pub mod Runs
pub mod Laws
use Prim.Native.String.{slice}
use sgsu.Prelude.{
  ℕ, Bool, true, Option, none, some, String, List, ◌≡◌, ◌≢◌, ◌⊎◌, str_eq, if◌then◌else◌,
}

-- `sessionRecord`
pub record Session : Type 0 where
  pub token_hash : String
  pub id : String
  pub username : String
  pub created_at : ℕ
  pub expires_at : ℕ
  pub remote_ip : String
  pub csrf_hash : String

-- `sessionID`
unfoldable pub session_id : String → String
session_id token_hash = slice token_hash 0 16

abbrev pub Rows : Type 0
Rows = String → Option Session

-- `sessionStore`: the methods. An error is `none`, or `false` beside the store that is left.
pub record SessionStore : Type 1 where
  pub Store : Type 0
  pub create : Store → Session → Store × Bool
  pub get : Store → String → Option (Option Session)
  pub delete : Store → String → Store × Bool
  pub delete_by_id : Store → String → Store × Option Bool
  pub list : Store → Option (List Session)
  pub prune_expired : Store → ℕ → Store × Bool

-- What the authentication relies on: a successful call does what it says, and a failed one did it
-- or changed nothing.
pub record SessionLaws (S : SessionStore) : Type 0 where
  pub rows : S.Store → Rows
  pub get_rows : (s : S.Store) (k : String) (o : Option Session) → S.get s k ≡ some o → o ≡ rows s k
  pub create_rows :
      (s : S.Store) (r : Session)
      → ((k : String)
          → rows (S.create s r).0 k ≡ (if str_eq r.token_hash k then some r else rows s k))
        ⊎ (((S.create s r).1 ≢ true) × ((k : String) → rows (S.create s r).0 k ≡ rows s k))
  pub delete_rows :
      (s : S.Store) (h : String)
      → ((k : String) → rows (S.delete s h).0 k ≡ (if str_eq h k then none else rows s k))
        ⊎ (((S.delete s h).1 ≢ true) × ((k : String) → rows (S.delete s h).0 k ≡ rows s k))
