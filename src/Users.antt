-- ===== src/Users.antt =====
-- cmd/saguaro/users.go: accounts, roles, and what the control plane asks of its user store.
pub mod File
pub mod Runs
use sgsu.Prelude.{
  ℕ, Bool, true, false, ◌||◌, ◌&&◌, Option, none, some, String, List, [], ◌∷◌, str_eq,
  if◌then◌else◌, any, ◌≡◌, ◌≢◌, ◌⊎◌, ◌↔◌, zero, suc, ◌==◌,
}
use sgsu.Prelude.Text.{codes, matches, is_lower, is_digit}

abbrev pub role_admin : String
role_admin = "admin"

abbrev pub role_network_operator : String
role_network_operator = "network-operator"

abbrev pub role_dns_operator : String
role_dns_operator = "dns-operator"

abbrev pub role_auditor : String
role_auditor = "auditor"

abbrev pub role_read_only : String
role_read_only = "read-only"

-- `validRoles`
unfoldable pub valid_role : String → Bool
valid_role r =
    str_eq r role_admin
    || str_eq r role_network_operator
    || str_eq r role_dns_operator
    || str_eq r role_auditor
    || str_eq r role_read_only

abbrev name_start : ℕ → Bool
name_start c = is_lower c || is_digit c

abbrev name_rest : ℕ → Bool
name_rest c = is_lower c || is_digit c || c == b'.' || c == b'_' || c == b'-'

-- `usernameRe`
unfoldable pub valid_username : String → Bool
valid_username s = matches name_start name_rest 1 31 (codes s)

-- `userRecord`
pub record User : Type 0 where
  pub username : String
  pub phc : String
  pub role : String
  pub enabled : Bool
  pub created_at : ℕ
  pub must_change_password : Bool

-- An account that can administer the appliance.
abbrev pub is_enabled_admin : User → Bool
is_enabled_admin u = str_eq u.role role_admin && u.enabled

-- The same account, up to the time of creation, which an `ON CONFLICT` update keeps.
pub record SameAccount (u v : User) : Type 0 where
  pub username : u.username ≡ v.username
  pub phc : u.phc ≡ v.phc
  pub role : u.role ≡ v.role
  pub enabled : u.enabled ≡ v.enabled
  pub must_change : u.must_change_password ≡ v.must_change_password

abbrev pub Rows : Type 0
Rows = String → Option User

-- The rows after the account `u` is written over those of before.
abbrev pub Wrote : Rows → User → Rows → Type 0
Wrote before u after =
    (v : User) × SameAccount u v
    × ((k : String) → after k ≡ (if str_eq u.username k then some v else before k))

abbrev pub Dropped : Rows → String → Rows → Type 0
Dropped before name after = (k : String) → after k ≡ (if str_eq name k then none else before k)

abbrev pub Same : Rows → Rows → Type 0
Same before after = (k : String) → after k ≡ before k

-- Some account passes the test.
abbrev pub Has : Rows → (User → Bool) → Type 0
Has rows p = (k : String) × (u : User) × (rows k ≡ some u) × (p u ≡ true)

-- `userStore`: the methods. A method that fails answers `none`, or `false` beside the store that
-- it leaves.
pub record UserStore : Type 1 where
  pub Store : Type 0
  pub get : Store → String → Option (Option User)
  pub list : Store → Option (List User)
  pub upsert : Store → User → Store × Bool
  pub delete : Store → String → Store × Option Bool
  pub count : Store → Option ℕ

-- What a store promises about the accounts that it holds. A write or a deletion that fails may
-- have taken place in part: in memory and not on disk.
pub record UserLaws (S : UserStore) : Type 1 where
  pub IsValid : S.Store → Type 0
  pub upsert_IsValid : (s : S.Store) (u : User) → IsValid s → IsValid (S.upsert s u).0
  pub delete_IsValid : (s : S.Store) (k : String) → IsValid s → IsValid (S.delete s k).0
  pub rows : S.Store → Rows
  pub named : (s : S.Store) (k : String) (u : User) → IsValid s → rows s k ≡ some u → u.username ≡ k
  pub get_rows : (s : S.Store) (k : String) (o : Option User) → S.get s k ≡ some o → o ≡ rows s k
  pub list_rows :
      (s : S.Store) (us : List User) (p : User → Bool)
      → IsValid s
      → S.list s ≡ some us
      → (any p us ≡ true) ↔ Has (rows s) p
  pub upsert_rows :
      (s : S.Store) (u : User)
      → Wrote (rows s) u (rows (S.upsert s u).0)
        ⊎ (((S.upsert s u).1 ≡ false) × Same (rows s) (rows (S.upsert s u).0))
  pub delete_rows :
      (s : S.Store) (k : String)
      → Dropped (rows s) k (rows (S.delete s k).0)
        ⊎ (((S.delete s k).1 ≢ some true) × Same (rows s) (rows (S.delete s k).0))
  pub count_rows :
      (s : S.Store) (n : ℕ) → S.count s ≡ some n → (n ≡ 0) ↔ ((k : String) → rows s k ≡ none)

-- `seedAdmin`: `none` is an error; the flag says whether the administrator was made.
unfoldable pub seed_admin :
    (S : UserStore) → S.Store → (username phc : String) (now : ℕ) → S.Store × Option Bool
seed_admin S s username phc now = elim (S.count s) [
  | none ↦ (s, none)
  | some zero ↦
      let (s', done) = S.upsert s (record {
        username = username;
        phc = phc;
        role = role_admin;
        enabled = true;
        created_at = now;
        must_change_password = true;
      }) in
      (s', if done then some true else none)
  | some (suc n) ↦ (s, some false)
]
