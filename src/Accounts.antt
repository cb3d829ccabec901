-- ===== src/Accounts.antt =====
-- cmd/saguaro/authz.go: the handlers that manage accounts. A body that is not one valid JSON object
-- is `none`.
pub mod AdminCheck
pub mod AdminWrites
pub mod LastAdmin
pub mod OwnWrites
use Prim.Native.String.{len}
use sgsu.Prelude.{
  ℕ, Bool, true, false, not, ◌&&◌, ◌||◌, Option, none, some, String, List, [], ◌∷◌, str_eq, ltb,
  if◌then◌else◌, suc, ◌==◌,
}
use sgsu.Prelude.Text.{trim_space}
use sgsu.Users.{User, UserStore, role_admin, valid_role, valid_username, is_enabled_admin}
use sgsu.Sessions.{SessionStore}
use sgsu.App.{App, Request, Caller, Primitives, Status, record_sev, record_info, actor}

-- The bodies of the requests. The hash that `hashPassword` would make of a new password is given,
-- `none` where it fails.
pub record NewUser : Type 0 where
  pub username : String
  pub password : String
  pub role : String

pub record UserChange : Type 0 where
  pub role : Option String
  pub enabled : Option Bool
  pub password : Option String

pub record PasswordChange : Type 0 where
  pub old_password : String
  pub new_password : String

-- The loop of `isLastEnabledAdmin`: whether the account is an enabled administrator, and how many
-- others are
unfoldable pub tally : String → List User → Bool → ℕ → Bool × ℕ
tally username [] target others = (target, others)
tally username (u ∷ us) target others =
    let same = str_eq u.username username in
    tally username us (if is_enabled_admin u && same then true else target)
      (if is_enabled_admin u && not same then suc others else others)

unfoldable pub is_last : String → List User → Bool
unfolding tally
is_last username us = let (target, others) = tally username us false 0 in target && others == 0

-- A password with fewer than 14 bytes
abbrev pub too_short : String → Bool
too_short password = ltb (len password) 14

-- What a validation answers: a status to return, or a value to go on with.
pub data Check {ℓ} (A : Type ℓ) : Type ℓ where
  stop : Status → Check A
  go : A → Check A

infixl 5 ◌>>=◌
abbrev pub ◌>>=◌ {ℓ κ} : {A : Type ℓ} {B : Type κ} → Check A → (A → Check B) → Check B
stop st >>= f = stop st
go a >>= f = f a

-- The three fields of a change, in the order of `apiUserUpdate`
unfoldable pub change_role : Option String → User → Check User
change_role none u = go u
change_role (some role) u = if valid_role role then go (record u { role = role }) else stop 400

unfoldable pub change_enabled : Option Bool → User → User
change_enabled none u = u
change_enabled (some on) u = record u { enabled = on }

unfoldable pub change_password : Option String → Option String → User → Check User
change_password none phc u = go u
change_password (some password) phc u = if too_short password then stop 400 else elim phc [
  | none ↦ stop 500
  | some hash ↦ go (record u { phc = hash; must_change_password = true })
]

unfoldable pub changed_user : UserChange → Option String → User → Check User
changed_user change phc u = do
  v ← change_role change.role u
  change_password change.password phc (change_enabled change.enabled v)

-- The account that `apiUserCreate` stores
abbrev pub new_user : String → String → String → ℕ → User
new_user username role hash now = record {
  username = username;
  phc = hash;
  role = role;
  enabled = true;
  created_at = now;
  must_change_password = true;
}

module _ {U : UserStore} {S : SessionStore} where
  -- `isLastEnabledAdmin`; `none` is a failed listing
  unfoldable pub is_last_enabled_admin : App U S → String → Option Bool
  is_last_enabled_admin a username = elim (U.list a.users) [
    | none ↦ none
    | some us ↦ some (is_last username us)
  ]

  -- `Upsert` of a record and the answer to it
  unfoldable pub store_user : App U S → User → (App U S → App U S) → App U S × Status
  store_user a u after =
      let (users, done) = U.upsert a.users u in
      let a' = record a { users = users } in if done then (after a', 200) else (a', 500)

  -- `apiUserCreate` after the lookup of an account with the new name
  unfoldable pub create_absent :
      String
      → String
      → (phc : Option String) → Request
      → App U S
      → Caller
      → Option (Option User)
      → App U S × Status
  create_absent username role phc r a c none = (a, 500)
  create_absent username role phc r a c (some (some existing)) = (a, 409)
  create_absent username role none r a c (some none) = (a, 500)
  create_absent username role (some hash) r a c (some none) =
      store_user a (new_user username role hash r.now)
        (λ a'. record_info a' r (actor a' c) "user-create" username "success")

  -- `apiUserCreate`
  unfoldable pub api_user_create :
      Primitives
      → Option NewUser
      → (phc : Option String) → Request
      → App U S
      → Caller
      → App U S × Status
  api_user_create P none phc r a c = (a, 400)
  api_user_create P (some body) phc r a c =
      let username = P.to_lower (trim_space body.username) in
      if not (valid_username username)
      then (a, 400)
      else if not (valid_role body.role)
      then (a, 400)
      else if too_short body.password
      then (a, 400)
      else create_absent username body.role phc r a c (U.get a.users username)

  -- The write at the end of `apiUserUpdate`, with its audit entry
  unfoldable pub update_write : String → User → Request → App U S → Caller → App U S × Status
  update_write name u r a c =
      store_user a u (λ a'. record_info a' r (actor a' c) "user-update" name "success")

  -- The end of `apiUserUpdate`: the check for the last administrator, and the write
  unfoldable pub update_checked : String → User → Request → App U S → Caller → App U S × Status
  update_checked name u r a c =
      if is_enabled_admin u
      then update_write name u r a c
      else elim (is_last_enabled_admin a name) [
        | none ↦ (a, 500)
        | some true ↦ (a, 409)
        | some false ↦ update_write name u r a c
      ]

  -- `apiUserUpdate` after the validation of the body
  unfoldable pub update_valid : String → Request → App U S → Caller → Check User → App U S × Status
  update_valid name r a c (stop st) = (a, st)
  update_valid name r a c (go u) = update_checked name u r a c

  -- `apiUserUpdate` after the lookup of the account
  unfoldable pub update_found :
      String
      → Option UserChange
      → (phc : Option String) → Request
      → App U S
      → Caller
      → Option (Option User)
      → App U S × Status
  update_found name body phc r a c none = (a, 500)
  update_found name body phc r a c (some none) = (a, 404)
  update_found name none phc r a c (some (some u)) = (a, 400)
  update_found name (some change) phc r a c (some (some u)) =
      update_valid name r a c (changed_user change phc u)

  -- `apiUserUpdate`
  unfoldable pub api_user_update :
      String
      → Option UserChange
      → (phc : Option String) → Request
      → App U S
      → Caller
      → App U S × Status
  api_user_update name body phc r a c = update_found name body phc r a c (U.get a.users name)

  -- The two parts of `apiUserDelete`: the check, with its answer, and the deletion
  unfoldable pub delete_refused : String → App U S → Option Status
  delete_refused name a = elim (is_last_enabled_admin a name) [
    | none ↦ some 500
    | some true ↦ some 409
    | some false ↦ none
  ]

  unfoldable pub delete_user : String → Request → App U S → Caller → App U S × Status
  delete_user name r a c =
      let (users, removed) = U.delete a.users name in
      let a' = record a { users = users } in
      elim removed [
        | none ↦ (a', 500)
        | some false ↦ (a', 404)
        | some true ↦ (record_sev a' r (actor a' c) "user-delete" name "success" "warning", 200)
      ]

  -- `apiUserDelete`
  unfoldable pub api_user_delete : String → Request → App U S → Caller → App U S × Status
  api_user_delete name r a c = elim (delete_refused name a) [
    | some st ↦ (a, st)
    | none ↦ delete_user name r a c
  ]

  -- The write at the end of `apiProfilePassword`, with its audit entry; the record is the one that
  -- `auth` has read
  unfoldable pub write_own_password : String → Request → App U S → User → App U S × Status
  write_own_password hash r a u =
      store_user a (record u { phc = hash; must_change_password = false })
        (λ a'. record_info a' r u.username "password-change" "profile" "success")

  -- `apiProfilePassword` for the account of the caller
  unfoldable pub change_own_password :
      Primitives
      → PasswordChange
      → (phc : Option String) → Request
      → App U S
      → User
      → App U S × Status
  change_own_password P change phc r a u =
      if not (P.verify_password change.old_password u.phc)
      then (record_sev a r u.username "password-change" "profile" "denied" "security", 403)
      else if too_short change.new_password
      then (a, 400)
      else elim phc [ none ↦ (a, 500) | some hash ↦ write_own_password hash r a u ]

  -- `apiProfilePassword`
  unfoldable pub api_profile_password :
      Primitives
      → Option PasswordChange
      → (phc : Option String) → Request
      → App U S
      → Caller
      → App U S × Status
  api_profile_password P body phc r a c = elim c.user [
    | none ↦ (a, 401)
    | some u ↦ elim body [ none ↦ (a, 400) | some change ↦ change_own_password P change phc r a u ]
  ]
