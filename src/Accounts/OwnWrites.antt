-- ===== src/Accounts/OwnWrites.antt =====
-- The other handlers that write an account: a new account, and a change of the own password.
use sgsu.Prelude.{
  true, Option, none, some, String, ◌≡◌, ◌⊎◌, inl, inr, refl, arith, Bool-cases, sym, subst, ap,
}
use sgsu.Prelude.Text.{trim_space}
use sgsu.Users.{User, UserStore, UserLaws, is_enabled_admin}
use sgsu.Sessions.{SessionStore}
use sgsu.App.{App, Request, Caller, Primitives, record_sev, actor}
use sgsu.Accounts.{
  NewUser, PasswordChange, new_user, create_absent, api_user_create, write_own_password,
  change_own_password, api_profile_password,
}
use sgsu.Accounts.AdminCheck.{HasAdmin, HasOther, rows_of}
use sgsu.Accounts.AdminWrites.{Keeps, Keeps-of_eq, store_user-HasAdmin, record_info-keeps}

module _ {U : UserStore} {S : SessionStore} (L : UserLaws U) where
  create_absent-HasAdmin :
      (username role : String) (phc : Option String) (r : Request) (a : App U S) (c : Caller)
      (o : Option (Option User))
      → U.get a.users username ≡ o
      → HasAdmin (rows_of L a)
      → Keeps L (create_absent username role phc r a c o)
  unfolding create_absent
  create_absent-HasAdmin username role phc r a c none e admin = admin
  create_absent-HasAdmin username role phc r a c (some (some u)) e admin = admin
  create_absent-HasAdmin username role none r a c (some none) e admin = admin
  create_absent-HasAdmin username role (some hash) r a c (some none) e (k, w, f, h) =
      let free = L.get_rows a.users username none e in
      store_user-HasAdmin L a (new_user username role hash r.now) _
        (record_info-keeps L r (λ a'. actor a' c) "user-create" username "success")
        (inr (k, w, f, h, λ same. ground (arith, ap (rows_of L a) same))) (k, w, f, h)

  create_cases :
      (P : Primitives) (body : NewUser) (phc : Option String) (r : Request) (a : App U S)
      (c : Caller)
      → (api_user_create P (some body) phc r a c ≡ (a, 400))
        ⊎ (api_user_create P (some body) phc r a c
            ≡ create_absent
                (P.to_lower (trim_space body.username))
                body.role
                phc
                r
                a
                c
                (U.get a.users (P.to_lower (trim_space body.username))))
  unfolding api_user_create
  create_cases P body phc r a c = ground arith

  -- A request for a new account leaves an enabled administrator if there was one before.
  pub api_user_create-HasAdmin :
      (P : Primitives) (body : Option NewUser) (phc : Option String) (r : Request) (a : App U S)
      (c : Caller)
      → HasAdmin (rows_of L a)
      → HasAdmin (rows_of L (api_user_create P body phc r a c).0)
  api_user_create-HasAdmin P none phc r a c admin = unfold api_user_create in admin
  api_user_create-HasAdmin P (some body) phc r a c admin = elim (create_cases P body phc r a c) [
    | inl refused ↦ Keeps-of_eq L refused admin
    | inr made ↦ Keeps-of_eq L made (
        create_absent-HasAdmin (P.to_lower (trim_space body.username)) body.role phc r a c _ refl
          admin)
  ]

  write_own_password-HasAdmin :
      (hash : String) (r : Request) (a : App U S) (u : User)
      → rows_of L a u.username ≡ some u
      → HasAdmin (rows_of L a)
      → Keeps L (write_own_password hash r a u)
  unfolding write_own_password
  write_own_password-HasAdmin hash r a u fresh (k, w, f, h) =
      store_user-HasAdmin L a _ _
        (record_info-keeps L r (λ _. u.username) "password-change" "profile" "success") safe
        (k, w, f, h)
    where
      safe : (is_enabled_admin u ≡ true) ⊎ HasOther u.username (rows_of L a)
      safe = elim (Bool-cases (is_enabled_admin u)) [
        | inl is_admin ↦ inl is_admin
        | inr plain ↦ inr (k, w, f, h, λ same. ground (arith, ap (rows_of L a) same))
      ]

  own_password_cases :
      (P : Primitives) (change : PasswordChange) (hash : String) (r : Request) (a : App U S)
      (u : User)
      → ((change_own_password P change (some hash) r a u).0.users ≡ a.users)
        ⊎ (change_own_password P change (some hash) r a u ≡ write_own_password hash r a u)
  unfolding change_own_password record_sev
  own_password_cases P change hash r a u = ground arith

  own_password_failed :
      (P : Primitives) (change : PasswordChange) (r : Request) (a : App U S) (u : User)
      → (change_own_password P change none r a u).0.users ≡ a.users
  unfolding change_own_password record_sev
  own_password_failed P change r a u = ground arith

  own_password-HasAdmin :
      (P : Primitives) (change : PasswordChange) (phc : Option String) (r : Request) (a : App U S)
      (u : User)
      → rows_of L a u.username ≡ some u
      → HasAdmin (rows_of L a)
      → Keeps L (change_own_password P change phc r a u)
  own_password-HasAdmin P change none r a u fresh admin =
      subst (λ users. HasAdmin (L.rows users)) (sym (own_password_failed P change r a u)) admin
  own_password-HasAdmin P change (some hash) r a u fresh admin =
      elim (own_password_cases P change hash r a u) [
        | inl kept ↦ subst (λ users. HasAdmin (L.rows users)) (sym kept) admin
        | inr wrote ↦ Keeps-of_eq L wrote (write_own_password-HasAdmin hash r a u fresh admin)
      ]

  -- So does a change of the own password, if the record that `auth` read is still the stored one.
  pub api_profile_password-HasAdmin :
      (P : Primitives) (body : Option PasswordChange) (phc : Option String) (r : Request)
      (a : App U S) (c : Caller) (u : User)
      → c.user ≡ some u
      → rows_of L a u.username ≡ some u
      → HasAdmin (rows_of L a)
      → HasAdmin (rows_of L (api_profile_password P body phc r a c).0)
  unfolding api_profile_password
  api_profile_password-HasAdmin P none phc r a c u e fresh admin =
      let same : api_profile_password P none phc r a c ≡ (a, 400) = ground arith in
      Keeps-of_eq L same admin
  api_profile_password-HasAdmin P (some change) phc r a c u e fresh admin =
      let same : api_profile_password P (some change) phc r a c
          ≡ change_own_password P change phc r a u =
        ground arith in
      Keeps-of_eq L same (own_password-HasAdmin P change phc r a u fresh admin)
