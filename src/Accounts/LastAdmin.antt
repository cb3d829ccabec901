-- ===== src/Accounts/LastAdmin.antt =====
-- The appliance keeps an enabled administrator, whatever the account handlers are asked to do.
use sgsu.Prelude.{
  true, false, Option, none, some, String, ◌≡◌, ◌≢◌, ◌⊎◌, inl, inr, refl, arith, Bool-cases,
  Option-cases, ◌∙◌, sym, subst,
}
use sgsu.Users.{User, UserStore, UserLaws, Dropped, Same, is_enabled_admin}
use sgsu.Sessions.{SessionStore}
use sgsu.App.{App, Request, Caller, record_sev, actor}
use sgsu.Accounts.{
  UserChange, Check, stop, go, is_last, is_last_enabled_admin, update_write, update_valid,
  update_found, update_checked, api_user_update, changed_user, delete_refused, delete_user,
  api_user_delete, change_role, change_enabled, change_password,
}
use sgsu.Accounts.AdminCheck.{
  HasAdmin, HasOther, Same-HasAdmin, Dropped-HasOther, rows_of, not_last-HasOther,
}
use sgsu.Accounts.AdminWrites.{Keeps, Keeps-of_eq, store_user-HasAdmin, record_info-keeps}

username-changed_user :
    (change : UserChange) (phc : Option String) (u v : User)
    → changed_user change phc u ≡ go v
    → v.username ≡ u.username
unfolding changed_user change_role change_enabled change_password
username-changed_user change phc u v h = ground arith

module _ {U : UserStore} {S : SessionStore} (L : UserLaws U) where
  update_write-HasAdmin :
      (name : String) (u : User) (r : Request) (a : App U S) (c : Caller)
      → (is_enabled_admin u ≡ true) ⊎ HasOther u.username (rows_of L a)
      → HasAdmin (rows_of L a)
      → Keeps L (update_write name u r a c)
  unfolding update_write
  update_write-HasAdmin name u r a c safe admin =
      store_user-HasAdmin L a u _
        (record_info-keeps L r (λ a'. actor a' c) "user-update" name "success") safe admin

  update_checked-HasAdmin :
      (name : String) (u : User) (r : Request) (a : App U S) (c : Caller)
      → L.IsValid a.users
      → u.username ≡ name
      → HasAdmin (rows_of L a)
      → Keeps L (update_checked name u r a c)
  unfolding update_checked
  update_checked-HasAdmin name u r a c valid named admin = elim (Bool-cases (is_enabled_admin u)) [
    | inl still ↦
        let same : update_checked name u r a c ≡ update_write name u r a c =
          rw (still, update_checked) in
        Keeps-of_eq L same (update_write-HasAdmin name u r a c (inl still) admin)
    | inr lost ↦ elim (Option-cases (is_last_enabled_admin a name)) [
      | inl failed ↦
          let same : update_checked name u r a c ≡ (a, 500) = ground arith in
          Keeps-of_eq L same admin
      | inr (last, e) ↦ elim (Bool-cases last) [
        | inl is_last ↦
            let same : update_checked name u r a c ≡ (a, 409) = ground arith in
            Keeps-of_eq L same admin
        | inr not_last ↦
            let same : update_checked name u r a c ≡ update_write name u r a c = ground arith in
            let checked : is_last_enabled_admin a name ≡ some false = cc in
            let other : HasOther name (rows_of L a) =
              not_last-HasOther L a name valid checked admin in
            Keeps-of_eq L same (update_write-HasAdmin name u r a c (inr (rw named other)) admin)
      ]
    ]
  ]

  update_valid-HasAdmin :
      (name : String) (change : UserChange) (phc : Option String) (u : User) (r : Request)
      (a : App U S) (c : Caller) (o : Check User)
      → changed_user change phc u ≡ o
      → L.IsValid a.users
      → u.username ≡ name
      → HasAdmin (rows_of L a)
      → Keeps L (update_valid name r a c o)
  unfolding update_valid
  update_valid-HasAdmin name change phc u r a c (stop st) e valid named admin = admin
  update_valid-HasAdmin name change phc u r a c (go v) e valid named admin =
      update_checked-HasAdmin name v r a c valid (username-changed_user change phc u v e ∙ named)
        admin

  update_found-HasAdmin :
      (name : String) (body : Option UserChange) (phc : Option String) (r : Request) (a : App U S)
      (c : Caller) (o : Option (Option User))
      → U.get a.users name ≡ o
      → L.IsValid a.users
      → HasAdmin (rows_of L a)
      → Keeps L (update_found name body phc r a c o)
  unfolding update_found
  update_found-HasAdmin name body phc r a c none e valid admin = admin
  update_found-HasAdmin name body phc r a c (some none) e valid admin = admin
  update_found-HasAdmin name none phc r a c (some (some u)) e valid admin = admin
  update_found-HasAdmin name (some change) phc r a c (some (some u)) e valid admin =
      let held = sym (L.get_rows a.users name (some u) e) in
      update_valid-HasAdmin name change phc u r a c _ refl valid (L.named a.users name u valid held)
        admin

  -- Over a user store that keeps its laws and is valid, a request to change an account leaves an
  -- enabled administrator if there was one before, whatever the request asks for and whatever its
  -- answer.
  pub api_user_update-HasAdmin :
      (name : String) (body : Option UserChange) (phc : Option String) (r : Request) (a : App U S)
      (c : Caller)
      → L.IsValid a.users
      → HasAdmin (rows_of L a)
      → HasAdmin (rows_of L (api_user_update name body phc r a c).0)
  unfolding api_user_update
  api_user_update-HasAdmin name body phc r a c valid admin =
      update_found-HasAdmin name body phc r a c _ refl valid admin

  delete_user-HasAdmin :
      (name : String) (r : Request) (a : App U S) (c : Caller)
      → HasOther name (rows_of L a)
      → HasAdmin (rows_of L a)
      → Keeps L (delete_user name r a c)
  delete_user-HasAdmin name r a c other admin =
      subst (λ users. HasAdmin (L.rows users)) (sym same) (dropped (L.delete_rows a.users name))
    where
      same : (delete_user name r a c).0.users ≡ (U.delete a.users name).0
      same = unfold delete_user record_sev in ground arith

      dropped :
          Dropped (rows_of L a) name (L.rows (U.delete a.users name).0)
            ⊎ (((U.delete a.users name).1 ≢ some true)
                × Same (rows_of L a) (L.rows (U.delete a.users name).0))
          → HasAdmin (L.rows (U.delete a.users name).0)
      dropped (inl gone) = Dropped-HasOther (rows_of L a) _ name gone other
      dropped (inr (failed, kept)) = Same-HasAdmin (rows_of L a) _ kept admin

  -- Over a user store that keeps its laws and is valid, a request to delete an account leaves an
  -- enabled administrator if there was one before, whatever its answer.
  pub api_user_delete-HasAdmin :
      (name : String) (r : Request) (a : App U S) (c : Caller)
      → L.IsValid a.users
      → HasAdmin (rows_of L a)
      → HasAdmin (rows_of L (api_user_delete name r a c).0)
  unfolding api_user_delete delete_refused
  api_user_delete-HasAdmin name r a c valid admin =
      elim (Option-cases (is_last_enabled_admin a name)) [
        | inl failed ↦
            let same : api_user_delete name r a c ≡ (a, 500) = ground arith in
            Keeps-of_eq L same admin
        | inr (last, e) ↦ elim (Bool-cases last) [
          | inl is_last ↦
              let same : api_user_delete name r a c ≡ (a, 409) = ground arith in
              Keeps-of_eq L same admin
          | inr not_last ↦
              let same : api_user_delete name r a c ≡ delete_user name r a c = ground arith in
              let checked : is_last_enabled_admin a name ≡ some false = cc in
              Keeps-of_eq L same (
                delete_user-HasAdmin name r a c (not_last-HasOther L a name valid checked admin)
                  admin)
        ]
      ]
