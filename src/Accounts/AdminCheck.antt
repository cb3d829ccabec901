-- ===== src/Accounts/AdminCheck.antt =====
-- The check for the last enabled administrator, and what the writes of one account leave of the
-- administrators.
use sgsu.Prelude.{
  ℕ, suc, Bool, true, false, not, ◌&&◌, ◌||◌, none, some, String, List, [], ◌∷◌, str_eq,
  if◌then◌else◌, any, ◌≡◌, ◌≢◌, inl, inr, arith, eq_iff, eq_refl, Bool-cases, Option-cases, ◌==◌,
  ◌∙◌,
}
use sgsu.Users.{User, UserStore, UserLaws, Has, Wrote, Dropped, Same, Rows, is_enabled_admin}
use sgsu.Sessions.{SessionStore}
use sgsu.App.{App}
use sgsu.Accounts.{tally, is_last, is_last_enabled_admin}

abbrev pub other_admin : String → User → Bool
other_admin name u = is_enabled_admin u && not (str_eq u.username name)

abbrev this_admin : String → User → Bool
this_admin name u = is_enabled_admin u && str_eq u.username name

tally-any :
    (name : String) (us : List User) (target : Bool) (others : ℕ)
    → ((tally name us target others).0 ≡ (target || any (this_admin name) us))
      × (((tally name us target others).1 == 0) ≡ (others == 0 && not (any (other_admin name) us)))
unfolding tally
tally-any name [] target others = ground arith
tally-any name (u ∷ us) target others = ground (
  arith,
  tally-any name us (if is_enabled_admin u && str_eq u.username name then true else target)
      (if is_enabled_admin u && not (str_eq u.username name) then suc others else others),
)

pub is_last-any :
    (name : String) (us : List User)
    → is_last name us ≡ (any (this_admin name) us && not (any (other_admin name) us))
unfolding is_last
is_last-any name us = ground (arith, tally-any name us false 0)

-- An enabled administrator exists.
abbrev pub HasAdmin : Rows → Type 0
HasAdmin rows = Has rows is_enabled_admin

-- An enabled administrator exists beside the account of this name.
abbrev pub HasOther : String → Rows → Type 0
HasOther name rows =
    (k : String) × (u : User) × (rows k ≡ some u) × (is_enabled_admin u ≡ true) × (k ≢ name)

pub Same-HasAdmin : (before after : Rows) → Same before after → HasAdmin before → HasAdmin after
Same-HasAdmin before after same (k, u, e, h) = (k, u, same k ∙ e, h)

pub Wrote-HasAdmin :
    (before after : Rows) (u : User)
    → Wrote before u after
    → is_enabled_admin u ≡ true
    → HasAdmin after
Wrote-HasAdmin before after u (v, same, w) h = (
  u.username,
  v,
  w u.username ∙ (rw (eq_refl u.username)),
  ground (arith, same.role, same.enabled),
)

pub Wrote-HasOther :
    (before after : Rows) (u : User)
    → Wrote before u after
    → HasOther u.username before
    → HasAdmin after
Wrote-HasOther before after u (v, same, w) (k, x, e, h, other) =
    (k, x, ground (arith, w k, eq_iff u.username k), h)

pub Dropped-HasOther :
    (before after : Rows) (name : String)
    → Dropped before name after
    → HasOther name before
    → HasAdmin after
Dropped-HasOther before after name w (k, x, e, h, other) =
    (k, x, ground (arith, w k, eq_iff name k), h)

module _ {U : UserStore} {S : SessionStore} (L : UserLaws U) where
  abbrev pub rows_of : App U S → Rows
  rows_of a = L.rows a.users

  -- If the check for the last administrator passes, another one exists.
  pub not_last-HasOther :
      (a : App U S) (name : String)
      → L.IsValid a.users
      → is_last_enabled_admin a name ≡ some false
      → HasAdmin (rows_of a)
      → HasOther name (rows_of a)
  unfolding is_last_enabled_admin
  not_last-HasOther a name valid checked (k, u, e, h) = elim (Bool-cases (str_eq k name)) [
    | inr other ↦ (k, u, e, h, ground (arith, eq_iff k name))
    | inl same ↦ elim (Option-cases (U.list a.users)) [
      | inl failed ↦
          let no : none ≡ some false = rw (failed, is_last_enabled_admin) at checked in cc
      | inr (us, listed) ↦
          let this : any (this_admin name) us ≡ true =
            (L.list_rows a.users us (this_admin name) valid listed).1 (
              k,
              u,
              e,
              ground (arith, eq_iff k name, eq_iff u.username name, L.named a.users k u valid e),
            ) in
          let others : any (other_admin name) us ≡ true = ground (arith, is_last-any name us) in
          let (j, v, f, q) = (L.list_rows a.users us (other_admin name) valid listed).0 others in
          (
            j,
            v,
            f,
            ground arith,
            ground (arith, eq_iff v.username name, L.named a.users j v valid f),
          )
    ]
  ]
