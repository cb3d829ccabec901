-- ===== src/Accounts/AdminWrites.antt =====
-- What a write of one account and the record of it in the audit trail leave of the administrators.
use sgsu.Prelude.{true, String, ◌≡◌, ◌⊎◌, inl, inr, refl, arith, sym, subst}
use sgsu.Users.{User, UserStore, UserLaws, is_enabled_admin}
use sgsu.Sessions.{SessionStore}
use sgsu.App.{App, Request, Status, record_sev, record_info}
use sgsu.Accounts.{store_user}
use sgsu.Accounts.AdminCheck.{
  HasAdmin, HasOther, Same-HasAdmin, Wrote-HasAdmin, Wrote-HasOther, rows_of,
}

module _ {U : UserStore} {S : SessionStore} (L : UserLaws U) where
  abbrev pub KeepsUsers : (App U S → App U S) → Type 0
  KeepsUsers after = (a : App U S) → (after a).users ≡ a.users

  pub store_user-HasAdmin :
      (a : App U S) (u : User) (after : App U S → App U S)
      → KeepsUsers after
      → (is_enabled_admin u ≡ true) ⊎ HasOther u.username (rows_of L a)
      → HasAdmin (rows_of L a)
      → HasAdmin (rows_of L (store_user a u after).0)
  unfolding store_user
  store_user-HasAdmin a u after keeps safe admin =
      subst (λ users. HasAdmin (L.rows users)) (sym same) (written safe)
    where
      same : (store_user a u after).0.users ≡ (U.upsert a.users u).0
      same = ground (arith, keeps (record a { users = (U.upsert a.users u).0 }))

      written :
          (is_enabled_admin u ≡ true) ⊎ HasOther u.username (rows_of L a)
          → HasAdmin (L.rows (U.upsert a.users u).0)
      written safe' = elim (L.upsert_rows a.users u) [
        | inr (failed, kept) ↦ Same-HasAdmin (rows_of L a) _ kept admin
        | inl wrote ↦ elim safe' [
          | inl is_admin ↦ Wrote-HasAdmin (rows_of L a) _ u wrote is_admin
          | inr other ↦ Wrote-HasOther (rows_of L a) _ u wrote other
        ]
      ]

  pub record_info-keeps :
      (r : Request) (who : App U S → String) (action target result : String)
      → KeepsUsers (λ a. record_info a r (who a) action target result)
  unfolding record_info record_sev
  record_info-keeps r who action target result a = refl

  -- The answer `o` came with a state from which no administrator is lost.
  abbrev pub Keeps : App U S × Status → Type 0
  Keeps o = HasAdmin (rows_of L o.0)

  pub Keeps-of_eq : {o o' : App U S × Status} → o ≡ o' → Keeps o' → Keeps o
  Keeps-of_eq e h = subst (λ o. HasAdmin (rows_of L o.0)) (sym e) h
