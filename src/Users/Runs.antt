-- ===== src/Users/Runs.antt =====
-- cmd/saguaro/users.go: what the file-backed store shows after any writes.
use sgsu.Prelude.{
  ℕ, Bool, true, false, none, some, String, List, [], ◌∷◌, map, if◌then◌else◌, any, str_eq, length,
  ◌≡◌, ◌↔◌, refl, ap, sym, subst, ◌∙◌,
}
use sgsu.Prelude.Table.{lookup, IsDistinct}
use sgsu.Users.{User, Rows, Has}
use sgsu.Users.File.{
  FileUsers, sort, file_get, file_list, file_upsert, file_delete, file_count, file_users, IsNamed,
  IsValidFile, file_rows, any-sort, any-values, any_of_lookup, file_upsert-IsValid,
  file_delete-IsValid, lookup-upsert, delete_missing, file_delete_rows, empty_of_none,
  none_of_empty,
}

-- A change of the accounts
pub data Write : Type 0 where
  put : User → Write
  drop_name : String → Write

-- The store after writes, each of which may or may not reach the file
unfoldable pub after : List Write → FileUsers → FileUsers
unfolding file_upsert file_delete
after [] s = s
after (put u ∷ ws) s = after ws (file_upsert s u).0
after (drop_name k ∷ ws) s = after ws (file_delete s k).0

-- The same writes to a function from names to accounts
unfoldable pub reference : List Write → Rows → Rows
reference [] rows = rows
reference (put u ∷ ws) rows = reference ws (λ k. if str_eq u.username k then some u else rows k)
reference (drop_name n ∷ ws) rows = reference ws (λ k. if str_eq n k then none else rows k)

file_rows-after :
    (ws : List Write) (s : FileUsers) → file_rows (after ws s) ≡ reference ws (file_rows s)
unfolding after reference
file_rows-after [] s = refl
file_rows-after (put u ∷ ws) s =
    file_rows-after ws (file_upsert s u).0 ∙ ap (reference ws) (λ i k. lookup-upsert s u k i)
file_rows-after (drop_name n ∷ ws) s =
    file_rows-after ws (file_delete s n).0 ∙ ap (reference ws) (λ i k. file_delete_rows s n k i)

after-IsValid : (ws : List Write) (s : FileUsers) → IsValidFile s → IsValidFile (after ws s)
unfolding after
after-IsValid [] s h = h
after-IsValid (put u ∷ ws) s h = after-IsValid ws (file_upsert s u).0 (file_upsert-IsValid s u h)
after-IsValid (drop_name n ∷ ws) s h =
    after-IsValid ws (file_delete s n).0 (file_delete-IsValid s n h)

-- What a store shows of the accounts: a lookup, a listing, the count, and the answer to a deletion
abbrev pub Shows : FileUsers → Rows → Type 0
Shows s rows =
    ((k : String) → file_users.get s k ≡ some (rows k))
    × ((us : List User) × (file_users.list s ≡ some us)
        × ((p : User → Bool) → (any p us ≡ true) ↔ Has rows p))
    × ((n : ℕ) × (file_users.count s ≡ some n) × ((n ≡ 0) ↔ ((k : String) → rows k ≡ none)))
    × ((k : String) → ((file_users.delete s k).1 ≡ some false) ↔ (rows k ≡ none))

file_rows-Shows : (s : FileUsers) → IsValidFile s → Shows s (file_rows s)
unfolding file_get file_list file_count
file_rows-Shows s v = (
  λ k. refl,
  (
    sort (map (λ kv. kv.1) s.items),
    refl,
    λ p. (
      λ h. any-values p s.items v.0 (sym (any-sort p (map (λ kv. kv.1) s.items)) ∙ h),
      λ h. any-sort p (map (λ kv. kv.1) s.items) ∙ any_of_lookup p h.0 h.1 s.items h.2 h.3,
    ),
  ),
  (length s.items, refl, (none_of_empty s.items, empty_of_none s.items)),
  delete_missing s,
)

-- The file-backed store, from a map that lists each name once and each account under its own name,
-- after any writes and deletions and whatever becomes of the file: a lookup answers the account that
-- the same changes of a function from names to accounts leave under the name, a listing has an account
-- of a kind exactly if that function has one, the count is 0 exactly if it has none, and a deletion
-- answers that there was no such account exactly where it has none under the name.
pub file_users_refines :
    (ws : List Write) (s : FileUsers)
    → IsDistinct s.items
    → IsNamed s.items
    → Shows (after ws s) (reference ws (λ k. lookup k s.items))
file_users_refines ws s d n =
    subst (Shows (after ws s)) (file_rows-after ws s)
      (file_rows-Shows (after ws s) (after-IsValid ws s (d, n)))
