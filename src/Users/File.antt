-- ===== src/Users/File.antt =====
-- cmd/saguaro/users.go: the file-backed store `fileUsers`.
use sgsu.Prelude.{
  ℕ, Bool, true, false, ◌||◌, Option, none, some, String, List, [], ◌∷◌, map, if◌then◌else◌, any,
  ◌≡◌, inl, inr, refl, length, arith, eq_iff, Bool-cases, Option-cases, eq_refl, sym, ◌∙◌, str_eq,
  ◌↔◌,
}
use text.Mathlib.Text.{is_lt}
use Prim.Native.String.{compare}
use sgsu.Prelude.Table.{
  lookup, insert, remove, IsDistinct, lookup-insert, lookup-remove, insert-IsDistinct,
  remove-IsDistinct,
}
use sgsu.Users.{User, Rows, Wrote, Dropped, Has, UserStore, UserLaws}

-- `fileUsers`: the map, the file's last contents, and whether the next write of the file succeeds.
pub record FileUsers : Type 0 where
  pub items : List (String × User)
  pub disk : List (String × User)
  pub writes : List Bool

-- `saveLocked`: the file is replaced by a rename, so a failed write leaves it as it was. A run
-- out of listed outcomes succeeds.
abbrev save : FileUsers → FileUsers × Bool
save s = elim s.writes [
  | [] ↦ (record s { disk = s.items }, true)
  | true ∷ rest ↦ (record s { disk = s.items; writes = rest }, true)
  | false ∷ rest ↦ (record s { writes = rest }, false)
]

-- `out[i].Username < out[j].Username`
abbrev before : User → User → Bool
before u v = is_lt (compare u.username v.username)

unfoldable pub place : User → List User → List User
place u [] = u ∷ []
place u (v ∷ vs) = if before v u then v ∷ place u vs else u ∷ v ∷ vs

-- `sort.Slice` by user name; no two records of the map have the same name.
unfoldable pub sort : List User → List User
unfolding place
sort [] = []
sort (u ∷ us) = place u (sort us)

unfoldable pub file_get : FileUsers → String → Option (Option User)
file_get s username = some (lookup username s.items)

unfoldable pub file_list : FileUsers → Option (List User)
unfolding sort
file_list s = some (sort (map (λ kv. kv.1) s.items))

unfoldable pub file_upsert : FileUsers → User → FileUsers × Bool
file_upsert s u = save (record s { items = insert u.username u s.items })

unfoldable pub file_delete : FileUsers → String → FileUsers × Option Bool
file_delete s username = elim (lookup username s.items) [
  | none ↦ (s, some false)
  | some u ↦
      let (s', saved) = save (record s { items = remove username s.items }) in
      (s', if saved then some true else none)
]

unfoldable pub file_count : FileUsers → Option ℕ
file_count s = some (length s.items)

abbrev pub file_users : UserStore
file_users = record {
  Store = FileUsers;
  get = file_get;
  list = file_list;
  upsert = file_upsert;
  delete = file_delete;
  count = file_count;
}

-- Each record stands under its own user name.
abbrev pub IsNamed : List (String × User) → Type 0
IsNamed [] = Unit
IsNamed ((k, u) ∷ m) = (u.username ≡ k) × IsNamed m

IsNamed-insert : (u : User) (m : List (String × User)) → IsNamed m → IsNamed (insert u.username u m)
unfolding insert
IsNamed-insert u [] h = (refl, tt)
IsNamed-insert u ((k, v) ∷ m) (e, h) = ground (arith, eq_iff k u.username, IsNamed-insert u m h)

IsNamed-remove : (k : String) (m : List (String × User)) → IsNamed m → IsNamed (remove k m)
unfolding remove
IsNamed-remove k [] h = tt
IsNamed-remove k ((j, v) ∷ m) (e, h) = ground (arith, IsNamed-remove k m h)

named-lookup :
    (k : String) (u : User) (m : List (String × User))
    → IsNamed m
    → lookup k m ≡ some u
    → u.username ≡ k
unfolding lookup
named-lookup k u [] h e = cc
named-lookup k u ((j, v) ∷ m) (n, h) e = ground (arith, eq_iff j k, named-lookup k u m h)

any-place : (p : User → Bool) (u : User) (us : List User) → any p (place u us) ≡ (p u || any p us)
unfolding place
any-place p u [] = refl
any-place p u (v ∷ vs) = ground (arith, any-place p u vs)

pub any-sort : (p : User → Bool) (us : List User) → any p (sort us) ≡ any p us
unfolding sort
any-sort p [] = refl
any-sort p (u ∷ us) = ground (arith, any-place p u (sort us), any-sort p us)

module _ (p : User → Bool) where
  pub any-values :
      (m : List (String × User))
      → IsDistinct m
      → any p (map (λ kv. kv.1) m) ≡ true
      → Has (λ k. lookup k m) p
  unfolding lookup
  any-values [] d h = cc
  any-values ((k, u) ∷ m) (new, d) h = elim (Bool-cases (p u)) [
    | inl here ↦ (k, u, rw (eq_refl k), here)
    | inr other ↦
        let (j, v, e, q) = any-values m d (ground arith) in (j, v, ground (arith, eq_iff k j), q)
  ]

  pub any_of_lookup :
      (k : String) (u : User) (m : List (String × User))
      → lookup k m ≡ some u
      → p u ≡ true
      → any p (map (λ kv. kv.1) m) ≡ true
  unfolding lookup
  any_of_lookup k u [] e h = cc
  any_of_lookup k u ((j, v) ∷ m) e h = ground (arith, any_of_lookup k u m)

abbrev pub IsValidFile : FileUsers → Type 0
IsValidFile s = IsDistinct s.items × IsNamed s.items

abbrev pub file_rows : FileUsers → Rows
file_rows s k = lookup k s.items

items-save : (s : FileUsers) → (save s).0.items ≡ s.items
items-save s = ground arith

pub file_upsert-IsValid :
    (s : FileUsers) (u : User) → IsValidFile s → IsValidFile (file_upsert s u).0
unfolding file_upsert
file_upsert-IsValid s u (d, n) =
    rw (items-save (record s { items = insert u.username u s.items }))
      (insert-IsDistinct u.username u s.items d, IsNamed-insert u s.items n)

pub file_delete-IsValid :
    (s : FileUsers) (k : String) → IsValidFile s → IsValidFile (file_delete s k).0
unfolding file_delete
file_delete-IsValid s k (d, n) = elim (Option-cases (lookup k s.items)) [
  | inl e ↦ rw (e, file_delete) (d, n)
  | inr (u, e) ↦
      rw (e, file_delete)
        (rw (items-save (record s { items = remove k s.items }))
          (remove-IsDistinct k s.items d, IsNamed-remove k s.items n))
]

pub lookup-upsert :
    (s : FileUsers) (u : User) (k : String)
    → file_rows (file_upsert s u).0 k ≡ (if str_eq u.username k then some u else file_rows s k)
unfolding file_upsert
lookup-upsert s u k =
    rw (items-save (record s { items = insert u.username u s.items }))
      (lookup-insert u.username k u s.items)

file_upsert_rows :
    (s : FileUsers) (u : User) → Wrote (file_rows s) u (file_rows (file_upsert s u).0)
file_upsert_rows s u = (
  u,
  record { username = refl; phc = refl; role = refl; enabled = refl; must_change = refl },
  lookup-upsert s u,
)

not_missing : (saved : Bool) → (if saved then some true else none) ≡ some false → ⊥
not_missing true h = ground arith
not_missing false h = ground arith

-- A deletion answers that there was no such account exactly where there is none.
pub delete_missing :
    (s : FileUsers) (k : String) → ((file_delete s k).1 ≡ some false) ↔ (lookup k s.items ≡ none)
unfolding file_delete
delete_missing s k = elim (Option-cases (lookup k s.items)) [
  | inl e ↦ (λ h. e, λ h. rw (e, file_delete) refl)
  | inr (u, e) ↦
      let saved = (save (record s { items = remove k s.items })).1 in
      let flag : (file_delete s k).1 ≡ (if saved then some true else none) =
        rw (e, file_delete) refl in
      (λ h. absurd (not_missing saved (sym flag ∙ h)), λ h. ground arith)
]

pub file_delete_rows :
    (s : FileUsers) (k : String) → Dropped (file_rows s) k (file_rows (file_delete s k).0)
unfolding file_delete
file_delete_rows s k = elim (Option-cases (lookup k s.items)) [
  | inl e ↦ rw (e, file_delete) (λ j. ground (arith, eq_iff k j))
  | inr (u, e) ↦
      rw (e, file_delete)
        (λ j. rw (items-save (record s { items = remove k s.items })) (lookup-remove k j s.items))
]

pub empty_of_none : (m : List (String × User)) → ((k : String) → lookup k m ≡ none) → length m ≡ 0
unfolding lookup
empty_of_none [] h = refl
empty_of_none ((k, u) ∷ m) h = ground (arith, h k, eq_refl k)

pub none_of_empty : (m : List (String × User)) → length m ≡ 0 → (k : String) → lookup k m ≡ none
unfolding lookup
none_of_empty [] h k = refl
none_of_empty (x ∷ m) h k = absurd (omega arith)

pub file_users_laws : UserLaws file_users
unfolding file_get file_list file_count
file_users_laws = record {
  IsValid = IsValidFile;
  upsert_IsValid = file_upsert-IsValid;
  delete_IsValid = file_delete-IsValid;
  rows = file_rows;
  named = λ s k u v e. named-lookup k u s.items v.1 e;
  get_rows = λ s k o e. cc;
  list_rows = λ s us p v e. (
    λ h. any-values p s.items v.0 (ground (arith, any-sort p (map (λ kv. kv.1) s.items))),
    λ h. ground (arith, any-sort p (map (λ kv. kv.1) s.items), any_of_lookup p h.0 h.1 s.items),
  );
  upsert_rows = λ s u. inl (file_upsert_rows s u);
  delete_rows = λ s k. inl (file_delete_rows s k);
  count_rows = λ s n e.
      (λ h. none_of_empty s.items (ground arith), λ h. ground (arith, empty_of_none s.items h));
}

pub IsValid-of_names :
    (s : FileUsers) → IsDistinct s.items → IsNamed s.items → file_users_laws.IsValid s
unfolding file_users_laws
IsValid-of_names s d n = (d, n)

pub rows-file : (s : FileUsers) (k : String) → file_users_laws.rows s k ≡ lookup k s.items
unfolding file_users_laws
rows-file s k = refl
