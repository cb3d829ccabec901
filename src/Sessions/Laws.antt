-- ===== src/Sessions/Laws.antt =====
-- The file-backed session store: what each method does to the sessions.
use sgsu.Prelude.{
  ℕ, false, Option, none, some, String, List, [], ◌∷◌, str_eq, ltb, ◌≡◌, ◌⊎◌, if◌then◌else◌, not,
  any, keep, inl, inr, refl, arith, eq_iff, Option-cases, Bool-cases, ◌≢◌, ◌∙◌, ◌≤◌,
}
use sgsu.Prelude.Table.{
  lookup, insert, remove, IsDistinct, passing, lookup-insert, lookup-remove, lookup-keep,
}
use sgsu.Sessions.{Session, Rows, SessionLaws}
use sgsu.Sessions.File.{
  FileSessions, save, create, get, delete, find_id, delete_by_id, place, newest_first, is_expired,
  prune_expired, file_sessions,
}

pub items-save : (s : FileSessions) → (save s).0.items ≡ s.items
items-save s = ground arith

abbrev pub rows : FileSessions → Rows
rows s k = lookup k s.items

-- A session is found under its hash after it is created, whatever the write to the file does, and
-- no other session is touched.
pub lookup-create :
    (s : FileSessions) (r : Session) (k : String)
    → rows (create s r).0 k ≡ (if str_eq r.token_hash k then some r else rows s k)
unfolding create
lookup-create s r k =
    rw (items-save (record s { items = insert r.token_hash r s.items }))
      (lookup-insert r.token_hash k r s.items)

pub lookup-delete :
    (s : FileSessions) (h k : String)
    → rows (delete s h).0 k ≡ (if str_eq h k then none else rows s k)
unfolding delete
lookup-delete s h k =
    rw (items-save (record s { items = remove h s.items })) (lookup-remove h k s.items)

-- The file-backed store is a session store.
pub file_sessions_laws : SessionLaws file_sessions
unfolding get
file_sessions_laws = record {
  rows = rows;
  get_rows = λ s k o e. cc;
  create_rows = λ s r. inl (lookup-create s r);
  delete_rows = λ s h. inl (lookup-delete s h);
}

abbrev pub IsValid : FileSessions → Type 0
IsValid s = IsDistinct s.items

-- What `prune_expired` leaves of a session.
abbrev pub unless_expired : ℕ → Option Session → Option Session
unless_expired now none = none
unless_expired now (some r) = if ltb r.expires_at now then none else some r

passing_expired :
    (now : ℕ) (k : String) (o : Option Session)
    → passing (λ kv. not (is_expired now kv)) k o ≡ unless_expired now o
passing_expired now k none = refl
passing_expired now k (some r) = ground arith

lookup_fresh :
    (now : ℕ) (k : String) (m : List (String × Session))
    → any (is_expired now) m ≡ false
    → lookup k m ≡ unless_expired now (lookup k m)
unfolding lookup
lookup_fresh now k [] h = refl
lookup_fresh now k ((j, r) ∷ m) h = ground (arith, lookup_fresh now k m)

-- `PruneExpired` removes exactly the sessions that are past their expiry at `now`.
pub lookup-prune_expired :
    (s : FileSessions) (now : ℕ) (k : String)
    → IsValid s
    → rows (prune_expired s now).0 k ≡ unless_expired now (rows s k)
unfolding prune_expired
lookup-prune_expired s now k d = elim (Bool-cases (any (is_expired now) s.items)) [
  | inl some_expired ↦
      rw (some_expired, prune_expired)
        (rw (items-save (record s { items = keep (λ kv. not (is_expired now kv)) s.items })) (
          lookup-keep (λ kv. not (is_expired now kv)) k s.items d
          ∙ passing_expired now k (lookup k s.items)))
  | inr all_fresh ↦ rw (all_fresh, prune_expired) (lookup_fresh now k s.items all_fresh)
]

find_id-some :
    (id h : String) (m : List (String × Session))
    → IsDistinct m
    → find_id id m ≡ some h
    → (r : Session) × (lookup h m ≡ some r) × (r.id ≡ id)
unfolding find_id lookup
find_id-some id h [] d e = cc
find_id-some id h ((j, r) ∷ m) (new, d) e = elim (Bool-cases (str_eq r.id id)) [
  | inl same ↦ (r, ground (arith, eq_iff j h), (eq_iff r.id id).0 same)
  | inr other ↦
      let (q, found, named) = find_id-some id h m d (ground arith) in
      (q, ground (arith, eq_iff j h), named)
]

find_id-none :
    (id k : String) (r : Session) (m : List (String × Session))
    → find_id id m ≡ none
    → lookup k m ≡ some r
    → r.id ≢ id
unfolding find_id lookup
find_id-none id k r [] e f = cc
find_id-none id k r ((j, q) ∷ m) e f =
    ground (arith, find_id-none id k r m, eq_iff q.id id, eq_iff j k)

-- One session with the short id, and only that one, is gone.
abbrev pub RemovesOne : String → Rows → Rows → Type 0
RemovesOne id before after =
    (h : String) × (r : Session) × (before h ≡ some r)
    × (r.id ≡ id)
    × ((k : String) → after k ≡ (if str_eq h k then none else before k))

-- `DeleteByID` removes exactly one session with the id, also where several have it, and answers
-- `false` only if no session has it, in which case all sessions stay.
pub rows-delete_by_id :
    (s : FileSessions) (id : String)
    → IsValid s
    → (RemovesOne id (rows s) (rows (delete_by_id s id).0) × ((delete_by_id s id).1 ≢ some false))
      ⊎ ((delete_by_id s id ≡ (s, some false))
          × ((k : String) (r : Session) → rows s k ≡ some r → r.id ≢ id))
unfolding delete_by_id
rows-delete_by_id s id d = elim (Option-cases (find_id id s.items)) [
  | inl missing ↦ inr (rw (missing, delete_by_id), λ k r e. find_id-none id k r s.items missing e)
  | inr (h, found) ↦
      let (r, e, named) = find_id-some id h s.items d found in
      inl (
        (
          h,
          r,
          e,
          named,
          λ k.
              rw (found, delete_by_id)
                (rw (items-save (record s { items = remove h s.items }))
                  (lookup-remove h k s.items)),
        ),
        rw (found, delete_by_id) (ground arith),
      )
]

abbrev pub IsNewestFirst : List Session → Type 0
IsNewestFirst [] = Unit
IsNewestFirst (r ∷ []) = Unit
IsNewestFirst (r ∷ q ∷ qs) = (q.created_at ≤ r.created_at) × IsNewestFirst (q ∷ qs)

place-IsNewestFirst :
    (r : Session) (rs : List Session) → IsNewestFirst rs → IsNewestFirst (place r rs)
unfolding place
place-IsNewestFirst r [] h = tt
place-IsNewestFirst r (q ∷ []) h = ground arith
place-IsNewestFirst r (q ∷ p ∷ ps) h = ground (arith, place-IsNewestFirst r (p ∷ ps))

newest_first-IsNewestFirst : (rs : List Session) → IsNewestFirst (newest_first rs)
unfolding newest_first
newest_first-IsNewestFirst [] = tt
newest_first-IsNewestFirst (r ∷ rs) =
    place-IsNewestFirst r (newest_first rs) (newest_first-IsNewestFirst rs)
