-- ===== src/Sessions/Runs.antt =====
-- cmd/saguaro/sessions.go: what the file-backed store shows after any of its operations.
use sgsu.Prelude.{
  ℕ, none, some, String, List, [], ◌∷◌, not, any, keep, if◌then◌else◌, str_eq, ◌≡◌, ◌≢◌, ◌⊎◌, refl,
  Bool-cases, Option-cases, inl, inr, ap,
}
use sgsu.Prelude.Table.{
  lookup, insert, remove, IsDistinct, insert-IsDistinct, remove-IsDistinct, keep-IsDistinct,
}
use sgsu.Sessions.{Session, Rows}
use sgsu.Sessions.File.{
  FileSessions, create, get, delete, find_id, delete_by_id, is_expired, prune_expired,
  file_sessions,
}
use sgsu.Sessions.Laws.{
  IsValid, RemovesOne, unless_expired, rows, items-save, lookup-create, lookup-delete,
  lookup-prune_expired, rows-delete_by_id,
}

-- An operation on the sessions
pub data Operation : Type 0 where
  creates : Session → Operation
  deletes : String → Operation
  deletes_id : String → Operation
  prunes : ℕ → Operation

-- The store after an operation, which may or may not reach the file
unfoldable pub perform : Operation → FileSessions → FileSessions
unfolding create delete delete_by_id prune_expired
perform (creates r) s = (create s r).0
perform (deletes h) s = (delete s h).0
perform (deletes_id id) s = (delete_by_id s id).0
perform (prunes now) s = (prune_expired s now).0

unfoldable pub perform_all : List Operation → FileSessions → FileSessions
unfolding perform
perform_all [] s = s
perform_all (c ∷ cs) s = perform_all cs (perform c s)

-- What an operation should do to the sessions under their hashes: a creation puts one session, a
-- deletion takes one away, one by the short id takes away one session that has it, or none where none
-- has it, and a pruning takes away those that are past their expiry.
pub Does : Operation → Rows → Rows → Type 0
Does (creates r) before after =
    (k : String) → after k ≡ (if str_eq r.token_hash k then some r else before k)
Does (deletes h) before after = (k : String) → after k ≡ (if str_eq h k then none else before k)
Does (deletes_id id) before after =
    RemovesOne id before after
    ⊎ ((after ≡ before) × ((k : String) (r : Session) → before k ≡ some r → r.id ≢ id))
Does (prunes now) before after = (k : String) → after k ≡ unless_expired now (before k)

pub DoesAll : List Operation → Rows → Rows → Type 0
DoesAll [] before after = after ≡ before
DoesAll (c ∷ cs) before after = (between : Rows) × Does c before between × DoesAll cs between after

delete_by_id-IsValid : (s : FileSessions) (id : String) → IsValid s → IsValid (delete_by_id s id).0
unfolding delete_by_id
delete_by_id-IsValid s id d = elim (Option-cases (find_id id s.items)) [
  | inl e ↦ rw (e, delete_by_id) d
  | inr (h, e) ↦
      rw (e, delete_by_id)
        (rw (items-save (record s { items = remove h s.items })) (remove-IsDistinct h s.items d))
]

prune_expired-IsValid : (s : FileSessions) (now : ℕ) → IsValid s → IsValid (prune_expired s now).0
unfolding prune_expired
prune_expired-IsValid s now d = elim (Bool-cases (any (is_expired now) s.items)) [
  | inl over ↦
      rw (over, prune_expired)
        (rw (items-save (record s { items = keep (λ kv. not (is_expired now kv)) s.items }))
          (keep-IsDistinct (λ kv. not (is_expired now kv)) s.items d))
  | inr fresh ↦ rw (fresh, prune_expired) d
]

perform-IsValid : (c : Operation) (s : FileSessions) → IsValid s → IsValid (perform c s)
unfolding perform create delete
perform-IsValid (creates r) s d =
    rw (items-save (record s { items = insert r.token_hash r s.items }))
      (insert-IsDistinct r.token_hash r s.items d)
perform-IsValid (deletes h) s d =
    rw (items-save (record s { items = remove h s.items })) (remove-IsDistinct h s.items d)
perform-IsValid (deletes_id id) s d = delete_by_id-IsValid s id d
perform-IsValid (prunes now) s d = prune_expired-IsValid s now d

perform-Does : (c : Operation) (s : FileSessions) → IsValid s → Does c (rows s) (rows (perform c s))
unfolding perform Does
perform-Does (creates r) s d = lookup-create s r
perform-Does (deletes h) s d = lookup-delete s h
perform-Does (deletes_id id) s d = elim (rows-delete_by_id s id d) [
  | inl (one, answer) ↦ inl one
  | inr (same, nobody) ↦ inr (ap (λ x. rows x.0) same, nobody)
]
perform-Does (prunes now) s d = λ k. lookup-prune_expired s now k d

perform_all-DoesAll :
    (cs : List Operation) (s : FileSessions)
    → IsValid s
    → DoesAll cs (rows s) (rows (perform_all cs s))
unfolding perform_all DoesAll
perform_all-DoesAll [] s d = refl
perform_all-DoesAll (c ∷ cs) s d = (
  rows (perform c s),
  perform-Does c s d,
  perform_all-DoesAll cs (perform c s) (perform-IsValid c s d),
)

-- The file-backed store, from a map that lists each hash once, after any creations, deletions by hash
-- or by short id and prunings, and whatever becomes of the file: a lookup answers, under every hash,
-- the session that operations which do what they should leave there.
pub file_sessions_refines :
    (cs : List Operation) (s : FileSessions)
    → IsDistinct s.items
    → (after : Rows) × DoesAll cs (λ k. lookup k s.items) after
      × ((k : String) → file_sessions.get (perform_all cs s) k ≡ some (after k))
unfolding get
file_sessions_refines cs s d = (rows (perform_all cs s), perform_all-DoesAll cs s d, λ k. refl)
