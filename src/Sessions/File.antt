-- ===== src/Sessions/File.antt =====
-- cmd/saguaro/sessions.go: the file-backed store `fileSessions`.
use sgsu.Prelude.{
  ℕ, Bool, true, false, Option, none, some, String, List, [], ◌∷◌, str_eq, ltb, map, if◌then◌else◌,
  not, any, keep,
}
use sgsu.Prelude.Table.{lookup, insert, remove}
use sgsu.Sessions.{Session, SessionStore}

-- `fileSessions`: the map, the file's last contents, and the outcomes of the writes to come.
pub record FileSessions : Type 0 where
  pub items : List (String × Session)
  pub disk : List (String × Session)
  pub writes : List Bool

-- `saveLocked`: a failed write leaves the file as it was. After the listed outcomes, writes
-- succeed.
abbrev pub save : FileSessions → FileSessions × Bool
save s = elim s.writes [
  | [] ↦ (record s { disk = s.items }, true)
  | true ∷ rest ↦ (record s { disk = s.items; writes = rest }, true)
  | false ∷ rest ↦ (record s { writes = rest }, false)
]

unfoldable pub create : FileSessions → Session → FileSessions × Bool
create s r = save (record s { items = insert r.token_hash r s.items })

unfoldable pub get : FileSessions → String → Option (Option Session)
get s token_hash = some (lookup token_hash s.items)

unfoldable pub delete : FileSessions → String → FileSessions × Bool
delete s token_hash = save (record s { items = remove token_hash s.items })

-- The key of the first session with the short id, in the order of iteration.
unfoldable pub find_id : String → List (String × Session) → Option String
find_id id [] = none
find_id id ((hash, r) ∷ m) = if str_eq r.id id then some hash else find_id id m

unfoldable pub delete_by_id : FileSessions → String → FileSessions × Option Bool
unfolding find_id
delete_by_id s id = elim (find_id id s.items) [
  | none ↦ (s, some false)
  | some hash ↦
      let (s', saved) = save (record s { items = remove hash s.items }) in
      (s', if saved then some true else none)
]

-- `out[i].CreatedAt.After(out[j].CreatedAt)`, in a sort
unfoldable pub place : Session → List Session → List Session
place r [] = r ∷ []
place r (q ∷ qs) = if ltb r.created_at q.created_at then q ∷ place r qs else r ∷ q ∷ qs

unfoldable pub newest_first : List Session → List Session
unfolding place
newest_first [] = []
newest_first (r ∷ rs) = place r (newest_first rs)

unfoldable pub list : FileSessions → Option (List Session)
unfolding newest_first
list s = some (newest_first (map (λ kv. kv.1) s.items))

abbrev pub is_expired : ℕ → String × Session → Bool
is_expired now (_, r) = ltb r.expires_at now

unfoldable pub prune_expired : FileSessions → ℕ → FileSessions × Bool
prune_expired s now =
    if any (is_expired now) s.items
    then save (record s { items = keep (λ kv. not (is_expired now kv)) s.items })
    else (s, true)

abbrev pub file_sessions : SessionStore
file_sessions = record {
  Store = FileSessions;
  create = create;
  get = get;
  delete = delete;
  delete_by_id = delete_by_id;
  list = list;
  prune_expired = prune_expired;
}
