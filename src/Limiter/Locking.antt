-- ===== src/Limiter/Locking.antt =====
-- What `check` answers after a failure, a success or a pruning.
use sgsu.Prelude.{
  ℕ, ◌+◌, ◌-◌, ◌≤◌, ◌<◌, ◌≡◌, refl, true, false, not, Option, none, some, String, arith, leb,
  str_eq, if◌then◌else◌, eq_refl, ◌∙◌,
}
use sgsu.Prelude.Table.{
  lookup, IsDistinct, passing, lookup-insert, lookup-remove, lookup-keep, insert-IsDistinct,
  remove-IsDistinct, keep-IsDistinct,
}
use sgsu.Limiter.{
  Limiter, Entry, lock_duration, check, check_entry, entry_or_new, fail_entry, fail, success, prune,
  is_idle,
}

pub lookup-fail :
    (l : Limiter) (key other : String) (now : ℕ)
    → lookup other (fail l key now).0.entries ≡ (
        if str_eq key other
        then some (fail_entry l (entry_or_new (lookup key l.entries)) now)
        else lookup other l.entries)
unfolding fail
lookup-fail l key other now = lookup-insert key other _ l.entries

locked_until-fail :
    (l : Limiter) (key : String) (now : ℕ)
    → 0 < (fail l key now).1
    → (fail_entry l (entry_or_new (lookup key l.entries)) now).locked_until
      ≡ now + (fail l key now).1
unfolding fail fail_entry lock_duration
locked_until-fail l key now h = ground arith

-- A failure that triggers a lock of `d` > 0 makes `check` refuse the key up to and including
-- `now + d`, with the time that is left, and let it through after that.
check-fail :
    (l : Limiter) (key : String) (now later : ℕ)
    → 0 < (fail l key now).1
    → check (fail l key now).0 key later ≡ (
        if leb later (now + (fail l key now).1)
        then (true, now + (fail l key now).1 - later)
        else (false, 0))
unfolding check
check-fail l key now later h =
    rw (lookup-fail l key key now, eq_refl key, locked_until-fail l key now h) (ground arith)

-- `success` makes `check` let the key through at once and forgets its failures, and what `check`
-- answers for any other key stays as it was.
pub check-success :
    (l : Limiter) (key other : String) (now : ℕ)
    → check (success l key) other now ≡ (if str_eq key other then (false, 0) else check l other now)
unfolding check success
check-success l key other now = rw (lookup-remove key other l.entries) (ground arith)

-- No key has two entries in the map.
abbrev pub IsValid : Limiter → Type 0
IsValid l = IsDistinct l.entries

pub fail-IsValid : (l : Limiter) (key : String) (now : ℕ) → IsValid l → IsValid (fail l key now).0
unfolding fail
fail-IsValid l key now d = insert-IsDistinct key _ l.entries d

pub success-IsValid : (l : Limiter) (key : String) → IsValid l → IsValid (success l key)
unfolding success
success-IsValid l key d = remove-IsDistinct key l.entries d

pub prune-IsValid : (l : Limiter) (now : ℕ) → IsValid l → IsValid (prune l now)
unfolding prune
prune-IsValid l now d = keep-IsDistinct _ l.entries d

-- What stands under a key after a pruning: an entry stays unless it is idle for longer than the
-- cap and its lock is over.
abbrev pub unless_idle : Limiter → ℕ → Option Entry → Option Entry
unless_idle l now none = none
unless_idle l now (some e) = if is_idle l now e then none else some e

pub lookup-prune :
    (l : Limiter) (key : String) (now : ℕ)
    → IsValid l
    → lookup key (prune l now).entries ≡ unless_idle l now (lookup key l.entries)
unfolding prune
lookup-prune l key now d =
    lookup-keep (λ kv. not (is_idle l now kv.1)) key l.entries d
    ∙ passing_idle (lookup key l.entries)
  where
    passing_idle :
        (o : Option Entry) → passing (λ kv. not (is_idle l now kv.1)) key o ≡ unless_idle l now o
    passing_idle none = refl
    passing_idle (some e) = ground arith

-- On a limiter with at most one entry for each key, pruning at `now` changes the answer of `check`
-- for no key at any time from `now` on.
check-prune :
    (l : Limiter) (key : String) (now later : ℕ)
    → IsValid l
    → now ≤ later
    → check (prune l now) key later ≡ check l key later
unfolding check
check-prune l key now later d h = rw (lookup-prune l key now d) (still (lookup key l.entries))
  where
    still : (o : Option Entry) → check_entry (unless_idle l now o) later ≡ check_entry o later
    still none = refl
    still (some e) = ground arith
