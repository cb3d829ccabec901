-- ===== src/Limiter.antt =====
-- cmd/saguaro/ratelimit.go: the lockout of a client address or a user name after failed logins.
-- Times and durations are nanoseconds as numbers; the zero `time.Time` is 0. Go's `now.Sub(t)` is
-- negative for a later `t`, and truncated subtraction gives 0 there, which compares with a
-- duration in the same way. The mutex makes each method one step.
pub mod Duration
pub mod Locking
pub mod History
use sgsu.Prelude.{
  ℕ, zero, suc, ◌+◌, ◌-◌, ◌*◌, Bool, true, false, not, ◌&&◌, Option, none, some, List, [], ◌∷◌,
  String, ltb, leb, keep, if◌then◌else◌,
}
use sgsu.Prelude.Table.{lookup, insert, remove}

-- `limiterEntry`
pub record Entry : Type 0 where
  pub failures : ℕ
  pub locked_until : ℕ
  pub last_seen : ℕ

-- `loginLimiter`, its mutex left out
pub record Limiter : Type 0 where
  pub entries : List (String × Entry)
  pub free_attempts : ℕ
  pub base : ℕ
  pub cap : ℕ

abbrev pub second : ℕ
second = 1000000000

-- `newLoginLimiter`
unfoldable pub new_limiter : Limiter
new_limiter = record { entries = []; free_attempts = 5; base = 30 * second; cap = 900 * second }

-- The locked flag and the remaining time of an entry that may be missing.
abbrev pub check_entry : Option Entry → ℕ → Bool × ℕ
check_entry none now = (false, 0)
check_entry (some e) now =
    if ltb e.locked_until now then (false, 0) else (true, e.locked_until - now)

unfoldable pub check : Limiter → String → ℕ → Bool × ℕ
check l key now = check_entry (lookup key l.entries) now

-- The loop of `fail`: at most `rounds` doublings, while below the cap.
unfoldable pub double : ℕ → ℕ → ℕ → ℕ
double limit zero d = d
double limit (suc rounds) d =
    let more = double limit rounds (d * 2) in if ltb d limit then more else d

-- The duration of the lock that failure number `failures` triggers, 0 for a free one.
unfoldable pub lock_duration : Limiter → ℕ → ℕ
lock_duration l failures =
    let over = failures - l.free_attempts in
    let d = double l.cap (over - 1) l.base in
    if leb failures l.free_attempts then 0 else if ltb l.cap d then l.cap else d

-- The entry that `fail` finds or makes.
abbrev pub entry_or_new : Option Entry → Entry
entry_or_new none = record { failures = 0; locked_until = 0; last_seen = 0 }
entry_or_new (some e) = e

-- The entry after a failure at `now`; a free failure leaves its lock as it was.
unfoldable pub fail_entry : Limiter → Entry → ℕ → Entry
fail_entry l e now =
    let n = suc e.failures in
    record {
      failures = n;
      locked_until = if leb n l.free_attempts then e.locked_until else now + lock_duration l n;
      last_seen = now;
    }

unfoldable pub fail : Limiter → String → ℕ → Limiter × ℕ
unfolding fail_entry
fail l key now =
    let e = fail_entry l (entry_or_new (lookup key l.entries)) now in
    (record l { entries = insert key e l.entries }, lock_duration l e.failures)

unfoldable pub success : Limiter → String → Limiter
success l key = record l { entries = remove key l.entries }

-- `prune` deletes the entries for which this is true.
abbrev pub is_idle : Limiter → ℕ → Entry → Bool
is_idle l now e = ltb l.cap (now - e.last_seen) && ltb e.locked_until now

unfoldable pub prune : Limiter → ℕ → Limiter
prune l now = record l { entries = keep (λ kv. not (is_idle l now kv.1)) l.entries }
