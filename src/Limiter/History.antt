-- ===== src/Limiter/History.antt =====
-- What a sequence of calls leaves under one key: the calls on that key, counted.
use sgsu.Prelude.{
  ℕ, suc, ◌≡◌, refl, Bool, true, false, Option, none, some, String, arith, str_eq, if◌then◌else◌,
  eq_iff, List, [], ◌∷◌, keep, ◌∙◌, Bool-cases, inl, inr, ap,
}
use sgsu.Prelude.Table.{lookup, lookup-remove}
use sgsu.Limiter.{
  Limiter, Entry, check, entry_or_new, fail_entry, fail, success, prune, lock_duration,
}
use sgsu.Limiter.Locking.{
  IsValid, fail-IsValid, success-IsValid, prune-IsValid, lookup-fail, lookup-prune, unless_idle,
}

-- A call that changes the limiter; `check` changes nothing.
pub data Call : Type 0 where
  fails : String → ℕ → Call
  succeeds : String → Call
  prunes : ℕ → Call

pub apply : Limiter → Call → Limiter
apply l (fails key now) = (fail l key now).0
apply l (succeeds key) = success l key
apply l (prunes now) = prune l now

unfoldable pub run : Limiter → List Call → Limiter
unfolding apply
run l [] = l
run l (c ∷ cs) = run (apply l c) cs

-- The calls that concern a key: those that name it, and every pruning.
abbrev pub concerns : String → Call → Bool
concerns key (fails k now) = str_eq k key
concerns key (succeeds k) = str_eq k key
concerns key (prunes now) = true

apply-IsValid : (l : Limiter) (c : Call) → IsValid l → IsValid (apply l c)
unfolding apply
apply-IsValid l (fails key now) d = fail-IsValid l key now d
apply-IsValid l (succeeds key) d = success-IsValid l key d
apply-IsValid l (prunes now) d = prune-IsValid l now d

-- Two limiters with the same settings and the same entry under the key.
record Agrees (key : String) (l m : Limiter) : Type 0 where
  entry : lookup key l.entries ≡ lookup key m.entries
  free : l.free_attempts ≡ m.free_attempts
  base : l.base ≡ m.base
  cap : l.cap ≡ m.cap

fail_entry_of_Agrees :
    (key : String) (l m : Limiter) (e : Entry) (now : ℕ)
    → Agrees key l m
    → fail_entry l e now ≡ fail_entry m e now
unfolding fail_entry lock_duration
fail_entry_of_Agrees key l m e now a = ground arith

settings-fail :
    (l : Limiter) (k : String) (now : ℕ)
    → let m = (fail l k now).0 in
      (m.free_attempts ≡ l.free_attempts) × (m.base ≡ l.base) × (m.cap ≡ l.cap)
unfolding fail
settings-fail l k now = (refl, refl, refl)

-- A call that does not concern the key changes nothing under it.
apply_other :
    (key : String) (l m : Limiter) (c : Call)
    → concerns key c ≡ false
    → Agrees key l m
    → Agrees key (apply l c) m
unfolding apply success prune
apply_other key l m (fails k now) h a =
    ground (arith, settings-fail l k now, lookup-fail l k key now)
apply_other key l m (succeeds k) h a = ground (arith, lookup-remove k key l.entries)
apply_other key l m (prunes now) h a = cc

unless_idle_of_Agrees :
    (key : String) (l m : Limiter) (now : ℕ) (o : Option Entry)
    → Agrees key l m
    → unless_idle l now o ≡ unless_idle m now o
unless_idle_of_Agrees key l m now none a = refl
unless_idle_of_Agrees key l m now (some e) a = ground arith

settings-prune :
    (l : Limiter) (now : ℕ)
    → let m = prune l now in
      (m.free_attempts ≡ l.free_attempts) × (m.base ≡ l.base) × (m.cap ≡ l.cap)
unfolding prune
settings-prune l now = (refl, refl, refl)

prune-Agrees :
    (key : String) (l m : Limiter) (now : ℕ)
    → IsValid l
    → IsValid m
    → Agrees key l m
    → Agrees key (prune l now) (prune m now)
prune-Agrees key l m now d d' a = ground (
  arith,
  settings-prune l now,
  settings-prune m now,
  lookup-prune l key now d,
  lookup-prune m key now d',
  unless_idle_of_Agrees key l m now (lookup key l.entries) a,
)

-- A call that concerns the key does the same under it on both sides.
apply_same :
    (key : String) (l m : Limiter) (c : Call)
    → concerns key c ≡ true
    → IsValid l
    → IsValid m
    → Agrees key l m
    → Agrees key (apply l c) (apply m c)
unfolding apply success
apply_same key l m (fails k now) h d d' a = ground (
  arith,
  eq_iff k key,
  settings-fail l k now,
  settings-fail m k now,
  lookup-fail l k key now,
  lookup-fail m k key now,
  fail_entry_of_Agrees key l m (entry_or_new (lookup k l.entries)) now a,
)
apply_same key l m (succeeds k) h d d' a =
    ground (arith, lookup-remove k key l.entries, lookup-remove k key m.entries)
apply_same key l m (prunes now) h d d' a = prune-Agrees key l m now d d' a

run-Agrees :
    (key : String) (l m : Limiter) (cs : List Call)
    → IsValid l
    → IsValid m
    → Agrees key l m
    → Agrees key (run l cs) (run m (keep (concerns key) cs))
unfolding run
run-Agrees key l m [] d d' a = a
run-Agrees key l m (c ∷ cs) d d' a = elim (Bool-cases (concerns key c)) [
  | inl same ↦ rw same (
      run-Agrees key (apply l c) (apply m c) cs (apply-IsValid l c d) (apply-IsValid m c d')
        (apply_same key l m c same d d' a))
  | inr other ↦
      rw other
        (run-Agrees key (apply l c) m cs (apply-IsValid l c d) d' (apply_other key l m c other a))
]

-- Keys do not affect one another: after any calls, `check` answers for a key as it would if only
-- the calls that name this key, and the prunings, had been made.
pub check-run-keep :
    (l : Limiter) (key : String) (cs : List Call) (later : ℕ)
    → IsValid l
    → check (run l cs) key later ≡ check (run l (keep (concerns key) cs)) key later
unfolding check
check-run-keep l key cs later d =
    let a =
      run-Agrees key l l cs d d (record { entry = refl; free = refl; base = refl; cap = refl }) in
    rw a.entry

-- The failures of a key in a row, up to now.
abbrev pub streak : String → ℕ → List Call → ℕ
streak key n [] = n
streak key n (fails k now ∷ cs) = streak key (if str_eq k key then suc n else n) cs
streak key n (succeeds k ∷ cs) = streak key (if str_eq k key then 0 else n) cs
streak key n (prunes now ∷ cs) = streak key n cs

abbrev pub NoPruning : List Call → Type 0
NoPruning [] = Unit
NoPruning (prunes now ∷ cs) = ⊥
NoPruning (_ ∷ cs) = NoPruning cs

abbrev pub failures : Limiter → String → ℕ
failures l key = (entry_or_new (lookup key l.entries)).failures

failures-fail :
    (l : Limiter) (key k : String) (now : ℕ)
    → failures (fail l k now).0 key
      ≡ (if str_eq k key then suc (failures l key) else failures l key)
unfolding fail_entry
failures-fail l key k now = ground (arith, eq_iff k key, lookup-fail l k key now)

failures-success :
    (l : Limiter) (key k : String)
    → failures (success l k) key ≡ (if str_eq k key then 0 else failures l key)
unfolding success
failures-success l key k = ground (arith, lookup-remove k key l.entries)

-- Without a pruning between them, the calls leave under each key the number of its failures since
-- its last success, and where none of them is a success, that number added to the one before.
failures-run :
    (l : Limiter) (key : String) (cs : List Call)
    → NoPruning cs
    → failures (run l cs) key ≡ streak key (failures l key) cs
unfolding run apply
failures-run l key [] h = refl
failures-run l key (fails k now ∷ cs) h =
    failures-run (fail l k now).0 key cs h ∙ ap (λ n. streak key n cs) (failures-fail l key k now)
failures-run l key (succeeds k ∷ cs) h =
    failures-run (success l k) key cs h ∙ ap (λ n. streak key n cs) (failures-success l key k)
failures-run l key (prunes now ∷ cs) h = absurd h
