-- ===== src/Limiter/Duration.antt =====
-- How long a failed login locks its key: `fail` doubles the base in a loop that stops at the cap.
use sgsu.Prelude.{ℕ, zero, suc, ◌-◌, ◌*◌, ◌^◌, ◌≤◌, min, ◌≡◌, arith, ltb, leb, if◌then◌else◌}
use native.Mathlib.Nat.{pow-suc}
use sgsu.Limiter.{Limiter, double, lock_duration}

pow-pos : (n : ℕ) → 1 ≤ 2 ^ n
pow-pos zero = omega arith
pow-pos (suc n) = omega (arith, pow-suc 2 n, pow-pos n)

pow-mul : (d n : ℕ) → d * 2 ^ suc n ≡ d * 2 * 2 ^ n
pow-mul d n = rw (pow-suc 2 n) (omega arith)

pub le-pow-mul : (d n : ℕ) → d ≤ d * 2 ^ n
le-pow-mul d zero = omega arith
le-pow-mul d (suc n) = omega (arith, pow-mul d n, le-pow-mul (d * 2) n)

-- The loop stops early only at the cap, so after the cut it is the full power of two.
min-double : (limit n d : ℕ) → min limit (double limit n d) ≡ min limit (d * 2 ^ n)
unfolding double
min-double limit zero d = omega arith
min-double limit (suc n) d =
    ground (arith, min-double limit n (d * 2), pow-mul d n, le-pow-mul d (suc n))

cut-min : (a b : ℕ) → (if ltb a b then a else b) ≡ min a b
cut-min a b = ground arith

-- The first `free_attempts` failures lock for no time; failure number `free_attempts + k + 1`
-- locks for the smaller of the cap and 2 ^ k times the base.
pub lock_duration_lem :
    (l : Limiter) (failures : ℕ)
    → lock_duration l failures ≡ (
        if leb failures l.free_attempts
        then 0
        else min l.cap (l.base * 2 ^ (failures - l.free_attempts - 1)))
unfolding lock_duration
lock_duration_lem l failures = ground (
  arith,
  cut-min l.cap (double l.cap (failures - l.free_attempts - 1) l.base),
  min-double l.cap (failures - l.free_attempts - 1) l.base,
)

pow_mono : (d m n : ℕ) → m ≤ n → d * 2 ^ m ≤ d * 2 ^ n
pow_mono d zero n h = omega (arith, le-pow-mul d n)
pow_mono d (suc m) zero h = absurd (omega arith)
pow_mono d (suc m) (suc n) h =
    omega (arith, pow-mul d m, pow-mul d n, pow_mono (d * 2) m n (omega arith))

-- A further failure never shortens the lock, and no lock is longer than the cap.
pub lock_duration_mono :
    (l : Limiter) (m n : ℕ)
    → m ≤ n
    → (lock_duration l m ≤ lock_duration l n) × (lock_duration l n ≤ l.cap)
lock_duration_mono l m n h = ground (
  arith,
  lock_duration_lem l m,
  lock_duration_lem l n,
  pow_mono l.base (m - l.free_attempts - 1) (n - l.free_attempts - 1),
)
