-- ===== src/Examples/Limits.antt =====
-- The theorems on the limiter at concrete calls.
use sgsu.Prelude.{◌≡◌, false}
use sgsu.Limiter.{check, success, lock_duration}
use sgsu.Limiter.Duration.{lock_duration_lem}
use sgsu.Limiter.Locking.{check-success}
use sgsu.Examples.{limiter}

lock_duration_lem_example : lock_duration limiter 4 ≡ 120
lock_duration_lem_example = lock_duration_lem limiter 4

check-success_example : check (success limiter "ip:10.0.0.66") "ip:10.0.0.66" 20 ≡ (false, 0)
check-success_example = check-success limiter "ip:10.0.0.66" "ip:10.0.0.66" 20
