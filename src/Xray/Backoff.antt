-- ===== src/Xray/Backoff.antt =====
-- The seconds that monitorLoop of internal/xray/supervisor.go waits.
use super_proxy.Base.{ℕ, zero, suc, ◌≤◌, ◌<◌, ◌≡◌, ◌⊎◌, arith}
use super_proxy.Base.Int.{pow2, shift_one}
use super_proxy.Xray.Monitor.{clamp, backoff_seconds}

pow2_large : (n : ℕ) → 32 ≤ pow2 (suc (suc (suc (suc (suc n)))))
pow2_large zero = omega arith
pow2_large (suc n) = omega (arith, pow2_large n)

clamp-shift_one : (n : ℕ) → 32 ≤ pow2 n → clamp (shift_one n) ≡ 30
unfolding clamp shift_one
clamp-shift_one n h = ground arith

-- After one to five crashes in a row the wait is 2 to the number of crashes before the last, in seconds;
-- after more, however many, it is 30 seconds, also where the 64-bit shift overflows. So it is never 0
-- and never above 30.
pub backoff_bounds :
    (before : ℕ)
    → (1 ≤ backoff_seconds (suc before))
      × (backoff_seconds (suc before) ≤ 30)
      × ((before < 5) × (backoff_seconds (suc before) ≡ pow2 before)
          ⊎ (5 ≤ before) × (backoff_seconds (suc before) ≡ 30))
unfolding backoff_seconds shift_one clamp
backoff_bounds zero = ground arith
backoff_bounds (suc zero) = ground arith
backoff_bounds (suc (suc zero)) = ground arith
backoff_bounds (suc (suc (suc zero))) = ground arith
backoff_bounds (suc (suc (suc (suc zero)))) = ground arith
backoff_bounds (suc (suc (suc (suc (suc n))))) =
    ground (arith, clamp-shift_one (suc (suc (suc (suc (suc n))))) (pow2_large n))
