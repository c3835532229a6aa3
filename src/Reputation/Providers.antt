-- ===== src/Reputation/Providers.antt =====
-- BaseProvider of internal/reputation/providers.go: when a provider is asked again. Times are in
-- nanoseconds; the zero time is 0.
use super_proxy.Base.{ℕ, suc, ◌+◌, ◌-◌, ◌*◌, ◌%◌, leb, ltb, Bool, if◌then◌else◌}
use super_proxy.Base.Int.{ℤ, pos, negsuc, pow2, shift_one}

pub record BaseProvider : Type 0 where
  pub consec_failures : ℕ
  pub backoff_until : ℕ

abbrev pub minute : ℕ
minute = 60000000000

-- `time.Duration(multiplier) * time.Minute` on int64, as a remainder of 2 ^ 64.
unfoldable pub minutes : ℤ → ℕ
minutes (pos m) = (m * minute) % pow2 64
minutes (negsuc m) = ((pow2 64 - suc m % pow2 64) * minute) % pow2 64

-- `if multiplier > 60 { multiplier = 60 }`
unfoldable pub capped : ℤ → ℤ
capped (pos m) = if ltb 60 m then pos 60 else pos m
capped (negsuc m) = negsuc m

-- IsHealthy
unfoldable pub is_healthy : ℕ → BaseProvider → Bool
is_healthy now b = ltb b.backoff_until now

-- RecordSuccess
unfoldable pub record_success : BaseProvider → BaseProvider
record_success b = record { consec_failures = 0; backoff_until = 0 }

-- The backoff of a rate limit without a Retry-After, by the failures before this one.
unfoldable pub rate_limit_backoff : ℕ → ℕ
unfolding minutes capped shift_one
rate_limit_backoff before = minutes (capped (shift_one before))

-- RecordFailure
unfoldable pub record_failure : ℕ → Bool → ℕ → BaseProvider → BaseProvider
unfolding rate_limit_backoff
record_failure now is_rate_limit retry_after b =
    let failures = suc b.consec_failures in
    let until =
      if is_rate_limit
      then (if ltb 0 retry_after
          then now + retry_after
          else now + rate_limit_backoff b.consec_failures)
      else if leb 3 failures
      then now + minute
      else b.backoff_until in
    record { consec_failures = failures; backoff_until = until }
