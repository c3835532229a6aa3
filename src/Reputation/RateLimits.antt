-- ===== src/Reputation/RateLimits.antt =====
-- How long a rate-limited provider of internal/reputation/providers.go is left alone.
use super_proxy.Base.{
  ℕ, zero, suc, ◌+◌, ◌-◌, ◌*◌, ◌≤◌, ◌<◌, ltb, true, false, ◌≡◌, ◌⊎◌, arith, refl, inl, inr, ap,
  Bool-cases, ◌∙◌, ◌==◌, nat_eq,
}
use super_proxy.Base.Int.{pos, negsuc, pow2, shift_one}
use super_proxy.Reputation.Providers.{
  BaseProvider, minute, minutes, capped, is_healthy, rate_limit_backoff, record_failure,
}

pow2_above : (n : ℕ) → 64 ≤ pow2 (suc (suc (suc (suc (suc (suc n))))))
pow2_above zero = omega arith
pow2_above (suc n) = omega (arith, pow2_above n)

-- The shifted bit alone gives no minutes at all: 2 ^ 63 minutes are a multiple of 2 ^ 64 nanoseconds.
minutes-overflow : minutes (negsuc (pow2 63 - 1)) ≡ 0
unfolding minutes
minutes-overflow = refl

minutes-none : minutes (capped (pos 0)) ≡ 0
unfolding minutes capped
minutes-none = refl

overflown : (before : ℕ) → 63 ≤ before → rate_limit_backoff before ≡ 0
unfolding rate_limit_backoff capped shift_one
overflown before h =
    let late : ltb before 63 ≡ false = ground (arith, h) in
    rw late (elim (Bool-cases (before == 63)) [
      | inl p ↦ rw p minutes-overflow
      | inr p ↦ rw p minutes-none
    ])

few : (before : ℕ) → before < 63 → rate_limit_backoff before ≡ minutes (capped (pos (pow2 before)))
unfolding rate_limit_backoff shift_one
few before h = let early : ltb before 63 ≡ true = ground (arith, h) in rw early refl

many_minutes : (before : ℕ) → 5 < before → minutes (capped (pos (pow2 before))) ≡ 60 * minute
unfolding minutes capped
many_minutes (suc (suc (suc (suc (suc (suc n)))))) h =
    let many : ltb 60 (pow2 (suc (suc (suc (suc (suc (suc n))))))) ≡ true =
      ground (arith, pow2_above n) in
    rw many refl
many_minutes zero h = ground arith
many_minutes (suc zero) h = ground arith
many_minutes (suc (suc zero)) h = ground arith
many_minutes (suc (suc (suc zero))) h = ground arith
many_minutes (suc (suc (suc (suc zero)))) h = ground arith
many_minutes (suc (suc (suc (suc (suc zero))))) h = ground arith

few_minutes :
    (before : ℕ) → before ≤ 5 → minutes (capped (pos (pow2 before))) ≡ pow2 before * minute
unfolding minutes capped
few_minutes zero h = refl
few_minutes (suc zero) h = refl
few_minutes (suc (suc zero)) h = refl
few_minutes (suc (suc (suc zero))) h = refl
few_minutes (suc (suc (suc (suc zero)))) h = refl
few_minutes (suc (suc (suc (suc (suc zero))))) h = refl
few_minutes (suc (suc (suc (suc (suc (suc n)))))) h = ground arith

-- A rate limit without a Retry-After keeps the provider unasked for a time that doubles from one minute
-- with the failures in a row before it, and is an hour after six of them. But the shift overflows: after
-- 63 or more failures in a row there is no backoff at all, and the provider is asked at the next moment.
pub record_failure-bounds :
    (now : ℕ) (b : BaseProvider)
    → let after = record_failure now true 0 b in
      ((b.consec_failures ≤ 5) × (after.backoff_until ≡ now + pow2 b.consec_failures * minute))
      ⊎ ((5 < b.consec_failures)
          × (b.consec_failures < 63)
          × (after.backoff_until ≡ now + 60 * minute))
      ⊎ ((63 ≤ b.consec_failures) × (is_healthy (suc now) after ≡ true))
unfolding record_failure is_healthy
record_failure-bounds now b = elim (Bool-cases (ltb b.consec_failures 63)) [
  | inl p ↦
      let below : b.consec_failures < 63 = ground (arith, p) in
      elim (Bool-cases (ltb 5 b.consec_failures)) [
        | inl q ↦
            let above : 5 < b.consec_failures = ground (arith, q) in
            inr (
              inl (
                above,
                below,
                ap (λ d. now + d)
                    (few b.consec_failures below ∙ many_minutes b.consec_failures above),
              ))
        | inr q ↦
            let few_so_far : b.consec_failures ≤ 5 = ground (arith, q) in
            inl (
              few_so_far,
              ap (λ d. now + d)
                  (few b.consec_failures below ∙ few_minutes b.consec_failures few_so_far),
            )
      ]
  | inr p ↦
      let late : 63 ≤ b.consec_failures = ground (arith, p) in
      inr (inr (late, ground (arith, overflown b.consec_failures late)))
]
