-- ===== src/Reputation/Expiry.antt =====
-- How long a result of internal/reputation/engine.go is served from the cache.
use super_proxy.Base.{
  ℕ, ◌+◌, ◌≤◌, String, true, false, none, some, List, [], ◌∷◌, ◌==◌, string_eq, nat_eq, ltb,
  if◌then◌else◌, All, ◌≡◌, ◌≢◌, ◌⊎◌, arith, inl, inr, Bool-cases, Option-cases,
}
use super_proxy.Base.Assoc
use super_proxy.Admission.{Result, unknown, rep_eq}
use super_proxy.Cache
use super_proxy.Reputation.{Report, Config, ResultCache}
use super_proxy.Reputation.Evaluate.{
  Format, Tally, bounded_by, aggregate_expiry, conclude_evaluation, apply_policy,
}

-- The time is no later than what the report's provider allows, if the report counts.
unfoldable pub IsWithin : ResultCache → Report → ℕ → Type 0
IsWithin cache r time =
    (r.error ≢ "")
    ⊎ (r.status ≡ unknown)
    ⊎ (r.observed_at ≡ none)
    ⊎ ((at : ℕ) × (r.observed_at ≡ some at) × (time ≤ at + Cache.provider_ttl r.provider cache))

IsWithin-earlier :
    (cache : ResultCache) (r : Report) (time earlier : ℕ)
    → earlier ≤ time
    → IsWithin cache r time
    → IsWithin cache r earlier
unfolding IsWithin
IsWithin-earlier cache r time earlier h (inl p) = inl p
IsWithin-earlier cache r time earlier h (inr (inl p)) = inr (inl p)
IsWithin-earlier cache r time earlier h (inr (inr (inl p))) = inr (inr (inl p))
IsWithin-earlier cache r time earlier h (inr (inr (inr (at, p, q)))) =
    inr (inr (inr (at, p, omega (arith, h, q))))

bounded_by-le : (cache : ResultCache) (r : Report) (time : ℕ) → bounded_by cache r time ≤ time
unfolding bounded_by
bounded_by-le cache r time = elim (Option-cases r.observed_at) [
  | inl e ↦ rw e (ground arith)
  | inr (at, e) ↦ rw e (ground arith)
]

bounded_own :
    (cache : ResultCache) (r : Report) (time at : ℕ)
    → r.observed_at ≡ some at
    → (r.error == "") ≡ true
    → (r.status == unknown) ≡ false
    → bounded_by cache r time ≤ at + Cache.provider_ttl r.provider cache
unfolding bounded_by
bounded_own cache r time at e p q = rw (e, p, q) (ground arith)

all-IsWithin :
    (cache : ResultCache) (rs : List Report) (time earlier : ℕ)
    → earlier ≤ time
    → All (λ r. IsWithin cache r time) rs
    → All (λ r. IsWithin cache r earlier) rs
all-IsWithin cache [] time earlier h a = tt
all-IsWithin cache (r ∷ rs) time earlier h a =
    (IsWithin-earlier cache r time earlier h a.0, all-IsWithin cache rs time earlier h a.1)

stored :
    (ip : String) (later : ℕ) (r : Result) (until : ℕ) (cache : ResultCache)
    → (Cache.get later ip (Cache.set_until ip r until cache)).1
      ≡ (if ltb until later then none else some r)
unfolding Cache.get Cache.set_until Cache.fresh
stored ip later r until cache =
    ground
      (arith, Assoc.lookup-insert_self ip (record { result = r; expires_at = until }) cache.entries)

bounded_by-IsWithin :
    (cache : ResultCache) (r : Report) (time : ℕ) → IsWithin cache r (bounded_by cache r time)
unfolding bounded_by IsWithin
bounded_by-IsWithin cache r time = elim (Option-cases r.observed_at) [
  | inl e ↦ inr (inr (inl e))
  | inr (at, e) ↦ elim (Bool-cases (r.error == "")) [
    | inr p ↦ inl (ground (arith, p, string_eq.beq_iff r.error ""))
    | inl p ↦ elim (Bool-cases (r.status == unknown)) [
      | inl q ↦ inr (inl ((rep_eq.beq_iff r.status unknown).0 q))
      | inr q ↦ inr (inr (inr (at, e, bounded_own cache r time at e p q)))
    ]
  ]
]

module _ (format : Format) (now : ℕ) (ip : String) where
  aggregate_expiry-bounds :
      (cache : ResultCache) (rs : List Report)
      → (aggregate_expiry format now ip cache rs ≤ now + cache.ttl)
        × All (λ r. IsWithin cache r (aggregate_expiry format now ip cache rs)) rs
  unfolding aggregate_expiry
  aggregate_expiry-bounds cache [] = ground arith
  aggregate_expiry-bounds cache (r ∷ rs) =
      let rest = aggregate_expiry format now ip cache rs in
      let (below, within) = aggregate_expiry-bounds cache rs in
      let less = bounded_by-le cache r rest in
      (
        omega (arith, less, below),
        (
          bounded_by-IsWithin cache r rest,
          all-IsWithin cache rs rest (bounded_by cache r rest) less within,
        ),
      )

  -- The result of an evaluation that some provider supported is stored until a time that is no later
  -- than the cache allows, nor than any of the reports in it allows that has no error, is not UNKNOWN
  -- and has a time. Until then, and no longer, a lookup of the address gives it.
  pub stored_result :
      (config : Config) (t : Tally) (later : ℕ)
      → t.success_count ≢ 0
      → let (cache, r) = conclude_evaluation format now ip config t in
        let until = aggregate_expiry format now ip t.cache t.evidences in
        ((Cache.get later ip cache).1 ≡ (if ltb until later then none else some r))
        × (until ≤ now + t.cache.ttl)
        × All (λ e. IsWithin t.cache e until) t.evidences
  unfolding conclude_evaluation
  stored_result config t later h = elim (Bool-cases (t.success_count == 0)) [
    | inl p ↦ absurd (h (ground (arith, p)))
    | inr p ↦ rw p (
        let (below, within) = aggregate_expiry-bounds t.cache t.evidences in
        (
          stored ip later (apply_policy format now ip config t)
              (aggregate_expiry format now ip t.cache t.evidences) t.cache,
          below,
          within,
        ))
  ]
