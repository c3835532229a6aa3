-- ===== src/Reputation/Verdict.antt =====
-- Which reports an admission of a fresh evaluation needs.
use super_proxy.Base.{
  ℕ, ◌+◌, ◌≤◌, String, true, false, ◌&&◌, ◌||◌, not, Option, none, List, ◌∷◌, ◌==◌, string_eq,
  nat_eq, ltb, All, ◌≡◌, ◌≢◌, ◌↔◌, ◌⊎◌, refl, arith, inl, inr, Bool-cases, length, sym, subst, ap,
}
use super_proxy.Models.{NetworkClass}
use super_proxy.Admission.{Result, unknown, rep_eq, Engine, judge}
use super_proxy.Cache
use super_proxy.Reputation.{Report, Provider, Config, ResultCache}
use super_proxy.Reputation.Merge.{append}
use super_proxy.Reputation.Evaluate.{
  Format, Tally, ask_all, apply_lenient, all_failed, apply_policy, conclude_evaluation, opening,
  evaluate_all, evaluate_found, evaluate_ip,
}
use super_proxy.Reputation.Outcomes.{
  is_rejection, is_trait, is_unclear, has_trait, any-All, outcomes, IsSummed, ask_all-IsSummed,
}

module _ (format : Format) (now : ℕ) (ip : String) (config : Config) where
  apply_lenient-kept :
      (r : Result)
      → ((apply_lenient format now ip config r).hard_reject ≡ r.hard_reject)
        × ((apply_lenient format now ip config r).network_info ≡ r.network_info)
        × ((apply_lenient format now ip config r).status ≡ r.status)
  unfolding apply_lenient
  apply_lenient-kept r = elim (Bool-cases (config.failure_policy == "lenient")) [
    | inl p ↦ rw p (refl, refl, refl)
    | inr p ↦ rw p (refl, refl, refl)
  ]

  summed_status :
      (os : List (Option Report)) (start t : Tally)
      → IsSummed os start t
      → start.result.status ≢ unknown
      → t.result.status ≢ unknown
  unfolding IsSummed
  summed_status os start t (h1, h2, h3, h4, h5) h = ground (arith, h4, h)

  summed_count :
      (os : List (Option Report)) (start t : Tally)
      → IsSummed os start t
      → 1 ≤ length os
      → 1 ≤ t.unknown_count + t.success_count
  unfolding IsSummed
  summed_count os start t (h1, h2, h3, h4, h5) h = omega (arith, h5, h)

  some_outcome :
      (p : Provider) (ps : List Provider) (t : Tally)
      → 1 ≤ length (outcomes format now ip (p ∷ ps) t)
  unfolding outcomes
  some_outcome p ps t = omega arith

  -- The policy changes the status only, and the penalty.
  unfoldable IsPoliced : Tally → Result → Type 0
  IsPoliced t r =
      (r.hard_reject ≡ t.result.hard_reject)
      × (r.network_info ≡ t.result.network_info)
      × ((r.status ≢ unknown)
          ⊎ (config.failure_policy ≢ "conservative")
          ⊎ (ltb 0 t.unknown_count ≡ true))
      × ((t.result.hard_reject ≡ true)
          ⊎ (ltb 0 t.unknown_count ≡ false)
          ⊎ (config.failure_policy ≢ "conservative")
          ⊎ (r.status ≡ unknown))

  all_failed-IsPoliced :
      (t : Tally) → ltb 0 t.unknown_count ≡ true → IsPoliced t (all_failed format now ip config t)
  unfolding all_failed IsPoliced
  all_failed-IsPoliced t h = ground (
    arith,
    h,
    apply_lenient-kept (record t.result {
      status = unknown;
      provider_reason =
          append "UNKNOWN: all providers failed (" (append (format.listed t.messages) ")");
    }),
  )

  apply_policy-IsPoliced :
      (t : Tally) → t.result.status ≢ unknown → IsPoliced t (apply_policy format now ip config t)
  unfolding apply_policy IsPoliced
  apply_policy-IsPoliced t h =
      elim (Bool-cases (ltb 0 t.unknown_count && not t.result.hard_reject)) [
        | inl p ↦ rw p (elim (Bool-cases (config.failure_policy == "conservative")) [
          | inl q ↦ rw q (ground (arith, p))
          | inr q ↦ rw q (
              ground (
                arith,
                p,
                q,
                h,
                string_eq.beq_iff config.failure_policy "conservative",
                apply_lenient-kept t.result,
              ))
        ])
        | inr p ↦ rw p (ground (arith, p, h))
      ]

  conclude-IsPoliced :
      (t : Tally)
      → t.result.status ≢ unknown
      → 1 ≤ t.unknown_count + t.success_count
      → IsPoliced t ((conclude_evaluation format now ip config t).1)
  unfolding conclude_evaluation
  conclude-IsPoliced t h some_asked = elim (Bool-cases (t.success_count == 0)) [
    | inl p ↦ rw p (all_failed-IsPoliced t (ground (arith, p)))
    | inr p ↦ rw p (apply_policy-IsPoliced t h)
  ]

  policed_judge :
      (engine : Engine) (t : Tally) (r : Result)
      → engine.failure_policy ≡ config.failure_policy
      → IsPoliced t r
      → (judge engine r ≡ none) ↔ (
          (t.result.hard_reject ≡ false)
          × (has_trait t.result ≡ false)
          × ((config.failure_policy ≢ "conservative") ⊎ (ltb 0 t.unknown_count ≡ false)))
  unfolding judge IsPoliced
  policed_judge engine t r same (hard, info, clear, unclear) =
      let trait =
        ap (λ (n : NetworkClass). n.is_hosting || (n.is_vpn || (n.is_proxy || n.is_tor))) info in
      ground (
        arith,
        same,
        hard,
        clear,
        unclear,
        trait,
        string_eq.beq_iff engine.failure_policy "conservative",
      )

  abbrev pub AllClear : List (Option Report) → Type 0
  AllClear os =
      All (λ o. is_rejection o ≡ false) os
      × All (λ o. is_trait o ≡ false) os
      × ((config.failure_policy ≢ "conservative") ⊎ All (λ o. is_unclear o ≡ false) os)

  clear_iff :
      (os : List (Option Report)) (start t : Tally) {P : Type 0}
      → IsSummed os start t
      → start.result.hard_reject ≡ false
      → has_trait start.result ≡ false
      → start.unknown_count ≡ 0
      → (P ↔ (
          (t.result.hard_reject ≡ false)
          × (has_trait t.result ≡ false)
          × ((config.failure_policy ≢ "conservative") ⊎ (ltb 0 t.unknown_count ≡ false))))
      → P ↔ AllClear os
  unfolding IsSummed
  clear_iff os start t {P} (h1, h2, h3, h4, h5) hard trait none_yet iff = ground (
    arith,
    h1,
    h2,
    h3,
    hard,
    trait,
    none_yet,
    iff,
    any-All is_rejection os,
    any-All is_trait os,
    any-All is_unclear os,
  )

  asked_admits :
      (engine : Engine) (p : Provider) (ps : List Provider) (cache : ResultCache)
      → engine.failure_policy ≡ config.failure_policy
      → (judge engine ((evaluate_all format now ip config (p ∷ ps) cache).1) ≡ none)
        ↔ AllClear (outcomes format now ip (p ∷ ps) (opening format now ip cache))
  unfolding evaluate_all
  asked_admits engine p ps cache same =
      let start = opening format now ip cache in
      let t = ask_all format now ip (p ∷ ps) start in
      let os = outcomes format now ip (p ∷ ps) start in
      let summed = ask_all-IsSummed format now ip (p ∷ ps) start in
      let policed =
        conclude-IsPoliced t (summed_status os start t summed (ground arith))
          (summed_count os start t summed (some_outcome p ps start)) in
      clear_iff os start t summed refl refl refl
        (policed_judge engine t ((conclude_evaluation format now ip config t).1) same policed)

  -- Where the cache has no result, an engine of the evaluation's failure policy admits what it finds
  -- exactly when no provider's report that is not UNKNOWN rejects the address outright, no report shows
  -- a prohibited trait, and, unless the policy is not the conservative one, every provider reported and
  -- none reported UNKNOWN. A report kept from before counts as the provider's.
  pub evaluation_admits :
      (engine : Engine) (p : Provider) (ps : List Provider) (cache : ResultCache)
      → engine.failure_policy ≡ config.failure_policy
      → (Cache.get now ip cache).1 ≡ none
      → let os =
          outcomes format now ip (p ∷ ps) (opening format now ip ((Cache.get now ip cache).0)) in
        (judge engine ((evaluate_ip format now ip config (p ∷ ps) cache).1) ≡ none) ↔ AllClear os
  unfolding evaluate_ip evaluate_found evaluate_all
  evaluation_admits engine p ps cache same miss =
      subst
        (λ h.
          (judge engine
              ((evaluate_found format now ip config (p ∷ ps) ((Cache.get now ip cache).0) h).1)
            ≡ none)
          ↔ AllClear (
              outcomes format now ip (p ∷ ps) (opening format now ip ((Cache.get now ip cache).0))))
        (sym miss) (asked_admits engine p ps ((Cache.get now ip cache).0) same)
