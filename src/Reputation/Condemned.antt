-- ===== src/Reputation/Condemned.antt =====
-- What it takes for EvaluatePrefixRisk of internal/reputation/prefix.go to condemn a /24.
use super_proxy.Base.{
  ℕ, ◌≤◌, String, ◌≡◌, refl, sym, subst, ap, Bool, true, false, Option, none, some, List,
  if◌then◌else◌, ◌==◌, nat_eq, ◌⊎◌, inl, inr, arith, Bool-cases,
}
use super_proxy.Diversity.{Text, Prefix, analyze_prefix}
use super_proxy.Reputation.Observations.{
  PrefixObservation, PrefixIntelligence, ProfileWindow, window_24h, window_7d, window_30d,
  window_90d, PrefixRisk, no_risk, or_window, spikes, is_chronic, judge_with, ratio_at_least,
  judge_prefix, judge_primary, primary_window, evaluate_windows, query_prefix_window,
  evaluate_prefix_risk,
}

-- Five samples, and two hard rejects, or three bad ones while the samples have three addresses.
abbrev pub IsEvidence : PrefixIntelligence → Type 0
IsEvidence s =
    (5 ≤ s.sample_count) × ((2 ≤ s.hard_reject_count) ⊎ ((3 ≤ s.bad_count) × (3 ≤ s.distinct_ips)))

-- Without a spike and without chronic abuse, only a dense prefix is condemned.
dense-IsEvidence :
    (p : PrefixIntelligence) (spike chronic : Bool)
    → spike ≡ false
    → chronic ≡ false
    → (judge_with p spike chronic).is_high_risk ≡ true
    → IsEvidence p
dense-IsEvidence p spike chronic hs hc h =
    elim (Bool-cases (ratio_at_least 3 10 p.hard_reject_count p.sample_count)) [
      | inl hard ↦ (ground (arith, hs, hc, h), inl (ground (arith, hard, hs, hc, h)))
      | inr soft ↦ (
        ground (arith, hs, hc, h),
        inr (ground (arith, soft, hs, hc, h), ground (arith, soft, hs, hc, h)),
      )
    ]

judge_prefix-IsEvidence :
    (p : PrefixIntelligence) (w24h w90d : Option PrefixIntelligence)
    → (judge_prefix p w24h w90d).is_high_risk ≡ true
    → IsEvidence p ⊎ ((spikes w24h ≡ true) ⊎ (is_chronic w90d ≡ true))
unfolding judge_prefix
judge_prefix-IsEvidence p w24h w90d h = elim (Bool-cases (spikes w24h)) [
  | inl spike ↦ inr (inl spike)
  | inr no_spike ↦ elim (Bool-cases (is_chronic w90d)) [
    | inl chronic ↦ inr (inr chronic)
    | inr no_chronic ↦
        inl (dense-IsEvidence p (spikes w24h) (is_chronic w90d) no_spike no_chronic h)
  ]
]

spikes-IsEvidence :
    (w : Option PrefixIntelligence)
    → spikes w ≡ true
    → (s : PrefixIntelligence) × (w ≡ some s) × IsEvidence s
spikes-IsEvidence none h = cc h
spikes-IsEvidence (some s) h = (s, refl, (ground (arith, h), inl (ground (arith, h))))

chronic-IsEvidence :
    (w : Option PrefixIntelligence)
    → is_chronic w ≡ true
    → (s : PrefixIntelligence) × (w ≡ some s) × IsEvidence s
chronic-IsEvidence none h = cc h
chronic-IsEvidence (some s) h = (s, refl, (ground (arith, h), inl (ground (arith, h))))

or_window-some :
    (a b : Option PrefixIntelligence) (p : PrefixIntelligence)
    → or_window a b ≡ some p
    → (a ≡ some p) ⊎ (b ≡ some p)
or_window-some none b p h = inr h
or_window-some (some w) b p h = elim (Bool-cases (w.sample_count == 0)) [
  | inl e ↦ inr (cc (e, h))
  | inr e ↦ inl (cc (e, h))
]

primary_window-some :
    (w : ProfileWindow → Option PrefixIntelligence) (p : PrefixIntelligence)
    → primary_window w ≡ some p
    → (window : ProfileWindow) × (w window ≡ some p)
primary_window-some w p h =
    elim (or_window-some (or_window (or_window (w window_7d) (w window_24h)) (w window_30d))
      (w window_90d) p h) [
        | inr e ↦ (window_90d, e)
        | inl h1 ↦
            elim (or_window-some (or_window (w window_7d) (w window_24h)) (w window_30d) p h1) [
              | inr e ↦ (window_30d, e)
              | inl h2 ↦ elim (or_window-some (w window_7d) (w window_24h) p h2) [
                | inl e ↦ (window_7d, e)
                | inr e ↦ (window_24h, e)
              ]
            ]
      ]

judged_at_all :
    (p : PrefixIntelligence) (r : PrefixRisk)
    → (if p.sample_count == 0 then no_risk else r).is_high_risk ≡ true
    → r.is_high_risk ≡ true
judged_at_all p r h = elim (Bool-cases (p.sample_count == 0)) [
  | inl e ↦ ground (arith, e, h)
  | inr e ↦ subst (λ b. (if b then no_risk else r).is_high_risk ≡ true) e h
]

-- Some window that was read has the evidence.
abbrev HasEvidence : (ProfileWindow → Option PrefixIntelligence) → Type 0
HasEvidence w =
    (window : ProfileWindow) × (s : PrefixIntelligence) × (w window ≡ some s) × IsEvidence s

judge_primary-IsEvidence :
    (w : ProfileWindow → Option PrefixIntelligence) (o : Option PrefixIntelligence)
    → primary_window w ≡ o
    → (judge_primary o (w window_24h) (w window_90d)).is_high_risk ≡ true
    → HasEvidence w
judge_primary-IsEvidence w none e h = cc h
judge_primary-IsEvidence w (some p) e h =
    elim (judge_prefix-IsEvidence p (w window_24h) (w window_90d) (judged_at_all p _ h)) [
      | inl here ↦ let at = primary_window-some w p e in (at.0, p, at.1, here)
      | inr (inl spike) ↦
          let found = spikes-IsEvidence (w window_24h) spike in
          (window_24h, found.0, found.1, found.2)
      | inr (inr chronic) ↦
          let found = chronic-IsEvidence (w window_90d) chronic in
          (window_90d, found.0, found.1, found.2)
    ]

query-IsEvidence :
    (b : Bool) (s : PrefixIntelligence) (t : PrefixIntelligence)
    → (if b then some s else none) ≡ some t
    → (b ≡ true) × (s ≡ t)
query-IsEvidence true s t e = (refl, ap (λ o. elim o [ none ↦ s | some r ↦ r ]) e)
query-IsEvidence false s t e = cc e

evaluate_known :
    (text : Text) (reads : ProfileWindow → Bool) (now : ℕ) (table : List PrefixObservation)
    (prefix : Prefix)
    → (evaluate_windows
        (λ w. if reads w then some (query_prefix_window now table prefix w) else none)).is_high_risk
      ≡ true
    → (w : ProfileWindow) × (reads w ≡ true) × IsEvidence (query_prefix_window now table prefix w)
unfolding evaluate_windows
evaluate_known text reads now table prefix h =
    let w : ProfileWindow → Option PrefixIntelligence =
      λ v. if reads v then some (query_prefix_window now table prefix v) else none in
    let found = judge_primary-IsEvidence w (primary_window w) refl h in
    let same =
      query-IsEvidence (reads found.0) (query_prefix_window now table prefix found.0) found.1
        found.2 in
    (found.0, same.0, subst (λ s. IsEvidence s) (sym same.1) found.3)

-- An address is condemned for its /24 only if it has one, and in some window that was read the table
-- holds at least five observations of it, and at least two hard rejects, or at least three bad
-- observations while the window's observations have at least three distinct addresses.
pub evaluate_prefix_risk-IsEvidence :
    (text : Text) (reads : ProfileWindow → Bool) (now : ℕ) (table : List PrefixObservation)
    (ip : String)
    → (evaluate_prefix_risk text reads now table ip).is_high_risk ≡ true
    → (prefix : Prefix) × (analyze_prefix text ip ≡ some prefix)
      × (w : ProfileWindow) × (reads w ≡ true)
      × IsEvidence (query_prefix_window now table prefix w)
unfolding evaluate_prefix_risk
evaluate_prefix_risk-IsEvidence text reads now table ip h =
    by_prefix (analyze_prefix text ip) refl h
  where
    by_prefix :
        (o : Option Prefix)
        → analyze_prefix text ip ≡ o
        → (elim o as (λ _. PrefixRisk) [
          | none ↦ no_risk
          | some prefix ↦
              evaluate_windows
                (λ w. if reads w then some (query_prefix_window now table prefix w) else none)
        ]).is_high_risk
          ≡ true
        → (prefix : Prefix) × (analyze_prefix text ip ≡ some prefix)
          × (w : ProfileWindow) × (reads w ≡ true)
          × IsEvidence (query_prefix_window now table prefix w)
    by_prefix none e high = cc high
    by_prefix (some prefix) e high =
        let found = evaluate_known text reads now table prefix high in
        (prefix, e, found.0, found.1, found.2)

-- The penalty for a /24 is at most 35, and at most 15 where it is not condemned.
pub judge_prefix-bounds :
    (p : PrefixIntelligence) (w24h w90d : Option PrefixIntelligence)
    → let r : PrefixRisk = judge_prefix p w24h w90d in
      ((r.is_high_risk ≡ true) × (25 ≤ r.penalty) × (r.penalty ≤ 35))
      ⊎ ((r.is_high_risk ≡ false) × (r.penalty ≤ 15))
unfolding judge_prefix
judge_prefix-bounds p w24h w90d = ground arith
