-- ===== src/Reputation/Outcomes.antt =====
-- What the providers of one evaluation contribute, and what the tally makes of it.
use super_proxy.Base.{
  ℕ, suc, ◌+◌, ◌≤◌, String, Bool, true, false, ◌&&◌, ◌||◌, not, Option, none, some, List, [], ◌∷◌,
  ◌==◌, string_eq, nat_eq, ltb, if◌then◌else◌, length, All, ◌≡◌, ◌≢◌, ◌↔◌, ◌⊎◌, refl, arith, inl,
  inr, Bool-cases, ap, ◌∙◌,
}
use super_proxy.Base.Int.{ℤ}
use super_proxy.Models.{NetworkClass}
use super_proxy.Admission.{Result, unknown, bad, rep_eq}
use super_proxy.Cache
use super_proxy.Reputation.{Report, Check, errs, no_answer, reports, Provider, ResultCache}
use super_proxy.Reputation.Merge.{
  shows_vpn, shows_proxy, shows_tor, shows_hosting, merge_network, merge_origin, note, merge_bad,
  merge_risky, is_risky, merge_status, merge_provider_result,
}
use super_proxy.Reputation.Evaluate.{
  Format, Tally, failed_report, count_failure, count_success, query, restore_or_query,
  cached_or_ask, ask_provider, ask_all,
}

-- A report that is not UNKNOWN and rejects the address outright.
abbrev pub rejects : Report → Bool
rejects r = not (r.status == unknown) && r.hard_reject

-- A report of a trait that the admission prohibits.
abbrev pub shows_trait : Report → Bool
shows_trait r = shows_hosting r || (shows_vpn r || (shows_proxy r || shows_tor r))

abbrev pub has_trait : Result → Bool
has_trait total =
    let info = total.network_info in
    info.is_hosting || (info.is_vpn || (info.is_proxy || info.is_tor))

-- What a provider contributes: the report that is merged, or none where it failed.
unfoldable pub queried : Check → Option Report
queried (errs err) = none
queried no_answer = none
queried (reports r) = if r.error == "" then some r else none

unfoldable pub restored : Option (Report × ℕ) → Check → Option Report
unfolding queried
restored none check = queried check
restored (some (r, expires_at)) check = some r

unfoldable pub found : Option Report → Provider → Option Report
unfolding restored
found none p = restored p.persisted p.check
found (some r) p = some r

unfoldable pub outcome : ℕ → String → Provider → ResultCache → Option Report
unfolding found
outcome now ip p cache = found ((Cache.get_provider now ip p.name cache).1) p

-- Rejected by the outcome, a trait shown by it, and no clear answer in it.
abbrev pub is_rejection : Option Report → Bool
is_rejection none = false
is_rejection (some r) = rejects r

abbrev pub is_trait : Option Report → Bool
is_trait none = false
is_trait (some r) = shows_trait r

abbrev pub is_unclear : Option Report → Bool
is_unclear none = true
is_unclear (some r) = r.status == unknown

-- A provider's outcome joined to the tally.
unfoldable IsJoined : Option Report → Tally → Tally → Type 0
IsJoined o t after =
    (after.result.hard_reject ≡ (t.result.hard_reject || is_rejection o))
    × (has_trait after.result ≡ (has_trait t.result || is_trait o))
    × (ltb 0 after.unknown_count ≡ (ltb 0 t.unknown_count || is_unclear o))
    × ((t.result.status ≡ unknown) ⊎ (after.result.status ≢ unknown))
    × (suc (t.unknown_count + t.success_count) ≤ after.unknown_count + after.success_count)

merge_bad-kept :
    (r : Report) (x : Result)
    → ((merge_bad r x).hard_reject ≡ (x.hard_reject || r.hard_reject))
      × ((merge_bad r x).network_info ≡ x.network_info)
      × ((merge_bad r x).status ≡ bad)
unfolding merge_bad note
merge_bad-kept r x = ground arith

merge_risky-kept :
    (decimal : ℤ → String) (r : Report) (x : Result)
    → ((merge_risky decimal r x).hard_reject ≡ x.hard_reject)
      × ((merge_risky decimal r x).network_info ≡ x.network_info)
      × ((merge_risky decimal r x).status ≢ unknown)
unfolding merge_risky note
merge_risky-kept decimal r x = (refl, refl, ground (arith))

merge_status-kept :
    (decimal : ℤ → String) (r : Report) (x : Result)
    → ((merge_status decimal r x).hard_reject ≡ (x.hard_reject || rejects r))
      × ((merge_status decimal r x).network_info ≡ x.network_info)
      × ((x.status ≡ unknown) ⊎ ((merge_status decimal r x).status ≢ unknown))
unfolding merge_status note
merge_status-kept decimal r x = elim (Bool-cases (r.status == unknown)) [
  | inl p ↦ rw p (ground arith)
  | inr p ↦ rw p (elim (Bool-cases (r.hard_reject || (r.status == bad))) [
    | inl q ↦ rw q (ground (arith, q, merge_bad-kept r x))
    | inr q ↦ rw q (elim (Bool-cases (is_risky r)) [
      | inl s ↦ rw s (ground (arith, q, merge_risky-kept decimal r x))
      | inr s ↦ rw s (ground (arith, q))
    ])
  ])
]

count_failure-IsJoined :
    (message : String) (r : Report) (t : Tally) → IsJoined none t (count_failure message r t)
unfolding IsJoined count_failure
count_failure-IsJoined message r t = ground arith

abbrev pub any {ℓ} : {A : Type ℓ} → (A → Bool) → List A → Bool
any f [] = false
any f (x ∷ xs) = f x || any f xs

pub any-All {ℓ} :
    {A : Type ℓ} (f : A → Bool) (xs : List A) → (any f xs ≡ false) ↔ All (λ x. f x ≡ false) xs
any-All f [] = ground arith
any-All f (x ∷ xs) = ground (arith, any-All f xs)

-- What all outcomes make of a tally.
unfoldable pub IsSummed : List (Option Report) → Tally → Tally → Type 0
IsSummed os t after =
    (after.result.hard_reject ≡ (t.result.hard_reject || any is_rejection os))
    × (has_trait after.result ≡ (has_trait t.result || any is_trait os))
    × (ltb 0 after.unknown_count ≡ (ltb 0 t.unknown_count || any is_unclear os))
    × ((t.result.status ≡ unknown) ⊎ (after.result.status ≢ unknown))
    × (length os + (t.unknown_count + t.success_count) ≤ after.unknown_count + after.success_count)

summed :
    (o : Option Report) (os : List (Option Report)) (t next after : Tally)
    → IsJoined o t next
    → IsSummed os next after
    → IsSummed (o ∷ os) t after
unfolding IsJoined IsSummed
summed o os t next after (h1, h2, h3, h4, h5) (g1, g2, g3, g4, g5) = (
  ground (arith, h1, g1),
  ground (arith, h2, g2),
  ground (arith, h3, g3),
  ground (arith, h4, g4),
  omega (arith, h5, g5),
)

module _ (format : Format) (now : ℕ) (ip : String) where
  count_success-IsJoined :
      (r : Report) (t : Tally) → IsJoined (some r) t (count_success format now ip r t)
  unfolding IsJoined count_success merge_provider_result merge_origin merge_network
  count_success-IsJoined r t =
      let total = merge_origin format.to_upper r t.result in
      let (hard, info, status) = merge_status-kept format.decimal r total in
      (
        hard,
        ap (λ (n : NetworkClass). n.is_hosting || (n.is_vpn || (n.is_proxy || n.is_tor))) info
            ∙ ground arith,
        ground arith,
        ground (arith, status),
        ground arith,
      )

  query-IsJoined :
      (name : String) (check : Check) (t : Tally)
      → IsJoined (queried check) t (query format now ip name check t)
  unfolding queried query IsJoined
  query-IsJoined name (errs err) t = count_failure-IsJoined "" (failed_report now ip name "" "") t
  query-IsJoined name no_answer t = count_failure-IsJoined "" (failed_report now ip name "" "") t
  query-IsJoined name (reports r) t = elim (Bool-cases (r.error == "")) [
    | inl p ↦
        rw p
          (count_success-IsJoined r (record t { cache = Cache.set_provider now ip name r t.cache }))
    | inr p ↦ rw p (count_failure-IsJoined "" r t)
  ]

  restore_or_query-IsJoined :
      (p : Provider) (persisted : Option (Report × ℕ)) (t : Tally)
      → IsJoined (restored persisted p.check) t (restore_or_query format now ip p persisted t)
  unfolding restored restore_or_query IsJoined
  restore_or_query-IsJoined p none t = query-IsJoined p.name p.check t
  restore_or_query-IsJoined p (some (r, expires_at)) t =
      count_success-IsJoined r
        (record t { cache = Cache.set_provider_until ip p.name r expires_at t.cache })

  cached_or_ask-IsJoined :
      (p : Provider) (hit : Option Report) (t : Tally)
      → IsJoined (found hit p) t (cached_or_ask format now ip p hit t)
  unfolding found cached_or_ask
  cached_or_ask-IsJoined p none t = restore_or_query-IsJoined p p.persisted t
  cached_or_ask-IsJoined p (some r) t = count_success-IsJoined r t

  ask_provider-IsJoined :
      (p : Provider) (t : Tally)
      → IsJoined (outcome now ip p t.cache) t (ask_provider format now ip p t)
  unfolding outcome ask_provider IsJoined
  ask_provider-IsJoined p t =
      let got = Cache.get_provider now ip p.name t.cache in
      cached_or_ask-IsJoined p got.1 (record t { cache = got.0 })

  -- The outcomes of the providers, each with the cache as the ones before it leave it.
  unfoldable pub outcomes : List Provider → Tally → List (Option Report)
  outcomes [] t = []
  outcomes (p ∷ ps) t = outcome now ip p t.cache ∷ outcomes ps (ask_provider format now ip p t)

  pub ask_all-IsSummed :
      (ps : List Provider) (t : Tally) → IsSummed (outcomes ps t) t (ask_all format now ip ps t)
  unfolding IsSummed outcomes ask_all IsJoined
  ask_all-IsSummed [] t = ground arith
  ask_all-IsSummed (p ∷ ps) t =
      let joined = ask_provider-IsJoined p t in
      let rest = ask_all-IsSummed ps (ask_provider format now ip p t) in
      summed (outcome now ip p t.cache) (outcomes ps (ask_provider format now ip p t)) t
        (ask_provider format now ip p t) (ask_all format now ip ps (ask_provider format now ip p t))
        joined rest
