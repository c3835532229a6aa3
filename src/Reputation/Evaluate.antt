-- ===== src/Reputation/Evaluate.antt =====
-- EvaluateIP of internal/reputation/engine.go. The goroutines of the providers share the result under a
-- mutex: the list of providers is in the order in which they take it. The clock is read once, and what
-- is written to the database is left out, since nothing here reads it.
use super_proxy.Base.{
  ℕ, suc, ◌+◌, String, false, ◌&&◌, ◌||◌, not, Option, none, some, List, [], ◌∷◌, ◌++◌, ◌==◌,
  string_eq, nat_eq, ltb, if◌then◌else◌,
}
use super_proxy.Base.Int.{ℤ, pos, ◌+ℤ◌}
use super_proxy.Models.{NetworkClass}
use super_proxy.Admission.{ReputationStatus, Result, good, unknown, rep_eq}
use super_proxy.Cache
use super_proxy.Reputation.{Report, Check, errs, no_answer, reports, Provider, Config, ResultCache}
use super_proxy.Reputation.Merge.{append, merge_provider_result}

-- What the texts need of Go's package fmt, and strings.ToUpper.
pub record Format : Type 0 where
  pub to_upper : String → String
  pub decimal : ℤ → String
  pub listed : List String → String

-- What the goroutines share: finalResult, its evidences in the opposite order, errMessages, the counts,
-- and the cache.
pub record Tally : Type 0 where
  pub result : Result
  pub evidences : List Report
  pub messages : List String
  pub unknown_count : ℕ
  pub success_count : ℕ
  pub cache : ResultCache

abbrev pub no_network : NetworkClass
no_network = record {
  asn = "";
  isp = "";
  organization = "";
  network_type = "";
  is_vpn = false;
  is_proxy = false;
  is_tor = false;
  is_hosting = false;
}

-- A Result with its address and its status set.
abbrev pub blank_result : String → ReputationStatus → String → Result
blank_result ip status reason = record {
  ip = ip;
  country = "";
  country_code = "";
  status = status;
  hard_reject = false;
  score_penalty = pos 0;
  provider_reason = reason;
  network_info = no_network;
}

-- The evidence of a provider that did not report.
unfoldable pub failed_report : ℕ → String → String → String → String → Report
failed_report now ip provider error reason = record {
  provider = provider;
  ip = ip;
  status = unknown;
  is_vpn = none;
  is_proxy = none;
  is_tor = none;
  is_hosting = none;
  asn = "";
  isp = "";
  organization = "";
  country = "";
  country_code = "";
  observed_at = some now;
  error = error;
  hard_reject = false;
  score_penalty = pos 0;
  provider_reason = reason;
  network_info = no_network;
}

-- A provider that failed.
unfoldable pub count_failure : String → Report → Tally → Tally
count_failure message r t = record t {
  evidences = r ∷ t.evidences;
  messages = t.messages ++ (message ∷ []);
  unknown_count = suc t.unknown_count;
}

-- The expiry that one evidence allows.
unfoldable pub bounded_by : ResultCache → Report → ℕ → ℕ
bounded_by cache r expiry = elim r.observed_at [
  | none ↦ expiry
  | some at ↦
      let own = at + Cache.provider_ttl r.provider cache in
      if not (r.error == "") || ((r.status == unknown) || not (ltb own expiry)) then expiry else own
]

module _ (format : Format) (now : ℕ) (ip : String) where
  -- A provider that reported.
  unfoldable pub count_success : Report → Tally → Tally
  unfolding merge_provider_result
  count_success r t =
      let merged =
        merge_provider_result format.to_upper format.decimal r (t.result, t.unknown_count) in
      record t {
        result = merged.0;
        unknown_count = merged.1;
        evidences = r ∷ t.evidences;
        success_count = suc t.success_count;
      }

  unfoldable pub query : String → Check → Tally → Tally
  unfolding count_failure count_success failed_report
  query name (errs err) t =
      count_failure (append name (append ": " err))
        (failed_report now ip name err (append name (append " query error: " err))) t
  query name no_answer t =
      count_failure (append name ": provider returned no result")
        (failed_report now ip name "provider returned no result" "") t
  query name (reports r) t =
      if r.error == ""
      then count_success r (record t { cache = Cache.set_provider now ip name r t.cache })
      else count_failure (append name (append ": " r.error)) r t

  -- The durable evidence, before the provider is asked.
  unfoldable pub restore_or_query : Provider → Option (Report × ℕ) → Tally → Tally
  unfolding query count_success
  restore_or_query p none t = query p.name p.check t
  restore_or_query p (some (r, expires_at)) t =
      count_success r (record t { cache = Cache.set_provider_until ip p.name r expires_at t.cache })

  unfoldable pub cached_or_ask : Provider → Option Report → Tally → Tally
  unfolding restore_or_query count_success
  cached_or_ask p none t = restore_or_query p p.persisted t
  cached_or_ask p (some r) t = count_success r t

  -- The goroutine of a provider.
  unfoldable pub ask_provider : Provider → Tally → Tally
  unfolding cached_or_ask
  ask_provider p t =
      let got = Cache.get_provider now ip p.name t.cache in
      cached_or_ask p got.1 (record t { cache = got.0 })

  unfoldable pub ask_all : List Provider → Tally → Tally
  unfolding ask_provider
  ask_all [] t = t
  ask_all (p ∷ ps) t = ask_all ps (ask_provider p t)

  -- The lenient penalty.
  unfoldable pub apply_lenient : Config → Result → Result
  apply_lenient config r =
      if config.failure_policy == "lenient"
      then record r {
        score_penalty = r.score_penalty +ℤ config.lenient_penalty;
        provider_reason = append r.provider_reason (
            append " [Policy: lenient UNKNOWN applied penalty -"
              (append (format.decimal config.lenient_penalty) "]"));
      }
      else r

  -- No provider reported.
  unfoldable pub all_failed : Config → Tally → Result
  unfolding apply_lenient
  all_failed config t = apply_lenient config (record t.result {
    status = unknown;
    provider_reason =
        append "UNKNOWN: all providers failed (" (append (format.listed t.messages) ")");
  })

  -- Policy handling for UNKNOWN evaluations
  unfoldable pub apply_policy : Config → Tally → Result
  unfolding apply_lenient
  apply_policy config t =
      if ltb 0 t.unknown_count && not t.result.hard_reject
      then (if config.failure_policy == "conservative"
          then record t.result {
            status = unknown;
            provider_reason =
                append t.result.provider_reason " [Policy: conservative UNKNOWN fail-closed]";
          }
          else apply_lenient config t.result)
      else t.result

  unfoldable pub aggregate_expiry : ResultCache → List Report → ℕ
  unfolding bounded_by
  aggregate_expiry cache [] = now + cache.ttl
  aggregate_expiry cache (r ∷ rs) = bounded_by cache r (aggregate_expiry cache rs)

  -- EvaluateIP after the providers; a result that no provider supports is not cached.
  unfoldable pub conclude_evaluation : Config → Tally → ResultCache × Result
  unfolding all_failed apply_policy aggregate_expiry
  conclude_evaluation config t =
      if t.success_count == 0
      then (t.cache, all_failed config t)
      else (let r = apply_policy config t in
          (Cache.set_until ip r (aggregate_expiry t.cache t.evidences) t.cache, r))

  abbrev pub opening : ResultCache → Tally
  opening cache = record {
    result = blank_result ip good "";
    evidences = [];
    messages = [];
    unknown_count = 0;
    success_count = 0;
    cache = cache;
  }

  unfoldable pub evaluate_all : Config → List Provider → ResultCache → ResultCache × Result
  unfolding ask_all conclude_evaluation
  evaluate_all config [] cache =
      (cache, blank_result ip unknown "UNKNOWN (No reputation providers configured)")
  evaluate_all config (p ∷ ps) cache = conclude_evaluation config (ask_all (p ∷ ps) (opening cache))

  unfoldable pub evaluate_found :
      Config → List Provider → ResultCache → Option Result → ResultCache × Result
  unfolding evaluate_all
  evaluate_found config providers cache (some r) = (cache, r)
  evaluate_found config providers cache none = evaluate_all config providers cache

  -- EvaluateIP
  unfoldable pub evaluate_ip : Config → List Provider → ResultCache → ResultCache × Result
  unfolding evaluate_found
  evaluate_ip config providers cache =
      let got = Cache.get now ip cache in evaluate_found config providers got.0 got.1
