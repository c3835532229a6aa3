-- ===== src/Tests/ReputationTests.antt =====
-- internal/reputation/engine.go at concrete inputs: one provider reports, one fails.
use super_proxy.Base.{
  ◌+◌, ◌≤◌, false, none, some, [], ◌∷◌, ◌≡◌, ◌↔◌, refl, if◌then◌else◌, ltb, All, arith,
}
use super_proxy.Base.Int.{pos}
use super_proxy.Admission.{good, judge}
use super_proxy.Base.Assoc
use super_proxy.Cache
use super_proxy.Reputation.{Report, errs, reports, Provider, Config, ResultCache}
use super_proxy.Reputation.Evaluate.{
  Format, Tally, evaluate_ip, opening, ask_all, conclude_evaluation, aggregate_expiry,
}
use super_proxy.Reputation.Outcomes.{outcomes}
use super_proxy.Reputation.Verdict.{AllClear, evaluation_admits}
use super_proxy.Reputation.Expiry.{IsWithin, stored_result}
use super_proxy.Tests.Data.{residential}
use super_proxy.Tests.PolicyTests.{clean_engine}

abbrev pub plain_format : Format
plain_format = record { to_upper = λ s. s; decimal = λ n. "0"; listed = λ l. "" }

abbrev pub good_report : Report
good_report = record {
  provider = "AbuseIPDB";
  ip = "198.51.100.7";
  status = good;
  is_vpn = none;
  is_proxy = none;
  is_tor = none;
  is_hosting = none;
  asn = "AS64500";
  isp = "";
  organization = "";
  country = "Japan";
  country_code = "JP";
  observed_at = some 5;
  error = "";
  hard_reject = false;
  score_penalty = pos 0;
  provider_reason = "";
  network_info = residential;
}

abbrev pub reporting : Provider
reporting = record { name = "AbuseIPDB"; persisted = none; check = reports good_report }

abbrev pub failing : Provider
failing = record { name = "ProxyCheck.io"; persisted = none; check = errs "timeout" }

abbrev pub conservative : Config
conservative = record { failure_policy = "conservative"; lenient_penalty = pos 20 }

abbrev pub empty_cache : ResultCache
empty_cache = record {
  entries = [];
  provider_entries = [];
  ttl = 100;
  provider_ttls = ("AbuseIPDB", 40) ∷ [];
  hits = 0;
  misses = 0;
  requests = 0;
}

evaluation_admits_example :
    (judge clean_engine (
        (evaluate_ip plain_format 10 "198.51.100.7" conservative
          (reporting ∷ failing ∷ [])
          empty_cache).1)
      ≡ none)
    ↔ AllClear plain_format 10 "198.51.100.7" conservative (
        outcomes plain_format 10 "198.51.100.7"
          (reporting ∷ failing ∷ [])
          (opening plain_format 10 "198.51.100.7" ((Cache.get 10 "198.51.100.7" empty_cache).0)))
unfolding Cache.get Cache.fresh Assoc.lookup
evaluation_admits_example =
    evaluation_admits plain_format 10 "198.51.100.7" conservative clean_engine reporting
      (failing ∷ []) empty_cache refl refl

abbrev pub asked : Tally
asked =
    ask_all plain_format 10 "198.51.100.7" (reporting ∷ failing ∷ [])
      (opening plain_format 10 "198.51.100.7" empty_cache)

stored_result_example :
    let (cache, r) = conclude_evaluation plain_format 10 "198.51.100.7" conservative asked in
    let until = aggregate_expiry plain_format 10 "198.51.100.7" asked.cache asked.evidences in
    ((Cache.get 30 "198.51.100.7" cache).1 ≡ (if ltb until 30 then none else some r))
    × (until ≤ 10 + asked.cache.ttl)
    × All (λ e. IsWithin asked.cache e until) asked.evidences
unfolding ask_all
stored_result_example =
    stored_result plain_format 10 "198.51.100.7" conservative asked 30 (ground arith)
