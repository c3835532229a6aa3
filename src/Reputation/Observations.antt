-- ===== src/Reputation/Observations.antt =====
-- internal/reputation/prefix.go and internal/reputation/asn.go: the statistics of a /24 and of an
-- autonomous system over a window of time. The tables are lists of observations, times are numbers of
-- nanoseconds. Ratios stay pairs of counts: for fewer than 2 ^ 48 samples a float quotient compares
-- with the constants of the code as the exact one does. The texts that explain a risk, the averages
-- and the times first and last seen, which decide nothing, are left out.
use super_proxy.Base.{
  ℕ, suc, ◌-◌, ◌*◌, String, Bool, true, false, ◌&&◌, ◌||◌, not, Option, none, some, List, [], ◌∷◌,
  map, if◌then◌else◌, ◌==◌, nat_eq, string_eq, ltb, leb, contains, count, filter, length,
}
use super_proxy.Diversity.{Text, Prefix, prefix_eq, analyze_prefix}

pub record PrefixObservation : Type 0 where
  pub prefix : Prefix
  pub ip : String
  pub is_bad : Bool
  pub is_hard_reject : Bool
  pub is_unknown : Bool
  pub asn : String
  pub isp : String
  pub network_type : String
  pub is_vpn : Bool
  pub is_proxy : Bool
  pub is_tor : Bool
  pub is_hosting : Bool
  pub observed_at : ℕ

pub record PrefixIntelligence : Type 0 where
  pub sample_count : ℕ
  pub bad_count : ℕ
  pub unknown_count : ℕ
  pub hard_reject_count : ℕ
  pub vpn_count : ℕ
  pub proxy_count : ℕ
  pub tor_count : ℕ
  pub hosting_count : ℕ
  pub residential_count : ℕ
  pub distinct_ips : ℕ
  pub asn_diversity : ℕ
  pub isp_diversity : ℕ

pub data ProfileWindow : Type 0 where
  window_24h window_7d window_30d window_90d : ProfileWindow

abbrev pub hour : ℕ
hour = 3600000000000

-- WindowDuration
abbrev pub window_duration : ProfileWindow → ℕ
window_duration window_24h = 24 * hour
window_duration window_7d = 7 * 24 * hour
window_duration window_30d = 30 * 24 * hour
window_duration window_90d = 90 * 24 * hour

-- COUNT(DISTINCT …), and with NULLIF(…, '').
unfoldable pub count_distinct : List String → ℕ
count_distinct [] = 0
count_distinct (x ∷ xs) = let rest = count_distinct xs in if contains xs x then rest else suc rest

abbrev non_empty : List String → List String
non_empty xs = filter (λ x. not (x == "")) xs

unfoldable pub summarize : List PrefixObservation → PrefixIntelligence
unfolding count_distinct
summarize obs = record {
  sample_count = length obs;
  bad_count = count (λ (o : PrefixObservation). o.is_bad) obs;
  unknown_count = count (λ (o : PrefixObservation). o.is_unknown) obs;
  hard_reject_count = count (λ (o : PrefixObservation). o.is_hard_reject) obs;
  vpn_count = count (λ (o : PrefixObservation). o.is_vpn) obs;
  proxy_count = count (λ (o : PrefixObservation). o.is_proxy) obs;
  tor_count = count (λ (o : PrefixObservation). o.is_tor) obs;
  hosting_count = count (λ (o : PrefixObservation). o.is_hosting) obs;
  residential_count = count (λ (o : PrefixObservation). o.network_type == "residential") obs;
  distinct_ips = count_distinct (map (λ (o : PrefixObservation). o.ip) obs);
  asn_diversity = count_distinct (non_empty (map (λ (o : PrefixObservation). o.asn) obs));
  isp_diversity = count_distinct (non_empty (map (λ (o : PrefixObservation). o.isp) obs));
}

-- The rows of a prefix since a time.
abbrev pub seen_since : ℕ → Prefix → PrefixObservation → Bool
seen_since since prefix o = (o.prefix == prefix) && leb since o.observed_at

-- QueryPrefixWindow, where the query succeeds.
unfoldable pub query_prefix_window :
    ℕ → List PrefixObservation → Prefix → ProfileWindow → PrefixIntelligence
unfolding summarize
query_prefix_window now table prefix window =
    summarize (filter (seen_since (now - window_duration window) prefix) table)

-- RefreshPrefixSummary: the summary over all times that is stored; `none` where nothing is stored.
unfoldable pub refresh_prefix_summary : List PrefixObservation → Prefix → Option PrefixIntelligence
unfolding summarize
refresh_prefix_summary table prefix =
    let s = summarize (filter (λ o. o.prefix == prefix) table) in
    if s.sample_count == 0 then none else some s

-- At least `num` of `den` samples in ratio.
abbrev pub ratio_at_least : ℕ → ℕ → ℕ → ℕ → Bool
ratio_at_least num den some_count total = leb (num * total) (den * some_count)

pub record PrefixRisk : Type 0 where
  pub is_high_risk : Bool
  pub penalty : ℕ

abbrev pub no_risk : PrefixRisk
no_risk = record { is_high_risk = false; penalty = 0 }

abbrev pub condemned : ℕ → PrefixRisk
condemned n = record { is_high_risk = true; penalty = n }

abbrev pub penalized : ℕ → PrefixRisk
penalized n = record { is_high_risk = false; penalty = n }

-- A window that could not be read is `none`.
abbrev pub or_window :
    Option PrefixIntelligence → Option PrefixIntelligence → Option PrefixIntelligence
or_window none next = next
or_window (some w) next = if w.sample_count == 0 then next else some w

abbrev pub spikes : Option PrefixIntelligence → Bool
spikes none = false
spikes (some w) = leb 5 w.sample_count && ratio_at_least 1 2 w.hard_reject_count w.sample_count

abbrev pub is_chronic : Option PrefixIntelligence → Bool
is_chronic none = false
is_chronic (some w) = leb 10 w.sample_count && ratio_at_least 2 5 w.hard_reject_count w.sample_count

abbrev pub is_dense : PrefixIntelligence → Bool
is_dense p =
    ratio_at_least 3 10 p.hard_reject_count p.sample_count
    || (ratio_at_least 1 2 p.bad_count p.sample_count && leb 3 p.distinct_ips)

abbrev pub is_low : PrefixIntelligence → Bool
is_low p =
    not (ratio_at_least 1 10 p.bad_count p.sample_count)
    && not (ratio_at_least 1 20 p.hard_reject_count p.sample_count)

-- The decision on the primary window, given whether there is a spike and chronic abuse.
abbrev pub judge_with : PrefixIntelligence → Bool → Bool → PrefixRisk
judge_with p spike chronic =
    if ltb p.sample_count 5
    then if ratio_at_least 1 2 p.bad_count p.sample_count then penalized 5 else no_risk
    else if is_low p
    then no_risk
    else if spike
    then condemned 35
    else if chronic
    then condemned 25
    else if is_dense p
    then condemned 30
    else if ratio_at_least 1 4 p.bad_count p.sample_count
    then penalized 15
    else if ratio_at_least 7 10 p.unknown_count p.sample_count && leb 5 p.sample_count
    then penalized 5
    else no_risk

unfoldable pub judge_prefix :
    PrefixIntelligence → Option PrefixIntelligence → Option PrefixIntelligence → PrefixRisk
judge_prefix p w24h w90d = judge_with p (spikes w24h) (is_chronic w90d)

abbrev pub judge_primary :
    Option PrefixIntelligence → Option PrefixIntelligence → Option PrefixIntelligence → PrefixRisk
judge_primary none w24h w90d = no_risk
judge_primary (some p) w24h w90d = if p.sample_count == 0 then no_risk else judge_prefix p w24h w90d

abbrev pub primary_window : (ProfileWindow → Option PrefixIntelligence) → Option PrefixIntelligence
primary_window w =
    or_window (or_window (or_window (w window_7d) (w window_24h)) (w window_30d)) (w window_90d)

-- The part of EvaluatePrefixRisk after the four queries.
unfoldable pub evaluate_windows : (ProfileWindow → Option PrefixIntelligence) → PrefixRisk
unfolding judge_prefix
evaluate_windows w = judge_primary (primary_window w) (w window_24h) (w window_90d)

-- EvaluatePrefixRisk; `reads` tells which queries succeed.
unfoldable pub evaluate_prefix_risk :
    Text → (ProfileWindow → Bool) → ℕ → List PrefixObservation → String → PrefixRisk
unfolding evaluate_windows query_prefix_window
evaluate_prefix_risk text reads now table ip = elim (analyze_prefix text ip) [
  | none ↦ no_risk
  | some prefix ↦
      evaluate_windows
        (λ w. if reads w then some (query_prefix_window now table prefix w) else none)
]
