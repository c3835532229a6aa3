-- ===== src/Reputation/AsnProfile.antt =====
-- internal/reputation/asn.go: the record of an autonomous system over a window of time.
use super_proxy.Base.{
  ℕ, ◌-◌, ◌≤◌, String, Bool, ◌&&◌, ◌||◌, not, Option, none, some, List, if◌then◌else◌, ◌==◌, nat_eq,
  string_eq, leb, count, filter, length, arith,
}
use super_proxy.Reputation.Observations.{ProfileWindow, window_duration, ratio_at_least}

pub record AsnObservation : Type 0 where
  pub asn : String
  pub is_bad : Bool
  pub is_hard_reject : Bool
  pub is_unknown : Bool
  pub observed_at : ℕ

pub data RiskLevel : Type 0 where
  low medium high critical : RiskLevel

pub record AsnProfile : Type 0 where
  pub sample_count : ℕ
  pub bad_count : ℕ
  pub hard_reject_count : ℕ
  pub unknown_count : ℕ
  pub risk_level : RiskLevel
  pub score_penalty : ℕ

-- The dynamic risk classification.
unfoldable pub classify : ℕ → ℕ → ℕ → RiskLevel × ℕ
classify samples bad hard =
    if leb 5 samples
    then if ratio_at_least 2 5 hard samples || ratio_at_least 3 4 bad samples
      then (critical, 40)
      else if ratio_at_least 1 2 bad samples
      then (high, 25)
      else if ratio_at_least 1 4 bad samples
      then (medium, 10)
      else (low, 0)
    else if not (samples == 0) && ratio_at_least 4 5 bad samples
    then (medium, 10)
    else (low, 0)

abbrev pub asn_seen_since : ℕ → String → AsnObservation → Bool
asn_seen_since since asn o = (o.asn == asn) && leb since o.observed_at

abbrev pub asn_profile : List AsnObservation → AsnProfile
asn_profile obs =
    let bad = count (λ (o : AsnObservation). o.is_bad) obs in
    let hard = count (λ (o : AsnObservation). o.is_hard_reject) obs in
    let risk = classify (length obs) bad hard in
    record {
      sample_count = length obs;
      bad_count = bad;
      hard_reject_count = hard;
      unknown_count = count (λ (o : AsnObservation). o.is_unknown) obs;
      risk_level = risk.0;
      score_penalty = risk.1;
    }

-- QueryASNProfile; `none` is an error: no ASN, or a query that fails.
unfoldable pub query_asn_profile :
    Bool → ℕ → List AsnObservation → String → ProfileWindow → Option AsnProfile
unfolding classify
query_asn_profile reads now table asn window =
    if asn == ""
    then none
    else if reads
    then some (asn_profile (filter (asn_seen_since (now - window_duration window) asn) table))
    else none

-- More bad samples and more hard rejects, of as many samples, never lower the penalty.
pub classify-grows :
    (samples bad hard bad' hard' : ℕ)
    → bad ≤ bad'
    → hard ≤ hard'
    → (classify samples bad hard).1 ≤ (classify samples bad' hard').1
unfolding classify
classify-grows samples bad hard bad' hard' hb hh = ground arith
