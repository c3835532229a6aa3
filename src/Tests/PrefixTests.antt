-- ===== src/Tests/PrefixTests.antt =====
-- The statistics of internal/reputation/prefix.go and internal/reputation/asn.go at concrete inputs.
use super_proxy.Base.{ℕ, ◌*◌, Bool, true, false, ◌≡◌, refl, some, [], ◌∷◌, List}
use super_proxy.Diversity.{Prefix, analyze_prefix}
use super_proxy.Reputation.Observations.{
  PrefixObservation, ProfileWindow, penalized, no_risk, hour, query_prefix_window,
  evaluate_prefix_risk,
}
use super_proxy.Reputation.Condemned.{IsEvidence, evaluate_prefix_risk-IsEvidence}
use super_proxy.Tests.PolicyTests.{plain_text}

abbrev seen_at : ℕ → Bool → PrefixObservation
seen_at time hard = record {
  prefix = record { first = 203; second = 0; third = 113 };
  ip = "203.0.113.1";
  is_bad = hard;
  is_hard_reject = hard;
  is_unknown = false;
  asn = "AS2516";
  isp = "KDDI";
  network_type = "residential";
  is_vpn = false;
  is_proxy = false;
  is_tor = false;
  is_hosting = false;
  observed_at = time;
}

abbrev long_after : ℕ
long_after = 10000 * hour

-- Five observations of the last day, three of them hard rejects, and an older one.
abbrev spiking : List PrefixObservation
spiking =
    seen_at long_after true
    ∷ seen_at long_after true
    ∷ seen_at long_after true
    ∷ seen_at long_after false
    ∷ seen_at long_after false
    ∷ seen_at 0 true
    ∷ []

abbrev all_read : ProfileWindow → Bool
all_read w = true

abbrev quiet : ℕ → List PrefixObservation → List PrefixObservation
quiet ℕ.zero rest = rest
quiet (ℕ.suc n) rest = seen_at (9900 * hour) false ∷ quiet n rest

-- Three bad observations of three are too few.
sparse_allowed :
    evaluate_prefix_risk plain_text all_read long_after
      (seen_at long_after true ∷ seen_at long_after true ∷ seen_at long_after true ∷ [])
      "203.0.113.1"
    ≡ penalized 5
unfolding evaluate_prefix_risk analyze_prefix
sparse_allowed = refl

-- A spike of the last day is not seen under a quiet week: all five of today's samples are hard rejects.
spike_masked :
    evaluate_prefix_risk plain_text all_read long_after
      (quiet 96 (
        seen_at long_after true
        ∷ seen_at long_after true
        ∷ seen_at long_after true
        ∷ seen_at long_after true
        ∷ seen_at long_after true
        ∷ []))
      "203.0.113.1"
    ≡ no_risk
unfolding evaluate_prefix_risk analyze_prefix
spike_masked = refl

evaluate_prefix_risk-IsEvidence_example :
    (prefix : Prefix) × (analyze_prefix plain_text "203.0.113.1" ≡ some prefix)
    × (w : ProfileWindow) × (all_read w ≡ true)
    × IsEvidence (query_prefix_window long_after spiking prefix w)
unfolding evaluate_prefix_risk analyze_prefix
evaluate_prefix_risk-IsEvidence_example =
    evaluate_prefix_risk-IsEvidence plain_text all_read long_after spiking "203.0.113.1" refl
