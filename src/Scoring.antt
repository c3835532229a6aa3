-- ===== src/Scoring.antt =====
-- internal/scheduler/scoring.go: the score of a candidate. What the code computes with floats, the
-- points for speed, latency and packet loss, are integers of the record `Measured`; the texts that
-- explain a score are left out.
pub mod Verdict
use super_proxy.Base.{
  ℕ, String, Bool, true, false, ◌&&◌, ◌||◌, not, List, [], ◌∷◌, if◌then◌else◌, ◌==◌, string_eq,
  contains,
}
use super_proxy.Base.Int.{ℤ, pos, negsuc, ltb_ℤ, ◌+ℤ◌, ◌-ℤ◌}
use super_proxy.Models.{Node, NetworkClass}
use super_proxy.Diversity.{Text}

-- config.ScoringConfig, but for the weights, which only make points, and a deprecated field that the
-- code ignores.
pub record ScoringConfig : Type 0 where
  pub residential_bonus : ℤ
  pub business_bonus : ℤ
  pub wireless_bonus : ℤ
  pub vpn_penalty : ℤ
  pub tor_penalty : ℤ
  pub hosting_penalty : ℤ
  pub prefix_bad_limit : ℤ
  pub prefix_penalty : ℤ

-- node.Performance, and the points that are truncated from it with the weights.
pub record Measured : Type 0 where
  pub download_speed : ℤ
  pub rtt : ℤ
  pub loses_packets : Bool  -- PacketLoss > 2.0
  pub speed_points : ℤ  -- int(speedMbps * SpeedWeight)
  pub latency_points : ℤ  -- int(float64(200-RTT) * LatencyWeight)
  pub loss_points : ℤ  -- int(PacketLoss * 2)

pub record ScoringResult : Type 0 where
  pub final_score : ℤ
  pub allowed : Bool

abbrev or_default : ℤ → ℤ → ℤ
or_default value n = if ltb_ℤ (pos 0) n then n else value

-- NewScoringEngine
unfoldable pub new_scoring_engine : ScoringConfig → ScoringConfig
new_scoring_engine cfg = record {
  residential_bonus = or_default (pos 40) cfg.residential_bonus;
  business_bonus = or_default (pos 20) cfg.business_bonus;
  wireless_bonus = or_default (pos 25) cfg.wireless_bonus;
  vpn_penalty = or_default (pos 5) cfg.vpn_penalty;
  tor_penalty = or_default (pos 50) cfg.tor_penalty;
  hosting_penalty = or_default (pos 10) cfg.hosting_penalty;
  prefix_bad_limit = or_default (pos 3) cfg.prefix_bad_limit;
  prefix_penalty = or_default (pos 20) cfg.prefix_penalty;
}

abbrev pub score_rejected : ScoringResult
score_rejected = record { final_score = negsuc 9998; allowed = false }

abbrev pub is_prohibited : NetworkClass → Bool
is_prohibited c = c.is_hosting || c.is_vpn || c.is_proxy || c.is_tor

-- The bonus of a network type that is trimmed and in lower case.
abbrev pub type_bonus : ScoringConfig → String → ℤ
type_bonus cfg kind =
    if contains ("residential" ∷ "broadband" ∷ "isp" ∷ []) kind
    then cfg.residential_bonus
    else if contains ("wireless" ∷ "mobile" ∷ []) kind
    then cfg.wireless_bonus
    else if contains ("business" ∷ "corporate" ∷ []) kind
    then cfg.business_bonus
    else pos 0

abbrev pub region_bonus : Bool → ℤ
region_bonus is_primary = if is_primary then pos 50 else pos 0

abbrev pub speed_bonus : Measured → ℤ
speed_bonus m =
    if ltb_ℤ (pos 0) m.download_speed
    then if ltb_ℤ (pos 200) m.speed_points then pos 200 else m.speed_points
    else pos 0

abbrev pub latency_bonus : Measured → ℤ
latency_bonus m = if ltb_ℤ (pos 0) m.rtt && ltb_ℤ m.rtt (pos 200) then m.latency_points else pos 0

abbrev pub loss_penalty : Measured → ℤ
loss_penalty m = if m.loses_packets then m.loss_points else pos 0

abbrev penalty_if : Bool → ℤ → ℤ
penalty_if b n = if b then n else pos 0

unfoldable pub net_penalty : ScoringConfig → NetworkClass → ℤ
net_penalty cfg c =
    ((penalty_if c.is_hosting cfg.hosting_penalty +ℤ penalty_if c.is_vpn cfg.vpn_penalty)
      +ℤ penalty_if c.is_proxy cfg.vpn_penalty)
    +ℤ penalty_if c.is_tor cfg.tor_penalty

abbrev pub scored : ℤ → ScoringResult
scored total = record { final_score = total; allowed = not (ltb_ℤ total (negsuc 99)) }

-- The sum of the bonuses less the penalties, but for those of the network's traits.
unfoldable pub base_score : ScoringConfig → (String → String) → Node → Measured → Bool → ℤ → ℤ → ℤ
base_score cfg normal_form node m is_primary prefix_penalty asn_penalty =
    ((((((type_bonus cfg (normal_form node.net_class.network_type) +ℤ region_bonus is_primary)
              +ℤ speed_bonus m)
            +ℤ latency_bonus m)
          -ℤ loss_penalty m)
        -ℤ node.reputation.fraud_score)
      -ℤ prefix_penalty)
    -ℤ asn_penalty

unfoldable pub total_score : ScoringConfig → (String → String) → Node → Measured → Bool → ℤ → ℤ → ℤ
unfolding net_penalty base_score
total_score cfg normal_form node m is_primary prefix_penalty asn_penalty =
    base_score cfg normal_form node m is_primary prefix_penalty asn_penalty
    -ℤ net_penalty cfg node.net_class

-- EvaluateNodeWithASN; `normal_form` is strings.ToLower after strings.TrimSpace.
unfoldable pub evaluate_node_with_asn :
    ScoringConfig → (String → String) → Node → Measured → Bool → ℤ → ℤ → ScoringResult
unfolding total_score
evaluate_node_with_asn cfg normal_form node m is_primary prefix_penalty asn_penalty =
    if node.reputation.is_blacklisted
    then score_rejected
    else if is_prohibited node.net_class
    then score_rejected
    else scored (total_score cfg normal_form node m is_primary prefix_penalty asn_penalty)

-- EvaluateNode
unfoldable pub evaluate_node :
    ScoringConfig → (String → String) → Node → Measured → Bool → ℤ → ScoringResult
unfolding evaluate_node_with_asn
evaluate_node cfg normal_form node m is_primary prefix_penalty =
    evaluate_node_with_asn cfg normal_form node m is_primary prefix_penalty (pos 0)
