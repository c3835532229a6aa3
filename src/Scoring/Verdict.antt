-- ===== src/Scoring/Verdict.antt =====
-- Which candidates internal/scheduler/scoring.go allows, and what their scores depend on.
use super_proxy.Base.{
  String, ◌≡◌, refl, sym, ap, subst, ◌∙◌, Bool, true, false, not, if◌then◌else◌, inl, inr, arith,
  Bool-cases,
}
use super_proxy.Base.Int.{ℤ, pos, negsuc, ltb_ℤ, ◌+ℤ◌, ◌-ℤ◌, ◌≤ℤ◌, +ℤ_parts, -ℤ_parts}
use super_proxy.Models.{Node}
use super_proxy.Scoring.{
  ScoringConfig, Measured, ScoringResult, score_rejected, is_prohibited, type_bonus, region_bonus,
  speed_bonus, latency_bonus, loss_penalty, net_penalty, scored, base_score, total_score,
  evaluate_node_with_asn,
}

-- A configuration with other penalties for the traits of a network.
abbrev pub with_penalties : ℤ → ℤ → ℤ → ScoringConfig → ScoringConfig
with_penalties vpn tor hosting cfg = record cfg {
  vpn_penalty = vpn;
  tor_penalty = tor;
  hosting_penalty = hosting;
}

unprohibited-penalty :
    (cfg : ScoringConfig) (node : Node)
    → is_prohibited node.net_class ≡ false
    → net_penalty cfg node.net_class ≡ pos 0
unfolding net_penalty ◌+ℤ◌
unprohibited-penalty cfg node h = ground (arith, h)

-- The configured penalties for VPN, proxy, Tor and hosting networks change no result: a node with such
-- a trait is rejected before they are added.
pub trait_penalties_ignored :
    (vpn tor hosting : ℤ) (cfg : ScoringConfig) (normal_form : String → String) (node : Node)
    (m : Measured) (is_primary : Bool) (prefix_penalty asn_penalty : ℤ)
    → evaluate_node_with_asn
        (with_penalties vpn tor hosting cfg)
        normal_form
        node
        m
        is_primary
        prefix_penalty
        asn_penalty
      ≡ evaluate_node_with_asn cfg normal_form node m is_primary prefix_penalty asn_penalty
unfolding evaluate_node_with_asn total_score
trait_penalties_ignored vpn tor hosting cfg normal_form node m is_primary prefix_penalty
      asn_penalty =
    elim (Bool-cases (is_prohibited node.net_class)) [
      | inl p ↦ rw p refl
      | inr p ↦
          ap
            (λ (penalty : ℤ).
              let r : ScoringResult =
                if node.reputation.is_blacklisted
                then score_rejected
                else if is_prohibited node.net_class
                then score_rejected
                else scored (
                    base_score cfg normal_form node m is_primary prefix_penalty asn_penalty
                    -ℤ penalty) in
              r)
            (unprohibited-penalty (with_penalties vpn tor hosting cfg) node p
              ∙ sym (unprohibited-penalty cfg node p))
    ]

allowed_total : (total : ℤ) → not (ltb_ℤ total (negsuc 99)) ≡ true → negsuc 99 ≤ℤ total
allowed_total total h = ground (arith, h)

region_bonus-bound : (is_primary : Bool) → region_bonus is_primary ≤ℤ pos 50
region_bonus-bound true = omega arith
region_bonus-bound false = omega arith

speed_bonus-bound : (m : Measured) → speed_bonus m ≤ℤ pos 200
speed_bonus-bound m = ground arith

sum-bound :
    (t r v l loss fraud prefix asn : ℤ)
    → r ≤ℤ pos 50
    → v ≤ℤ pos 200
    → pos 0 ≤ℤ loss
    → pos 0 ≤ℤ fraud
    → pos 0 ≤ℤ prefix
    → pos 0 ≤ℤ asn
    → ((((((((t +ℤ r) +ℤ v) +ℤ l) -ℤ loss) -ℤ fraud) -ℤ prefix) -ℤ asn) -ℤ pos 0)
      ≤ℤ ((t +ℤ pos 250) +ℤ l)
sum-bound t r v l loss fraud prefix asn hr hv hl hf hp ha = omega (arith, +ℤ_parts, -ℤ_parts)

total_score-bound :
    (cfg : ScoringConfig) (normal_form : String → String) (node : Node) (m : Measured)
    (is_primary : Bool) (prefix_penalty asn_penalty : ℤ)
    → pos 0 ≤ℤ loss_penalty m
    → pos 0 ≤ℤ node.reputation.fraud_score
    → pos 0 ≤ℤ prefix_penalty
    → pos 0 ≤ℤ asn_penalty
    → is_prohibited node.net_class ≡ false
    → total_score cfg normal_form node m is_primary prefix_penalty asn_penalty
      ≤ℤ ((type_bonus cfg (normal_form node.net_class.network_type) +ℤ pos 250) +ℤ latency_bonus m)
unfolding total_score base_score
total_score-bound cfg normal_form node m is_primary prefix_penalty asn_penalty hl hf hp ha q =
    subst
      (λ (penalty : ℤ).
        (base_score cfg normal_form node m is_primary prefix_penalty asn_penalty -ℤ penalty) ≤ℤ (
          (type_bonus cfg (normal_form node.net_class.network_type) +ℤ pos 250) +ℤ latency_bonus m))
      (sym (unprohibited-penalty cfg node q))
      (sum-bound (type_bonus cfg (normal_form node.net_class.network_type))
        (region_bonus is_primary) (speed_bonus m) (latency_bonus m) (loss_penalty m)
        node.reputation.fraud_score prefix_penalty asn_penalty (region_bonus-bound is_primary)
        (speed_bonus-bound m) hl hf hp ha)

-- A node that is allowed is neither blacklisted nor of a prohibited network, and scores at least -100.
-- Its score is at most the bonus of its network's type, 50 for the region, 200 for speed and its points
-- for latency, if no penalty is negative.
pub allowed_score-bounds :
    (cfg : ScoringConfig) (normal_form : String → String) (node : Node) (m : Measured)
    (is_primary : Bool) (prefix_penalty asn_penalty : ℤ)
    → pos 0 ≤ℤ loss_penalty m
    → pos 0 ≤ℤ node.reputation.fraud_score
    → pos 0 ≤ℤ prefix_penalty
    → pos 0 ≤ℤ asn_penalty
    → let r : ScoringResult =
        evaluate_node_with_asn cfg normal_form node m is_primary prefix_penalty asn_penalty in
      r.allowed ≡ true
      → (node.reputation.is_blacklisted ≡ false)
        × (is_prohibited node.net_class ≡ false)
        × (negsuc 99 ≤ℤ r.final_score)
        × (r.final_score ≤ℤ (
            (type_bonus cfg (normal_form node.net_class.network_type) +ℤ pos 250)
            +ℤ latency_bonus m))
unfolding evaluate_node_with_asn
allowed_score-bounds cfg normal_form node m is_primary prefix_penalty asn_penalty hl hf hp ha h =
    elim (Bool-cases node.reputation.is_blacklisted) [
      | inl p ↦ ground (arith, p, h)
      | inr p ↦ elim (Bool-cases (is_prohibited node.net_class)) [
        | inl q ↦ ground (arith, p, q, h)
        | inr q ↦
            let total = total_score cfg normal_form node m is_primary prefix_penalty asn_penalty in
            let result : evaluate_node_with_asn cfg normal_form node m is_primary prefix_penalty
                  asn_penalty
                ≡ scored total =
              rw (p, q) refl in
            (
              p,
              q,
              subst (λ (r : ScoringResult). negsuc 99 ≤ℤ r.final_score) (sym result)
                  (allowed_total total (ap (λ (r : ScoringResult). r.allowed) (sym result) ∙ h)),
              subst
                  (λ (r : ScoringResult). r.final_score ≤ℤ (
                    (type_bonus cfg (normal_form node.net_class.network_type) +ℤ pos 250)
                    +ℤ latency_bonus m))
                  (sym result)
                  (total_score-bound cfg normal_form node m is_primary prefix_penalty asn_penalty hl
                    hf hp ha q),
            )
      ]
    ]
