-- ===== src/Tests/ScoringTests.antt =====
-- The scores of internal/scheduler/scoring.go at concrete inputs.
use super_proxy.Base.{String, true, ◌≡◌, refl}
use super_proxy.Base.Int.{pos, ◌+ℤ◌, ◌-ℤ◌}
use super_proxy.Models.{Node, Status}
use super_proxy.Scoring.{ScoringConfig, Measured, new_scoring_engine, evaluate_node_with_asn}
use super_proxy.Scoring.Verdict.{with_penalties, trait_penalties_ignored}
use super_proxy.Tests.Data.{node_at}

abbrev unset_config : ScoringConfig
unset_config = record {
  residential_bonus = pos 0;
  business_bonus = pos 0;
  wireless_bonus = pos 0;
  vpn_penalty = pos 0;
  tor_penalty = pos 0;
  hosting_penalty = pos 0;
  prefix_bad_limit = pos 0;
  prefix_penalty = pos 0;
}

abbrev default_config : ScoringConfig
default_config = new_scoring_engine unset_config

abbrev fast : Measured
fast = record {
  download_speed = pos 300000000;
  rtt = pos 100;
  loses_packets = true;
  speed_points = pos 300;
  latency_points = pos 50;
  loss_points = pos 6;
}

abbrev same_text : String → String
same_text s = s

abbrev scored_node : Node
scored_node = node_at "198.51.100.7" Status.qualified

-- 40 for the network, 50 for the region, 200 for the speed, 50 for latency, less 6 for loss and 15 and 10.
score_of_fast :
    evaluate_node_with_asn default_config same_text scored_node fast true (pos 15) (pos 10)
    ≡ record { final_score = pos 309; allowed = true }
unfolding evaluate_node_with_asn new_scoring_engine ◌+ℤ◌ ◌-ℤ◌
score_of_fast = refl

trait_penalties_ignored_example :
    evaluate_node_with_asn
      (with_penalties (pos 99) (pos 99) (pos 99) default_config)
      same_text
      scored_node
      fast
      true
      (pos 15)
      (pos 10)
    ≡ evaluate_node_with_asn default_config same_text scored_node fast true (pos 15) (pos 10)
trait_penalties_ignored_example =
    trait_penalties_ignored (pos 99) (pos 99) (pos 99) default_config same_text scored_node fast
      true (pos 15) (pos 10)
