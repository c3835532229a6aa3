-- ===== src/Tests/CandidateTests.antt =====
-- SelectNextCandidate of internal/scheduler/region_selector.go at a concrete input.
use super_proxy.Base.{true, false, [], ◌∷◌, List, refl}
use super_proxy.Base.Assoc
use super_proxy.Models.{Node, Status, Status-discrete}
use super_proxy.Scheduler.State.{Scheduler}
use super_proxy.Diversity.{
  check_prefix_diversity, in_service, node_prefixes, add_prefix, analyze_prefix, any_conflict,
  prefix_conflict, any_shared,
}
use super_proxy.Candidates.{CandidateSelectionResult, Columns, better, select_next_candidate}
use super_proxy.Candidates.Best.{IsSelected, select_next_candidate-IsSelected}
use super_proxy.Tests.Data.{node_at, serving}
use super_proxy.Tests.PolicyTests.{plain_text}

abbrev sqlite : Columns
sqlite = record {
  upper = λ s. s;
  refused_by_reputation = λ s. false;
  sessions = λ n. 0;
  total_traffic = λ n. 0;
  loads_capacity = true;
  finds_candidates = true;
  finds_quarantined = true;
}

abbrev fresh_node : Node
fresh_node = node_at "198.51.100.7" Status.qualified

abbrev with_fresh_secret : Scheduler
with_fresh_secret = record serving {
  world = record serving.world { secrets = ("198.51.100.7", "c2VjcmV0") ∷ serving.world.secrets };
}

-- The first row shares a /24 with a tunnel in service, and the second has no credentials.
abbrev candidate_rows : List Node
candidate_rows =
    node_at "203.0.113.2" Status.qualified ∷ node_at "192.0.2.1" Status.qualified ∷ fresh_node ∷ []

abbrev fresh_selection : CandidateSelectionResult
fresh_selection = record {
  node = fresh_node;
  qualified_capacity = 2;
  required = 3;
  fallback_enabled = false;
  is_fallback_node = false;
  quarantined_endpoint = false;
}

select_next_candidate-IsSelected_example :
    IsSelected sqlite plain_text with_fresh_secret "JP" candidate_rows fresh_selection
unfolding select_next_candidate Status-discrete better Assoc.lookup check_prefix_diversity
    node_prefixes add_prefix analyze_prefix Assoc.insert any_conflict in_service prefix_conflict
    any_shared
select_next_candidate-IsSelected_example =
    select_next_candidate-IsSelected sqlite plain_text with_fresh_secret "JP" candidate_rows
      fresh_selection refl
