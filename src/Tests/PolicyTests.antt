-- ===== src/Tests/PolicyTests.antt =====
-- internal/scheduler/admission.go and internal/scheduler/diversity.go at concrete inputs.
use super_proxy.Base.{
  String, false, ◌≡◌, ◌↔◌, refl, some, none, Option, if◌then◌else◌, ◌==◌, string_eq, nat_eq, All,
}
use super_proxy.Base.Int.{pos}
use super_proxy.Models.{Node, Status}
use super_proxy.Diversity.{
  Text, Ip, v4, check_prefix_diversity, in_service, node_prefixes, add_prefix, analyze_prefix,
  any_conflict, prefix_conflict, any_shared, active_nodes,
}
use super_proxy.Diversity.Sound.{accepted-Apart, Apart}
use super_proxy.Base.Assoc
use super_proxy.Admission.{Engine, Result, good, answers, evaluate_ip_admission_for_region}
use super_proxy.Admission.Policy.{IsClean, IsLocal, admitted_iff}
use super_proxy.Tests.Data.{residential, node_at, serving}

abbrev pub parse_some_ip : String → Option Ip
parse_some_ip s =
    if s == "203.0.113.1"
    then some (v4 203 0 113 1)
    else if s == "203.0.113.2"
    then some (v4 203 0 113 2)
    else if s == "198.51.100.7"
    then some (v4 198 51 100 7)
    else none

abbrev pub plain_text : Text
plain_text = record { trim_space = λ s. s; to_upper = λ s. s; parse_ip = parse_some_ip }

abbrev pub clean_result : Result
clean_result = record {
  ip = "198.51.100.7";
  country = "Japan";
  country_code = "JP";
  status = good;
  hard_reject = false;
  score_penalty = pos 0;
  provider_reason = "";
  network_info = residential;
}

abbrev pub clean_engine : Engine
clean_engine = record {
  failure_policy = "conservative";
  evaluate_ip = λ ip. answers (some clean_result);
}

admitted_iff_example :
    ((evaluate_ip_admission_for_region plain_text (some clean_engine) "198.51.100.7" "JP").1 ≡ none)
    ↔ ((parsed : Ip) × (e : Engine) × (result : Result) × (plain_text.parse_ip
            (plain_text.trim_space "198.51.100.7")
          ≡ some parsed)
        × (some clean_engine ≡ some e)
        × (e.evaluate_ip "198.51.100.7" ≡ answers (some result))
        × IsClean e result
        × IsLocal plain_text "JP" result)
admitted_iff_example = admitted_iff plain_text (some clean_engine) "198.51.100.7" "JP"

abbrev pub candidate : Node
candidate = node_at "198.51.100.7" Status.qualified

-- Both tunnels in service are of 203.0.113.0/24.
accepted-Apart_example :
    All (λ other. Apart plain_text other candidate "") (in_service serving none)
unfolding check_prefix_diversity in_service Assoc.lookup node_prefixes add_prefix analyze_prefix
    Assoc.insert any_conflict prefix_conflict any_shared active_nodes
accepted-Apart_example = accepted-Apart plain_text serving candidate "" none refl
