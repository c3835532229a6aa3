-- ===== src/Tests/XrayTests.antt =====
-- internal/xray/supervisor.go at concrete inputs: a supervisor of three slots, and an Xray process that
-- takes every routing and reports it as `lsrules` and `bi` do.
use super_proxy.Base.{
  true, false, Option, none, some, List, [], ◌∷◌, map, ◌≡◌, ◌⊎◌, refl, if◌then◌else◌, ◌==◌, not,
  ◌&&◌, ◌||◌, String, string_eq, arith,
}
use super_proxy.Base.Int.{pos}
use super_proxy.Xray.{
  Tag, absent, exit, block, Supervisor, SupervisorState, RoutingConfig, Rule, RuntimeRule, Line,
  Api, tag_eq, tag_beq,
}
use super_proxy.Xray.Routing.{add_slot, add_candidate, slots_of, exit_tags, routing}
use super_proxy.Xray.Balancers.{find_balancer, exits_or_block}
use super_proxy.Xray.Carried.{carried, routing-carried}
use super_proxy.Xray.Selectors.{begins_with, selects, is_selected}
use super_proxy.Xray.ReadBack.{verify_runtime_routing}
use super_proxy.Xray.ActiveSet.{
  active_below, get_active_slots_locked, activate_slot, apply_candidate_routing,
}
use super_proxy.Xray.Transactions.{activate, IsRolledBack}
use super_proxy.Xray.Changes.{perform, IsMade, perform_outcome}

abbrev pub as_listed : Rule → RuntimeRule
as_listed rule = record { rule_tag = rule.rule_tag; tag = rule.outbound_tag; balancer_tag = absent }

abbrev pub selected : Option (List Tag) → Option (List Line)
selected none = none
selected (some tags) = some (
    record { has_selects = true; is_item = false; fields = [] }
    ∷ record { has_selects = false; is_item = false; fields = tags }
    ∷ [])

abbrev pub obedient_xray : Api RoutingConfig
obedient_xray = record {
  writes_file = λ x. true;
  adrules = λ config x. (config, true);
  lsrules = λ x. some (map as_listed x.rules);
  bi = λ tag x. selected (find_balancer tag x.balancers);
}

abbrev pub two_active : Supervisor
two_active = record {
  slot_count = 3;
  state = SupervisorState.running;
  restarts = 0;
  consecutive_crashes = 0;
  is_stopped = false;
  process = none;
  active_outbounds = λ t. (t == exit (pos 0)) || (t == exit (pos 2));
  outbound_marks = λ t. pos 0;
  vless_enabled = true;
  vless_only443 = true;
  vless_endpoint = none;
  public_address = "";
}

abbrev pub two_routed : RoutingConfig
two_routed = routing 3 true true (0 ∷ 2 ∷ [])

perform_outcome_example :
    let r = perform obedient_xray (activate (pos 1)) (two_active, two_routed) in
    IsMade obedient_xray (activate (pos 1)) (two_active, two_routed) r
    ⊎ IsRolledBack obedient_xray two_active r
perform_outcome_example = perform_outcome obedient_xray (activate (pos 1)) two_active two_routed

routing-carried_example :
    let slots = slots_of 3 (pos 2 ∷ pos 0 ∷ pos 7 ∷ []) in
    (carried 3 (routing 3 true true slots) "proxy" "80" ≡ some (exits_or_block slots))
    × (carried 3 (routing 3 true true slots) "vless-in" "80"
        ≡ some (
            if true && not (◌==◌ {A = String} "443" "80")
            then block ∷ []
            else exits_or_block slots))
routing-carried_example =
    routing-carried 3 true true (pos 2 ∷ pos 0 ∷ pos 7 ∷ []) "80" (omega arith)

-- With eleven slots the tags of two slots select a third outbound.
eleven_selected : active_below 11 (is_selected (exit_tags (1 ∷ 2 ∷ []))) ≡ 1 ∷ 2 ∷ 10 ∷ []
unfolding active_below is_selected selects begins_with
eleven_selected = refl

three_served :
    let (s, x, err) = perform obedient_xray (activate (pos 1)) (two_active, two_routed) in
    (get_active_slots_locked s ≡ 0 ∷ 1 ∷ 2 ∷ []) × (err ≡ none)
unfolding perform get_active_slots_locked activate_slot tag_beq apply_candidate_routing
    verify_runtime_routing routing slots_of add_candidate add_slot find_balancer
three_served = (refl, refl)
