-- ===== src/Tests/SwitchTests.antt =====
-- internal/agentapi/operations.go and handleSlotAction at concrete inputs.
use super_proxy.Base.{
  ℕ, String, true, ◌≢◌, refl, some, none, Option, [], ◌∷◌, string_eq, string_discrete, nat_eq,
  arith,
}
use super_proxy.Base.Assoc
use super_proxy.Models.{Status-discrete}
use super_proxy.Slots.{SlotLease, get_slot, validate_lease}
use super_proxy.Scheduler.State.{Scheduler, next_tunnel_id, with_controller}
use super_proxy.Admission
use super_proxy.Fsm
use super_proxy.Diversity
use super_proxy.Scheduler.State
use super_proxy.Scheduler.Drain
use super_proxy.Switch.Execute
use super_proxy.Switch.Operations
use super_proxy.Switch.Operations.{SwitchOperation, OperationStatus}
use super_proxy.Switch.Execute.{Calls, Switched, execute_manual_switch, is_preempted}
use super_proxy.Switch.Safety.{IsResolved, switch_resolves}
use super_proxy.Switch.Admitted.{HasCleanExit, Succeeds, switch_needs_clean_exit}
use super_proxy.Switch.Reserve.{reserve}
use super_proxy.Switch.Reservation.{IsReservation, reserve_outcome}
use super_proxy.Tests.Data.{controller_of, serving, all_well}
use super_proxy.Tests.PolicyTests.{plain_text, clean_engine, candidate}

abbrev op : SwitchOperation
op = record {
  id = "op-1";
  slot = 0;
  target_id = "198.51.100.7";
  status = OperationStatus.requested;
  error = "";
  created_at = 0;
  updated_at = 0;
}

abbrev lease : SlotLease
lease = record { slot_id = 0; generation = 1; owner = "manual-switch"; operation_id = "op-1" }

-- Slot 0 is leased to the operation.
abbrev reserved : Scheduler
reserved = record serving {
  manual_override = (0, true) ∷ [];
  slots =
      (
        0,
        record (controller_of 0 (some 1)) {
          generation = 1;
          owner = "manual-switch";
          operation_id = "op-1";
        },
      )
      ∷ (1, controller_of 1 none)
      ∷ [];
}

abbrev calls : Calls
calls = record {
  env = all_well;
  text = plain_text;
  engine = some clean_engine;
  found = some candidate;
  fresh = 3;
  starts = some "tun3";
  routes_candidate = true;
  exit_ip = some "198.51.100.7";
  while_verifying = λ s. s;
  while_routing = λ s. s;
}

named : ◌≢◌ {A = String} "manual-switch" ""
named e = cc

new_tunnel : ◌≢◌ {A = Option ℕ} (some 1) (some 3)
new_tunnel e = ground arith

switch_resolves_example :
    IsResolved calls op lease reserved (some 1) (execute_manual_switch calls op lease reserved)
unfolding Assoc.lookup
switch_resolves_example =
    switch_resolves calls op lease reserved named new_tunnel (λ s. refl) (λ s. refl)

op-Succeeds : Succeeds (execute_manual_switch calls op lease reserved)
unfolding Execute.preflight Execute.is_served_by_target Execute.connect Execute.begin Execute.verify
    Execute.confirm Execute.qualify Execute.screen Execute.abandon Execute.accept Execute.commit
    Execute.cut_over Execute.end_failed Execute.give_up Execute.release Execute.release_slot
    Execute.replace Execute.restore Execute.settle Execute.succeed Execute.take_over Succeeds
    execute_manual_switch Assoc.lookup is_preempted get_slot validate_lease
    Admission.evaluate_ip_admission_for_region Admission.locate Admission.evaluate_ip_admission
    Admission.consult Admission.judged Admission.ReputationStatus-discrete Admission.check_region
    Admission.judge Admission.persist_admission_result Assoc.delete Assoc.insert string_discrete
    Diversity.active_nodes Diversity.add_prefix Diversity.analyze_prefix Diversity.any_conflict
    Diversity.any_shared Diversity.check_prefix_diversity Diversity.in_service
    Diversity.node_prefixes Diversity.prefix_conflict Status-discrete Drain.drain_replaced_tunnel
    Drain.preserve State.emit next_tunnel_id State.set_controller State.set_tunnel State.stop
    State.transition_tunnel with_controller Operations.update_op_status Fsm.allowed_transitions
    Fsm.bump_failures Fsm.can_transition Fsm.current_status Fsm.evict_secret Fsm.row_update Fsm.save
    Fsm.transition_node Fsm.update_row
op-Succeeds = refl

switch_needs_clean_exit_example : HasCleanExit calls
switch_needs_clean_exit_example = switch_needs_clean_exit calls op lease reserved op-Succeeds

-- Slot 1 is free for the node.
reserve_outcome_example :
    IsReservation plain_text candidate 1 serving
      (reserve plain_text (some candidate) 1 "op-1" serving)
reserve_outcome_example = reserve_outcome plain_text candidate 1 "op-1" serving
