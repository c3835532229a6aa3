-- ===== src/Switch/Admitted.antt =====
-- A manual switch succeeds only through an exit address that the admission policy accepts.
use super_proxy.Base.{ℕ, String, not, Option, some, none, if_either, nat_eq, ◌≡◌, refl, arith}
use super_proxy.Base.Assoc
use super_proxy.Models.{Node}
use super_proxy.Slots.{SlotLease}
use super_proxy.Scheduler.State.{Scheduler, next_tunnel_id, set_tunnel}
use super_proxy.Admission.{AdmissionError, Engine, Result, answers}
use super_proxy.Admission.Policy.{IsClean, admitted_iff}
use super_proxy.Switch.Operations.{SwitchOperation, OperationStatus, update_op_status}
use super_proxy.Switch.Execute.{
  Calls, Switched, is_preempted, is_served_by_target, give_up, end_failed, screen, qualify, confirm,
  verify, begin, connect, preflight, execute_manual_switch,
}

-- The engine found the exit address clean.
abbrev pub HasCleanExit : Calls → Type 0
HasCleanExit calls =
    (exit_ip : String) × (engine : Engine) × (result : Result) × (calls.exit_ip ≡ some exit_ip)
    × (calls.engine ≡ some engine)
    × (engine.evaluate_ip exit_ip ≡ answers (some result))
    × IsClean engine result

unfoldable pub Succeeds : Switched → Type 0
Succeeds (s, op) = op.status ≡ OperationStatus.active

failed_is_no_success :
    {X : Type 0} (r : Switched) → r.1.status ≡ OperationStatus.failed → Succeeds r → X
unfolding Succeeds
failed_is_no_success r e h = ground arith

module _ (calls : Calls) (op : SwitchOperation) (lease : SlotLease) where
  screen_admits :
      (current : Option ℕ) (candidate_slot : ℕ) (exit_ip : String) (s : Scheduler)
      (err : Option AdmissionError)
      → Succeeds (screen calls op lease current candidate_slot exit_ip s err)
      → err ≡ none
  unfolding screen end_failed give_up update_op_status
  screen_admits current candidate_slot exit_ip s none h = refl
  screen_admits current candidate_slot exit_ip s (some err) h = failed_is_no_success _ refl h

  confirm_admits :
      (current : Option ℕ) (candidate_slot : ℕ) (s : Scheduler) (found : Option String)
      → calls.exit_ip ≡ found
      → Succeeds (confirm calls op lease current candidate_slot s found)
      → HasCleanExit calls
  unfolding confirm qualify set_tunnel end_failed give_up update_op_status
  confirm_admits current candidate_slot s none e h = failed_is_no_success _ refl h
  confirm_admits current candidate_slot s (some exit_ip) e h =
      let country = ((calls.while_verifying s).tunnels calls.fresh).node.country in
      let (parsed, engine, result, hp, has, answered, clean, local) =
        (admitted_iff calls.text calls.engine exit_ip country).0 (screen_admits _ _ _ _ _ h) in
      (exit_ip, engine, result, e, has, answered, clean)

  begin_admits :
      (current : Option ℕ) (candidate_slot : ℕ) (node : Node) (s : Scheduler)
      (interface : Option String)
      → Succeeds (begin calls op lease current candidate_slot node s interface)
      → HasCleanExit calls
  unfolding begin verify end_failed give_up update_op_status
  begin_admits current candidate_slot node s none = failed_is_no_success _ refl
  begin_admits current candidate_slot node s (some interface) =
      if_either (λ r. Succeeds r → HasCleanExit calls) (not calls.routes_candidate)
        (failed_is_no_success _ refl) (confirm_admits _ _ _ _ refl)

  preflight_admits :
      (s : Scheduler) (found : Option Node)
      → Succeeds (preflight calls op lease s found)
      → HasCleanExit calls
  unfolding preflight connect next_tunnel_id end_failed give_up update_op_status
  preflight_admits s none = failed_is_no_success _ refl
  preflight_admits s (some node) =
      if_either (λ r. Succeeds r → HasCleanExit calls)
        (is_served_by_target calls op lease s (Assoc.lookup op.slot s.active_slots))
        (failed_is_no_success _ refl)
        (if_either (λ r. Succeeds r → HasCleanExit calls) (is_preempted lease op.slot s)
          (failed_is_no_success _ refl) (begin_admits _ _ _ _ _))

-- An operation that reports ACTIVE has had its candidate's exit address, as observed through the
-- tunnel, judged by the reputation engine, and the verdict was clean: no advertised address and no score
-- stands in for it.
pub switch_needs_clean_exit :
    (calls : Calls) (op : SwitchOperation) (lease : SlotLease) (s : Scheduler)
    → Succeeds (execute_manual_switch calls op lease s)
    → HasCleanExit calls
unfolding execute_manual_switch
switch_needs_clean_exit calls op lease s h = preflight_admits calls op lease s calls.found h
