-- ===== src/Switch/Reserve.antt =====
-- handleSlotAction of internal/agentapi/handlers_write.go: the checks on a request to switch a slot,
-- and the reservation. Its section under the scheduler's mutex is `reserve`. The request comes as what
-- the router, strconv and the JSON decoder make of it.
use super_proxy.Base.{
  ℕ, ltb, String, Bool, true, false, ◌||◌, not, Option, some, none, List, [], ◌∷◌, ◌==◌, string_eq,
  nat_eq, is_some, if◌then◌else◌, inl, inr, ◌⊎◌,
}
use super_proxy.Base.Assoc
use super_proxy.Base.Int.{ℤ, pos, negsuc}
use super_proxy.Models.{Node, Status, status_eq, reputation_checked, standby, qualified}
use super_proxy.Fsm
use super_proxy.Slots.{SlotLease, SlotManager, AcquireError, try_acquire_slot}
use super_proxy.Scheduler.State.{Scheduler}
use super_proxy.Scheduler.Reconcile.{is_overridden}
use super_proxy.Diversity.{Text, check_prefix_diversity}
use super_proxy.Admission.{Engine, evaluate_ip_admission_for_region, persist_admission_result}
use super_proxy.Switch.Execute.{release, release_slot}

pub record Request : Type 0 where
  pub is_post : Bool
  pub is_switch : Bool  -- six parts, of which the last is "switch"
  pub slot : Option ℤ  -- strconv.Atoi
  pub node_id : Option String  -- the decoded body

-- The answers, in the order of the checks.
pub data Answer : Type 0 where
  method_not_allowed invalid_endpoint invalid_slot slot_out_of_range invalid_body : Answer
  node_id_required slot_locked node_not_found not_qualified in_use no_credentials : Answer
  not_diverse slot_busy rejected : Answer
  accepted : SlotLease → Answer

-- An active slot other than none has the node.
unfoldable pub uses_node : Scheduler → String → List (ℕ × ℕ) → Bool
uses_node s id [] = false
uses_node s id ((slot, t) ∷ rest) = ((s.tunnels t).node.id == id) || uses_node s id rest

unfoldable pub may_switch_to : Status → Bool
may_switch_to status =
    (status == reputation_checked) || ((status == standby) || (status == qualified))

-- The checks of the reservation; `none` is that all passed. `found` is the database's row.
unfoldable pub check_target : Text → Node → ℕ → Scheduler → Option Answer
check_target text node slot s =
    if not (may_switch_to node.status)
    then some not_qualified
    else if uses_node s node.id s.active_slots
    then some in_use
    else if not (is_some (Assoc.lookup node.id s.world.secrets))
    then some no_credentials
    else if is_some (check_prefix_diversity text s node "" (some slot))
    then some not_diverse
    else none

-- What TryAcquireSlot's answer does to the scheduler.
unfoldable pub hold : ℕ → Scheduler → SlotManager × (AcquireError ⊎ SlotLease) → Scheduler × Answer
hold slot s (slots, inl err) = (s, slot_busy)
hold slot s (slots, inr lease) = (
  record s { slots = slots; manual_override = Assoc.insert slot true s.manual_override },
  accepted lease,
)

unfoldable pub take_if_passed : Option Answer → ℕ → String → Scheduler → Scheduler × Answer
take_if_passed none slot op_id s = hold slot s (try_acquire_slot s.slots slot "manual-switch" op_id)
take_if_passed (some refusal) slot op_id s = (s, refusal)

unfoldable pub reserve : Text → Option Node → ℕ → String → Scheduler → Scheduler × Answer
reserve text none slot op_id s =
    if is_overridden slot s then (s, slot_locked) else (s, node_not_found)
reserve text (some node) slot op_id s =
    if is_overridden slot s
    then (s, slot_locked)
    else take_if_passed (check_target text node slot s) slot op_id s

-- The rest of handleSlotAction once the slot is reserved: the advertised address is judged, and a node
-- that is refused fails and gives the slot back. An accepted operation goes to `execute_manual_switch`.
unfoldable pub judge_endpoint :
    (noted saved : Bool) (now : ℕ)
    → Text
    → Option Engine
    → Node
    → ℕ
    → SlotLease
    → Scheduler
    → Scheduler × Answer
unfolding release release_slot
judge_endpoint noted saved now text engine node slot lease s =
    let (result, refused) = evaluate_ip_admission_for_region text engine node.ip node.country in
    let judged = persist_admission_result node result in
    elim refused [
      | none ↦ (s, accepted lease)
      | some err ↦
          let (w, node', failed) =
            Fsm.fail_node noted saved now s.world judged "manual endpoint reputation" in
          (release_slot slot (release lease (record s { world = w })), rejected)
    ]

-- What the checks on the request alone make of it: the slot and the node, or an answer.
unfoldable pub parse_request : Scheduler → Request → Option (ℕ × String) × Answer
parse_request s request =
    if not request.is_post
    then (none, method_not_allowed)
    else if not request.is_switch
    then (none, invalid_endpoint)
    else elim request.slot [
      | none ↦ (none, invalid_slot)
      | some (negsuc n) ↦ (none, slot_out_of_range)
      | some (pos slot) ↦
          if not (ltb slot s.max_active) then (none, slot_out_of_range) else elim request.node_id [
            | none ↦ (none, invalid_body)
            | some id ↦
                if id == "" then (none, node_id_required) else (some (slot, id), node_not_found)
          ]
    ]

-- handleSlotAction; `find` is the database, and `meanwhile` what others do between the two sections.
unfoldable pub handle_slot_action :
    (noted saved : Bool) (now : ℕ)
    → Text
    → Option Engine
    → (String → Option Node)
    → (Scheduler → Scheduler)
    → String
    → Request
    → Scheduler
    → Scheduler × Answer
unfolding parse_request reserve judge_endpoint
handle_slot_action noted saved now text engine find meanwhile op_id request s =
    let (parsed, refusal) = parse_request s request in
    elim parsed [
      | none ↦ (s, refusal)
      | some (slot, id) ↦
          let found = find id in
          let (s', answer) = reserve text found slot op_id s in
          elim answer [
            | accepted lease ↦ elim found [
              | none ↦ (s', accepted lease)
              | some node ↦
                  judge_endpoint noted saved now text engine node slot lease (meanwhile s')
            ]
            | other ↦ (s', other)
          ]
    ]
