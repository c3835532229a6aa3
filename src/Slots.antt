-- ===== src/Slots.antt =====
-- internal/scheduler/slot_controller.go and state.go: the exclusive lease on an egress slot.
-- Each method holds the controller's mutex for its whole body, so a history of the process is a
-- sequence of calls (`Slots/Exclusion`). The generation is a uint64 and wraps. A controller's
-- tunnels are references into the scheduler's table of tunnels (`Scheduler`).
pub mod Leases
pub mod Exclusion
use super_proxy.Base.{
  ℕ, suc, ◌+◌, ◌%◌, String, Bool, true, false, ◌≡◌, ◌&&◌, ◌||◌, not, Option, none, some, List, [],
  ◌∷◌, if◌then◌else◌, ◌==◌, nat_eq, string_eq, zero, ◌⊎◌, inl, inr,
}
use super_proxy.Base.Assoc

-- SlotState
pub data SlotState : Type 0 where
  offline preparing connecting verifying active draining failed : SlotState

pub record SlotLease : Type 0 where
  pub slot_id : ℕ
  pub generation : ℕ
  pub owner : String
  pub operation_id : String

pub record SlotController : Type 0 where
  pub slot_id : ℕ
  pub generation : ℕ
  pub owner : String
  pub operation_id : String
  pub state : SlotState
  pub active_tunnel : Option ℕ
  pub draining_tunnel : Option ℕ
  pub draining_table_id : ℕ
  pub outbound_active : Bool

abbrev pub u64_mod : ℕ
u64_mod = 18446744073709551616

-- NewSlotController
unfoldable pub new_slot_controller : ℕ → SlotController
new_slot_controller slot_id = record {
  slot_id = slot_id;
  generation = 0;
  owner = "";
  operation_id = "";
  state = offline;
  active_tunnel = none;
  draining_tunnel = none;
  draining_table_id = 0;
  outbound_active = false;
}

-- TryAcquire; `none` is the error SLOT_BUSY.
unfoldable pub try_acquire : SlotController → String → String → SlotController × Option SlotLease
try_acquire sc owner op_id =
    let generation = (sc.generation + 1) % u64_mod in
    if not (sc.owner == "") then (sc, none) else (
      record sc { generation = generation; owner = owner; operation_id = op_id },
      some (record {
        slot_id = sc.slot_id;
        generation = generation;
        owner = owner;
        operation_id = op_id;
      }),
    )

-- ReleaseLease
unfoldable pub release_lease : SlotController → SlotLease → SlotController
release_lease sc lease =
    if not (sc.generation == lease.generation) || not (sc.operation_id == lease.operation_id)
    then sc
    else record sc { owner = ""; operation_id = "" }

-- ValidateLease
unfoldable pub validate_lease : SlotController → SlotLease → Bool
validate_lease sc lease =
    (sc.generation == lease.generation)
    && (sc.operation_id == lease.operation_id)
    && (sc.owner == lease.owner)

-- SlotManager
abbrev pub SlotManager : Type 0
SlotManager = List (ℕ × SlotController)

new_slots_from : ℕ → ℕ → SlotManager
new_slots_from i zero = []
new_slots_from i (suc left) = (i, new_slot_controller i) ∷ new_slots_from (i + 1) left

-- NewSlotManager
unfoldable pub new_slot_manager : ℕ → SlotManager
unfolding new_slots_from
new_slot_manager max_active = new_slots_from 0 max_active

-- GetSlot
unfoldable pub get_slot : SlotManager → ℕ → Option SlotController
get_slot sm slot_id = Assoc.lookup slot_id sm

pub data AcquireError : Type 0 where
  no_such_slot slot_busy : AcquireError

-- TryAcquireSlot: the controller is shared, so the manager sees its new state.
unfoldable pub try_acquire_slot :
    SlotManager → ℕ → String → String → SlotManager × (AcquireError ⊎ SlotLease)
unfolding get_slot try_acquire
try_acquire_slot sm slot_id owner op_id = elim (get_slot sm slot_id) [
  | none ↦ (sm, inl no_such_slot)
  | some sc ↦
      let (sc', lease) = try_acquire sc owner op_id in
      elim lease [ none ↦ (sm, inl slot_busy) | some l ↦ (Assoc.insert slot_id sc' sm, inr l) ]
]
