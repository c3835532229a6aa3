-- ===== src/Switch/Reservation.antt =====
-- What a request to switch a slot reserves.
use super_proxy.Base.{
  ℕ, String, Bool, true, false, not, Option, some, none, string_eq, nat_eq, is_some, if◌then◌else◌,
  inl, inr, ◌≡◌, ◌⊎◌, refl, sym, subst, Option-cases, Bool-cases, arith,
}
use super_proxy.Base.Assoc
use super_proxy.Models.{Node, status_eq}
use super_proxy.Slots.{
  SlotLease, SlotController, SlotManager, AcquireError, try_acquire_slot, get_slot, try_acquire,
  validate_lease,
}
use super_proxy.Scheduler.State.{Scheduler}
use super_proxy.Scheduler.Reconcile.{is_overridden}
use super_proxy.Diversity.{Text, check_prefix_diversity}
use super_proxy.Switch.Execute.{is_preempted}
use super_proxy.Switch.Reserve.{
  Answer, uses_node, may_switch_to, check_target, hold, take_if_passed, reserve, accepted,
  slot_locked,
}

-- The slot is reserved for the lease, and what the reservation has checked holds.
abbrev pub IsReserved : Text → Node → ℕ → Scheduler → Scheduler → SlotLease → Type 0
IsReserved text node slot s s' lease =
    (is_overridden slot s ≡ false)
    × (is_overridden slot s' ≡ true)
    × (is_preempted lease slot s' ≡ false)
    × (may_switch_to node.status ≡ true)
    × (uses_node s node.id s.active_slots ≡ false)
    × (is_some (Assoc.lookup node.id s.world.secrets) ≡ true)
    × (check_prefix_diversity text s node "" (some slot) ≡ none)
    × (s'.active_slots ≡ s.active_slots)

check_target_passes :
    (text : Text) (node : Node) (slot : ℕ) (s : Scheduler)
    → check_target text node slot s ≡ none
    → (may_switch_to node.status ≡ true)
      × (uses_node s node.id s.active_slots ≡ false)
      × (is_some (Assoc.lookup node.id s.world.secrets) ≡ true)
      × (check_prefix_diversity text s node "" (some slot) ≡ none)
unfolding check_target
check_target_passes text node slot s h = ground arith

try_acquire_valid :
    (sc : SlotController) (owner op_id : String) (lease : SlotLease)
    → (try_acquire sc owner op_id).1 ≡ some lease
    → validate_lease (try_acquire sc owner op_id).0 lease ≡ true
unfolding try_acquire validate_lease
try_acquire_valid sc owner op_id lease h =
    ground (arith, string_eq.beq_iff owner owner, string_eq.beq_iff op_id op_id)

-- What TryAcquireSlot grants is valid.
acquired_is_valid :
    (slots : SlotManager) (slot : ℕ) (op_id : String) (lease : SlotLease)
    → let (slots', got) = try_acquire_slot slots slot "manual-switch" op_id in
      got ≡ inr lease
      → elim (get_slot slots' slot) [ none ↦ false | some sc ↦ not (validate_lease sc lease) ]
        ≡ false
unfolding try_acquire_slot get_slot
acquired_is_valid slots slot op_id lease h = elim (Option-cases (Assoc.lookup slot slots)) [
  | inl e ↦ ground (arith, e)
  | inr (sc, e) ↦ elim (Option-cases (try_acquire sc "manual-switch" op_id).1) [
    | inl g ↦ ground (arith, e, g)
    | inr (lease', g) ↦ ground (
      arith,
      e,
      g,
      Assoc.lookup-insert_self slot (try_acquire sc "manual-switch" op_id).0 slots,
      try_acquire_valid sc "manual-switch" op_id lease',
    )
  ]
]

IsHeld : ℕ → Scheduler → Scheduler × Answer → Type 0
IsHeld slot s (s', answer) =
    (s' ≡ s)
    ⊎ ((lease : SlotLease) × (answer ≡ accepted lease)
        × (is_overridden slot s' ≡ true)
        × (is_preempted lease slot s' ≡ false)
        × (s'.active_slots ≡ s.active_slots))

hold-IsHeld :
    (slot : ℕ) (s : Scheduler) (got : SlotManager × (AcquireError ⊎ SlotLease))
    → ((lease : SlotLease)
        → got.1 ≡ inr lease
        → elim (get_slot got.0 slot) [ none ↦ false | some sc ↦ not (validate_lease sc lease) ]
          ≡ false)
    → IsHeld slot s (hold slot s got)
unfolding hold is_overridden is_preempted IsHeld
hold-IsHeld slot s (slots, inl err) granted = inl refl
hold-IsHeld slot s (slots, inr lease) granted = inr (
  lease,
  refl,
  ground (arith, Assoc.lookup-insert_self slot true s.manual_override),
  granted lease refl,
  refl,
)

-- Nothing changed, or the slot is reserved.
abbrev pub IsReservation : Text → Node → ℕ → Scheduler → Scheduler × Answer → Type 0
IsReservation text node slot s (s', answer) =
    (s' ≡ s)
    ⊎ ((lease : SlotLease) × (answer ≡ accepted lease) × IsReserved text node slot s s' lease)

passed_outcome :
    (text : Text) (node : Node) (slot : ℕ) (op_id : String) (s : Scheduler)
    (refusal : Option Answer)
    → is_overridden slot s ≡ false
    → check_target text node slot s ≡ refusal
    → IsReservation text node slot s (take_if_passed refusal slot op_id s)
unfolding take_if_passed IsHeld
passed_outcome text node slot op_id s none free passes =
    let (status, unused, known, diverse) = check_target_passes text node slot s passes in
    elim (hold-IsHeld slot s (try_acquire_slot s.slots slot "manual-switch" op_id)
      (acquired_is_valid s.slots slot op_id)) [
        | inl same ↦ inl same
        | inr (lease, answer, held, valid, active) ↦
            inr (lease, answer, (free, held, valid, status, unused, known, diverse, active))
      ]
passed_outcome text node slot op_id s (some refusal) free passes = inl refl

-- A request to switch a slot either changes nothing, or reserves the slot: then no operation held it,
-- the node's status may serve, no active slot uses the node, its credentials are in memory, it shares no
-- /24 with a tunnel in service outside the slot, and afterwards the override is set, the lease is the
-- valid one, and the active slots are as before.
pub reserve_outcome :
    (text : Text) (node : Node) (slot : ℕ) (op_id : String) (s : Scheduler)
    → IsReservation text node slot s (reserve text (some node) slot op_id s)
unfolding reserve
reserve_outcome text node slot op_id s =
    let passed = take_if_passed (check_target text node slot s) slot op_id s in
    let branch : Bool → Type 0 =
      λ b. IsReservation text node slot s (if b then (s, slot_locked) else passed) in
    elim (Bool-cases (is_overridden slot s)) [
      | inl held ↦ subst branch (sym held) (inl refl)
      | inr free ↦
          subst branch (sym free)
            (passed_outcome text node slot op_id s (check_target text node slot s) free refl)
    ]
