-- ===== src/Scheduler/Reconcile.antt =====
-- reconcileActiveSlots of internal/scheduler/scheduler.go.
use super_proxy.Base.{
  ℕ, zero, suc, ◌+◌, Bool, true, false, ◌&&◌, ◌||◌, not, none, some, List, [], ◌∷◌, if◌then◌else◌,
  ◌==◌, nat_eq, is_some,
}
use super_proxy.Base.Assoc
use super_proxy.Models.{Status}
use super_proxy.Slots.{SlotState, SlotController}
use super_proxy.Scheduler.State.{
  Scheduler, Env, activate_xray, setup_slot_routing, clear_slot_routing, sync_xray, emit,
  set_tunnel, stop, set_controller, transition_tunnel, slot_state_eq,
}
use super_proxy.Scheduler.Drain.{transition_to_draining}

-- s.ManualOverride[slot]
unfoldable pub is_overridden : ℕ → Scheduler → Bool
is_overridden slot s = elim (Assoc.lookup slot s.manual_override) [ none ↦ false | some b ↦ b ]

-- A tunnel that is not active, or fails its health check, is drained.
unfoldable pub check_tunnel : Env → ℕ → ℕ → Scheduler → Scheduler
check_tunnel env slot t s =
    if not ((s.tunnels t).state == SlotState.active) || not (env.healthy slot)
    then transition_to_draining env slot t s
    else s

-- Step 1 for one slot.
unfoldable pub check_active : Env → ℕ → Scheduler → Scheduler
check_active env slot s =
    if is_overridden slot s
    then s
    else elim (Assoc.lookup slot s.active_slots) [ none ↦ s | some t ↦ check_tunnel env slot t s ]

unfoldable pub check_all : Env → List ℕ → Scheduler → Scheduler
check_all env [] s = s
check_all env (slot ∷ order) s = check_all env order (check_active env slot s)

abbrev pub is_served_by : ℕ → SlotController → SlotController
is_served_by t sc = record sc {
  active_tunnel = some t;
  state = SlotState.active;
  outbound_active = true;
}

-- The promotion's commit.
unfoldable pub commit_promotion : Env → ℕ → ℕ → Scheduler → Scheduler
unfolding set_controller
commit_promotion env i t s =
    let s1 = transition_tunnel (env.saved i) t Status.active s in
    let s2 = record s1 { active_slots = Assoc.insert i t s1.active_slots } in
    set_controller i (is_served_by t) s2

-- The Xray activation of a promoted tunnel, rolled back when it fails.
unfoldable pub activate_promoted : Env → ℕ → ℕ → Scheduler → Scheduler
unfolding emit stop
activate_promoted env i t s =
    let s1 = emit (activate_xray i) s in
    if not env.has_xray
    then commit_promotion env i t s
    else if env.xray_activates i
    then commit_promotion env i t s1
    else stop t (emit (clear_slot_routing i) s1)

unfoldable pub promote : Env → ℕ → ℕ → Scheduler → Scheduler
unfolding emit stop set_tunnel
promote env i t s =
    let s1 = set_tunnel t (λ tunnel. record tunnel { slot_index = i }) s in
    let s2 = emit (setup_slot_routing i (s.tunnels t).interface) s1 in
    if not ((s.tunnels t).state == SlotState.active)
    then stop t s
    else if env.routes_slot i
    then activate_promoted env i t s2
    else stop t s2

-- The list is the standby pool.
unfoldable pub take_standby : Env → ℕ → Scheduler → List ℕ → Scheduler
take_standby env i s [] = s
take_standby env i s (t ∷ rest) = promote env i t (record s { standby_nodes = rest })

-- Step 2 for one slot: an empty slot takes the oldest standby tunnel.
unfoldable pub fill_slot : Env → ℕ → Scheduler → Scheduler
fill_slot env i s =
    if is_overridden i s || is_some (Assoc.lookup i s.active_slots)
    then s
    else take_standby env i s s.standby_nodes

unfoldable pub fill_from : Env → ℕ → ℕ → Scheduler → Scheduler
fill_from env i zero s = s
fill_from env i (suc left) s = fill_from env (i + 1) left (fill_slot env i s)

-- Step 3: the slots whose tunnel is active and running.
unfoldable pub live_slots : ℕ → ℕ → Scheduler → List ℕ
live_slots i zero s = []
live_slots i (suc left) s =
    let rest = live_slots (i + 1) left s in
    elim (Assoc.lookup i s.active_slots) [
      | none ↦ rest
      | some t ↦
          if ((s.tunnels t).state == SlotState.active) && not (s.tunnels t).done
          then i ∷ rest
          else rest
    ]

unfoldable pub sync_active_slots : Env → Scheduler → Scheduler
unfolding emit
sync_active_slots env s =
    if env.has_xray then emit (sync_xray (live_slots 0 s.max_active s)) s else s

-- reconcileActiveSlots; `order` is the order in which the map yields its slots.
unfoldable pub reconcile_active_slots : Env → List ℕ → Scheduler → Scheduler
reconcile_active_slots env order s =
    sync_active_slots env (fill_from env 0 s.max_active (check_all env order s))
