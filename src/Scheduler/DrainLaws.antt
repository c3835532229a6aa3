-- ===== src/Scheduler/DrainLaws.antt =====
-- What a drain leaves behind on each of its branches.
use super_proxy.Base.{
  ℕ, ◌+◌, true, false, ◌≡◌, ◌≢◌, sym, ap, ◌∙◌, ◌&&◌, not, none, some, ◌∷◌, arith, contains, nat_eq,
  ◌⊎◌,
}
use super_proxy.Base.Assoc
use super_proxy.Slots.{SlotState, SlotController, get_slot}
use super_proxy.Scheduler.State.{
  Scheduler, Env, drain_xray, activate_xray, setup_draining_routing, clear_slot_routing,
  with_controller, transition_tunnel, set_tunnel, slot_state_eq, with_state,
}
use super_proxy.Scheduler.Drain.{
  retire, fail_exited, enter_draining, roll_back, isolate, ask_xray, transition_to_draining,
  preserve, drain_replaced_tunnel, drain_table, is_draining_by, retired,
}
use super_proxy.Scheduler.Ownership.{view, Exclusive}

-- The tunnel runs and is the slot's own.
abbrev pub IsRunning : Scheduler → ℕ → Type 0
IsRunning s t = ((s.tunnels t).state ≡ SlotState.active) × ((s.tunnels t).done ≡ false)

-- A running tunnel whose draining routes cannot be set up stays in service: Xray is told to serve the
-- slot again, and every slot, controller, node and database row, and the tunnel's own state, is as it
-- was, with its draining clock at zero.
pub drain_rolled_back :
    (env : Env) (slot t : ℕ) (s : Scheduler)
    → IsRunning s t
    → env.has_xray ≡ true
    → env.xray_drains slot ≡ true
    → env.routes_draining slot ≡ false
    → let s' = transition_to_draining env slot t s in
      let ip = env.interface_ip (s.tunnels t).interface in
      (view s' ≡ view s)
      × (s'.slots ≡ s.slots)
      × (s'.world ≡ s.world)
      × (s'.tunnels t ≡ record (s.tunnels t) { draining_started_at = 0 })
      × (s'.effects
          ≡ activate_xray slot
            ∷ setup_draining_routing (drain_table slot) (s.tunnels t).interface ip
            ∷ drain_xray slot
            ∷ s.effects)
unfolding transition_to_draining ask_xray isolate roll_back
drain_rolled_back env slot t s run x drains fails = ground arith

-- A running tunnel that can be drained leaves its slot empty and is kept running under the slot's
-- draining table, with the controller showing it there and no traffic sent to it, after Xray was
-- asked first and the routes were set up second.
pub drain_isolated :
    (env : Env) (slot t : ℕ) (s : Scheduler) (sc : SlotController)
    → IsRunning s t
    → env.has_xray ≡ true
    → env.xray_drains slot ≡ true
    → env.routes_draining slot ≡ true
    → get_slot s.slots slot ≡ some sc
    → let s' = transition_to_draining env slot t s in
      let ip = env.interface_ip (s.tunnels t).interface in
      (Assoc.lookup slot s'.active_slots ≡ none)
      × (Assoc.lookup slot s'.draining_slots ≡ some t)
      × (Assoc.lookup slot s'.draining_table_ids ≡ some (200 + slot))
      × (Assoc.lookup slot s'.draining_tun_ips ≡ some ip)
      × ((s'.tunnels t).state ≡ SlotState.draining)
      × ((s'.tunnels t).done ≡ false)
      × ((s'.tunnels t).draining_started_at ≡ env.now)
      × (get_slot s'.slots slot ≡ some (is_draining_by t (200 + slot) sc))
      × (s'.effects
          ≡ setup_draining_routing (200 + slot) (s.tunnels t).interface ip
            ∷ drain_xray slot
            ∷ s.effects)
unfolding transition_to_draining ask_xray isolate enter_draining transition_tunnel get_slot
drain_isolated env slot t s sc run x drains routes there = ground (
  arith,
  Assoc.lookup-delete_self slot s.active_slots,
  Assoc.lookup-insert_self slot t s.draining_slots,
  Assoc.lookup-insert_self slot (200 + slot) s.draining_table_ids,
  Assoc.lookup-insert_self slot (env.interface_ip (s.tunnels t).interface) s.draining_tun_ips,
  Assoc.lookup-insert_self slot (is_draining_by t (200 + slot) sc) s.slots,
)

-- Recording the failure of a node changes neither slots nor what the tunnel's process does.
fail_exited_keeps :
    (env : Env) (slot t : ℕ) (s : Scheduler)
    → let s' = fail_exited env slot t s in
      (view s' ≡ view s)
      × (s'.slots ≡ s.slots)
      × ((s'.tunnels t).state ≡ (s.tunnels t).state)
      × ((s'.tunnels t).done ≡ (s.tunnels t).done)
unfolding fail_exited
fail_exited_keeps env slot t s = ground arith

pub retire_result :
    (env : Env) (slot t : ℕ) (s : Scheduler)
    → let s' = retire env slot t s in
      (view s' ≡ record (view s) { active = Assoc.delete slot s.active_slots })
      × (s'.slots ≡ with_controller slot retired s.slots)
      × ((s'.tunnels t).state ≡ SlotState.failed)
      × ((s'.tunnels t).done ≡ true)
unfolding retire with_controller
retire_result env slot t s =
    (kept.0, ap (with_controller slot retired) kept.1, ground arith, ground arith)
  where
    cleared : Scheduler
    cleared = set_tunnel t (with_state SlotState.failed) (record s {
      active_slots = Assoc.delete slot s.active_slots;
      effects = clear_slot_routing slot ∷ s.effects;
    })

    kept :
        (view (fail_exited env slot t cleared)
          ≡ record (view s) { active = Assoc.delete slot s.active_slots })
        × ((fail_exited env slot t cleared).slots ≡ s.slots)
    kept = let k = fail_exited_keeps env slot t cleared in (k.0, k.1)

-- A tunnel whose process has exited, or that is not active any more, is not drained: once Xray has
-- let go of the slot (if there is an Xray) the slot is empty, its controller shows a failure with no
-- tunnel and no table, the tunnel is stopped, and the draining collection is as it was.
pub drain_exited :
    (env : Env) (slot t : ℕ) (s : Scheduler) (sc : SlotController)
    → ((s.tunnels t).state ≢ SlotState.active) ⊎ ((s.tunnels t).done ≡ true)
    → (env.has_xray && not (env.xray_drains slot)) ≡ false
    → get_slot s.slots slot ≡ some sc
    → let s' = transition_to_draining env slot t s in
      (Assoc.lookup slot s'.active_slots ≡ none)
      × (s'.draining_slots ≡ s.draining_slots)
      × ((s'.tunnels t).state ≡ SlotState.failed)
      × ((s'.tunnels t).done ≡ true)
      × (get_slot s'.slots slot
          ≡ some (record sc {
            active_tunnel = none;
            draining_tunnel = none;
            draining_table_id = 0;
            state = SlotState.failed;
            outbound_active = false;
          }))
unfolding transition_to_draining ask_xray get_slot with_controller
drain_exited env slot t s sc exited asked there = ground (
  arith,
  retire_result env slot t (ask_xray env slot s),
  Assoc.lookup-delete_self slot s.active_slots,
  Assoc.lookup-insert_self slot (retired sc) s.slots,
)

view-isolated :
    (env : Env) (slot t : ℕ) (s : Scheduler)
    → IsRunning s t
    → env.xray_drains slot ≡ true
    → env.routes_draining slot ≡ true
    → view (transition_to_draining env slot t s) ≡ record (view s) {
      active = Assoc.delete slot s.active_slots;
      draining = Assoc.insert slot t s.draining_slots;
    }
unfolding transition_to_draining ask_xray isolate enter_draining transition_tunnel
view-isolated env slot t s run drains routes = ground arith

done-isolated :
    (env : Env) (slot t older : ℕ) (s : Scheduler)
    → IsRunning s t
    → env.xray_drains slot ≡ true
    → env.routes_draining slot ≡ true
    → ((transition_to_draining env slot t s).tunnels older).done ≡ (s.tunnels older).done
unfolding transition_to_draining ask_xray isolate enter_draining transition_tunnel
done-isolated env slot t older s run drains routes = ground arith

-- A slot that drains again while an older tunnel still drains on it loses the older one: that tunnel
-- is in no collection afterwards, and it was not stopped.
pub drain_loses_older :
    (env : Env) (slot t older : ℕ) (s : Scheduler)
    → Exclusive (view s)
    → IsRunning s t
    → Assoc.lookup slot s.active_slots ≡ some t
    → Assoc.lookup slot s.draining_slots ≡ some older
    → env.xray_drains slot ≡ true
    → env.routes_draining slot ≡ true
    → let s' = transition_to_draining env slot t s in
      ((i : ℕ) → Assoc.lookup i s'.active_slots ≢ some older)
      × ((i : ℕ) → Assoc.lookup i s'.draining_slots ≢ some older)
      × (contains s'.standby_nodes older ≡ false)
      × ((s'.tunnels older).done ≡ (s.tunnels older).done)
drain_loses_older env slot t older s x run here old drains routes = (
  λ i h.
      x.active_not_draining i slot older
        (Assoc.delete_inv slot i s.active_slots
          (sym (ap (λ v. Assoc.lookup i v.active) moved) ∙ h)).1
        old,
  λ i h. ground (
    arith,
    Assoc.insert_inv slot i t s.draining_slots
        (sym (ap (λ v. Assoc.lookup i v.draining) moved) ∙ h),
    x.active_not_draining slot slot t here,
    x.draining_once i slot older,
  ),
  ap (λ v. contains v.standby older) moved ∙ x.draining_not_standby slot older old,
  done-isolated env slot t older s run drains routes,
)
  where
    moved : view (transition_to_draining env slot t s) ≡ record (view s) {
      active = Assoc.delete slot s.active_slots;
      draining = Assoc.insert slot t s.draining_slots;
    }
    moved = view-isolated env slot t s run drains routes

-- DrainReplacedTunnelLocked, whether it succeeds or not, leaves the slots the tunnels that serve them and
-- the standby pool. When it fails the draining collection and the tunnel are as before. It succeeds only
-- for a slot that drains no tunnel, and then the tunnel drains there, on the slot's table.
pub drain_replaced_keeps :
    (env : Env) (slot t : ℕ) (s : Scheduler)
    → let (s', err) = drain_replaced_tunnel env slot t s in
      (s'.active_slots ≡ s.active_slots)
      × (s'.standby_nodes ≡ s.standby_nodes)
      × (((err ≢ none) × (s'.draining_slots ≡ s.draining_slots) × (s'.tunnels t ≡ s.tunnels t))
          ⊎ ((err ≡ none)
              × (Assoc.lookup slot s.draining_slots ≡ none)
              × (Assoc.lookup slot s'.draining_slots ≡ some t)
              × (Assoc.lookup slot s'.draining_table_ids ≡ some (200 + slot))
              × ((s'.tunnels t).state ≡ SlotState.draining)))
unfolding drain_replaced_tunnel preserve transition_tunnel
drain_replaced_keeps env slot t s = ground (
  arith,
  Assoc.lookup-insert_self slot t s.draining_slots,
  Assoc.lookup-insert_self slot (200 + slot) s.draining_table_ids,
)
