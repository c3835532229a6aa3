-- ===== src/Scheduler/Drain.antt =====
-- transitionToDrainingLocked and DrainReplacedTunnelLocked of internal/scheduler/scheduler.go.
use super_proxy.Base.{
  ℕ, ◌+◌, String, false, ◌&&◌, ◌||◌, not, Option, none, some, if◌then◌else◌, ◌==◌, nat_eq,
}
use super_proxy.Base.Assoc
use super_proxy.Models.{Status}
use super_proxy.Slots.{SlotState, SlotController}
use super_proxy.Scheduler.State.{
  Tunnel, Scheduler, Env, drain_xray, activate_xray, clear_slot_routing, setup_draining_routing,
  emit, set_tunnel, with_state, stop, set_controller, transition_tunnel, fail_tunnel, slot_state_eq,
}

abbrev pub retired : SlotController → SlotController
retired sc = record sc {
  active_tunnel = none;
  draining_tunnel = none;
  draining_table_id = 0;
  state = SlotState.failed;
  outbound_active = false;
}

-- `if database.DB != nil && tunnel.Node != nil { _ = FailNode(…) }`
unfoldable pub fail_exited : Env → ℕ → ℕ → Scheduler → Scheduler
unfolding fail_tunnel
fail_exited env slot t s = elim s.world.db [
  | none ↦ s
  | some rows ↦
      fail_tunnel (env.noted slot) (env.saved slot) env.now t
        "openvpn process exited before draining" s
]

-- The branch for a process that has already exited.
unfoldable pub retire : Env → ℕ → ℕ → Scheduler → Scheduler
unfolding emit set_tunnel set_controller stop
retire env slot t s =
    let s1 = emit (clear_slot_routing slot) s in
    let s2 = record s1 { active_slots = Assoc.delete slot s1.active_slots } in
    let s3 = set_tunnel t (with_state SlotState.failed) s2 in
    stop t (set_controller slot retired (fail_exited env slot t s3))

abbrev pub drain_table : ℕ → ℕ
drain_table slot = 200 + slot

abbrev pub is_draining_by : ℕ → ℕ → SlotController → SlotController
is_draining_by t table sc = record sc {
  active_tunnel = none;
  draining_tunnel = some t;
  draining_table_id = table;
  state = SlotState.draining;
  outbound_active = false;
}

abbrev pub starts_draining : ℕ → Tunnel → Tunnel
starts_draining now t = record t { state = SlotState.draining; draining_started_at = now }

abbrev pub rolls_back : Tunnel → Tunnel
rolls_back t = record t { state = SlotState.active; draining_started_at = 0 }

-- The routes of the draining table are in place.
unfoldable pub enter_draining : Env → ℕ → ℕ → String → Scheduler → Scheduler
unfolding set_controller
enter_draining env slot t tun_ip s =
    let s1 = record s {
      draining_table_ids = Assoc.insert slot (drain_table slot) s.draining_table_ids;
      draining_tun_ips = Assoc.insert slot tun_ip s.draining_tun_ips;
    } in
    let s2 = transition_tunnel (env.saved slot) t Status.draining s1 in
    let s3 = record s2 {
      active_slots = Assoc.delete slot s2.active_slots;
      draining_slots = Assoc.insert slot t s2.draining_slots;
    } in
    set_controller slot (is_draining_by t (drain_table slot)) s3

-- The draining table could not be set up: Xray and the tunnel go back to active.
unfoldable pub roll_back : Env → ℕ → ℕ → Scheduler → Scheduler
unfolding emit set_tunnel
roll_back env slot t s =
    set_tunnel t rolls_back (if env.has_xray then emit (activate_xray slot) s else s)

unfoldable pub isolate : Env → ℕ → ℕ → Scheduler → Scheduler
unfolding emit set_tunnel
isolate env slot t s =
    let s1 = set_tunnel t (starts_draining env.now) s in
    let interface = (s.tunnels t).interface in
    let tun_ip = env.interface_ip interface in
    let s2 = emit (setup_draining_routing (drain_table slot) interface tun_ip) s1 in
    if env.routes_draining slot
    then enter_draining env slot t tun_ip s2
    else roll_back env slot t s2

unfoldable pub ask_xray : Env → ℕ → Scheduler → Scheduler
unfolding emit
ask_xray env slot s = if env.has_xray then emit (drain_xray slot) s else s

-- transitionToDrainingLocked
unfoldable pub transition_to_draining : Env → ℕ → ℕ → Scheduler → Scheduler
transition_to_draining env slot t s =
    let s1 = ask_xray env slot s in
    if env.has_xray && not (env.xray_drains slot)
    then s1
    else if not ((s.tunnels t).state == SlotState.active) || (s.tunnels t).done
    then retire env slot t s1
    else isolate env slot t s1

pub data DrainError : Type 0 where
  already_draining route_failed : DrainError

abbrev pub also_drains : ℕ → ℕ → SlotController → SlotController
also_drains t table sc = record sc { draining_tunnel = some t; draining_table_id = table }

unfoldable pub preserve : Env → ℕ → ℕ → String → Scheduler → Scheduler
unfolding set_tunnel set_controller
preserve env slot t tun_ip s =
    let s1 = set_tunnel t (starts_draining env.now) s in
    let s2 = record s1 {
      draining_table_ids = Assoc.insert slot (drain_table slot) s1.draining_table_ids;
      draining_tun_ips = Assoc.insert slot tun_ip s1.draining_tun_ips;
      draining_slots = Assoc.insert slot t s1.draining_slots;
    } in
    let s3 : Scheduler = elim s2.world.db [
      | none ↦ s2
      | some rows ↦ transition_tunnel (env.saved slot) t Status.draining s2
    ] in
    set_controller slot (also_drains t (drain_table slot)) s3

-- DrainReplacedTunnelLocked, for a tunnel that is there.
unfoldable pub drain_replaced_tunnel : Env → ℕ → ℕ → Scheduler → Scheduler × Option DrainError
unfolding emit
drain_replaced_tunnel env slot t s = elim (Assoc.lookup slot s.draining_slots) [
  | some old ↦ (s, some already_draining)
  | none ↦
      let interface = (s.tunnels t).interface in
      let tun_ip = env.interface_ip interface in
      let s1 = emit (setup_draining_routing (drain_table slot) interface tun_ip) s in
      if env.routes_draining slot
      then (preserve env slot t tun_ip s1, none)
      else (s1, some route_failed)
]
