-- ===== src/Scheduler/Cleanup.antt =====
-- cleanupDrainingSlots and markNodeFailed of internal/scheduler/scheduler.go.
use super_proxy.Base.{
  ℕ, zero, suc, ◌-◌, String, Option, none, some, List, [], ◌∷◌, if◌then◌else◌, ltb, nat_eq, is_some,
}
use super_proxy.Base.Assoc
use super_proxy.Models.{Status}
use super_proxy.Slots.{SlotController}
use super_proxy.Scheduler.State.{
  Scheduler, Env, clear_slot_routing, clear_draining_routing, emit, stop, set_controller,
  transition_tunnel,
}

-- drainingTimeout, in nanoseconds.
abbrev pub draining_timeout : ℕ
draining_timeout = 30000000000

-- A read of a missing key of a map is the zero value.
abbrev pub int_at : ℕ → List (ℕ × ℕ) → ℕ
int_at k m = elim (Assoc.lookup k m) [ none ↦ 0 | some v ↦ v ]

abbrev pub string_at : ℕ → List (ℕ × String) → String
string_at k m = elim (Assoc.lookup k m) [ none ↦ "" | some v ↦ v ]

unfoldable pub clear_draining : ℕ → Scheduler → Scheduler
unfolding emit
clear_draining slot s =
    emit
      (clear_draining_routing (int_at slot s.draining_table_ids)
        (string_at slot s.draining_tun_ips))
      s

-- Stop the tunnel, mark its node failed and forget the slot's draining entries.
unfoldable pub finish : Env → ℕ → ℕ → Scheduler → Scheduler
unfolding stop
finish env slot t s =
    let s1 = transition_tunnel (env.saved slot) t Status.failed (stop t s) in
    record s1 {
      draining_slots = Assoc.delete slot s1.draining_slots;
      draining_table_ids = Assoc.delete slot s1.draining_table_ids;
      draining_tun_ips = Assoc.delete slot s1.draining_tun_ips;
    }

abbrev pub drained : SlotController → SlotController
drained sc = record sc { draining_tunnel = none }

unfoldable pub time_out : Env → ℕ → ℕ → Scheduler → Scheduler
unfolding clear_draining finish emit
time_out env slot t s =
    let s1 = clear_draining slot s in
    let s2 =
      if is_some (Assoc.lookup slot s1.active_slots)
      then s1
      else emit (clear_slot_routing slot) s1 in
    finish env slot t s2

unfoldable pub complete : Env → ℕ → ℕ → Scheduler → Scheduler
unfolding clear_draining finish set_controller
complete env slot t s = set_controller slot drained (finish env slot t (clear_draining slot s))

-- What the number of remaining connections decides; `none` keeps the tunnel until the timeout.
unfoldable pub poll : Env → ℕ → ℕ → Scheduler → Option ℕ → Scheduler
poll env slot t s none = s
poll env slot t s (some zero) = complete env slot t s
poll env slot t s (some (suc n)) = s

-- The body of the loop for the tunnel `t` that drains on `slot`. Time runs forwards.
unfoldable pub cleanup_tunnel : Env → ℕ → ℕ → Scheduler → Scheduler
cleanup_tunnel env slot t s =
    if ltb draining_timeout (env.now - (s.tunnels t).draining_started_at)
    then time_out env slot t s
    else poll env slot t s (env.connections slot)

unfoldable pub cleanup_slot : Env → ℕ → Scheduler → Scheduler
cleanup_slot env slot s = elim (Assoc.lookup slot s.draining_slots) [
  | none ↦ s
  | some t ↦ cleanup_tunnel env slot t s
]

-- cleanupDrainingSlots; `order` is the order in which the map yields its slots.
unfoldable pub cleanup_draining_slots : Env → List ℕ → Scheduler → Scheduler
cleanup_draining_slots env [] s = s
cleanup_draining_slots env (slot ∷ order) s =
    cleanup_draining_slots env order (cleanup_slot env slot s)
