-- ===== src/Scheduler/State.antt =====
-- The scheduler's data (internal/scheduler/scheduler.go) and the part of openvpn.Tunnel
-- (internal/openvpn/manager.go) that it reads and writes.
-- A `*Tunnel` is a number, a reference into `tunnels`, since slots, controllers and the draining map
-- share tunnels. `StartTunnel` always sets `Node`, so a tunnel has one. Calls out of the repository
-- (Xray, `ip`, conntrack, the database, the clock) are answered by `Env`; what the scheduler asked of
-- them is the list `effects`, the latest first.
use super_proxy.Base.{
  ℕ, ◌+◌, String, Bool, true, false, Option, none, some, List, ◌∷◌, if◌then◌else◌, ◌==◌, nat_eq,
  string_eq, ◌≡◌, ◌↔◌, Eq, ite, arith,
}
use super_proxy.Base.Assoc
use super_proxy.Models.{Node, Status}
use super_proxy.Fsm
use super_proxy.Slots.{SlotState, SlotController, SlotManager, get_slot}

unfoldable pub SlotState-discrete : Discrete SlotState
SlotState-discrete = hlevel

abbrev pub slot_state_beq : SlotState → SlotState → Bool
slot_state_beq a b = ite (SlotState-discrete a b) true false

pub slot_state_beq_iff : (a b : SlotState) → (slot_state_beq a b ≡ true) ↔ (a ≡ b)
slot_state_beq_iff a b = ground arith

instance abbrev pub slot_state_eq : Eq SlotState
slot_state_eq = record { beq = slot_state_beq; beq_iff = slot_state_beq_iff }

pub record Tunnel : Type 0 where
  pub slot_index : ℕ
  pub interface : String
  pub node : Node
  pub state : SlotState
  pub draining_started_at : ℕ
  pub done : Bool  -- the channel of Done() is closed: the process has exited

pub data Effect : Type 0 where
  drain_xray : ℕ → Effect
  activate_xray : ℕ → Effect
  sync_xray : List ℕ → Effect
  setup_slot_routing : ℕ → String → Effect
  clear_slot_routing : ℕ → Effect
  setup_draining_routing : ℕ → String → String → Effect
  clear_draining_routing : ℕ → String → Effect
  stop_tunnel : ℕ → Effect
  setup_candidate_routing : ℕ → String → Effect
  clear_candidate_routing : ℕ → Effect

pub record Scheduler : Type 0 where
  pub max_active : ℕ
  pub max_standby : ℕ
  pub active_slots : List (ℕ × ℕ)
  pub draining_slots : List (ℕ × ℕ)
  pub draining_table_ids : List (ℕ × ℕ)
  pub draining_tun_ips : List (ℕ × String)
  pub standby_nodes : List ℕ
  pub slots : SlotManager
  pub manual_override : List (ℕ × Bool)
  pub standby_slot_count : ℕ
  pub tunnels : ℕ → Tunnel
  pub world : Fsm.World
  pub effects : List Effect

-- What the outside answers during one pass, by slot. Each call is made at most once for a slot.
pub record Env : Type 0 where
  pub now : ℕ
  pub has_xray : Bool  -- XraySupervisor != nil
  pub xray_drains : ℕ → Bool  -- DrainingSlot succeeds
  pub xray_activates : ℕ → Bool  -- ActivateSlot succeeds
  pub routes_slot : ℕ → Bool  -- SetupSlotRouting succeeds
  pub routes_draining : ℕ → Bool  -- SetupDrainingRoutingFn succeeds
  pub interface_ip : String → String  -- GetInterfaceIP, "" on an error
  pub healthy : ℕ → Bool  -- VerifyTunnel: healthy and no error
  pub connections : ℕ → Option ℕ  -- GetActiveConnectionCount, `none` on an error
  pub noted : ℕ → Bool  -- the database takes the reason of a failure
  pub saved : ℕ → Bool  -- the database takes a transition

-- NextTunnelID
unfoldable pub next_tunnel_id : Scheduler → Scheduler × ℕ
next_tunnel_id s = let id = s.standby_slot_count + 1 in (record s { standby_slot_count = id }, id)

unfoldable pub emit : Effect → Scheduler → Scheduler
emit e s = record s { effects = e ∷ s.effects }

abbrev pub update {ℓ} : {A : Type ℓ} → (ℕ → A) → ℕ → A → ℕ → A
update f k v j = if k == j then v else f j

-- A write through a `*Tunnel`.
unfoldable pub set_tunnel : ℕ → (Tunnel → Tunnel) → Scheduler → Scheduler
set_tunnel t f s = record s { tunnels = update s.tunnels t (f (s.tunnels t)) }

abbrev pub with_state : SlotState → Tunnel → Tunnel
with_state st t = record t { state = st }

-- Tunnel.Stop, of a process that exits when its context ends or is reaped after SIGKILL: its waiter has
-- then set the state to FAILED. A process that cannot be reaped within 5 s after SIGKILL, for which Stop
-- logs an error and returns, is not modelled.
unfoldable pub stop : ℕ → Scheduler → Scheduler
unfolding set_tunnel emit
stop t s =
    set_tunnel t (λ tunnel. record tunnel { state = SlotState.failed; done = true })
      (emit (stop_tunnel t) s)

-- `if sc, _ := s.Slots.GetSlot(slot); sc != nil { … }`
unfoldable pub with_controller : ℕ → (SlotController → SlotController) → SlotManager → SlotManager
with_controller slot f slots = elim (get_slot slots slot) [
  | none ↦ slots
  | some sc ↦ Assoc.insert slot (f sc) slots
]

unfoldable pub set_controller : ℕ → (SlotController → SlotController) → Scheduler → Scheduler
unfolding with_controller
set_controller slot f s = record s { slots = with_controller slot f s.slots }

-- TransitionNode on a tunnel's node, its error dropped.
unfoldable pub transition_tunnel : Bool → ℕ → Status → Scheduler → Scheduler
transition_tunnel saved t target s =
    let (w, node, err) = Fsm.transition_node saved s.world (s.tunnels t).node target in
    record s { world = w; tunnels = update s.tunnels t (record (s.tunnels t) { node = node }) }

-- FailNode on a tunnel's node, its error dropped.
unfoldable pub fail_tunnel : Bool → Bool → ℕ → ℕ → String → Scheduler → Scheduler
fail_tunnel noted saved now t reason s =
    let (w, node, err) = Fsm.fail_node noted saved now s.world (s.tunnels t).node reason in
    record s { world = w; tunnels = update s.tunnels t (record (s.tunnels t) { node = node }) }
