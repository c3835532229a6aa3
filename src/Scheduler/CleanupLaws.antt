-- ===== src/Scheduler/CleanupLaws.antt =====
-- What a pass over the draining tunnels does to them.
use super_proxy.Base.{
  ℕ, ◌-◌, ◌<◌, true, ◌≡◌, ◌≢◌, sym, subst, ◌∙◌, none, some, List, [], ◌∷◌, arith, ◌==◌, contains,
  nat_eq, ◌⊎◌, inl, inr, Bool-cases,
}
use super_proxy.Base.Assoc
use super_proxy.Slots.{SlotState, SlotController, get_slot}
use super_proxy.Scheduler.State.{Scheduler, Env, transition_tunnel}
use super_proxy.Scheduler.Cleanup.{
  time_out, complete, poll, draining_timeout, cleanup_tunnel, cleanup_slot, cleanup_draining_slots,
  drained,
}

-- How long a tunnel has been draining.
abbrev pub age : Env → Scheduler → ℕ → ℕ
age env s t = env.now - (s.tunnels t).draining_started_at

-- Before the timeout a tunnel that may still carry connections is left alone, also when the
-- connections cannot be counted.
pub busy_is_kept :
    (env : Env) (slot t : ℕ) (s : Scheduler)
    → Assoc.lookup slot s.draining_slots ≡ some t
    → ¬ (draining_timeout < age env s t)
    → env.connections slot ≢ some 0
    → cleanup_slot env slot s ≡ s
unfolding cleanup_slot cleanup_tunnel poll
busy_is_kept env slot t s there young busy = ground arith

-- A tunnel that has drained, or for too long, is stopped and forgotten: its process is gone, the
-- slot's draining entries are gone, and the active slots are as they were.
pub finished_is_stopped :
    (env : Env) (slot t : ℕ) (s : Scheduler)
    → Assoc.lookup slot s.draining_slots ≡ some t
    → (draining_timeout < age env s t) ⊎ (env.connections slot ≡ some 0)
    → let s' = cleanup_slot env slot s in
      ((s'.tunnels t).done ≡ true)
      × ((s'.tunnels t).state ≡ SlotState.failed)
      × (Assoc.lookup slot s'.draining_slots ≡ none)
      × (Assoc.lookup slot s'.draining_table_ids ≡ none)
      × (Assoc.lookup slot s'.draining_tun_ips ≡ none)
      × (s'.active_slots ≡ s.active_slots)
unfolding cleanup_slot cleanup_tunnel poll time_out complete transition_tunnel
finished_is_stopped env slot t s there over = ground (
  arith,
  Assoc.lookup-delete_self slot s.draining_slots,
  Assoc.lookup-delete_self slot s.draining_table_ids,
  Assoc.lookup-delete_self slot s.draining_tun_ips,
)

-- A timeout leaves the slot's controller pointing at the tunnel that was stopped, whereas a tunnel
-- that drained in time is taken out of it.
pub timeout_leaves_controller :
    (env : Env) (slot t : ℕ) (s : Scheduler) (sc : SlotController)
    → Assoc.lookup slot s.draining_slots ≡ some t
    → get_slot s.slots slot ≡ some sc
    → sc.draining_tunnel ≡ some t
    → (draining_timeout < age env s t) ⊎ (env.connections slot ≡ some 0)
    → let s' = cleanup_slot env slot s in
      ((s'.tunnels t).done ≡ true)
      × (((draining_timeout < age env s t) × (get_slot s'.slots slot ≡ some sc))
          ⊎ ((¬ (draining_timeout < age env s t))
              × (get_slot s'.slots slot ≡ some (record sc { draining_tunnel = none }))))
unfolding cleanup_slot cleanup_tunnel poll time_out complete transition_tunnel get_slot
timeout_leaves_controller env slot t s sc there own points ends =
    ground (arith, Assoc.lookup-insert_self slot (drained sc) s.slots)

cleanup_slot_other :
    (env : Env) (slot j : ℕ) (s : Scheduler)
    → slot ≢ j
    → Assoc.lookup j (cleanup_slot env slot s).draining_slots ≡ Assoc.lookup j s.draining_slots
unfolding cleanup_slot cleanup_tunnel poll time_out complete transition_tunnel
cleanup_slot_other env slot j s differ =
    ground (arith, Assoc.lookup-delete slot j s.draining_slots, nat_eq.beq_iff slot j)

cleanup_slot-none :
    (env : Env) (slot j : ℕ) (s : Scheduler)
    → Assoc.lookup j s.draining_slots ≡ none
    → Assoc.lookup j (cleanup_slot env slot s).draining_slots ≡ none
unfolding cleanup_slot cleanup_tunnel poll time_out complete transition_tunnel
cleanup_slot-none env slot j s gone =
    ground (arith, Assoc.lookup-delete slot j s.draining_slots, nat_eq.beq_iff slot j)

cleanup_slot_clock :
    (env : Env) (slot t : ℕ) (s : Scheduler)
    → ((cleanup_slot env slot s).tunnels t).draining_started_at ≡ (s.tunnels t).draining_started_at
unfolding cleanup_slot cleanup_tunnel poll time_out complete transition_tunnel
cleanup_slot_clock env slot t s = ground arith

pass_none :
    (env : Env) (order : List ℕ) (j : ℕ) (s : Scheduler)
    → Assoc.lookup j s.draining_slots ≡ none
    → Assoc.lookup j (cleanup_draining_slots env order s).draining_slots ≡ none
unfolding cleanup_draining_slots
pass_none env [] j s gone = gone
pass_none env (slot ∷ order) j s gone =
    pass_none env order j (cleanup_slot env slot s) (cleanup_slot-none env slot j s gone)

-- Draining is bounded: a pass that comes by a slot whose tunnel has no connections left, or has
-- drained for more than thirty seconds, frees the slot's draining place, whatever other slots it
-- comes by before and after.
pub pass_frees :
    (env : Env) (order : List ℕ) (slot t : ℕ) (s : Scheduler)
    → contains order slot ≡ true
    → Assoc.lookup slot s.draining_slots ≡ some t
    → (draining_timeout < age env s t) ⊎ (env.connections slot ≡ some 0)
    → Assoc.lookup slot (cleanup_draining_slots env order s).draining_slots ≡ none
unfolding cleanup_draining_slots
pass_frees env [] slot t s listed there over = cc
pass_frees env (j ∷ order) slot t s listed there over = elim (Bool-cases (j == slot)) [
  | inl same ↦ pass_none env order slot (cleanup_slot env j s) (
      subst (λ k. Assoc.lookup slot (cleanup_slot env k s).draining_slots ≡ none)
        (sym ((nat_eq.beq_iff j slot).0 same)) (finished_is_stopped env slot t s there over).2)
  | inr other ↦
      pass_frees env order slot t (cleanup_slot env j s) (ground arith)
        (cleanup_slot_other env j slot s (λ e. ground (arith, nat_eq.beq_iff j slot)) ∙ there)
        (ground (arith, cleanup_slot_clock env j t s))
]
