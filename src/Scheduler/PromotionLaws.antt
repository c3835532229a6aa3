-- ===== src/Scheduler/PromotionLaws.antt =====
-- What filling an empty slot and telling Xray of the live slots achieve.
use super_proxy.Base.{
  ℕ, zero, suc, ◌+◌, ltb, leb, Bool, true, false, ◌≡◌, ◌&&◌, not, none, some, List, ◌∷◌, arith,
  ◌==◌, contains, is_some, nat_eq, ◌⊎◌,
}
use super_proxy.Base.Assoc
use super_proxy.Slots.{SlotState}
use super_proxy.Scheduler.State.{Scheduler, Env, slot_state_eq, transition_tunnel}
use super_proxy.Scheduler.Reconcile.{
  is_overridden, commit_promotion, activate_promoted, promote, take_standby, fill_slot, live_slots,
}

-- Everything that a promotion waits for.
abbrev pub IsReady : Env → Scheduler → ℕ → ℕ → Type 0
IsReady env s i t =
    ((s.tunnels t).state ≡ SlotState.active)
    × (env.routes_slot i ≡ true)
    × ((env.has_xray ≡ false) ⊎ (env.xray_activates i ≡ true))

-- An empty slot takes the oldest standby tunnel off the pool. The tunnel serves the slot exactly when
-- it is still active, the slot's route could be set up and Xray, if there is one, took the slot in;
-- otherwise it is stopped and the active slots are as before. Either way no tunnel is left behind.
pub fill_slot_outcome :
    (env : Env) (i t : ℕ) (rest : List ℕ) (s : Scheduler)
    → is_overridden i s ≡ false
    → Assoc.lookup i s.active_slots ≡ none
    → s.standby_nodes ≡ t ∷ rest
    → let s' = fill_slot env i s in
      (s'.standby_nodes ≡ rest)
      × ((IsReady env s i t
            × (s'.active_slots ≡ Assoc.insert i t s.active_slots)
            × ((s'.tunnels t).done ≡ (s.tunnels t).done)
            × ((s'.tunnels t).slot_index ≡ i))
          ⊎ ((¬ (IsReady env s i t))
              × (s'.active_slots ≡ s.active_slots)
              × ((s'.tunnels t).done ≡ true)))
unfolding fill_slot take_standby promote activate_promoted commit_promotion transition_tunnel
fill_slot_outcome env i t rest s free empty first = ground arith

-- A slot that an operator holds, or that is served, is not touched.
pub held_slot_is_kept :
    (env : Env) (i : ℕ) (s : Scheduler)
    → (is_overridden i s ≡ true) ⊎ (is_some (Assoc.lookup i s.active_slots) ≡ true)
    → fill_slot env i s ≡ s
unfolding fill_slot
held_slot_is_kept env i s h = ground arith

abbrev pub is_live : Scheduler → ℕ → Bool
is_live s i = elim (Assoc.lookup i s.active_slots) [
  | none ↦ false
  | some t ↦ ((s.tunnels t).state == SlotState.active) && not (s.tunnels t).done
]

-- The slots that Xray is told to serve are exactly those below the maximum whose tunnel is active and
-- running.
pub live_slots_exact :
    (i left : ℕ) (s : Scheduler) (j : ℕ)
    → contains (live_slots i left s) j ≡ (leb i j && ltb j (i + left) && is_live s j)
unfolding live_slots
live_slots_exact i zero s j = ground arith
live_slots_exact i (suc left) s j =
    ground (arith, live_slots_exact (i + 1) left s j, nat_eq.beq_iff i j)
