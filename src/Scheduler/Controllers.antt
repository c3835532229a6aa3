-- ===== src/Scheduler/Controllers.antt =====
-- Every slot controller says what the scheduler's table of active slots says: the invariant and the
-- operations that write to both. `Passes` has the passes of the monitor loop.
pub mod Passes
use super_proxy.Base.{
  ℕ, zero, suc, ◌+◌, ◌-◌, ltb, String, Bool, true, false, ◌≡◌, ◌≢◌, refl, sym, subst, ap, ◌∙◌, ◌&&◌,
  ◌||◌, not, Option, none, some, List, [], ◌∷◌, ◌++◌, arith, ◌==◌, if◌then◌else◌, contains, is_some,
  nat_eq, ◌⊎◌, inl, inr, Bool-cases, Option-cases,
}
use super_proxy.Base.Assoc
use super_proxy.Models.{Status}
use super_proxy.Slots.{SlotState, SlotController, get_slot, SlotManager}
use super_proxy.Scheduler.State.{
  Scheduler, Env, Tunnel, Effect, slot_state_eq, with_controller, set_controller, transition_tunnel,
  fail_tunnel, stop, set_tunnel, emit, update,
}
use super_proxy.Scheduler.Drain.{
  retire, enter_draining, roll_back, isolate, ask_xray, transition_to_draining, retired,
  is_draining_by, drain_table,
}
use super_proxy.Scheduler.Cleanup.{
  finish, time_out, complete, poll, draining_timeout, cleanup_tunnel, cleanup_slot,
  cleanup_draining_slots, drained,
}
use super_proxy.Scheduler.Reconcile.{
  is_overridden, check_tunnel, check_active, check_all, commit_promotion, activate_promoted,
  promote, take_standby, fill_slot, fill_from, sync_active_slots, reconcile_active_slots,
  is_served_by,
}
use super_proxy.Scheduler.Ownership.{view}
use super_proxy.Scheduler.DrainLaws.{retire_result}
use super_proxy.Scheduler.Refinement.{Pass, cleans, reconciles, pass, passes}

-- Of one controller.
pub record Agrees (sc : SlotController) (serving : Option ℕ) : Type 0 where
  pub same_tunnel : sc.active_tunnel ≡ serving
  pub same_outbound : sc.outbound_active ≡ is_some serving

-- Of all of them.
abbrev pub Mirrors : SlotManager → List (ℕ × ℕ) → Type 0
Mirrors slots active =
    (slot : ℕ) (sc : SlotController)
    → get_slot slots slot ≡ some sc
    → Agrees sc (Assoc.lookup slot active)

lookup-delete_same : (k j : ℕ) (m : List (ℕ × ℕ)) → k ≡ j → Assoc.lookup j (Assoc.delete k m) ≡ none
lookup-delete_same k j m e = ground (arith, Assoc.lookup-delete k j m, nat_eq.beq_iff k j)

lookup-delete_other :
    (k j : ℕ) (m : List (ℕ × ℕ)) → k ≢ j → Assoc.lookup j (Assoc.delete k m) ≡ Assoc.lookup j m
lookup-delete_other k j m e = ground (arith, Assoc.lookup-delete k j m, nat_eq.beq_iff k j)

lookup-insert_same :
    (k j t : ℕ) (m : List (ℕ × ℕ)) → k ≡ j → Assoc.lookup j (Assoc.insert k t m) ≡ some t
lookup-insert_same k j t m e = ground (arith, Assoc.lookup-insert k j t m, nat_eq.beq_iff k j)

lookup-insert_other :
    (k j t : ℕ) (m : List (ℕ × ℕ)) → k ≢ j → Assoc.lookup j (Assoc.insert k t m) ≡ Assoc.lookup j m
lookup-insert_other k j t m e = ground (arith, Assoc.lookup-insert k j t m, nat_eq.beq_iff k j)

-- Where a controller of a changed manager comes from.
with_controller_inv :
    (k j : ℕ) (f : SlotController → SlotController) (slots : SlotManager) {sc : SlotController}
    → get_slot (with_controller k f slots) j ≡ some sc
    → ((k ≡ j) × (old : SlotController) × (get_slot slots j ≡ some old) × (sc ≡ f old))
      ⊎ ((k ≢ j) × (get_slot slots j ≡ some sc))
unfolding with_controller get_slot
with_controller_inv k j f slots {sc} h = elim (Option-cases (Assoc.lookup k slots)) [
  | inl e ↦ inr (λ same. ground arith, ground arith)
  | inr (old, e) ↦ elim (Assoc.insert_inv k j (f old) slots (rw (e, with_controller) at h)) [
    | inl (same, is) ↦ inl (same, old, subst (λ i. Assoc.lookup i slots ≡ some old) same e, sym is)
    | inr other ↦ inr other
  ]
]

-- A controller that is taken out of service together with its slot's entry.
off-Mirrors :
    (k : ℕ) (f : SlotController → SlotController) (slots : SlotManager) (active : List (ℕ × ℕ))
    → ((sc : SlotController) → Agrees (f sc) none)
    → Mirrors slots active
    → Mirrors (with_controller k f slots) (Assoc.delete k active)
off-Mirrors k f slots active off m j sc there = elim (with_controller_inv k j f slots there) [
  | inl (same, old, before, is) ↦
      subst (λ o. Agrees sc o) (sym (lookup-delete_same k j active same))
        (subst (λ c. Agrees c none) (sym is) (off old))
  | inr (differ, before) ↦
      subst (λ o. Agrees sc o) (sym (lookup-delete_other k j active differ)) (m j sc before)
]

-- A controller that is put into service together with its slot's entry.
on-Mirrors :
    (k t : ℕ) (slots : SlotManager) (active : List (ℕ × ℕ))
    → Mirrors slots active
    → Mirrors (with_controller k (is_served_by t) slots) (Assoc.insert k t active)
on-Mirrors k t slots active m j sc there =
    elim (with_controller_inv k j (is_served_by t) slots there) [
      | inl (same, old, before, is) ↦
          subst (λ o. Agrees sc o) (sym (lookup-insert_same k j t active same))
            (subst (λ c. Agrees c (some t)) (sym is)
              (record { same_tunnel = refl; same_outbound = refl }))
      | inr (differ, before) ↦
          subst (λ o. Agrees sc o) (sym (lookup-insert_other k j t active differ)) (m j sc before)
    ]

-- A controller whose serving tunnel stays.
same-Mirrors :
    (k : ℕ) (f : SlotController → SlotController) (slots : SlotManager) (active : List (ℕ × ℕ))
    → ((sc : SlotController) (o : Option ℕ) → Agrees sc o → Agrees (f sc) o)
    → Mirrors slots active
    → Mirrors (with_controller k f slots) active
same-Mirrors k f slots active stays m j sc there = elim (with_controller_inv k j f slots there) [
  | inl (same, old, before, is) ↦
      subst (λ c. Agrees c (Assoc.lookup j active)) (sym is) (stays old _ (m j old before))
  | inr (differ, before) ↦ m j sc before
]

abbrev pub Sound : Scheduler → Type 0
Sound s = Mirrors s.slots s.active_slots

by_equations :
    (s : Scheduler) (slots : SlotManager) (active : List (ℕ × ℕ))
    → s.slots ≡ slots
    → s.active_slots ≡ active
    → Mirrors slots active
    → Sound s
by_equations s slots active p q m =
    subst (λ x. Mirrors x s.active_slots) (sym p) (subst (λ a. Mirrors slots a) (sym q) m)

retire-Sound : (env : Env) (k t : ℕ) (s : Scheduler) → Sound s → Sound (retire env k t s)
retire-Sound env k t s m =
    let r = retire_result env k t s in
    by_equations (retire env k t s) _ _ r.1 (ap (λ v. v.active) r.0) (
      off-Mirrors k retired s.slots s.active_slots
        (λ sc. record { same_tunnel = refl; same_outbound = refl }) m)

enter_draining-Sound :
    (env : Env) (k t : ℕ) (ip : String) (s : Scheduler)
    → Sound s
    → Sound (enter_draining env k t ip s)
unfolding enter_draining transition_tunnel
enter_draining-Sound env k t ip s m =
    off-Mirrors k (is_draining_by t (drain_table k)) s.slots s.active_slots
      (λ sc. record { same_tunnel = refl; same_outbound = refl }) m

-- Operations that touch neither the controllers nor the active slots.
Untouched : Scheduler → Scheduler → Type 0
Untouched s' s = (s'.slots ≡ s.slots) × (s'.active_slots ≡ s.active_slots)

kept-Sound : (s' s : Scheduler) → Untouched s' s → Sound s → Sound s'
unfolding Untouched
kept-Sound s' s u m = by_equations s' s.slots s.active_slots u.0 u.1 m

roll_back-Untouched : (env : Env) (k t : ℕ) (s : Scheduler) → Untouched (roll_back env k t s) s
unfolding Untouched roll_back
roll_back-Untouched env k t s = ground arith

ask_xray-Untouched : (env : Env) (k : ℕ) (s : Scheduler) → Untouched (ask_xray env k s) s
unfolding Untouched ask_xray
ask_xray-Untouched env k s = ground arith
