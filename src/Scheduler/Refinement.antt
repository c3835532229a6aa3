-- ===== src/Scheduler/Refinement.antt =====
-- The passes of the monitor loop are sequences of the moves of `Ownership`, whatever Xray, the
-- routing commands, conntrack, the health checks and the database answer.
use super_proxy.Base.{
  ℕ, zero, suc, ◌+◌, Bool, false, ◌≡◌, refl, ◌||◌, not, Option, none, some, List, [], ◌∷◌, arith,
  ◌==◌, is_some, nat_eq, ◌⊎◌, inl, inr, Bool-cases, Option-cases,
}
use super_proxy.Base.Assoc
use super_proxy.Slots.{SlotState}
use super_proxy.Scheduler.State.{Scheduler, Env, transition_tunnel, slot_state_eq}
use super_proxy.Scheduler.Cleanup.{cleanup_draining_slots}
use super_proxy.Scheduler.Reconcile.{
  is_overridden, check_tunnel, check_active, check_all, commit_promotion, activate_promoted,
  promote, take_standby, fill_slot, fill_from, sync_active_slots, reconcile_active_slots,
}
use super_proxy.Scheduler.Ownership.{
  View, view, Move, keep, drop_active, start_drain, end_drain, discard, Moves, done, after, follow,
  Exclusive, Moves-Exclusive,
}
use super_proxy.Scheduler.Ownership
use super_proxy.Scheduler.DrainMoves.{transition_to_draining-Move, cleanup_draining_slots-Moves}

-- The monitor's moves on a reconciliation.
check_tunnel-Move :
    (env : Env) (slot t : ℕ) (s : Scheduler)
    → Assoc.lookup slot s.active_slots ≡ some t
    → Move (view s) (view (check_tunnel env slot t s))
unfolding check_tunnel
check_tunnel-Move env slot t s there =
    elim (Bool-cases (not ((s.tunnels t).state == SlotState.active) || not (env.healthy slot))) [
      | inl bad ↦ rw bad (transition_to_draining-Move env slot t s there)
      | inr good ↦ rw good (keep refl)
    ]

check_active-Move :
    (env : Env) (slot : ℕ) (s : Scheduler) → Move (view s) (view (check_active env slot s))
unfolding check_active
check_active-Move env slot s = elim (Bool-cases (is_overridden slot s)) [
  | inl e ↦ rw e (keep refl)
  | inr e ↦ elim (Option-cases (Assoc.lookup slot s.active_slots)) [
    | inl empty ↦ rw (e, empty, check_active) (keep refl)
    | inr (t, there) ↦ rw (e, there, check_active) (check_tunnel-Move env slot t s there)
  ]
]

check_all-Moves :
    (env : Env) (order : List ℕ) (s : Scheduler) → Moves (view s) (view (check_all env order s))
unfolding check_all
check_all-Moves env [] s = done
check_all-Moves env (slot ∷ order) s =
    follow (after done (check_active-Move env slot s))
      (check_all-Moves env order (check_active env slot s))

view-commit_promotion :
    (env : Env) (i t : ℕ) (s : Scheduler)
    → view (commit_promotion env i t s)
      ≡ record (view s) { active = Assoc.insert i t s.active_slots }
unfolding commit_promotion transition_tunnel
view-commit_promotion env i t s = ground arith

-- A standby tunnel that is taken off the list is either promoted or dropped.
promote-view :
    (env : Env) (i t : ℕ) (s : Scheduler)
    → (view (promote env i t s) ≡ record (view s) { active = Assoc.insert i t s.active_slots })
      ⊎ (view (promote env i t s) ≡ view s)
unfolding promote activate_promoted commit_promotion transition_tunnel
promote-view env i t s = ground arith

is_empty {ℓ} : {A : Type ℓ} (b : Bool) (o : Option A) → (b || is_some o) ≡ false → o ≡ none
is_empty b o h = ground arith

take_standby-Move :
    (env : Env) (i : ℕ) (s : Scheduler) (pool : List ℕ)
    → Assoc.lookup i s.active_slots ≡ none
    → s.standby_nodes ≡ pool
    → Move (view s) (view (take_standby env i s pool))
unfolding take_standby
take_standby-Move env i s [] empty e = keep refl
take_standby-Move env i s (t ∷ rest) empty e =
    elim (promote-view env i t (record s { standby_nodes = rest })) [
      | inl took ↦ Ownership.promote i t rest empty e took
      | inr dropped ↦ discard t rest e dropped
    ]

fill_slot-Move : (env : Env) (i : ℕ) (s : Scheduler) → Move (view s) (view (fill_slot env i s))
unfolding fill_slot
fill_slot-Move env i s =
    elim (Bool-cases (is_overridden i s || is_some (Assoc.lookup i s.active_slots))) [
      | inl e ↦ rw e (keep refl)
      | inr e ↦ rw e (
          take_standby-Move env i s s.standby_nodes
            (is_empty (is_overridden i s) (Assoc.lookup i s.active_slots) e) refl)
    ]

fill_from-Moves :
    (env : Env) (i left : ℕ) (s : Scheduler) → Moves (view s) (view (fill_from env i left s))
unfolding fill_from
fill_from-Moves env i zero s = done
fill_from-Moves env i (suc left) s =
    follow (after done (fill_slot-Move env i s))
      (fill_from-Moves env (i + 1) left (fill_slot env i s))

view-sync_active_slots : (env : Env) (s : Scheduler) → view (sync_active_slots env s) ≡ view s
unfolding sync_active_slots
view-sync_active_slots env s = ground arith

pub reconcile_active_slots-Moves :
    (env : Env) (order : List ℕ) (s : Scheduler)
    → Moves (view s) (view (reconcile_active_slots env order s))
unfolding reconcile_active_slots
reconcile_active_slots-Moves env order s =
    after
      (follow (check_all-Moves env order s)
        (fill_from-Moves env 0 s.max_active (check_all env order s)))
      (keep (view-sync_active_slots env (fill_from env 0 s.max_active (check_all env order s))))

-- One pass of the monitor loop: over the draining tunnels, or over the active slots.
pub data Pass : Type 0 where
  cleans : Env → List ℕ → Pass
  reconciles : Env → List ℕ → Pass

unfoldable pub pass : Scheduler → Pass → Scheduler
pass s (cleans env order) = cleanup_draining_slots env order s
pass s (reconciles env order) = reconcile_active_slots env order s

unfoldable pub passes : Scheduler → List Pass → Scheduler
passes s [] = s
passes s (p ∷ ps) = passes (pass s p) ps

pass-Moves : (s : Scheduler) (p : Pass) → Moves (view s) (view (pass s p))
unfolding pass
pass-Moves s (cleans env order) = cleanup_draining_slots-Moves env order s
pass-Moves s (reconciles env order) = reconcile_active_slots-Moves env order s

-- Any number of passes, in any order and with any answers from outside, makes only the moves
-- allowed between the active, draining and standby collections: an active tunnel is drained or
-- dropped, a draining one ends, and the oldest standby tunnel is promoted to an empty slot or dropped.
pub passes-Moves : (s : Scheduler) (ps : List Pass) → Moves (view s) (view (passes s ps))
unfolding passes
passes-Moves s [] = done
passes-Moves s (p ∷ ps) = follow (pass-Moves s p) (passes-Moves (pass s p) ps)

-- When no tunnel is in two of the collections active, draining and standby, or twice in one, then none is
-- after any number of passes, in any order and with any answers from outside.
pub passes-Exclusive :
    (s : Scheduler) (ps : List Pass) → Exclusive (view s) → Exclusive (view (passes s ps))
passes-Exclusive s ps x = Moves-Exclusive (passes-Moves s ps) x
