-- ===== src/Scheduler/DrainMoves.antt =====
-- Draining and its cleanup make only the moves of `Ownership`, whatever Xray, the routing commands,
-- conntrack and the database answer.
use super_proxy.Base.{
  ℕ, zero, suc, ◌-◌, ltb, String, Bool, ◌≡◌, refl, subst, ap, ◌∙◌, ◌&&◌, ◌||◌, not, Option, none,
  some, List, [], ◌∷◌, arith, ◌==◌, nat_eq, inl, inr, Bool-cases, Option-cases,
}
use super_proxy.Base.Assoc
use super_proxy.Models.{Status}
use super_proxy.Slots.{SlotState, SlotController}
use super_proxy.Scheduler.State.{
  Scheduler, Env, set_controller, transition_tunnel, fail_tunnel, slot_state_eq,
}
use super_proxy.Scheduler.Drain.{
  retire, fail_exited, enter_draining, roll_back, isolate, ask_xray, transition_to_draining,
}
use super_proxy.Scheduler.Cleanup.{
  finish, time_out, complete, poll, draining_timeout, cleanup_tunnel, cleanup_slot,
  cleanup_draining_slots,
}
use super_proxy.Scheduler.Ownership.{
  view, Move, keep, drop_active, start_drain, end_drain, Moves, done, after, follow,
}

pub view-transition_tunnel :
    (saved : Bool) (t : ℕ) (target : Status) (s : Scheduler)
    → view (transition_tunnel saved t target s) ≡ view s
unfolding transition_tunnel
view-transition_tunnel saved t target s = refl

pub view-fail_tunnel :
    (noted saved : Bool) (now t : ℕ) (reason : String) (s : Scheduler)
    → view (fail_tunnel noted saved now t reason s) ≡ view s
unfolding fail_tunnel
view-fail_tunnel noted saved now t reason s = refl

pub view-set_controller :
    (slot : ℕ) (f : SlotController → SlotController) (s : Scheduler)
    → view (set_controller slot f s) ≡ view s
unfolding set_controller
view-set_controller slot f s = ground arith

view-retire :
    (env : Env) (slot t : ℕ) (s : Scheduler)
    → view (retire env slot t s) ≡ record (view s) { active = Assoc.delete slot s.active_slots }
unfolding retire fail_exited
view-retire env slot t s = ground arith

view-enter_draining :
    (env : Env) (slot t : ℕ) (ip : String) (s : Scheduler)
    → view (enter_draining env slot t ip s) ≡ record (view s) {
      active = Assoc.delete slot s.active_slots;
      draining = Assoc.insert slot t s.draining_slots;
    }
unfolding enter_draining transition_tunnel
view-enter_draining env slot t ip s = ground arith

view-roll_back : (env : Env) (slot t : ℕ) (s : Scheduler) → view (roll_back env slot t s) ≡ view s
unfolding roll_back
view-roll_back env slot t s = ground arith

isolate-Move :
    (env : Env) (slot t : ℕ) (s : Scheduler)
    → Assoc.lookup slot s.active_slots ≡ some t
    → Move (view s) (view (isolate env slot t s))
unfolding isolate
isolate-Move env slot t s there = elim (Bool-cases (env.routes_draining slot)) [
  | inl e ↦ rw e (start_drain slot t there (view-enter_draining env slot t _ _))
  | inr e ↦ rw e (keep (view-roll_back env slot t _))
]

view-ask_xray : (env : Env) (slot : ℕ) (s : Scheduler) → view (ask_xray env slot s) ≡ view s
unfolding ask_xray
view-ask_xray env slot s = ground arith

pub transition_to_draining-Move :
    (env : Env) (slot t : ℕ) (s : Scheduler)
    → Assoc.lookup slot s.active_slots ≡ some t
    → Move (view s) (view (transition_to_draining env slot t s))
unfolding transition_to_draining
transition_to_draining-Move env slot t s there =
    subst (λ v. Move v (view (transition_to_draining env slot t s))) same
      (elim (Bool-cases (env.has_xray && not (env.xray_drains slot))) [
        | inl e ↦ rw e (keep refl)
        | inr e ↦
            rw e
              (elim (Bool-cases
                (not ((s.tunnels t).state == SlotState.active) || (s.tunnels t).done)) [
                  | inl gone ↦ rw gone (drop_active slot (view-retire env slot t s1))
                  | inr runs ↦ rw runs (
                      isolate-Move env slot t s1
                        (ap (λ v. Assoc.lookup slot v.active) same ∙ there))
                ])
      ])
  where
    s1 : Scheduler
    s1 = ask_xray env slot s

    same : view s1 ≡ view s
    same = view-ask_xray env slot s

-- The monitor's moves on a pass over the draining tunnels.
view-finish :
    (env : Env) (slot t : ℕ) (s : Scheduler)
    → view (finish env slot t s) ≡ record (view s) { draining = Assoc.delete slot s.draining_slots }
unfolding finish transition_tunnel
view-finish env slot t s = refl

view-time_out :
    (env : Env) (slot t : ℕ) (s : Scheduler)
    → view (time_out env slot t s)
      ≡ record (view s) { draining = Assoc.delete slot s.draining_slots }
unfolding time_out transition_tunnel
view-time_out env slot t s = ground arith

view-complete :
    (env : Env) (slot t : ℕ) (s : Scheduler)
    → view (complete env slot t s)
      ≡ record (view s) { draining = Assoc.delete slot s.draining_slots }
unfolding complete transition_tunnel
view-complete env slot t s = ground arith

poll-Move :
    (env : Env) (slot t : ℕ) (s : Scheduler) (count : Option ℕ)
    → Move (view s) (view (poll env slot t s count))
unfolding poll
poll-Move env slot t s none = keep refl
poll-Move env slot t s (some zero) = end_drain slot (view-complete env slot t s)
poll-Move env slot t s (some (suc n)) = keep refl

cleanup_tunnel-Move :
    (env : Env) (slot t : ℕ) (s : Scheduler) → Move (view s) (view (cleanup_tunnel env slot t s))
unfolding cleanup_tunnel
cleanup_tunnel-Move env slot t s =
    elim (Bool-cases (ltb draining_timeout (env.now - (s.tunnels t).draining_started_at))) [
      | inl late ↦ rw late (end_drain slot (view-time_out env slot t s))
      | inr early ↦ rw early (poll-Move env slot t s (env.connections slot))
    ]

cleanup_slot-Move :
    (env : Env) (slot : ℕ) (s : Scheduler) → Move (view s) (view (cleanup_slot env slot s))
unfolding cleanup_slot
cleanup_slot-Move env slot s = elim (Option-cases (Assoc.lookup slot s.draining_slots)) [
  | inl e ↦ rw (e, cleanup_slot) (keep refl)
  | inr (t, e) ↦ rw (e, cleanup_slot) (cleanup_tunnel-Move env slot t s)
]

pub cleanup_draining_slots-Moves :
    (env : Env) (order : List ℕ) (s : Scheduler)
    → Moves (view s) (view (cleanup_draining_slots env order s))
unfolding cleanup_draining_slots
cleanup_draining_slots-Moves env [] s = done
cleanup_draining_slots-Moves env (slot ∷ order) s =
    follow (after done (cleanup_slot-Move env slot s))
      (cleanup_draining_slots-Moves env order (cleanup_slot env slot s))
