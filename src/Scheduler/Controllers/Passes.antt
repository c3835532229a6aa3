-- ===== src/Scheduler/Controllers/Passes.antt =====
-- The passes of the monitor loop keep the controllers and the active slots in step.
use super_proxy.Base.{
  ℕ, zero, suc, ◌+◌, ◌-◌, ltb, ◌&&◌, ◌||◌, not, Option, none, some, List, [], ◌∷◌, arith, ◌==◌,
  is_some, nat_eq, inl, inr, Bool-cases, Option-cases,
}
use super_proxy.Base.Assoc
use super_proxy.Slots.{SlotState}
use super_proxy.Scheduler.State.{Scheduler, Env, slot_state_eq, transition_tunnel}
use super_proxy.Scheduler.Drain.{isolate, ask_xray, transition_to_draining}
use super_proxy.Scheduler.Cleanup.{
  time_out, complete, poll, draining_timeout, cleanup_tunnel, cleanup_slot, cleanup_draining_slots,
  drained,
}
use super_proxy.Scheduler.Reconcile.{
  is_overridden, check_tunnel, check_active, check_all, commit_promotion, activate_promoted,
  promote, take_standby, fill_slot, fill_from, sync_active_slots, reconcile_active_slots,
}
use super_proxy.Scheduler.Refinement.{Pass, cleans, reconciles, pass, passes}
use super_proxy.Scheduler.Controllers.{
  Sound, Untouched, kept-Sound, same-Mirrors, on-Mirrors, retire-Sound, enter_draining-Sound,
  roll_back-Untouched, ask_xray-Untouched,
}

isolate-Sound : (env : Env) (k t : ℕ) (s : Scheduler) → Sound s → Sound (isolate env k t s)
unfolding isolate
isolate-Sound env k t s m = elim (Bool-cases (env.routes_draining k)) [
  | inl e ↦ rw e (enter_draining-Sound env k t _ _ m)
  | inr e ↦ rw e (kept-Sound _ _ (roll_back-Untouched env k t _) m)
]

transition_to_draining-Sound :
    (env : Env) (k t : ℕ) (s : Scheduler) → Sound s → Sound (transition_to_draining env k t s)
unfolding transition_to_draining
transition_to_draining-Sound env k t s m =
    let s1 = ask_xray env k s in
    let m1 : Sound s1 = kept-Sound s1 s (ask_xray-Untouched env k s) m in
    elim (Bool-cases (env.has_xray && not (env.xray_drains k))) [
      | inl e ↦ rw e m1
      | inr e ↦
          rw e
            (elim (Bool-cases
              (not ((s.tunnels t).state == SlotState.active) || (s.tunnels t).done)) [
                | inl gone ↦ rw gone (retire-Sound env k t s1 m1)
                | inr runs ↦ rw runs (isolate-Sound env k t s1 m1)
              ])
    ]

time_out-Untouched : (env : Env) (k t : ℕ) (s : Scheduler) → Untouched (time_out env k t s) s
unfolding Untouched time_out transition_tunnel
time_out-Untouched env k t s = ground arith

complete-Sound : (env : Env) (k t : ℕ) (s : Scheduler) → Sound s → Sound (complete env k t s)
unfolding complete transition_tunnel
complete-Sound env k t s m =
    same-Mirrors k drained s.slots s.active_slots
      (λ sc o a. record { same_tunnel = a.same_tunnel; same_outbound = a.same_outbound }) m

poll-Sound :
    (env : Env) (k t : ℕ) (s : Scheduler) (count : Option ℕ)
    → Sound s
    → Sound (poll env k t s count)
unfolding poll
poll-Sound env k t s none m = m
poll-Sound env k t s (some zero) m = complete-Sound env k t s m
poll-Sound env k t s (some (suc n)) m = m

cleanup_slot-Sound : (env : Env) (k : ℕ) (s : Scheduler) → Sound s → Sound (cleanup_slot env k s)
unfolding cleanup_slot cleanup_tunnel
cleanup_slot-Sound env k s m = elim (Option-cases (Assoc.lookup k s.draining_slots)) [
  | inl e ↦ rw (e, cleanup_slot) m
  | inr (t, e) ↦
      rw (e, cleanup_slot)
        (elim (Bool-cases (ltb draining_timeout (env.now - (s.tunnels t).draining_started_at))) [
          | inl late ↦ rw late (kept-Sound _ s (time_out-Untouched env k t s) m)
          | inr early ↦ rw early (poll-Sound env k t s (env.connections k) m)
        ])
]

cleanup-Sound :
    (env : Env) (order : List ℕ) (s : Scheduler)
    → Sound s
    → Sound (cleanup_draining_slots env order s)
unfolding cleanup_draining_slots
cleanup-Sound env [] s m = m
cleanup-Sound env (k ∷ order) s m = cleanup-Sound env order _ (cleanup_slot-Sound env k s m)

check_tunnel-Sound :
    (env : Env) (k t : ℕ) (s : Scheduler) → Sound s → Sound (check_tunnel env k t s)
unfolding check_tunnel
check_tunnel-Sound env k t s m =
    elim (Bool-cases (not ((s.tunnels t).state == SlotState.active) || not (env.healthy k))) [
      | inl bad ↦ rw bad (transition_to_draining-Sound env k t s m)
      | inr good ↦ rw good m
    ]

check_active-Sound : (env : Env) (k : ℕ) (s : Scheduler) → Sound s → Sound (check_active env k s)
unfolding check_active
check_active-Sound env k s m = elim (Bool-cases (is_overridden k s)) [
  | inl e ↦ rw e m
  | inr e ↦ elim (Option-cases (Assoc.lookup k s.active_slots)) [
    | inl empty ↦ rw (e, empty, check_active) m
    | inr (t, there) ↦ rw (e, there, check_active) (check_tunnel-Sound env k t s m)
  ]
]

check_all-Sound :
    (env : Env) (order : List ℕ) (s : Scheduler) → Sound s → Sound (check_all env order s)
unfolding check_all
check_all-Sound env [] s m = m
check_all-Sound env (k ∷ order) s m = check_all-Sound env order _ (check_active-Sound env k s m)

commit_promotion-Sound :
    (env : Env) (i t : ℕ) (s : Scheduler) → Sound s → Sound (commit_promotion env i t s)
unfolding commit_promotion transition_tunnel
commit_promotion-Sound env i t s m = on-Mirrors i t s.slots s.active_slots m

activate_promoted-Sound :
    (env : Env) (i t : ℕ) (s : Scheduler) → Sound s → Sound (activate_promoted env i t s)
unfolding activate_promoted
activate_promoted-Sound env i t s m = elim (Bool-cases (not env.has_xray)) [
  | inl e ↦ rw e (commit_promotion-Sound env i t s m)
  | inr e ↦ rw e (elim (Bool-cases (env.xray_activates i)) [
    | inl a ↦ rw a (commit_promotion-Sound env i t _ m)
    | inr a ↦ rw a m
  ])
]

promote-Sound : (env : Env) (i t : ℕ) (s : Scheduler) → Sound s → Sound (promote env i t s)
unfolding promote
promote-Sound env i t s m = elim (Bool-cases (not ((s.tunnels t).state == SlotState.active))) [
  | inl dead ↦ rw dead m
  | inr live ↦ rw live (elim (Bool-cases (env.routes_slot i)) [
    | inl e ↦ rw e (activate_promoted-Sound env i t _ m)
    | inr e ↦ rw e m
  ])
]

take_standby-Sound :
    (env : Env) (i : ℕ) (s : Scheduler) (pool : List ℕ)
    → Sound s
    → Sound (take_standby env i s pool)
unfolding take_standby
take_standby-Sound env i s [] m = m
take_standby-Sound env i s (t ∷ rest) m = promote-Sound env i t _ m

fill_slot-Sound : (env : Env) (i : ℕ) (s : Scheduler) → Sound s → Sound (fill_slot env i s)
unfolding fill_slot
fill_slot-Sound env i s m =
    elim (Bool-cases (is_overridden i s || is_some (Assoc.lookup i s.active_slots))) [
      | inl e ↦ rw e m
      | inr e ↦ rw e (take_standby-Sound env i s s.standby_nodes m)
    ]

fill_from-Sound :
    (env : Env) (i left : ℕ) (s : Scheduler) → Sound s → Sound (fill_from env i left s)
unfolding fill_from
fill_from-Sound env i zero s m = m
fill_from-Sound env i (suc left) s m =
    fill_from-Sound env (i + 1) left _ (fill_slot-Sound env i s m)

sync-Untouched : (env : Env) (s : Scheduler) → Untouched (sync_active_slots env s) s
unfolding Untouched sync_active_slots
sync-Untouched env s = ground arith

pass-Sound : (s : Scheduler) (p : Pass) → Sound s → Sound (pass s p)
unfolding pass reconcile_active_slots
pass-Sound s (cleans env order) m = cleanup-Sound env order s m
pass-Sound s (reconciles env order) m =
    kept-Sound _ _ (sync-Untouched env _)
      (fill_from-Sound env 0 s.max_active _ (check_all-Sound env order s m))

-- From a scheduler whose slot controllers agree with it, any number of passes, with any answers from
-- outside, leaves every slot controller with exactly the active tunnel that the scheduler has for its
-- slot, and with traffic switched on if and only if there is one.
pub passes-Sound : (s : Scheduler) (ps : List Pass) → Sound s → Sound (passes s ps)
unfolding passes
passes-Sound s [] m = m
passes-Sound s (p ∷ ps) m = passes-Sound (pass s p) ps (pass-Sound s p m)
