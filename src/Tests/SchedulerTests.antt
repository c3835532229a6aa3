-- ===== src/Tests/SchedulerTests.antt =====
-- internal/scheduler/scheduler.go at concrete inputs.
use super_proxy.Base.{
  ℕ, zero, suc, ◌≡◌, ◌≢◌, refl, true, false, some, none, List, [], ◌∷◌, arith, nat_eq, inl,
}
use super_proxy.Base.Assoc
use super_proxy.Slots.{get_slot}
use super_proxy.Scheduler.State.{Scheduler, Env, drain_xray, activate_xray, setup_draining_routing}
use super_proxy.Scheduler.Drain.{transition_to_draining, drain_replaced_tunnel}
use super_proxy.Scheduler.Cleanup.{cleanup_slot, cleanup_draining_slots}
use super_proxy.Scheduler.Reconcile.{fill_slot, is_overridden}
use super_proxy.Scheduler.Ownership.{view, Exclusive, Moves}
use super_proxy.Scheduler.Refinement.{
  Pass, cleans, reconciles, passes, passes-Moves, passes-Exclusive,
}
use super_proxy.Scheduler.Controllers.{Sound}
use super_proxy.Scheduler.Controllers.Passes.{passes-Sound}
use super_proxy.Scheduler.DrainLaws.{drain_rolled_back, drain_loses_older, drain_replaced_keeps}
use super_proxy.Scheduler.CleanupLaws.{timeout_leaves_controller, pass_frees}
use super_proxy.Scheduler.PromotionLaws.{fill_slot_outcome}
use super_proxy.Tests.Data.{serving, all_well, controller_of}

abbrev history : List Pass
history = reconciles all_well (0 ∷ []) ∷ cleans all_well [] ∷ []

one_place : (i t : ℕ) → Assoc.lookup i serving.active_slots ≡ some t → (i ≡ 0) × (t ≡ 1)
unfolding Assoc.lookup
one_place i t h = ground arith

serving-Exclusive : Exclusive (view serving)
unfolding Assoc.lookup
serving-Exclusive = record {
  active_once = λ i j t p q. ground (arith, one_place i t p, one_place j t q);
  draining_once = λ i j t p q. cc;
  active_not_draining = λ i j t p q. cc;
  active_not_standby = λ i t p. ground (arith, one_place i t p);
  draining_not_standby = λ i t p. cc;
  standby_once = (refl, tt);
}

passes-Moves_example : Moves (view serving) (view (passes serving history))
passes-Moves_example = passes-Moves serving history

passes-Exclusive_example : Exclusive (view (passes serving history))
passes-Exclusive_example = passes-Exclusive serving history serving-Exclusive

serving-Sound : Sound serving
unfolding get_slot Assoc.lookup
serving-Sound zero sc h = ground arith
serving-Sound (suc zero) sc h = ground arith
serving-Sound (suc (suc n)) sc h = ground arith

passes-Sound_example : Sound (passes serving history)
passes-Sound_example = passes-Sound serving history serving-Sound

abbrev xray_refuses : Env
xray_refuses = record all_well { xray_drains = λ slot. false }

abbrev no_routes : Env
no_routes = record all_well { routes_draining = λ slot. false }

drain_rolled_back_example :
    (transition_to_draining no_routes 0 1 serving).effects
    ≡ activate_xray 0 ∷ setup_draining_routing 200 "tun11" "10.8.0.2" ∷ drain_xray 0 ∷ []
drain_rolled_back_example = (drain_rolled_back no_routes 0 1 serving (refl, refl) refl refl refl).4

-- The process of tunnel 1 has exited.
abbrev exited : Scheduler
exited = record serving { tunnels = λ t. record (serving.tunnels t) { done = true } }

-- Tunnel 3 still drains on slot 0.
abbrev twice : Scheduler
twice = record serving { draining_slots = (0, 3) ∷ []; standby_nodes = [] }

twice-Exclusive : Exclusive (view twice)
unfolding Assoc.lookup
twice-Exclusive = record {
  active_once = λ i j t p q. ground (arith, one_place i t p, one_place j t q);
  draining_once = λ i j t p q. ground arith;
  active_not_draining = λ i j t p q. ground (arith, one_place i t p);
  active_not_standby = λ i t p. refl;
  draining_not_standby = λ i t p. refl;
  standby_once = tt;
}

drain_loses_older_example :
    Assoc.lookup 0 (transition_to_draining all_well 0 1 twice).draining_slots ≢ some 3
unfolding Assoc.lookup
drain_loses_older_example =
    (drain_loses_older all_well 0 1 3 twice twice-Exclusive (refl, refl) refl refl refl refl).1 0

drain_replaced_keeps_example :
    (drain_replaced_tunnel all_well 0 1 twice).0.active_slots ≡ (0, 1) ∷ []
drain_replaced_keeps_example = (drain_replaced_keeps all_well 0 1 twice).0

-- Tunnel 2 has been draining on slot 0 since 5; tunnel 1 serves.
abbrev draining_now : Scheduler
draining_now = record serving {
  draining_slots = (0, 2) ∷ [];
  standby_nodes = [];
  slots = (0, record (controller_of 0 (some 1)) { draining_tunnel = some 2 }) ∷ [];
}

abbrev busy : Env
busy = record all_well { connections = λ slot. none }

abbrev late : Env
late = record busy { now = 30000000006 }

timeout_leaves_controller_example : ((cleanup_slot late 0 draining_now).tunnels 2).done ≡ true
unfolding Assoc.lookup get_slot
timeout_leaves_controller_example =
    (timeout_leaves_controller late 0 2 draining_now
      (record (controller_of 0 (some 1)) { draining_tunnel = some 2 }) refl refl refl
      (inl (omega arith))).0

pass_frees_example :
    Assoc.lookup 0 (cleanup_draining_slots late (1 ∷ 0 ∷ []) draining_now).draining_slots ≡ none
unfolding Assoc.lookup
pass_frees_example = pass_frees late (1 ∷ 0 ∷ []) 0 2 draining_now refl refl (inl (omega arith))

fill_slot_outcome_example : (fill_slot all_well 1 serving).standby_nodes ≡ []
unfolding Assoc.lookup is_overridden
fill_slot_outcome_example = (fill_slot_outcome all_well 1 2 [] serving refl refl refl).0
