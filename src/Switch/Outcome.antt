-- ===== src/Switch/Outcome.antt =====
-- What a manual switch leaves behind, whatever fails and whatever else runs.
use super_proxy.Base.{
  ℕ, String, Bool, true, false, Option, some, none, ◌==◌, nat_eq, string_eq, ◌≡◌, ◌≢◌, ◌∙◌, ◌⊎◌,
  inl, inr, refl, arith, Option-cases, Bool-cases, is_some,
}
use super_proxy.Base.Assoc
use super_proxy.Models.{Status}
use super_proxy.Fsm
use super_proxy.Slots.{SlotController, SlotLease, release_lease, validate_lease, get_slot}
use super_proxy.Scheduler.State.{
  Scheduler, Env, setup_draining_routing, setup_slot_routing, emit, set_tunnel, set_controller,
  with_controller, stop, fail_tunnel, transition_tunnel,
}
use super_proxy.Scheduler.Drain.{drain_replaced_tunnel, preserve, drain_table, DrainError}
use super_proxy.Diversity.{DiversityError, check_prefix_diversity}
use super_proxy.Switch.Operations.{SwitchOperation, OperationStatus, update_op_status}
use super_proxy.Switch.Execute.{
  Calls, Switched, release, release_slot, give_up, end_failed, abandon, restore, serves_slot,
  succeed, settle, replace, take_over,
}

-- The lease still holds its controller.
unfoldable pub is_leased : SlotLease → Scheduler → Bool
is_leased lease s = elim (get_slot s.slots lease.slot_id) [
  | none ↦ false
  | some sc ↦ validate_lease sc lease
]

released_is_void :
    (lease : SlotLease) (sc : SlotController)
    → lease.owner ≢ ""
    → validate_lease (release_lease sc lease) lease ≡ false
unfolding release_lease validate_lease
released_is_void lease sc named = ground (arith, string_eq.beq_iff "" lease.owner)

release_lem :
    (lease : SlotLease) (s : Scheduler)
    → lease.owner ≢ ""
    → is_leased lease (release lease s) ≡ false
unfolding is_leased release set_controller with_controller get_slot
release_lem lease s named = elim (Option-cases (Assoc.lookup lease.slot_id s.slots)) [
  | inl e ↦ ground (arith, e)
  | inr (sc, e) ↦ ground (
    arith,
    e,
    Assoc.lookup-insert_self lease.slot_id (release_lease sc lease) s.slots,
    released_is_void lease sc named,
  )
]

-- What other goroutines do leaves the slot its tunnel.
abbrev pub Spares : ℕ → (Scheduler → Scheduler) → Type 0
Spares slot others =
    (s : Scheduler) → Assoc.lookup slot (others s).active_slots ≡ Assoc.lookup slot s.active_slots

-- What the /24 check reads of a tunnel: its node's identity and addresses.
abbrev pub addresses : Scheduler → ℕ → String × String × String
addresses s t = let node = (s.tunnels t).node in (node.id, node.ip, node.observed_exit_ip)

-- The scheduler before the slot got the tunnel: the other slots, the pool and the addresses of every
-- tunnel are the same.
pub record IsBefore (slot fresh : ℕ) (s0 s : Scheduler) : Type 0 where
  pub slots_before : s.active_slots ≡ Assoc.insert slot fresh s0.active_slots
  pub pool_before : s.standby_nodes ≡ s0.standby_nodes
  pub addresses_before : (t : ℕ) → addresses s t ≡ addresses s0 t

transition-addresses :
    (saved : Bool) (t u : ℕ) (target : Status) (s : Scheduler)
    → addresses (transition_tunnel saved t target s) u ≡ addresses s u
unfolding transition_tunnel Fsm.transition_node
transition-addresses saved t u target s = ground (arith, nat_eq.beq_iff t u)

-- The tunnels in service and their addresses are the same.
abbrev SameService : Scheduler → Scheduler → Type 0
SameService s s' =
    (s'.active_slots ≡ s.active_slots)
    × (s'.standby_nodes ≡ s.standby_nodes)
    × ((t : ℕ) → addresses s' t ≡ addresses s t)

SameService-IsBefore :
    (slot fresh : ℕ) (s0 s s' : Scheduler)
    → IsBefore slot fresh s0 s
    → SameService s s'
    → IsBefore slot fresh s0 s'
SameService-IsBefore slot fresh s0 s s' b (slots, pool, same) = record {
  slots_before = slots ∙ b.slots_before;
  pool_before = pool ∙ b.pool_before;
  addresses_before = λ t. same t ∙ b.addresses_before t;
}

preserve-SameService :
    (env : Env) (slot t : ℕ) (tun_ip : String) (s : Scheduler)
    → SameService s (preserve env slot t tun_ip s)
unfolding preserve set_tunnel transition_tunnel set_controller Fsm.transition_node
preserve-SameService env slot t tun_ip s = (
  ground (arith, Option-cases s.world.db),
  ground (arith, Option-cases s.world.db),
  λ u. ground (arith, nat_eq.beq_iff t u, Option-cases s.world.db),
)

drained-SameService :
    (env : Env) (slot t : ℕ) (s : Scheduler) → SameService s (drain_replaced_tunnel env slot t s).0
unfolding drain_replaced_tunnel emit
drained-SameService env slot t s =
    let interface = (s.tunnels t).interface in
    let tun_ip = env.interface_ip interface in
    let s1 = emit (setup_draining_routing (drain_table slot) interface tun_ip) s in
    elim (Option-cases (Assoc.lookup slot s.draining_slots)) [
      | inr (old, e) ↦ rw (drain_replaced_tunnel, e) (refl, refl, λ u. refl)
      | inl e ↦
          rw (drain_replaced_tunnel, e)
            (elim (Bool-cases (env.routes_draining slot)) [
              | inl p ↦ rw p (preserve-SameService env slot t tun_ip s1)
              | inr p ↦ rw p (refl, refl, λ u. refl)
            ])
    ]

module _ (calls : Calls) (op : SwitchOperation) (lease : SlotLease) where
  -- The operation holds neither the slot nor its controller.
  abbrev pub IsLetGo : Scheduler → Type 0
  IsLetGo s = (Assoc.lookup op.slot s.manual_override ≡ some false) × (is_leased lease s ≡ false)

  -- The operation failed, and the slot has the tunnel it had.
  abbrev pub IsAborted : Option ℕ → Switched → Type 0
  IsAborted before (s, op') =
      (op'.status ≡ OperationStatus.failed)
      × (Assoc.lookup op.slot s.active_slots ≡ before)
      × IsLetGo s

  abbrev pub IsStopped : Switched → Type 0
  IsStopped (s, op') = (s.tunnels calls.fresh).done ≡ true

  -- The candidate serves the slot, the tunnel it replaces drains, and the check of the candidate's /24s
  -- against the other tunnels in service passed.
  abbrev pub IsCommitted : Option ℕ → Switched → Type 0
  IsCommitted before (s, op') =
      (op'.status ≡ OperationStatus.active)
      × (Assoc.lookup op.slot s.active_slots ≡ some calls.fresh)
      × ((s.tunnels calls.fresh).slot_index ≡ op.slot)
      × IsLetGo s
      × ((before ≡ none) ⊎ (Assoc.lookup op.slot s.draining_slots ≡ before))
      × ((s0 : Scheduler) × IsBefore op.slot calls.fresh s0 s
          × (check_prefix_diversity calls.text s0 (s0.tunnels calls.fresh).node
                (s0.tunnels calls.fresh).node.observed_exit_ip (some op.slot)
              ≡ none))

  abbrev pub IsSettled : Option ℕ → Switched → Type 0
  IsSettled before r = (IsAborted before r × IsStopped r) ⊎ IsCommitted before r

  pub abandon-stopped :
      (reason : String) (s : Scheduler)
      → let s' = abandon calls op lease reason s in
        ((s'.tunnels calls.fresh).done ≡ true) × (s'.active_slots ≡ s.active_slots)
  unfolding abandon stop fail_tunnel set_tunnel emit
  abandon-stopped reason s = ground arith

  pub restore_active :
      (current : Option ℕ) (s : Scheduler)
      → (restore calls op lease current s).active_slots ≡ s.active_slots
  unfolding restore emit
  restore_active none s = ground arith
  restore_active (some t) s = ground arith

  let_go : (s : Scheduler) → lease.owner ≢ "" → IsLetGo (release_slot op.slot (release lease s))
  unfolding is_leased release_slot
  let_go s named = (
    Assoc.lookup-insert_self op.slot false (release lease s).manual_override,
    release_lem lease s named,
  )

  module _ (named : lease.owner ≢ "") where
    pub end_failed-IsAborted :
        (message : String) (s : Scheduler)
        → IsAborted (Assoc.lookup op.slot s.active_slots) (end_failed calls op lease message s)
          × ((end_failed calls op lease message s).0.tunnels ≡ s.tunnels)
    unfolding end_failed give_up release release_slot set_controller update_op_status
    end_failed-IsAborted message s = ((refl, refl, let_go s named), refl)

    pub ending :
        (before : Option ℕ) (message reason : String) (s : Scheduler)
        → Assoc.lookup op.slot s.active_slots ≡ before
        → let r = end_failed calls op lease message (abandon calls op lease reason s) in
          IsAborted before r × IsStopped r
    ending before message reason s h = ground (
      arith,
      abandon-stopped reason s,
      end_failed-IsAborted message (abandon calls op lease reason s),
    )

    preserve_keeps :
        (old : ℕ) (tun_ip : String) (s : Scheduler)
        → (old == calls.fresh) ≡ false
        → let s' = preserve calls.env op.slot old tun_ip s in
          (s'.active_slots ≡ s.active_slots)
          × ((s'.tunnels calls.fresh) ≡ (s.tunnels calls.fresh))
          × (Assoc.lookup op.slot s'.draining_slots ≡ some old)
    unfolding preserve set_tunnel transition_tunnel set_controller
    preserve_keeps old tun_ip s h =
        ground
          (arith, Assoc.lookup-insert_self op.slot old s.draining_slots, Option-cases s.world.db)

    -- DrainReplacedTunnelLocked leaves the candidate and the active slots alone.
    drained_keeps :
        (old : ℕ) (s : Scheduler)
        → (old == calls.fresh) ≡ false
        → let (s', err) = drain_replaced_tunnel calls.env op.slot old s in
          (s'.active_slots ≡ s.active_slots)
          × ((s'.tunnels calls.fresh) ≡ (s.tunnels calls.fresh))
          × ((is_some err ≡ true) ⊎ (Assoc.lookup op.slot s'.draining_slots ≡ some old))
    unfolding drain_replaced_tunnel emit
    drained_keeps old s h = ground (
      arith,
      preserve_keeps old (calls.env.interface_ip (s.tunnels old).interface)
          (emit
            (setup_draining_routing (drain_table op.slot) (s.tunnels old).interface
              (calls.env.interface_ip (s.tunnels old).interface))
            s)
          h,
    )

    succeed_lem :
        (s : Scheduler)
        → let (s', op') = succeed calls op lease s in
          (op'.status ≡ OperationStatus.active)
          × SameService s s'
          × (s'.draining_slots ≡ s.draining_slots)
          × ((s'.tunnels calls.fresh).slot_index ≡ (s.tunnels calls.fresh).slot_index)
          × IsLetGo s'
    unfolding succeed release release_slot set_controller update_op_status transition_tunnel
    succeed_lem s =
        let s1 = transition_tunnel (calls.env.saved op.slot) calls.fresh Status.active s in
        let s2 = set_controller op.slot (serves_slot calls op lease) s1 in
        (
          refl,
          (
            refl,
            refl,
            λ t. transition-addresses (calls.env.saved op.slot) calls.fresh t Status.active s,
          ),
          refl,
          ground arith,
          let_go s2 named,
        )

    -- The scheduler into which the candidate has been put.
    abbrev pub Placed : Scheduler → Type 0
    Placed s =
        (Assoc.lookup op.slot s.active_slots ≡ some calls.fresh)
        × ((s.tunnels calls.fresh).slot_index ≡ op.slot)
        × ((s0 : Scheduler) × IsBefore op.slot calls.fresh s0 s
            × (check_prefix_diversity calls.text s0 (s0.tunnels calls.fresh).node
                  (s0.tunnels calls.fresh).node.observed_exit_ip (some op.slot)
                ≡ none))

    same-Placed :
        (s s' : Scheduler)
        → SameService s s'
        → s'.tunnels calls.fresh ≡ s.tunnels calls.fresh
        → Placed s
        → Placed s'
    same-Placed s s' same tunnel (serves, index, (s0, placed, apart)) = (
      rw same.0 serves,
      rw tunnel index,
      (s0, SameService-IsBefore op.slot calls.fresh s0 s s' placed same, apart),
    )

    succeed-IsCommitted :
        (before : Option ℕ) (s : Scheduler)
        → Placed s
        → (before ≡ none) ⊎ (Assoc.lookup op.slot s.draining_slots ≡ before)
        → IsCommitted before (succeed calls op lease s)
    succeed-IsCommitted before s (serves, index, (s0, placed, apart)) drains =
        let (status, same, draining, indexed, free) = succeed_lem s in
        let s' = (succeed calls op lease s).0 in
        (
          status,
          rw same.0 serves,
          indexed ∙ index,
          free,
          rw draining drains,
          (s0, SameService-IsBefore op.slot calls.fresh s0 s s' placed same, apart),
        )

    settle-IsSettled :
        (old : ℕ) (s : Scheduler) (err : Option DrainError)
        → Placed s
        → (is_some err ≡ true) ⊎ (Assoc.lookup op.slot s.draining_slots ≡ some old)
        → IsSettled (some old) (settle calls op lease old s err)
    unfolding settle emit
    settle-IsSettled old s none placed drains =
        inr (succeed-IsCommitted (some old) s placed (ground arith))
    settle-IsSettled old s (some err) placed drains =
        let s1 = record s { active_slots = Assoc.insert op.slot old s.active_slots } in
        let s2 = emit (setup_slot_routing op.slot (s1.tunnels old).interface) s1 in
        inl (
          ending (some old) "Failed to prepare old tunnel draining"
            "manual Xray slot synchronization" s2
            (Assoc.lookup-insert_self op.slot old s.active_slots))

    replaced-IsSettled :
        (old : ℕ) (s : Scheduler)
        → (old == calls.fresh) ≡ false
        → Placed s
        → IsSettled (some old) (replace calls op lease (some old) s)
    unfolding replace
    replaced-IsSettled old s h placed =
        let (s1, err) = drain_replaced_tunnel calls.env op.slot old s in
        let (kept, same, drains) = drained_keeps old s h in
        let service = drained-SameService calls.env op.slot old s in
        rw h (settle-IsSettled old s1 err (same-Placed s s1 service same placed) drains)

    replace-IsSettled :
        (before : Option ℕ) (s : Scheduler)
        → before ≢ some calls.fresh
        → Placed s
        → IsSettled before (replace calls op lease before s)
    unfolding replace
    replace-IsSettled none s h placed = inr (succeed-IsCommitted none s placed (inl refl))
    replace-IsSettled (some old) s h placed =
        replaced-IsSettled old s (ground (arith, nat_eq.beq_iff old calls.fresh)) placed

    pub take_over-IsSettled :
        (current before : Option ℕ) (s : Scheduler) (err : Option DiversityError)
        → let node = (s.tunnels calls.fresh).node in
          check_prefix_diversity calls.text s node node.observed_exit_ip (some op.slot) ≡ err
          → Assoc.lookup op.slot s.active_slots ≡ before
          → before ≢ some calls.fresh
          → IsSettled before (take_over calls op lease current s err)
    unfolding take_over set_tunnel
    take_over-IsSettled current before s none checked had fresh =
        let s1 : Scheduler = set_tunnel calls.fresh (λ t. record t { slot_index = op.slot }) s in
        rw had (
          replace-IsSettled before
            (record s1 { active_slots = Assoc.insert op.slot calls.fresh s1.active_slots }) fresh
            (
              Assoc.lookup-insert_self op.slot calls.fresh s.active_slots,
              ground arith,
              (
                s,
                record {
                  slots_before = refl;
                  pool_before = refl;
                  addresses_before = λ t. ground (arith, nat_eq.beq_iff calls.fresh t);
                },
                checked,
              ),
            ))
    take_over-IsSettled current before s (some err) checked had fresh = inl (
        ending before "Candidate failed final IPv4 /24 commit check" "manual final /24 diversity"
          (restore calls op lease current s) (rw (restore_active current s) had))
