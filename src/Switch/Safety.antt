-- ===== src/Switch/Safety.antt =====
-- A manual switch replaces the tunnel of its slot or leaves it, and cleans up after itself.
use super_proxy.Base.{
  ℕ, String, false, ◌&&◌, not, Option, some, none, nat_eq, string_eq, if◌then◌else◌, ◌≡◌, ◌≢◌, ◌∙◌,
  ◌⊎◌, inl, inr, refl, arith, if_either,
}
use super_proxy.Base.Assoc
use super_proxy.Models.{Node, Status}
use super_proxy.Fsm
use super_proxy.Slots.{SlotState, SlotLease}
use super_proxy.Scheduler.State.{
  Scheduler, Tunnel, setup_slot_routing, activate_xray, setup_candidate_routing,
  clear_candidate_routing, emit, set_tunnel, stop, transition_tunnel, next_tunnel_id, update,
}
use super_proxy.Diversity.{DiversityError, check_prefix_diversity}
use super_proxy.Admission.{
  evaluate_ip_admission_for_region, persist_admission_result, AdmissionError,
}
use super_proxy.Switch.Operations.{SwitchOperation}
use super_proxy.Switch.Execute.{
  Calls, Switched, is_preempted, is_served_by_target, end_failed, restore, commit, cut_over, accept,
  screen, qualify, confirm, verify, begin, connect, preflight, execute_manual_switch,
}
use super_proxy.Switch.Outcome.{
  IsAborted, IsStopped, IsSettled, Spares, ending, end_failed-IsAborted, restore_active,
  take_over-IsSettled,
}

-- The operation ended: the slot as before and the candidate never made, or stopped, or in the slot.
abbrev pub IsResolved :
    Calls → SwitchOperation → SlotLease → Scheduler → Option ℕ → Switched → Type 0
IsResolved calls op lease s before r =
    (IsAborted calls op lease before r × (r.0.tunnels ≡ s.tunnels))
    ⊎ IsSettled calls op lease before r

module _ (calls : Calls) (op : SwitchOperation) (lease : SlotLease) (named : lease.owner ≢ "") where
  early_ending :
      (before : Option ℕ) (message : String) (s : Scheduler)
      → Assoc.lookup op.slot s.active_slots ≡ before
      → let r = end_failed calls op lease message s in
        IsAborted calls op lease before r × (r.0.tunnels ≡ s.tunnels)
  early_ending before message s h =
      ground (arith, end_failed-IsAborted calls op lease named message s)

  stop-IsAborted :
      (before : Option ℕ) (message : String) (s : Scheduler)
      → Assoc.lookup op.slot s.active_slots ≡ before
      → let r = end_failed calls op lease message (stop calls.fresh s) in
        IsAborted calls op lease before r × IsStopped calls op lease r
  unfolding stop set_tunnel emit
  stop-IsAborted before message s h =
      ground (arith, end_failed-IsAborted calls op lease named message (stop calls.fresh s))

  module _ (before : Option ℕ) (fresh : before ≢ some calls.fresh)
      (spares : Spares op.slot calls.while_routing) where
    cut_over-IsSettled :
        (current : Option ℕ) (candidate_slot : ℕ) (s : Scheduler)
        → Assoc.lookup op.slot s.active_slots ≡ before
        → IsSettled calls op lease before (cut_over calls op lease current candidate_slot s)
    unfolding cut_over emit commit
    cut_over-IsSettled current candidate_slot s had =
        let cleared : Scheduler → Scheduler =
          λ s. emit (clear_candidate_routing candidate_slot) s in
        let s1 : Scheduler = if calls.env.has_xray then emit (activate_xray op.slot) s else s in
        let s2 = emit (setup_slot_routing op.slot (s.tunnels calls.fresh).interface) s1 in
        let had1 : Assoc.lookup op.slot s1.active_slots ≡ before = ground arith in
        let s3 = calls.while_routing (cleared s2) in
        if_either (IsSettled calls op lease before) (is_preempted lease op.slot s)
          (inl (stop-IsAborted before "Operation preempted by newer request" (cleared s) had))
          (if_either (IsSettled calls op lease before)
            (calls.env.has_xray && not (calls.env.xray_activates op.slot))
            (inl (
              ending calls op lease named before "Failed to activate Xray routing"
                "manual Xray activation" (cleared s1) had1))
            (if_either (IsSettled calls op lease before) (not (calls.env.routes_slot op.slot))
              (inl (
                ending calls op lease named before "Failed to switch slot routing"
                  "manual slot routing cutover" (restore calls op lease current (cleared s2))
                  (rw (restore_active calls op lease current (cleared s2)) had1)))
              (take_over-IsSettled calls op lease named current before s3
                (check_prefix_diversity calls.text s3 (s3.tunnels calls.fresh).node
                  (s3.tunnels calls.fresh).node.observed_exit_ip (some op.slot))
                refl (spares (cleared s2) ∙ had1) fresh)))

    accept-IsSettled :
        (current : Option ℕ) (candidate_slot : ℕ) (s : Scheduler) (err : Option DiversityError)
        → Assoc.lookup op.slot s.active_slots ≡ before
        → IsSettled calls op lease before (accept calls op lease current candidate_slot s err)
    unfolding accept emit transition_tunnel
    accept-IsSettled current candidate_slot s none had =
        cut_over-IsSettled current candidate_slot
          (transition_tunnel (calls.env.saved op.slot) calls.fresh Status.qualified s) had
    accept-IsSettled current candidate_slot s (some err) had = inl (
        ending calls op lease named before "Observed exit rejected by IPv4 /24 diversity policy"
          "manual observed exit /24 diversity" (emit (clear_candidate_routing candidate_slot) s)
          had)

    screen-IsSettled :
        (current : Option ℕ) (candidate_slot : ℕ) (exit_ip : String) (s : Scheduler)
        (err : Option AdmissionError)
        → Assoc.lookup op.slot s.active_slots ≡ before
        → IsSettled calls op lease before
            (screen calls op lease current candidate_slot exit_ip s err)
    unfolding screen emit
    screen-IsSettled current candidate_slot exit_ip s none had =
        accept-IsSettled current candidate_slot s
          (check_prefix_diversity calls.text s (s.tunnels calls.fresh).node exit_ip (some op.slot))
          had
    screen-IsSettled current candidate_slot exit_ip s (some err) had = inl (
        ending calls op lease named before "Observed exit rejected by admission policy"
          "manual observed exit reputation" (emit (clear_candidate_routing candidate_slot) s) had)

    module _ (spares' : Spares op.slot calls.while_verifying) where
      confirm-IsSettled :
          (current : Option ℕ) (candidate_slot : ℕ) (s : Scheduler) (exit_ip : Option String)
          → Assoc.lookup op.slot s.active_slots ≡ before
          → IsSettled calls op lease before
              (confirm calls op lease current candidate_slot s exit_ip)
      unfolding confirm qualify set_tunnel emit
      confirm-IsSettled current candidate_slot s none had = inl (
          ending calls op lease named before "Candidate health verification failed"
            "manual health verification" (emit (clear_candidate_routing candidate_slot) s) had)
      confirm-IsSettled current candidate_slot s (some exit_ip) had =
          let c = calls.fresh in
          let s0 = calls.while_verifying s in
          let s1 : Scheduler =
            set_tunnel c (λ t. record t { node = record t.node { observed_exit_ip = exit_ip } })
              s0 in
          let (result, refused) =
            evaluate_ip_admission_for_region calls.text calls.engine exit_ip
              (s0.tunnels c).node.country in
          screen-IsSettled current candidate_slot exit_ip
            (set_tunnel c (λ t. record t { node = persist_admission_result t.node result }) s1)
            refused (spares' s ∙ had)

      verify-IsSettled :
          (current : Option ℕ) (candidate_slot : ℕ) (interface : String) (s : Scheduler)
          → Assoc.lookup op.slot s.active_slots ≡ before
          → IsSettled calls op lease before
              (verify calls op lease current candidate_slot interface s)
      unfolding verify emit set_tunnel
      verify-IsSettled current candidate_slot interface s had =
          let forgets : Tunnel → Tunnel =
            λ t. record t { node = record t.node { observed_exit_ip = "" } } in
          let s1 = emit (setup_candidate_routing candidate_slot interface) s in
          if_either (IsSettled calls op lease before) (not calls.routes_candidate)
            (inl (
              ending calls op lease named before "Failed to setup candidate routing"
                "manual candidate routing" s1 had))
            (confirm-IsSettled current candidate_slot (set_tunnel calls.fresh forgets s1)
              calls.exit_ip had)

      begin-IsResolved :
          (current : Option ℕ) (candidate_slot : ℕ) (node : Node) (s : Scheduler)
          (interface : Option String)
          → Assoc.lookup op.slot s.active_slots ≡ before
          → IsResolved calls op lease s before
              (begin calls op lease current candidate_slot node s interface)
      unfolding begin
      begin-IsResolved current candidate_slot node s none had =
          let (w, node', err) =
            Fsm.fail_node (calls.env.noted op.slot) (calls.env.saved op.slot) calls.env.now s.world
              node "manual openvpn startup" in
          inl (early_ending before "Failed to start candidate tunnel" (record s { world = w }) had)
      begin-IsResolved current candidate_slot node s (some interface) had =
          let tunnel : Tunnel = record {
            slot_index = candidate_slot;
            interface = interface;
            node = node;
            state = SlotState.active;
            draining_started_at = 0;
            done = false;
          } in
          inr (
            verify-IsSettled current candidate_slot interface
              (record s { tunnels = update s.tunnels calls.fresh tunnel }) had)

      preflight-IsResolved :
          (s : Scheduler) (found : Option Node)
          → Assoc.lookup op.slot s.active_slots ≡ before
          → IsResolved calls op lease s before (preflight calls op lease s found)
      unfolding preflight connect next_tunnel_id
      preflight-IsResolved s none had =
          inl (early_ending before "Target node not found in DB" s had)
      preflight-IsResolved s (some node) had =
          let current = Assoc.lookup op.slot s.active_slots in
          let resolved = IsResolved calls op lease s before in
          let (s1, candidate_slot) = next_tunnel_id s in
          if_either resolved (is_served_by_target calls op lease s current)
            (inl (early_ending before "Target node is already active on this slot" s had))
            (if_either resolved (is_preempted lease op.slot s)
              (inl (early_ending before "Operation preempted by newer request" s had))
              (begin-IsResolved current candidate_slot node s1 calls.starts had))

-- A manual switch of a slot that the candidate is not in already, whatever answers it gets and whatever
-- else runs meanwhile without taking the slot's tunnel away, ends in one of three ways: it failed, with
-- the slot's tunnel as before and no tunnel touched; it failed, with the slot's tunnel as before and the
-- candidate stopped; or it succeeded, with the candidate in the slot, the tunnel it replaces draining,
-- and the check of the candidate's /24s passed against the tunnels of the other slots and of the pool,
-- which are those, with those addresses, that are there at the end. In each, the operation holds neither the
-- slot nor its lease any more.
pub switch_resolves :
    (calls : Calls) (op : SwitchOperation) (lease : SlotLease) (s : Scheduler)
    → lease.owner ≢ ""
    → Assoc.lookup op.slot s.active_slots ≢ some calls.fresh
    → Spares op.slot calls.while_routing
    → Spares op.slot calls.while_verifying
    → IsResolved calls op lease s
        (Assoc.lookup op.slot s.active_slots)
        (execute_manual_switch calls op lease s)
unfolding execute_manual_switch
switch_resolves calls op lease s named fresh spares spares' =
    preflight-IsResolved calls op lease named (Assoc.lookup op.slot s.active_slots) fresh spares
      spares' s calls.found refl
