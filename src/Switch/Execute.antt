-- ===== src/Switch/Execute.antt =====
-- executeManualSwitch of internal/agentapi/operations.go, a goroutine, phase by phase. It holds the
-- scheduler's mutex only to read the slot at the start, to check diversity, and to commit; what other
-- goroutines do to the scheduler between is `while_verifying` and `while_routing`, any functions.
-- Everything outside the repository answers through `Calls`. The assignments to the operation, the
-- lease, the override and the node commute, so each failure makes them in one order (`give_up`).
use super_proxy.Base.{
  ℕ, String, Bool, true, false, ◌&&◌, not, Option, some, none, ◌==◌, nat_eq, string_eq,
  if◌then◌else◌,
}
use super_proxy.Base.Assoc
use super_proxy.Models.{Node, Status}
use super_proxy.Fsm
use super_proxy.Slots.{
  SlotState, SlotController, SlotLease, release_lease, validate_lease, get_slot,
}
use super_proxy.Scheduler.State.{
  Scheduler, Env, Tunnel, setup_candidate_routing, clear_candidate_routing, setup_slot_routing,
  clear_slot_routing, drain_xray, activate_xray, emit, set_tunnel, set_controller, stop,
  fail_tunnel, transition_tunnel, next_tunnel_id, update,
}
use super_proxy.Scheduler.Drain.{drain_replaced_tunnel, DrainError}
use super_proxy.Diversity.{Text, DiversityError, check_prefix_diversity}
use super_proxy.Admission.{
  Engine, AdmissionError, evaluate_ip_admission_for_region, persist_admission_result,
}
use super_proxy.Switch.Operations.{SwitchOperation, OperationStatus, update_op_status}

-- What the outside answers to one operation. `env` answers the calls that other operations make too.
pub record Calls : Type 0 where
  pub env : Env
  pub text : Text
  pub engine : Option Engine
  pub found : Option Node  -- the database's row of the target
  pub fresh : ℕ  -- the reference of the tunnel that StartTunnel makes
  pub starts : Option String  -- StartTunnel: the interface, or an error
  pub routes_candidate : Bool  -- SetupCandidateRouting succeeds
  pub exit_ip : Option String  -- VerifyTunnel: healthy with this exit address, or not
  pub while_verifying : Scheduler → Scheduler
  pub while_routing : Scheduler → Scheduler

abbrev pub Switched : Type 0
Switched = Scheduler × SwitchOperation

-- releaseSlot
unfoldable pub release_slot : ℕ → Scheduler → Scheduler
release_slot slot s = record s { manual_override = Assoc.insert slot false s.manual_override }

-- lease.Release
unfoldable pub release : SlotLease → Scheduler → Scheduler
unfolding set_controller
release lease s = set_controller lease.slot_id (λ sc. release_lease sc lease) s

-- `sc != nil && !sc.ValidateLease(lease)`
unfoldable pub is_preempted : SlotLease → ℕ → Scheduler → Bool
is_preempted lease slot s = elim (get_slot s.slots slot) [
  | none ↦ false
  | some sc ↦ not (validate_lease sc lease)
]

-- How every failed operation ends.
unfoldable pub give_up : ℕ → SwitchOperation → SlotLease → String → Scheduler → Switched
unfolding release_slot release update_op_status
give_up now op lease message s =
    (release_slot op.slot (release lease s), update_op_status now op OperationStatus.failed message)

module _ (calls : Calls) (op : SwitchOperation) (lease : SlotLease) where
  unfoldable pub end_failed : String → Scheduler → Switched
  unfolding give_up
  end_failed message s = give_up calls.env.now op lease message s

  -- tunnel.Stop and FailNode
  unfoldable pub abandon : String → Scheduler → Scheduler
  unfolding stop fail_tunnel
  abandon reason s =
      fail_tunnel (calls.env.noted op.slot) (calls.env.saved op.slot) calls.env.now calls.fresh
        reason (stop calls.fresh s)

  -- The slot's route, and Xray, as before the cutover; `current` is the tunnel it had at the start.
  unfoldable pub restore : Option ℕ → Scheduler → Scheduler
  unfolding emit
  restore (some t) s = emit (setup_slot_routing op.slot (s.tunnels t).interface) s
  restore none s =
      let s1 = emit (clear_slot_routing op.slot) s in
      if calls.env.has_xray then emit (drain_xray op.slot) s1 else s1

  abbrev pub serves_slot : SlotController → SlotController
  serves_slot sc = record sc {
    active_tunnel = some calls.fresh;
    state = SlotState.active;
    outbound_active = true;
  }

  unfoldable pub succeed : Scheduler → Switched
  unfolding transition_tunnel set_controller release_slot release update_op_status
  succeed s =
      let s1 = transition_tunnel (calls.env.saved op.slot) calls.fresh Status.active s in
      let s2 = set_controller op.slot serves_slot s1 in
      (
        release_slot op.slot (release lease s2),
        update_op_status calls.env.now op OperationStatus.active "",
      )

  -- After DrainReplacedTunnelLocked; when it fails the slot is rolled back.
  unfoldable pub settle : ℕ → Scheduler → Option DrainError → Switched
  unfolding end_failed abandon emit
  settle old s none = succeed s
  settle old s (some err) =
      let s1 = record s { active_slots = Assoc.insert op.slot old s.active_slots } in
      let s2 = emit (setup_slot_routing op.slot (s1.tunnels old).interface) s1 in
      end_failed "Failed to prepare old tunnel draining"
        (abandon "manual Xray slot synchronization" s2)

  -- What becomes of the tunnel that the slot had.
  unfoldable pub replace : Option ℕ → Scheduler → Switched
  replace none s = succeed s
  replace (some old) s =
      let (s1, err) = drain_replaced_tunnel calls.env op.slot old s in
      if old == calls.fresh then succeed s else settle old s1 err

  -- The commit after its diversity check.
  unfoldable pub take_over : Option ℕ → Scheduler → Option DiversityError → Switched
  unfolding end_failed abandon set_tunnel
  take_over current s (some err) =
      end_failed "Candidate failed final IPv4 /24 commit check"
        (abandon "manual final /24 diversity" (restore current s))
  take_over current s none =
      let old = Assoc.lookup op.slot s.active_slots in
      let s1 = set_tunnel calls.fresh (λ t. record t { slot_index = op.slot }) s in
      replace old (record s1 { active_slots = Assoc.insert op.slot calls.fresh s1.active_slots })

  -- The section under the scheduler's mutex.
  unfoldable pub commit : Option ℕ → Scheduler → Switched
  commit current s =
      let node = (s.tunnels calls.fresh).node in
      take_over current s
        (check_prefix_diversity calls.text s node node.observed_exit_ip (some op.slot))

  -- From the second look at the lease to the mutex.
  unfoldable pub cut_over : Option ℕ → ℕ → Scheduler → Switched
  unfolding end_failed abandon stop emit
  cut_over current candidate_slot s =
      let interface = (s.tunnels calls.fresh).interface in
      let cleared = λ (s : Scheduler). emit (clear_candidate_routing candidate_slot) s in
      let s1 = if calls.env.has_xray then emit (activate_xray op.slot) s else s in
      let s2 = emit (setup_slot_routing op.slot interface) s1 in
      if is_preempted lease op.slot s
      then end_failed "Operation preempted by newer request" (stop calls.fresh (cleared s))
      else if calls.env.has_xray && not (calls.env.xray_activates op.slot)
      then end_failed "Failed to activate Xray routing"
          (abandon "manual Xray activation" (cleared s1))
      else if not (calls.env.routes_slot op.slot)
      then end_failed "Failed to switch slot routing"
          (abandon "manual slot routing cutover" (restore current (cleared s2)))
      else commit current (calls.while_routing (cleared s2))

  -- After the diversity check on the observed exit address.
  unfoldable pub accept : Option ℕ → ℕ → Scheduler → Option DiversityError → Switched
  unfolding end_failed abandon emit transition_tunnel
  accept current candidate_slot s (some err) =
      end_failed "Observed exit rejected by IPv4 /24 diversity policy" (
        abandon "manual observed exit /24 diversity"
          (emit (clear_candidate_routing candidate_slot) s))
  accept current candidate_slot s none =
      cut_over current candidate_slot
        (transition_tunnel (calls.env.saved op.slot) calls.fresh Status.qualified s)

  -- After the admission check on the observed exit address.
  unfoldable pub screen : Option ℕ → ℕ → String → Scheduler → Option AdmissionError → Switched
  unfolding end_failed abandon emit
  screen current candidate_slot exit_ip s (some err) =
      end_failed "Observed exit rejected by admission policy" (
        abandon "manual observed exit reputation" (emit (clear_candidate_routing candidate_slot) s))
  screen current candidate_slot exit_ip s none =
      accept current candidate_slot s
        (check_prefix_diversity calls.text s (s.tunnels calls.fresh).node exit_ip (some op.slot))

  -- The checks on the observed exit address.
  unfoldable pub qualify : Option ℕ → ℕ → String → Scheduler → Switched
  unfolding set_tunnel
  qualify current candidate_slot exit_ip s =
      let c = calls.fresh in
      let s1 =
        set_tunnel c (λ t. record t { node = record t.node { observed_exit_ip = exit_ip } }) s in
      let (result, refused) =
        evaluate_ip_admission_for_region calls.text calls.engine exit_ip
          (s.tunnels c).node.country in
      let s2 = set_tunnel c (λ t. record t { node = persist_admission_result t.node result }) s1 in
      screen current candidate_slot exit_ip s2 refused

  -- After VerifyTunnel.
  unfoldable pub confirm : Option ℕ → ℕ → Scheduler → Option String → Switched
  unfolding end_failed abandon emit
  confirm current candidate_slot s none =
      end_failed "Candidate health verification failed"
        (abandon "manual health verification" (emit (clear_candidate_routing candidate_slot) s))
  confirm current candidate_slot s (some exit_ip) =
      qualify current candidate_slot exit_ip (calls.while_verifying s)

  -- Candidate routing and the health check; the node forgets the exit address it had.
  unfoldable pub verify : Option ℕ → ℕ → String → Scheduler → Switched
  unfolding end_failed abandon emit set_tunnel
  verify current candidate_slot interface s =
      let forgets = λ (t : Tunnel). record t { node = record t.node { observed_exit_ip = "" } } in
      let s1 = emit (setup_candidate_routing candidate_slot interface) s in
      let s2 = set_tunnel calls.fresh forgets s1 in
      if not calls.routes_candidate
      then end_failed "Failed to setup candidate routing" (abandon "manual candidate routing" s1)
      else confirm current candidate_slot s2 calls.exit_ip

  -- After StartTunnel, for which the node's credentials are looked up outside.
  unfoldable pub begin : Option ℕ → ℕ → Node → Scheduler → Option String → Switched
  unfolding end_failed
  begin current candidate_slot node s none =
      let (w, node', err) =
        Fsm.fail_node (calls.env.noted op.slot) (calls.env.saved op.slot) calls.env.now s.world node
          "manual openvpn startup" in
      end_failed "Failed to start candidate tunnel" (record s { world = w })
  begin current candidate_slot node s (some interface) =
      let tunnel : Tunnel = record {
        slot_index = candidate_slot;
        interface = interface;
        node = node;
        state = SlotState.active;
        draining_started_at = 0;
        done = false;
      } in
      verify current candidate_slot interface
        (record s { tunnels = update s.tunnels calls.fresh tunnel })

  unfoldable pub connect : Option ℕ → Node → Scheduler → Switched
  unfolding next_tunnel_id
  connect current node s =
      let (s1, candidate_slot) = next_tunnel_id s in
      begin current candidate_slot node s1 calls.starts

  unfoldable pub is_served_by_target : Scheduler → Option ℕ → Bool
  is_served_by_target s none = false
  is_served_by_target s (some t) = (s.tunnels t).node.id == op.target_id

  -- After the database's answer about the target.
  unfoldable pub preflight : Scheduler → Option Node → Switched
  unfolding end_failed
  preflight s none = end_failed "Target node not found in DB" s
  preflight s (some node) =
      let current = Assoc.lookup op.slot s.active_slots in
      if is_served_by_target s current
      then end_failed "Target node is already active on this slot" s
      else if is_preempted lease op.slot s
      then end_failed "Operation preempted by newer request" s
      else connect current node s

  -- executeManualSwitch
  unfoldable pub execute_manual_switch : Scheduler → Switched
  execute_manual_switch s = preflight s calls.found
