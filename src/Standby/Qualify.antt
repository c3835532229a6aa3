-- ===== src/Standby/Qualify.antt =====
-- maintainStandbyPool of internal/scheduler/scheduler.go, phase by phase. It holds the mutex only to look
-- at the pool, for the diversity checks, and to add the tunnel; what other goroutines do between is
-- `while_verifying` and `while_measuring`, any functions. The record of prefix samples and the
-- measured speeds are only stored, and are left out.
use super_proxy.Base.{
  ℕ, leb, length, String, Bool, true, false, ◌&&◌, ◌||◌, not, Option, none, some, [], ◌∷◌, ◌++◌,
  if◌then◌else◌, ◌==◌, is_some,
}
use super_proxy.Base.Int.{ℤ}
use super_proxy.Models.{Node, Status, status_eq}
use super_proxy.Fsm
use super_proxy.Slots.{SlotState}
use super_proxy.Scheduler.State.{
  Scheduler, Tunnel, setup_slot_routing, clear_slot_routing, emit, set_tunnel, stop, fail_tunnel,
  transition_tunnel, next_tunnel_id, update,
}
use super_proxy.Diversity.{Text, DiversityError, check_prefix_diversity}
use super_proxy.Admission.{
  Engine, AdmissionError, evaluate_ip_admission_for_region, persist_admission_result,
}

-- CandidateSelection, of which SelectNextCandidate gives one.
pub record Selection : Type 0 where
  pub node : Node
  pub is_fallback_node : Bool
  pub quarantined_endpoint : Bool

-- What the outside answers. A score is asked for a node, whether it is of the primary region, and the
-- address whose /24 may cost it points; `none` is a node that is not allowed.
pub record Answers : Type 0 where
  pub now : ℕ
  pub text : Text
  pub engine : Option Engine
  pub selection : Option Selection
  pub scoring : Option (Node → Bool → Option String → Option ℤ)  -- ScoringEngine
  pub fresh : ℕ  -- the reference of the tunnel that StartTunnel makes
  pub starts : Option String  -- StartTunnel: the interface, or an error
  pub exit_ip : Option String  -- VerifyTunnel: healthy with this exit address, or not
  pub benchmark : Option Bool  -- whether the benchmark succeeds, if there is a Benchmarker
  pub noted : Bool  -- the database takes the reason of a failure
  pub saved : Status → Bool  -- the database takes a transition, by its target
  pub while_verifying : Scheduler → Scheduler
  pub while_measuring : Scheduler → Scheduler

module _ (a : Answers) where
  -- tunnel.Stop and FailNode
  unfoldable pub discard : String → Scheduler → Scheduler
  unfolding stop fail_tunnel
  discard reason s =
      fail_tunnel a.noted (a.saved Status.failed) a.now a.fresh reason (stop a.fresh s)

  -- FailNode for a node that has no tunnel yet; the scheduler's copy of the node is dropped.
  unfoldable pub reject : Node → String → Scheduler → Scheduler
  reject node reason s =
      let (w, node', err) =
        Fsm.fail_node a.noted (a.saved Status.failed) a.now s.world node reason in
      record s { world = w }

  unfoldable pub set_node : (Node → Node) → Scheduler → Scheduler
  unfolding set_tunnel
  set_node f s = set_tunnel a.fresh (λ t. record t { node = f t.node }) s

  -- After the last diversity check, under the mutex.
  unfoldable pub pool : Scheduler → Option DiversityError → Scheduler
  unfolding discard
  pool s (some err) = discard "final standby /24 diversity" s
  pool s none = record s { standby_nodes = s.standby_nodes ++ (a.fresh ∷ []) }

  -- QUALIFIED, STANDBY and the pool.
  unfoldable pub enlist : Scheduler → Scheduler
  unfolding transition_tunnel set_tunnel
  enlist s =
      let s1 = transition_tunnel (a.saved Status.qualified) a.fresh Status.qualified s in
      let s2 = transition_tunnel (a.saved Status.standby) a.fresh Status.standby s1 in
      let s3 =
        a.while_measuring (set_tunnel a.fresh (λ t. record t { state = SlotState.active }) s2) in
      let node = (s3.tunnels a.fresh).node in
      pool s3 (check_prefix_diversity a.text s3 node node.observed_exit_ip none)

  -- After the score of the measured tunnel.
  unfoldable pub settle_score : Scheduler → Option ℤ → Scheduler
  unfolding discard set_node
  settle_score s none = discard "measured scoring" s
  settle_score s (some score) = enlist (set_node (λ node. record node { score = score }) s)

  -- The score of the measured tunnel, if there is a scoring engine.
  unfoldable pub rescore :
      Bool → Scheduler → Option (Node → Bool → Option String → Option ℤ) → Scheduler
  rescore is_primary s none = enlist s
  rescore is_primary s (some f) =
      let node = (s.tunnels a.fresh).node in
      settle_score s (f node is_primary (some node.observed_exit_ip))

  -- The speed test, which uses the temporary route of the virtual slot.
  unfoldable pub measure : Bool → ℕ → Scheduler → Option Bool → Scheduler
  unfolding discard emit
  measure is_primary slot s (some false) = discard "speed test" (emit (clear_slot_routing slot) s)
  measure is_primary slot s (some true) =
      rescore is_primary (emit (clear_slot_routing slot) s) a.scoring
  measure is_primary slot s none = rescore is_primary (emit (clear_slot_routing slot) s) a.scoring

  -- After the diversity check on the observed exit address.
  unfoldable pub admit : Bool → ℕ → Scheduler → Option DiversityError → Scheduler
  unfolding discard emit transition_tunnel
  admit is_primary slot s (some err) =
      discard "observed exit /24 diversity" (emit (clear_slot_routing slot) s)
  admit is_primary slot s none =
      measure is_primary slot
        (transition_tunnel (a.saved Status.speed_test) a.fresh Status.speed_test s) a.benchmark

  -- After the admission check on the observed exit address.
  unfoldable pub judge_exit : Bool → ℕ → String → Scheduler → Option AdmissionError → Scheduler
  unfolding discard emit
  judge_exit is_primary slot exit_ip s (some err) =
      discard "observed exit reputation" (emit (clear_slot_routing slot) s)
  judge_exit is_primary slot exit_ip s none =
      admit is_primary slot s
        (check_prefix_diversity a.text s (s.tunnels a.fresh).node exit_ip none)

  -- After VerifyTunnel.
  unfoldable pub observe : Bool → ℕ → Scheduler → Option String → Scheduler
  unfolding discard emit set_node
  observe is_primary slot s none = discard "health verification" (emit (clear_slot_routing slot) s)
  observe is_primary slot s (some exit_ip) =
      let s1 =
        set_node (λ node. record node { observed_exit_ip = exit_ip }) (a.while_verifying s) in
      let (result, refused) =
        evaluate_ip_admission_for_region a.text a.engine exit_ip
          (s1.tunnels a.fresh).node.country in
      judge_exit is_primary slot exit_ip
        (set_node (λ node. persist_admission_result node result) s1) refused

  -- After StartTunnel.
  unfoldable pub bring_up : Bool → ℕ → Node → Scheduler → Option String → Scheduler
  unfolding reject emit set_node transition_tunnel
  bring_up is_primary slot node s none = reject node "openvpn startup" s
  bring_up is_primary slot node s (some interface) =
      let tunnel : Tunnel = record {
        slot_index = slot;
        interface = interface;
        node = node;
        state = SlotState.active;
        draining_started_at = 0;
        done = false;
      } in
      let s1 = record s { tunnels = update s.tunnels a.fresh tunnel } in
      let s2 = transition_tunnel (a.saved Status.health_check) a.fresh Status.health_check s1 in
      let s3 = emit (setup_slot_routing slot interface) s2 in
      observe is_primary slot (set_node (λ node. record node { observed_exit_ip = "" }) s3)
        a.exit_ip

  -- The transition to CONNECTING.
  unfoldable pub dial : Bool → ℕ → Node → Scheduler → Scheduler
  dial is_primary slot node s =
      let (w, node', err) =
        Fsm.transition_node (a.saved Status.connecting) s.world node Status.connecting in
      let s1 = record s { world = w } in
      if is_some err then s1 else bring_up is_primary slot node' s1 a.starts

  -- The statuses a candidate may have before it is connected.
  unfoldable pub may_connect : Selection → Node → Bool
  may_connect selection node =
      (selection.quarantined_endpoint && (node.status == Status.failed))
      || ((node.status == Status.reputation_checked)
          || ((node.status == Status.qualified) || (node.status == Status.healthy)))

  -- The transition that REPUTATION_CHECKED makes to itself, which may fail to be saved.
  unfoldable pub prepare : Selection → ℕ → Node → Scheduler → Scheduler
  prepare selection slot node s =
      let is_primary = not selection.is_fallback_node in
      let (w, node', err) =
        Fsm.transition_node (a.saved Status.reputation_checked) s.world node
          Status.reputation_checked in
      let s1 = record s { world = w } in
      if not (may_connect selection node)
      then s
      else if not (node.status == Status.reputation_checked)
      then dial is_primary slot node s
      else if is_some err
      then s1
      else dial is_primary slot node' s1

  -- The score of a candidate that is not connected yet.
  unfoldable pub grade : Selection → ℕ → Node → Scheduler → Option ℤ → Scheduler
  grade selection slot node s none = reject node "pre-connect scoring" s
  grade selection slot node s (some score) =
      prepare selection slot (record node { score = score }) s

  unfoldable pub assess :
      Selection → ℕ → Node → Scheduler → Option (Node → Bool → Option String → Option ℤ) → Scheduler
  assess selection slot node s none = prepare selection slot node s
  assess selection slot node s (some f) =
      grade selection slot node s (f node (not selection.is_fallback_node) (some node.ip))

  -- After the admission check on the advertised endpoint.
  unfoldable pub screen_endpoint :
      Selection → ℕ → Node → Scheduler → Option AdmissionError → Scheduler
  screen_endpoint selection slot node s (some err) = reject node "endpoint reputation" s
  screen_endpoint selection slot node s none = assess selection slot node s a.scoring

  -- The checks on the advertised endpoint; a quarantined one is only transport for a clean exit, and
  -- skips them.
  unfoldable pub consider : ℕ → Selection → Scheduler → Scheduler
  consider slot selection s =
      let node = selection.node in
      let (result, refused) =
        evaluate_ip_admission_for_region a.text a.engine node.ip node.country in
      if selection.quarantined_endpoint
      then prepare selection slot node s
      else if is_some (check_prefix_diversity a.text s node "" none)
      then s
      else screen_endpoint selection slot (persist_admission_result node result) s refused

  unfoldable pub try_candidate : Scheduler → Option Selection → Scheduler
  unfolding next_tunnel_id
  try_candidate s none = (next_tunnel_id s).0
  try_candidate s (some selection) = let (s1, slot) = next_tunnel_id s in consider slot selection s1

  -- maintainStandbyPool
  unfoldable pub maintain_standby_pool : Scheduler → Scheduler
  maintain_standby_pool s =
      if leb s.max_standby (length s.standby_nodes) then s else try_candidate s a.selection
