-- ===== src/Standby/Safety.antt =====
-- The pool grows only by qualified tunnels, and no attempt leaves a tunnel behind.
use super_proxy.Base.{
  ℕ, leb, length, String, Bool, not, Option, none, some, List, if_either, ◌==◌, is_some, ◌≡◌, ◌⊎◌,
  inl, inr, refl,
}
use super_proxy.Base.Int.{ℤ}
use super_proxy.Models.{Node, Status, status_eq}
use super_proxy.Fsm
use super_proxy.Scheduler.State.{
  Scheduler, Tunnel, emit, set_tunnel, transition_tunnel, next_tunnel_id,
}
use super_proxy.Diversity.{check_prefix_diversity}
use super_proxy.Admission.{
  AdmissionError, evaluate_ip_admission_for_region, persist_admission_result,
}
use super_proxy.Standby.Qualify.{
  Selection, Answers, reject, set_node, bring_up, dial, may_connect, prepare, grade, assess,
  screen_endpoint, consider, try_candidate, maintain_standby_pool,
}
use super_proxy.Standby.Outcome.{Spares, Keeps, IsTried, observed}

-- No tunnel was made or touched, or the new one was stopped, or it was added.
abbrev pub IsSettled : Answers → Scheduler → Scheduler → Type 0
IsSettled a s r =
    (Keeps a s.standby_nodes s.active_slots r × (r.tunnels ≡ s.tunnels))
    ⊎ IsTried a s.standby_nodes s.active_slots r

module _ (a : Answers) (spares : Spares a.while_measuring) (spares' : Spares a.while_verifying)
    (standby : List ℕ) (active : List (ℕ × ℕ)) (tunnels : ℕ → Tunnel) where
  abbrev Result : Scheduler → Type 0
  Result r = (Keeps a standby active r × (r.tunnels ≡ tunnels)) ⊎ IsTried a standby active r

  abbrev Same : Scheduler → Type 0
  Same s = Keeps a standby active s × (s.tunnels ≡ tunnels)

  rejected :
      (node : Node) (reason : String) (s : Scheduler) → Same s → Result (reject a node reason s)
  unfolding reject
  rejected node reason s same = inl same

  brought_up :
      (is_primary : Bool) (slot : ℕ) (node : Node) (s : Scheduler) (interface : Option String)
      → Same s
      → Result (bring_up a is_primary slot node s interface)
  unfolding bring_up emit set_node set_tunnel transition_tunnel
  brought_up is_primary slot node s none same = rejected node "openvpn startup" s same
  brought_up is_primary slot node s (some interface) (k, t) =
      inr (observed a standby active spares spares' is_primary slot _ a.exit_ip refl k)

  dialled :
      (is_primary : Bool) (slot : ℕ) (node : Node) (s : Scheduler)
      → Same s
      → Result (dial a is_primary slot node s)
  unfolding dial
  dialled is_primary slot node s same =
      let (w, node', err) =
        Fsm.transition_node (a.saved Status.connecting) s.world node Status.connecting in
      if_either Result (is_some err) (inl same)
        (brought_up is_primary slot node' (record s { world = w }) a.starts same)

  prepared :
      (selection : Selection) (slot : ℕ) (node : Node) (s : Scheduler)
      → Same s
      → Result (prepare a selection slot node s)
  unfolding prepare
  prepared selection slot node s same =
      let is_primary = not selection.is_fallback_node in
      let (w, node', err) =
        Fsm.transition_node (a.saved Status.reputation_checked) s.world node
          Status.reputation_checked in
      if_either Result (not (may_connect a selection node)) (inl same) (
        if_either Result (not (node.status == Status.reputation_checked))
          (dialled is_primary slot node s same)
          (if_either Result (is_some err) (inl same)
            (dialled is_primary slot node' (record s { world = w }) same)))

  graded :
      (selection : Selection) (slot : ℕ) (node : Node) (s : Scheduler) (score : Option ℤ)
      → Same s
      → Result (grade a selection slot node s score)
  unfolding grade
  graded selection slot node s none same = rejected node "pre-connect scoring" s same
  graded selection slot node s (some score) same =
      prepared selection slot (record node { score = score }) s same

  assessed :
      (selection : Selection) (slot : ℕ) (node : Node) (s : Scheduler)
      (scoring : Option (Node → Bool → Option String → Option ℤ))
      → Same s
      → Result (assess a selection slot node s scoring)
  unfolding assess
  assessed selection slot node s none same = prepared selection slot node s same
  assessed selection slot node s (some f) same = graded selection slot node s _ same

  screened :
      (selection : Selection) (slot : ℕ) (node : Node) (s : Scheduler) (err : Option AdmissionError)
      → Same s
      → Result (screen_endpoint a selection slot node s err)
  unfolding screen_endpoint
  screened selection slot node s none same = assessed selection slot node s a.scoring same
  screened selection slot node s (some err) same = rejected node "endpoint reputation" s same

  considered :
      (slot : ℕ) (selection : Selection) (s : Scheduler)
      → Same s
      → Result (consider a slot selection s)
  unfolding consider
  considered slot selection s same =
      let node = selection.node in
      let (result, refused) =
        evaluate_ip_admission_for_region a.text a.engine node.ip node.country in
      if_either Result selection.quarantined_endpoint (prepared selection slot node s same) (
        if_either Result (is_some (check_prefix_diversity a.text s node "" none)) (inl same)
          (screened selection slot (persist_admission_result node result) s refused same))

  tried :
      (s : Scheduler) (selection : Option Selection) → Same s → Result (try_candidate a s selection)
  unfolding try_candidate next_tunnel_id
  tried s none same = inl same
  tried s (some selection) same = considered _ selection (next_tunnel_id s).0 same

-- An attempt to fill the standby pool, whatever answers it gets and whatever else runs meanwhile without
-- changing the pool or the active slots, ends in one of three ways, with the active slots as before: the
-- pool is as before and no tunnel was made or touched; the pool is as before and the tunnel that was made
-- is stopped; or that tunnel is the newest of the pool, passes the /24 check against the active tunnels
-- and the others of the pool as they are at the end, and has an exit address, as observed through it, that the reputation engine found clean.
pub maintain_standby_pool_lem :
    (a : Answers) (s : Scheduler)
    → Spares a.while_measuring
    → Spares a.while_verifying
    → IsSettled a s (maintain_standby_pool a s)
unfolding maintain_standby_pool
maintain_standby_pool_lem a s spares spares' =
    if_either (IsSettled a s) (leb s.max_standby (length s.standby_nodes))
      (inl ((refl, refl), refl))
      (tried a spares spares' s.standby_nodes s.active_slots s.tunnels s a.selection
        ((refl, refl), refl))
