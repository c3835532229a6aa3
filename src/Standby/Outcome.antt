-- ===== src/Standby/Outcome.antt =====
-- What an attempt to qualify a tunnel leaves behind.
use super_proxy.Base.{
  ℕ, String, Bool, true, false, Option, none, some, List, [], ◌∷◌, ◌++◌, ◌≡◌, ◌∙◌, ◌⊎◌, inl, inr,
  refl, ap, subst, arith,
}
use super_proxy.Base.Int.{ℤ}
use super_proxy.Models.{Node, Status, status_eq}
use super_proxy.Slots.{SlotState}
use super_proxy.Scheduler.State.{
  Scheduler, clear_slot_routing, emit, set_tunnel, stop, fail_tunnel, transition_tunnel,
}
use super_proxy.Diversity.{DiversityError, check_prefix_diversity}
use super_proxy.Admission.{
  Engine, Result, AdmissionError, answers, evaluate_ip_admission_for_region,
  persist_admission_result,
}
use super_proxy.Admission.Policy.{IsClean, admitted_iff}
use super_proxy.Standby.Qualify.{
  Answers, discard, set_node, pool, enlist, settle_score, rescore, measure, admit, judge_exit,
  observe,
}

-- What other goroutines do leaves the collections of tunnels as they are.
abbrev pub Spares : (Scheduler → Scheduler) → Type 0
Spares others =
    (s : Scheduler)
    → ((others s).standby_nodes ≡ s.standby_nodes) × ((others s).active_slots ≡ s.active_slots)

-- The engine found the observed exit clean.
abbrev pub HasCleanExit : Answers → Type 0
HasCleanExit a =
    (exit_ip : String) × (engine : Engine) × (result : Result) × (a.exit_ip ≡ some exit_ip)
    × (a.engine ≡ some engine)
    × (engine.evaluate_ip exit_ip ≡ answers (some result))
    × IsClean engine result

module _ (a : Answers) (standby : List ℕ) (active : List (ℕ × ℕ)) where
  abbrev pub Keeps : Scheduler → Type 0
  Keeps s = (s.standby_nodes ≡ standby) × (s.active_slots ≡ active)

  -- The pool is as before and the tunnel was stopped.
  unfoldable pub IsDiscarded : Scheduler → Type 0
  IsDiscarded s = Keeps s × ((s.tunnels a.fresh).done ≡ true)

  -- The tunnel is the newest of the pool, and the check of its /24s against the tunnels in service, the
  -- active ones and the others of the pool, as they are now, passes.
  unfoldable pub IsAdded : Scheduler → Type 0
  IsAdded s =
      (s.standby_nodes ≡ standby ++ (a.fresh ∷ []))
      × (s.active_slots ≡ active)
      × (check_prefix_diversity a.text (record s { standby_nodes = standby })
            (s.tunnels a.fresh).node (s.tunnels a.fresh).node.observed_exit_ip none
          ≡ none)

  -- The tunnel was stopped, or added with a clean exit.
  abbrev pub IsTried : Scheduler → Type 0
  IsTried s = IsDiscarded s ⊎ (IsAdded s × HasCleanExit a)

  discarded : (reason : String) (s : Scheduler) → Keeps s → IsDiscarded (discard a reason s)
  unfolding IsDiscarded discard stop fail_tunnel set_tunnel emit
  discarded reason s k = (k, ground arith)

  module _ (clean : HasCleanExit a) (spares : Spares a.while_measuring) where
    pooled :
        (s : Scheduler) (err : Option DiversityError)
        → let node = (s.tunnels a.fresh).node in
          check_prefix_diversity a.text s node node.observed_exit_ip none ≡ err
          → Keeps s
          → IsTried (pool a s err)
    unfolding pool IsAdded
    pooled s (some err) checked k = inl (discarded "final standby /24 diversity" s k)
    pooled s none checked k =
        let node = (s.tunnels a.fresh).node in
        let apart =
          subst
            (λ l.
              check_prefix_diversity a.text (record s { standby_nodes = l }) node
                node.observed_exit_ip none
              ≡ none)
            k.0 checked in
        inr ((ap (λ l. l ++ (a.fresh ∷ [])) k.0, k.1, apart), clean)

    enlisted : (s : Scheduler) → Keeps s → IsTried (enlist a s)
    unfolding enlist transition_tunnel set_tunnel
    enlisted s (in_pool, in_slots) =
        let s1 = transition_tunnel (a.saved Status.qualified) a.fresh Status.qualified s in
        let s2 = transition_tunnel (a.saved Status.standby) a.fresh Status.standby s1 in
        let s3 : Scheduler = set_tunnel a.fresh (λ t. record t { state = SlotState.active }) s2 in
        let (same_pool, same_slots) = spares s3 in
        pooled (a.while_measuring s3) _ refl (same_pool ∙ in_pool, same_slots ∙ in_slots)

    settled : (s : Scheduler) (score : Option ℤ) → Keeps s → IsTried (settle_score a s score)
    unfolding settle_score set_node set_tunnel
    settled s none k = inl (discarded "measured scoring" s k)
    settled s (some score) k = enlisted (set_node a (λ node. record node { score = score }) s) k

    rescored :
        (is_primary : Bool) (s : Scheduler)
        (scoring : Option (Node → Bool → Option String → Option ℤ))
        → Keeps s
        → IsTried (rescore a is_primary s scoring)
    unfolding rescore
    rescored is_primary s none k = enlisted s k
    rescored is_primary s (some f) k = settled s _ k

    measured :
        (is_primary : Bool) (slot : ℕ) (s : Scheduler) (benchmark : Option Bool)
        → Keeps s
        → IsTried (measure a is_primary slot s benchmark)
    unfolding measure emit
    measured is_primary slot s (some false) k =
        inl (discarded "speed test" (emit (clear_slot_routing slot) s) k)
    measured is_primary slot s (some true) k =
        rescored is_primary (emit (clear_slot_routing slot) s) a.scoring k
    measured is_primary slot s none k =
        rescored is_primary (emit (clear_slot_routing slot) s) a.scoring k

    admitted :
        (is_primary : Bool) (slot : ℕ) (s : Scheduler) (err : Option DiversityError)
        → Keeps s
        → IsTried (admit a is_primary slot s err)
    unfolding admit emit transition_tunnel
    admitted is_primary slot s (some err) k =
        inl (discarded "observed exit /24 diversity" (emit (clear_slot_routing slot) s) k)
    admitted is_primary slot s none k =
        measured is_primary slot
          (transition_tunnel (a.saved Status.speed_test) a.fresh Status.speed_test s) a.benchmark k

  module _ (spares : Spares a.while_measuring) (spares' : Spares a.while_verifying) where
    exit_judged :
        (is_primary : Bool) (slot : ℕ) (exit_ip : String) (s : Scheduler)
        (err : Option AdmissionError)
        → ((err ≡ none) → HasCleanExit a)
        → Keeps s
        → IsTried (judge_exit a is_primary slot exit_ip s err)
    unfolding judge_exit emit
    exit_judged is_primary slot exit_ip s (some err) clean k =
        inl (discarded "observed exit reputation" (emit (clear_slot_routing slot) s) k)
    exit_judged is_primary slot exit_ip s none clean k =
        admitted (clean refl) spares is_primary slot s _ k

    pub observed :
        (is_primary : Bool) (slot : ℕ) (s : Scheduler) (exit_ip : Option String)
        → a.exit_ip ≡ exit_ip
        → Keeps s
        → IsTried (observe a is_primary slot s exit_ip)
    unfolding observe emit set_node set_tunnel
    observed is_primary slot s none found k =
        inl (discarded "health verification" (emit (clear_slot_routing slot) s) k)
    observed is_primary slot s (some exit_ip) found (in_pool, in_slots) =
        let s0 = a.while_verifying s in
        let (same_pool, same_slots) = spares' s in
        let s1 : Scheduler = set_node a (λ node. record node { observed_exit_ip = exit_ip }) s0 in
        let country = (s1.tunnels a.fresh).node.country in
        let (result, refused) = evaluate_ip_admission_for_region a.text a.engine exit_ip country in
        let s2 : Scheduler = set_node a (λ node. persist_admission_result node result) s1 in
        exit_judged is_primary slot exit_ip s2 refused
          (λ passed.
            let (parsed, engine, judged, hp, has, answered, clean, local) =
              (admitted_iff a.text a.engine exit_ip country).0 passed in
            (exit_ip, engine, judged, found, has, answered, clean))
          (same_pool ∙ in_pool, same_slots ∙ in_slots)
