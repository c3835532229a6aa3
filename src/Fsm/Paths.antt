-- ===== src/Fsm/Paths.antt =====
-- Sequences of transitions of internal/scheduler/fsm.go, as the callers make them: an error is
-- dropped, and the next call goes on with the record as it is.
use super_proxy.Base.{
  ◌≤◌, Bool, true, false, ◌≡◌, refl, ◌⊎◌, inl, inr, List, [], ◌∷◌, map, arith, contains,
}
use super_proxy.Models.{
  Status, unset, new, discovered, reputation_checked, qualified, standby, active, failed, cooldown,
  dead, stale, other, status_eq, Status-discrete, Node,
}
use super_proxy.Fsm.{World, can_transition, current_status, transition_node}

-- The targets in turn; `saved` says of each whether the database accepts the write.
unfoldable pub transitions : World → Node → List (Bool × Status) → World × Node
transitions w node [] = (w, node)
transitions w node ((saved, target) ∷ rest) =
    let (w', node', err) = transition_node saved w node target in transitions w' node' rest

-- QUALIFIED and the two statuses that only it leads to.
abbrev pub is_admitted : Status → Bool
is_admitted qualified = true
is_admitted standby = true
is_admitted active = true
is_admitted _ = false

entry :
    (c t : Status)
    → can_transition c t ≡ true
    → is_admitted c ≡ false
    → is_admitted t ≡ true
    → t ≡ qualified
unfolding can_transition
entry c t allowed outside inside = ground arith

-- One step either stays put or follows the table.
step_status :
    (saved : Bool) (w : World) (node : Node) (target : Status)
    → ((transition_node saved w node target).1.status ≡ node.status)
      ⊎ ((can_transition (current_status node) target ≡ true)
          × ((transition_node saved w node target).1.status ≡ target))
unfolding transition_node
step_status saved w node target = ground arith

current-is_admitted : (node : Node) → is_admitted (current_status node) ≡ is_admitted node.status
unfolding current_status
current-is_admitted node = ground arith

step_fail_count :
    (saved : Bool) (w : World) (node : Node) (target : Status)
    → node.fail_count ≤ (transition_node saved w node target).1.fail_count
unfolding transition_node
step_fail_count saved w node target = ground arith

abbrev pub wanted : List (Bool × Status) → List Status
wanted = map λ p. p.1

contains-tail :
    (t u : Status) (rest : List Status) → contains rest u ≡ true → contains (t ∷ rest) u ≡ true
contains-tail t u rest h = ground arith

step_entry :
    (saved : Bool) (w : World) (node : Node) (target : Status)
    → is_admitted node.status ≡ false
    → (target ≡ qualified) ⊎ (is_admitted (transition_node saved w node target).1.status ≡ false)
step_entry saved w node target outside = ground (
  arith,
  step_status saved w node target,
  current-is_admitted node,
  entry (current_status node) target,
)

-- Whatever the database answers, a node that is in none of QUALIFIED, STANDBY and ACTIVE gets into
-- one of them only by a sequence of transitions that asks for QUALIFIED.
pub admitted_needs_qualified :
    (w : World) (node : Node) (targets : List (Bool × Status))
    → is_admitted node.status ≡ false
    → is_admitted (transitions w node targets).1.status ≡ true
    → contains (wanted targets) qualified ≡ true
unfolding transitions
admitted_needs_qualified w node [] outside inside = cc
admitted_needs_qualified w node ((saved, target) ∷ rest) outside inside =
    let (w', node', err) = transition_node saved w node target in
    elim (step_entry saved w node target outside) [
      | inl e ↦ ground (arith, e)
      | inr still ↦
          contains-tail target qualified (wanted rest)
            (admitted_needs_qualified w' node' rest still inside)
    ]

-- Failures are never forgotten by a sequence of transitions.
pub fail_count-transitions :
    (w : World) (node : Node) (targets : List (Bool × Status))
    → node.fail_count ≤ (transitions w node targets).1.fail_count
unfolding transitions
fail_count-transitions w node [] = omega arith
fail_count-transitions w node ((saved, target) ∷ rest) =
    let (w', node', err) = transition_node saved w node target in
    omega (arith, step_fail_count saved w node target, fail_count-transitions w' node' rest)

-- The table as a relation on the constants, and its chains.
pub data Chain (s : Status) : Status → Type 0 where
  here : Chain s s
  then : {t u : Status} → Chain s t → can_transition t u ≡ true → Chain s u

abbrev pub is_named : Status → Bool
is_named unset = false
is_named (other _) = false
is_named _ = true

direct : (s : Status) → can_transition s discovered ≡ true → Chain s discovered
direct s h = then here h

via_failed : (s : Status) → can_transition s failed ≡ true → Chain s discovered
unfolding can_transition Status-discrete
via_failed s h = then {t = failed} (then here h) refl

-- From every status constant a chain of allowed transitions leads back to DISCOVERED.
pub revival : (s : Status) → is_named s ≡ true → Chain s discovered
unfolding can_transition Status-discrete
revival unset h = cc
revival (other x) h = cc
revival new h = direct new refl
revival cooldown h = direct cooldown refl
revival stale h = direct stale refl
revival dead h = direct dead refl
revival discovered h = here
revival failed h = direct failed refl
revival reputation_checked h = via_failed reputation_checked refl
revival s h = via_failed s refl
