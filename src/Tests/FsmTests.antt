-- ===== src/Tests/FsmTests.antt =====
-- internal/scheduler/fsm.go at concrete inputs.
use super_proxy.Base.{
  string_eq, ◌≡◌, ◌≢◌, refl, arith, Bool, true, List, [], ◌∷◌, contains, string_eq, String,
}
use super_proxy.Base.Assoc
use super_proxy.Models.{Node, Status, Status-discrete, status_eq}
use super_proxy.Fsm
use super_proxy.Fsm.Paths.{wanted, transitions, admitted_needs_qualified}
use super_proxy.Tests.Data.{node_at, stored_world}

abbrev first : Node
first = node_at "203.0.113.1" Status.active

differ : ◌≢◌ {A = String} "203.0.113.1" "203.0.113.2"
differ e = ground (arith, string_eq.beq_iff "203.0.113.1" "203.0.113.2")

-- The life of a node that is admitted and promoted.
abbrev promotion : List (Bool × Status)
promotion =
    (true, Status.connecting)
    ∷ (true, Status.health_check)
    ∷ (true, Status.speed_test)
    ∷ (true, Status.qualified)
    ∷ (true, Status.standby)
    ∷ (true, Status.active)
    ∷ []

abbrev candidate : Node
candidate = node_at "203.0.113.2" Status.reputation_checked

admitted_needs_qualified_example : contains (wanted promotion) Status.qualified ≡ true
unfolding transitions Fsm.transition_node Fsm.can_transition Fsm.current_status Fsm.update_row
    Status-discrete Assoc.lookup Assoc.insert
admitted_needs_qualified_example =
    admitted_needs_qualified stored_world candidate promotion refl refl
