-- ===== src/Fsm/Transitions.antt =====
-- One transition of internal/scheduler/fsm.go, on every branch.
use super_proxy.Base.{
  ◌+◌, String, Bool, true, false, ◌≡◌, ◌≢◌, inl, inr, Option, none, some, List, arith,
  if◌then◌else◌, ◌==◌, string_eq, ◌&&◌, ◌||◌, Option-cases,
}
use super_proxy.Base.Assoc
use super_proxy.Models.{Status, failed, dead, status_eq, Node}
use super_proxy.Fsm.{
  World, Row, invalid_transition, can_transition, current_status, bump_failures, row_update,
  update_row, transition_node,
}

-- A transition that the table does not allow is an error, and changes nothing.
pub transition_node-invalid :
    (saved : Bool) (w : World) (node : Node) (target : Status)
    → can_transition (current_status node) target ≡ false
    → transition_node saved w node target ≡ (w, node, some invalid_transition)
unfolding transition_node
transition_node-invalid saved w node target h = ground arith

-- What an update leaves in a row, and in the rows of the other nodes.
pub lookup-update_row :
    (id j : String) (f : Row → Row) (rows : List (String × Row))
    → Assoc.lookup j (update_row id f rows) ≡ elim (Assoc.lookup j rows) [
      | none ↦ none
      | some row ↦ some (if id == j then f row else row)
    ]
unfolding update_row
lookup-update_row id j f rows = elim (Option-cases (Assoc.lookup id rows)) [
  | inl e ↦ ground (arith, e, string_eq.beq_iff id j)
  | inr (row, e) ↦ ground (arith, e, Assoc.lookup-insert id j (f row) rows, string_eq.beq_iff id j)
]

-- The row of a node, if there is a database and the node is in it.
abbrev pub stored : World → String → Option Row
stored w id = elim w.db [ none ↦ none | some rows ↦ Assoc.lookup id rows ]

-- An allowed transition that the database accepts leaves the record and its row in the new status,
-- with one more failure counted in both exactly when that status is FAILED.
pub transition_node-saved :
    (w : World) (node : Node) (target : Status) (row : Row)
    → can_transition (current_status node) target ≡ true
    → stored w node.id ≡ some row
    → row.fail_count ≡ node.fail_count
    → let (w', node', err) = transition_node true w node target in
      (err ≡ none)
      × (node'.status ≡ target)
      × (node'.fail_count ≡ (if target == failed then node.fail_count + 1 else node.fail_count))
      × (stored w' node.id ≡ some (record row { status = target; fail_count = node'.fail_count }))
unfolding transition_node
transition_node-saved w node target row allowed here same = elim (Option-cases w.db) [
  | inl e ↦ ground (arith, e)
  | inr (rows, e) ↦ ground (
    arith,
    e,
    lookup-update_row node.id node.id (row_update (bump_failures node target) target) rows,
    string_eq.beq_iff node.id node.id,
  )
]

-- A transition never touches the row of another node.
pub transition_node-others :
    (saved : Bool) (w : World) (node : Node) (target : Status) (j : String)
    → node.id ≢ j
    → stored (transition_node saved w node target).0 j ≡ stored w j
unfolding transition_node
transition_node-others saved w node target j differ = elim (Option-cases w.db) [
  | inl e ↦ ground (arith, e)
  | inr (rows, e) ↦ ground (
    arith,
    e,
    lookup-update_row node.id j (row_update (bump_failures node target) target) rows,
    string_eq.beq_iff node.id j,
  )
]

-- Whatever the database answers, an allowed transition to FAILED or DEAD takes the credentials of
-- that node from the runtime cache and leaves those of every other node there.
pub transition_node-secrets :
    (saved : Bool) (w : World) (node : Node) (target : Status) (j : String)
    → can_transition (current_status node) target ≡ true
    → Assoc.lookup j (transition_node saved w node target).0.secrets ≡ (
        if ((target == failed) || (target == dead)) && (node.id == j)
        then none
        else Assoc.lookup j w.secrets)
unfolding transition_node
transition_node-secrets saved w node target j allowed =
    ground (arith, Assoc.lookup-delete node.id j w.secrets)
