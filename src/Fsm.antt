-- ===== src/Fsm.antt =====
-- internal/scheduler/fsm.go: the life cycle of a node.
-- `db == nil` is `none`; a database is the rows that the transitions write, by node id. Whether a
-- write succeeds is the argument `saved`: the database is not under this repository's control. The
-- runtime credentials of internal/discovery are the map `secrets`.
pub mod Transitions
pub mod Paths
use super_proxy.Base.{
  ℕ, ◌+◌, String, Bool, true, false, not, ◌&&◌, ◌||◌, Option, none, some, List, [], ◌∷◌,
  if◌then◌else◌, ◌==◌, contains, string_eq,
}
use super_proxy.Base.Assoc
use super_proxy.Models.{
  Status, unset, new, discovered, reputation_checked, connecting, health_check, speed_test, healthy,
  qualified, standby, active, draining, failed, cooldown, dead, stale, status_eq, Node,
}

pub data Error : Type 0 where
  invalid_transition persist_failed : Error

-- The columns of a node's row that the transitions write.
pub record Row : Type 0 where
  pub status : Status
  pub fail_count : ℕ
  pub last_error : String
  pub last_failure_at : ℕ

pub record World : Type 0 where
  pub db : Option (List (String × Row))
  pub secrets : List (String × String)

-- AllowedTransitions; `none` is a status that the map has no entry for.
unfoldable pub allowed_transitions : Status → Option (List Status)
allowed_transitions new = some (discovered ∷ failed ∷ [])
allowed_transitions discovered = some (reputation_checked ∷ failed ∷ stale ∷ [])
allowed_transitions reputation_checked = some (connecting ∷ healthy ∷ qualified ∷ failed ∷ [])
allowed_transitions connecting = some (health_check ∷ healthy ∷ failed ∷ [])
allowed_transitions health_check = some (speed_test ∷ healthy ∷ qualified ∷ failed ∷ [])
allowed_transitions healthy = some (connecting ∷ speed_test ∷ qualified ∷ failed ∷ [])
allowed_transitions speed_test = some (qualified ∷ failed ∷ [])
allowed_transitions qualified = some (connecting ∷ standby ∷ active ∷ failed ∷ [])
allowed_transitions standby = some (active ∷ failed ∷ dead ∷ [])
allowed_transitions active = some (draining ∷ failed ∷ dead ∷ [])
allowed_transitions draining = some (failed ∷ dead ∷ [])
allowed_transitions failed = some (cooldown ∷ dead ∷ discovered ∷ connecting ∷ [])
allowed_transitions cooldown = some (discovered ∷ dead ∷ [])
allowed_transitions stale = some (discovered ∷ dead ∷ [])
allowed_transitions dead = some (discovered ∷ [])
allowed_transitions _ = none

unfoldable pub can_transition : Status → Status → Bool
unfolding allowed_transitions
can_transition current target =
    if current == target then true else elim (allowed_transitions current) [
      | none ↦ false
      | some next_states ↦ contains next_states target
    ]

-- An UPDATE by primary key changes a row that is there and nothing else.
unfoldable pub update_row : String → (Row → Row) → List (String × Row) → List (String × Row)
update_row id f rows = elim (Assoc.lookup id rows) [
  | none ↦ rows
  | some row ↦ Assoc.insert id (f row) rows
]

-- `saved` is false when the database refuses the write. With no database there is no write.
unfoldable pub save : Bool → String → (Row → Row) → World → Option World
save saved id f w = elim w.db [
  | none ↦ some w
  | some rows ↦ if saved then some (record w { db = some (update_row id f rows) }) else none
]

-- A node that was never stored counts as NEW.
unfoldable pub current_status : Node → Status
current_status node = if node.status == unset then new else node.status

unfoldable pub bump_failures : Node → Status → Node
bump_failures node target =
    if target == failed then record node { fail_count = node.fail_count + 1 } else node

unfoldable pub evict_secret : String → Status → World → World
evict_secret id target w =
    if (target == failed) || (target == dead)
    then record w { secrets = Assoc.delete id w.secrets }
    else w

-- The `updates` map: the status always, the failure count on FAILED.
unfoldable pub row_update : Node → Status → Row → Row
row_update node target row =
    let row' = record row { status = target } in
    if target == failed then record row' { fail_count = node.fail_count } else row'

-- The database layer puts the new values into the record before it runs the UPDATE, so that the record has
-- the new status also when the write is refused.
unfoldable pub transition_node : Bool → World → Node → Status → World × Node × Option Error
unfolding save bump_failures evict_secret row_update
transition_node saved w node target =
    let counted = bump_failures node target in
    let evicted = evict_secret node.id target w in
    if not (can_transition (current_status node) target)
    then (w, node, some invalid_transition)
    else elim (save saved node.id (row_update counted target) evicted) [
      | none ↦ (evicted, record counted { status = target }, some persist_failed)
      | some w' ↦ (w', record counted { status = target }, none)
    ]

-- TransitionNodeDirect: no database.
unfoldable pub transition_node_direct : World → Node → Status → World × Node × Option Error
unfolding transition_node
transition_node_direct w node target =
    let (w', node', err) = transition_node true (record w { db = none }) node target in
    (record w' { db = w.db }, node', err)

-- `noted` says whether the first of the two writes succeeds.
unfoldable pub fail_node : Bool → Bool → ℕ → World → Node → String → World × Node × Option Error
unfolding transition_node save
fail_node noted saved now w node reason =
    let node' = record node { last_error = reason; last_failure_at = now } in
    let note = λ (row : Row). record row { last_error = reason; last_failure_at = now } in
    elim (save noted node.id note w) [
      | none ↦ (w, node', some persist_failed)
      | some w' ↦ transition_node saved w' node' failed
    ]
