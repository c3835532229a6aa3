-- ===== src/Switch/Operations.antt =====
-- internal/agentapi/operations.go: the table of switch operations that the agent's API reports.
-- `ops` holds pointers; only the goroutine of an operation writes through its pointer.
use super_proxy.Base.{
  ℕ, ◌+◌, ltb, String, Bool, true, false, ◌&&◌, ◌||◌, Option, List, [], ◌∷◌, ◌==◌, string_eq,
  if◌then◌else◌, ◌≡◌, ◌↔◌, Eq, ite, arith,
}
use super_proxy.Base.Assoc

pub data OperationStatus : Type 0 where
  requested preparing connecting verifying active failed : OperationStatus

unfoldable pub OperationStatus-discrete : Discrete OperationStatus
OperationStatus-discrete = hlevel

abbrev pub operation_status_beq : OperationStatus → OperationStatus → Bool
operation_status_beq a b = ite (OperationStatus-discrete a b) true false

pub operation_status_beq_iff : (a b : OperationStatus) → (operation_status_beq a b ≡ true) ↔ (a ≡ b)
operation_status_beq_iff a b = ground arith

instance abbrev pub operation_status_eq : Eq OperationStatus
operation_status_eq = record { beq = operation_status_beq; beq_iff = operation_status_beq_iff }

pub record SwitchOperation : Type 0 where
  pub id : String
  pub slot : ℕ
  pub target_id : String
  pub status : OperationStatus
  pub error : String
  pub created_at : ℕ
  pub updated_at : ℕ

-- createSwitchOperation
unfoldable pub create_switch_operation :
    ℕ
    → String
    → ℕ
    → String
    → List (String × SwitchOperation)
    → List (String × SwitchOperation) × SwitchOperation
create_switch_operation now id slot target_node_id ops =
    let op : SwitchOperation = record {
      id = id;
      slot = slot;
      target_id = target_node_id;
      status = requested;
      error = "";
      created_at = now;
      updated_at = now;
    } in
    (Assoc.insert id op ops, op)

-- getOperation
unfoldable pub get_operation : String → List (String × SwitchOperation) → Option SwitchOperation
get_operation id ops = Assoc.lookup id ops

-- updateOpStatus
unfoldable pub update_op_status : ℕ → SwitchOperation → OperationStatus → String → SwitchOperation
update_op_status now op status err = record op {
  status = status;
  error = if err == "" then op.error else err;
  updated_at = now;
}

abbrev pub operation_retention : ℕ
operation_retention = 3600000000000

-- The test of cleanupOldOperations; UpdatedAt is before now less an hour.
unfoldable pub is_old : ℕ → SwitchOperation → Bool
is_old now op =
    ((op.status == active) || (op.status == failed))
    && ltb (op.updated_at + operation_retention) now

-- One tick of cleanupOldOperations.
unfoldable pub cleanup_old_operations :
    ℕ → List (String × SwitchOperation) → List (String × SwitchOperation)
unfolding is_old
cleanup_old_operations now [] = []
cleanup_old_operations now ((id, op) ∷ rest) =
    let kept = cleanup_old_operations now rest in if is_old now op then kept else (id, op) ∷ kept
