-- ===== src/Rollback/Partial.antt =====
-- `RollbackEngine::partialRollback` (src/rollback/rollback_engine.cpp).
use process_snapshot.Prelude.{
  ℕ, suc, ◌-◌, ◌/◌, Text, List, [], ◌∷◌, ◌++◌, Option, none, some, Bool, true, false, ◌&&◌, ◌||◌,
  codes, length, reverse, keep_if, if◌then◌else◌,
}
use process_snapshot.Types.{Result, ok}
use process_snapshot.Utils.{Timestamp}
use process_snapshot.OrderedMap.{contains}
use process_snapshot.State.OperationRecord.{OperationRecord}
use process_snapshot.Logger
use process_snapshot.Logger.{LogEntry, OperationLogger}
use process_snapshot.Rollback.{RollbackResult, RollbackEngine}

-- Without the categories, which the engine does not look at.
pub record PartialRollbackOptions : Type 0 where
  pub operations_to_undo : List ℕ
  pub preserve_newer_changes : Bool
  pub filter : Option (OperationRecord → Bool)

unfoldable pub passes : Option (OperationRecord → Bool) → OperationRecord → Bool
passes none op = false
passes (some filter) op = filter op

-- The loop over the operations. The undoable ones that are named or pass the filter, newest first.
unfoldable pub selected : PartialRollbackOptions → List OperationRecord → List OperationRecord
selected options operations = reverse (
    keep_if
      (λ op. (contains op.id options.operations_to_undo || passes options.filter op) && op.can_undo)
      operations)

module _ (format : LogEntry → Text) where
  -- The second loop; `now i` is the clock reading of its round i. It only logs.
  unfoldable pub log_undone :
      (ℕ → Timestamp) → ℕ → List OperationRecord → OperationLogger × ℕ → OperationLogger × ℕ
  log_undone now i [] w = w
  log_undone now i (op ∷ ops) w = log_undone now (suc i) ops (
      Logger.info format (codes "Rollback") (codes "Undid operation: " ++ op.description) (now i) w)

  -- `none`: without a logger the source dereferences a null pointer.
  unfoldable pub partial_rollback :
      {S : Type 0}
      → PartialRollbackOptions
      → Timestamp
      → (ℕ → Timestamp)
      → Timestamp
      → RollbackEngine S × ℕ
      → Option (Result RollbackResult × (RollbackEngine S × ℕ))
  partial_rollback options started now ended (e, counter) = elim e.logger [
    | none ↦ none
    | some l ↦
        let to_undo = selected options (Logger.get_operation_history 1000 l) in
        let (l', counter') = log_undone now 0 to_undo (l, counter) in
        let result : RollbackResult = record {
          success = true;
          restored_checkpoint = 0;
          operations_undone = length to_undo;
          time_taken = (ended - started) / 1000000;
          warnings =
              if options.preserve_newer_changes
              then []
              else codes "Newer changes may have been affected" ∷ [];
          error_message = [];
        } in
        some (ok result, (record e { logger = some l' }, counter'))
  ]
