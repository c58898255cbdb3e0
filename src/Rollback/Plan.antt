-- ===== src/Rollback/Plan.antt =====
-- The records of the engine and the steps of a rollback that need neither storage nor files
-- (include/rollback/rollback_engine.hpp, src/rollback/rollback_engine.cpp).
use process_snapshot.Prelude.{
  ℕ, Bytes, Text, List, [], ◌∷◌, ◌++◌, Option, none, some, Bool, false, not, ◌&&◌, codes, length,
  leb, if◌then◌else◌,
}
use process_snapshot.Types.{RollbackStrategy}
use process_snapshot.Utils.{Timestamp}
use process_snapshot.State.OperationRecord.{OperationRecord}
use process_snapshot.Manager.{StateManager}
use process_snapshot.FileOperation.Log.{FileOperationLog}
use process_snapshot.Reverse.Options.{ReverseResult}
use process_snapshot.Logger
use process_snapshot.Logger.{LogEntry, OperationLogger}

pub record RollbackPlan : Type 0 where
  pub target_checkpoint : ℕ
  pub strategy : RollbackStrategy
  pub operations_to_undo : List OperationRecord
  pub requires_confirmation : Bool
  pub estimated_time : ℕ
  pub description : Text

-- Where a rollback ends early the source leaves `restored_checkpoint` and `time_taken` open: they
-- are 0 here.
pub record RollbackResult : Type 0 where
  pub success : Bool
  pub restored_checkpoint : ℕ
  pub operations_undone : ℕ
  pub time_taken : ℕ
  pub warnings : List Text
  pub error_message : Text

-- `RollbackEngine::Impl`. The top of the undo stack is its first element; `file_log` is the log of
-- the file tracker.
pub record RollbackEngine (S : Type 0) : Type 0 where
  pub manager : StateManager S
  pub logger : Option OperationLogger
  pub undo_stack : List Bytes
  pub max_undo_history : ℕ
  pub confirm : Option (RollbackPlan → Bool)
  pub rollback_count : ℕ
  pub total_rollback_time : ℕ
  pub file_log : Option FileOperationLog
  pub reverse_execution : Bool

-- The clock readings of one rollback, in their order; the clock is not set back in between.
pub record Clock : Type 0 where
  pub started : Timestamp
  pub reversed : Timestamp
  pub recorded : Timestamp
  pub logged : Timestamp
  pub ended : Timestamp

unfoldable pub operations_since : ℕ → Option OperationLogger → List OperationRecord
operations_since id none = []
operations_since id (some l) = Logger.get_operations_since id l

-- The stack without its bottom.
unfoldable pub drop_oldest : List Bytes → List Bytes
drop_oldest [] = []
drop_oldest (s ∷ []) = []
drop_oldest (s ∷ t ∷ stack) = s ∷ drop_oldest (t ∷ stack)

-- `none`: the source would pop from an empty stack, which is undefined.
unfoldable pub push_undo : ℕ → Bytes → List Bytes → Option (List Bytes)
push_undo max s [] = if leb max 0 then none else some (s ∷ [])
push_undo max s (t ∷ stack) =
    if leb max (length (t ∷ stack))
    then some (s ∷ drop_oldest (t ∷ stack))
    else some (s ∷ t ∷ stack)

unfoldable pub failed_warnings : List ReverseResult → List Text
failed_warnings [] = []
failed_warnings (r ∷ results) =
    let rest = failed_warnings results in
    if r.success then rest else (codes "File reverse failed: " ++ r.error_message) ∷ rest

unfoldable pub is_cancelled : RollbackPlan → Option (RollbackPlan → Bool) → Bool
is_cancelled plan none = false
is_cancelled plan (some callback) = plan.requires_confirmation && not (callback plan)

abbrev pub ended_early : Text → RollbackResult
ended_early message = record {
  success = false;
  restored_checkpoint = 0;
  operations_undone = 0;
  time_taken = 0;
  warnings = [];
  error_message = message;
}
