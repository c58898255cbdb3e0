-- ===== src/Rollback.antt =====
-- `RollbackEngine` (include/rollback/rollback_engine.hpp, src/rollback/rollback_engine.cpp). The
-- reversal of file operations is a parameter over the state of the files. The progress callback,
-- which only reports, is left out. A shared pointer that may be null is an `Option`.
mod Plan
pub mod Undo
pub mod Partial
pub mod Watch
pub mod Files
pub use Plan.{RollbackPlan, RollbackResult, RollbackEngine, Clock, ended_early}
unfoldable pub use Plan.{operations_since, drop_oldest, push_undo, failed_warnings, is_cancelled}
use process_snapshot.Prelude.{
  ℕ, ◌+◌, ◌-◌, ◌*◌, ◌/◌, Bytes, Text, List, [], ◌∷◌, ◌++◌, Option, none, some, Bool, true, false,
  not, ◌&&◌, codes, length, to_string, ltb, leb, if◌then◌else◌,
}
use process_snapshot.Types.{
  Result, ok, failure, ErrorCode, RollbackStrategy, OperationType, CheckpointStatus,
}
use process_snapshot.Utils.{Timestamp, next_counter}
use process_snapshot.State.OperationRecord.{OperationRecord}
use process_snapshot.State.Checkpoint.{Checkpoint}
use process_snapshot.Storage.{IStorage}
use process_snapshot.Manager.{
  StateManager, Readings, get_checkpoint, get_current_state, get_latest_checkpoint_id,
  create_checkpoint,
}
use process_snapshot.FileOperation.Record.{FileOperation}
use process_snapshot.FileOperation.Log as FileLog
use process_snapshot.FileOperation.Log.{FileOperationLog}
use process_snapshot.Reverse.Options.{BatchReverseResult}
use process_snapshot.Logger
use process_snapshot.Logger.{LogEntry, OperationLogger}

module _ {S F : Type 0} (storage : IStorage S) (format : LogEntry → Text)
    (reverse_operations : List FileOperation → F → BatchReverseResult × F) where
  unfoldable pub create_rollback_plan :
      ℕ → RollbackStrategy → RollbackEngine S → Result RollbackPlan
  create_rollback_plan id strategy e = elim (get_checkpoint storage id e.manager) [
    | failure code message ↦ failure code message
    | ok c ↦
        let operations = operations_since id e.logger in
        ok (record {
          target_checkpoint = id;
          strategy = strategy;
          operations_to_undo = operations;
          requires_confirmation = ltb 10 (length operations);
          estimated_time = length operations * 10;
          description =
              codes "Rollback to checkpoint "
              ++ (to_string id ++ (codes " (" ++ (c.metadata.name ++ codes ")")));
        })
  ]

  unfoldable pub log_info :
      Text → Timestamp → Option OperationLogger × ℕ → Option OperationLogger × ℕ
  log_info message now (none, counter) = (none, counter)
  log_info message now (some l, counter) =
      let (l', counter') = Logger.info format (codes "Rollback") message now (l, counter) in
      (some l', counter')

  unfoldable pub log_rollback :
      Text → ℕ → Timestamp → Timestamp → Option OperationLogger × ℕ → Option OperationLogger × ℕ
  log_rollback description id recorded now (none, counter) = (none, counter)
  log_rollback description id recorded now (some l, counter) =
      let (l', counter') =
        (Logger.log_operation format OperationType.rollback description id recorded now
          (l, counter)).1 in
      (some l', counter')

  -- The part of `executeRollback` on files: the warnings, the logger with the counter, and the files.
  unfoldable pub reverse_files :
      List FileOperation
      → Timestamp
      → (Option OperationLogger × ℕ) × F
      → List Text × ((Option OperationLogger × ℕ) × F)
  reverse_files [] now (logger, files) = ([], (logger, files))
  reverse_files (o ∷ operations) now (logger, files) =
      let (r, files') = reverse_operations (o ∷ operations) files in
      let message =
        codes "Reversed "
        ++ (to_string r.success_count
            ++ (codes "/" ++ (to_string r.total_operations ++ codes " file operations"))) in
      (
        if r.all_succeeded then [] else failed_warnings r.results,
        (log_info message now logger, files'),
      )

  unfoldable pub files_to_reverse : ℕ → RollbackEngine S → List FileOperation
  files_to_reverse id e = elim e.file_log [
    | none ↦ []
    | some log ↦ if e.reverse_execution then FileLog.get_operations_since id log else []
  ]

  -- `executeRollback` behind the check of the target. The loop over the operations only counts them.
  unfoldable pub finish_rollback :
      RollbackPlan
      → Clock
      → (RollbackEngine S × ℕ) × F
      → Result RollbackResult × ((RollbackEngine S × ℕ) × F)
  finish_rollback plan clock ((e, counter), files) =
      let (warnings, (logger, files')) =
        reverse_files (files_to_reverse plan.target_checkpoint e) clock.reversed
          ((e.logger, counter), files) in
      let (logger', counter') =
        log_rollback plan.description plan.target_checkpoint clock.recorded clock.logged logger in
      let time = (clock.ended - clock.started) / 1000000 in
      (
        ok (record {
          success = true;
          restored_checkpoint = plan.target_checkpoint;
          operations_undone = length plan.operations_to_undo;
          time_taken = time;
          warnings = warnings;
          error_message = [];
        }),
        (
          (
            record e {
              logger = logger';
              rollback_count = e.rollback_count + 1;
              total_rollback_time = e.total_rollback_time + time;
            },
            counter',
          ),
          files',
        ),
      )

  -- `executeRollback` behind the confirmation, with the new undo stack.
  unfoldable pub restore :
      RollbackPlan
      → Clock
      → (RollbackEngine S × ℕ) × F
      → Result RollbackResult × ((RollbackEngine S × ℕ) × F)
  restore plan clock ((e, counter), files) =
      elim (get_checkpoint storage plan.target_checkpoint e.manager) [
        | failure code message ↦ (ok (ended_early message), ((e, counter), files))
        | ok c ↦ finish_rollback plan clock ((e, counter), files)
      ]

  unfoldable pub execute_rollback :
      RollbackPlan
      → Clock
      → (RollbackEngine S × ℕ) × F
      → Option (Result RollbackResult × ((RollbackEngine S × ℕ) × F))
  execute_rollback plan clock ((e, counter), files) =
      let pushed : Option (List Bytes) = elim (get_current_state storage e.manager) [
        | failure code message ↦ some e.undo_stack
        | ok s ↦ push_undo e.max_undo_history s e.undo_stack
      ] in
      let done : Option (Result RollbackResult × ((RollbackEngine S × ℕ) × F)) = elim pushed [
        | none ↦ none
        | some stack ↦ some (restore plan clock ((record e { undo_stack = stack }, counter), files))
      ] in
      if is_cancelled plan e.confirm
      then some (ok (ended_early (codes "Rollback cancelled by user")), ((e, counter), files))
      else done

  unfoldable pub rollback_to_checkpoint :
      ℕ
      → Clock
      → (RollbackEngine S × ℕ) × F
      → Option (Result RollbackResult × ((RollbackEngine S × ℕ) × F))
  rollback_to_checkpoint id clock ((e, counter), files) =
      elim (create_rollback_plan id RollbackStrategy.full e) [
        | failure code message ↦ some (ok (ended_early message), ((e, counter), files))
        | ok plan ↦ execute_rollback plan clock ((e, counter), files)
      ]

  unfoldable pub rollback_to_latest :
      Clock
      → (RollbackEngine S × ℕ) × F
      → Option (Result RollbackResult × ((RollbackEngine S × ℕ) × F))
  rollback_to_latest clock ((e, counter), files) =
      elim (get_latest_checkpoint_id storage e.manager) [
        | failure code message ↦ some (ok (ended_early message), ((e, counter), files))
        | ok id ↦ rollback_to_checkpoint id clock ((e, counter), files)
      ]

  unfoldable pub preview_rollback : ℕ → RollbackEngine S → List OperationRecord
  preview_rollback id e = operations_since id e.logger

  unfoldable pub undone : Result ℕ → Result (Unit {0})
  undone (failure code message) = failure code message
  undone (ok id) = ok tt

  unfoldable pub log_undo :
      Result ℕ → Timestamp → Timestamp → Option OperationLogger × ℕ → Option OperationLogger × ℕ
  log_undo (failure code message) recorded now logger = logger
  log_undo (ok id) recorded now logger = log_rollback (codes "Undo rollback") id recorded now logger

  -- The first id that is generated is not used.
  unfoldable pub undo_rollback :
      Readings
      → Timestamp
      → Timestamp
      → RollbackEngine S × ℕ
      → Result (Unit {0}) × (RollbackEngine S × ℕ)
  undo_rollback r recorded now (e, counter) = elim e.undo_stack [
    | [] ↦ (failure ErrorCode.invalid_state (codes "No rollback to undo"), (e, counter))
    | previous ∷ stack ↦
        let (created, (manager, counter')) =
          create_checkpoint storage (codes "UndoRollback") previous r
            (e.manager, next_counter counter) in
        let (logger, last) = log_undo created recorded now (e.logger, counter') in
        (
          undone created,
          (record e { manager = manager; undo_stack = stack; logger = logger }, last),
        )
  ]

  abbrev pub can_undo_rollback : RollbackEngine S → Bool
  can_undo_rollback e = elim e.undo_stack [ [] ↦ false | s ∷ stack ↦ true ]

  unfoldable pub set_max_undo_history : ℕ → RollbackEngine S → RollbackEngine S
  set_max_undo_history count e = record e { max_undo_history = count }
