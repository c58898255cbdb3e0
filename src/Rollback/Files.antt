-- ===== src/Rollback/Files.antt =====
-- A rollback whose file operations go to the reverse executor: the engine, the log of the tracker
-- and the executor together.
use process_snapshot.Prelude.{
  ℕ, ◌≡◌, ◌<◌, ◌≤◌, refl, Text, List, [], ◌∷◌, Option, none, some, true, false, length, sym, subst,
}
use process_snapshot.Types.{Result, ok}
use process_snapshot.Utils.{Timestamp}
use process_snapshot.State.Checkpoint.{Checkpoint}
use process_snapshot.Storage.{IStorage}
use process_snapshot.Manager.{get_checkpoint, get_current_state}
use process_snapshot.FileSystem.{FileSystem, IsFileSystem}
use process_snapshot.FileOperation.Record.{FileOperation}
use process_snapshot.FileOperation.Log.{
  FileOperationLog, get_operations_since, mark_checkpoint, record_operations,
}
use process_snapshot.FileOperation.Log.Since.{assigned, get_operations_since-mark}
use process_snapshot.Reverse.Options.{BatchReverseResult, ReverseExecutor}
use process_snapshot.Reverse.Batch.{reverse_operations}
use process_snapshot.Reverse.Preview.{preview_reverse}
use process_snapshot.Reverse.Restores.{Same}
use process_snapshot.Reverse.Restores.History.{Restorable, NewestLast, reverse_operations-Same}
use process_snapshot.Logger.{LogEntry, OperationLogger}
use process_snapshot.Rollback.{
  RollbackPlan, RollbackResult, RollbackEngine, Clock, is_cancelled, reverse_files,
  files_to_reverse, finish_rollback, restore, execute_rollback,
}
use process_snapshot.Rollback.Undo.{push_undo_lem}

module _ {F : Type 0} (fs : FileSystem F) (now : ℕ → ℕ) (started ended : ℕ) where
  -- `reverseExecutor->reverseOperations`: the executor keeps its counters.
  abbrev pub executed :
      List FileOperation → ReverseExecutor × F → BatchReverseResult × (ReverseExecutor × F)
  executed ops w = reverse_operations fs now started ended ops w

module _ {S F : Type 0} (fs : FileSystem F) where
  unfoldable pub preview_file_reversal : ℕ → RollbackEngine S → ReverseExecutor × F → List Text
  preview_file_reversal id e (x, s) = elim e.file_log [
    | none ↦ []
    | some log ↦ preview_reverse fs x.options (get_operations_since id log) s
  ]

module _ {S F : Type 0} (storage : IStorage S) (format : LogEntry → Text) (fs : FileSystem F)
    (laws : IsFileSystem fs) (now : ℕ → ℕ) (started ended : ℕ) where
  files_to_reverse-marked :
      (id : ℕ) (ops : List FileOperation) (log : FileOperationLog) (e : RollbackEngine S)
      → e.file_log ≡ some (record_operations ops (mark_checkpoint id log))
      → e.reverse_execution ≡ true
      → files_to_reverse storage format (executed fs now started ended) id e
        ≡ assigned log.next_op_id ops
  unfolding files_to_reverse
  files_to_reverse-marked id ops log e tracked enabled =
      rw (tracked, files_to_reverse) (rw enabled (get_operations_since-mark id ops log))

  reverse_files-Same :
      (ops : List FileOperation) (at : Timestamp) (l : Option OperationLogger × ℕ)
      (x : ReverseExecutor) (s s' : F)
      → x.options.dry_run ≡ false
      → x.options.reverse_newest_first ≡ true
      → NewestLast 0 ops
      → Restorable fs laws x.options.backup_dir s ops s'
      → (executed fs now started ended ops (x, s')).0.all_succeeded ≡ true
      → (executed fs now started ended ops (x, s')).0.skipped_count ≡ 0
      → Same fs laws x.options.backup_dir s
          (reverse_files storage format (executed fs now started ended) ops at (l, (x, s'))).1.1.1
  unfolding reverse_files
  reverse_files-Same [] at l x s s' real newest later h succeeded none_skipped = h
  reverse_files-Same (o ∷ ops) at l x s s' real newest later h succeeded none_skipped =
      reverse_operations-Same fs laws x.options.backup_dir now started ended (o ∷ ops) x s s'
        (refl, real) newest later h succeeded none_skipped

  restore-files :
      (plan : RollbackPlan) (clock : Clock) (e : RollbackEngine S) (counter : ℕ)
      (w : ReverseExecutor × F) (c : Checkpoint)
      → get_checkpoint storage plan.target_checkpoint e.manager ≡ ok c
      → (restore storage format (executed fs now started ended) plan clock ((e, counter), w)).1.1
        ≡ (reverse_files storage format
            (executed fs now started ended)
            (files_to_reverse storage format
              (executed fs now started ended)
              plan.target_checkpoint
              e)
            clock.reversed
            ((e.logger, counter), w)).1.1
  unfolding restore finish_rollback
  restore-files plan clock e counter w c known = rw (known, restore) refl

  -- A rollback that is not cancelled, to a known checkpoint that was marked in the log of the
  -- tracker, where the operations recorded since can each be undone: it returns, and if the executor
  -- reports that all were reversed and skips none, the files have their contents of the checkpoint
  -- again, but for those in the backup directory.
  pub execute_rollback-Same :
      (plan : RollbackPlan) (clock : Clock) (e : RollbackEngine S) (counter : ℕ) (c : Checkpoint)
      (ops : List FileOperation) (log : FileOperationLog) (x : ReverseExecutor) (s s' : F)
      → is_cancelled plan e.confirm ≡ false
      → 0 < e.max_undo_history
      → length e.undo_stack ≤ e.max_undo_history
      → get_checkpoint storage plan.target_checkpoint e.manager ≡ ok c
      → e.file_log ≡ some (record_operations ops (mark_checkpoint plan.target_checkpoint log))
      → e.reverse_execution ≡ true
      → x.options.dry_run ≡ false
      → x.options.reverse_newest_first ≡ true
      → NewestLast 0 (assigned log.next_op_id ops)
      → Restorable fs laws x.options.backup_dir s (assigned log.next_op_id ops) s'
      → (executed fs now started ended (assigned log.next_op_id ops) (x, s')).0.all_succeeded ≡ true
      → (executed fs now started ended (assigned log.next_op_id ops) (x, s')).0.skipped_count ≡ 0
      → (r : Result RollbackResult) × (e' : RollbackEngine S × ℕ) × (x' : ReverseExecutor) × (u : F)
        × (execute_rollback storage format
              (executed fs now started ended)
              plan
              clock
              ((e, counter), (x, s'))
            ≡ some (r, (e', (x', u))))
        × Same fs laws x.options.backup_dir s u
  unfolding execute_rollback get_current_state files_to_reverse
  execute_rollback-Same plan clock e counter c ops log x s s' going positive room known tracked
        enabled real newest later h succeeded none_skipped =
      let (rest, pushed, _) =
        push_undo_lem e.max_undo_history e.manager.current_state e.undo_stack positive room in
      let e1 : RollbackEngine S = record e { undo_stack = e.manager.current_state ∷ rest } in
      let after =
        restore storage format (executed fs now started ended) plan clock
          ((e1, counter), (x, s')) in
      let same = files_to_reverse-marked plan.target_checkpoint ops log e1 tracked enabled in
      (
        after.0,
        after.1.0,
        after.1.1.0,
        after.1.1.1,
        rw (going, pushed, execute_rollback),
        subst (λ u. Same fs laws x.options.backup_dir s u.1)
            (sym (restore-files plan clock e1 counter (x, s') c known))
            (subst
              (λ l.
                Same fs laws x.options.backup_dir s
                  (reverse_files storage format (executed fs now started ended) l clock.reversed
                    ((e1.logger, counter), (x, s'))).1.1.1)
              (sym same)
              (reverse_files-Same (assigned log.next_op_id ops) clock.reversed (e1.logger, counter)
                x s s' real newest later h succeeded none_skipped)),
      )
