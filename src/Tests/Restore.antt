-- ===== src/Tests/Restore.antt =====
-- A rollback that reverses the history of two operations, and a round of the watch.
use process_snapshot.Prelude.{ℕ, ◌≡◌, refl, Bytes, List, [], ◌∷◌, some, true, codes, arith}
use process_snapshot.Types.{Result, ok}
use process_snapshot.Manager.{StateManager, new, create_checkpoint, get_checkpoint}
use process_snapshot.Manager.Invariant.{Reach, Step}
use process_snapshot.FileOperation.Log
use process_snapshot.FileOperation.Log.{record_operations, mark_checkpoint}
use process_snapshot.OrderedMap
use process_snapshot.Reverse.Options.{ReverseExecutor}
use process_snapshot.Reverse.Restores.{Same}
use process_snapshot.Rollback.{RollbackResult, RollbackEngine, execute_rollback}
use process_snapshot.Rollback.Watch.{AutoRollbackManager, monitor_round, monitor_round_lem}
use process_snapshot.Rollback.Files.{executed, execute_rollback-Same}
use process_snapshot.Tests.Files.{Files, files, files-IsFileSystem}
use process_snapshot.Tests.Manager.{manager, readings}
use process_snapshot.Tests.State.{checkpoint}
use process_snapshot.Tests.Storage.{map_storage}
use process_snapshot.Tests.Logger.{format}
use process_snapshot.Tests.Rollback as Engine
use process_snapshot.Tests.Reverse.{
  direct, before, later, dir, history, executor, clock, history-Restorable, history-NewestLast,
  history-succeeds,
}

abbrev tracked : RollbackEngine (List (ℕ × Bytes))
tracked = record Engine.engine {
  file_log = some (record_operations history (mark_checkpoint 5 Log.new));
}

known : get_checkpoint map_storage 5 manager ≡ ok checkpoint
unfolding get_checkpoint OrderedMap.find
known = refl

execute_rollback-Same_example :
    (r : Result RollbackResult) × (e' : RollbackEngine (List (ℕ × Bytes)) × ℕ)
    × (x' : ReverseExecutor) × (u : Files) × (execute_rollback map_storage format
          (executed (files direct) clock 0 0)
          Engine.plan
          Engine.clock
          ((tracked, 1), (executor, later))
        ≡ some (r, (e', (x', u))))
    × Same (files direct) (files-IsFileSystem direct) dir before u
execute_rollback-Same_example =
    execute_rollback-Same map_storage format (files direct) (files-IsFileSystem direct) clock 0 0
      Engine.plan Engine.clock tracked 1 checkpoint history Log.new executor before later
      Engine.confirmed (omega arith) (omega arith) known refl refl refl refl history-NewestLast
      history-Restorable history-succeeds.0 history-succeeds.1

abbrev used : StateManager (List (ℕ × Bytes)) × ℕ
used = (create_checkpoint map_storage (codes "a") (1 ∷ []) readings (new map_storage [], 1)).1

abbrev watched : RollbackEngine (List (ℕ × Bytes))
watched = record Engine.engine { manager = used.0 }

abbrev watch : AutoRollbackManager
watch = record { enabled = true; check_interval = 5000; running = true }

monitor_round_lem_example :
    monitor_round map_storage format
      (executed (files direct) clock 0 0)
      watch
      Engine.clock
      ((watched, used.1), (executor, later))
    ≡ some ((watched, used.1), (executor, later))
monitor_round_lem_example =
    monitor_round_lem map_storage format (executed (files direct) clock 0 0) watch Engine.clock [] 1
      used.1 watched (executor, later)
      (Reach.next Reach.here (Step.create (codes "a") (1 ∷ []) readings (new map_storage [], 1)))
