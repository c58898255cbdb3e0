-- ===== src/Tests/Rollback.antt =====
-- The rollback engine at concrete inputs.
use process_snapshot.Prelude.{
  ℕ, ◌≤◌, ◌≡◌, refl, Bytes, List, [], ◌∷◌, none, some, true, false, codes, length, arith,
}
use process_snapshot.Types.{Result, ok, RollbackStrategy}
use process_snapshot.Manager.{get_current_state}
use process_snapshot.FileOperation.Record.{FileOperation}
use process_snapshot.Reverse.Options.{BatchReverseResult}
use process_snapshot.Rollback.{
  RollbackPlan, RollbackResult, RollbackEngine, Clock, execute_rollback, undo_rollback,
  is_cancelled,
}
use process_snapshot.Rollback.Undo.{execute_rollback_lem, undo_rollback_lem}
use process_snapshot.Tests.Manager.{manager, readings}
use process_snapshot.Tests.Storage.{map_storage}
use process_snapshot.Tests.Logger.{format, logger}

abbrev pub plan : RollbackPlan
plan = record {
  target_checkpoint = 5;
  strategy = RollbackStrategy.full;
  operations_to_undo = logger.operations;
  requires_confirmation = true;
  estimated_time = 30;
  description = codes "back";
}

abbrev pub clock : Clock
clock = record { started = 1; reversed = 2; recorded = 3; logged = 4; ended = 5 }

-- An engine whose user confirms, with a full undo stack.
abbrev pub engine : RollbackEngine (List (ℕ × Bytes))
engine = record {
  manager = manager;
  logger = some logger;
  undo_stack = (7 ∷ []) ∷ (8 ∷ []) ∷ [];
  max_undo_history = 2;
  confirm = some (λ p. true);
  rollback_count = 0;
  total_rollback_time = 0;
  file_log = none;
  reverse_execution = true;
}

-- A reversal that succeeds and counts itself.
abbrev reversal : List FileOperation → ℕ → BatchReverseResult × ℕ
reversal operations files = (
  record {
    results = [];
    success_count = length operations;
    total_operations = length operations;
    all_succeeded = true;
    fail_count = 0;
    skipped_count = 0;
    duration = 0;
  },
  files,
)

pub confirmed : is_cancelled plan engine.confirm ≡ false
unfolding is_cancelled
confirmed = refl

execute_rollback_lem_example :
    (r : Result RollbackResult) × (e' : RollbackEngine (List (ℕ × Bytes))) × (counter' : ℕ)
    × (files' : ℕ) × (execute_rollback map_storage format reversal plan clock ((engine, 1), 0)
        ≡ some (r, ((e', counter'), files')))
    × (e'.manager ≡ manager)
    × ((rest : List Bytes) × (e'.undo_stack ≡ manager.current_state ∷ rest))
    × (length e'.undo_stack ≤ 2)
execute_rollback_lem_example =
    execute_rollback_lem map_storage format reversal plan clock engine 1 0 confirmed (omega arith)
      (omega arith)

undo_rollback_lem_example :
    let e' = (undo_rollback map_storage format reversal readings 3 4 (engine, 1)).1.0 in
    (get_current_state map_storage e'.manager ≡ ok (7 ∷ [])) × (e'.undo_stack ≡ (8 ∷ []) ∷ [])
undo_rollback_lem_example =
    undo_rollback_lem map_storage format reversal readings 3 4 engine 1 (7 ∷ []) ((8 ∷ []) ∷ [])
      refl
