-- ===== src/Tests/Reverse.antt =====
-- A history of two operations and its reversal.
use process_snapshot.Prelude.{
  ℕ, ◌≡◌, refl, Bytes, Text, List, [], ◌∷◌, Option, none, some, Bool, true, false, codes, text_eq,
  starts_with, if◌then◌else◌, ap, ◌∙◌, sym, arith, inl, ◌+◌,
}
use process_snapshot.FileSystem.Contents.{overwrite, put, fill, slice}
use process_snapshot.FileOperation.Kind.{FileOperationType}
use process_snapshot.FileOperation.Record
use process_snapshot.FileOperation.Record.{FileContentDiff, FileOperation}
use process_snapshot.FileOperation.Log
use process_snapshot.FileOperation.Log.{
  FileOperationLog, record_operation, record_operations, mark_checkpoint, get_operations_since,
}
use process_snapshot.FileOperation.Log.Since.{get_operations_since-mark}
use process_snapshot.Reverse.Options.{
  ReverseExecutor, default_options, should_process, is_included, has_type, passes,
}
use process_snapshot.Reverse.Validate.{validate_reverse, type_issues}
use process_snapshot.Reverse.Steps.{
  after_write, restore_full, flush, write_diffs, set_size, after_call, reverse_write, restore_owner,
  recreated, recreate, reverse_delete, reverse_type,
}
use process_snapshot.Reverse.Operation.{
  backup_path, copied, copy_backup, create_backup, reverse_backed_up, reverse_valid,
  reverse_filtered, counted, reverse_operation,
}
use process_snapshot.Reverse.Batch.{
  insert_operation, sort_newest, sort_operations, skip, add_result, reverse_loop, finish_batch,
  reverse_operations, reverse_to_checkpoint,
}
use process_snapshot.Reverse.Restores.{Same, Restores}
use process_snapshot.Reverse.Restores.Kinds.{OnlyAt}
use process_snapshot.Reverse.Restores.Moves.{delete-Restores}
use process_snapshot.Reverse.Restores.Writes.{write_diff-Restores}
use process_snapshot.Reverse.Restores.History.{Restorable, NewestLast, reverse_to_checkpoint-Same}
use process_snapshot.Tests.Files.{Files, put_file, files, files-IsFileSystem}

-- Streams that keep nothing, and streams that keep all.
abbrev pub direct : Bytes → Bool
direct b = false

abbrev pub buffered : Bytes → Bool
buffered b = true

abbrev pub path_a : Text
path_a = codes "/a"

abbrev pub path_b : Text
path_b = codes "/b"

abbrev pub empty : Files
empty q = none

-- The files at the checkpoint, without the second one, and with the first one written to.
abbrev pub before : Files
before = put_file path_a (some (1 ∷ 2 ∷ 3 ∷ 4 ∷ [])) (put_file path_b (some (7 ∷ [])) empty)

abbrev pub between : Files
between = put_file path_b none before

abbrev pub later : Files
later = put_file path_a (some (1 ∷ 2 ∷ 9 ∷ 8 ∷ 7 ∷ [])) between

abbrev deletion : FileOperation
deletion = record Record.new {
  operation_id = 1;
  type = FileOperationType.delete;
  timestamp = 10;
  path = path_b;
  original_size = 1;
  original_content = some (7 ∷ []);
}

abbrev pub difference : FileContentDiff
difference = record { offset = 2; old_data = 3 ∷ 4 ∷ 0 ∷ []; new_data = 9 ∷ 8 ∷ 7 ∷ [] }

abbrev pub writing : FileOperation
writing = record Record.new {
  operation_id = 2;
  timestamp = 20;
  path = path_a;
  original_size = 4;
  new_size = 5;
  diffs = difference ∷ [];
}

abbrev pub executor : ReverseExecutor
executor = record { options = default_options; total_reversed = 0; total_bytes_restored = 0 }

pub put_file-OnlyAt :
    (keeps : Bytes → Bool) (dir p : Text) (d : Option Bytes) (s : Files)
    → OnlyAt (files keeps) (files-IsFileSystem keeps) dir p s (put_file p d s)
unfolding files-IsFileSystem
put_file-OnlyAt keeps dir p d s q away = sym (ap (λ at. if at then d else s q) away)

abbrev pub dir : Text
dir = default_options.backup_dir

deletion-Restores : Restores (files direct) (files-IsFileSystem direct) dir deletion before between
unfolding files-IsFileSystem text_eq
deletion-Restores =
    delete-Restores (files direct) (files-IsFileSystem direct) dir deletion (7 ∷ []) before between
      refl refl refl (put_file-OnlyAt direct dir path_b none before)

writing-Restores : Restores (files direct) (files-IsFileSystem direct) dir writing between later
unfolding files-IsFileSystem files text_eq overwrite put slice fill starts_with
writing-Restores =
    write_diff-Restores (files direct) (files-IsFileSystem direct) dir writing difference
      (1 ∷ 2 ∷ 3 ∷ 4 ∷ []) (9 ∷ 8 ∷ 7 ∷ []) between later refl
      (record {
        one = refl;
        no_backup = refl;
        old_data = refl;
        original_size = refl;
        new_size = refl;
      })
      (inl refl) refl refl refl
      (put_file-OnlyAt direct dir path_a (some (1 ∷ 2 ∷ 9 ∷ 8 ∷ 7 ∷ [])) between)

abbrev pub history : List FileOperation
history = deletion ∷ writing ∷ []

abbrev pub clock : ℕ → ℕ
clock i = 1000 + i

pub history-Restorable :
    Restorable (files direct) (files-IsFileSystem direct) dir before history later
history-Restorable = (between, deletion-Restores, (later, writing-Restores, λ q out. refl))

pub history-NewestLast : NewestLast 0 history
history-NewestLast = (omega arith, (omega arith, tt))

pub history-succeeds :
    ((reverse_operations (files direct) clock 0 0 history (executor, later)).0.all_succeeded ≡ true)
    × ((reverse_operations (files direct) clock 0 0 history (executor, later)).0.skipped_count ≡ 0)
unfolding reverse_operations sort_operations sort_newest insert_operation reverse_loop finish_batch
    should_process is_included has_type passes skip add_result reverse_operation counted
    reverse_filtered reverse_valid validate_reverse type_issues create_backup copy_backup copied
    backup_path reverse_backed_up reverse_type reverse_write reverse_delete recreate recreated
    restore_owner write_diffs set_size after_call flush restore_full after_write files text_eq
    overwrite put fill
history-succeeds = (refl, refl)

abbrev marked : FileOperationLog
marked = record_operations history (mark_checkpoint 5 Log.new)

since-marked : get_operations_since 5 marked ≡ history
since-marked = get_operations_since-mark 5 history Log.new

marked-succeeds :
    ((reverse_to_checkpoint (files direct) clock 0 0 marked 5 (executor, later)).0.all_succeeded
      ≡ true)
    × ((reverse_to_checkpoint (files direct) clock 0 0 marked 5 (executor, later)).0.skipped_count
        ≡ 0)
unfolding reverse_to_checkpoint
marked-succeeds = (
  ap (λ l. (reverse_operations (files direct) clock 0 0 l (executor, later)).0.all_succeeded)
        since-marked
      ∙ history-succeeds.0,
  ap (λ l. (reverse_operations (files direct) clock 0 0 l (executor, later)).0.skipped_count)
        since-marked
      ∙ history-succeeds.1,
)

reverse_to_checkpoint-Same_example :
    Same
      (files direct)
      (files-IsFileSystem direct)
      dir
      before
      (reverse_to_checkpoint (files direct) clock 0 0 marked 5 (executor, later)).1.1
reverse_to_checkpoint-Same_example =
    reverse_to_checkpoint-Same (files direct) (files-IsFileSystem direct) dir clock 0 0 5 history
      Log.new executor before later refl refl refl history-NewestLast history-Restorable
      marked-succeeds.0 marked-succeeds.1
