-- ===== src/FileOperation/Tracker.antt =====
-- `FileOperationTracker` (src/real_process/file_operation.cpp): it is told before and after each
-- change of a file, and records what a reversal needs. A method takes the clock reading that it
-- stores; the start time of a pending operation, which nothing reads, is left out.
pub mod Filter
pub mod PathMap
pub mod Moves
use process_snapshot.Prelude.{
  ℕ, ◌+◌, ◌-◌, ◌%◌, Bytes, Text, List, [], ◌∷◌, Option, none, some, Bool, true, false, not, ◌&&◌,
  ◌||◌, codes, length, ltb, leb, if◌then◌else◌,
}
use process_snapshot.Wire.{u64_mod}
use process_snapshot.Utils.{Timestamp}
use process_snapshot.FileSystem.{FileSystem, Stat}
use process_snapshot.FileSystem.Contents.{slice}
use process_snapshot.FileOperation.Kind.{FileOperationType}
use process_snapshot.FileOperation.Record
use process_snapshot.FileOperation.Record.{
  FileContentDiff, FileOperation, has_full_backup, estimated_memory_usage,
}
use process_snapshot.FileOperation.Log
use process_snapshot.FileOperation.Log.{FileOperationLog}
use process_snapshot.FileOperation.Tracker.Filter.{FileTrackingOptions, should_track_file}
use process_snapshot.FileOperation.Tracker.PathMap

-- `FileOperationTracker::Impl`. A rename is pending under its old path.
pub record FileOperationTracker : Type 0 where
  pub log : FileOperationLog
  pub options : FileTrackingOptions
  pub is_tracking : Bool
  pub tracked_pid : ℕ
  pub next_op_id : ℕ
  pub pending_writes : List (Text × FileOperation)
  pub pending_truncates : List (Text × FileOperation)
  pub pending_unlinks : List (Text × FileOperation)
  pub pending_renames : List (Text × FileOperation)
  pub pending_creates : List (Text × FileOperation)

unfoldable pub new : FileTrackingOptions → FileOperationTracker
new options = record {
  log = Log.new;
  options = options;
  is_tracking = false;
  tracked_pid = 0;
  next_op_id = 1;
  pending_writes = [];
  pending_truncates = [];
  pending_unlinks = [];
  pending_renames = [];
  pending_creates = [];
}

unfoldable pub start_tracking : ℕ → FileOperationTracker → FileOperationTracker
start_tracking pid t = record t { tracked_pid = pid; is_tracking = true }

unfoldable pub stop_tracking : FileOperationTracker → FileOperationTracker
stop_tracking t = record t { is_tracking = false }

unfoldable pub on_checkpoint_created : ℕ → FileOperationTracker → FileOperationTracker
on_checkpoint_created id t = record t { log = Log.mark_checkpoint id t.log }

unfoldable pub get_tracked_operation_count : FileOperationTracker → ℕ
get_tracked_operation_count t = Log.get_operation_count t.log

-- The sizes of the two structs are the compiler's, arguments here.
unfoldable pub sum_usage : ℕ → ℕ → List FileOperation → ℕ
sum_usage operation_size diff_size [] = 0
sum_usage operation_size diff_size (o ∷ ops) =
    estimated_memory_usage operation_size diff_size o + sum_usage operation_size diff_size ops

unfoldable pub get_total_backup_size : ℕ → ℕ → FileOperationTracker → ℕ
get_total_backup_size operation_size diff_size t =
    sum_usage operation_size diff_size t.log.operations

-- The operation that a `before` method starts with.
unfoldable pub started : FileOperationType → Text → Timestamp → FileOperationTracker → FileOperation
started type path now t = record Record.new {
  operation_id = t.next_op_id;
  type = type;
  timestamp = now;
  path = path;
  pid = t.tracked_pid;
}

-- `generateOperationId`: the counter after it.
unfoldable pub advance : FileOperationTracker → FileOperationTracker
advance t = record t { next_op_id = (t.next_op_id + 1) % u64_mod }

unfoldable pub recorded : FileOperation → FileOperationTracker → FileOperationTracker
recorded o t = record t { log = (Log.record_operation o t.log).1 }

-- The size, mode and owner of a file, where `stat` succeeds.
unfoldable pub with_stat : Option Stat → FileOperation → FileOperation
with_stat none o = o
with_stat (some st) o = record o {
  original_size = st.size;
  original_mode = st.mode;
  original_uid = st.uid;
  original_gid = st.gid;
}

unfoldable pub with_new_size : Option Stat → FileOperation → FileOperation
with_new_size none o = o
with_new_size (some st) o = record o { new_size = st.size }

unfoldable pub with_old_data : ℕ → Bytes → FileOperation → FileOperation
with_old_data offset [] o = o
with_old_data offset (b ∷ d) o = record o {
  diffs = record { offset = offset; old_data = b ∷ d; new_data = [] } ∷ o.diffs;
}

unfoldable pub with_new_data : Bytes → List FileContentDiff → List FileContentDiff
with_new_data d [] = []
with_new_data d (diff ∷ diffs) = record diff { new_data = d } ∷ diffs

module _ {F : Type 0} (fs : FileSystem F) where
  -- Both overloads of `captureFileContent`.
  unfoldable pub capture : ℕ → Text → F → Bytes
  capture max path s = elim (fs.read path s) [
    | none ↦ []
    | some d ↦ if ltb max (length d) then [] else d
  ]

  unfoldable pub capture_part : Text → ℕ → ℕ → F → Bytes
  capture_part path offset size s = elim (fs.read path s) [
    | none ↦ []
    | some d ↦ slice d offset size
  ]

  unfoldable pub before_write :
      ℕ → Text → ℕ → ℕ → Timestamp → F → FileOperationTracker → FileOperationTracker
  unfolding with_stat with_old_data capture_part started advance
  before_write fd path offset size now s t =
      let o =
        with_stat (fs.stat path s)
          (record (started FileOperationType.write path now t) { fd = fd; offset = offset }) in
      let o' =
        if leb size t.options.max_file_size
        then with_old_data offset (capture_part path offset size s) o
        else o in
      if t.is_tracking && should_track_file t.options path
      then record (advance t) { pending_writes = PathMap.insert path o' t.pending_writes }
      else t

  -- What `afterWrite` makes of the pending operation.
  unfoldable pub written :
      Text → ℕ → ℕ → Bool → F → FileOperationTracker → FileOperation → FileOperation
  unfolding with_new_size with_new_data capture_part
  written path offset size true s t o =
      let o' = with_new_size (fs.stat path s) o in
      if leb size t.options.max_file_size
      then record o' { diffs = with_new_data (capture_part path offset size s) o'.diffs }
      else o'
  written path offset size false s t o = record o {
    is_reversible = false;
    description = codes "Write failed";
  }

  unfoldable pub after_write :
      ℕ → Text → ℕ → ℕ → Bool → F → FileOperationTracker → FileOperationTracker
  unfolding written recorded
  after_write fd path offset size success s t = elim (PathMap.find path t.pending_writes) [
    | none ↦ t
    | some o ↦
        if t.is_tracking
        then recorded (written path offset size success s t o)
            (record t { pending_writes = PathMap.erase path t.pending_writes })
        else t
  ]

  -- The removed end of a file that becomes shorter.
  unfoldable pub removed_part :
      Option Stat → Text → ℕ → F → FileOperationTracker → FileOperation → FileOperation
  unfolding with_old_data capture_part
  removed_part none path length s t o = o
  removed_part (some st) path length s t o =
      let o1 = record o { original_size = st.size; original_mode = st.mode } in
      let o2 = with_old_data length (capture_part path length (st.size - length) s) o1 in
      if ltb length st.size && leb (st.size - length) t.options.max_file_size then o2 else o1

  unfoldable pub before_truncate :
      Text → ℕ → Timestamp → F → FileOperationTracker → FileOperationTracker
  unfolding removed_part capture started advance
  before_truncate path length now s t =
      let o =
        removed_part (fs.stat path s) path length s t
          (record (started FileOperationType.truncate path now t) { offset = length }) in
      let o' =
        if leb o.original_size t.options.max_file_size
        then record o { original_content = some (capture t.options.max_file_size path s) }
        else o in
      if t.is_tracking && should_track_file t.options path
      then record (advance t) { pending_truncates = PathMap.insert path o' t.pending_truncates }
      else t

  unfoldable pub after_truncate : Text → ℕ → Bool → FileOperationTracker → FileOperationTracker
  unfolding recorded
  after_truncate path length success t = elim (PathMap.find path t.pending_truncates) [
    | none ↦ t
    | some o ↦
        if t.is_tracking
        then recorded
            (record o {
              is_reversible = success && has_full_backup o;
              new_size = if success then length else o.new_size;
            })
            (record t { pending_truncates = PathMap.erase path t.pending_truncates })
        else t
  ]
