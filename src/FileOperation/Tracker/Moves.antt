-- ===== src/FileOperation/Tracker/Moves.antt =====
-- What `FileOperationTracker` does before and after a deletion, a renaming and a creation
-- (src/real_process/file_operation.cpp).
use process_snapshot.Prelude.{ℕ, Text, Option, none, some, Bool, ◌&&◌, ◌||◌, leb, if◌then◌else◌}
use process_snapshot.Utils.{Timestamp}
use process_snapshot.FileSystem.{FileSystem, Stat}
use process_snapshot.FileOperation.Kind.{FileOperationType}
use process_snapshot.FileOperation.Record.{FileOperation, has_full_backup}
use process_snapshot.FileOperation.Tracker.Filter.{should_track_file}
use process_snapshot.FileOperation.Tracker.PathMap
use process_snapshot.FileOperation.Tracker.{
  FileOperationTracker, started, advance, recorded, with_stat, with_new_size, capture,
}

module _ {F : Type 0} (fs : FileSystem F) where
  -- The backup of a file that is not too large.
  unfoldable pub with_backup :
      Option Stat → Text → F → FileOperationTracker → FileOperation → FileOperation
  unfolding capture
  with_backup none path s t o = o
  with_backup (some st) path s t o =
      if leb st.size t.options.max_file_size
      then record o { original_content = some (capture fs t.options.max_file_size path s) }
      else o

  unfoldable pub before_unlink : Text → Timestamp → F → FileOperationTracker → FileOperationTracker
  unfolding with_stat with_backup started advance
  before_unlink path now s t =
      let o =
        with_backup (fs.stat path s) path s t
          (with_stat (fs.stat path s) (started FileOperationType.delete path now t)) in
      if t.is_tracking && should_track_file t.options path
      then record (advance t) { pending_unlinks = PathMap.insert path o t.pending_unlinks }
      else t

  unfoldable pub after_unlink : Text → Bool → FileOperationTracker → FileOperationTracker
  unfolding recorded
  after_unlink path success t = elim (PathMap.find path t.pending_unlinks) [
    | none ↦ t
    | some o ↦
        if t.is_tracking
        then recorded (record o { is_reversible = success && has_full_backup o; new_size = 0 })
            (record t { pending_unlinks = PathMap.erase path t.pending_unlinks })
        else t
  ]

  unfoldable pub before_rename :
      Text → Text → Timestamp → F → FileOperationTracker → FileOperationTracker
  unfolding with_stat with_backup started advance
  before_rename old_path new_path now s t =
      let o = with_backup (fs.stat new_path s) new_path s t (
        with_stat (fs.stat old_path s) (record (started FileOperationType.rename new_path now t) {
          original_path = old_path;
        })) in
      if t.is_tracking
        && (should_track_file t.options old_path || should_track_file t.options new_path)
      then record (advance t) { pending_renames = PathMap.insert old_path o t.pending_renames }
      else t

  unfoldable pub after_rename : Text → Text → Bool → F → FileOperationTracker → FileOperationTracker
  unfolding with_new_size recorded
  after_rename old_path new_path success s t = elim (PathMap.find old_path t.pending_renames) [
    | none ↦ t
    | some o ↦
        let o' = record o { is_reversible = success } in
        if t.is_tracking
        then recorded (if success then with_new_size (fs.stat new_path s) o' else o')
            (record t { pending_renames = PathMap.erase old_path t.pending_renames })
        else t
  ]

  unfoldable pub before_create : Text → ℕ → Timestamp → FileOperationTracker → FileOperationTracker
  unfolding started advance
  before_create path mode now t =
      let o = record (started FileOperationType.create path now t) { new_mode = mode } in
      if t.is_tracking && should_track_file t.options path
      then record (advance t) { pending_creates = PathMap.insert path o t.pending_creates }
      else t

  unfoldable pub after_create : Text → ℕ → Bool → FileOperationTracker → FileOperationTracker
  unfolding recorded
  after_create path fd success t = elim (PathMap.find path t.pending_creates) [
    | none ↦ t
    | some o ↦
        if t.is_tracking
        then recorded (record o { fd = fd; is_reversible = success })
            (record t { pending_creates = PathMap.erase path t.pending_creates })
        else t
  ]
