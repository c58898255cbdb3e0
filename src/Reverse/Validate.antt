-- ===== src/Reverse/Validate.antt =====
-- `ReverseExecutor::canReverse` and `validateReverse` (src/real_process/reverse_executor.cpp).
use process_snapshot.Prelude.{
  Text, List, [], ◌∷◌, ◌++◌, Bool, true, false, not, ◌&&◌, ◌||◌, codes, ltb, leb, ◌==◌,
  if◌then◌else◌,
}
use process_snapshot.FileSystem.{FileSystem}
use process_snapshot.FileOperation.Kind.{FileOperationType}
use process_snapshot.FileOperation.Record.{FileOperation, has_full_backup, has_diffs}

module _ {F : Type 0} (fs : FileSystem F) where
  -- The switch of `canReverse`.
  unfoldable pub can_reverse_type : FileOperationType → FileOperation → F → Bool
  can_reverse_type FileOperationType.create o s = fs.exists o.path s
  can_reverse_type FileOperationType.write o s = has_full_backup o || has_diffs o
  can_reverse_type FileOperationType.truncate o s = has_full_backup o || has_diffs o
  can_reverse_type FileOperationType.append o s =
      fs.exists o.path s && ltb o.original_size o.new_size
  can_reverse_type FileOperationType.delete o s = has_full_backup o
  can_reverse_type FileOperationType.rename o s = fs.exists o.path s
  can_reverse_type FileOperationType.chmod o s =
      not (o.original_mode == 0) || (not (o.original_uid == 0) || not (o.original_gid == 0))
  can_reverse_type FileOperationType.chown o s =
      not (o.original_mode == 0) || (not (o.original_uid == 0) || not (o.original_gid == 0))
  can_reverse_type FileOperationType.mkdir o s =
      fs.exists o.path s && (fs.is_directory o.path s && fs.is_empty o.path s)
  can_reverse_type FileOperationType.rmdir o s = true
  can_reverse_type FileOperationType.symlink o s = fs.exists o.path s && fs.is_symlink o.path s
  can_reverse_type (FileOperationType.unnamed n) o s = false

  unfoldable pub can_reverse : FileOperation → F → Bool
  can_reverse o s = o.is_reversible && (not o.was_reversed && can_reverse_type o.type o s)

  -- One `push_back` under a test.
  abbrev pub issue_if : Bool → Text → List Text
  issue_if test issue = if test then issue ∷ [] else []

  -- The switch of `validateReverse`.
  unfoldable pub type_issues : FileOperationType → FileOperation → F → List Text
  type_issues FileOperationType.create o s =
      issue_if (not (fs.exists o.path s)) (codes "File no longer exists: " ++ o.path)
  type_issues FileOperationType.write o s =
      issue_if (not (has_full_backup o) && not (has_diffs o)) (codes "No backup data available")
      ++ issue_if (not (fs.exists o.path s)) (codes "Target file no longer exists: " ++ o.path)
  type_issues FileOperationType.truncate o s =
      issue_if (not (has_full_backup o) && not (has_diffs o)) (codes "No backup data available")
      ++ issue_if (not (fs.exists o.path s)) (codes "Target file no longer exists: " ++ o.path)
  type_issues FileOperationType.append o s =
      issue_if (not (fs.exists o.path s)) (codes "Target file no longer exists: " ++ o.path)
      ++ issue_if (leb o.new_size o.original_size)
          (codes "Invalid size information for append reversal")
  type_issues FileOperationType.delete o s =
      issue_if (not (has_full_backup o)) (codes "No backup data to restore deleted file")
      ++ issue_if (fs.exists o.path s) (codes "File already exists at: " ++ o.path)
  type_issues FileOperationType.rename o s =
      issue_if (not (fs.exists o.path s)) (codes "Renamed file no longer exists: " ++ o.path)
      ++ issue_if (fs.exists o.original_path s)
          (codes "Original path already exists: " ++ o.original_path)
  type_issues _ o s = []

  unfoldable pub validate_reverse : FileOperation → F → List Text
  validate_reverse o s =
      issue_if (not o.is_reversible) (codes "Operation marked as not reversible")
      ++ (issue_if o.was_reversed (codes "Operation already reversed") ++ type_issues o.type o s)
