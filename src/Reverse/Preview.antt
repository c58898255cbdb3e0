-- ===== src/Reverse/Preview.antt =====
-- `ReverseExecutor::previewReverse` (src/real_process/reverse_executor.cpp). The offset of an
-- operation is not negative.
use process_snapshot.Prelude.{Text, List, [], ◌∷◌, ◌++◌, codes, to_string, if◌then◌else◌}
use process_snapshot.FileSystem.{FileSystem}
use process_snapshot.FileOperation.Kind.{FileOperationType}
use process_snapshot.FileOperation.Record.{FileOperation}
use process_snapshot.Reverse.Options.{ReverseOptions, should_process}
use process_snapshot.Reverse.Validate.{validate_reverse}
use process_snapshot.Reverse.Batch.{sort_operations}

unfoldable pub action : FileOperationType → FileOperation → Text
action FileOperationType.create o = codes "DELETE " ++ o.path
action FileOperationType.write o =
    codes "RESTORE content of "
    ++ (o.path ++ (codes " (offset: " ++ (to_string o.offset ++ codes ")")))
action FileOperationType.truncate o =
    codes "RESTORE " ++ (o.path ++ (codes " to size " ++ to_string o.original_size))
action FileOperationType.delete o =
    codes "RECREATE " ++ (o.path ++ (codes " (" ++ (to_string o.original_size ++ codes " bytes)")))
action FileOperationType.rename o = codes "RENAME " ++ (o.path ++ (codes " -> " ++ o.original_path))
action FileOperationType.chmod o =
    codes "CHMOD " ++ (o.path ++ (codes " to " ++ to_string o.original_mode))
action FileOperationType.chown o =
    codes "CHOWN "
    ++ (o.path
        ++ (codes " to " ++ (to_string o.original_uid ++ (codes ":" ++ to_string o.original_gid))))
action FileOperationType.mkdir o = codes "RMDIR " ++ o.path
action FileOperationType.rmdir o = codes "MKDIR " ++ o.path
action FileOperationType.symlink o = codes "UNLINK " ++ o.path
action FileOperationType.append o =
    codes "TRUNCATE " ++ (o.path ++ (codes " to " ++ to_string o.original_size))
action (FileOperationType.unnamed n) o = []

unfoldable pub warned : Text → List Text → Text
warned text [] = text
warned text (issue ∷ issues) = text ++ (codes " [WARNING: " ++ (issue ++ codes "]"))

module _ {F : Type 0} (fs : FileSystem F) where
  unfoldable pub preview_all : ReverseOptions → List FileOperation → F → List Text
  unfolding action warned
  preview_all options [] s = []
  preview_all options (o ∷ ops) s =
      let rest = preview_all options ops s in
      if should_process options o
      then warned (action o.type o) (validate_reverse fs o s) ∷ rest
      else rest

  unfoldable pub preview_reverse : ReverseOptions → List FileOperation → F → List Text
  unfolding preview_all
  preview_reverse options ops s = preview_all options (sort_operations options ops) s
