-- ===== src/Reverse/Operation.antt =====
-- `ReverseExecutor::createBackup` and `reverseOperation` (src/real_process/reverse_executor.cpp).
use process_snapshot.Prelude.{
  ℕ, ◌+◌, ◌%◌, Text, List, [], ◌∷◌, ◌++◌, Bool, true, false, not, ◌&&◌, codes, to_string,
  if◌then◌else◌,
}
use process_snapshot.Wire.{u64_mod}
use process_snapshot.FileSystem.{FileSystem, Attempt}
use process_snapshot.FileOperation.Record.{FileOperation}
use process_snapshot.Reverse.Options.{
  ReverseResult, ReverseOptions, ReverseExecutor, ok, error, should_process,
}
use process_snapshot.Reverse.Validate.{validate_reverse}
use process_snapshot.Reverse.Steps.{is_empty, reverse_type}

module _ {F : Type 0} (fs : FileSystem F) where
  -- `backupDir + "/" + filename + "." + timestamp + ".bak"`.
  unfoldable pub backup_path : Text → Text → ℕ → Text
  backup_path dir path now =
      dir ++ (codes "/" ++ (fs.filename path ++ (codes "." ++ (to_string now ++ codes ".bak"))))

  unfoldable pub copied : Attempt × F → Bool × F
  copied (Attempt.done b, s) = (true, s)
  copied (Attempt.threw what, s) = (false, s)

  unfoldable pub copy_backup : Text → Text → ℕ → Attempt × F → Bool × F
  unfolding copied backup_path
  copy_backup dir path now (Attempt.threw what, s) = (false, s)
  copy_backup dir path now (Attempt.done b, s) =
      copied (fs.copy_file path (backup_path dir path now) s)

  -- `now` is the reading of the clock in milliseconds.
  unfoldable pub create_backup : Text → Text → ℕ → F → Bool × F
  unfolding copy_backup
  create_backup dir path now s =
      if fs.exists path s then copy_backup dir path now (fs.create_directories dir s) else (true, s)

  -- The reversal behind the backup.
  unfoldable pub reverse_backed_up : FileOperation → Bool × F → ReverseResult × F
  unfolding reverse_type
  reverse_backed_up o (false, s) = (error o.operation_id (codes "Failed to create backup"), s)
  reverse_backed_up o (true, s) = reverse_type fs o.type o s

  -- The backup and the reversal, of an operation without issues.
  unfoldable pub reverse_valid :
      ReverseOptions → FileOperation → ℕ → List Text → F → ReverseResult × F
  unfolding create_backup reverse_backed_up
  reverse_valid options o now (issue ∷ issues) s = (error o.operation_id issue, s)
  reverse_valid options o now [] s =
      if options.dry_run
      then (ok o.operation_id o.path 0, s)
      else reverse_backed_up o (
          if options.create_backups && not (is_empty o.path)
          then create_backup options.backup_dir o.path now s
          else (true, s))

  unfoldable pub reverse_filtered : ReverseOptions → FileOperation → ℕ → F → ReverseResult × F
  unfolding reverse_valid
  reverse_filtered options o now s =
      if should_process options o
      then reverse_valid options o now
          (if options.validate_before_reverse then validate_reverse fs o s else []) s
      else (error o.operation_id (codes "Operation filtered out"), s)

  -- A dry run and an early error return before the counters.
  unfoldable pub counted : Bool → ReverseResult → ReverseExecutor → ReverseExecutor
  counted dry r e =
      if r.success && not dry
      then record e {
        total_reversed = (e.total_reversed + 1) % u64_mod;
        total_bytes_restored = (e.total_bytes_restored + r.bytes_restored) % u64_mod;
      }
      else e

  unfoldable pub reverse_operation :
      FileOperation → ℕ → ReverseExecutor × F → ReverseResult × (ReverseExecutor × F)
  unfolding reverse_filtered counted
  reverse_operation o now (e, s) =
      let (r, s') = reverse_filtered e.options o now s in (r, (counted e.options.dry_run r e, s'))
