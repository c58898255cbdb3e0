-- ===== src/Reverse/Steps.antt =====
-- The reversal of each type of operation (src/real_process/reverse_executor.cpp). An exception is
-- caught and becomes an error.
use process_snapshot.Prelude.{
  ℕ, ◌+◌, ◌-◌, ◌%◌, Bytes, Text, List, [], ◌∷◌, Option, none, some, Bool, true, false, ◌&&◌, codes,
  length, reverse, ◌==◌, if◌then◌else◌,
}
use process_snapshot.Wire.{u64_mod}
use process_snapshot.FileSystem.{FileSystem, Attempt, WriteOutcome}
use process_snapshot.FileOperation.Kind.{FileOperationType}
use process_snapshot.FileOperation.Record.{FileContentDiff, FileOperation, has_diffs}
use process_snapshot.Reverse.Options.{ReverseResult, ok, error}

abbrev pub is_empty {ℓ} : {A : Type ℓ} → List A → Bool
is_empty [] = true
is_empty (a ∷ l) = false

module _ {F : Type 0} (fs : FileSystem F) where
  -- What follows an `std::ofstream` with one `write`, of which only the opening is checked.
  unfoldable pub after_write : FileOperation → Text → ℕ → WriteOutcome × F → ReverseResult × F
  after_write o message bytes (WriteOutcome.refused, s) = (error o.operation_id message, s)
  after_write o message bytes (WriteOutcome.failed, s) = (ok o.operation_id o.path bytes, s)
  after_write o message bytes (WriteOutcome.written, s) = (ok o.operation_id o.path bytes, s)

  -- What follows `std::filesystem::remove`.
  unfoldable pub after_remove : FileOperation → Text → Attempt × F → ReverseResult × F
  after_remove o message (Attempt.done true, s) = (ok o.operation_id o.path 0, s)
  after_remove o message (Attempt.done false, s) = (error o.operation_id message, s)
  after_remove o message (Attempt.threw what, s) = (error o.operation_id what, s)

  -- What follows a call that returns nothing.
  unfoldable pub after_call : FileOperation → Text → ℕ → Attempt × F → ReverseResult × F
  after_call o path bytes (Attempt.done b, s) = (ok o.operation_id path bytes, s)
  after_call o path bytes (Attempt.threw what, s) = (error o.operation_id what, s)

  -- What follows `chmod` and `chown`.
  unfoldable pub after_errno : FileOperation → Option Text × F → ReverseResult × F
  after_errno o (none, s) = (ok o.operation_id o.path 0, s)
  after_errno o (some message, s) = (error o.operation_id message, s)

  unfoldable pub restore_full : FileOperation → Bytes → F → ReverseResult × F
  unfolding after_write
  restore_full o d s =
      after_write o (codes "Cannot open file for writing") (length d) (fs.write o.path d s)

  -- The bytes that a stream has in its buffer reach the file.
  unfoldable pub flush : Text → Option (ℕ × Bytes) → F → F
  flush path none s = s
  flush path (some (offset, b)) s = fs.write_at path offset b s

  -- The loop over the differences: each seek flushes what the write before it left in the buffer.
  -- The result is the buffer and the bytes written.
  unfoldable pub write_diffs :
      Text → List FileContentDiff → Option (ℕ × Bytes) → ℕ → F → (Option (ℕ × Bytes) × ℕ) × F
  unfolding flush
  write_diffs path [] buffer bytes s = ((buffer, bytes), s)
  write_diffs path (d ∷ diffs) buffer bytes s =
      let s1 = flush path buffer s in
      let total = bytes + length d.old_data in
      let later = write_diffs path diffs (some (d.offset, d.old_data)) total s1 in
      let now = write_diffs path diffs none total (fs.write_at path d.offset d.old_data s1) in
      if fs.buffers d.old_data then later else now

  -- The end of `reverseWrite`: the size is set before the stream is closed.
  unfoldable pub set_size : FileOperation → (Option (ℕ × Bytes) × ℕ) × F → ReverseResult × F
  unfolding flush after_call
  set_size o ((buffer, bytes), s) =
      let (r, s1) = after_call o o.path bytes (fs.resize o.path o.original_size s) in
      if o.original_size == o.new_size
      then (ok o.operation_id o.path bytes, flush o.path buffer s)
      else (r, flush o.path buffer s1)

  unfoldable pub reverse_write : FileOperation → F → ReverseResult × F
  unfolding restore_full write_diffs set_size
  reverse_write o s = elim o.original_content [
    | some d ↦ restore_full o d s
    | none ↦
        if has_diffs o
        then if fs.can_update o.path s
          then set_size o (write_diffs o.path (reverse o.diffs) none 0 s)
          else (error o.operation_id (codes "Cannot open file for writing"), s)
        else (error o.operation_id (codes "No backup data available"), s)
  ]

  unfoldable pub close_diffs : FileOperation → (Option (ℕ × Bytes) × ℕ) × F → ReverseResult × F
  unfolding flush
  close_diffs o ((buffer, bytes), s) = (ok o.operation_id o.path bytes, flush o.path buffer s)

  unfoldable pub refill : FileOperation → Attempt × F → ReverseResult × F
  unfolding write_diffs close_diffs
  refill o (Attempt.threw what, s) = (error o.operation_id what, s)
  refill o (Attempt.done b, s) =
      if fs.can_update o.path s
      then close_diffs o (write_diffs o.path o.diffs none 0 s)
      else (error o.operation_id (codes "Cannot open file for writing"), s)

  unfoldable pub reverse_truncate : FileOperation → F → ReverseResult × F
  unfolding restore_full refill
  reverse_truncate o s = elim o.original_content [
    | some d ↦ restore_full o d s
    | none ↦
        if has_diffs o
        then refill o (fs.resize o.path o.original_size s)
        else (error o.operation_id (codes "No backup data available"), s)
  ]

  -- The permissions and the owner of a file that was written again; the results are dropped.
  unfoldable pub restore_owner : FileOperation → F → F
  restore_owner o s =
      let s1 = if o.original_mode == 0 then s else (fs.chmod o.path o.original_mode s).1 in
      if o.original_uid == 0 && o.original_gid == 0
      then s1
      else (fs.chown o.path o.original_uid o.original_gid s1).1

  unfoldable pub recreated : FileOperation → ℕ → WriteOutcome × F → ReverseResult × F
  unfolding restore_owner
  recreated o bytes (WriteOutcome.refused, s) =
      (error o.operation_id (codes "Cannot create file"), s)
  recreated o bytes (WriteOutcome.failed, s) = (ok o.operation_id o.path bytes, restore_owner o s)
  recreated o bytes (WriteOutcome.written, s) = (ok o.operation_id o.path bytes, restore_owner o s)

  unfoldable pub recreate : FileOperation → Bytes → Attempt × F → ReverseResult × F
  unfolding recreated
  recreate o d (Attempt.threw what, s) = (error o.operation_id what, s)
  recreate o d (Attempt.done b, s) = recreated o (length d) (fs.write o.path d s)

  unfoldable pub reverse_delete : FileOperation → F → ReverseResult × F
  unfolding recreate
  reverse_delete o s = elim o.original_content [
    | none ↦ (error o.operation_id (codes "No backup data to restore"), s)
    | some d ↦
        let parent = fs.parent_path o.path in
        recreate o d
          (if is_empty parent then (Attempt.done true, s) else fs.create_directories parent s)
  ]

  -- The file that the rename had replaced.
  unfoldable pub restore_replaced : FileOperation → F → F
  restore_replaced o s = elim o.original_content [ none ↦ s | some d ↦ (fs.write o.path d s).1 ]

  unfoldable pub renamed_back : FileOperation → Attempt × F → ReverseResult × F
  unfolding restore_replaced
  renamed_back o (Attempt.threw what, s) = (error o.operation_id what, s)
  renamed_back o (Attempt.done b, s) = (ok o.operation_id o.original_path 0, restore_replaced o s)

  unfoldable pub reverse_rename : FileOperation → F → ReverseResult × F
  unfolding renamed_back
  reverse_rename o s = renamed_back o (fs.rename o.path o.original_path s)

  unfoldable pub made_again : FileOperation → Attempt × F → ReverseResult × F
  made_again o (Attempt.threw what, s) = (error o.operation_id what, s)
  made_again o (Attempt.done b, s) = (
    ok o.operation_id o.path 0,
    if o.original_mode == 0 then s else (fs.chmod o.path o.original_mode s).1,
  )

  unfoldable pub reverse_create : FileOperation → F → ReverseResult × F
  unfolding after_remove
  reverse_create o s = after_remove o (codes "Failed to remove file") (fs.remove o.path s)

  unfoldable pub reverse_chmod : FileOperation → F → ReverseResult × F
  unfolding after_errno
  reverse_chmod o s = after_errno o (fs.chmod o.path o.original_mode s)

  unfoldable pub reverse_chown : FileOperation → F → ReverseResult × F
  unfolding after_errno
  reverse_chown o s = after_errno o (fs.chown o.path o.original_uid o.original_gid s)

  unfoldable pub reverse_mkdir : FileOperation → F → ReverseResult × F
  unfolding after_remove
  reverse_mkdir o s = after_remove o (codes "Failed to remove directory") (fs.remove o.path s)

  unfoldable pub reverse_rmdir : FileOperation → F → ReverseResult × F
  unfolding made_again
  reverse_rmdir o s = made_again o (fs.create_directories o.path s)

  unfoldable pub reverse_symlink : FileOperation → F → ReverseResult × F
  unfolding after_remove
  reverse_symlink o s = after_remove o (codes "Failed to remove symlink") (fs.remove o.path s)

  -- The number of restored bytes is of 64 bits.
  unfoldable pub reverse_append : FileOperation → F → ReverseResult × F
  unfolding after_call
  reverse_append o s =
      after_call o o.path ((o.new_size + u64_mod - o.original_size) % u64_mod)
        (fs.resize o.path o.original_size s)

  -- The switch of `reverseOperation`.
  unfoldable pub reverse_type : FileOperationType → FileOperation → F → ReverseResult × F
  reverse_type FileOperationType.create o s = reverse_create o s
  reverse_type FileOperationType.write o s = reverse_write o s
  reverse_type FileOperationType.truncate o s = reverse_truncate o s
  reverse_type FileOperationType.delete o s = reverse_delete o s
  reverse_type FileOperationType.rename o s = reverse_rename o s
  reverse_type FileOperationType.chmod o s = reverse_chmod o s
  reverse_type FileOperationType.chown o s = reverse_chown o s
  reverse_type FileOperationType.mkdir o s = reverse_mkdir o s
  reverse_type FileOperationType.rmdir o s = reverse_rmdir o s
  reverse_type FileOperationType.symlink o s = reverse_symlink o s
  reverse_type FileOperationType.append o s = reverse_append o s
  reverse_type (FileOperationType.unnamed n) o s =
      (error o.operation_id (codes "Unknown operation type"), s)
