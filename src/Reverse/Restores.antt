-- ===== src/Reverse/Restores.antt =====
-- When the reversal of one operation gives back the contents that the files had before it
-- (src/real_process/reverse_executor.cpp).
pub mod Kinds
pub mod Moves
pub mod Diffs
pub mod Writes
pub mod History
pub mod Tracked
pub mod TrackedWrites
use process_snapshot.Prelude.{
  ℕ, ◌≡◌, ◌≢◌, refl, Bytes, Text, List, [], ◌∷◌, ◌++◌, Option, none, some, Bool, true, false, not,
  ◌&&◌, starts_with, text_eq, text_eq-append, Bool-cases, inl, inr, ◌⊎◌, arith, sym, ◌∙◌, ap, subst,
  codes, if◌then◌else◌,
}
use process_snapshot.FileSystem.{FileSystem, IsFileSystem, Attempt, WriteOutcome}
use process_snapshot.FileOperation.Record.{FileOperation}
use process_snapshot.Reverse.Options.{ReverseResult, ReverseOptions, should_process, ok, error}
use process_snapshot.Reverse.Validate.{validate_reverse}
use process_snapshot.Reverse.Steps.{after_write, after_remove, after_call, reverse_type, is_empty}
use process_snapshot.Reverse.Operation.{
  create_backup, copy_backup, copied, reverse_backed_up, reverse_valid, reverse_filtered,
  backup_path,
}

module _ {F : Type 0} (fs : FileSystem F) (laws : IsFileSystem fs) (dir : Text) where
  -- The same contents in two states, but for the files below the backup directory.
  abbrev pub Same : F → F → Type 0
  Same s t = (q : Text) → starts_with dir q ≡ false → laws.content s q ≡ laws.content t q

  -- From any state with the contents of `s'`, a reversal that succeeds gives those of `s`.
  abbrev pub Restores : FileOperation → F → F → Type 0
  Restores o s s' =
      (t : F)
      → Same s' t
      → (reverse_type fs o.type o t).0.success ≡ true
      → Same s (reverse_type fs o.type o t).1

  copied-state : (w : Attempt × F) → (copied fs w).1 ≡ w.1
  unfolding copied
  copied-state (Attempt.done b, s) = refl
  copied-state (Attempt.threw what, s) = refl

  copy_backup-Same :
      (path : Text) (now : ℕ) (w : Attempt × F) → Same w.1 (copy_backup fs dir path now w).1
  unfolding copy_backup backup_path
  copy_backup-Same path now (Attempt.threw what, s) q h = refl
  copy_backup-Same path now (Attempt.done b, s) q h =
      sym (laws.copy_file_lem path _ q s (text_eq-append q dir _ h))
      ∙ ap (λ u. laws.content u q) (sym (copied-state (fs.copy_file path _ s)))

  create_backup-Same : (path : Text) (now : ℕ) (s : F) → Same s (create_backup fs dir path now s).1
  unfolding create_backup
  create_backup-Same path now s q h = elim (Bool-cases (fs.exists path s)) [
    | inl there ↦ rw there (
        sym (laws.create_directories_lem dir q s)
        ∙ copy_backup-Same path now (fs.create_directories dir s) q h)
    | inr absent ↦ rw absent
  ]

  reverse_backed_up_inv :
      (o : FileOperation) (w : Bool × F)
      → (reverse_backed_up fs o w).0.success ≡ true
      → reverse_backed_up fs o w ≡ reverse_type fs o.type o w.1
  unfolding reverse_backed_up
  reverse_backed_up_inv o (true, s) h = refl
  reverse_backed_up_inv o (false, s) h = absurd (cc)

  -- A reversal that succeeds is that of the type, from a state with the same contents.
  abbrev pub IsReversal : FileOperation → F → ReverseResult × F → Type 0
  IsReversal o s r = (s1 : F) × Same s s1 × (r ≡ reverse_type fs o.type o s1)

  dry_inv :
      (o : FileOperation) (dry : Bool) (w : Bool × F) (s : F)
      → dry ≡ false
      → Same s w.1
      → (if dry then (ok o.operation_id o.path 0, s) else reverse_backed_up fs o w).0.success ≡ true
      → IsReversal o s (if dry then (ok o.operation_id o.path 0, s) else reverse_backed_up fs o w)
  dry_inv o true w s wet same h = absurd (cc)
  dry_inv o false w s wet same h = (w.1, same, reverse_backed_up_inv o w h)

  backup-Same :
      (o : FileOperation) (now : ℕ) (s : F) (backup : Bool)
      → Same s (if backup then create_backup fs dir o.path now s else (true, s)).1
  backup-Same o now s true q h = create_backup-Same o.path now s q h
  backup-Same o now s false q h = refl

  reverse_valid_inv :
      (options : ReverseOptions) (o : FileOperation) (now : ℕ) (issues : List Text) (s : F)
      → options.backup_dir ≡ dir
      → options.dry_run ≡ false
      → (reverse_valid fs options o now issues s).0.success ≡ true
      → IsReversal o s (reverse_valid fs options o now issues s)
  unfolding reverse_valid
  reverse_valid_inv options o now (issue ∷ issues) s e wet h = absurd (cc)
  reverse_valid_inv options o now [] s e wet h =
      let backup = options.create_backups && not (is_empty o.path) in
      let same =
        subst (λ d. Same s (if backup then create_backup fs d o.path now s else (true, s)).1)
          (sym e) (backup-Same o now s backup) in
      dry_inv o options.dry_run
        (if backup then create_backup fs options.backup_dir o.path now s else (true, s)) s wet same
        h

  filter_inv :
      (options : ReverseOptions) (o : FileOperation) (now : ℕ) (issues : List Text) (s : F)
      (process : Bool)
      → options.backup_dir ≡ dir
      → options.dry_run ≡ false
      → let r =
          if process
          then reverse_valid fs options o now issues s
          else (error o.operation_id (codes "Operation filtered out"), s) in
        r.0.success ≡ true → IsReversal o s r
  filter_inv options o now issues s true e wet h = reverse_valid_inv options o now issues s e wet h
  filter_inv options o now issues s false e wet h = absurd (cc)

  pub reverse_filtered_inv :
      (options : ReverseOptions) (o : FileOperation) (now : ℕ) (s : F)
      → options.backup_dir ≡ dir
      → options.dry_run ≡ false
      → (reverse_filtered fs options o now s).0.success ≡ true
      → IsReversal o s (reverse_filtered fs options o now s)
  unfolding reverse_filtered
  reverse_filtered_inv options o now s e wet h =
      filter_inv options o now
        (if options.validate_before_reverse then validate_reverse fs o s else []) s
        (should_process options o) e wet h

  pub after_write_inv :
      (o : FileOperation) (message : Text) (bytes : ℕ) (w : WriteOutcome × F)
      → w.0 ≢ WriteOutcome.failed
      → (after_write fs o message bytes w).0.success ≡ true
      → (w.0 ≡ WriteOutcome.written) × ((after_write fs o message bytes w).1 ≡ w.1)
  unfolding after_write
  after_write_inv o message bytes (WriteOutcome.refused, s) n h = absurd (cc)
  after_write_inv o message bytes (WriteOutcome.failed, s) n h = absurd (n refl)
  after_write_inv o message bytes (WriteOutcome.written, s) n h = (refl, refl)

  pub after_remove_inv :
      (o : FileOperation) (message : Text) (w : Attempt × F)
      → (after_remove fs o message w).0.success ≡ true
      → (w.0 ≡ Attempt.done true) × ((after_remove fs o message w).1 ≡ w.1)
  unfolding after_remove
  after_remove_inv o message (Attempt.done true, s) h = (refl, refl)
  after_remove_inv o message (Attempt.done false, s) h = absurd (cc)
  after_remove_inv o message (Attempt.threw what, s) h = absurd (cc)

  pub after_call_inv :
      (o : FileOperation) (path : Text) (bytes : ℕ) (w : Attempt × F)
      → (after_call fs o path bytes w).0.success ≡ true
      → (b : Bool) × (w.0 ≡ Attempt.done b) × ((after_call fs o path bytes w).1 ≡ w.1)
  unfolding after_call
  after_call_inv o path bytes (Attempt.done b, s) h = (b, refl, refl)
  after_call_inv o path bytes (Attempt.threw what, s) h = absurd (cc)
