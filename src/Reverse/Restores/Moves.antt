-- ===== src/Reverse/Restores/Moves.antt =====
-- The deletions, the renamings and the changes of owner and mode.
use process_snapshot.Prelude.{
  ℕ, ◌≡◌, ◌≢◌, refl, Bytes, Text, Option, none, some, Bool, true, false, length, starts_with,
  text_eq, text_eq→eq, Bool-cases, inl, inr, ◌⊎◌, sym, ◌∙◌, ap, ◌&&◌, subst, if◌then◌else◌, ◌==◌,
}
use process_snapshot.FileSystem.{FileSystem, IsFileSystem, Attempt, WriteOutcome}
use process_snapshot.FileOperation.Kind.{FileOperationType}
use process_snapshot.FileOperation.Record.{FileOperation}
use process_snapshot.Reverse.Steps.{
  after_errno, reverse_delete, recreate, recreated, restore_owner, reverse_rename, renamed_back,
  restore_replaced, reverse_type, reverse_chmod, reverse_chown, is_empty,
}
use process_snapshot.Reverse.Restores.{Same, Restores}
use process_snapshot.Reverse.Restores.Kinds.{OnlyAt, of_type, through, write-Same}

module _ {F : Type 0} (fs : FileSystem F) (laws : IsFileSystem fs) (dir : Text) where
  owned-content :
      (o : FileOperation) (q : Text) (s : F) (mode owner : Bool)
      → let s1 = if mode then s else (fs.chmod o.path o.original_mode s).1 in
        laws.content (if owner then s1 else (fs.chown o.path o.original_uid o.original_gid s1).1) q
        ≡ laws.content s q
  owned-content o q s true true = refl
  owned-content o q s true false = laws.chown_lem o.path q _ _ s
  owned-content o q s false true = laws.chmod_lem o.path q _ s
  owned-content o q s false false = laws.chown_lem o.path q _ _ _ ∙ laws.chmod_lem o.path q _ s

  restore_owner-content :
      (o : FileOperation) (q : Text) (s : F)
      → laws.content (restore_owner fs o s) q ≡ laws.content s q
  unfolding restore_owner
  restore_owner-content o q s =
      owned-content o q s (o.original_mode == 0) (o.original_uid == 0 && o.original_gid == 0)

  recreated_inv :
      (o : FileOperation) (bytes : ℕ) (w : WriteOutcome × F)
      → w.0 ≢ WriteOutcome.failed
      → (recreated fs o bytes w).0.success ≡ true
      → (w.0 ≡ WriteOutcome.written) × ((recreated fs o bytes w).1 ≡ restore_owner fs o w.1)
  unfolding recreated
  recreated_inv o bytes (WriteOutcome.refused, s) n h = absurd (cc)
  recreated_inv o bytes (WriteOutcome.failed, s) n h = absurd (n refl)
  recreated_inv o bytes (WriteOutcome.written, s) n h = (refl, refl)

  recreate-Same :
      (o : FileOperation) (d : Bytes) (s s' : F) (w : Attempt × F)
      → OnlyAt fs laws dir o.path s s'
      → laws.content s o.path ≡ some d
      → Same fs laws dir s' w.1
      → (recreate fs o d w).0.success ≡ true
      → Same fs laws dir s (recreate fs o d w).1
  unfolding recreate
  recreate-Same o d s s' (Attempt.threw what, t) only before same h = absurd (cc)
  recreate-Same o d s s' (Attempt.done b, t) only before same h =
      let (wrote, state) =
        recreated_inv o (length d) (fs.write o.path d t) (laws.write_complete o.path d t) h in
      λ q out.
        write-Same fs laws dir o.path d s s' t only before same wrote q out
        ∙ sym (restore_owner-content o q (fs.write o.path d t).1)
        ∙ ap (λ u. laws.content u q) (sym state)

  parent-Same :
      (parent : Text) (s' t : F) (top : Bool)
      → Same fs laws dir s' t
      → Same fs laws dir s'
          (if top then (Attempt.done true, t) else fs.create_directories parent t).1
  parent-Same parent s' t true same q out = same q out
  parent-Same parent s' t false same q out =
      same q out ∙ sym (laws.create_directories_lem parent q t)

  reverse_delete_full :
      (o : FileOperation) (d : Bytes) (t : F)
      → o.original_content ≡ some d
      → let parent = fs.parent_path o.path in
        reverse_delete fs o t
        ≡ recreate fs o d
            (if is_empty parent then (Attempt.done true, t) else fs.create_directories parent t)
  unfolding reverse_delete
  reverse_delete_full o d t e = rw e refl

  -- A deletion with a backup.
  pub delete-Restores :
      (o : FileOperation) (d : Bytes) (s s' : F)
      → o.type ≡ FileOperationType.delete
      → o.original_content ≡ some d
      → laws.content s o.path ≡ some d
      → OnlyAt fs laws dir o.path s s'
      → Restores fs laws dir o s s'
  unfolding reverse_type
  delete-Restores o d s s' kind e before only = of_type fs laws dir o s s' kind λ t same h.
      let parent = fs.parent_path o.path in
      through fs laws dir s (reverse_delete_full o d t e)
        (recreate-Same o d s s' _ only before (parent-Same parent s' t (is_empty parent) same)) h

  renamed_back_inv :
      (o : FileOperation) (w : Attempt × F)
      → o.original_content ≡ none
      → (renamed_back fs o w).0.success ≡ true
      → (b : Bool) × (w.0 ≡ Attempt.done b) × ((renamed_back fs o w).1 ≡ w.1)
  unfolding renamed_back restore_replaced
  renamed_back_inv o (Attempt.threw what, s) e h = absurd (cc)
  renamed_back_inv o (Attempt.done b, s) e h = (b, refl, rw e refl)

  -- The file is at its old path only.
  moved_back :
      (o : FileOperation) (s s' t u : F)
      → starts_with dir o.path ≡ false
      → laws.content s o.path ≡ none
      → laws.content s' o.path ≡ laws.content s o.original_path
      → ((q : Text)
          → text_eq q o.path ≡ false
          → text_eq q o.original_path ≡ false
          → laws.content s q ≡ laws.content s' q)
      → Same fs laws dir s' t
      → ((q : Text)
          → laws.content u q ≡ (
              if text_eq q o.original_path
              then laws.content t o.path
              else if text_eq q o.path
              then none
              else laws.content t q))
      → Same fs laws dir s u
  moved_back o s s' t u out fresh moved others same back q h =
      elim (Bool-cases (text_eq q o.original_path)) [
        | inl old ↦
            ap (laws.content s) (text_eq→eq q o.original_path old)
            ∙ sym moved
            ∙ same o.path out
            ∙ sym (back q ∙ rw old refl)
        | inr other ↦ elim (Bool-cases (text_eq q o.path)) [
          | inl at ↦
              ap (laws.content s) (text_eq→eq q o.path at)
              ∙ fresh
              ∙ sym (back q ∙ rw other (rw at refl))
          | inr away ↦ others q away other ∙ same q h ∙ sym (back q ∙ rw other (rw away refl))
        ]
      ]

  -- A renaming to a path without a file.
  pub rename-Restores :
      (o : FileOperation) (s s' : F)
      → o.type ≡ FileOperationType.rename
      → o.original_content ≡ none
      → starts_with dir o.path ≡ false
      → laws.content s o.path ≡ none
      → laws.content s' o.path ≡ laws.content s o.original_path
      → ((q : Text)
          → text_eq q o.path ≡ false
          → text_eq q o.original_path ≡ false
          → laws.content s q ≡ laws.content s' q)
      → Restores fs laws dir o s s'
  unfolding reverse_type reverse_rename
  rename-Restores o s s' kind none_kept out fresh moved others =
      of_type fs laws dir o s s' kind λ t same h.
        let w = fs.rename o.path o.original_path t in
        let (b, done, state) = renamed_back_inv o w none_kept h in
        subst (λ u. Same fs laws dir s u) (sym state)
          (moved_back o s s' t w.1 out fresh moved others same
            (λ q. laws.rename_lem o.path o.original_path q t done))

  after_errno-content :
      (o : FileOperation) (q : Text) (s : F) (w : Option Text × F)
      → laws.content w.1 q ≡ laws.content s q
      → laws.content (after_errno fs o w).1 q ≡ laws.content s q
  unfolding after_errno
  after_errno-content o q s (none, u) h = h
  after_errno-content o q s (some message, u) h = h

  -- A change of the mode or of the owner, which leaves the contents.
  pub metadata-Restores :
      (o : FileOperation) (s s' : F)
      → (o.type ≡ FileOperationType.chmod) ⊎ (o.type ≡ FileOperationType.chown)
      → Same fs laws dir s s'
      → Restores fs laws dir o s s'
  unfolding reverse_type reverse_chmod reverse_chown
  metadata-Restores o s s' (inl kind) kept = of_type fs laws dir o s s' kind λ t same h q out.
      kept q out
      ∙ same q out
      ∙ sym (
          after_errno-content o q t (fs.chmod o.path o.original_mode t)
            (laws.chmod_lem o.path q o.original_mode t))
  metadata-Restores o s s' (inr kind) kept = of_type fs laws dir o s s' kind λ t same h q out.
      kept q out
      ∙ same q out
      ∙ sym (
          after_errno-content o q t (fs.chown o.path o.original_uid o.original_gid t)
            (laws.chown_lem o.path q o.original_uid o.original_gid t))
