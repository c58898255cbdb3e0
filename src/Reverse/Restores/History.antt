-- ===== src/Reverse/Restores/History.antt =====
-- The reversal of a whole history of operations, newest first.
use process_snapshot.Prelude.{
  ℕ, suc, ◌<◌, ◌≤◌, ◌≡◌, refl, Text, List, [], ◌∷◌, Bool, true, false, length, Bool-cases, inl, inr,
  arith, sym, ◌∙◌, ap, reverse_aux, subst, ==_iff,
}
use process_snapshot.FileSystem.{FileSystem, IsFileSystem}
use process_snapshot.FileOperation.Record.{FileOperation}
use process_snapshot.FileOperation.Log.{FileOperationLog, mark_checkpoint, record_operations}
use process_snapshot.FileOperation.Log.Since.{assigned, get_operations_since-mark}
use process_snapshot.Reverse.Options.{
  ReverseResult, BatchReverseResult, ReverseExecutor, should_process,
}
use process_snapshot.Reverse.Operation.{reverse_operation, counted}
use process_snapshot.Reverse.Batch.{
  insert_operation, sort_newest, sort_operations, empty_result, add_result, reverse_loop,
  finish_batch, reverse_operations, reverse_to_checkpoint, reverse_all,
}
use process_snapshot.Reverse.Batch.Rounds.{
  options-counted, reverse_loop-success, lt_skipped_count, lt_fail_count, counts-add_result,
}
use process_snapshot.Reverse.Restores.{Same, Restores, reverse_filtered_inv}

-- Every operation is later than the one before it.
abbrev pub NewestLast : ℕ → List FileOperation → Type 0
NewestLast bound [] = Unit
NewestLast bound (o ∷ ops) = (bound ≤ o.timestamp) × NewestLast (suc o.timestamp) ops

-- The first operation, if there is one, is before the bound.
abbrev FirstBelow : ℕ → List FileOperation → Type 0
FirstBelow bound [] = Unit
FirstBelow bound (o ∷ ops) = o.timestamp < bound

insert_newest :
    (bound : ℕ) (o : FileOperation) (sorted : List FileOperation)
    → bound ≤ o.timestamp
    → FirstBelow bound sorted
    → insert_operation o sorted ≡ o ∷ sorted
unfolding insert_operation
insert_newest bound o [] h below = refl
insert_newest bound o (p ∷ sorted) h below = ground (arith, h, below)

-- Operations that were recorded at different times are sorted as the reverse of the log.
sort_newest-reverse :
    (bound : ℕ) (ops sorted : List FileOperation)
    → NewestLast bound ops
    → FirstBelow bound sorted
    → sort_newest ops sorted ≡ reverse_aux ops sorted
unfolding sort_newest
sort_newest-reverse bound [] sorted later below = refl
sort_newest-reverse bound (o ∷ ops) sorted (h, later) below =
    ap (sort_newest ops) (insert_newest bound o sorted h below)
    ∙ sort_newest-reverse (suc o.timestamp) ops (o ∷ sorted) later (omega arith)

module _ {F : Type 0} (fs : FileSystem F) (laws : IsFileSystem fs) (dir : Text) where
  -- A history of operations, oldest first, that led from one state to another, and of which each
  -- has what its reversal needs.
  abbrev pub Restorable : F → List FileOperation → F → Type 0
  Restorable s [] s' = Same fs laws dir s s'
  Restorable s (o ∷ ops) s' = (u : F) × Restores fs laws dir o s u × Restorable u ops s'

  -- The same, newest first.
  abbrev Undoable : F → List FileOperation → F → Type 0
  Undoable s' [] s = Same fs laws dir s s'
  Undoable s' (o ∷ ops) s = (u : F) × Restores fs laws dir o u s' × Undoable u ops s

  Undoable-Same :
      (ops : List FileOperation) (s v s' : F)
      → Same fs laws dir v s'
      → Undoable v ops s
      → Undoable s' ops s
  Undoable-Same [] s v s' same h = λ q out. h q out ∙ same q out
  Undoable-Same (o ∷ ops) s v s' same (u, restores, rest) =
      (u, λ t same' ok. restores t (λ q out. same q out ∙ same' q out) ok, rest)

  Undoable-reverse_aux :
      (ops done : List FileOperation) (s v s' : F)
      → Restorable v ops s'
      → Undoable v done s
      → Undoable s' (reverse_aux ops done) s
  Undoable-reverse_aux [] done s v s' same h = Undoable-Same done s v s' same h
  Undoable-reverse_aux (o ∷ ops) done s v s' (u, restores, rest) h =
      Undoable-reverse_aux ops (o ∷ done) s u s' rest (v, restores, h)

  -- What the loop needs of the options, which it never changes.
  abbrev IsReal : ReverseExecutor → Type 0
  IsReal e = (e.options.backup_dir ≡ dir) × (e.options.dry_run ≡ false)

  counted-IsReal :
      (dry : Bool) (r : ReverseResult) (e : ReverseExecutor)
      → IsReal e
      → IsReal (counted fs dry r e)
  counted-IsReal dry r e (at, real) =
      let same = options-counted fs dry r e in
      (ap (λ o. o.backup_dir) same ∙ at, ap (λ o. o.dry_run) same ∙ real)

  -- One round that succeeds: the state before the operation.
  reverse_operation-Same :
      (o : FileOperation) (now : ℕ) (e : ReverseExecutor) (u s' t : F)
      → IsReal e
      → Restores fs laws dir o u s'
      → Same fs laws dir s' t
      → (reverse_operation fs o now (e, t)).0.success ≡ true
      → Same fs laws dir u (reverse_operation fs o now (e, t)).1.1
  unfolding reverse_operation
  reverse_operation-Same o now e u s' t (at, real) restores same h =
      let (s1, kept, made) = reverse_filtered_inv fs laws dir e.options o now t at real h in
      λ q out.
        restores s1 (λ p out'. same p out' ∙ kept p out') (sym (ap (λ w. w.0.success) made) ∙ h) q
          out
        ∙ ap (λ w. laws.content w.1 q) (sym made)

  -- A loop that neither fails nor skips gives back the oldest state.
  reverse_loop-Same :
      (now : ℕ → ℕ) (ops : List FileOperation) (i : ℕ) (b : BatchReverseResult)
      (e : ReverseExecutor) (s s' t : F)
      → IsReal e
      → Undoable s' ops s
      → Same fs laws dir s' t
      → (reverse_loop fs now ops i b (e, t)).0.fail_count ≤ b.fail_count
      → (reverse_loop fs now ops i b (e, t)).0.skipped_count ≤ b.skipped_count
      → Same fs laws dir s (reverse_loop fs now ops i b (e, t)).1.1
  unfolding reverse_operation counted
  reverse_loop-Same now [] i b e s s' t real h same fails skips =
      unfold reverse_loop in λ q out. h q out ∙ same q out
  reverse_loop-Same now (o ∷ ops) i b e s s' t real (u, restores, rest) same fails skips =
      elim (Bool-cases (should_process e.options o)) [
        | inr filtered ↦
            absurd (omega (arith, lt_skipped_count fs now o ops i b e t filtered, skips))
        | inl process ↦
            let (r, w) = reverse_operation fs o (now i) (e, t) in
            elim (Bool-cases r.success) [
              | inr failed ↦
                  absurd (omega (arith, lt_fail_count fs now o ops i b e t process failed, fails))
              | inl success ↦
                  let same_loop = reverse_loop-success fs now o ops i b e t process success in
                  let (same_fails, same_skips) = counts-add_result r b success in
                  subst (λ x. Same fs laws dir s x) (ap (λ x. x.1.1) (sym same_loop))
                    (reverse_loop-Same now ops (suc i) (add_result r b) w.0 s u w.1
                      (counted-IsReal e.options.dry_run r e real) rest
                      (reverse_operation-Same o (now i) e u s' t real restores same success)
                      (omega (arith, fails, same_fails, ap (λ x. x.0.fail_count) same_loop))
                      (omega (arith, skips, same_skips, ap (λ x. x.0.skipped_count) same_loop)))
            ]
      ]

  pub reverse_operations-Same :
      (now : ℕ → ℕ) (started ended : ℕ) (ops : List FileOperation) (e : ReverseExecutor) (s s' : F)
      → IsReal e
      → e.options.reverse_newest_first ≡ true
      → NewestLast 0 ops
      → Restorable s ops s'
      → let (batch, (_, u)) = reverse_operations fs now started ended ops (e, s') in
        batch.all_succeeded ≡ true → batch.skipped_count ≡ 0 → Same fs laws dir s u
  unfolding reverse_operations finish_batch sort_operations
  reverse_operations-Same now started ended ops e s s' real newest later h succeeded none_skipped =
      let sorted = sort_operations e.options ops in
      let order : sorted ≡ reverse_aux ops [] = rw newest (sort_newest-reverse 0 ops [] later tt) in
      reverse_loop-Same now sorted 0 (empty_result (length ops)) e s s' s' real
        (subst (λ l. Undoable s' l s) (sym order)
          (Undoable-reverse_aux ops [] s s s' h (λ q out. refl)))
        (λ q out. refl) (omega (arith, (==_iff _ 0).0 succeeded)) (omega (arith, none_skipped))

  -- Where the log leads from one state of the files to another by operations of which each can be
  -- undone, recorded at different times, `reverseAll` with the backups of the files in `dir`, no dry
  -- run and the newest first, when it reports that all succeeded and skips nothing, gives back the
  -- contents of the first state, but for the files in `dir`.
  pub reverse_all-Same :
      (now : ℕ → ℕ) (started ended : ℕ) (log : FileOperationLog) (e : ReverseExecutor) (s s' : F)
      → e.options.backup_dir ≡ dir
      → e.options.dry_run ≡ false
      → e.options.reverse_newest_first ≡ true
      → NewestLast 0 log.operations
      → Restorable s log.operations s'
      → let (batch, (_, u)) = reverse_all fs now started ended log (e, s') in
        batch.all_succeeded ≡ true → batch.skipped_count ≡ 0 → Same fs laws dir s u
  unfolding reverse_all
  reverse_all-Same now started ended log e s s' at real newest later h succeeded none_skipped =
      reverse_operations-Same now started ended log.operations e s s' (at, real) newest later h
        succeeded none_skipped

  -- The same of `reverseToCheckpoint` and the operations recorded since the checkpoint was marked:
  -- it gives back the contents that the files had at the checkpoint.
  pub reverse_to_checkpoint-Same :
      (now : ℕ → ℕ) (started ended id : ℕ) (ops : List FileOperation) (log : FileOperationLog)
      (e : ReverseExecutor) (s s' : F)
      → e.options.backup_dir ≡ dir
      → e.options.dry_run ≡ false
      → e.options.reverse_newest_first ≡ true
      → NewestLast 0 (assigned log.next_op_id ops)
      → Restorable s (assigned log.next_op_id ops) s'
      → let (batch, (_, u)) =
          reverse_to_checkpoint fs now started ended
            (record_operations ops (mark_checkpoint id log))
            id
            (e, s') in
        batch.all_succeeded ≡ true → batch.skipped_count ≡ 0 → Same fs laws dir s u
  unfolding reverse_to_checkpoint
  reverse_to_checkpoint-Same now started ended id ops log e s s' at real newest later h succeeded
        none_skipped =
      let same = sym (get_operations_since-mark id ops log) in
      reverse_operations-Same now started ended _ e s s' (at, real) newest
        (subst (NewestLast 0) same later) (subst (λ l. Restorable s l s') same h) succeeded
        none_skipped
