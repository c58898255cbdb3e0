-- ===== src/Reverse/Batch/Counts.antt =====
-- The counters of a whole batch, and the dry run.
use process_snapshot.Prelude.{
  &&_false, ℕ, suc, ◌+◌, ◌≡◌, refl, List, [], ◌∷◌, Bool, true, false, not, length, ◌&&◌, Text,
  Bool-cases, inl, inr, arith, sym, ◌∙◌, ap, subst, if◌then◌else◌,
}
use process_snapshot.FileSystem.{FileSystem}
use process_snapshot.FileOperation.Record.{FileOperation}
use process_snapshot.Reverse.Options.{
  ReverseResult, BatchReverseResult, ReverseOptions, ReverseExecutor, should_process,
}
use process_snapshot.Reverse.Validate.{validate_reverse}
use process_snapshot.Reverse.Operation.{reverse_valid, reverse_filtered, reverse_operation, counted}
use process_snapshot.Reverse.Batch.{
  sort_operations, empty_result, skip, add_result, reverse_loop, finish_batch, reverse_operations,
}
use process_snapshot.Reverse.Batch.Rounds.{
  seen, HasResults, seen-add_result, add_result-HasResults, length-sort_operations, options-counted,
  after, reverse_loop-skip, reverse_loop-process,
}

module _ {F : Type 0} (fs : FileSystem F) (now : ℕ → ℕ) where
  -- A loop that does not stop at an error sees all its operations.
  abbrev Complete : ℕ → BatchReverseResult → BatchReverseResult → Type 0
  Complete n b done = (seen done ≡ seen b + n) × HasResults done

  reverse_loop-next :
      (o : FileOperation) (ops : List FileOperation) (i : ℕ) (b : BatchReverseResult)
      (e : ReverseExecutor) (s : F)
      → e.options.stop_on_error ≡ false
      → should_process e.options o ≡ true
      → let (r, w) = after fs now o i (e, s) in
        reverse_loop fs now (o ∷ ops) i b (e, s)
        ≡ reverse_loop fs now ops (suc i) (add_result r b) w
  reverse_loop-next o ops i b e s on process =
      let (r, w) = after fs now o i (e, s) in
      reverse_loop-process fs now o ops i b e s process
      ∙ ap
          (λ x.
            if not r.success && x
            then (add_result r b, w)
            else reverse_loop fs now ops (suc i) (add_result r b) w)
          on
      ∙ ap
          (λ x.
            if x then (add_result r b, w) else reverse_loop fs now ops (suc i) (add_result r b) w)
          (&&_false (not r.success))

  reverse_loop-Complete :
      (ops : List FileOperation) (i : ℕ) (b : BatchReverseResult) (e : ReverseExecutor) (s : F)
      → e.options.stop_on_error ≡ false
      → HasResults b
      → Complete (length ops) b (reverse_loop fs now ops i b (e, s)).0
  unfolding reverse_operation counted skip
  reverse_loop-Complete [] i b e s on results = unfold reverse_loop in (omega arith, results)
  reverse_loop-Complete (o ∷ ops) i b e s on results =
      let (r, w) = after fs now o i (e, s) in
      elim (Bool-cases (should_process e.options o)) [
        | inl process ↦
            let (count, results') =
              reverse_loop-Complete ops (suc i) (add_result r b) w.0 w.1
                (ap (λ x. x.stop_on_error) (options-counted fs e.options.dry_run r e) ∙ on)
                (add_result-HasResults r b results) in
            subst (λ x. Complete (length (o ∷ ops)) b x.0)
              (sym (reverse_loop-next o ops i b e s on process))
              (omega (arith, count, seen-add_result r b), results')
        | inr filtered ↦
            let (count, results') = reverse_loop-Complete ops (suc i) (skip b) e s on results in
            subst (λ x. Complete (length (o ∷ ops)) b x.0)
              (sym (reverse_loop-skip fs now o ops i b e s filtered))
              (omega (arith, count), results')
      ]

  -- A batch that does not stop at errors counts each operation once, as reversed, failed or skipped,
  -- and has a result for each that it did not skip.
  pub reverse_operations-Complete :
      (started ended : ℕ) (ops : List FileOperation) (e : ReverseExecutor) (s : F)
      → e.options.stop_on_error ≡ false
      → let batch = (reverse_operations fs now started ended ops (e, s)).0 in
        (batch.success_count + batch.fail_count + batch.skipped_count ≡ length ops)
        × (length batch.results ≡ batch.success_count + batch.fail_count)
  unfolding reverse_operations finish_batch
  reverse_operations-Complete started ended ops e s on =
      let (count, results) =
        reverse_loop-Complete (sort_operations e.options ops) 0 (empty_result (length ops)) e s on
          refl in
      (omega (arith, count, length-sort_operations e.options ops), results)

  counted_dry : (r : ReverseResult) (e : ReverseExecutor) → counted fs true r e ≡ e
  unfolding counted
  counted_dry r e = rw (&&_false r.success) refl

  reverse_valid_dry :
      (options : ReverseOptions) (o : FileOperation) (at : ℕ) (issues : List Text) (s : F)
      → options.dry_run ≡ true
      → (reverse_valid fs options o at issues s).1 ≡ s
  unfolding reverse_valid
  reverse_valid_dry options o at (issue ∷ issues) s dry = refl
  reverse_valid_dry options o at [] s dry = rw dry refl

  reverse_filtered_dry :
      (options : ReverseOptions) (o : FileOperation) (at : ℕ) (s : F)
      → options.dry_run ≡ true
      → (reverse_filtered fs options o at s).1 ≡ s
  unfolding reverse_filtered
  reverse_filtered_dry options o at s dry = elim (Bool-cases (should_process options o)) [
    | inl process ↦ rw process (
        reverse_valid_dry options o at
          (if options.validate_before_reverse then validate_reverse fs o s else []) s dry)
    | inr filtered ↦ rw filtered refl
  ]

  dry_operation :
      (o : FileOperation) (i : ℕ) (e : ReverseExecutor) (s : F)
      → e.options.dry_run ≡ true
      → (after fs now o i (e, s)).1 ≡ (e, s)
  unfolding reverse_operation
  dry_operation o i e s dry =
      let (r, s') = reverse_filtered fs e.options o (now i) s in
      ap (λ d. (counted fs d r e, s')) dry
      ∙ ap (λ x. (x, s')) (counted_dry r e)
      ∙ ap (λ x. (e, x)) (reverse_filtered_dry e.options o (now i) s dry)

  choose_state :
      (stop : Bool) (w : ReverseExecutor × F) (x y : BatchReverseResult × (ReverseExecutor × F))
      → x.1 ≡ w
      → y.1 ≡ w
      → (if stop then x else y).1 ≡ w
  choose_state true w x y h k = h
  choose_state false w x y h k = k

  dry_loop :
      (ops : List FileOperation) (i : ℕ) (b : BatchReverseResult) (e : ReverseExecutor) (s : F)
      → e.options.dry_run ≡ true
      → (reverse_loop fs now ops i b (e, s)).1 ≡ (e, s)
  dry_loop [] i b e s dry = unfold reverse_loop in refl
  dry_loop (o ∷ ops) i b e s dry =
      let (r, w) = after fs now o i (e, s) in
      elim (Bool-cases (should_process e.options o)) [
        | inl process ↦
            ap (λ x. x.1) (reverse_loop-process fs now o ops i b e s process)
            ∙ choose_state (not r.success && e.options.stop_on_error) (e, s) (add_result r b, w)
                (reverse_loop fs now ops (suc i) (add_result r b) w) (dry_operation o i e s dry)
                (ap (λ x. (reverse_loop fs now ops (suc i) (add_result r b) x).1)
                    (dry_operation o i e s dry)
                  ∙ dry_loop ops (suc i) (add_result r b) e s dry)
        | inr filtered ↦
            ap (λ x. x.1) (reverse_loop-skip fs now o ops i b e s filtered)
            ∙ dry_loop ops (suc i) (skip b) e s dry
      ]

  -- A dry run changes neither the files nor the executor.
  pub reverse_operations_dry :
      (started ended : ℕ) (ops : List FileOperation) (e : ReverseExecutor) (s : F)
      → e.options.dry_run ≡ true
      → (reverse_operations fs now started ended ops (e, s)).1 ≡ (e, s)
  unfolding reverse_operations finish_batch
  reverse_operations_dry started ended ops e s dry =
      dry_loop (sort_operations e.options ops) 0 (empty_result (length ops)) e s dry
