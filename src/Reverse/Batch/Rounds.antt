-- ===== src/Reverse/Batch/Rounds.antt =====
-- The rounds of `reverseOperations`: its counters, and the dry run.
use process_snapshot.Prelude.{
  ℕ, suc, ◌+◌, ◌<◌, ◌≤◌, ◌≡◌, refl, List, [], ◌∷◌, Bool, true, false, not, length, ◌&&◌,
  length-append, Bool-cases, inl, inr, arith, sym, ◌∙◌, ap, subst, if◌then◌else◌,
}
use process_snapshot.FileSystem.{FileSystem}
use process_snapshot.FileOperation.Record.{FileOperation}
use process_snapshot.Reverse.Options.{
  ReverseResult, BatchReverseResult, ReverseOptions, ReverseExecutor, should_process,
}
use process_snapshot.Reverse.Operation.{reverse_operation, counted}
use process_snapshot.Reverse.Batch.{
  insert_operation, sort_newest, sort_operations, skip, add_result, reverse_loop,
}

-- The operations that a batch has seen.
abbrev pub seen : BatchReverseResult → ℕ
seen batch = batch.success_count + batch.fail_count + batch.skipped_count

-- Each operation that was processed has a result.
abbrev pub HasResults : BatchReverseResult → Type 0
HasResults batch = length batch.results ≡ batch.success_count + batch.fail_count

-- One batch is later in a loop than the other.
pub record Grows (b c : BatchReverseResult) : Type 0 where
  pub fails : b.fail_count ≤ c.fail_count
  pub skips : b.skipped_count ≤ c.skipped_count

Grows-trans : {a b c : BatchReverseResult} → Grows a b → Grows b c → Grows a c
Grows-trans h k = (record { fails = omega arith; skips = omega arith })

add_result-Grows : (r : ReverseResult) (b : BatchReverseResult) → Grows b (add_result r b)
unfolding add_result
add_result-Grows r b = elim (Bool-cases r.success) [
  | inl passed ↦ rw passed (record { fails = omega arith; skips = omega arith })
  | inr failed ↦ rw failed (record { fails = omega arith; skips = omega arith })
]

pub fail_count-add_result :
    (r : ReverseResult) (b : BatchReverseResult)
    → r.success ≡ false
    → (add_result r b).fail_count ≡ b.fail_count + 1
unfolding add_result
fail_count-add_result r b failed = rw failed refl

pub counts-add_result :
    (r : ReverseResult) (b : BatchReverseResult)
    → r.success ≡ true
    → ((add_result r b).fail_count ≡ b.fail_count)
      × ((add_result r b).skipped_count ≡ b.skipped_count)
unfolding add_result
counts-add_result r b passed = (rw passed refl, rw passed refl)

pub seen-add_result :
    (r : ReverseResult) (b : BatchReverseResult) → seen (add_result r b) ≡ suc (seen b)
unfolding add_result
seen-add_result r b = elim (Bool-cases r.success) [
  | inl passed ↦ rw passed (omega arith)
  | inr failed ↦ rw failed (omega arith)
]

pub add_result-HasResults :
    (r : ReverseResult) (b : BatchReverseResult) → HasResults b → HasResults (add_result r b)
unfolding add_result
add_result-HasResults r b h = elim (Bool-cases r.success) [
  | inl passed ↦ simp passed (omega (arith, length-append b.results (r ∷ []), h))
  | inr failed ↦ simp failed (omega (arith, length-append b.results (r ∷ []), h))
]

length-insert_operation :
    (o : FileOperation) (sorted : List FileOperation)
    → length (insert_operation o sorted) ≡ suc (length sorted)
unfolding insert_operation
length-insert_operation o [] = refl
length-insert_operation o (p ∷ sorted) = ground (arith, length-insert_operation o sorted)

length-sort_newest :
    (ops sorted : List FileOperation) → length (sort_newest ops sorted) ≡ length ops + length sorted
unfolding sort_newest
length-sort_newest [] sorted = omega arith
length-sort_newest (o ∷ ops) sorted =
    omega
      (arith, length-sort_newest ops (insert_operation o sorted), length-insert_operation o sorted)

pub length-sort_operations :
    (options : ReverseOptions) (ops : List FileOperation)
    → length (sort_operations options ops) ≡ length ops
unfolding sort_operations
length-sort_operations options ops = elim (Bool-cases options.reverse_newest_first) [
  | inl passed ↦ rw passed (omega (arith, length-sort_newest ops []))
  | inr failed ↦ rw failed refl
]

module _ {F : Type 0} (fs : FileSystem F) where
  pub options-counted :
      (dry : Bool) (r : ReverseResult) (e : ReverseExecutor)
      → (counted fs dry r e).options ≡ e.options
  unfolding counted
  options-counted dry r e = elim (Bool-cases (r.success && not dry)) [
    | inl passed ↦ rw passed refl
    | inr failed ↦ rw failed refl
  ]

module _ {F : Type 0} (fs : FileSystem F) (now : ℕ → ℕ) where
  abbrev pub after : FileOperation → ℕ → ReverseExecutor × F → ReverseResult × (ReverseExecutor × F)
  after o i w = reverse_operation fs o (now i) w

  pub reverse_loop-skip :
      (o : FileOperation) (ops : List FileOperation) (i : ℕ) (b : BatchReverseResult)
      (e : ReverseExecutor) (s : F)
      → should_process e.options o ≡ false
      → reverse_loop fs now (o ∷ ops) i b (e, s) ≡ reverse_loop fs now ops (suc i) (skip b) (e, s)
  unfolding reverse_loop
  reverse_loop-skip o ops i b e s failed = rw failed refl

  -- The round of an operation that is not skipped: the loop ends, or goes on.
  pub reverse_loop-process :
      (o : FileOperation) (ops : List FileOperation) (i : ℕ) (b : BatchReverseResult)
      (e : ReverseExecutor) (s : F)
      → should_process e.options o ≡ true
      → let (r, w) = after o i (e, s) in
        reverse_loop fs now (o ∷ ops) i b (e, s) ≡ (
          if not r.success && e.options.stop_on_error
          then (add_result r b, w)
          else reverse_loop fs now ops (suc i) (add_result r b) w)
  unfolding reverse_loop
  reverse_loop-process o ops i b e s passed = rw passed refl

  choose-Grows :
      (b : BatchReverseResult) (stop : Bool) (x y : BatchReverseResult × (ReverseExecutor × F))
      → Grows b x.0
      → Grows b y.0
      → Grows b (if stop then x else y).0
  choose-Grows b true x y h k = h
  choose-Grows b false x y h k = k

  pub processed-Grows :
      (o : FileOperation) (ops : List FileOperation) (i : ℕ) (b : BatchReverseResult)
      (e : ReverseExecutor) (s : F)
      → should_process e.options o ≡ true
      → let (r, w) = after o i (e, s) in
        Grows (add_result r b) (reverse_loop fs now ops (suc i) (add_result r b) w).0
        → Grows (add_result r b) (reverse_loop fs now (o ∷ ops) i b (e, s)).0
  processed-Grows o ops i b e s process rest =
      let (r, w) = after o i (e, s) in
      subst (λ x. Grows (add_result r b) x.0) (sym (reverse_loop-process o ops i b e s process))
        (choose-Grows (add_result r b) (not r.success && e.options.stop_on_error)
          (add_result r b, w) (reverse_loop fs now ops (suc i) (add_result r b) w)
          (record { fails = omega arith; skips = omega arith }) rest)

  pub reverse_loop-Grows :
      (ops : List FileOperation) (i : ℕ) (b : BatchReverseResult) (w : ReverseExecutor × F)
      → Grows b (reverse_loop fs now ops i b w).0
  unfolding skip
  reverse_loop-Grows [] i b w =
      unfold reverse_loop in (record { fails = omega arith; skips = omega arith })
  reverse_loop-Grows (o ∷ ops) i b (e, s) =
      let (r, w) = after o i (e, s) in
      elim (Bool-cases (should_process e.options o)) [
        | inl process ↦ Grows-trans (add_result-Grows r b) (
            processed-Grows o ops i b e s process
              (reverse_loop-Grows ops (suc i) (add_result r b) w))
        | inr filtered ↦
            subst (λ x. Grows b x.0) (sym (reverse_loop-skip o ops i b e s filtered))
              (Grows-trans {b = skip b} (record { fails = omega arith; skips = omega arith })
                (reverse_loop-Grows ops (suc i) (skip b) (e, s)))
      ]

  pub reverse_loop-success :
      (o : FileOperation) (ops : List FileOperation) (i : ℕ) (b : BatchReverseResult)
      (e : ReverseExecutor) (s : F)
      → should_process e.options o ≡ true
      → (after o i (e, s)).0.success ≡ true
      → let (r, w) = after o i (e, s) in
        reverse_loop fs now (o ∷ ops) i b (e, s)
        ≡ reverse_loop fs now ops (suc i) (add_result r b) w
  reverse_loop-success o ops i b e s process success =
      let (r, w) = after o i (e, s) in
      reverse_loop-process o ops i b e s process
      ∙ ap
          (λ x.
            if not x && e.options.stop_on_error
            then (add_result r b, w)
            else reverse_loop fs now ops (suc i) (add_result r b) w)
          success

  pub lt_skipped_count :
      (o : FileOperation) (ops : List FileOperation) (i : ℕ) (b : BatchReverseResult)
      (e : ReverseExecutor) (s : F)
      → should_process e.options o ≡ false
      → b.skipped_count < (reverse_loop fs now (o ∷ ops) i b (e, s)).0.skipped_count
  unfolding skip
  lt_skipped_count o ops i b e s filtered =
      let grown = reverse_loop-Grows ops (suc i) (skip b) (e, s) in
      omega
        (arith, grown.skips, ap (λ x. x.0.skipped_count) (reverse_loop-skip o ops i b e s filtered))

  pub lt_fail_count :
      (o : FileOperation) (ops : List FileOperation) (i : ℕ) (b : BatchReverseResult)
      (e : ReverseExecutor) (s : F)
      → should_process e.options o ≡ true
      → (after o i (e, s)).0.success ≡ false
      → b.fail_count < (reverse_loop fs now (o ∷ ops) i b (e, s)).0.fail_count
  lt_fail_count o ops i b e s process failed =
      let (r, w) = after o i (e, s) in
      let grown =
        processed-Grows o ops i b e s process (reverse_loop-Grows ops (suc i) (add_result r b) w) in
      omega (arith, grown.fails, fail_count-add_result r b failed)
