-- ===== src/Reverse/Batch.antt =====
-- `ReverseExecutor::reverseOperations`, `reverseToCheckpoint` and `reverseAll`
-- (src/real_process/reverse_executor.cpp). The progress callback, which only reports, is left out.
pub mod Rounds
pub mod Counts
use process_snapshot.Prelude.{
  ℕ, zero, suc, ◌+◌, ◌-◌, ◌/◌, List, [], ◌∷◌, ◌++◌, Bool, true, false, not, ◌&&◌, length, ltb, ◌==◌,
  if◌then◌else◌,
}
use process_snapshot.FileSystem.{FileSystem}
use process_snapshot.FileOperation.Record.{FileOperation}
use process_snapshot.FileOperation.Log.{FileOperationLog, get_operations_since}
use process_snapshot.Reverse.Options.{
  ReverseResult, BatchReverseResult, ReverseOptions, ReverseExecutor, should_process,
}
use process_snapshot.Reverse.Operation.{reverse_operation}

-- `std::sort` by descending timestamps. It leaves the order of equal timestamps open: here it is
-- that of the list.
unfoldable pub insert_operation : FileOperation → List FileOperation → List FileOperation
insert_operation o [] = o ∷ []
insert_operation o (p ∷ sorted) =
    if ltb p.timestamp o.timestamp then o ∷ p ∷ sorted else p ∷ insert_operation o sorted

unfoldable pub sort_newest : List FileOperation → List FileOperation → List FileOperation
unfolding insert_operation
sort_newest [] sorted = sorted
sort_newest (o ∷ ops) sorted = sort_newest ops (insert_operation o sorted)

unfoldable pub sort_operations : ReverseOptions → List FileOperation → List FileOperation
unfolding sort_newest
sort_operations options ops = if options.reverse_newest_first then sort_newest ops [] else ops

abbrev pub empty_result : ℕ → BatchReverseResult
empty_result total = record {
  all_succeeded = false;
  total_operations = total;
  success_count = 0;
  fail_count = 0;
  skipped_count = 0;
  results = [];
  duration = 0;
}

unfoldable pub skip : BatchReverseResult → BatchReverseResult
skip batch = record batch { skipped_count = batch.skipped_count + 1 }

unfoldable pub add_result : ReverseResult → BatchReverseResult → BatchReverseResult
add_result r batch =
    let batch' = record batch { results = batch.results ++ r ∷ [] } in
    if r.success
    then record batch' { success_count = batch.success_count + 1 }
    else record batch' { fail_count = batch.fail_count + 1 }

module _ {F : Type 0} (fs : FileSystem F) (now : ℕ → ℕ) where
  -- The loop; `now i` is the clock reading of its round i.
  unfoldable pub reverse_loop :
      List FileOperation
      → ℕ
      → BatchReverseResult
      → ReverseExecutor × F
      → BatchReverseResult × (ReverseExecutor × F)
  unfolding skip add_result
  reverse_loop [] i batch w = (batch, w)
  reverse_loop (o ∷ ops) i batch (e, s) =
      let (r, w) = reverse_operation fs o (now i) (e, s) in
      let batch' = add_result r batch in
      let skipped = reverse_loop ops (suc i) (skip batch) (e, s) in
      let more = reverse_loop ops (suc i) batch' w in
      if should_process e.options o
      then if not r.success && e.options.stop_on_error then (batch', w) else more
      else skipped

  -- `started` and `ended` are the readings of the steady clock, in nanoseconds.
  unfoldable pub finish_batch :
      ℕ
      → ℕ
      → BatchReverseResult × (ReverseExecutor × F)
      → BatchReverseResult × (ReverseExecutor × F)
  finish_batch started ended (batch, w) = (
    record batch { all_succeeded = batch.fail_count == 0; duration = (ended - started) / 1000000 },
    w,
  )

  unfoldable pub reverse_operations :
      ℕ → ℕ → List FileOperation → ReverseExecutor × F → BatchReverseResult × (ReverseExecutor × F)
  unfolding sort_operations reverse_loop finish_batch
  reverse_operations started ended ops (e, s) =
      finish_batch started ended
        (reverse_loop (sort_operations e.options ops) 0 (empty_result (length ops)) (e, s))

  unfoldable pub reverse_to_checkpoint :
      ℕ
      → ℕ
      → FileOperationLog
      → ℕ
      → ReverseExecutor × F
      → BatchReverseResult × (ReverseExecutor × F)
  reverse_to_checkpoint started ended log id w =
      reverse_operations started ended (get_operations_since id log) w

  unfoldable pub reverse_all :
      ℕ → ℕ → FileOperationLog → ReverseExecutor × F → BatchReverseResult × (ReverseExecutor × F)
  reverse_all started ended log w = reverse_operations started ended log.operations w
