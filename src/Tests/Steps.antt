-- ===== src/Tests/Steps.antt =====
-- Single reversals, and the counters of a batch.
use process_snapshot.Prelude.{
  ◌≡◌, ◌<◌, refl, Bytes, Text, [], ◌∷◌, some, true, length, codes, text_eq, arith, ◌+◌,
}
use process_snapshot.FileSystem.Contents.{overwrite, put, fill, slice}
use process_snapshot.Reverse.Steps.{flush, write_diffs, set_size, after_call, reverse_write}
use process_snapshot.Reverse.Batch.{reverse_operations}
use process_snapshot.Reverse.Batch.Counts.{reverse_operations-Complete}
use process_snapshot.Reverse.Restores.Writes.{buffered_diff-longer}
use process_snapshot.Tests.Files.{files, files-IsFileSystem}
use process_snapshot.Tests.Reverse.{
  direct, buffered, path_a, later, dir, difference, writing, history, executor, clock,
}

abbrev path_c : Text
path_c = codes "/c"

buffered-succeeds : (reverse_write (files buffered) writing later).0.success ≡ true
unfolding reverse_write write_diffs set_size after_call flush files text_eq overwrite put fill
buffered-succeeds = refl

buffered_diff-longer_example :
    (r : Bytes) × ((files-IsFileSystem buffered).content
        (reverse_write (files buffered) writing later).1
        path_a
      ≡ some r)
    × 4 < length r
unfolding files-IsFileSystem files text_eq overwrite put slice fill
buffered_diff-longer_example =
    buffered_diff-longer (files buffered) (files-IsFileSystem buffered) dir writing difference
      (1 ∷ 2 ∷ 3 ∷ 4 ∷ []) (9 ∷ 8 ∷ 7 ∷ []) later
      (record {
        one = refl;
        no_backup = refl;
        old_data = refl;
        original_size = refl;
        new_size = refl;
      })
      refl (omega arith) refl buffered-succeeds

reverse_operations-Complete_example :
    let batch = (reverse_operations (files direct) clock 0 0 history (executor, later)).0 in
    (batch.success_count + batch.fail_count + batch.skipped_count ≡ 2)
    × (length batch.results ≡ batch.success_count + batch.fail_count)
reverse_operations-Complete_example =
    reverse_operations-Complete (files direct) clock 0 0 history executor later refl
