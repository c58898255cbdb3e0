-- ===== src/Logger/Queries.antt =====
-- What the queries of the logger return.
use process_snapshot.Prelude.{
  ℕ, zero, suc, ◌-◌, ◌≡◌, ◌≢◌, refl, List, [], ◌∷◌, ◌++◌, true, false, All, length, take, take-drop,
  length-drop, reverse, keep_if, leb, min, arith, ap,
}
use process_snapshot.Types.{LogLevel, level_to_int}
use process_snapshot.State.OperationRecord.{OperationRecord}
use process_snapshot.Logger.{
  LogEntry, OperationLogger, newest, get_entries, get_operation_history, since_checkpoint,
  get_operations_since,
}

newest_lem :
    (count : ℕ) (level : LogLevel) (entries : List LogEntry)
    → newest count level entries
      ≡ take count (keep_if (λ e. leb (level_to_int level) (level_to_int e.level)) entries)
unfolding newest keep_if
newest_lem zero level entries = refl
newest_lem (suc count) level [] = refl
newest_lem (suc count) level (e ∷ entries) =
    ground (arith, newest_lem count level entries, newest_lem (suc count) level entries)

-- `getEntries` returns the first `max_count` of the entries of the given level or above, the newest
-- first.
pub get_entries_lem :
    (level : LogLevel) (max_count : ℕ) (l : OperationLogger)
    → get_entries level max_count l
      ≡ take max_count
          (keep_if (λ e. leb (level_to_int level) (level_to_int e.level)) (reverse l.entries))
unfolding get_entries
get_entries_lem level max_count l = newest_lem max_count level (reverse l.entries)

-- `getOperationHistory` returns the end of the list of operations, as long as it is asked for but
-- no longer than there are operations.
pub get_operation_history_lem :
    (max_count : ℕ) (l : OperationLogger)
    → (older : List OperationRecord) × (older ++ get_operation_history max_count l ≡ l.operations)
      × (length (get_operation_history max_count l) ≡ min max_count (length l.operations))
unfolding get_operation_history
get_operation_history_lem max_count l =
    let n = length l.operations - min max_count (length l.operations) in
    (take n l.operations, take-drop n l.operations, omega (arith, length-drop n l.operations))

since_found : (id : ℕ) (ops : List OperationRecord) → since_checkpoint id true ops ≡ ops
unfolding since_checkpoint
since_found id [] = refl
since_found id (op ∷ ops) = ap (λ x. op ∷ x) (since_found id ops)

since_later :
    (id : ℕ) (xs ops : List OperationRecord)
    → All (λ op. op.related_checkpoint ≢ id) xs
    → since_checkpoint id false (xs ++ ops) ≡ since_checkpoint id false ops
unfolding since_checkpoint
since_later id [] ops h = refl
since_later id (x ∷ xs) ops h = ground (arith, h.0, since_later id xs ops h.1)

-- `getOperationsSince` returns the operations from the first one on that is related to the
-- checkpoint, that one included.
pub get_operations_since_lem :
    (id : ℕ) (xs ys : List OperationRecord) (op : OperationRecord) (l : OperationLogger)
    → l.operations ≡ xs ++ op ∷ ys
    → All (λ x. x.related_checkpoint ≢ id) xs
    → op.related_checkpoint ≡ id
    → get_operations_since id l ≡ op ∷ ys
unfolding get_operations_since since_checkpoint
get_operations_since_lem id xs ys op l shape before related =
    rw shape (ground (arith, since_later id xs (op ∷ ys) before, since_found id ys))
