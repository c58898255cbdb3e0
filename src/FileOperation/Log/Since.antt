-- ===== src/FileOperation/Log/Since.antt =====
-- Checkpoint markers and ids of the log.
use process_snapshot.Prelude.{
  ℕ, zero, suc, ◌+◌, ◌-◌, ◌%◌, ◌≤◌, ◌≡◌, refl, List, [], ◌∷◌, ◌++◌, some, All, length, drop,
  length-append, drop-append, length-drop, append_assoc, append-nil, leb, ◌==◌, if◌then◌else◌,
  arith, ap, ap₂, ◌∙◌, Bool-cases, inl, inr,
}
use process_snapshot.Wire.{u64_mod}
use process_snapshot.OrderedMap
use process_snapshot.OrderedMap.Laws.{find-insert, All-find, All-insert}
use process_snapshot.FileOperation.Record.{FileOperation}
use process_snapshot.FileOperation.Log.{
  FileOperationLog, record_operation, record_operations, since_marker, get_operations_since,
  mark_checkpoint, shift_markers, remove_first, clear_operations_before_checkpoint,
}

-- The operations as they are recorded, from the next id on.
abbrev pub assigned : ℕ → List FileOperation → List FileOperation
assigned next [] = []
assigned next (o ∷ l) =
    let fresh = record o { operation_id = next } ∷ assigned ((next + 1) % u64_mod) l in
    let kept = o ∷ assigned next l in if o.operation_id == 0 then fresh else kept

operations-record :
    (l : List FileOperation) (log : FileOperationLog)
    → (record_operations l log).operations ≡ log.operations ++ assigned log.next_op_id l
unfolding record_operations record_operation
operations-record [] log = rw append-nil
operations-record (o ∷ l) log =
    let next = log.next_op_id in
    ground (
      arith,
      operations-record l (record_operation o log).1,
      append_assoc log.operations (record o { operation_id = next } ∷ [])
          (assigned ((next + 1) % u64_mod) l),
      append_assoc log.operations (o ∷ []) (assigned next l),
    )

markers-record :
    (l : List FileOperation) (log : FileOperationLog)
    → (record_operations l log).checkpoint_markers ≡ log.checkpoint_markers
unfolding record_operations record_operation
markers-record [] log = refl
markers-record (o ∷ l) log = elim (Bool-cases (o.operation_id == 0)) [
  | inl unset ↦ rw (unset, record_operations) (markers-record l _)
  | inr set ↦ rw (set, record_operations) (markers-record l _)
]

drop-marker :
    (ops more : List FileOperation) → since_marker (some (length ops)) (ops ++ more) ≡ more
unfolding since_marker
drop-marker ops [] = rw append-nil (ground (arith))
drop-marker ops (o ∷ more) =
    ground (arith, length-append ops (o ∷ more), drop-append ops (o ∷ more))

-- After a checkpoint is marked, `getOperationsSince` returns exactly the operations that were
-- recorded behind the mark, in their order, with the ids they were given.
pub get_operations_since-mark :
    (id : ℕ) (l : List FileOperation) (log : FileOperationLog)
    → get_operations_since id (record_operations l (mark_checkpoint id log))
      ≡ assigned log.next_op_id l
unfolding get_operations_since mark_checkpoint
get_operations_since-mark id l log =
    let marked = mark_checkpoint id log in
    let found : OrderedMap.find id marked.checkpoint_markers ≡ some (length log.operations) =
      ground (arith, find-insert id id (length log.operations) log.checkpoint_markers) in
    ap₂ (λ m o. since_marker (OrderedMap.find id m) o) (markers-record l marked)
      (operations-record l marked)
    ∙ ap (λ x. since_marker x (log.operations ++ assigned log.next_op_id l)) found
    ∙ drop-marker log.operations (assigned log.next_op_id l)

-- No marker lies behind the end of the operations.
abbrev pub IsMarked : FileOperationLog → Type 0
IsMarked log = All (λ e. e.1 ≤ length log.operations) log.checkpoint_markers

pub mark_checkpoint-IsMarked :
    (id : ℕ) (log : FileOperationLog) → IsMarked log → IsMarked (mark_checkpoint id log)
unfolding mark_checkpoint
mark_checkpoint-IsMarked id log h =
    All-insert (λ e. e.1 ≤ length log.operations) id (length log.operations) log.checkpoint_markers
      (omega arith) h

find-shift_markers :
    (count j : ℕ) (m : List (ℕ × ℕ)) {index : ℕ}
    → OrderedMap.find j m ≡ some index
    → count ≤ index
    → OrderedMap.find j (shift_markers count m) ≡ some (index - count)
unfolding shift_markers OrderedMap.find
find-shift_markers count j [] found le = cc
find-shift_markers count j ((i, x) ∷ m) {index} found le = elim (Bool-cases (leb count x)) [
  | inl stays ↦ rw stays (ground (arith, find-shift_markers count j m {index = index}))
  | inr goes ↦ rw goes (ground (arith, find-shift_markers count j m {index = index}))
]

drop_nil : (n : ℕ) → drop {A = FileOperation} n [] ≡ []
drop_nil zero = refl
drop_nil (suc n) = refl

drop-drop : (n k : ℕ) (l : List FileOperation) → n ≤ k → drop (k - n) (drop n l) ≡ drop k l
drop-drop zero k l h = ap (λ x. drop x l) (omega arith)
drop-drop (suc n) zero l h = absurd (omega arith)
drop-drop (suc n) (suc k) [] h = drop_nil (suc k - suc n)
drop-drop (suc n) (suc k) (o ∷ l) h =
    let e : suc k - suc n ≡ k - n = omega arith in rw e (drop-drop n k l (omega arith))

-- Dropping the operations before one checkpoint changes nothing for a checkpoint that was marked
-- with it or behind it.
pub get_operations_since-clear :
    (id j count index : ℕ) (log : FileOperationLog)
    → IsMarked log
    → OrderedMap.find id log.checkpoint_markers ≡ some count
    → OrderedMap.find j log.checkpoint_markers ≡ some index
    → count ≤ index
    → get_operations_since j (clear_operations_before_checkpoint id log)
      ≡ get_operations_since j log
unfolding get_operations_since clear_operations_before_checkpoint
get_operations_since-clear id j count index log marked at_id at_j le =
    let within = All-find (λ e. e.1 ≤ length log.operations) j log.checkpoint_markers marked at_j in
    rw (at_id, remove_first)
      (ground (
        arith,
        within,
        at_j,
        find-shift_markers count j log.checkpoint_markers at_j le,
        length-drop count log.operations,
        drop-drop count index log.operations le,
      ))
