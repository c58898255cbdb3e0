-- ===== src/FileOperation/Log.antt =====
-- `FileOperationLog` (src/real_process/file_operation.cpp): the recorded operations, oldest first,
-- and for each checkpoint how many there were when it was made. A method runs under the mutex.
pub mod Since
pub mod RoundTrip
use process_snapshot.Prelude.{
  ℕ, zero, suc, ◌+◌, ◌-◌, ◌%◌, Bytes, Text, List, [], ◌∷◌, ◌++◌, Option, none, some, Bool, ◌&&◌,
  ◌||◌, length, drop, keep_if, text_eq, ltb, leb, ◌==◌, if◌then◌else◌,
}
use process_snapshot.Wire.{
  Reader, ◌>>=◌, pure, read_bytes, read_short, write_many, u32_bytes, u64_bytes, u64_mod, to_u32,
}
use process_snapshot.OrderedMap
use process_snapshot.State.Checkpoint.{within}
use process_snapshot.FileOperation.Kind.{FileOperationType, type_to_int}
use process_snapshot.FileOperation.Record
use process_snapshot.FileOperation.Record.{FileOperation}

pub record FileOperationLog : Type 0 where
  pub operations : List FileOperation
  pub checkpoint_markers : List (ℕ × ℕ)
  pub next_op_id : ℕ

abbrev pub new : FileOperationLog
new = record { operations = []; checkpoint_markers = []; next_op_id = 1 }

-- The id of the recorded operation, and the log. An operation without an id gets the next one.
unfoldable pub record_operation : FileOperation → FileOperationLog → ℕ × FileOperationLog
record_operation o log =
    if o.operation_id == 0
    then (
      log.next_op_id,
      record log {
        operations = log.operations ++ record o { operation_id = log.next_op_id } ∷ [];
        next_op_id = (log.next_op_id + 1) % u64_mod;
      },
    )
    else (o.operation_id, record log { operations = log.operations ++ o ∷ [] })

unfoldable pub record_operations : List FileOperation → FileOperationLog → FileOperationLog
record_operations [] log = log
record_operations (o ∷ l) log = record_operations l (record_operation o log).1

since_marker : Option ℕ → List FileOperation → List FileOperation
since_marker none operations = operations
since_marker (some start) operations =
    if leb (length operations) start then [] else drop start operations

-- All operations, if the checkpoint is unknown.
unfoldable pub get_operations_since : ℕ → FileOperationLog → List FileOperation
unfolding since_marker
get_operations_since id log =
    since_marker (OrderedMap.find id log.checkpoint_markers) log.operations

unfoldable pub get_operations_for_file : Text → FileOperationLog → List FileOperation
get_operations_for_file path log =
    keep_if (λ o. text_eq o.path path || text_eq o.original_path path) log.operations

unfoldable pub get_operations_by_type : FileOperationType → FileOperationLog → List FileOperation
get_operations_by_type type log =
    keep_if (λ o. type_to_int o.type == type_to_int type) log.operations

unfoldable pub filter_operations : (FileOperation → Bool) → FileOperationLog → List FileOperation
filter_operations predicate log = keep_if predicate log.operations

first_with_id : ℕ → List FileOperation → Option FileOperation
first_with_id id [] = none
first_with_id id (o ∷ l) = if o.operation_id == id then some o else first_with_id id l

unfoldable pub get_operation : ℕ → FileOperationLog → Option FileOperation
unfolding first_with_id
get_operation id log = first_with_id id log.operations

unfoldable pub mark_checkpoint : ℕ → FileOperationLog → FileOperationLog
mark_checkpoint id log = record log {
  checkpoint_markers = OrderedMap.insert id (length log.operations) log.checkpoint_markers;
}

-- The markers that are not behind, counted from the first operation that stays.
shift_markers : ℕ → List (ℕ × ℕ) → List (ℕ × ℕ)
shift_markers count [] = []
shift_markers count ((id, index) ∷ m) =
    let rest = shift_markers count m in if leb count index then (id, index - count) ∷ rest else rest

remove_first : Option ℕ → FileOperationLog → FileOperationLog
remove_first none log = log
remove_first (some count) log =
    if ltb 0 count && leb count (length log.operations)
    then record log {
      operations = drop count log.operations;
      checkpoint_markers = shift_markers count log.checkpoint_markers;
    }
    else log

unfoldable pub clear_operations_before_checkpoint : ℕ → FileOperationLog → FileOperationLog
unfolding shift_markers remove_first
clear_operations_before_checkpoint id log =
    remove_first (OrderedMap.find id log.checkpoint_markers) log

unfoldable pub get_operation_count : FileOperationLog → ℕ
get_operation_count log = length log.operations

-- The counter of the ids goes on.
unfoldable pub clear : FileOperationLog → FileOperationLog
clear log = record log { operations = []; checkpoint_markers = [] }

-- "FOLG" and the version.
abbrev header : Bytes
header = b'F' ∷ b'O' ∷ b'L' ∷ b'G' ∷ 1 ∷ []

write_operation : FileOperation → Bytes
write_operation o = u64_bytes (length (Record.serialize o)) ++ Record.serialize o

write_marker : ℕ × ℕ → Bytes
write_marker (id, index) = u64_bytes id ++ u64_bytes index

unfoldable pub serialize : FileOperationLog → Bytes
unfolding write_operation write_marker
serialize log =
    header
    ++ (u64_bytes (length log.operations)
        ++ (write_many write_operation log.operations
            ++ (u32_bytes (to_u32 (length log.checkpoint_markers))
                ++ write_many write_marker log.checkpoint_markers)))

-- The loop over the operations, `size` being `data.size()`: the position is `size` less what is left.
-- It ends early at the end of the data, and at an operation that is said to reach past it.
read_operations : ℕ → ℕ → FileOperationLog → Reader FileOperationLog
read_operations zero size log s = pure log s
read_operations (suc n) size log s =
    let round =
      (read_short 8 >>= λ op_size rest.
      if ltb size ((size - length rest + op_size) % u64_mod)
      then pure log rest
      else (read_bytes op_size >>= λ op_data. within Record.deserialize op_data >>= λ o.
            read_operations n size (record_operation o log).1)
          rest)
        s in
    if length s == 0 then pure log s else round

read_markers : ℕ → FileOperationLog → Reader FileOperationLog
read_markers zero log s = pure log s
read_markers (suc n) log s =
    let round =
      (read_short 8 >>= λ id. read_short 8 >>= λ index.
      read_markers n
        (record log { checkpoint_markers = OrderedMap.insert id index log.checkpoint_markers }))
        s in
    if length s == 0 then pure log s else round

read_marker_part : FileOperationLog → Reader FileOperationLog
read_marker_part log s =
    let part = (read_short 4 >>= λ count. read_markers count log) s in
    if length s == 0 then pure log s else part

-- What stands behind the first five bytes. Of these the version is not looked at.
read_body : ℕ → Reader FileOperationLog
read_body size = do count ← read_short 8; log ← read_operations count size new; read_marker_part log

-- Data without the header gives an empty log.
unfoldable pub deserialize : Reader FileOperationLog
unfolding read_operations read_markers read_marker_part read_body
deserialize (f ∷ o ∷ l ∷ g ∷ version ∷ s) =
    let body = read_body (5 + length s) s in
    if f == b'F' && (o == b'O' && (l == b'L' && g == b'G')) then body else pure new s
deserialize s = pure new s
