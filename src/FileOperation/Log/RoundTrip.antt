-- ===== src/FileOperation/Log/RoundTrip.antt =====
-- What a stored `FileOperationLog` gives when it is read back.
use process_snapshot.Prelude.{
  ℕ, suc, ◌+◌, ◌-◌, ◌%◌, ◌≤◌, ◌<◌, ◌≡◌, ◌≢◌, refl, Bytes, List, [], ◌∷◌, ◌++◌, map, some, false,
  All, length, length-append, append_assoc, append-nil, ltb, ◌==◌, arith, ap, sym, subst, ◌∙◌,
}
use process_snapshot.Wire.{Reader, pure, u32_mod, u64_mod, u32_bytes, u64_bytes, to_u32, write_many}
use process_snapshot.Wire.Laws.{
  read_short32-bind, read_short64-bind, read_bytes-bind, bind_of_some, length-u32_bytes,
  length-u64_bytes,
}
use process_snapshot.OrderedMap
use process_snapshot.OrderedMap.{IsSorted}
use process_snapshot.State.Checkpoint.RoundTrip.{within-bind}
use process_snapshot.FileOperation.Record
use process_snapshot.FileOperation.Record.{FileOperation}
use process_snapshot.FileOperation.Record.RoundTrip as RecordTrip
use process_snapshot.FileOperation.Log.{
  FileOperationLog, new, record_operation, write_operation, write_marker, serialize,
  read_operations, read_markers, read_marker_part, read_body, deserialize,
}

-- An operation that the log has recorded: it fits the format and has an id.
abbrev pub IsRecorded : FileOperation → Type 0
IsRecorded o = RecordTrip.IsStorable o × (o.operation_id ≢ 0)

abbrev pub IsMarker : ℕ × ℕ → Type 0
IsMarker e = (e.0 < u64_mod) × (e.1 < u64_mod)

pub record IsStorable (log : FileOperationLog) : Type 0 where
  pub operations : All IsRecorded log.operations
  pub sorted : IsSorted log.checkpoint_markers
  pub markers : All IsMarker log.checkpoint_markers
  pub marker_count : length log.checkpoint_markers < u32_mod
  pub size : length (serialize log) < u64_mod

-- What the format keeps: the operations, to the millisecond, and the markers. The counter of the
-- ids starts again.
abbrev pub stored : FileOperationLog → FileOperationLog
stored log = record log { operations = map RecordTrip.stored log.operations; next_op_id = 1 }

record_trip :
    (o : FileOperation)
    → RecordTrip.IsStorable o
    → Record.deserialize (Record.serialize o) ≡ some (RecordTrip.stored o, [])
record_trip o v = rw append-nil at (RecordTrip.deserialize-serialize_operation o [] v)

-- A record that has an id is appended as it is.
record_with_id :
    (o : FileOperation) (log : FileOperationLog)
    → o.operation_id ≢ 0
    → (record_operation o log).1 ≡ record log { operations = log.operations ++ o ∷ [] }
unfolding record_operation
record_with_id o log h = ground arith

-- One round of the loop, with `size` bytes in all.
read_operations-cons :
    (n size : ℕ) (log : FileOperationLog) (o : FileOperation) (rest : Bytes)
    → IsRecorded o
    → length (write_operation o ++ rest) ≤ size
    → size < u64_mod
    → read_operations (suc n) size log (write_operation o ++ rest)
      ≡ read_operations n size
          (record log { operations = log.operations ++ RecordTrip.stored o ∷ [] })
          rest
unfolding read_operations write_operation
read_operations-cons n size log o rest v fits small =
    let d = Record.serialize o in
    let total = length-append (u64_bytes (length d) ++ d) rest in
    let first = length-append (u64_bytes (length d)) d in
    let eight = length-u64_bytes (length d) in
    let behind = length-append d rest in
    let len : length d < u64_mod = omega arith in
    let more : (length (write_operation o ++ rest) == 0) ≡ false = ground arith in
    let whole : ltb size ((size - length (d ++ rest) + length d) % u64_mod) ≡ false =
      ground arith in
    let inner = λ (f : FileOperation → Reader FileOperationLog) (s : Bytes).
      within-bind Record.deserialize d f s (record_trip o v.0) in
    let kept = record_with_id (RecordTrip.stored o) log v.1 in
    rw more (simp (append_assoc, read_short64-bind, len, whole, read_bytes-bind, inner, kept))

read_operations_lem :
    (l : List FileOperation) (size : ℕ) (log : FileOperationLog) (rest : Bytes)
    → All IsRecorded l
    → length (write_many write_operation l ++ rest) ≤ size
    → size < u64_mod
    → read_operations (length l) size log (write_many write_operation l ++ rest)
      ≡ some (record log { operations = log.operations ++ map RecordTrip.stored l }, rest)
unfolding write_many
read_operations_lem [] size log rest v fits small = unfold read_operations pure in rw append-nil
read_operations_lem (o ∷ l) size log rest v fits small =
    let later = write_many write_operation l ++ rest in
    let log' = record log { operations = log.operations ++ RecordTrip.stored o ∷ [] } in
    let fits' : length (write_operation o ++ later) ≤ size = rw append_assoc at fits in
    rw append_assoc (
      read_operations-cons (length l) size log o later v.0 fits' small
      ∙ read_operations_lem l size log' rest v.1
          (omega (arith, length-append (write_operation o) later)) small
      ∙ ap (λ x. some (record log { operations = x }, rest))
          (append_assoc log.operations (RecordTrip.stored o ∷ []) (map RecordTrip.stored l)))

-- Inserting behind the last key appends.
insert_last :
    (k v : ℕ) (m : List (ℕ × ℕ)) → All (λ e. e.0 < k) m → OrderedMap.insert k v m ≡ m ++ (k, v) ∷ []
unfolding OrderedMap.insert
insert_last k v [] h = refl
insert_last k v ((j, w) ∷ m) h = ground (arith, h.0, insert_last k v m h.1)

-- Every key of one list is below every key of another.
abbrev AllBelow : List (ℕ × ℕ) → List (ℕ × ℕ) → Type 0
AllBelow l = All (λ e. All (λ d. d.0 < e.0) l)

AllBelow-snoc :
    (e : ℕ × ℕ) (l m : List (ℕ × ℕ))
    → All (λ d. e.0 < d.0) m
    → AllBelow l m
    → AllBelow (l ++ e ∷ []) m
AllBelow-snoc e l [] h k = tt
AllBelow-snoc e l (d ∷ m) h k = (All-snoc (λ c. c.0 < d.0) e l k.0 h.0, AllBelow-snoc e l m h.1 k.1)
  where
    All-snoc :
        (P : ℕ × ℕ → Type 0) (e : ℕ × ℕ) (l : List (ℕ × ℕ)) → All P l → P e → All P (l ++ e ∷ [])
    All-snoc P e [] h p = (p, tt)
    All-snoc P e (c ∷ l) h p = (h.0, All-snoc P e l h.1 p)

AllBelow-nil : (m : List (ℕ × ℕ)) → AllBelow [] m
AllBelow-nil [] = tt
AllBelow-nil (e ∷ m) = (tt, AllBelow-nil m)

read_markers-cons :
    (n id index : ℕ) (log : FileOperationLog) (rest : Bytes)
    → IsMarker (id, index)
    → read_markers (suc n) log (write_marker (id, index) ++ rest)
      ≡ read_markers n
          (record log { checkpoint_markers = OrderedMap.insert id index log.checkpoint_markers })
          rest
unfolding read_markers write_marker
read_markers-cons n id index log rest v =
    let total = length-append (u64_bytes id ++ u64_bytes index) rest in
    let first = length-append (u64_bytes id) (u64_bytes index) in
    let eight = length-u64_bytes id in
    let more : (length (write_marker (id, index) ++ rest) == 0) ≡ false = ground arith in
    rw more (simp (append_assoc, read_short64-bind, v.0, v.1))

read_markers_lem :
    (m : List (ℕ × ℕ)) (log : FileOperationLog)
    → All IsMarker m
    → IsSorted m
    → AllBelow log.checkpoint_markers m
    → read_markers (length m) log (write_many write_marker m)
      ≡ some (record log { checkpoint_markers = log.checkpoint_markers ++ m }, [])
unfolding write_many
read_markers_lem [] log v sorted below = unfold read_markers pure in rw append-nil
read_markers_lem ((id, index) ∷ m) log v sorted below =
    let old = log.checkpoint_markers in
    let log' = record log { checkpoint_markers = old ++ (id, index) ∷ [] } in
    read_markers-cons (length m) id index log (write_many write_marker m) v.0
    ∙ ap
        (λ x.
          read_markers (length m) (record log { checkpoint_markers = x })
            (write_many write_marker m))
        (insert_last id index old below.0)
    ∙ read_markers_lem m log' v.1 sorted.1 (AllBelow-snoc (id, index) old m sorted.0 below.1)
    ∙ ap (λ x. some (record log { checkpoint_markers = x }, []))
        (append_assoc old ((id, index) ∷ []) m)

read_marker_part_lem :
    (m : List (ℕ × ℕ)) (log : FileOperationLog)
    → log.checkpoint_markers ≡ []
    → All IsMarker m
    → IsSorted m
    → length m < u32_mod
    → read_marker_part log (u32_bytes (to_u32 (length m)) ++ write_many write_marker m)
      ≡ some (record log { checkpoint_markers = m }, [])
unfolding read_marker_part
read_marker_part_lem m log none_yet v sorted small =
    let count : to_u32 (length m) ≡ length m = omega arith in
    let total = length-append (u32_bytes (length m)) (write_many write_marker m) in
    let four = length-u32_bytes (length m) in
    let more : (length (u32_bytes (length m) ++ write_many write_marker m) == 0) ≡ false =
      ground arith in
    let below = subst (λ l. AllBelow l m) (sym none_yet) (AllBelow-nil m) in
    let markers = read_markers_lem m log v sorted below in
    rw count (
      rw more (
        simp (read_short32-bind, small)
          (markers ∙ ap (λ l. some (record log { checkpoint_markers = l ++ m }, [])) none_yet)))

length-write_operations :
    (l : List FileOperation) → length l ≤ length (write_many write_operation l)
unfolding write_many write_operation
length-write_operations [] = omega arith
length-write_operations (o ∷ l) =
    let d = Record.serialize o in
    omega (
      arith,
      length-append (u64_bytes (length d) ++ d) (write_many write_operation l),
      length-append (u64_bytes (length d)) d,
      length-u64_bytes (length d),
      length-write_operations l,
    )

-- What stands behind the header and the version.
abbrev body : FileOperationLog → Bytes
body log =
    u64_bytes (length log.operations)
    ++ (write_many write_operation log.operations
        ++ (u32_bytes (to_u32 (length log.checkpoint_markers))
            ++ write_many write_marker log.checkpoint_markers))

read_body_lem :
    (log : FileOperationLog) (size : ℕ)
    → IsStorable log
    → length (body log) ≤ size
    → size < u64_mod
    → read_body size (body log) ≡ some (stored log, [])
unfolding read_body
read_body_lem log size v fits small =
    let l = log.operations in
    let ops = write_many write_operation l in
    let m = log.checkpoint_markers in
    let markers = u32_bytes (to_u32 (length m)) ++ write_many write_marker m in
    let all = length-append (u64_bytes (length l)) (ops ++ markers) in
    let both = length-append ops markers in
    let each = length-write_operations l in
    let count : length l < u64_mod = omega arith in
    let fits' : length (ops ++ markers) ≤ size = omega arith in
    let read = record new { operations = map RecordTrip.stored l } in
    read_short64-bind (length l) (ops ++ markers) _ count
    ∙ bind_of_some (read_operations (length l) size new) read_marker_part (ops ++ markers)
        (read_operations_lem l size new markers v.operations fits' small)
    ∙ read_marker_part_lem m read refl v.markers v.sorted v.marker_count

-- A log that is written and read back has its operations, to the millisecond, and its markers; its
-- ids start again from 1.
pub deserialize-serialize_log :
    (log : FileOperationLog) → IsStorable log → deserialize (serialize log) ≡ some (stored log, [])
unfolding deserialize serialize
deserialize-serialize_log log v =
    let small : 5 + length (body log) < u64_mod = omega (arith, v.size) in
    read_body_lem log (5 + length (body log)) v (omega arith) small
