-- ===== src/Tests/FileOperation.antt =====
-- File operations and their log at concrete inputs.
use process_snapshot.Prelude.{◌≡◌, refl, ◌<◌, [], ◌∷◌, some, codes, length, arith}
use process_snapshot.Wire.{u64_mod, u8_bytes, u32_bytes, u64_bytes, le_bytes, write_many}
use process_snapshot.OrderedMap
use process_snapshot.FileOperation.Record
use process_snapshot.FileOperation.Record.{FileOperation}
use process_snapshot.FileOperation.Record.RoundTrip as RecordTrip
use process_snapshot.FileOperation.Log
use process_snapshot.FileOperation.Log.{
  FileOperationLog, get_operations_since, mark_checkpoint, record_operations,
  clear_operations_before_checkpoint,
}
use process_snapshot.FileOperation.Log.Since.{
  assigned, get_operations_since-mark, get_operations_since-clear,
}
use process_snapshot.FileOperation.Log.RoundTrip as LogTrip

-- A write of two bytes over two others, with a backup.
abbrev write : FileOperation
write = record Record.new {
  operation_id = 3;
  timestamp = 1500000;
  path = codes "a";
  fd = 4;
  original_size = 2;
  new_size = 2;
  original_content = some (1 ∷ 2 ∷ []);
  diffs = record { offset = 0; old_data = 1 ∷ 2 ∷ []; new_data = 5 ∷ 6 ∷ [] } ∷ [];
}

write-IsStorable : RecordTrip.IsStorable write
write-IsStorable = record {
  operation_id = omega arith;
  type = tt;
  timestamp = omega arith;
  path = omega arith;
  original_path = omega arith;
  fd = omega arith;
  offset = omega arith;
  original_size = omega arith;
  new_size = omega arith;
  original_content = omega arith;
  diff_count = omega arith;
  diffs = ((omega arith, omega arith, omega arith), tt);
  original_mode = omega arith;
  new_mode = omega arith;
  original_uid = omega arith;
  original_gid = omega arith;
  new_uid = omega arith;
  new_gid = omega arith;
  description = omega arith;
  pid = omega arith;
}

-- A log with two operations, marked at the start and after the first.
abbrev log : FileOperationLog
log = record {
  operations = write ∷ write ∷ [];
  checkpoint_markers = (5, 0) ∷ (7, 1) ∷ [];
  next_op_id = 4;
}

get_operations_since-mark_example :
    get_operations_since 8 (record_operations (Record.new ∷ write ∷ []) (mark_checkpoint 8 log))
    ≡ assigned 4 (Record.new ∷ write ∷ [])
get_operations_since-mark_example = get_operations_since-mark 8 (Record.new ∷ write ∷ []) log

at_5 : OrderedMap.find 5 log.checkpoint_markers ≡ some 0
unfolding OrderedMap.find
at_5 = refl

at_7 : OrderedMap.find 7 log.checkpoint_markers ≡ some 1
unfolding OrderedMap.find
at_7 = refl

get_operations_since-clear_example :
    get_operations_since 7 (clear_operations_before_checkpoint 7 log) ≡ get_operations_since 7 log
get_operations_since-clear_example =
    get_operations_since-clear 7 7 1 1 log (omega arith, (omega arith, tt)) at_7 at_7 (omega arith)

-- The log with its second operation left out.
abbrev short_log : FileOperationLog
short_log = record log { operations = write ∷ [] }

short_log_size : length (Log.serialize short_log) < u64_mod
unfolding Log.serialize Record.serialize Record.append_string Record.append_bytes Record.append_flag
    Record.append_content Record.append_diff u8_bytes u32_bytes u64_bytes le_bytes write_many
short_log_size = omega arith

deserialize-serialize_log_example :
    Log.deserialize (Log.serialize short_log) ≡ some (LogTrip.stored short_log, [])
deserialize-serialize_log_example = LogTrip.deserialize-serialize_log short_log (record {
  operations = ((write-IsStorable, omega arith), tt);
  sorted = ((omega arith, tt), (tt, tt));
  markers = ((omega arith, omega arith), ((omega arith, omega arith), tt));
  marker_count = omega arith;
  size = short_log_size;
})
