-- ===== src/Logger.antt =====
-- `OperationLogger` (src/logger/operation_logger.cpp) with asynchronous logging off or on: a part
-- of a method that holds the mutex, and each access without it, is a step. An
-- output is the list of the texts that were written to it. How an entry is formatted is a
-- parameter, since a formatter is an object that a caller supplies.
pub mod Queries
pub mod Steps
pub mod Switching
pub mod Writing
use process_snapshot.Prelude.{
  ℕ, zero, suc, ◌+◌, ◌-◌, Bytes, Text, List, [], ◌∷◌, ◌++◌, Option, none, some, Bool, true, false,
  ◌&&◌, ◌||◌, codes, reverse, length, drop, keep_if, map, to_string, ltb, leb, min, ◌==◌,
  if◌then◌else◌,
}
use process_snapshot.Types.{LogLevel, OperationType, level_to_int}
use process_snapshot.Utils.{Timestamp, next_counter}
use process_snapshot.State.OperationRecord.{OperationRecord}

-- Without the `context`, which nothing in the logger fills.
pub record LogEntry : Type 0 where
  pub id : ℕ
  pub level : LogLevel
  pub timestamp : Timestamp
  pub category : Text
  pub message : Text
  pub file : Text
  pub line : ℕ

-- Where the thread of `asyncLoop` is: at the test of its outer loop, at `cv.wait`, behind it with
-- the mutex, or without the mutex and with an entry that it took from the queue.
pub data Thread : Type 0 where
  absent testing waiting draining ended : Thread
  writing : LogEntry → Thread

-- `OperationLogger::Impl` without its mutex and its condition variable.
pub record OperationLogger : Type 0 where
  pub min_level : LogLevel
  pub outputs : List (List Text)
  pub entries : List LogEntry
  pub operations : List OperationRecord
  pub async_enabled : Bool
  pub pending_entries : List LogEntry
  pub async_thread : Thread
  pub running : Bool

-- The constructor: one output, the console.
abbrev pub new : OperationLogger
new = record {
  min_level = LogLevel.info;
  outputs = [] ∷ [];
  entries = [];
  operations = [];
  async_enabled = false;
  pending_entries = [];
  async_thread = Thread.absent;
  running = false;
}

unfoldable pub set_min_level : LogLevel → OperationLogger → OperationLogger
set_min_level level l = record l { min_level = level }

unfoldable pub add_output : List Text → OperationLogger → OperationLogger
add_output output l = record l { outputs = l.outputs ++ output ∷ [] }

-- How far a call of `enableAsync` has come, which holds no mutex: other calls run between its
-- writes and before the thread ends.
pub data Control : Type 0 where
  idle enabling spawning joining disabling : Control

-- The test and the write to `running`, and then the writes behind it one by one.
unfoldable pub enable_async : Bool → OperationLogger → OperationLogger × Control
enable_async true l =
    if l.running then (l, Control.idle) else (record l { running = true }, Control.enabling)
enable_async false l =
    if l.running then (record l { running = false }, Control.joining) else (l, Control.idle)

-- `join`, if the thread is joinable: it waits for the end of the thread.
unfoldable pub join : Thread → OperationLogger → OperationLogger × Control
join Thread.absent l = (l, Control.disabling)
join Thread.ended l = (record l { async_thread = Thread.absent }, Control.disabling)
join Thread.testing l = (l, Control.joining)
join Thread.waiting l = (l, Control.joining)
join Thread.draining l = (l, Control.joining)
join (Thread.writing entry) l = (l, Control.joining)

unfoldable pub enable_async_next : Control → OperationLogger → OperationLogger × Control
enable_async_next Control.idle l = (l, Control.idle)
enable_async_next Control.enabling l = (record l { async_enabled = true }, Control.spawning)
enable_async_next Control.spawning l = (record l { async_thread = Thread.testing }, Control.idle)
enable_async_next Control.joining l = join l.async_thread l
enable_async_next Control.disabling l = (record l { async_enabled = false }, Control.idle)

-- The names in the switch of `logOperation`. Another value has none.
unfoldable pub type_name : OperationType → Text
type_name OperationType.create = codes "CREATE"
type_name OperationType.update = codes "UPDATE"
type_name OperationType.delete = codes "DELETE"
type_name OperationType.checkpoint = codes "CHECKPOINT"
type_name OperationType.rollback = codes "ROLLBACK"
type_name OperationType.custom = codes "CUSTOM"
type_name (OperationType.unnamed n) = []

-- The loop of `logOperationComplete`: the first operation with the id loses `canUndo`.
unfoldable pub forbid_undo : ℕ → List OperationRecord → List OperationRecord
forbid_undo id [] = []
forbid_undo id (op ∷ ops) =
    let rest = op ∷ forbid_undo id ops in
    if op.id == id then record op { can_undo = false } ∷ ops else rest

-- The parts of `logOperation` and `logOperationComplete` under the mutex.
unfoldable pub add_operation : OperationRecord → OperationLogger → OperationLogger
add_operation op l = record l { operations = l.operations ++ op ∷ [] }

unfoldable pub complete_operation : ℕ → Bool → OperationLogger → OperationLogger
complete_operation id success l = record l {
  operations = if success then l.operations else forbid_undo id l.operations;
}

module _ (format : LogEntry → Text) where
  -- The loop over the outputs.
  unfoldable pub write_all : LogEntry → List (List Text) → List (List Text)
  write_all entry outputs = map (λ o. o ++ format entry ∷ []) outputs

  -- The part of `log` under the mutex.
  unfoldable pub append : LogEntry → OperationLogger → OperationLogger
  append entry l =
      let l' = record l { entries = l.entries ++ entry ∷ [] } in
      if l.async_enabled
      then record l' { pending_entries = l.pending_entries ++ entry ∷ [] }
      else record l' { outputs = write_all entry l.outputs }

  -- The counter of `IdGenerator` goes in and comes out. It is not read below the minimal level.
  unfoldable pub log :
      LogLevel → Text → Text → Text → ℕ → Timestamp → OperationLogger × ℕ → OperationLogger × ℕ
  log level category message file line now (l, counter) =
      let entry : LogEntry = record {
        id = counter;
        level = level;
        timestamp = now;
        category = category;
        message = message;
        file = file;
        line = line;
      } in
      if ltb (level_to_int level) (level_to_int l.min_level)
      then (l, counter)
      else (append entry l, next_counter counter)

  -- The test of the inner loop, under the mutex: the oldest pending entry is taken, or the mutex
  -- is let go at the end of the round.
  unfoldable pub drain : List LogEntry → OperationLogger → OperationLogger
  drain [] l = record l { async_thread = Thread.testing }
  drain (entry ∷ pending) l = record l {
    pending_entries = pending;
    async_thread = Thread.writing entry;
  }

  abbrev pub none_pending : List LogEntry → Bool
  none_pending [] = true
  none_pending (entry ∷ pending) = false

  -- A step of the thread from where it is. `cv.wait` goes on only if something is pending or the
  -- thread is to stop. The writes of one entry to all outputs are one step: while the thread has an
  -- entry, `log` only puts entries in the queue.
  unfoldable pub async_step : Thread → OperationLogger → OperationLogger
  async_step Thread.absent l = l
  async_step Thread.ended l = l
  async_step Thread.testing l = record l {
    async_thread = if l.running then Thread.waiting else Thread.ended;
  }
  async_step Thread.waiting l =
      if none_pending l.pending_entries && l.running then l else drain l.pending_entries l
  async_step (Thread.writing entry) l = record l {
    outputs = write_all entry l.outputs;
    async_thread = Thread.draining;
  }
  async_step Thread.draining l = drain l.pending_entries l

  -- `asyncLoop`: a step of the thread of the logger.
  unfoldable pub async_loop : OperationLogger → OperationLogger
  async_loop l = async_step l.async_thread l

  -- `info`, as the two methods below call it.
  unfoldable pub info : Text → Text → Timestamp → OperationLogger × ℕ → OperationLogger × ℕ
  info category message now w = log LogLevel.info category message [] 0 now w

  -- `recorded` and `now` are the two readings of the clock.
  unfoldable pub log_operation :
      OperationType
      → Text
      → ℕ
      → Timestamp
      → Timestamp
      → OperationLogger × ℕ
      → ℕ × (OperationLogger × ℕ)
  log_operation type description related_checkpoint recorded now (l, counter) =
      let op : OperationRecord = record {
        id = counter;
        type = type;
        timestamp = recorded;
        related_checkpoint = related_checkpoint;
        description = description;
        previous_state = [];
        new_state = [];
        can_undo = true;
      } in
      (
        counter,
        info (codes "Operation") (b'[' ∷ type_name type ++ (codes "] " ++ description)) now
            (add_operation op l, next_counter counter),
      )

  unfoldable pub log_operation_complete :
      ℕ → Bool → Timestamp → OperationLogger × ℕ → OperationLogger × ℕ
  log_operation_complete id success now (l, counter) =
      info (codes "Operation")
        (codes "Operation "
          ++ (to_string id
              ++ (if success then codes " completed successfully" else codes " failed")))
        now (complete_operation id success l, counter)

-- The loop of `getEntries` over the entries from the newest on; `count` are wanted still.
unfoldable pub newest : ℕ → LogLevel → List LogEntry → List LogEntry
newest zero level entries = []
newest (suc count) level [] = []
newest (suc count) level (e ∷ entries) =
    let kept = e ∷ newest count level entries in
    let skipped = newest (suc count) level entries in
    if leb (level_to_int level) (level_to_int e.level) then kept else skipped

unfoldable pub get_entries : LogLevel → ℕ → OperationLogger → List LogEntry
get_entries level max_count l = newest max_count level (reverse l.entries)

unfoldable pub get_entries_between : Timestamp → Timestamp → OperationLogger → List LogEntry
get_entries_between start end l =
    keep_if (λ e. leb start e.timestamp && leb e.timestamp end) l.entries

-- The last operations, from the position `size - count` on.
unfoldable pub get_operation_history : ℕ → OperationLogger → List OperationRecord
get_operation_history max_count l =
    drop (length l.operations - min max_count (length l.operations)) l.operations

unfoldable pub since_checkpoint : ℕ → Bool → List OperationRecord → List OperationRecord
since_checkpoint id found [] = []
since_checkpoint id found (op ∷ ops) =
    let now_found = found || op.related_checkpoint == id in
    let rest = since_checkpoint id now_found ops in if now_found then op ∷ rest else rest

unfoldable pub get_operations_since : ℕ → OperationLogger → List OperationRecord
get_operations_since id l = since_checkpoint id false l.operations

unfoldable pub clear : OperationLogger → OperationLogger
clear l = record l { entries = []; operations = [] }
