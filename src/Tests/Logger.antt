-- ===== src/Tests/Logger.antt =====
-- The logger at concrete inputs.
use process_snapshot.Prelude.{ℕ, zero, suc, ◌+◌, ◌≡◌, refl, Text, [], ◌∷◌, true, false, map, codes}
use process_snapshot.Types.{LogLevel, OperationType}
use process_snapshot.State.OperationRecord.{OperationRecord}
use process_snapshot.Logger.{
  LogEntry, OperationLogger, Thread, Control, new, append, drain, write_all, async_step, async_loop,
  enable_async, enable_async_next,
}
use process_snapshot.Logger.Steps.{Step, Reach, unwritten}
use process_snapshot.Logger.Writing.{occurrences, Reach-delivered}

abbrev entry : LogLevel → ℕ → LogEntry
entry level id = record {
  id = id;
  level = level;
  timestamp = 10 + id;
  category = codes "c";
  message = codes "m";
  file = [];
  line = 0;
}

abbrev operation : ℕ → OperationRecord
operation checkpoint = record {
  id = 1;
  type = OperationType.update;
  timestamp = 5;
  related_checkpoint = checkpoint;
  description = [];
  previous_state = [];
  new_state = [];
  can_undo = true;
}

abbrev pub logger : OperationLogger
logger = record new {
  entries = entry LogLevel.info 1 ∷ entry LogLevel.error 2 ∷ entry LogLevel.error 3 ∷ [];
  operations = operation 0 ∷ operation 5 ∷ operation 0 ∷ [];
}

-- Asynchronous logging of one entry, and the round of the thread that writes it.
abbrev pub format : LogEntry → Text
format e = e.message

abbrev started : OperationLogger
started = record new { async_enabled = true; async_thread = Thread.testing; running = true }

abbrev e1 : LogEntry
e1 = entry LogLevel.error 1

abbrev logged : OperationLogger
logged = append format e1 started

-- The thread waits, takes the entry and writes it.
abbrev rounds : ℕ → OperationLogger → OperationLogger
rounds zero l = l
rounds (suc n) l = async_loop format (rounds n l)

abbrev written : OperationLogger
written = rounds 3 logged

started_steps : Reach format (new, Control.idle) (started, Control.idle)
unfolding enable_async enable_async_next
started_steps =
    Reach.next
      (Reach.next (Reach.next Reach.here (Step.call_step true new))
        (Step.control_step (record new { running = true }) Control.enabling))
      (Step.control_step (record new { running = true; async_enabled = true }) Control.spawning)

written_steps : Reach format (new, Control.idle) (written, Control.idle)
written_steps =
    Reach.next
      (Reach.next
        (Reach.next (Reach.next started_steps (Step.log_step e1 started Control.idle))
          (Step.thread_step logged Control.idle))
        (Step.thread_step (rounds 1 logged) Control.idle))
      (Step.thread_step (rounds 2 logged) Control.idle)

nothing_unwritten : unwritten written ≡ []
unfolding append async_loop async_step drain
nothing_unwritten = refl

Reach-delivered_example :
    map (λ o. occurrences (codes "m") o) written.outputs
    ≡ map
        (λ o. occurrences (codes "m") o + occurrences (codes "m") (map format written.entries))
        new.outputs
Reach-delivered_example =
    Reach-delivered format (codes "m") new refl refl refl written_steps nothing_unwritten

-- A stop between whose `join` and last write an entry is logged: the entry stays in the queue, and
-- one that is logged later is written before it.
abbrev stopped : OperationLogger
stopped = record started { async_thread = Thread.absent; running = false }

abbrev stranded : OperationLogger
stranded =
    append format (entry LogLevel.error 2)
      (enable_async_next Control.disabling (append format e1 stopped)).0

stranded_test : (unwritten stranded ≡ e1 ∷ []) × (stranded.outputs ≡ (codes "m" ∷ []) ∷ [])
unfolding append enable_async_next write_all
stranded_test = (refl, refl)
