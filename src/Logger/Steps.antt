-- ===== src/Logger/Steps.antt =====
-- The logger under several threads (src/logger/operation_logger.cpp): what its users, its own thread
-- and a call of `enableAsync` do, one step at a time. Two calls of `enableAsync` do not overlap.
use process_snapshot.Prelude.{
  ℕ, ◌≡◌, inl, inr, refl, Text, List, [], ◌∷◌, ◌++◌, Bool, true, false, ◌&&◌, ap, sym, subst, ◌∙◌,
  Bool-cases, if◌then◌else◌, if_true, if_false,
}
use process_snapshot.State.OperationRecord.{OperationRecord}
use process_snapshot.Types.{LogLevel}
use process_snapshot.Logger.{
  LogEntry, OperationLogger, Thread, Control, set_min_level, enable_async, enable_async_next, join,
  write_all, append, drain, none_pending, async_step, async_loop, add_operation, complete_operation,
}

-- The entry that the thread has taken from the queue.
abbrev pub in_flight : Thread → List LogEntry
in_flight Thread.absent = []
in_flight Thread.testing = []
in_flight Thread.waiting = []
in_flight Thread.draining = []
in_flight Thread.ended = []
in_flight (Thread.writing entry) = entry ∷ []

-- What was logged and is in no output yet.
abbrev pub unwritten : OperationLogger → List LogEntry
unwritten l = in_flight l.async_thread ++ l.pending_entries

module _ (format : LogEntry → Text) where
  -- The entry of an `append` is made before the mutex is taken, so that it can be any.
  pub data Step : OperationLogger × Control → OperationLogger × Control → Type 0 where
    log_step :
        (entry : LogEntry) (l : OperationLogger) (c : Control)
        → Step (l, c) (append format entry l, c)
    operation_step :
        (op : OperationRecord) (l : OperationLogger) (c : Control)
        → Step (l, c) (add_operation op l, c)
    complete_step :
        (id : ℕ) (success : Bool) (l : OperationLogger) (c : Control)
        → Step (l, c) (complete_operation id success l, c)
    level_step :
        (level : LogLevel) (l : OperationLogger) (c : Control)
        → Step (l, c) (set_min_level level l, c)
    thread_step : (l : OperationLogger) (c : Control) → Step (l, c) (async_loop format l, c)
    call_step :
        (enable : Bool) (l : OperationLogger) → Step (l, Control.idle) (enable_async enable l)
    control_step : (l : OperationLogger) (c : Control) → Step (l, c) (enable_async_next c l)

  pub data Reach (w : OperationLogger × Control) : OperationLogger × Control → Type 0 where
    here : Reach w w
    next : {u v : OperationLogger × Control} → Reach w u → Step u v → Reach w v

  -- What a step of the thread moves: nothing, or the oldest unwritten entry to the outputs.
  pub data Moves (l l' : OperationLogger) : Type 0 where
    stays : unwritten l' ≡ unwritten l → l'.outputs ≡ l.outputs → Moves l l'
    writes :
        (entry : LogEntry)
        → unwritten l ≡ entry ∷ unwritten l'
        → l'.outputs ≡ write_all format entry l.outputs
        → Moves l l'

  drain-Moves :
      (pending : List LogEntry) (l : OperationLogger)
      → l.pending_entries ≡ pending
      → in_flight l.async_thread ≡ []
      → Moves l (drain format pending l)
  unfolding drain
  drain-Moves [] l p none_taken = stays (ap (λ x. x ++ l.pending_entries) (sym none_taken)) refl
  drain-Moves (entry ∷ pending) l p none_taken =
      stays (sym p ∙ ap (λ x. x ++ l.pending_entries) (sym none_taken)) refl

  async_step-Moves :
      (thread : Thread) (l : OperationLogger)
      → l.async_thread ≡ thread
      → Moves l (async_step format thread l)
  unfolding async_step
  async_step-Moves Thread.absent l e = stays refl refl
  async_step-Moves Thread.ended l e = stays refl refl
  async_step-Moves Thread.testing l e =
      let none_taken : in_flight (if l.running then Thread.waiting else Thread.ended)
          ≡ in_flight l.async_thread =
        elim (Bool-cases l.running) [
          | inl on ↦ ap in_flight (if_true _ _ on) ∙ ap in_flight (sym e)
          | inr off ↦ ap in_flight (if_false _ _ off) ∙ ap in_flight (sym e)
        ] in
      stays (ap (λ x. x ++ l.pending_entries) none_taken) refl
  async_step-Moves Thread.waiting l e =
      elim (Bool-cases (none_pending format l.pending_entries && l.running)) [
        | inl blocked ↦ subst (Moves l) (sym (if_true _ _ blocked)) (stays refl refl)
        | inr woken ↦
            subst (Moves l) (sym (if_false _ _ woken))
              (drain-Moves l.pending_entries l refl (ap in_flight e))
      ]
  async_step-Moves (Thread.writing entry) l e =
      writes entry (ap (λ x. in_flight x ++ l.pending_entries) e) refl
  async_step-Moves Thread.draining l e = drain-Moves l.pending_entries l refl (ap in_flight e)

  pub async_loop-Moves : (l : OperationLogger) → Moves l (async_loop format l)
  unfolding async_loop
  async_loop-Moves l = async_step-Moves l.async_thread l refl

  drain-entries :
      (pending : List LogEntry) (l : OperationLogger)
      → ((drain format pending l).entries ≡ l.entries)
        × ((drain format pending l).async_enabled ≡ l.async_enabled)
        × ((drain format pending l).running ≡ l.running)
  unfolding drain
  drain-entries [] l = (refl, refl, refl)
  drain-entries (entry ∷ pending) l = (refl, refl, refl)

  async_step-entries :
      (thread : Thread) (l : OperationLogger)
      → ((async_step format thread l).entries ≡ l.entries)
        × ((async_step format thread l).async_enabled ≡ l.async_enabled)
        × ((async_step format thread l).running ≡ l.running)
  unfolding async_step
  async_step-entries Thread.absent l = (refl, refl, refl)
  async_step-entries Thread.ended l = (refl, refl, refl)
  async_step-entries Thread.testing l = (refl, refl, refl)
  async_step-entries Thread.waiting l =
      elim (Bool-cases (none_pending format l.pending_entries && l.running)) [
        | inl blocked ↦ rw blocked (refl, refl, refl)
        | inr woken ↦ rw woken (drain-entries l.pending_entries l)
      ]
  async_step-entries (Thread.writing entry) l = (refl, refl, refl)
  async_step-entries Thread.draining l = drain-entries l.pending_entries l

  pub async_loop-entries :
      (l : OperationLogger)
      → ((async_loop format l).entries ≡ l.entries)
        × ((async_loop format l).async_enabled ≡ l.async_enabled)
        × ((async_loop format l).running ≡ l.running)
  unfolding async_loop
  async_loop-entries l = async_step-entries l.async_thread l

-- A step that is not the thread's own, and no logging, leaves what counts for the outputs.
pub record Keeps (l l' : OperationLogger) : Type 0 where
  pub outputs : l'.outputs ≡ l.outputs
  pub entries : l'.entries ≡ l.entries
  pub unwritten_same : unwritten l' ≡ unwritten l

pub enable_async-Keeps : (enable : Bool) (l : OperationLogger) → Keeps l (enable_async enable l).0
unfolding enable_async
enable_async-Keeps true l = elim (Bool-cases l.running) [
  | inl on ↦ rw on (record { outputs = refl; entries = refl; unwritten_same = refl })
  | inr off ↦ rw off (record { outputs = refl; entries = refl; unwritten_same = refl })
]
enable_async-Keeps false l = elim (Bool-cases l.running) [
  | inl on ↦ rw on (record { outputs = refl; entries = refl; unwritten_same = refl })
  | inr off ↦ rw off (record { outputs = refl; entries = refl; unwritten_same = refl })
]

pub same-Keeps : (l : OperationLogger) → Keeps l l
same-Keeps l = record { outputs = refl; entries = refl; unwritten_same = refl }

pub join-Keeps :
    (thread : Thread) (l : OperationLogger) → l.async_thread ≡ thread → Keeps l (join thread l).0
unfolding join
join-Keeps Thread.absent l e = same-Keeps l
join-Keeps Thread.testing l e = same-Keeps l
join-Keeps Thread.waiting l e = same-Keeps l
join-Keeps Thread.draining l e = same-Keeps l
join-Keeps (Thread.writing entry) l e = same-Keeps l
join-Keeps Thread.ended l e = record {
  outputs = refl;
  entries = refl;
  unwritten_same = ap (λ x. in_flight x ++ l.pending_entries) (sym e);
}
