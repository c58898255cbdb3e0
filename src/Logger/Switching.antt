-- ===== src/Logger/Switching.antt =====
-- Calls of `enableAsync` (src/logger/operation_logger.cpp): where there is a thread.
use process_snapshot.Prelude.{
  ◌≡◌, inl, inr, refl, Text, ◌++◌, Bool, true, false, ap, sym, subst, ◌∙◌, Bool-cases, if_true,
  if_false,
}
use process_snapshot.Logger.{
  LogEntry, OperationLogger, Thread, Control, set_min_level, enable_async, enable_async_next, join,
  append, async_step, async_loop, add_operation, complete_operation,
}
use process_snapshot.Logger.Steps.{
  in_flight, Step, log_step, operation_step, complete_step, level_step, thread_step, call_step,
  control_step, async_loop-entries, Keeps, same-Keeps, join-Keeps,
}

-- Where `enableAsync` writes without a mutex, there is no thread.
abbrev pub Ready : Control → OperationLogger → Type 0
Ready Control.idle l = l.running ≡ false → l.async_thread ≡ Thread.absent
Ready Control.enabling l = (l.async_thread ≡ Thread.absent) × (l.running ≡ true)
Ready Control.spawning l = (l.async_thread ≡ Thread.absent) × (l.running ≡ true)
Ready Control.joining l = Unit
Ready Control.disabling l = l.async_thread ≡ Thread.absent

pub enable_async_next-Keeps :
    (c : Control) (l : OperationLogger) → Ready c l → Keeps l (enable_async_next c l).0
unfolding enable_async_next
enable_async_next-Keeps Control.idle l h = same-Keeps l
enable_async_next-Keeps Control.enabling l h = record {
  outputs = refl;
  entries = refl;
  unwritten_same = refl;
}
enable_async_next-Keeps Control.spawning l h = record {
  outputs = refl;
  entries = refl;
  unwritten_same = ap (λ x. in_flight x ++ l.pending_entries) (sym h.0);
}
enable_async_next-Keeps Control.joining l h = join-Keeps l.async_thread l refl
enable_async_next-Keeps Control.disabling l h = record {
  outputs = refl;
  entries = refl;
  unwritten_same = refl;
}

Ready-of : {u v : OperationLogger × Control} → u ≡ v → Ready u.1 u.0 → Ready v.1 v.0
Ready-of e h = subst (λ (x : OperationLogger × Control). Ready x.1 x.0) e h

enable_async-Ready :
    (enable : Bool) (l : OperationLogger)
    → Ready Control.idle l
    → Ready (enable_async enable l).1 (enable_async enable l).0
unfolding enable_async
enable_async-Ready true l h = elim (Bool-cases l.running) [
  | inl on ↦ Ready-of (sym (if_true _ _ on)) h
  | inr off ↦ Ready-of (sym (if_false _ _ off)) (h off, refl)
]
enable_async-Ready false l h = elim (Bool-cases l.running) [
  | inl on ↦ Ready-of (sym (if_true _ _ on)) tt
  | inr off ↦ Ready-of (sym (if_false _ _ off)) h
]

join-Ready :
    (thread : Thread) (l : OperationLogger)
    → l.async_thread ≡ thread
    → Ready (join thread l).1 (join thread l).0
unfolding join
join-Ready Thread.absent l e = e
join-Ready Thread.ended l e = refl
join-Ready Thread.testing l e = tt
join-Ready Thread.waiting l e = tt
join-Ready Thread.draining l e = tt
join-Ready (Thread.writing entry) l e = tt

enable_async_next-Ready :
    (c : Control) (l : OperationLogger)
    → Ready c l
    → Ready (enable_async_next c l).1 (enable_async_next c l).0
unfolding enable_async_next
enable_async_next-Ready Control.idle l h = h
enable_async_next-Ready Control.enabling l h = h
enable_async_next-Ready Control.spawning l h = λ off. absurd (cc (h.1, off))
enable_async_next-Ready Control.joining l h = join-Ready l.async_thread l refl
enable_async_next-Ready Control.disabling l h = λ off. h

-- A step that leaves the thread, if there is none, and its switch.
Ready-kept :
    (c : Control) (l l' : OperationLogger)
    → (l.async_thread ≡ Thread.absent → l'.async_thread ≡ Thread.absent)
    → l'.running ≡ l.running
    → Ready c l
    → Ready c l'
Ready-kept Control.idle l l' t r h = λ off. t (h (sym r ∙ off))
Ready-kept Control.enabling l l' t r h = (t h.0, r ∙ h.1)
Ready-kept Control.spawning l l' t r h = (t h.0, r ∙ h.1)
Ready-kept Control.joining l l' t r h = tt
Ready-kept Control.disabling l l' t r h = t h

module _ (format : LogEntry → Text) where
  append-fields :
      (entry : LogEntry) (l : OperationLogger)
      → ((append format entry l).async_thread ≡ l.async_thread)
        × ((append format entry l).running ≡ l.running)
  unfolding append
  append-fields entry l = elim (Bool-cases l.async_enabled) [
    | inl queued ↦ rw queued (refl, refl)
    | inr direct ↦ rw direct (refl, refl)
  ]

  absent-async_loop :
      (l : OperationLogger)
      → l.async_thread ≡ Thread.absent
      → (async_loop format l).async_thread ≡ Thread.absent
  unfolding async_loop async_step
  absent-async_loop l e = ap (λ x. (async_step format x l).async_thread) e ∙ e

  pub Step-Ready :
      {u v : OperationLogger × Control} → Step format u v → Ready u.1 u.0 → Ready v.1 v.0
  unfolding add_operation complete_operation set_min_level
  Step-Ready (log_step entry l c) h =
      let (thread, switch) = append-fields entry l in
      Ready-kept c l (append format entry l) (λ e. thread ∙ e) switch h
  Step-Ready (operation_step op l c) h = Ready-kept c l (add_operation op l) (λ e. e) refl h
  Step-Ready (complete_step id success l c) h =
      Ready-kept c l (complete_operation id success l) (λ e. e) refl h
  Step-Ready (level_step level l c) h = Ready-kept c l (set_min_level level l) (λ e. e) refl h
  Step-Ready (thread_step l c) h =
      let (entries, enabled, switch) = async_loop-entries format l in
      Ready-kept c l (async_loop format l) (absent-async_loop l) switch h
  Step-Ready (call_step enable l) h = enable_async-Ready enable l h
  Step-Ready (control_step l c) h = enable_async_next-Ready c l h
