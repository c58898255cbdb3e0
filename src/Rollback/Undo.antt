-- ===== src/Rollback/Undo.antt =====
-- What a rollback does to the manager and the undo stack, and what undoing it does.
use process_snapshot.Prelude.{
  ℕ, ◌≤◌, ◌<◌, ◌≡◌, refl, Bytes, Text, List, [], ◌∷◌, some, false, length, leb, arith, Bool-cases,
  inl, inr, ◌⊎◌, subst, sym,
}
use process_snapshot.Types.{Result, ok, failure, ErrorCode}
use process_snapshot.Utils.{Timestamp}
use process_snapshot.Storage.{IStorage}
use process_snapshot.Manager.{Readings, get_checkpoint, get_current_state, create_checkpoint}
use process_snapshot.FileOperation.Record.{FileOperation}
use process_snapshot.Reverse.Options.{BatchReverseResult}
use process_snapshot.Logger.{LogEntry}
use process_snapshot.Rollback.{
  RollbackPlan, RollbackResult, RollbackEngine, Clock, drop_oldest, push_undo, is_cancelled,
  finish_rollback, restore, execute_rollback, undo_rollback,
}

length-drop_oldest : (s : Bytes) (l : List Bytes) → length (drop_oldest (s ∷ l)) ≡ length l
unfolding drop_oldest
length-drop_oldest s [] = refl
length-drop_oldest s (t ∷ l) = omega (arith, length-drop_oldest t l)

pub push_undo_lem :
    (max : ℕ) (s : Bytes) (stack : List Bytes)
    → 0 < max
    → length stack ≤ max
    → (rest : List Bytes) × (push_undo max s stack ≡ some (s ∷ rest)) × (length (s ∷ rest) ≤ max)
unfolding push_undo
push_undo_lem max s [] positive h = ([], ground arith, omega arith)
push_undo_lem max s (t ∷ stack) positive h = elim (Bool-cases (leb max (length (t ∷ stack)))) [
  | inl full ↦ (drop_oldest (t ∷ stack), rw full, omega (arith, length-drop_oldest t stack, h))
  | inr room ↦ (t ∷ stack, rw room, ground arith)
]

Result-cases :
    {A : Type 0} (r : Result A)
    → ((code : ErrorCode) × (message : Text) × (r ≡ failure code message)) ⊎ ((a : A) × (r ≡ ok a))
Result-cases (failure code message) = inl (code, message, refl)
Result-cases (ok a) = inr (a, refl)

module _ {S F : Type 0} (storage : IStorage S) (format : LogEntry → Text)
    (reverse_operations : List FileOperation → F → BatchReverseResult × F) where
  restore-kept :
      (plan : RollbackPlan) (clock : Clock) (e : RollbackEngine S) (counter : ℕ) (files : F)
      → let after =
          (restore storage format reverse_operations plan clock ((e, counter), files)).1.0.0 in
        (after.manager ≡ e.manager) × (after.undo_stack ≡ e.undo_stack)
  unfolding restore finish_rollback
  restore-kept plan clock e counter files =
      elim (Result-cases (get_checkpoint storage plan.target_checkpoint e.manager)) [
        | inl (code, message, unknown) ↦ (rw (unknown, restore), rw (unknown, restore))
        | inr (c, known) ↦ (rw (known, restore), rw (known, restore))
      ]

  -- A rollback that is not cancelled returns, if the history has room for one state and is not
  -- longer than allowed. It leaves the manager as it was: its current state is the one before the
  -- rollback, which lies on the undo stack, and the stack is not longer than allowed.
  pub execute_rollback_lem :
      (plan : RollbackPlan) (clock : Clock) (e : RollbackEngine S) (counter : ℕ) (files : F)
      → is_cancelled plan e.confirm ≡ false
      → 0 < e.max_undo_history
      → length e.undo_stack ≤ e.max_undo_history
      → (r : Result RollbackResult) × (e' : RollbackEngine S) × (counter' : ℕ) × (files' : F)
        × (execute_rollback storage format reverse_operations plan clock ((e, counter), files)
            ≡ some (r, ((e', counter'), files')))
        × (e'.manager ≡ e.manager)
        × ((rest : List Bytes) × (e'.undo_stack ≡ e.manager.current_state ∷ rest))
        × (length e'.undo_stack ≤ e.max_undo_history)
  unfolding execute_rollback get_current_state
  execute_rollback_lem plan clock e counter files going positive room =
      let s = e.manager.current_state in
      let (rest, pushed, bound) = push_undo_lem e.max_undo_history s e.undo_stack positive room in
      let e1 : RollbackEngine S = record e { undo_stack = s ∷ rest } in
      let after = restore storage format reverse_operations plan clock ((e1, counter), files) in
      let (manager, stack) = restore-kept plan clock e1 counter files in
      (
        after.0,
        after.1.0.0,
        after.1.0.1,
        after.1.1,
        rw (going, pushed, execute_rollback),
        manager,
        (rest, stack),
        subst (λ l. length l ≤ e.max_undo_history) (sym stack) bound,
      )

  -- Undoing takes the top of the stack as the current state.
  pub undo_rollback_lem :
      (r : Readings) (recorded now : Timestamp) (e : RollbackEngine S) (counter : ℕ) (s : Bytes)
      (rest : List Bytes)
      → e.undo_stack ≡ s ∷ rest
      → let e' =
          (undo_rollback storage format reverse_operations r recorded now (e, counter)).1.0 in
        (get_current_state storage e'.manager ≡ ok s) × (e'.undo_stack ≡ rest)
  unfolding undo_rollback get_current_state create_checkpoint
  undo_rollback_lem r recorded now e counter s rest shape =
      (rw (shape, undo_rollback), rw (shape, undo_rollback))
