-- ===== src/Rollback/Watch.antt =====
-- `AutoRollbackManager` (src/rollback/rollback_engine.cpp): a thread that looks at the checkpoints
-- from time to time. It has the engine and the manager that the engine works on; a round is a step.
use process_snapshot.Prelude.{
  ℕ, ◌≡◌, refl, Text, List, [], ◌∷◌, Option, none, some, Bool, true, false, not, ◌&&◌, ◌||◌, All,
  if◌then◌else◌, Option-cases, inl, inr, ap,
}
use process_snapshot.Types.{Result, ok, failure}
use process_snapshot.OrderedMap
use process_snapshot.OrderedMap.Laws.{All-find}
use process_snapshot.State.Metadata.{CheckpointMetadata}
use process_snapshot.State.Checkpoint.{Checkpoint, verify_integrity}
use process_snapshot.Storage.{IStorage}
use process_snapshot.Manager.{StateManager, new, get_checkpoint, list_checkpoints}
use process_snapshot.Manager.Invariant.{IsSound, Reach, Reach-IsConsistent}
use process_snapshot.FileOperation.Record.{FileOperation}
use process_snapshot.Reverse.Options.{BatchReverseResult}
use process_snapshot.Rollback.{RollbackEngine, Clock, RollbackResult, rollback_to_latest}
use process_snapshot.Logger.{LogEntry}

-- The check interval is in milliseconds.
pub record AutoRollbackManager : Type 0 where
  pub enabled : Bool
  pub check_interval : ℕ
  pub running : Bool

abbrev pub unstarted : AutoRollbackManager
unstarted = record { enabled = false; check_interval = 5000; running = false }

unfoldable pub start : AutoRollbackManager → AutoRollbackManager
start a = if a.running then a else record a { running = true }

unfoldable pub stop : AutoRollbackManager → AutoRollbackManager
stop a = record a { running = false }

unfoldable pub set_check_interval : ℕ → AutoRollbackManager → AutoRollbackManager
set_check_interval interval a = record a { check_interval = interval }

unfoldable pub set_enabled : Bool → AutoRollbackManager → AutoRollbackManager
set_enabled enabled a = record a { enabled = enabled }

abbrev pub is_corrupt : Result Checkpoint → Bool
is_corrupt (failure code message) = false
is_corrupt (ok c) = not (verify_integrity c)

module _ {S : Type 0} (storage : IStorage S) where
  -- The loop of `detectCorruption`.
  unfoldable pub detect_in : List CheckpointMetadata → StateManager S → Bool
  detect_in [] m = false
  detect_in (meta ∷ metas) m = is_corrupt (get_checkpoint storage meta.id m) || detect_in metas m

  unfoldable pub detect_corruption : StateManager S → Bool
  unfolding detect_in
  detect_corruption m = detect_in (list_checkpoints storage m) m

  sound-checkpoint :
      (id : ℕ) (m : StateManager S)
      → All IsSound m.checkpoints
      → is_corrupt (get_checkpoint storage id m) ≡ false
  unfolding get_checkpoint
  sound-checkpoint id m sound = elim (Option-cases (OrderedMap.find id m.checkpoints)) [
    | inl unknown ↦ rw (unknown, get_checkpoint) refl
    | inr (c, found) ↦
        rw (found, get_checkpoint) (ap not (All-find IsSound id m.checkpoints sound found).1)
  ]

  detect_in_sound :
      (metas : List CheckpointMetadata) (m : StateManager S)
      → All IsSound m.checkpoints
      → detect_in metas m ≡ false
  unfolding detect_in
  detect_in_sound [] m sound = refl
  detect_in_sound (meta ∷ metas) m sound =
      rw (sound-checkpoint meta.id m sound) (detect_in_sound metas m sound)

  detect_corruption_sound :
      (m : StateManager S) → All IsSound m.checkpoints → detect_corruption m ≡ false
  unfolding detect_corruption
  detect_corruption_sound m sound = detect_in_sound (list_checkpoints storage m) m sound

module _ {S F : Type 0} (storage : IStorage S) (format : LogEntry → Text)
    (reverse_operations : List FileOperation → F → BatchReverseResult × F) where
  -- The result of the rollback is dropped.
  unfoldable pub rolled_back :
      Option (Result RollbackResult × ((RollbackEngine S × ℕ) × F))
      → Option ((RollbackEngine S × ℕ) × F)
  rolled_back none = none
  rolled_back (some (result, w)) = some w

  -- One round of `monitorLoop`, behind the sleep.
  unfoldable pub monitor_round :
      AutoRollbackManager → Clock → (RollbackEngine S × ℕ) × F → Option ((RollbackEngine S × ℕ) × F)
  unfolding rolled_back detect_corruption
  monitor_round a clock ((e, counter), files) =
      if (a.enabled && a.running) && detect_corruption storage e.manager
      then rolled_back
          (rollback_to_latest storage format reverse_operations clock ((e, counter), files))
      else some ((e, counter), files)

  and_false : (b : Bool) → (b && false) ≡ false
  and_false true = refl
  and_false false = refl

  -- As long as the manager is used through its own operations, from a new one on, a round of the
  -- watch finds nothing and changes nothing.
  pub monitor_round_lem :
      (a : AutoRollbackManager) (clock : Clock) (s : S) (first counter : ℕ) (e : RollbackEngine S)
      (files : F)
      → Reach storage (new storage s, first) (e.manager, counter)
      → monitor_round a clock ((e, counter), files) ≡ some ((e, counter), files)
  unfolding monitor_round
  monitor_round_lem a clock s first counter e files reached =
      let sound = (Reach-IsConsistent storage s first reached).sound in
      rw (detect_corruption_sound storage e.manager sound)
        (rw (and_false (a.enabled && a.running)) refl)
