-- ===== src/Manager.antt =====
-- `StateManager` (include/state/state_manager.hpp, src/state/state_manager.cpp) over any storage.
-- A method runs under the mutex from its first line to its last, so that it is one step. It takes
-- the clock readings that it makes, and what it returns is its result and the new state.
pub mod Contract
pub mod Invariant
pub mod Restart
use process_snapshot.Prelude.{
  ℕ, ◌+◌, ◌*◌, Bytes, Text, List, [], ◌∷◌, ◌++◌, Option, none, some, Bool, true, false, not, ◌&&◌,
  codes, map, length, to_string, ltb, ◌==◌, if◌then◌else◌,
}
use process_snapshot.Types.{Result, ok, failure, ErrorCode, CheckpointStatus, is_success}
use process_snapshot.Utils.{Timestamp, generate_checkpoint_id, next_counter}
use process_snapshot.OrderedMap
use process_snapshot.State.Metadata.{CheckpointMetadata}
use process_snapshot.State.Checkpoint
use process_snapshot.State.Checkpoint.{Checkpoint}
use process_snapshot.Storage.{IStorage}

-- `StateManager::Impl` without its locks. `auto_save_interval` counts milliseconds.
pub record StateManager (S : Type 0) : Type 0 where
  pub storage : S
  pub checkpoints : List (ℕ × Checkpoint)
  pub current_state : Bytes
  pub latest_checkpoint_id : ℕ
  pub auto_save_enabled : Bool
  pub auto_save_interval : ℕ
  pub running : Bool

-- The clock readings of one creation: the steady clock for the id, and the system clock in the
-- constructor, in `setData` and in `setStatus`.
pub record Readings : Type 0 where
  pub steady : ℕ
  pub constructed : Timestamp
  pub data_set : Timestamp
  pub status_set : Timestamp

-- The checkpoint that `createCheckpoint` and the auto-save loop build.
pub build_checkpoint : ℕ → Text → Bytes → Readings → Checkpoint
unfolding Checkpoint.new Checkpoint.set_data Checkpoint.set_status
build_checkpoint id name state r =
    Checkpoint.set_status CheckpointStatus.committed r.status_set
      (Checkpoint.set_data state r.data_set (Checkpoint.new id name r.constructed))

module _ {S : Type 0} (storage : IStorage S) where
  -- The constructors, over a storage that was opened before. The default one reads nothing.
  pub new : S → StateManager S
  new s = record {
    storage = s;
    checkpoints = [];
    current_state = [];
    latest_checkpoint_id = 0;
    auto_save_enabled = false;
    auto_save_interval = 60000;
    running = false;
  }

  -- One round of the constructor's loop. An id that cannot be loaded is skipped; `none` stands for
  -- data that `deserialize` would read past its end.
  open_one : Result Bytes → ℕ → StateManager S → Option (StateManager S)
  open_one (failure e message) id m = some m
  open_one (ok d) id m = elim (Checkpoint.deserialize d) [
    | none ↦ none
    | some (c, _) ↦ some (record m {
      checkpoints = OrderedMap.insert id c m.checkpoints;
      latest_checkpoint_id = if ltb m.latest_checkpoint_id id then id else m.latest_checkpoint_id;
    })
  ]

  open_all : List ℕ → StateManager S → Option (StateManager S)
  open_all [] m = some m
  open_all (id ∷ ids) m = elim (open_one (storage.load id m.storage) id m) [
    | none ↦ none
    | some m' ↦ open_all ids m'
  ]

  unfoldable pub open_storage : S → Option (StateManager S)
  unfolding new open_one open_all
  open_storage s = open_all (storage.list_all s) (new s)

  pub id_result : Result (Unit {0}) → ℕ → Result ℕ
  id_result (ok _) id = ok id
  id_result (failure e message) id = failure e message

  -- The counter of `IdGenerator` goes in and comes out.
  unfoldable pub create_checkpoint :
      Text → Bytes → Readings → StateManager S × ℕ → Result ℕ × (StateManager S × ℕ)
  unfolding id_result build_checkpoint
  create_checkpoint name state r (m, counter) =
      let id = generate_checkpoint_id r.steady counter in
      let c = build_checkpoint id name state r in
      let (saved, s) = storage.save id (Checkpoint.serialize c) m.storage in
      (
        id_result saved id,
        (
          record m {
            storage = s;
            checkpoints = OrderedMap.insert id c m.checkpoints;
            current_state = state;
            latest_checkpoint_id = id;
          },
          next_counter counter,
        ),
      )

  unfoldable pub get_checkpoint : ℕ → StateManager S → Result Checkpoint
  get_checkpoint id m = elim (OrderedMap.find id m.checkpoints) [
    | none ↦ failure ErrorCode.checkpoint_not_found (codes "Checkpoint not found: " ++ to_string id)
    | some c ↦ ok c
  ]

  -- The result of the storage's `save` is dropped.
  unfoldable pub update_checkpoint :
      ℕ → Bytes → Timestamp → StateManager S → Result (Unit {0}) × StateManager S
  update_checkpoint id state now m = elim (OrderedMap.find id m.checkpoints) [
    | none ↦ (failure ErrorCode.checkpoint_not_found [], m)
    | some c ↦
        let c' = Checkpoint.set_data state now c in
        (
          ok tt,
          record m {
            storage = (storage.save id (Checkpoint.serialize c') m.storage).1;
            checkpoints = OrderedMap.insert id c' m.checkpoints;
          },
        )
  ]

  unfoldable pub delete_checkpoint : ℕ → StateManager S → Result (Unit {0}) × StateManager S
  delete_checkpoint id m = elim (OrderedMap.find id m.checkpoints) [
    | none ↦ (failure ErrorCode.checkpoint_not_found [], m)
    | some c ↦ (
      ok tt,
      record m {
        storage = (storage.remove id m.storage).1;
        checkpoints = OrderedMap.erase id m.checkpoints;
      },
    )
  ]

  unfoldable pub list_checkpoints : StateManager S → List CheckpointMetadata
  list_checkpoints m = map (λ e. e.1.metadata) m.checkpoints

  unfoldable pub set_auto_save_interval : ℕ → StateManager S → StateManager S
  set_auto_save_interval interval m = record m { auto_save_interval = interval }

  -- Starts the thread of the loop, or stops it and waits for its end.
  unfoldable pub enable_auto_save : Bool → StateManager S → StateManager S
  enable_auto_save enable m =
      let m' =
        if enable && not m.running
        then record m { running = true; auto_save_enabled = true }
        else if not enable && m.running
        then record m { running = false }
        else m in
      record m' { auto_save_enabled = enable }

  is_empty : Bytes → Bool
  is_empty [] = true
  is_empty (b ∷ s) = false

  -- One round of `autoSaveLoop` after its wait; `formatted` is the time as text.
  unfoldable pub auto_save_round : Text → Readings → StateManager S × ℕ → StateManager S × ℕ
  unfolding is_empty
  auto_save_round formatted r (m, counter) =
      let name = codes "AutoSave_" ++ formatted in
      let saved = (create_checkpoint name m.current_state r (m, counter)).1 in
      if m.running && (m.auto_save_enabled && not (is_empty m.current_state))
      then saved
      else (m, counter)

  unfoldable pub get_current_state : StateManager S → Result Bytes
  get_current_state m = ok m.current_state

  pub get_latest_checkpoint_id : StateManager S → Result ℕ
  get_latest_checkpoint_id m =
      if m.latest_checkpoint_id == 0
      then failure ErrorCode.checkpoint_not_found (codes "No checkpoints exist")
      else ok m.latest_checkpoint_id

  unfoldable pub get_checkpoint_count : StateManager S → ℕ
  get_checkpoint_count m = length m.checkpoints

  unfoldable pub get_total_storage_size : StateManager S → ℕ
  get_total_storage_size m = storage.get_total_size m.storage
