-- ===== src/Tests/Manager.antt =====
-- The manager at concrete inputs, over a storage that takes every save.
use process_snapshot.Prelude.{
  ℕ, ◌≡◌, refl, Bytes, List, [], ◌∷◌, some, false, codes, arith, if◌then◌else◌, ◌==◌,
}
use process_snapshot.Types.{ok, failure, ErrorCode}
use process_snapshot.Utils.{generate_checkpoint_id}
use process_snapshot.OrderedMap
use process_snapshot.State.Checkpoint
use process_snapshot.State.Checkpoint.{Checkpoint}
use process_snapshot.Manager.{
  StateManager, Readings, build_checkpoint, new, open_storage, create_checkpoint, get_checkpoint,
  update_checkpoint, delete_checkpoint, get_current_state, get_latest_checkpoint_id,
}
use process_snapshot.Manager.Contract.{create_checkpoint_lem}
use process_snapshot.Manager.Invariant.{IsConsistent, Reach, Step, Reach-IsConsistent}
use process_snapshot.Manager.Restart.{
  IsPersisted, reopened, update_checkpoint-lookup, open_storage_lem,
}
use process_snapshot.Tests.State.{checkpoint, checkpoint-IsStorable}
use process_snapshot.Tests.Storage.{map_storage, map_storage-IsStorage}

abbrev pub readings : Readings
readings = record { steady = 2; constructed = 10; data_set = 11; status_set = 12 }

-- A manager with one checkpoint, in memory and in its storage.
abbrev pub manager : StateManager (List (ℕ × Bytes))
manager = record {
  storage = (5, Checkpoint.serialize checkpoint) ∷ [];
  checkpoints = (5, checkpoint) ∷ [];
  current_state = 1 ∷ 2 ∷ [];
  latest_checkpoint_id = 5;
  auto_save_enabled = false;
  auto_save_interval = 60000;
  running = false;
}

manager-IsPersisted : IsPersisted map_storage map_storage-IsStorage manager
unfolding map_storage-IsStorage OrderedMap.find
manager-IsPersisted id = ground arith

manager_has_5 : OrderedMap.find 5 manager.checkpoints ≡ some checkpoint
unfolding OrderedMap.find
manager_has_5 = refl

create_checkpoint_lem_example :
    let m' = (create_checkpoint map_storage (codes "b") (3 ∷ []) readings (manager, 7)).1.0 in
    let id = generate_checkpoint_id 2 7 in
    (get_checkpoint map_storage 5 m' ≡ (
      if id == 5
      then ok (build_checkpoint id (codes "b") (3 ∷ []) readings)
      else get_checkpoint map_storage 5 manager))
    × (get_current_state map_storage m' ≡ ok (3 ∷ []))
    × (get_latest_checkpoint_id map_storage m' ≡ (
        if id == 0
        then failure ErrorCode.checkpoint_not_found (codes "No checkpoints exist")
        else ok id))
create_checkpoint_lem_example =
    create_checkpoint_lem map_storage (codes "b") (3 ∷ []) readings manager 7 5

update_checkpoint-lookup_example :
    let c' = Checkpoint.set_data (3 ∷ []) 20 checkpoint in
    let m' = (update_checkpoint map_storage 5 (3 ∷ []) 20 manager).1 in
    ((update_checkpoint map_storage 5 (3 ∷ []) 20 manager).0 ≡ ok tt)
    × (get_checkpoint map_storage 5 m' ≡ ok c')
    × (map_storage-IsStorage.lookup m'.storage 5 ≡ some (Checkpoint.serialize c'))
update_checkpoint-lookup_example =
    update_checkpoint-lookup map_storage map_storage-IsStorage 5 (3 ∷ []) 20 manager manager_has_5
      manager-IsPersisted

open_storage_lem_example :
    (n : StateManager (List (ℕ × Bytes))) × (open_storage map_storage manager.storage ≡ some n)
    × ((id : ℕ)
        → OrderedMap.find id n.checkpoints ≡ reopened (OrderedMap.find id manager.checkpoints))
open_storage_lem_example =
    open_storage_lem map_storage map_storage-IsStorage manager manager-IsPersisted
      (checkpoint-IsStorable, tt)

-- A creation and a deletion.
abbrev one : StateManager (List (ℕ × Bytes)) × ℕ
one = (create_checkpoint map_storage (codes "a") (1 ∷ []) readings (new map_storage [], 1)).1

abbrev two : StateManager (List (ℕ × Bytes)) × ℕ
two = ((delete_checkpoint map_storage 5 one.0).1, one.1)

Reach-IsConsistent_example : IsConsistent two.0
Reach-IsConsistent_example = Reach-IsConsistent map_storage [] 1 (
    Reach.next
      (Reach.next Reach.here (Step.create (codes "a") (1 ∷ []) readings (new map_storage [], 1)))
      (Step.delete 5 one.0 one.1))
