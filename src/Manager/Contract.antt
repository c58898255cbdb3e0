-- ===== src/Manager/Contract.antt =====
-- What a client of `StateManager` sees after each operation.
use process_snapshot.Prelude.{
  ℕ, ◌≡◌, refl, Bytes, Text, [], ◌++◌, none, codes, to_string, ◌==◌, if◌then◌else◌, arith,
  Option-cases, ◌⊎◌, inl, inr, ==_iff,
}
use process_snapshot.Types.{ok, failure, ErrorCode, is_success}
use process_snapshot.Utils.{Timestamp, generate_checkpoint_id}
use process_snapshot.OrderedMap
use process_snapshot.OrderedMap.Laws.{find-insert, find-erase}
use process_snapshot.State.Checkpoint
use process_snapshot.State.Checkpoint.{Checkpoint}
use process_snapshot.Storage.{IStorage}
use process_snapshot.Manager.{
  StateManager, Readings, build_checkpoint, create_checkpoint, get_checkpoint, update_checkpoint,
  delete_checkpoint, get_current_state, get_latest_checkpoint_id,
}

module _ {S : Type 0} (storage : IStorage S) where
  -- After a creation, whether the storage took the checkpoint or not, the new id has the new
  -- checkpoint, the other ids have theirs, the current state is the given one, and the new id is the
  -- latest, unless it is 0: then no checkpoint is said to exist.
  pub create_checkpoint_lem :
      (name : Text) (state : Bytes) (r : Readings) (m : StateManager S) (counter j : ℕ)
      → let id = generate_checkpoint_id r.steady counter in
        let m' = (create_checkpoint storage name state r (m, counter)).1.0 in
        (get_checkpoint storage j m'
          ≡ (if id == j then ok (build_checkpoint id name state r) else get_checkpoint storage j m))
        × (get_current_state storage m' ≡ ok state)
        × (get_latest_checkpoint_id storage m' ≡ (
            if id == 0
            then failure ErrorCode.checkpoint_not_found (codes "No checkpoints exist")
            else ok id))
  unfolding create_checkpoint get_checkpoint get_current_state get_latest_checkpoint_id
  create_checkpoint_lem name state r m counter j =
      let id = generate_checkpoint_id r.steady counter in
      let c = build_checkpoint id name state r in
      (ground (arith, find-insert j id c m.checkpoints), refl, refl)

  -- An update of an id that exists succeeds and replaces the data under this id alone. Any other
  -- fails with `CheckpointNotFound` and changes nothing.
  pub update_checkpoint_lem :
      (id : ℕ) (state : Bytes) (now : Timestamp) (m : StateManager S)
      → ((OrderedMap.find id m.checkpoints ≡ none)
          × (update_checkpoint storage id state now m
              ≡ (failure ErrorCode.checkpoint_not_found [], m)))
        ⊎ ((c : Checkpoint) × (get_checkpoint storage id m ≡ ok c)
            × ((update_checkpoint storage id state now m).0 ≡ ok tt)
            × ((j : ℕ)
                → get_checkpoint storage j (update_checkpoint storage id state now m).1 ≡ (
                    if id == j
                    then ok (Checkpoint.set_data state now c)
                    else get_checkpoint storage j m)))
  update_checkpoint_lem id state now m = elim (Option-cases (OrderedMap.find id m.checkpoints)) [
    | inl absent ↦ inl (absent, unfold update_checkpoint in rw (absent, update_checkpoint))
    | inr (c, present) ↦ inr (
      c,
      unfold get_checkpoint in rw (present, get_checkpoint),
      unfold update_checkpoint in rw (present, update_checkpoint),
      λ j.
          unfold update_checkpoint get_checkpoint in
          rw (present, update_checkpoint)
            (ground (
              arith,
              find-insert j id (Checkpoint.set_data state now c) m.checkpoints,
              ==_iff id j,
            )),
    )
  ]

  -- After a deletion the id is unknown and the other ids have their checkpoints; the result is
  -- `CheckpointNotFound` exactly when the id was unknown before.
  pub delete_checkpoint_lem :
      (id j : ℕ) (m : StateManager S)
      → let unknown =
          failure ErrorCode.checkpoint_not_found (codes "Checkpoint not found: " ++ to_string j) in
        (get_checkpoint storage j (delete_checkpoint storage id m).1
          ≡ (if id == j then unknown else get_checkpoint storage j m))
        × (is_success (delete_checkpoint storage id m).0 ≡ is_success (get_checkpoint storage id m))
  unfolding delete_checkpoint get_checkpoint
  delete_checkpoint_lem id j m = elim (Option-cases (OrderedMap.find id m.checkpoints)) [
    | inl absent ↦ (
      rw (absent, delete_checkpoint) (ground (arith, absent, ==_iff id j)),
      rw (absent, delete_checkpoint, get_checkpoint),
    )
    | inr (c, present) ↦ (
      rw (present, delete_checkpoint) (ground (arith, find-erase j id m.checkpoints)),
      rw (present, delete_checkpoint, get_checkpoint),
    )
  ]
