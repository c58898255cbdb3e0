-- ===== src/Manager/Restart.antt =====
-- What a manager that is opened over a storage finds there.
use process_snapshot.Prelude.{
  ℕ, ◌≡◌, refl, Bytes, Text, List, [], ◌∷◌, Option, none, some, Bool, true, false, All, ltb,
  if◌then◌else◌, ◌==◌, ==_iff, append-nil, arith, Option-cases, inl, inr, sym, subst, ap, ◌∙◌,
}
use process_snapshot.Types.{ok, failure, ErrorCode, is_success}
use process_snapshot.Utils.{Timestamp, generate_checkpoint_id}
use process_snapshot.OrderedMap
use process_snapshot.OrderedMap.{is_some, contains}
use process_snapshot.OrderedMap.Laws.{find-insert, find-erase, All-find}
use process_snapshot.State.Checkpoint
use process_snapshot.State.Checkpoint.{Checkpoint}
use process_snapshot.State.Checkpoint.RoundTrip.{
  IsStorable, stored, deserialize-serialize_checkpoint,
}
use process_snapshot.Storage.{IStorage, IsStorage, loaded}
use process_snapshot.Manager.{
  StateManager, Readings, build_checkpoint, new, open_one, open_all, open_storage,
  create_checkpoint, update_checkpoint, delete_checkpoint, get_checkpoint,
}

abbrev pub serialized : Option Checkpoint → Option Bytes
serialized none = none
serialized (some c) = some (Checkpoint.serialize c)

abbrev pub reopened : Option Checkpoint → Option Checkpoint
reopened none = none
reopened (some c) = some (stored c)

checkpoint_trip :
    (c : Checkpoint)
    → IsStorable c
    → Checkpoint.deserialize (Checkpoint.serialize c) ≡ some (stored c, [])
checkpoint_trip c v = rw append-nil at (deserialize-serialize_checkpoint c [] v)

module _ {S : Type 0} (storage : IStorage S) (contract : IsStorage storage) where
  -- The storage holds, under each id, exactly what `serialize` makes of the checkpoint in memory.
  abbrev pub IsPersisted : StateManager S → Type 0
  IsPersisted m =
      (id : ℕ) → contract.lookup m.storage id ≡ serialized (OrderedMap.find id m.checkpoints)

  -- A creation whose save succeeds keeps storage and memory in step.
  pub create_checkpoint-IsPersisted :
      (name : Text) (state : Bytes) (r : Readings) (m : StateManager S) (counter : ℕ)
      → is_success (create_checkpoint storage name state r (m, counter)).0 ≡ true
      → IsPersisted m
      → IsPersisted (create_checkpoint storage name state r (m, counter)).1.0
  unfolding create_checkpoint
  create_checkpoint-IsPersisted name state r m counter done h j =
      let id = generate_checkpoint_id r.steady counter in
      let c = build_checkpoint id name state r in
      ground (
        arith,
        h j,
        find-insert j id c m.checkpoints,
        contract.save_done id j (Checkpoint.serialize c) m.storage,
      )

  -- A deletion keeps them in step, without a condition.
  pub delete_checkpoint-IsPersisted :
      (id : ℕ) (m : StateManager S) → IsPersisted m → IsPersisted (delete_checkpoint storage id m).1
  delete_checkpoint-IsPersisted id m h j = elim (Option-cases (OrderedMap.find id m.checkpoints)) [
    | inl absent ↦ unfold delete_checkpoint in rw (absent, delete_checkpoint) (h j)
    | inr (c, present) ↦
        unfold delete_checkpoint in
        rw (present, delete_checkpoint)
          (ground (arith, h j, find-erase j id m.checkpoints, contract.remove_lem id j m.storage))
  ]

  -- An update that finds its id reports success and shows the new data, and the storage has them
  -- only if its `save` took them: after a failed save it keeps the old data.
  pub update_checkpoint-lookup :
      (id : ℕ) (state : Bytes) (now : Timestamp) (m : StateManager S) {c : Checkpoint}
      → OrderedMap.find id m.checkpoints ≡ some c
      → IsPersisted m
      → let c' = Checkpoint.set_data state now c in
        let saved = is_success (storage.save id (Checkpoint.serialize c') m.storage).0 in
        let m' = (update_checkpoint storage id state now m).1 in
        ((update_checkpoint storage id state now m).0 ≡ ok tt)
        × (get_checkpoint storage id m' ≡ ok c')
        × (contract.lookup m'.storage id ≡ some (Checkpoint.serialize (if saved then c' else c)))
  unfolding update_checkpoint get_checkpoint
  update_checkpoint-lookup id state now m {c} present h =
      let c' = Checkpoint.set_data state now c in
      let d = Checkpoint.serialize c' in
      let facts = contract.save_done id id d m.storage in
      let others = contract.save_failed id id d m.storage in
      (
        rw (present, update_checkpoint),
        rw (present, update_checkpoint) (ground (arith, find-insert id id c' m.checkpoints)),
        rw (present, update_checkpoint) (ground (arith, h id, present, facts, others)),
      )

  open_all-cons :
      (id : ℕ) (ids : List ℕ) (n : StateManager S) {n' : StateManager S}
      → open_one storage (storage.load id n.storage) id n ≡ some n'
      → open_all storage (id ∷ ids) n ≡ open_all storage ids n'
  unfolding open_all
  open_all-cons id ids n h = rw (h, open_all)

  module _ (m : StateManager S) (persisted : IsPersisted m)
      (storable : All (λ e. IsStorable e.1) m.checkpoints) where
    -- What the reopened manager finds under an id that was in the list.
    abbrev found : Bool → Option Checkpoint → Option Checkpoint → Option Checkpoint
    found true (some c) old = some (stored c)
    found true none old = old
    found false o old = old

    open_one_lem :
        (id : ℕ) (n : StateManager S)
        → (n' : StateManager S) × (open_one storage (storage.load id m.storage) id n ≡ some n')
          × (n'.storage ≡ n.storage)
          × ((j : ℕ)
              → OrderedMap.find j n'.checkpoints
                ≡ found
                    (id == j)
                    (OrderedMap.find j m.checkpoints)
                    (OrderedMap.find j n.checkpoints))
    open_one_lem id n = elim (Option-cases (OrderedMap.find id m.checkpoints)) [
      | inl absent ↦
          let e : storage.load id m.storage ≡ failure ErrorCode.checkpoint_not_found [] =
            contract.load_lem id m.storage ∙ ap loaded (persisted id ∙ ap serialized absent) in
          (n, unfold open_one in rw (e, open_one), refl, λ j. ground (arith, ==_iff id j))
      | inr (c, present) ↦
          let e : storage.load id m.storage ≡ ok (Checkpoint.serialize c) =
            contract.load_lem id m.storage ∙ ap loaded (persisted id ∙ ap serialized present) in
          let t =
            checkpoint_trip c (All-find (λ e. IsStorable e.1) id m.checkpoints storable present) in
          (
            record n {
              checkpoints = OrderedMap.insert id (stored c) n.checkpoints;
              latest_checkpoint_id =
                  if ltb n.latest_checkpoint_id id then id else n.latest_checkpoint_id;
            },
            unfold open_one in rw (e, open_one) (rw t),
            refl,
            λ j. ground (arith, ==_iff id j, find-insert j id (stored c) n.checkpoints),
          )
    ]

    open_all_lem :
        (ids : List ℕ) (n : StateManager S)
        → n.storage ≡ m.storage
        → (n' : StateManager S) × (open_all storage ids n ≡ some n')
          × ((j : ℕ)
              → OrderedMap.find j n'.checkpoints
                ≡ found
                    (contains j ids)
                    (OrderedMap.find j m.checkpoints)
                    (OrderedMap.find j n.checkpoints))
    unfolding open_all contains
    open_all_lem [] n same = (n, refl, λ j. refl)
    open_all_lem (id ∷ ids) n same =
        let (n1, done, kept, first) = open_one_lem id n in
        let (n2, all, others) = open_all_lem ids n1 (kept ∙ same) in
        let here =
          subst (λ s. open_one storage (storage.load id s) id n ≡ some n1) (sym same) done in
        (n2, open_all-cons id ids n here ∙ all, λ j. ground (arith, first j, others j))

    -- Where storage and memory are in step and each checkpoint fits the format, a manager that is
    -- opened over the storage has exactly the checkpoints of the first, as the format keeps them.
    pub open_storage_lem :
        (n : StateManager S) × (open_storage storage m.storage ≡ some n)
        × ((id : ℕ)
            → OrderedMap.find id n.checkpoints ≡ reopened (OrderedMap.find id m.checkpoints))
    unfolding open_storage new OrderedMap.find
    open_storage_lem =
        let (n, done, finds) =
          open_all_lem (storage.list_all m.storage) (new storage m.storage) refl in
        (n, done, λ id. ground (arith, finds id, contract.list_all_lem id m.storage, persisted id))
