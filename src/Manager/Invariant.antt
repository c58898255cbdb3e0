-- ===== src/Manager/Invariant.antt =====
-- The invariant of the checkpoints in memory of `StateManager` (src/state/state_manager.cpp).
use process_snapshot.Prelude.{
  ℕ, ◌≡◌, refl, Bytes, Text, Bool, true, not, All, ◌&&◌, codes, ◌++◌, arith, Option-cases,
  Bool-cases, inl, inr,
}
use process_snapshot.Utils.{Timestamp, generate_checkpoint_id}
use process_snapshot.OrderedMap
use process_snapshot.OrderedMap.{IsSorted}
use process_snapshot.OrderedMap.Laws.{
  All-insert, All-erase, All-find, insert-IsSorted, erase-IsSorted,
}
use process_snapshot.State.Checkpoint
use process_snapshot.State.Checkpoint.{Checkpoint, verify_integrity}
use process_snapshot.State.Checkpoint.Integrity.{verify_integrity-set_data}
use process_snapshot.Storage.{IStorage}
use process_snapshot.Manager.{
  StateManager, Readings, build_checkpoint, new, create_checkpoint, update_checkpoint,
  delete_checkpoint, enable_auto_save, auto_save_round, is_empty,
}

-- An entry whose checkpoint has the entry's id and passes the integrity check.
abbrev pub IsSound : ℕ × Checkpoint → Type 0
IsSound e = (e.1.metadata.id ≡ e.0) × (verify_integrity e.1 ≡ true)

pub record IsConsistent {S : Type 0} (m : StateManager S) : Type 0 where
  pub sorted : IsSorted m.checkpoints
  pub sound : All IsSound m.checkpoints

build_checkpoint-IsSound :
    (id : ℕ) (name : Text) (state : Bytes) (r : Readings)
    → IsSound (id, build_checkpoint id name state r)
unfolding build_checkpoint Checkpoint.set_status Checkpoint.set_data Checkpoint.new verify_integrity
build_checkpoint-IsSound id name state r =
    (refl, verify_integrity-set_data state r.data_set (Checkpoint.new id name r.constructed))

set_data-IsSound :
    (id : ℕ) (state : Bytes) (now : Timestamp) (c : Checkpoint)
    → IsSound (id, c)
    → IsSound (id, Checkpoint.set_data state now c)
unfolding Checkpoint.set_data
set_data-IsSound id state now c h = (h.0, verify_integrity-set_data state now c)

module _ {S : Type 0} (storage : IStorage S) where
  pub new-IsConsistent : (s : S) → IsConsistent (new storage s)
  unfolding new
  new-IsConsistent s = record { sorted = tt; sound = tt }

  -- A creation keeps the invariant, whatever the storage does.
  pub create_checkpoint-IsConsistent :
      (name : Text) (state : Bytes) (r : Readings) (m : StateManager S) (counter : ℕ)
      → IsConsistent m
      → IsConsistent (create_checkpoint storage name state r (m, counter)).1.0
  unfolding create_checkpoint
  create_checkpoint-IsConsistent name state r m counter v =
      let id = generate_checkpoint_id r.steady counter in
      let c = build_checkpoint id name state r in
      record {
        sorted = insert-IsSorted id c m.checkpoints v.sorted;
        sound =
            All-insert IsSound id c m.checkpoints (build_checkpoint-IsSound id name state r)
              v.sound;
      }

  pub update_checkpoint-IsConsistent :
      (id : ℕ) (state : Bytes) (now : Timestamp) (m : StateManager S)
      → IsConsistent m
      → IsConsistent (update_checkpoint storage id state now m).1
  unfolding update_checkpoint
  update_checkpoint-IsConsistent id state now m v =
      elim (Option-cases (OrderedMap.find id m.checkpoints)) [
        | inl absent ↦ rw (absent, update_checkpoint) v
        | inr (c, present) ↦
            let c' = Checkpoint.set_data state now c in
            let s =
              set_data-IsSound id state now c (All-find IsSound id m.checkpoints v.sound present) in
            rw (present, update_checkpoint)
              (record {
                sorted = insert-IsSorted id c' m.checkpoints v.sorted;
                sound = All-insert IsSound id c' m.checkpoints s v.sound;
              })
      ]

  pub delete_checkpoint-IsConsistent :
      (id : ℕ) (m : StateManager S)
      → IsConsistent m
      → IsConsistent (delete_checkpoint storage id m).1
  unfolding delete_checkpoint
  delete_checkpoint-IsConsistent id m v = elim (Option-cases (OrderedMap.find id m.checkpoints)) [
    | inl absent ↦ rw (absent, delete_checkpoint) v
    | inr (c, present) ↦
        rw (present, delete_checkpoint)
          (record {
            sorted = erase-IsSorted id m.checkpoints v.sorted;
            sound = All-erase IsSound id m.checkpoints v.sound;
          })
  ]

  enable_auto_save-checkpoints :
      (enable : Bool) (m : StateManager S)
      → (enable_auto_save storage enable m).checkpoints ≡ m.checkpoints
  unfolding enable_auto_save
  enable_auto_save-checkpoints enable m = ground arith

  pub auto_save_round-IsConsistent :
      (formatted : Text) (r : Readings) (m : StateManager S) (counter : ℕ)
      → IsConsistent m
      → IsConsistent (auto_save_round storage formatted r (m, counter)).0
  auto_save_round-IsConsistent formatted r m counter v =
      elim (Bool-cases
        (m.running && (m.auto_save_enabled && not (is_empty storage m.current_state)))) [
          | inl go ↦
              unfold auto_save_round in
              rw go (
                create_checkpoint-IsConsistent (codes "AutoSave_" ++ formatted) m.current_state r m
                  counter v)
          | inr stay ↦ unfold auto_save_round in rw stay v
        ]

  -- What a manager's users and its auto-save thread do, one step at a time, in any order.
  pub data Step : StateManager S × ℕ → StateManager S × ℕ → Type 0 where
    create :
        (name : Text) (state : Bytes) (r : Readings) (w : StateManager S × ℕ)
        → Step w (create_checkpoint storage name state r w).1
    update :
        (id : ℕ) (state : Bytes) (now : Timestamp) (m : StateManager S) (counter : ℕ)
        → Step (m, counter) ((update_checkpoint storage id state now m).1, counter)
    delete :
        (id : ℕ) (m : StateManager S) (counter : ℕ)
        → Step (m, counter) ((delete_checkpoint storage id m).1, counter)
    enable :
        (on : Bool) (m : StateManager S) (counter : ℕ)
        → Step (m, counter) (enable_auto_save storage on m, counter)
    auto_save :
        (formatted : Text) (r : Readings) (w : StateManager S × ℕ)
        → Step w (auto_save_round storage formatted r w)

  pub data Reach (w : StateManager S × ℕ) : StateManager S × ℕ → Type 0 where
    here : Reach w w
    next : {u v : StateManager S × ℕ} → Reach w u → Step u v → Reach w v

  Step-IsConsistent : {u v : StateManager S × ℕ} → Step u v → IsConsistent u.0 → IsConsistent v.0
  Step-IsConsistent (create name state r w) h =
      create_checkpoint-IsConsistent name state r w.0 w.1 h
  Step-IsConsistent (update id state now m counter) h =
      update_checkpoint-IsConsistent id state now m h
  Step-IsConsistent (delete id m counter) h = delete_checkpoint-IsConsistent id m h
  Step-IsConsistent (enable on m counter) h =
      let e = enable_auto_save-checkpoints on m in
      record { sorted = rw e h.sorted; sound = rw e h.sound }
  Step-IsConsistent (auto_save formatted r w) h = auto_save_round-IsConsistent formatted r w.0 w.1 h

  -- From a new manager, whatever its users and the auto-save thread do and in whatever order, the
  -- checkpoints are in ascending order of their ids, each one is filed under its own id, and each
  -- one passes the integrity check.
  pub Reach-IsConsistent :
      (s : S) (counter : ℕ) {w : StateManager S × ℕ}
      → Reach (new storage s, counter) w
      → IsConsistent w.0
  Reach-IsConsistent s counter here = new-IsConsistent s
  Reach-IsConsistent s counter (next r st) = Step-IsConsistent st (Reach-IsConsistent s counter r)
