-- ===== src/Storage/Hybrid/Laws.antt =====
-- `HybridStorage` (src/state/storage.cpp) against the contract of a storage.
use process_snapshot.Prelude.{
  ℕ, zero, suc, ◌+◌, ◌/◌, ◌<◌, ◌≡◌, refl, Bytes, List, [], ◌∷◌, true, false, ◌||◌, ◌&&◌, not,
  Option, none, some, length, ltb, ◌==◌, if◌then◌else◌, arith, Option-cases, inl, inr, ap, sym, ◌∙◌,
  ==_iff,
}
use process_snapshot.Types.{ok, failure, ErrorCode, is_success}
use process_snapshot.OrderedMap
use process_snapshot.OrderedMap.{is_some, contains}
use process_snapshot.OrderedMap.Laws.{find-insert, find-erase, contains-keys}
use process_snapshot.Storage.{IStorage, IsStorage, loaded}
use process_snapshot.Storage.Memory
use process_snapshot.Storage.Hybrid.{
  HybridStorage, merge, set_union, save, load, remove, exists, list_all, flush_one, flush_all,
  flush_to_file,
}

contains-merge :
    (fuel k : ℕ) (xs ys : List ℕ)
    → length xs + length ys < fuel
    → contains k (merge fuel xs ys) ≡ contains k xs || contains k ys
unfolding merge contains
contains-merge zero k xs ys h = absurd (omega arith)
contains-merge (suc fuel) k [] ys h = refl
contains-merge (suc fuel) k (x ∷ xs) [] h = ground arith
contains-merge (suc fuel) k (x ∷ xs) (y ∷ ys) h = ground (
  arith,
  contains-merge fuel k xs (y ∷ ys),
  contains-merge fuel k (x ∷ xs) ys,
  contains-merge fuel k xs ys,
)

pub contains-set_union :
    (k : ℕ) (xs ys : List ℕ) → contains k (set_union xs ys) ≡ contains k xs || contains k ys
unfolding set_union
contains-set_union k xs ys = contains-merge (suc (length xs + length ys)) k xs ys (omega arith)

module _ {S : Type 0} (files : IStorage S) (contract : IsStorage files) where
  -- What is found under an id: the entry in memory hides the one in the file.
  abbrev pub lookup : HybridStorage S → ℕ → Option Bytes
  lookup h id = elim (OrderedMap.find id h.memory.storage) [
    | none ↦ contract.lookup h.file id
    | some d ↦ some d
  ]

  pub load_lem : (id : ℕ) (h : HybridStorage S) → load files id h ≡ loaded (lookup h id)
  unfolding load Memory.load Memory.exists
  load_lem id h = ground (arith, contract.load_lem id h.file)

  -- After a save that succeeded an id has the saved data, unless the data went to the file while
  -- the memory holds the id: then it has the data that the memory holds. Other ids keep theirs.
  pub load-save :
      (id j : ℕ) (d : Bytes) (h : HybridStorage S)
      → is_success (save files id d h).0 ≡ true
      → load files j (save files id d h).1 ≡ (
          if id == j && (ltb (length d) (h.threshold / 10) || not (Memory.exists id h.memory))
          then ok d
          else load files j h)
  unfolding save Memory.save Memory.exists
  load-save id j d h done = ground (
    arith,
    load_lem j (save files id d h).1,
    load_lem j h,
    find-insert j id d h.memory.storage,
    contract.save_done id j d h.file,
  )

  -- A removed id can no longer be loaded, and the others load as before.
  pub load-remove :
      (id j : ℕ) (h : HybridStorage S)
      → load files j (remove files id h).1
        ≡ (if id == j then failure ErrorCode.checkpoint_not_found [] else load files j h)
  unfolding remove Memory.remove Memory.exists
  load-remove id j h = ground (
    arith,
    load_lem j (remove files id h).1,
    load_lem j h,
    find-erase j id h.memory.storage,
    contract.remove_lem id j h.file,
    contract.exists_lem id h.file,
  )

  -- `listAll` lists an id exactly if `exists` holds of it.
  pub contains-list_all :
      (id : ℕ) (h : HybridStorage S) → contains id (list_all files h) ≡ exists files id h
  unfolding list_all exists Memory.list_all Memory.exists
  contains-list_all id h = ground (
    arith,
    contains-set_union id (Memory.list_all h.memory) (files.list_all h.file),
    contains-keys id h.memory.storage,
    contract.list_all_lem id h.file,
    contract.exists_lem id h.file,
  )

  lookup-flush_one :
      (reliable : (id : ℕ) (d : Bytes) (s : S) → is_success (files.save id d s).0 ≡ true) (id j : ℕ)
      (h : HybridStorage S)
      → lookup (flush_one files (Memory.load id h.memory) id h) j ≡ lookup h j
  unfolding flush_one Memory.load Memory.remove
  lookup-flush_one reliable id j h = elim (Option-cases (OrderedMap.find id h.memory.storage)) [
    | inl absent ↦ rw (absent, flush_one)
    | inr (d, present) ↦
        rw (present, flush_one)
          (ground (
            arith,
            find-erase j id h.memory.storage,
            contract.save_done id j d h.file,
            reliable id d h.file,
            ==_iff id j,
          ))
  ]

  lookup-flush_all :
      (reliable : (id : ℕ) (d : Bytes) (s : S) → is_success (files.save id d s).0 ≡ true)
      (ids : List ℕ) (h : HybridStorage S) (j : ℕ)
      → lookup (flush_all files ids h) j ≡ lookup h j
  unfolding flush_all
  lookup-flush_all reliable [] h j = refl
  lookup-flush_all reliable (id ∷ ids) h j =
      lookup-flush_all reliable ids (flush_one files (Memory.load id h.memory) id h) j
      ∙ lookup-flush_one reliable id j h

  -- Where the file storage accepts every save, flushing the memory to it changes nothing that can
  -- be loaded.
  pub load-flush_to_file :
      (reliable : (id : ℕ) (d : Bytes) (s : S) → is_success (files.save id d s).0 ≡ true) (j : ℕ)
      (h : HybridStorage S)
      → load files j (flush_to_file files h) ≡ load files j h
  unfolding flush_to_file
  load-flush_to_file reliable j h =
      load_lem j (flush_to_file files h)
      ∙ ap loaded (lookup-flush_all reliable (Memory.list_all h.memory) h j)
      ∙ sym (load_lem j h)

  memory-flush_one :
      (id j : ℕ) (h : HybridStorage S)
      → OrderedMap.find j (flush_one files (Memory.load id h.memory) id h).memory.storage
        ≡ (if id == j then none else OrderedMap.find j h.memory.storage)
  unfolding flush_one Memory.load Memory.remove
  memory-flush_one id j h = elim (Option-cases (OrderedMap.find id h.memory.storage)) [
    | inl absent ↦ rw (absent, flush_one) (ground (arith, absent, ==_iff id j))
    | inr (d, present) ↦ rw (present, flush_one) (find-erase j id h.memory.storage)
  ]

  memory-flush_all :
      (ids : List ℕ) (h : HybridStorage S) (j : ℕ)
      → OrderedMap.find j (flush_all files ids h).memory.storage
        ≡ (if contains j ids then none else OrderedMap.find j h.memory.storage)
  unfolding flush_all contains
  memory-flush_all [] h j = refl
  memory-flush_all (id ∷ ids) h j = ground (
    arith,
    memory-flush_all ids (flush_one files (Memory.load id h.memory) id h) j,
    memory-flush_one id j h,
  )

  module _ (refuses : (id : ℕ) (d : Bytes) (s : S) → is_success (files.save id d s).0 ≡ false) where
    file-flush_one :
        (id j : ℕ) (h : HybridStorage S)
        → contract.lookup (flush_one files (Memory.load id h.memory) id h).file j
          ≡ contract.lookup h.file j
    unfolding flush_one Memory.load
    file-flush_one id j h = elim (Option-cases (OrderedMap.find id h.memory.storage)) [
      | inl absent ↦ rw (absent, flush_one)
      | inr (d, present) ↦
          rw (present, flush_one) (contract.save_failed id j d h.file (refuses id d h.file))
    ]

    file-flush_all :
        (ids : List ℕ) (h : HybridStorage S) (j : ℕ)
        → contract.lookup (flush_all files ids h).file j ≡ contract.lookup h.file j
    unfolding flush_all
    file-flush_all [] h j = refl
    file-flush_all (id ∷ ids) h j =
        file-flush_all ids (flush_one files (Memory.load id h.memory) id h) j
        ∙ file-flush_one id j h

    -- Where the file storage refuses every save, flushing loses all that the memory held: what can
    -- be loaded afterwards is what the file storage had before.
    pub load-flush_to_file_refused :
        (j : ℕ) (h : HybridStorage S)
        → load files j (flush_to_file files h) ≡ loaded (contract.lookup h.file j)
    unfolding flush_to_file Memory.list_all
    load-flush_to_file_refused j h =
        let ids = OrderedMap.keys h.memory.storage in
        ground (
          arith,
          load_lem j (flush_all files ids h),
          memory-flush_all ids h j,
          file-flush_all ids h j,
          contains-keys j h.memory.storage,
        )
