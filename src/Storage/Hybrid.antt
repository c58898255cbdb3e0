-- ===== src/Storage/Hybrid.antt =====
-- `HybridStorage` (src/state/storage.cpp): small data in memory, large data in files. The file
-- storage is any storage that has the interface.
pub mod Laws
use process_snapshot.Prelude.{
  ℕ, zero, suc, ◌+◌, ◌/◌, Bytes, List, [], ◌∷◌, Bool, ◌||◌, ◌&&◌, not, length, ltb, ◌==◌,
  if◌then◌else◌,
}
use process_snapshot.Types.{Result, ok, failure}
use process_snapshot.Storage.{IStorage}
use process_snapshot.Storage.Memory
use process_snapshot.Storage.Memory.{MemoryStorage}

pub record HybridStorage (S : Type 0) : Type 0 where
  pub memory : MemoryStorage
  pub file : S
  pub threshold : ℕ

-- `std::set_union` of two ascending lists, each round drops one element at least.
merge : ℕ → List ℕ → List ℕ → List ℕ
merge zero xs ys = []
merge (suc fuel) [] ys = ys
merge (suc fuel) (x ∷ xs) [] = x ∷ xs
merge (suc fuel) (x ∷ xs) (y ∷ ys) =
    let left = x ∷ merge fuel xs (y ∷ ys) in
    let right = y ∷ merge fuel (x ∷ xs) ys in
    let both = x ∷ merge fuel xs ys in if ltb x y then left else if ltb y x then right else both

unfoldable pub set_union : List ℕ → List ℕ → List ℕ
unfolding merge
set_union xs ys = merge (suc (length xs + length ys)) xs ys

module _ {S : Type 0} (files : IStorage S) where
  unfoldable pub new : S → ℕ → HybridStorage S
  new file threshold = record { memory = Memory.new threshold; file = file; threshold = threshold }

  unfoldable pub save : ℕ → Bytes → HybridStorage S → Result (Unit {0}) × HybridStorage S
  save id d h =
      if ltb (length d) (h.threshold / 10)
      then (let (r, m) = Memory.save id d h.memory in (r, record h { memory = m }))
      else (let (r, f) = files.save id d h.file in (r, record h { file = f }))

  unfoldable pub load : ℕ → HybridStorage S → Result Bytes
  load id h = if Memory.exists id h.memory then Memory.load id h.memory else files.load id h.file

  unfoldable pub remove : ℕ → HybridStorage S → Result (Unit {0}) × HybridStorage S
  remove id h =
      let memory = if Memory.exists id h.memory then (Memory.remove id h.memory).1 else h.memory in
      let file = if files.exists id h.file then (files.remove id h.file).1 else h.file in
      (ok tt, record h { memory = memory; file = file })

  unfoldable pub exists : ℕ → HybridStorage S → Bool
  exists id h = Memory.exists id h.memory || files.exists id h.file

  unfoldable pub list_all : HybridStorage S → List ℕ
  list_all h = set_union (Memory.list_all h.memory) (files.list_all h.file)

  unfoldable pub get_size : ℕ → HybridStorage S → ℕ
  get_size id h =
      if Memory.exists id h.memory then Memory.get_size id h.memory else files.get_size id h.file

  unfoldable pub get_total_size : HybridStorage S → ℕ
  get_total_size h = Memory.get_total_size h.memory + files.get_total_size h.file

  -- The loop of `flushToFile`: the entry leaves the memory whatever the file storage says.
  flush_one : Result Bytes → ℕ → HybridStorage S → HybridStorage S
  flush_one (failure e message) id h = h
  flush_one (ok d) id h = record h {
    memory = (Memory.remove id h.memory).1;
    file = (files.save id d h.file).1;
  }

  flush_all : List ℕ → HybridStorage S → HybridStorage S
  flush_all [] h = h
  flush_all (id ∷ ids) h = flush_all ids (flush_one (Memory.load id h.memory) id h)

  unfoldable pub flush_to_file : HybridStorage S → HybridStorage S
  unfolding flush_one flush_all
  flush_to_file h = flush_all (Memory.list_all h.memory) h

  load_one : Result Bytes → ℕ → HybridStorage S → HybridStorage S
  load_one (failure e message) id h = h
  load_one (ok d) id h = record h { memory = (Memory.save id d h.memory).1 }

  unfoldable pub load_to_memory : ℕ → HybridStorage S → HybridStorage S
  unfolding load_one
  load_to_memory id h =
      if files.exists id h.file && not (Memory.exists id h.memory)
      then load_one (files.load id h.file) id h
      else h

  abbrev pub hybrid_storage : IStorage (HybridStorage S)
  hybrid_storage = record {
    save = save;
    load = load;
    remove = remove;
    exists = exists;
    list_all = list_all;
    get_size = get_size;
    get_total_size = get_total_size;
  }
