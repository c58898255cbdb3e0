-- ===== src/Storage/Memory.antt =====
-- `MemoryStorage` (src/state/storage.cpp). The data all lies in one address space, so that the sums
-- of sizes stay below 2 ^ 64.
pub mod Laws
use process_snapshot.Prelude.{
  ℕ, ◌+◌, Bytes, List, [], ◌∷◌, Option, none, some, Bool, codes, length, ltb, if◌then◌else◌,
}
use process_snapshot.Types.{Result, ok, failure, ErrorCode}
use process_snapshot.OrderedMap
use process_snapshot.OrderedMap.{is_some}
use process_snapshot.Storage.{IStorage, loaded}

pub record MemoryStorage : Type 0 where
  pub storage : List (ℕ × Bytes)
  pub max_size : ℕ

unfoldable pub new : ℕ → MemoryStorage
new max_size = record { storage = []; max_size = max_size }

abbrev pub sum_sizes : List (ℕ × Bytes) → ℕ
sum_sizes [] = 0
sum_sizes ((_, d) ∷ m) = length d + sum_sizes m

unfoldable pub get_total_size : MemoryStorage → ℕ
get_total_size s = sum_sizes s.storage

unfoldable pub save : ℕ → Bytes → MemoryStorage → Result (Unit {0}) × MemoryStorage
unfolding get_total_size
save id d s =
    if ltb s.max_size (get_total_size s + length d)
    then (failure ErrorCode.out_of_memory (codes "Memory storage limit exceeded"), s)
    else (ok tt, record s { storage = OrderedMap.insert id d s.storage })

unfoldable pub load : ℕ → MemoryStorage → Result Bytes
load id s = loaded (OrderedMap.find id s.storage)

unfoldable pub remove : ℕ → MemoryStorage → Result (Unit {0}) × MemoryStorage
remove id s = (ok tt, record s { storage = OrderedMap.erase id s.storage })

unfoldable pub exists : ℕ → MemoryStorage → Bool
exists id s = is_some (OrderedMap.find id s.storage)

-- The map iterates in ascending order, so that the `std::sort` of the source changes nothing.
unfoldable pub list_all : MemoryStorage → List ℕ
list_all s = OrderedMap.keys s.storage

unfoldable pub get_size : ℕ → MemoryStorage → ℕ
get_size id s = elim (OrderedMap.find id s.storage) [ none ↦ 0 | some d ↦ length d ]

unfoldable pub clear : MemoryStorage → MemoryStorage
clear s = record s { storage = [] }

unfoldable pub set_max_size : ℕ → MemoryStorage → MemoryStorage
set_max_size size s = record s { max_size = size }

abbrev pub memory_storage : IStorage MemoryStorage
memory_storage = record {
  save = save;
  load = load;
  remove = remove;
  exists = exists;
  list_all = list_all;
  get_size = get_size;
  get_total_size = get_total_size;
}
