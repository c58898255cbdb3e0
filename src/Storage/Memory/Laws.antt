-- ===== src/Storage/Memory/Laws.antt =====
-- `MemoryStorage` (src/state/storage.cpp): its invariant and the contract of a storage.
use process_snapshot.Prelude.{
  ℕ, ◌+◌, ◌≤◌, refl, Bytes, List, [], ◌∷◌, length, ltb, arith, Bool-cases, inl, inr,
}
use process_snapshot.OrderedMap
use process_snapshot.OrderedMap.{IsSorted}
use process_snapshot.OrderedMap.Laws.{
  find-insert, find-erase, contains-keys, insert-IsSorted, erase-IsSorted,
}
use process_snapshot.Storage.{IsStorage}
use process_snapshot.Storage.Memory.{
  MemoryStorage, sum_sizes, get_total_size, save, load, remove, exists, list_all, memory_storage,
}

pub record IsValid (s : MemoryStorage) : Type 0 where
  pub within : get_total_size s ≤ s.max_size
  pub sorted : IsSorted s.storage

sum_sizes-insert :
    (id : ℕ) (d : Bytes) (m : List (ℕ × Bytes))
    → sum_sizes (OrderedMap.insert id d m) ≤ sum_sizes m + length d
unfolding OrderedMap.insert
sum_sizes-insert id d [] = omega arith
sum_sizes-insert id d ((j, c) ∷ m) = ground (arith, sum_sizes-insert id d m)

sum_sizes-erase : (id : ℕ) (m : List (ℕ × Bytes)) → sum_sizes (OrderedMap.erase id m) ≤ sum_sizes m
unfolding OrderedMap.erase
sum_sizes-erase id [] = omega arith
sum_sizes-erase id ((j, c) ∷ m) = ground (arith, sum_sizes-erase id m)

-- Saving, whether it succeeds or not, keeps the data within the limit and in order.
pub save-IsValid : (id : ℕ) (d : Bytes) (s : MemoryStorage) → IsValid s → IsValid (save id d s).1
unfolding save
save-IsValid id d s v = elim (Bool-cases (ltb s.max_size (get_total_size s + length d))) [
  | inl full ↦ rw full v
  | inr fits ↦ rw fits (record {
    within = ground (arith, sum_sizes-insert id d s.storage);
    sorted = insert-IsSorted id d s.storage v.sorted;
  })
]

pub remove-IsValid : (id : ℕ) (s : MemoryStorage) → IsValid s → IsValid (remove id s).1
unfolding remove get_total_size
remove-IsValid id s v = record {
  within = omega (arith, v.within, sum_sizes-erase id s.storage);
  sorted = erase-IsSorted id s.storage v.sorted;
}

pub memory_storage-IsStorage : IsStorage memory_storage
unfolding save load remove exists list_all
memory_storage-IsStorage = record {
  lookup = λ s id. OrderedMap.find id s.storage;
  load_lem = λ id s. refl;
  save_done = λ id j d s h. ground (arith, find-insert j id d s.storage);
  save_failed = λ id j d s h. ground arith;
  remove_lem = λ id j s. find-erase j id s.storage;
  exists_lem = λ id s. refl;
  list_all_lem = λ id s. contains-keys id s.storage;
}
