-- ===== src/Tests/Storage.antt =====
-- The storages at concrete inputs, over file storages that take every save or none.
use process_snapshot.Prelude.{
  ℕ, ◌≡◌, refl, ◌≤◌, Bytes, List, [], ◌∷◌, none, true, arith, if◌then◌else◌, ◌==◌, ◌||◌, ◌&&◌, not,
  length, ltb, ◌/◌, codes, some, false, to_string, emit_digits,
}
use process_snapshot.Types.{ok, is_success}
use process_snapshot.OrderedMap
use process_snapshot.OrderedMap.{is_some, contains}
use process_snapshot.OrderedMap.Laws.{find-insert, find-erase, contains-keys}
use process_snapshot.Storage.{IStorage, IsStorage, loaded}
use process_snapshot.Storage.Memory
use process_snapshot.Storage.Memory.{MemoryStorage, memory_storage}
use process_snapshot.Storage.Memory.Laws.{IsValid, save-IsValid}
use process_snapshot.Storage.Files
use process_snapshot.Storage.Files.{FileStorage}
use process_snapshot.Storage.Files.Laws.{load-save_file}
use process_snapshot.Tests.Files.{Files, files, files-IsFileSystem, put_file}
use process_snapshot.Storage.Hybrid
use process_snapshot.Storage.Hybrid.{HybridStorage}
use process_snapshot.Storage.Hybrid.Laws.{load-save}

-- A map without a limit.
abbrev pub map_storage : IStorage (List (ℕ × Bytes))
map_storage = record {
  save = λ id d s. (ok tt, OrderedMap.insert id d s);
  load = λ id s. loaded (OrderedMap.find id s);
  remove = λ id s. (ok tt, OrderedMap.erase id s);
  exists = λ id s. is_some (OrderedMap.find id s);
  list_all = λ s. OrderedMap.keys s;
  get_size = λ id s. 0;
  get_total_size = λ s. 0;
}

unfoldable pub map_storage-IsStorage : IsStorage map_storage
map_storage-IsStorage = record {
  lookup = λ s id. OrderedMap.find id s;
  load_lem = λ id s. refl;
  save_done = λ id j d s h. find-insert j id d s;
  save_failed = λ id j d s h. absurd (ground (arith, h));
  remove_lem = λ id j s. find-erase j id s;
  exists_lem = λ id s. refl;
  list_all_lem = λ id s. contains-keys id s;
}

-- A small entry in memory, one entry in the file.
abbrev hybrid : HybridStorage (List (ℕ × Bytes))
hybrid = record {
  memory = record { storage = (1, 7 ∷ []) ∷ []; max_size = 100 };
  file = (2, 8 ∷ 8 ∷ []) ∷ [];
  threshold = 20;
}

abbrev small : Bytes
small = 9 ∷ []

saved : is_success (Hybrid.save map_storage 3 small hybrid).0 ≡ true
unfolding Hybrid.save Memory.save
saved = refl

load-save_example : Hybrid.load map_storage 3 (Hybrid.save map_storage 3 small hybrid).1 ≡ (
    if 3 == 3 && (ltb (length small) (hybrid.threshold / 10) || not (Memory.exists 3 hybrid.memory))
    then ok small
    else Hybrid.load map_storage 3 hybrid)
load-save_example = load-save map_storage map_storage-IsStorage 3 3 small hybrid saved

small_enough : Memory.get_total_size hybrid.memory ≤ hybrid.memory.max_size
unfolding Memory.get_total_size
small_enough = omega arith

save-IsValid_example : IsValid (Memory.save 1 (5 ∷ 6 ∷ []) hybrid.memory).1
save-IsValid_example =
    save-IsValid 1 (5 ∷ 6 ∷ []) hybrid.memory (record { within = small_enough; sorted = (tt, tt) })

-- A directory with the file of one checkpoint.
abbrev directory : FileStorage
directory = record { base_path = codes "d"; extension = codes ".c" }

abbrev one_file : Files
one_file = put_file (codes "d/7.c") (some (1 ∷ [])) (λ p. none)

get_file_path_test : Files.get_file_path directory 12 ≡ codes "d/12.c"
unfolding Files.get_file_path Files.with_slash to_string emit_digits
get_file_path_test = refl

load-save_file_example :
    Files.load
      (files (λ b. false))
      directory
      7
      (Files.save (files (λ b. false)) directory 12 (2 ∷ []) one_file).1
    ≡ Files.load (files (λ b. false)) directory 7 one_file
unfolding files files-IsFileSystem Files.save Files.saved
load-save_file_example =
    load-save_file (files (λ b. false)) (files-IsFileSystem (λ b. false)) directory (λ p s. refl)
      (λ p s. refl) 12 7 (2 ∷ []) one_file refl
