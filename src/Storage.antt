-- ===== src/Storage.antt =====
-- include/state/storage.hpp and src/state/storage.cpp: where the serialized checkpoints go. The
-- interface is `IStorage`, with what its clients rely on in `IsStorage`.
pub mod Memory
pub mod Files
pub mod Hybrid
use process_snapshot.Prelude.{
  ℕ, ◌≡◌, Bytes, List, Option, none, some, Bool, true, false, [], ◌==◌, if◌then◌else◌,
}
use process_snapshot.Types.{Result, ok, failure, ErrorCode, is_success}
use process_snapshot.OrderedMap.{is_some, contains}

-- The virtual methods over a state `S`.
pub record IStorage (S : Type 0) : Type 0 where
  pub save : ℕ → Bytes → S → Result (Unit {0}) × S
  pub load : ℕ → S → Result Bytes
  pub remove : ℕ → S → Result (Unit {0}) × S
  pub exists : ℕ → S → Bool
  pub list_all : S → List ℕ
  pub get_size : ℕ → S → ℕ
  pub get_total_size : S → ℕ

-- The result of `load` for what the storage holds under an id.
abbrev pub loaded : Option Bytes → Result Bytes
loaded none = failure ErrorCode.checkpoint_not_found []
loaded (some s) = ok s

-- The contract: a storage is a partial map from ids to data. A `save` that succeeds changes one
-- entry, and one that fails none.
pub record IsStorage {S : Type 0} (storage : IStorage S) : Type 0 where
  pub lookup : S → ℕ → Option Bytes
  pub load_lem : (id : ℕ) (s : S) → storage.load id s ≡ loaded (lookup s id)
  pub save_done :
      (id j : ℕ) (d : Bytes) (s : S)
      → is_success (storage.save id d s).0 ≡ true
      → lookup (storage.save id d s).1 j ≡ (if id == j then some d else lookup s j)
  pub save_failed :
      (id j : ℕ) (d : Bytes) (s : S)
      → is_success (storage.save id d s).0 ≡ false
      → lookup (storage.save id d s).1 j ≡ lookup s j
  pub remove_lem :
      (id j : ℕ) (s : S) → lookup (storage.remove id s).1 j ≡ (if id == j then none else lookup s j)
  pub exists_lem : (id : ℕ) (s : S) → storage.exists id s ≡ is_some (lookup s id)
  pub list_all_lem : (id : ℕ) (s : S) → contains id (storage.list_all s) ≡ is_some (lookup s id)
