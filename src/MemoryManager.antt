-- ===== src/MemoryManager.antt =====
-- `MemoryManager` (include/real_process/memory_manager.hpp and
-- src/real_process/memory_manager.cpp): its errors, the flags of a protection.
pub mod Regions
pub mod Compare
pub mod Inject
pub mod Prepare
use process_snapshot.Prelude.{
  ℕ, ◌+◌, ◌%◌, Text, List, [], ◌∷◌, Option, none, some, Bool, true, false, not, ◌&&◌, ◌||◌, codes,
  ltb, leb, ◌==◌, bit_and, bit_or, ◌≡◌, refl, if◌then◌else◌,
}
use process_snapshot.Wire.{u64_mod}
use process_snapshot.Memory.{MemoryRegion}

pub data MemoryError : Type 0 where
  success permission_denied invalid_address region_exists region_not_found allocation_failed
        mmap_failed munmap_failed mprotect_failed process_not_attached aslr_mismatch unknown_error :
      MemoryError

unfoldable pub memory_error_to_string : MemoryError → Text
memory_error_to_string MemoryError.success = codes "Success"
memory_error_to_string MemoryError.permission_denied = codes "Permission denied"
memory_error_to_string MemoryError.invalid_address = codes "Invalid address"
memory_error_to_string MemoryError.region_exists = codes "Region already exists"
memory_error_to_string MemoryError.region_not_found = codes "Region not found"
memory_error_to_string MemoryError.allocation_failed = codes "Memory allocation failed"
memory_error_to_string MemoryError.mmap_failed = codes "mmap failed"
memory_error_to_string MemoryError.munmap_failed = codes "munmap failed"
memory_error_to_string MemoryError.mprotect_failed = codes "mprotect failed"
memory_error_to_string MemoryError.process_not_attached = codes "Process not attached"
memory_error_to_string MemoryError.aslr_mismatch = codes "ASLR address mismatch"
memory_error_to_string MemoryError.unknown_error = codes "Unknown error"

-- `PROT_READ`, `PROT_WRITE` and `PROT_EXEC`.
abbrev pub prot_read : ℕ
prot_read = 1

abbrev pub prot_write : ℕ
prot_write = 2

abbrev pub prot_exec : ℕ
prot_exec = 4

unfoldable pub to_prot_flags : Bool → Bool → Bool → ℕ
to_prot_flags readable writable executable =
    let prot1 = if readable then bit_or 0 prot_read else 0 in
    let prot2 = if writable then bit_or prot1 prot_write else prot1 in
    if executable then bit_or prot2 prot_exec else prot2

-- Whether the flags let read, write and execute.
unfoldable pub from_prot_flags : ℕ → Bool × Bool × Bool
from_prot_flags prot = (
  not (bit_and prot prot_read == 0),
  not (bit_and prot prot_write == 0),
  not (bit_and prot prot_exec == 0),
)

-- Flags say what they were made of.
from_prot_flags-to_prot_flags :
    (readable writable executable : Bool)
    → from_prot_flags (to_prot_flags readable writable executable)
      ≡ (readable, writable, executable)
unfolding from_prot_flags to_prot_flags
from_prot_flags-to_prot_flags true true true = refl
from_prot_flags-to_prot_flags true true false = refl
from_prot_flags-to_prot_flags true false true = refl
from_prot_flags-to_prot_flags true false false = refl
from_prot_flags-to_prot_flags false true true = refl
from_prot_flags-to_prot_flags false true false = refl
from_prot_flags-to_prot_flags false false true = refl
from_prot_flags-to_prot_flags false false false = refl
