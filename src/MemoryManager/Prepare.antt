-- ===== src/MemoryManager/Prepare.antt =====
-- `MemoryManager::prepareForRestore` (src/real_process/memory_manager.cpp). The reports of progress
-- are left out.
pub mod Mapped
pub mod Laws
use process_snapshot.Prelude.{
  ℕ, ◌≡◌, refl, Text, List, [], ◌∷◌, ◌++◌, append-nil, append_assoc, Option, Bool, true, false, not,
  ◌&&◌, ◌||◌, codes, to_string, ◌==◌, if◌then◌else◌, Bool-cases, inl, inr, ap, sym, subst, ◌∙◌,
  if_true, if_false, arith,
}
use process_snapshot.Memory.{MemoryRegion, size, is_stack, is_vdso}
use process_snapshot.Kernel.{Errno, Kernel}
use process_snapshot.Checkpointer.{ProcReader}
use process_snapshot.Checkpointer.Restore.{to_string_signed}
use process_snapshot.MemoryManager.{MemoryError}
use process_snapshot.MemoryManager.Compare.{AddressSpaceComparison, compare_address_space, is_empty}
use process_snapshot.MemoryManager.Inject.{MemoryManager, is_bound, create_mapping, remove_mapping}

pub record PrepareResult : Type 0 where
  pub error : MemoryError
  pub warnings : List Text
  pub created_regions : List MemoryRegion
  pub failed_regions : List MemoryRegion
  pub needs_relocation : Bool
  pub relocation_offset : ℕ

abbrev pub new_result : PrepareResult
new_result = record {
  error = MemoryError.success;
  warnings = [];
  created_regions = [];
  failed_regions = [];
  needs_relocation = false;
  relocation_offset = 0;
}

abbrev pub with_warning : Text → PrepareResult → PrepareResult
with_warning w r = record r { warnings = r.warnings ++ w ∷ [] }

unfoldable pub is_success : MemoryError → Bool
is_success MemoryError.success = true
is_success MemoryError.permission_denied = false
is_success MemoryError.invalid_address = false
is_success MemoryError.region_exists = false
is_success MemoryError.region_not_found = false
is_success MemoryError.allocation_failed = false
is_success MemoryError.mmap_failed = false
is_success MemoryError.munmap_failed = false
is_success MemoryError.mprotect_failed = false
is_success MemoryError.process_not_attached = false
is_success MemoryError.aslr_mismatch = false
is_success MemoryError.unknown_error = false

unfoldable pub with_relocation : AddressSpaceComparison → PrepareResult → PrepareResult
with_relocation c result =
    let offset = if not (c.heap_offset == 0) then c.heap_offset else c.stack_offset in
    if c.aslr_detected
    then with_warning (codes "Relocation offset: " ++ to_string_signed offset)
        (record (with_warning (codes "ASLR detected: addresses have shifted") result) {
          needs_relocation = true;
          relocation_offset = offset;
        })
    else result

abbrev pub with_failed : MemoryRegion → PrepareResult → PrepareResult
with_failed r result = record result { failed_regions = result.failed_regions ++ r ∷ [] }

-- Behind `createMapping`.
unfoldable pub allocated : MemoryRegion → MemoryError → Text → PrepareResult → PrepareResult
allocated r error last_error result =
    if is_success error
    then record result { created_regions = result.created_regions ++ r ∷ [] }
    else with_failed r (
        with_warning
          (codes "Failed to allocate region at "
            ++ (to_string r.start_addr ++ (codes ": " ++ last_error)))
          result)

abbrev pub refused : MemoryRegion → PrepareResult → PrepareResult
refused r result = with_failed r (
    with_warning
      (codes "Cannot allocate region at "
        ++ (to_string r.start_addr ++ codes " due to ASLR. Consider disabling ASLR."))
      result)

-- The end of the preparation.
unfoldable pub concluded : PrepareResult → PrepareResult
concluded result =
    if is_empty result.failed_regions
    then result
    else record result { error = MemoryError.allocation_failed }

module _ {K : Type 0} (kernel : Kernel K) (strerror : Errno → Text) (errno : K → Option Errno) where
  unfoldable pub allocate_region :
      MemoryRegion → PrepareResult → MemoryManager → K → PrepareResult × MemoryManager × K
  allocate_region r result m k =
      let (error, m', k') =
        create_mapping kernel strerror errno r.start_addr (size r) r.readable r.writable
          r.executable true m k in
      if is_vdso r
      then (with_warning (codes "Skipping vdso/vvar region") result, m, k)
      else if result.needs_relocation
      then (refused r result, m, k)
      else (allocated r error m'.last_error result, m', k')

  unfoldable pub allocate_missing :
      List MemoryRegion → PrepareResult → MemoryManager → K → PrepareResult × MemoryManager × K
  allocate_missing [] result m k = (result, m, k)
  allocate_missing (r ∷ regions) result m k =
      let (result', m', k') = allocate_region r result m k in allocate_missing regions result' m' k'

  unfoldable pub remove_region :
      MemoryRegion → PrepareResult → MemoryManager → K → PrepareResult × MemoryManager × K
  remove_region r result m k =
      let (error, m', k') = remove_mapping kernel strerror errno r.start_addr (size r) m k in
      if is_stack r || is_vdso r
      then (
        with_warning (codes "Skipping removal of essential region: " ++ r.pathname) result,
        m,
        k,
      )
      else if is_success error
      then (result, m', k')
      else (
        with_warning (codes "Failed to remove extra region at " ++ to_string r.start_addr) result,
        m',
        k',
      )

  unfoldable pub remove_extra :
      List MemoryRegion → PrepareResult → MemoryManager → K → PrepareResult × MemoryManager × K
  remove_extra [] result m k = (result, m, k)
  remove_extra (r ∷ regions) result m k =
      let (result', m', k') = remove_region r result m k in remove_extra regions result' m' k'

  unfoldable pub prepare_for_restore :
      ProcReader K
      → List MemoryRegion
      → Bool
      → Bool
      → MemoryManager
      → K
      → PrepareResult × MemoryManager × K
  prepare_for_restore reader checkpoint_map allocate remove m k =
      let c = compare_address_space checkpoint_map (reader.get_memory_maps m.pid k) in
      let start = with_relocation c new_result in
      let (result1, m1, k1) =
        if allocate then allocate_missing c.missing start m k else (start, m, k) in
      let (result2, m2, k2) =
        if remove then remove_extra c.extra result1 m1 k1 else (result1, m1, k1) in
      if is_bound m
      then (concluded result2, m2, k2)
      else (record new_result { error = MemoryError.process_not_attached }, m, k)
