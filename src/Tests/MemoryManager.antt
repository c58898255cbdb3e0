-- ===== src/Tests/MemoryManager.antt =====
-- Memory maps that are compared and prepared, and system calls that are injected, at concrete inputs.
use process_snapshot.Prelude.{
  ◌≡◌, refl, Text, [], ◌∷◌, Option, none, true, false, text_eq, starts_with,
}
use process_snapshot.OrderedMap
use process_snapshot.OrderedMap.{find, insert}
use process_snapshot.Memory
use process_snapshot.Memory.{MemoryRegion, size, is_stack, is_heap, is_vdso}
use process_snapshot.Aslr.{last_such, difference}
use process_snapshot.Kernel.{Errno}
use process_snapshot.Kernel.Memory.{bytes_at}
use process_snapshot.Checkpointer.Restore.{value_at}
use process_snapshot.MemoryManager.{to_prot_flags}
use process_snapshot.MemoryManager.Compare.{
  has_changes, by_address, offsets, compare_moved, offset_of, compare_found, compare_regions,
  extra_regions, compare_address_space,
}
use process_snapshot.MemoryManager.Compare.Laws.{
  is_unchanged, has_size, has_changes-compare_address_space,
}
use process_snapshot.MemoryManager.Inject
use process_snapshot.MemoryManager.Inject.{
  MemoryManager, Syscall, set_at, call_registers, syscall_code, read_code, noted,
  registers_restored, restore_registers, give_up, got_result, stepped, registers_set, registers_got,
  code_written, code_read, registers_saved, inject_syscall, map_flags, create_mapping,
}
use process_snapshot.MemoryManager.Inject.Laws.{inject_syscall-restores}
use process_snapshot.MemoryManager.Prepare.{
  PrepareResult, is_success, with_relocation, allocated, concluded, allocate_region,
  allocate_missing, prepare_for_restore,
}
use process_snapshot.MemoryManager.Prepare.Mapped.{Mapped}
use process_snapshot.MemoryManager.Prepare.Laws.{prepare_for_restore_lem}
use process_snapshot.Tests.Machine.{
  Machine, memory_of, machine, machine-IsKernel, machine-Obeys, machine_registers,
}
use process_snapshot.Tests.Ptrace.{block, reader, early}

-- A region that is not in the map of the machine.
abbrev lost : MemoryRegion
lost = record block { start_addr = 9; end_addr = 12; pathname = [] }

abbrev bound : MemoryManager
bound = record Inject.new { pid = 1 }

abbrev message : Errno → Text
message e = []

abbrev no_errno : Machine → Option Errno
no_errno k = none

prepare_test :
    is_success
      (prepare_for_restore machine message no_errno reader
        (block ∷ lost ∷ [])
        true
        false
        bound
        early).0.error
    ≡ true
unfolding is_success prepare_for_restore machine concluded allocate_missing compare_address_space
    compare_regions compare_found find by_address insert size offsets difference last_such is_stack
    Memory.contains starts_with is_heap value_at is_vdso compare_moved extra_regions offset_of
    call_registers code_read code_written create_mapping give_up got_result inject_syscall map_flags
    noted read_code registers_got registers_restored registers_saved registers_set restore_registers
    set_at stepped syscall_code allocate_region allocated with_relocation to_prot_flags
    OrderedMap.contains text_eq
prepare_test = refl

prepare_for_restore_lem_example :
    ((prepare_for_restore machine message no_errno reader
        (block ∷ lost ∷ [])
        true
        false
        bound
        early).0.created_regions
      ≡ lost ∷ [])
    × ((start : PrepareResult) × (m1 : MemoryManager) × (k1 : Machine) × Mapped machine message
          no_errno machine-IsKernel 1
          (lost ∷ [])
          early
          k1
        × ((prepare_for_restore machine message no_errno reader
              (block ∷ lost ∷ [])
              true
              false
              bound
              early).2
            ≡ k1))
unfolding compare_address_space compare_regions compare_found find by_address insert size offsets
    difference last_such is_stack Memory.contains starts_with is_heap text_eq is_vdso
prepare_for_restore_lem_example =
    prepare_for_restore_lem machine message no_errno machine-IsKernel reader (block ∷ lost ∷ [])
      false bound early (machine_registers 1) prepare_test

has_changes-compare_address_space_example :
    has_changes (compare_address_space (block ∷ lost ∷ []) (block ∷ [])) ≡ true
unfolding is_unchanged has_size last_such size
has_changes-compare_address_space_example =
    has_changes-compare_address_space (block ∷ lost ∷ []) (block ∷ [])

abbrev getpid : Syscall
getpid = record { number = 39; arg1 = 0; arg2 = 0; arg3 = 0; arg4 = 0; arg5 = 0; arg6 = 0 }

inject_syscall-restores_example :
    (bytes_at (memory_of (inject_syscall machine message no_errno getpid bound early).2 1) 6 8
      ≡ bytes_at (memory_of early 1) 6 8)
    × ((inject_syscall machine message no_errno getpid bound early).2.regs 1 ≡ early.regs 1)
unfolding machine-IsKernel value_at
inject_syscall-restores_example =
    inject_syscall-restores machine message no_errno machine-IsKernel getpid bound early
      (machine-Obeys 1)
