-- ===== src/Tests/Ptrace.antt =====
-- Processes that are traced, saved and restored at concrete inputs.
use process_snapshot.Prelude.{
  ℕ, ◌≡◌, refl, [], ◌∷◌, some, none, true, false, codes, replicate, text_eq, append-nil, All, arith,
  if◌then◌else◌, ◌↔◌,
}
use process_snapshot.Memory.{MemoryRegion, contains, size, is_stack, is_heap, is_vdso, is_anonymous}
use process_snapshot.Memory
use process_snapshot.Snapshot
use process_snapshot.Snapshot.{RealProcessCheckpoint, SignalInfo, MemoryDump, new_info}
use process_snapshot.Snapshot.Format.{serialize, deserialize}
use process_snapshot.Checkpointer.Restore.Laws.{IsFitting}
use process_snapshot.Snapshot.Format.RoundTrip.{IsStorable, stored, deserialize-serialize_snapshot}
use process_snapshot.Kernel.{done}
use process_snapshot.Kernel.Memory.{store, bytes_at}
use process_snapshot.Ptrace
use process_snapshot.Ptrace.{
  PtraceController, attach, detach, seize, close, is_traced, to_error, opened, detached,
  got_registers, got_fpu_registers, close_file, close_mem_fd, open_file, open_mem_fd, let_go_first,
  attach_waited, attach_called, guarded, get_registers, set_registers, get_fpu_registers,
  set_fpu_registers,
}
use process_snapshot.Ptrace.Words.{
  is_success, write_memory, peeked, merged, dumped, peek_data, poke_data, read_words, read_file,
  read_either, read_memory, next_word, poke_word, write_words, dump_memory_region,
  restore_memory_region,
}
use process_snapshot.Ptrace.Lifetime.{IsTidy, here, next, attach_step, close_step, Reach-IsTidy}
use process_snapshot.Ptrace.Answering.{write_memory_answers}
use process_snapshot.Checkpointer.{ProcReader, default_checkpoint, default_restore}
use process_snapshot.Checkpointer.Create.{
  create_checkpoint, create_with, capture_process, save_registers_part, dump_regions, is_skipped,
  at_limit, with_fpu, given,
}
use process_snapshot.Checkpointer.Restore.{
  restore_checkpoint_ex, is_there, find_moved, note_moved, check_region, check_regions,
  validate_part, dry_part, then_dry, adjusted_registers, noted_rip, set_result, fpu_result,
  target_addr, adjusted_dump, region_result, restore_fds_part, detach_result, conclude, fpu_part,
  restore_registers_part, restore_writable, restore_dump, restore_dumps, restore_memory_part,
  release_part, finish, apply, value_at,
}
use process_snapshot.Checkpointer.Restore.Success.{IsStrict}
use process_snapshot.Checkpointer.Restore.Complete.{IsRestored, restore_checkpoint_ex_lem}
use process_snapshot.Checkpointer.Restore.Trip.{is_covered, restore-create_checkpoint}
use process_snapshot.Checkpointer.Restore.Stored.{restore-deserialize}
use process_snapshot.Checkpointer.Compare.{compare_checkpoints, contents, compare_checkpoints_lem}
use process_snapshot.Tests.Snapshot.{replicate-All}
use process_snapshot.Tests.Machine.{Machine, memory_of, machine, machine-IsKernel, machine-Answers}

-- A process with three bytes of data.
abbrev pub block : MemoryRegion
block = record {
  start_addr = 16;
  end_addr = 19;
  readable = true;
  writable = true;
  executable = false;
  is_private = true;
  offset = 0;
  device = [];
  inode = 0;
  pathname = codes "[heap]";
}

abbrev no_signals : SignalInfo
no_signals = record { pending = 0; blocked = 0; ignored = 0; caught = 0 }

abbrev pub reader : ProcReader Machine
reader = record {
  process_exists = λ p k. true;
  get_process_info = λ p k. some new_info;
  get_memory_maps = λ p k. block ∷ [];
  get_signal_info = λ p k. none;
  get_environment = λ p k. [];
  get_file_descriptors = λ p k. [];
}

abbrev pub early : Machine
early = record { cells = λ p a. a; regs = λ p. replicate 27 6 }

abbrev pub late : Machine
late = record { cells = λ p a. 7; regs = λ p. replicate 27 8 }

strict : IsStrict default_restore
strict = record {
  registers = refl;
  memory = refl;
  continues = refl;
  stops = refl;
  applies = refl;
  still = refl;
  minds = refl;
}

abbrev saved : RealProcessCheckpoint
saved = record (Snapshot.new no_signals) {
  checkpoint_id = 1;
  name = codes "a";
  timestamp = 2;
  info = new_info;
  registers = record { general = replicate 27 6; has_fpu = false; fpu_state = [] };
  memory_map = block ∷ [];
  memory_dumps = record { region = block; dump_data = 16 ∷ 17 ∷ 18 ∷ []; is_valid = true } ∷ [];
}

create_checkpoint_test :
    (create_checkpoint machine reader 1 (codes "a") default_checkpoint 1 2 no_signals [] early).0
    ≡ some saved
unfolding create_checkpoint create_with capture_process save_registers_part dump_regions is_skipped
    at_limit with_fpu given machine attach attach_called attach_waited let_go_first detach detached
    open_mem_fd open_file opened close_mem_fd close_file get_registers got_registers
    get_fpu_registers got_fpu_registers is_success dump_memory_region dumped read_memory read_either
    read_file read_words bytes_at Memory.size contains is_anonymous is_stack is_heap is_vdso
    Ptrace.errno_to_ptrace_error text_eq Snapshot.new
create_checkpoint_test = refl

restore_test : (restore_checkpoint_ex machine reader 1 saved default_restore late).0.success ≡ true
unfolding restore_checkpoint_ex machine attach attach_called attach_waited let_go_first detach
    detached open_mem_fd open_file opened close_mem_fd close_file close is_there find_moved
    note_moved check_region check_regions validate_part dry_part then_dry adjusted_registers
    noted_rip set_result fpu_result target_addr adjusted_dump region_result restore_fds_part
    detach_result conclude fpu_part restore_registers_part restore_writable restore_dump
    restore_dumps restore_memory_part release_part finish apply value_at restore_memory_region
    write_memory write_words next_word poke_word peek_data poke_data merged peeked guarded to_error
    is_success set_registers set_fpu_registers size
restore_test = refl

-- The checkpoint as it is read back from a file, where the regions of dumps are not writable.
abbrev unset : MemoryRegion
unset = record block { writable = false }

restore_stored_test :
    (restore_checkpoint_ex machine reader 1 (stored unset saved) default_restore late).0.success
    ≡ true
unfolding restore_checkpoint_ex machine attach attach_called attach_waited let_go_first detach
    detached open_mem_fd open_file opened close_mem_fd close_file close is_there find_moved
    note_moved check_region check_regions validate_part dry_part then_dry adjusted_registers
    noted_rip set_result fpu_result target_addr adjusted_dump region_result restore_fds_part
    detach_result conclude fpu_part restore_registers_part restore_writable restore_dump
    restore_dumps restore_memory_part release_part finish apply value_at restore_memory_region
    write_memory write_words next_word poke_word peek_data poke_data merged peeked guarded to_error
    is_success set_registers set_fpu_registers size
restore_stored_test = refl

saved-IsFitting : All IsFitting saved.memory_dumps
saved-IsFitting =
    (record { bytes = (omega arith, (omega arith, (omega arith, tt))); room = omega arith }, tt)

saved-IsStorable : IsStorable saved
unfolding Snapshot.new
saved-IsStorable = record {
  id = omega arith;
  timestamp = omega arith;
  name = omega arith;
  pid = omega arith;
  ppid = omega arith;
  proc_name = omega arith;
  cmdline = omega arith;
  registers = record { count = refl; general = replicate-All 27; fpu = omega arith };
  region_count = omega arith;
  memory_map = (record { start = omega arith; end = omega arith; path = omega arith }, tt);
  dump_count = omega arith;
  memory_dumps = (record { start = omega arith; end = omega arith; size = omega arith }, tt);
  signals = record {
    pending = omega arith;
    blocked = omega arith;
    ignored = omega arith;
    caught = omega arith;
  };
}

stored_test :
    deserialize no_signals unset (serialize (replicate 7 0) saved) ≡ some (stored unset saved, [])
stored_test =
    rw append-nil at (
      deserialize-serialize_snapshot no_signals unset (replicate 7 0) saved [] refl
        saved-IsStorable)

restore-deserialize_example :
    memory_of (restore_checkpoint_ex machine reader 1 (stored unset saved) default_restore late).1 1
    ≡ memory_of (attach machine 1 Ptrace.new late).2 1
unfolding machine-IsKernel
restore-deserialize_example =
    restore-deserialize machine reader machine-IsKernel no_signals unset (replicate 7 0) saved 1
      default_restore late refl saved-IsStorable saved-IsFitting refl stored_test strict
      restore_stored_test

restore_checkpoint_ex_lem_example :
    IsRestored machine machine-IsKernel 1 saved
      (attach machine 1 Ptrace.new late).2
      (restore_checkpoint_ex machine reader 1 saved default_restore late).1
restore_checkpoint_ex_lem_example =
    restore_checkpoint_ex_lem machine machine-IsKernel 1 reader saved default_restore late strict
      saved-IsFitting restore_test

early_registers : machine.get_regs 1 (attach machine 1 Ptrace.new early).2 ≡ done (replicate 27 6)
unfolding machine attach attach_called attach_waited let_go_first detach detached open_mem_fd
    open_file opened close_mem_fd close_file
early_registers = refl

restore-create_checkpoint_example :
    ((a : ℕ)
      → memory_of (restore_checkpoint_ex machine reader 1 saved default_restore late).1 1 a ≡ (
          if is_covered saved.memory_dumps a
          then memory_of (attach machine 1 Ptrace.new early).2 1 a
          else memory_of (attach machine 1 Ptrace.new late).2 1 a))
    × ((restore_checkpoint_ex machine reader 1 saved default_restore late).1.regs 1
        ≡ (attach machine 1 Ptrace.new early).2.regs 1)
unfolding machine-IsKernel size
restore-create_checkpoint_example =
    restore-create_checkpoint machine reader machine-IsKernel 1 1 (codes "a") default_checkpoint 1 2
      no_signals [] default_restore early late refl early_registers (omega arith, tt)
      create_checkpoint_test strict restore_test

write_memory_answers_example :
    (is_success
        (write_memory machine 20
          (1 ∷ 2 ∷ 3 ∷ [])
          (record Ptrace.new { pid = 1; attached = true })
          late).0
      ≡ true)
    × (memory_of
          (write_memory machine 20
            (1 ∷ 2 ∷ 3 ∷ [])
            (record Ptrace.new { pid = 1; attached = true })
            late).1
          1
        ≡ store 20 (1 ∷ 2 ∷ 3 ∷ []) (memory_of late 1))
unfolding machine-IsKernel
write_memory_answers_example =
    write_memory_answers machine (record Ptrace.new { pid = 1; attached = true })
      (machine-Answers 1) refl machine-IsKernel 20 (1 ∷ 2 ∷ 3 ∷ []) late
      (omega arith, (omega arith, (omega arith, tt))) (omega arith)

abbrev held : PtraceController
held = (attach machine 1 Ptrace.new early).1

Reach-IsTidy_example : IsTidy (close machine held early).0
Reach-IsTidy_example =
    Reach-IsTidy machine (close machine held early).0
      (next (next here (attach_step 1 Ptrace.new early)) (close_step held early))

compare_checkpoints_lem_example :
    ((compare_checkpoints true saved (Snapshot.new no_signals)).memory_changed ≡ false)
    ↔ (contents saved.memory_dumps ≡ [])
unfolding Snapshot.new
compare_checkpoints_lem_example = compare_checkpoints_lem true saved (Snapshot.new no_signals)
