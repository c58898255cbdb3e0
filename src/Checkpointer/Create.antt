-- ===== src/Checkpointer/Create.antt =====
-- `RealProcessCheckpointer::createCheckpoint` (src/real_process/ptrace_controller.cpp). The
-- identifier and the time are arguments, read from the clock; the reports of progress are left out.
pub mod Laws
use process_snapshot.Prelude.{
  ℕ, ◌+◌, ◌%◌, Text, Bytes, List, [], ◌∷◌, ◌++◌, Option, none, some, Bool, true, false, not, ◌&&◌,
  ◌||◌, codes, to_string, length, ltb, leb, ◌==◌, if◌then◌else◌,
}
use process_snapshot.Wire.{u64_mod}
use process_snapshot.Memory.{MemoryRegion, is_anonymous, is_heap, is_stack, is_vdso}
use process_snapshot.Snapshot
use process_snapshot.Snapshot.{
  RealProcessCheckpoint, RealProcessInfo, LinuxRegisters, MemoryDump, SignalInfo,
}
use process_snapshot.Kernel.{Kernel}
use process_snapshot.Ptrace
use process_snapshot.Ptrace.{
  PtraceController, PtraceError, ptrace_error_to_string, attach, close, get_registers,
  get_fpu_registers,
}
use process_snapshot.Ptrace.Words.{is_success, dump_memory_region}
use process_snapshot.Checkpointer.{CheckpointOptions, ProcReader}

unfoldable pub is_skipped : CheckpointOptions → MemoryRegion → Bool
is_skipped options r =
    (options.skip_read_only && not r.writable)
    || ((options.skip_vdso && is_vdso r)
        || ((not options.dump_file_backed && not (is_anonymous r))
            || ((not options.dump_heap && is_heap r) || (not options.dump_stack && is_stack r))))

-- `totalDumped` has reached the limit, if there is one.
unfoldable pub at_limit : CheckpointOptions → ℕ → Bool
at_limit options total = ltb 0 options.max_memory_dump && leb options.max_memory_dump total

unfoldable pub with_fpu : PtraceError × Bytes → LinuxRegisters → LinuxRegisters
with_fpu (error, state) r =
    if is_success error then record r { has_fpu = true; fpu_state = state } else r

unfoldable pub given : Option SignalInfo → SignalInfo → SignalInfo
given none old = old
given (some signals) old = signals

module _ {K : Type 0} (kernel : Kernel K) where
  unfoldable pub dump_regions :
      CheckpointOptions → ℕ → List MemoryRegion → PtraceController → K → List MemoryDump
  dump_regions options total [] c k = []
  dump_regions options total (r ∷ regions) c k =
      let dump = dump_memory_region kernel r c k in
      let taken = not (is_skipped options r) && dump.is_valid in
      let rest =
        dump_regions options (if taken then (total + length dump.dump_data) % u64_mod else total)
          regions c k in
      if is_skipped options r
      then rest
      else if at_limit options total
      then []
      else if dump.is_valid
      then dump ∷ rest
      else rest

  -- The registers, and the last error.
  unfoldable pub save_registers_part :
      CheckpointOptions → PtraceController → Text → K → LinuxRegisters × Text
  save_registers_part options c last k =
      let (error, r) = get_registers kernel c Snapshot.new_registers k in
      let last' =
        if is_success error
        then last
        else codes "Failed to read registers: " ++ ptrace_error_to_string error in
      if options.save_registers
      then (with_fpu (get_fpu_registers kernel c [] k) r, last')
      else (Snapshot.new_registers, last)

module _ {K : Type 0} (kernel : Kernel K) (reader : ProcReader K) where
  -- What is read of the stopped process.
  unfoldable pub capture_process :
      ℕ
      → Text
      → CheckpointOptions
      → ℕ
      → ℕ
      → SignalInfo
      → RealProcessInfo
      → LinuxRegisters
      → PtraceController
      → K
      → RealProcessCheckpoint
  capture_process pid name options id now unset_signals info registers c k =
      record (Snapshot.new unset_signals) {
        checkpoint_id = id;
        name = if length name == 0 then codes "checkpoint_" ++ to_string pid else name;
        timestamp = now;
        info = info;
        registers = registers;
        memory_map = reader.get_memory_maps pid k;
        memory_dumps =
            if options.save_memory
            then dump_regions kernel options 0 (reader.get_memory_maps pid k) c k
            else [];
        signals =
            if options.save_signals
            then given (reader.get_signal_info pid k) unset_signals
            else unset_signals;
        environ = if options.save_environment then reader.get_environment pid k else [];
        file_descriptors =
            if options.save_file_descriptors then reader.get_file_descriptors pid k else [];
      }

  -- Behind `getProcessInfo`. The destructor of the controller lets the process go.
  unfoldable pub create_with :
      Option RealProcessInfo
      → ℕ
      → Text
      → CheckpointOptions
      → ℕ
      → ℕ
      → SignalInfo
      → Text
      → K
      → Option RealProcessCheckpoint × Text × K
  create_with none pid name options id now unset_signals last k =
      (none, codes "Failed to read process info", k)
  create_with (some info) pid name options id now unset_signals last k =
      let (error, c, k') = attach kernel pid Ptrace.new k in
      let (registers, last') = save_registers_part kernel options c last k' in
      let checkpoint = capture_process pid name options id now unset_signals info registers c k' in
      if is_success error
      then (some checkpoint, last', (close kernel c k').1)
      else (none, codes "Failed to attach: " ++ ptrace_error_to_string error, (close kernel c k').1)

  -- The checkpoint, the last error of the checkpointer and the state of the machine.
  unfoldable pub create_checkpoint :
      ℕ
      → Text
      → CheckpointOptions
      → ℕ
      → ℕ
      → SignalInfo
      → Text
      → K
      → Option RealProcessCheckpoint × Text × K
  create_checkpoint pid name options id now unset_signals last k =
      if reader.process_exists pid k
      then create_with (reader.get_process_info pid k) pid name options id now unset_signals last k
      else (none, codes "Process " ++ (to_string pid ++ codes " does not exist"), k)
