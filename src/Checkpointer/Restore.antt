-- ===== src/Checkpointer/Restore.antt =====
-- `RealProcessCheckpointer::restoreCheckpointEx`, `restoreCheckpoint` and `validateRestore`
-- (src/real_process/ptrace_controller.cpp). A part of the restore that returns early stops, and the
-- destructor of the controller lets the process go. The reports of progress are left out.
pub mod Laws
pub mod Success
pub mod Complete
pub mod Trip
pub mod Stored
use process_snapshot.Prelude.{
  ℕ, zero, suc, ◌+◌, ◌-◌, ◌%◌, ◌^◌, Text, Bytes, List, [], ◌∷◌, ◌++◌, Option, none, some, Bool,
  true, false, not, ◌&&◌, ◌||◌, codes, to_string, length, ltb, ◌==◌, text_eq, if◌then◌else◌,
}
use process_snapshot.Wire.{u64_mod}
use process_snapshot.Memory.{MemoryRegion, size, is_stack}
use process_snapshot.Snapshot.{
  RealProcessCheckpoint, LinuxRegisters, MemoryDump, FileDescriptorInfo,
}
use process_snapshot.Kernel.{Kernel}
use process_snapshot.Ptrace
use process_snapshot.Ptrace.{
  PtraceController, PtraceError, ptrace_error_to_string, attach, detach, close, stop, set_registers,
  set_fpu_registers,
}
use process_snapshot.Ptrace.Words.{is_success, restore_memory_region}
use process_snapshot.Checkpointer.{
  RestoreOptions, RestoreResult, new_result, validation, ProcReader,
}

-- `std::to_string` of an `int64_t`.
unfoldable pub to_string_signed : ℕ → Text
to_string_signed n = if ltb n (2 ^ 63) then to_string n else codes "-" ++ to_string (u64_mod - n)

abbrev pub with_warning : Text → RestoreResult → RestoreResult
with_warning w r = record r { warnings = r.warnings ++ w ∷ [] }

unfoldable pub is_there : MemoryRegion → List MemoryRegion → Bool
is_there r [] = false
is_there r (cur ∷ current) =
    (r.start_addr == cur.start_addr && size r == size cur) || is_there r current

-- The first region of the same name and size at another address.
unfoldable pub find_moved : MemoryRegion → List MemoryRegion → Option MemoryRegion
find_moved r [] = none
find_moved r (cur ∷ current) =
    if text_eq r.pathname cur.pathname
      && (size r == size cur && not (r.start_addr == cur.start_addr))
    then some cur
    else find_moved r current

unfoldable pub note_moved : MemoryRegion → Option MemoryRegion → RestoreResult → RestoreResult
note_moved r none result = result
note_moved r (some cur) result =
    let offset = (cur.start_addr + u64_mod - r.start_addr) % u64_mod in
    with_warning
      (codes "ASLR detected: "
        ++ (r.pathname ++ (codes " moved by " ++ (to_string_signed offset ++ codes " bytes"))))
      (record result { aslr_detected = true; aslr_offset = offset })

unfoldable pub check_region :
    RestoreOptions → MemoryRegion → List MemoryRegion → RestoreResult → RestoreResult
check_region options r current result =
    let result' = note_moved r (find_moved r current) result in
    if is_there r current
    then result
    else if not options.allocate_missing_regions && not result'.aslr_detected
    then with_warning (codes "Memory region missing at 0x" ++ to_string r.start_addr) result'
    else result'

unfoldable pub check_regions :
    RestoreOptions → List MemoryRegion → List MemoryRegion → RestoreResult → RestoreResult
check_regions options [] current result = result
check_regions options (r ∷ regions) current result =
    check_regions options regions current (check_region options r current result)

-- Whether a part of the restore returns from the whole.
pub data Flow : Type 0 where
  stopped : RestoreResult → Flow
  going : RestoreResult → Flow

unfoldable pub aslr_message : Text
aslr_message =
    codes
      "ASLR detected but handleASLR option is disabled. Either disable ASLR or enable handleASLR option."

unfoldable pub validate_part :
    RestoreOptions → List MemoryRegion → List MemoryRegion → RestoreResult → Flow
validate_part options regions current result =
    let checked = check_regions options regions current result in
    let refused = record checked { error_message = aslr_message } in
    if not options.validate_before_restore
    then going result
    else if checked.aslr_detected && not options.handle_aslr
    then if options.stop_on_error then stopped refused else going refused
    else going checked

unfoldable pub dry_part : RestoreOptions → RestoreResult → Flow
dry_part options result =
    if options.dry_run
    then stopped (record result {
      success = true;
      error_message = codes "Dry run completed - no changes applied";
    })
    else going result

unfoldable pub add_at : ℕ → ℕ → List ℕ → List ℕ
add_at i n [] = []
add_at zero n (x ∷ xs) = (x + n) % u64_mod ∷ xs
add_at (suc i) n (x ∷ xs) = x ∷ add_at i n xs

-- The place of `rip` among the registers.
abbrev pub rip : ℕ
rip = 16

abbrev pub moves : RestoreOptions → RestoreResult → Bool
moves options result = result.aslr_detected && options.handle_aslr

unfoldable pub value_at : ℕ → List ℕ → ℕ
value_at i [] = 0
value_at zero (x ∷ xs) = x
value_at (suc i) (x ∷ xs) = value_at i xs

unfoldable pub adjusted_registers : RestoreOptions → RestoreResult → LinuxRegisters → LinuxRegisters
adjusted_registers options result r =
    if moves options result
    then record r { general = add_at rip result.aslr_offset r.general }
    else r

unfoldable pub noted_rip : RestoreOptions → LinuxRegisters → RestoreResult → RestoreResult
noted_rip options r result =
    if moves options result
    then with_warning (codes "Adjusted RIP for ASLR: 0x" ++ to_string (value_at rip r.general))
        result
    else result

-- Behind `setRegisters`.
unfoldable pub set_result : RestoreOptions → PtraceError → RestoreResult → Flow
set_result options error result =
    let refused = record result {
      error_message = codes "Failed to restore registers: " ++ ptrace_error_to_string error;
    } in
    if is_success error
    then going (record result { registers_restored = 1 })
    else if options.stop_on_error
    then stopped refused
    else going refused

unfoldable pub fpu_result : PtraceError → RestoreResult → RestoreResult
fpu_result error result =
    if is_success error
    then result
    else with_warning (codes "Failed to restore FPU registers") result

unfoldable pub target_addr : RestoreOptions → RestoreResult → MemoryDump → ℕ
target_addr options result dump =
    if moves options result && not (is_stack dump.region)
    then (dump.region.start_addr + result.aslr_offset) % u64_mod
    else dump.region.start_addr

unfoldable pub adjusted_dump : RestoreOptions → RestoreResult → MemoryDump → MemoryDump
adjusted_dump options result dump =
    let target = target_addr options result dump in
    record dump {
      region = record dump.region {
        start_addr = target;
        end_addr = (target + size dump.region) % u64_mod;
      };
    }

-- Behind `restoreMemoryRegion`.
unfoldable pub region_result : RestoreOptions → ℕ → PtraceError → RestoreResult → Flow
region_result options target error result =
    let noted =
      with_warning
        (codes "Failed to restore memory region at 0x"
          ++ (to_string target ++ (codes ": " ++ ptrace_error_to_string error)))
        (record result { memory_regions_failed = result.memory_regions_failed + 1 }) in
    if is_success error
    then going (record result { memory_regions_restored = result.memory_regions_restored + 1 })
    else if options.stop_on_error && not options.ignore_memory_errors
    then stopped (record noted { error_message = codes "Memory restore failed" })
    else going noted

unfoldable pub restore_fds_part :
    RestoreOptions → List FileDescriptorInfo → RestoreResult → RestoreResult
restore_fds_part options fds result =
    if options.restore_file_descriptors && not (length fds == 0)
    then record (with_warning
        (codes "File descriptor restoration requested but not fully implemented") result) {
          fds_failed = length fds;
        }
    else result

unfoldable pub detach_result : PtraceError → RestoreResult → RestoreResult
detach_result error result =
    if is_success error
    then result
    else with_warning (codes "Failed to detach from process: " ++ ptrace_error_to_string error)
        result

-- The end: success, unless a region failed and that is not ignored.
unfoldable pub conclude : RestoreOptions → RestoreResult → RestoreResult
conclude options result =
    if result.memory_regions_failed == 0 || options.ignore_memory_errors
    then record result { success = true }
    else record result {
      success = false;
      error_message =
          codes "Restore completed with "
          ++ (to_string result.memory_regions_failed ++ codes " failed regions");
    }

unfoldable pub then_dry : RestoreOptions → Flow → Flow
then_dry options (stopped result) = stopped result
then_dry options (going result) = dry_part options result

module _ {K : Type 0} (kernel : Kernel K) where
  -- Behind `setRegisters`, if the restore goes on: the floating point registers.
  unfoldable pub fpu_part : LinuxRegisters → PtraceController → Flow → K → Flow × K
  fpu_part r c (stopped result) k = (stopped result, k)
  fpu_part r c (going result) k =
      let (error, k') = set_fpu_registers kernel r.fpu_state c k in
      if r.has_fpu then (going (fpu_result error result), k') else (going result, k)

  unfoldable pub restore_registers_part :
      RestoreOptions → LinuxRegisters → PtraceController → RestoreResult → K → Flow × K
  restore_registers_part options r c result k =
      let r' = adjusted_registers options result r in
      let (error, k') = set_registers kernel r' c k in
      if options.restore_registers
      then fpu_part r c (set_result options error (noted_rip options r' result)) k'
      else (going result, k)

  -- A dump whose region is writable or not.
  unfoldable pub restore_writable :
      Bool → RestoreOptions → MemoryDump → PtraceController → RestoreResult → K → Flow × K
  restore_writable false options dump c result k = (going result, k)
  restore_writable true options dump c result k =
      let (error, k') = restore_memory_region kernel (adjusted_dump options result dump) c k in
      (region_result options (target_addr options result dump) error result, k')

  -- One dump: those of regions that are not writable are passed over.
  unfoldable pub restore_dump :
      RestoreOptions → MemoryDump → PtraceController → RestoreResult → K → Flow × K
  restore_dump options dump c result k =
      restore_writable dump.region.writable options dump c result k

  unfoldable pub restore_dumps :
      RestoreOptions → List MemoryDump → PtraceController → Flow → K → Flow × K
  restore_dumps options dumps c (stopped result) k = (stopped result, k)
  restore_dumps options [] c (going result) k = (going result, k)
  restore_dumps options (dump ∷ dumps) c (going result) k =
      let (flow, k') = restore_dump options dump c result k in restore_dumps options dumps c flow k'

  unfoldable pub restore_memory_part :
      RestoreOptions → List MemoryDump → PtraceController → Flow → K → Flow × K
  restore_memory_part options dumps c flow k =
      if options.restore_memory then restore_dumps options dumps c flow k else (flow, k)

  unfoldable pub release_part :
      RestoreOptions → PtraceController → RestoreResult → K → RestoreResult × PtraceController × K
  release_part options c result k =
      let k1 = if options.continue_after_restore then k else (stop kernel c k).1 in
      let (error, c', k2) = detach kernel c k1 in (detach_result error result, c', k2)

  -- The way to the end, or out, with the destructor of the controller.
  unfoldable pub finish :
      RestoreOptions → RealProcessCheckpoint → PtraceController → Flow → K → RestoreResult × K
  finish options checkpoint c (stopped result) k = (result, (close kernel c k).1)
  finish options checkpoint c (going result) k =
      let with_fds = restore_fds_part options checkpoint.file_descriptors result in
      let (released, c', k') = release_part options c with_fds k in
      (conclude options released, (close kernel c' k').1)

  -- Behind the validation and the dry run.
  unfoldable pub apply :
      RestoreOptions → RealProcessCheckpoint → PtraceController → Flow → K → RestoreResult × K
  apply options checkpoint c (stopped result) k = (result, (close kernel c k).1)
  apply options checkpoint c (going result) k =
      let (flow, k1) = restore_registers_part options checkpoint.registers c result k in
      let (flow', k2) = restore_memory_part options checkpoint.memory_dumps c flow k1 in
      finish options checkpoint c flow' k2

module _ {K : Type 0} (kernel : Kernel K) (reader : ProcReader K) where
  unfoldable pub restore_checkpoint_ex :
      ℕ → RealProcessCheckpoint → RestoreOptions → K → RestoreResult × K
  restore_checkpoint_ex pid checkpoint options k =
      let (error, c, k') = attach kernel pid Ptrace.new k in
      let flow =
        validate_part options checkpoint.memory_map (reader.get_memory_maps pid k') new_result in
      if not (reader.process_exists pid k)
      then (
        record new_result {
          error_message = codes "Process " ++ (to_string pid ++ codes " does not exist");
        },
        k,
      )
      else if is_success error
      then apply kernel options checkpoint c (then_dry options flow) k'
      else (
        record new_result {
          error_message = codes "Failed to attach: " ++ ptrace_error_to_string error;
        },
        (close kernel c k').1,
      )

  -- The last error of the checkpointer is the message of the result, if it failed.
  unfoldable pub restore_checkpoint :
      ℕ → RealProcessCheckpoint → RestoreOptions → Text → K → PtraceError × Text × K
  restore_checkpoint pid checkpoint options last k =
      let (result, k') = restore_checkpoint_ex pid checkpoint options k in
      if result.success
      then (PtraceError.success, last, k')
      else (PtraceError.memory_error, result.error_message, k')

  unfoldable pub validate_restore : ℕ → RealProcessCheckpoint → K → RestoreResult × K
  validate_restore pid checkpoint k = restore_checkpoint_ex pid checkpoint validation k
