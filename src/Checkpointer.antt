-- ===== src/Checkpointer.antt =====
-- `RealProcessCheckpointer` (include/real_process/ptrace_controller.hpp and
-- src/real_process/ptrace_controller.cpp): its options and results
-- (include/real_process/real_process_types.hpp), and what it asks a `ProcFSReader`.
pub mod Create
pub mod Restore
pub mod Compare
use process_snapshot.Prelude.{ℕ, Text, List, [], Option, Bool, true, false}
use process_snapshot.Memory.{MemoryRegion}
use process_snapshot.Snapshot.{RealProcessInfo, SignalInfo, FileDescriptorInfo}

pub record CheckpointOptions : Type 0 where
  pub save_registers : Bool
  pub save_memory : Bool
  pub save_file_descriptors : Bool
  pub save_environment : Bool
  pub save_signals : Bool
  pub dump_heap : Bool
  pub dump_stack : Bool
  pub dump_anonymous : Bool
  pub dump_file_backed : Bool
  pub skip_read_only : Bool
  pub skip_vdso : Bool
  -- 0 for no limit.
  pub max_memory_dump : ℕ

abbrev pub default_checkpoint : CheckpointOptions
default_checkpoint = record {
  save_registers = true;
  save_memory = true;
  save_file_descriptors = true;
  save_environment = true;
  save_signals = true;
  dump_heap = true;
  dump_stack = true;
  dump_anonymous = true;
  dump_file_backed = false;
  skip_read_only = true;
  skip_vdso = true;
  max_memory_dump = 0;
}

abbrev pub minimal : CheckpointOptions
minimal = record default_checkpoint {
  save_memory = false;
  save_file_descriptors = false;
  save_environment = false;
}

abbrev pub full : CheckpointOptions
full = record default_checkpoint { dump_file_backed = true; skip_read_only = false }

pub record RestoreOptions : Type 0 where
  pub restore_registers : Bool
  pub restore_memory : Bool
  pub restore_file_descriptors : Bool
  pub restore_signals : Bool
  pub continue_after_restore : Bool
  pub stop_on_error : Bool
  pub dry_run : Bool
  pub allocate_missing_regions : Bool
  pub handle_aslr : Bool
  pub validate_before_restore : Bool
  pub ignore_memory_errors : Bool
  pub ignore_fd_errors : Bool

abbrev pub default_restore : RestoreOptions
default_restore = record {
  restore_registers = true;
  restore_memory = true;
  restore_file_descriptors = false;
  restore_signals = true;
  continue_after_restore = true;
  stop_on_error = true;
  dry_run = false;
  allocate_missing_regions = true;
  handle_aslr = false;
  validate_before_restore = true;
  ignore_memory_errors = false;
  ignore_fd_errors = true;
}

abbrev pub safe : RestoreOptions
safe = record default_restore {
  stop_on_error = true;
  validate_before_restore = true;
  ignore_memory_errors = false;
}

abbrev pub best_effort : RestoreOptions
best_effort = record default_restore {
  stop_on_error = false;
  ignore_memory_errors = true;
  ignore_fd_errors = true;
}

abbrev pub validation : RestoreOptions
validation = record default_restore { dry_run = true; validate_before_restore = true }

pub record RestoreResult : Type 0 where
  pub success : Bool
  pub error_message : Text
  pub registers_restored : ℕ
  pub memory_regions_restored : ℕ
  pub memory_regions_failed : ℕ
  pub fds_restored : ℕ
  pub fds_failed : ℕ
  pub warnings : List Text
  pub aslr_detected : Bool
  -- The bit pattern of an `int64_t`.
  pub aslr_offset : ℕ

abbrev pub new_result : RestoreResult
new_result = record {
  success = false;
  error_message = [];
  registers_restored = 0;
  memory_regions_restored = 0;
  memory_regions_failed = 0;
  fds_restored = 0;
  fds_failed = 0;
  warnings = [];
  aslr_detected = false;
  aslr_offset = 0;
}

-- The methods of `ProcFSReader` that are called here, over a state `K` of the machine.
pub record ProcReader (K : Type 0) : Type 0 where
  pub process_exists : ℕ → K → Bool
  pub get_process_info : ℕ → K → Option RealProcessInfo
  pub get_memory_maps : ℕ → K → List MemoryRegion
  pub get_signal_info : ℕ → K → Option SignalInfo
  pub get_environment : ℕ → K → List Text
  pub get_file_descriptors : ℕ → K → List FileDescriptorInfo
