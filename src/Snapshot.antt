-- ===== src/Snapshot.antt =====
-- `RealProcessCheckpoint` (include/real_process/real_process_types.hpp and
-- src/real_process/real_process_types.cpp): what is saved of a process, and its binary format. The 27
-- registers are a list in the order of the struct. The `signals` of a new object, and the `offset` and `inode` of
-- a region that is read, are not initialized by the source: they are those of the arguments
-- `unset_signals` and `unset`. The bytes of padding behind `hasFPU` are an argument too.
pub mod Format
use process_snapshot.Prelude.{
  ℕ, ◌+◌, ◌%◌, replicate, codes, ◌==◌, ◌||◌, if◌then◌else◌, Bytes, Text, List, [], ◌∷◌, Bool, false,
  length,
}
use process_snapshot.Wire.{u64_mod}
use process_snapshot.Memory
use process_snapshot.Memory.{MemoryRegion}

pub data LinuxProcessState : Type 0 where
  running sleeping disk_sleep stopped zombie dead unknown : LinuxProcessState

unfoldable pub linux_state_to_string : LinuxProcessState → Text
linux_state_to_string LinuxProcessState.running = codes "Running"
linux_state_to_string LinuxProcessState.sleeping = codes "Sleeping"
linux_state_to_string LinuxProcessState.disk_sleep = codes "Disk Sleep"
linux_state_to_string LinuxProcessState.stopped = codes "Stopped"
linux_state_to_string LinuxProcessState.zombie = codes "Zombie"
linux_state_to_string LinuxProcessState.dead = codes "Dead"
linux_state_to_string LinuxProcessState.unknown = codes "Unknown"

unfoldable pub char_to_linux_state : ℕ → LinuxProcessState
char_to_linux_state c =
    if c == b'R'
    then LinuxProcessState.running
    else if c == b'S'
    then LinuxProcessState.sleeping
    else if c == b'D'
    then LinuxProcessState.disk_sleep
    else if c == b'T' || c == b't'
    then LinuxProcessState.stopped
    else if c == b'Z'
    then LinuxProcessState.zombie
    else if c == b'X' || c == b'x'
    then LinuxProcessState.dead
    else LinuxProcessState.unknown

pub record RealProcessInfo : Type 0 where
  pub pid : ℕ
  pub ppid : ℕ
  pub pgid : ℕ
  pub sid : ℕ
  pub name : Text
  pub cmdline : Text
  pub exe : Text
  pub cwd : Text
  pub state : LinuxProcessState
  pub user_ids : ℕ × (ℕ × ℕ)
  pub group_ids : ℕ × (ℕ × ℕ)
  -- utime, stime, cutime and cstime.
  pub times : ℕ × (ℕ × (ℕ × ℕ))
  pub priority : ℕ
  pub nice : ℕ
  pub num_threads : ℕ
  -- vmSize to vmExe.
  pub vm_sizes : ℕ × (ℕ × (ℕ × (ℕ × (ℕ × ℕ))))
  pub start_time : ℕ

pub record LinuxRegisters : Type 0 where
  pub general : List ℕ
  pub has_fpu : Bool
  pub fpu_state : Bytes

pub record MemoryDump : Type 0 where
  pub region : MemoryRegion
  pub dump_data : Bytes
  pub is_valid : Bool

pub record FileDescriptorInfo : Type 0 where
  pub fd : ℕ
  pub path : Text
  pub flags : ℕ
  pub pos : ℕ

pub record SignalInfo : Type 0 where
  pub pending : ℕ
  pub blocked : ℕ
  pub ignored : ℕ
  pub caught : ℕ

pub record RealProcessCheckpoint : Type 0 where
  pub checkpoint_id : ℕ
  pub name : Text
  pub timestamp : ℕ
  pub info : RealProcessInfo
  pub registers : LinuxRegisters
  pub memory_map : List MemoryRegion
  pub memory_dumps : List MemoryDump
  pub file_descriptors : List FileDescriptorInfo
  pub file_operation_log_data : Bytes
  pub has_file_operation_log : Bool
  pub signals : SignalInfo
  pub environ : List Text

abbrev pub new_info : RealProcessInfo
new_info = record {
  pid = 0;
  ppid = 0;
  pgid = 0;
  sid = 0;
  name = [];
  cmdline = [];
  exe = [];
  cwd = [];
  state = LinuxProcessState.unknown;
  user_ids = (0, (0, 0));
  group_ids = (0, (0, 0));
  times = (0, (0, (0, 0)));
  priority = 0;
  nice = 0;
  num_threads = 0;
  vm_sizes = (0, (0, (0, (0, (0, 0)))));
  start_time = 0;
}

abbrev pub new_registers : LinuxRegisters
new_registers = record { general = replicate 27 0; has_fpu = false; fpu_state = [] }

-- The default constructor.
unfoldable pub new : SignalInfo → RealProcessCheckpoint
new unset_signals = record {
  checkpoint_id = 0;
  name = [];
  timestamp = 0;
  info = new_info;
  registers = new_registers;
  memory_map = [];
  memory_dumps = [];
  file_descriptors = [];
  file_operation_log_data = [];
  has_file_operation_log = false;
  signals = unset_signals;
  environ = [];
}

unfoldable pub sum_sizes : List MemoryRegion → ℕ
sum_sizes [] = 0
sum_sizes (r ∷ rs) = (Memory.size r + sum_sizes rs) % u64_mod

unfoldable pub total_memory_size : RealProcessCheckpoint → ℕ
unfolding sum_sizes
total_memory_size c = sum_sizes c.memory_map

unfoldable pub sum_dumps : List MemoryDump → ℕ
sum_dumps [] = 0
sum_dumps (d ∷ ds) = (length d.dump_data + sum_dumps ds) % u64_mod

unfoldable pub dumped_memory_size : RealProcessCheckpoint → ℕ
unfolding sum_dumps
dumped_memory_size c = sum_dumps c.memory_dumps
