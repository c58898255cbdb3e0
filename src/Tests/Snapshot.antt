-- ===== src/Tests/Snapshot.antt =====
-- A process checkpoint at a concrete input.
use process_snapshot.Prelude.{
  ℕ, zero, suc, ◌<◌, All, ◌≡◌, refl, [], ◌∷◌, ◌++◌, codes, some, true, false, arith, replicate,
}
use process_snapshot.Wire.{u64_mod}
use process_snapshot.Memory.{MemoryRegion}
use process_snapshot.Snapshot.{RealProcessCheckpoint, SignalInfo, new_info}
use process_snapshot.Snapshot.Format.{serialize, deserialize}
use process_snapshot.Snapshot.Format.RoundTrip.{stored, deserialize-serialize_snapshot}

abbrev region : MemoryRegion
region = record {
  start_addr = 4096;
  end_addr = 8192;
  readable = true;
  writable = true;
  executable = false;
  is_private = true;
  offset = 512;
  device = codes "08:01";
  inode = 7;
  pathname = codes "[heap]";
}

abbrev unset : MemoryRegion
unset = record region { offset = 99; inode = 98 }

abbrev signals : SignalInfo
signals = record { pending = 0; blocked = 2; ignored = 4; caught = 0 }

abbrev process : RealProcessCheckpoint
process = record {
  checkpoint_id = 5;
  name = codes "first";
  timestamp = 1700000000;
  info = record new_info {
    pid = 321;
    ppid = 1;
    name = codes "cat";
    cmdline = codes "cat f";
    nice = 3;
  };
  registers = record { general = replicate 27 6; has_fpu = true; fpu_state = 1 ∷ 2 ∷ [] };
  memory_map = region ∷ [];
  memory_dumps = record { region = region; dump_data = 10 ∷ 20 ∷ []; is_valid = true } ∷ [];
  file_descriptors = [];
  file_operation_log_data = [];
  has_file_operation_log = false;
  signals = signals;
  environ = codes "A=1" ∷ [];
}

pub replicate-All : (n : ℕ) → All (λ k. k < u64_mod) (replicate n 6)
replicate-All zero = tt
replicate-All (suc n) = (omega arith, replicate-All n)

deserialize-serialize_snapshot_example :
    deserialize signals unset (serialize (replicate 7 0) process ++ 9 ∷ [])
    ≡ some (stored unset process, 9 ∷ [])
deserialize-serialize_snapshot_example =
    deserialize-serialize_snapshot signals unset (replicate 7 0) process (9 ∷ []) refl (record {
      id = omega arith;
      timestamp = omega arith;
      name = omega arith;
      pid = omega arith;
      ppid = omega arith;
      proc_name = omega arith;
      cmdline = omega arith;
      registers = record { count = refl; general = replicate-All 27; fpu = omega arith };
      region_count = omega arith;
      memory_map = (record { start = omega arith; end = omega arith; path = omega arith }, tt);
      dump_count = omega arith;
      memory_dumps = (record { start = omega arith; end = omega arith; size = omega arith }, tt);
      signals = record {
        pending = omega arith;
        blocked = omega arith;
        ignored = omega arith;
        caught = omega arith;
      };
    })
