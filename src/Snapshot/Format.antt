-- ===== src/Snapshot/Format.antt =====
-- `RealProcessCheckpoint::serialize` and `deserialize` (src/real_process/real_process_types.cpp).
pub mod RoundTrip
use process_snapshot.Prelude.{
  ℕ, ◌+◌, ◌/◌, ◌%◌, Bytes, Text, List, [], ◌∷◌, ◌++◌, Option, some, Bool, true, false, not, length,
  ◌==◌, ◌&&◌, ltb, ◌*◌, if◌then◌else◌,
}
use process_snapshot.Wire.{
  Reader, ◌>>=◌, pure, read_bytes, read_u8, read_u32, read_u64, read_many, write_many, u8_bytes,
  u32_bytes, u64_bytes, to_u32,
}
use process_snapshot.State.OperationRecord.{bool_to_int}
use process_snapshot.Memory.{MemoryRegion}
use process_snapshot.Snapshot.{
  LinuxRegisters, MemoryDump, SignalInfo, RealProcessCheckpoint, new_info, new,
}

-- A text behind its length.
unfoldable pub write_text : Text → Bytes
write_text t = u32_bytes (to_u32 (length t)) ++ t

unfoldable pub read_text : Reader Text
read_text = do n ← read_u32; read_bytes n

unfoldable pub region_flags : MemoryRegion → ℕ
region_flags r =
    bool_to_int r.readable
    + 2 * bool_to_int r.writable
    + 4 * bool_to_int r.executable
    + 8 * bool_to_int r.is_private

unfoldable pub write_region : MemoryRegion → Bytes
write_region r =
    u64_bytes r.start_addr
    ++ (u64_bytes r.end_addr ++ (u8_bytes (region_flags r) ++ write_text r.pathname))

unfoldable pub write_dump : MemoryDump → Bytes
write_dump d =
    u64_bytes d.region.start_addr
    ++ (u64_bytes d.region.end_addr ++ (u64_bytes (length d.dump_data) ++ d.dump_data))

unfoldable pub write_fpu : LinuxRegisters → Bytes
write_fpu r = u8_bytes (bool_to_int r.has_fpu) ++ (if r.has_fpu then write_text r.fpu_state else [])

-- The bytes of the struct up to its vector, and the state of the floating point unit.
unfoldable pub write_registers : Bytes → LinuxRegisters → Bytes
write_registers padding r =
    write_many u64_bytes r.general ++ (u8_bytes (bool_to_int r.has_fpu) ++ (padding ++ write_fpu r))

unfoldable pub write_signals : SignalInfo → Bytes
write_signals s =
    u64_bytes s.pending ++ (u64_bytes s.blocked ++ (u64_bytes s.ignored ++ u64_bytes s.caught))

-- What stands behind "RCHK" and the version.
unfoldable pub write_body : Bytes → RealProcessCheckpoint → Bytes
write_body padding c =
    u64_bytes c.checkpoint_id
    ++ (u64_bytes c.timestamp
        ++ (write_text c.name
            ++ (u32_bytes c.info.pid
                ++ (u32_bytes c.info.ppid
                    ++ (write_text c.info.name
                        ++ (write_text c.info.cmdline
                            ++ (write_registers padding c.registers
                                ++ (u32_bytes (to_u32 (length c.memory_map))
                                    ++ (write_many write_region c.memory_map
                                        ++ (u32_bytes (to_u32 (length c.memory_dumps))
                                            ++ (write_many write_dump c.memory_dumps
                                                ++ write_signals c.signals)))))))))))

unfoldable pub serialize : Bytes → RealProcessCheckpoint → Bytes
serialize padding c = b'R' ∷ b'C' ∷ b'H' ∷ b'K' ∷ (u32_bytes 1 ++ write_body padding c)

unfoldable pub read_region : MemoryRegion → Reader MemoryRegion
read_region unset = do
  start ← read_u64
  end ← read_u64
  flags ← read_u8
  path ← read_text
  pure (record {
    start_addr = start;
    end_addr = end;
    readable = not (flags % 2 == 0);
    writable = not (flags / 2 % 2 == 0);
    executable = not (flags / 4 % 2 == 0);
    is_private = not (flags / 8 % 2 == 0);
    offset = unset.offset;
    device = [];
    inode = unset.inode;
    pathname = path;
  })

-- All fields of the region but the two addresses are left as they are.
unfoldable pub read_dump : MemoryRegion → Reader MemoryDump
read_dump unset = do
  start ← read_u64
  end ← read_u64
  size ← read_u64
  content ← read_bytes size
  pure (record {
    region = record unset { start_addr = start; end_addr = end; device = []; pathname = [] };
    dump_data = content;
    is_valid = true;
  })

unfoldable pub read_fpu : List ℕ → ℕ → Reader LinuxRegisters
read_fpu general flag =
    if flag == 0 then pure (record { general = general; has_fpu = false; fpu_state = [] }) else (do
      state ← read_text
      pure (record { general = general; has_fpu = true; fpu_state = state }))

unfoldable pub read_registers : Reader LinuxRegisters
read_registers = do
  general ← read_many 27 read_u64
  raw ← read_bytes 8
  flag ← read_u8
  read_fpu general flag

unfoldable pub read_signals : Reader SignalInfo
read_signals = do
  pending ← read_u64
  blocked ← read_u64
  ignored ← read_u64
  caught ← read_u64
  pure (record { pending = pending; blocked = blocked; ignored = ignored; caught = caught })

module _ (unset_signals : SignalInfo) (unset : MemoryRegion) where
  unfoldable pub read_body : Reader RealProcessCheckpoint
  read_body = do
    id ← read_u64
    timestamp ← read_u64
    name ← read_text
    pid ← read_u32
    ppid ← read_u32
    proc_name ← read_text
    cmdline ← read_text
    registers ← read_registers
    region_count ← read_u32
    memory_map ← read_many region_count (read_region unset)
    dump_count ← read_u32
    memory_dumps ← read_many dump_count (read_dump unset)
    signals ← read_signals
    pure (record (new unset_signals) {
      checkpoint_id = id;
      name = name;
      timestamp = timestamp;
      info = record new_info { pid = pid; ppid = ppid; name = proc_name; cmdline = cmdline };
      registers = registers;
      memory_map = memory_map;
      memory_dumps = memory_dumps;
      signals = signals;
    })

  unfoldable pub read_version : Reader RealProcessCheckpoint
  read_version = do version ← read_u32; if version == 1 then read_body else pure (new unset_signals)

  -- Other data than those of a checkpoint give a new one.
  unfoldable pub deserialize : Reader RealProcessCheckpoint
  deserialize (r ∷ c ∷ h ∷ k ∷ s) =
      let rest = read_version s in
      if r == b'R' && (c == b'C' && (h == b'H' && (k == b'K' && not (ltb (length s) 4))))
      then rest
      else pure (new unset_signals) s
  deserialize s = pure (new unset_signals) s
