-- ===== src/Snapshot/Format/RoundTrip.antt =====
-- What a stored `RealProcessCheckpoint` gives when it is read back.
use process_snapshot.Prelude.{
  ℕ, suc, ◌+◌, ◌*◌, ◌/◌, ◌%◌, ◌<◌, ◌≡◌, refl, Bytes, Text, List, [], ◌∷◌, ◌++◌, map, some, Bool,
  true, false, not, All, length, append_assoc, ltb, ◌==◌, if◌then◌else◌, arith, subst, ap, ◌∙◌,
  length-append,
}
use process_snapshot.Wire.{
  Reader, ◌>>=◌, pure, le_bytes, read_many, write_many, u32_mod, u64_mod, to_u32, u32_bytes,
  u64_bytes, u8_bytes, read_bytes, read_u64, read_u8,
}
use process_snapshot.Wire.Laws.{
  read_u8-bind, read_u32-bind, read_u64-bind, read_bytes-bind, read_many-bind, read_u64_lem,
  bind_of_some, bind_assoc, length-u32_bytes,
}
use process_snapshot.State.OperationRecord.{bool_to_int}
use process_snapshot.Memory.{MemoryRegion}
use process_snapshot.Snapshot.{
  LinuxRegisters, MemoryDump, SignalInfo, RealProcessCheckpoint, new_info, new,
}
use process_snapshot.Snapshot.Format.{
  write_text, read_text, region_flags, write_region, write_dump, write_fpu, write_registers,
  write_signals, write_body, serialize, read_region, read_dump, read_fpu, read_registers,
  read_signals, read_body, read_version, deserialize,
}

-- Values of which a function `g` keeps a part, written one after another.
read_many-map {ℓ} :
    {A : Type ℓ} (r : Reader A) (w : A → Bytes) (g : A → A) (P : A → Type 0)
    → ((a : A) (rest : Bytes) → P a → r (w a ++ rest) ≡ some (g a, rest))
    → (l : List A) (rest : Bytes) → All P l
    → read_many (length l) r (write_many w l ++ rest) ≡ some (map g l, rest)
unfolding read_many write_many pure
read_many-map r w g P step [] rest h = refl
read_many-map r w g P step (a ∷ l) rest h = rw append_assoc (
    bind_of_some r _ _ (step a (write_many w l ++ rest) h.0)
    ∙ bind_of_some (read_many (length l) r) _ _ (read_many-map r w g P step l rest h.1))

read_text-bind :
    {B : Type 0} (t : Text) (rest : Bytes) (f : Text → Reader B)
    → length t < u32_mod
    → (read_text >>= f) (write_text t ++ rest) ≡ f t rest
unfolding read_text write_text
read_text-bind t rest f h =
    let len : to_u32 (length t) ≡ length t = omega (arith, h) in
    simp (bind_assoc, len, append_assoc, read_u32-bind, read_bytes-bind, h)

pub record IsRegion (r : MemoryRegion) : Type 0 where
  pub start : r.start_addr < u64_mod
  pub end : r.end_addr < u64_mod
  pub path : length r.pathname < u32_mod

pub record IsDump (d : MemoryDump) : Type 0 where
  pub start : d.region.start_addr < u64_mod
  pub end : d.region.end_addr < u64_mod
  pub size : length d.dump_data < u64_mod

abbrev pub stored_region : MemoryRegion → MemoryRegion → MemoryRegion
stored_region unset r = record r { offset = unset.offset; device = []; inode = unset.inode }

abbrev pub stored_dump : MemoryRegion → MemoryDump → MemoryDump
stored_dump unset d = record {
  region = record unset {
    start_addr = d.region.start_addr;
    end_addr = d.region.end_addr;
    device = [];
    pathname = [];
  };
  dump_data = d.dump_data;
  is_valid = true;
}

-- The flags of a region, on each of the sixteen combinations.
region_bits :
    (r w x p : Bool)
    → let n = bool_to_int r + 2 * bool_to_int w + 4 * bool_to_int x + 8 * bool_to_int p in
      (n < 256)
      × (not (n % 2 == 0) ≡ r)
      × (not (n / 2 % 2 == 0) ≡ w)
      × (not (n / 4 % 2 == 0) ≡ x)
      × (not (n / 8 % 2 == 0) ≡ p)
region_bits true true true true = (omega arith, refl, refl, refl, refl)
region_bits true true true false = (omega arith, refl, refl, refl, refl)
region_bits true true false true = (omega arith, refl, refl, refl, refl)
region_bits true true false false = (omega arith, refl, refl, refl, refl)
region_bits true false true true = (omega arith, refl, refl, refl, refl)
region_bits true false true false = (omega arith, refl, refl, refl, refl)
region_bits true false false true = (omega arith, refl, refl, refl, refl)
region_bits true false false false = (omega arith, refl, refl, refl, refl)
region_bits false true true true = (omega arith, refl, refl, refl, refl)
region_bits false true true false = (omega arith, refl, refl, refl, refl)
region_bits false true false true = (omega arith, refl, refl, refl, refl)
region_bits false true false false = (omega arith, refl, refl, refl, refl)
region_bits false false true true = (omega arith, refl, refl, refl, refl)
region_bits false false true false = (omega arith, refl, refl, refl, refl)
region_bits false false false true = (omega arith, refl, refl, refl, refl)
region_bits false false false false = (omega arith, refl, refl, refl, refl)

region_trip :
    (unset r : MemoryRegion) (rest : Bytes)
    → IsRegion r
    → read_region unset (write_region r ++ rest) ≡ some (stored_region unset r, rest)
unfolding read_region write_region region_flags pure
region_trip unset r rest v =
    let (small, readable, writable, executable, private) =
      region_bits r.readable r.writable r.executable r.is_private in
    simp (
      append_assoc, read_u64-bind, read_u8-bind, read_text-bind, v.start, v.end, v.path, small,
      readable, writable, executable, private,
    )

dump_trip :
    (unset : MemoryRegion) (d : MemoryDump) (rest : Bytes)
    → IsDump d
    → read_dump unset (write_dump d ++ rest) ≡ some (stored_dump unset d, rest)
unfolding read_dump write_dump pure
dump_trip unset d rest v =
    simp (append_assoc, read_u64-bind, read_bytes-bind, v.start, v.end, v.size)

pub record IsRegisters (r : LinuxRegisters) : Type 0 where
  pub count : length r.general ≡ 27
  pub general : All (λ n. n < u64_mod) r.general
  pub fpu : length r.fpu_state < u32_mod

pub record IsSignals (s : SignalInfo) : Type 0 where
  pub pending : s.pending < u64_mod
  pub blocked : s.blocked < u64_mod
  pub ignored : s.ignored < u64_mod
  pub caught : s.caught < u64_mod

abbrev pub stored_registers : LinuxRegisters → LinuxRegisters
stored_registers r = record r { fpu_state = if r.has_fpu then r.fpu_state else [] }

fpu_trip :
    (general : List ℕ) (b : Bool) (state rest : Bytes)
    → length state < u32_mod
    → read_fpu general (bool_to_int b) ((if b then write_text state else []) ++ rest)
      ≡ some (record { general = general; has_fpu = b; fpu_state = if b then state else [] }, rest)
unfolding read_fpu pure
fpu_trip general true state rest h = simp (read_text-bind, h)
fpu_trip general false state rest h = refl

bool_to_int-lt : (b : Bool) → bool_to_int b < 256
bool_to_int-lt true = omega arith
bool_to_int-lt false = omega arith

fpu_trip-flag :
    (r : LinuxRegisters) (rest : Bytes)
    → length r.fpu_state < u32_mod
    → (read_u8 >>= λ flag. read_fpu r.general flag) (write_fpu r ++ rest)
      ≡ some (stored_registers r, rest)
unfolding write_fpu
fpu_trip-flag r rest h = rw append_assoc (
    read_u8-bind (bool_to_int r.has_fpu) _ _ (bool_to_int-lt r.has_fpu)
    ∙ fpu_trip r.general r.has_fpu r.fpu_state rest h)

-- Eight bytes that are skipped.
skip_bytes :
    {B : Type 0} (n : ℕ) (padding rest : Bytes) (f : Bytes → Reader B)
    → length padding ≡ 7
    → (read_bytes 8 >>= f) (u8_bytes n ++ (padding ++ rest)) ≡ f (u8_bytes n ++ padding) rest
unfolding u8_bytes le_bytes
skip_bytes n padding rest f h =
    subst (λ k. (read_bytes k >>= f) (n % 256 ∷ padding ++ rest) ≡ f (n % 256 ∷ padding) rest)
      (ap suc h) (read_bytes-bind (n % 256 ∷ padding) rest f)

registers_trip :
    (padding : Bytes) (r : LinuxRegisters) (rest : Bytes)
    → length padding ≡ 7
    → IsRegisters r
    → read_registers (write_registers padding r ++ rest) ≡ some (stored_registers r, rest)
unfolding read_registers write_registers write_fpu
registers_trip padding r rest h v =
    let fpu_part = write_fpu r ++ rest in
    let dump = u8_bytes (bool_to_int r.has_fpu) ++ (padding ++ fpu_part) in
    rw (append_assoc, append_assoc, append_assoc)
      (subst
          (λ n.
            (read_many n read_u64 >>= λ general.
            read_bytes 8 >>= λ raw. read_u8 >>= λ flag. read_fpu general flag)
              (write_many u64_bytes r.general ++ dump)
            ≡ (read_bytes 8 >>= λ raw. read_u8 >>= λ flag. read_fpu r.general flag) dump)
          v.count
          (read_many-bind read_u64 u64_bytes (λ n. n < u64_mod) read_u64_lem r.general dump _
            v.general)
        ∙ skip_bytes (bool_to_int r.has_fpu) padding fpu_part _ h
        ∙ fpu_trip-flag r rest v.fpu)

signals_trip :
    (s : SignalInfo) (rest : Bytes)
    → IsSignals s
    → read_signals (write_signals s ++ rest) ≡ some (s, rest)
unfolding read_signals write_signals pure
signals_trip s rest v =
    simp (append_assoc, read_u64-bind, v.pending, v.blocked, v.ignored, v.caught)

pub record IsStorable (c : RealProcessCheckpoint) : Type 0 where
  pub id : c.checkpoint_id < u64_mod
  pub timestamp : c.timestamp < u64_mod
  pub name : length c.name < u32_mod
  pub pid : c.info.pid < u32_mod
  pub ppid : c.info.ppid < u32_mod
  pub proc_name : length c.info.name < u32_mod
  pub cmdline : length c.info.cmdline < u32_mod
  pub registers : IsRegisters c.registers
  pub region_count : length c.memory_map < u32_mod
  pub memory_map : All IsRegion c.memory_map
  pub dump_count : length c.memory_dumps < u32_mod
  pub memory_dumps : All IsDump c.memory_dumps
  pub signals : IsSignals c.signals

-- What the format keeps. The open files, the environment and the log of file operations are not
-- stored, and of the process only its two ids, its name and its command line.
abbrev pub stored : MemoryRegion → RealProcessCheckpoint → RealProcessCheckpoint
stored unset c = record c {
  info = record new_info {
    pid = c.info.pid;
    ppid = c.info.ppid;
    name = c.info.name;
    cmdline = c.info.cmdline;
  };
  registers = stored_registers c.registers;
  memory_map = map (stored_region unset) c.memory_map;
  memory_dumps = map (stored_dump unset) c.memory_dumps;
  file_descriptors = [];
  file_operation_log_data = [];
  has_file_operation_log = false;
  environ = [];
}

module _ (unset_signals : SignalInfo) (unset : MemoryRegion) {B : Type 0} where
  registers-bind :
      (padding : Bytes) (r : LinuxRegisters) (rest : Bytes) (f : LinuxRegisters → Reader B)
      → length padding ≡ 7
      → IsRegisters r
      → (read_registers >>= f) (write_registers padding r ++ rest) ≡ f (stored_registers r) rest
  registers-bind padding r rest f h v =
      bind_of_some read_registers f _ (registers_trip padding r rest h v)

  regions-bind :
      (l : List MemoryRegion) (rest : Bytes) (f : List MemoryRegion → Reader B)
      → All IsRegion l
      → (read_many (length l) (read_region unset) >>= f) (write_many write_region l ++ rest)
        ≡ f (map (stored_region unset) l) rest
  regions-bind l rest f v = bind_of_some (read_many (length l) (read_region unset)) f _ (
      read_many-map (read_region unset) write_region (stored_region unset) IsRegion
        (region_trip unset) l rest v)

  dumps-bind :
      (l : List MemoryDump) (rest : Bytes) (f : List MemoryDump → Reader B)
      → All IsDump l
      → (read_many (length l) (read_dump unset) >>= f) (write_many write_dump l ++ rest)
        ≡ f (map (stored_dump unset) l) rest
  dumps-bind l rest f v = bind_of_some (read_many (length l) (read_dump unset)) f _ (
      read_many-map (read_dump unset) write_dump (stored_dump unset) IsDump (dump_trip unset) l rest
        v)

  signals-bind :
      (s : SignalInfo) (rest : Bytes) (f : SignalInfo → Reader B)
      → IsSignals s
      → (read_signals >>= f) (write_signals s ++ rest) ≡ f s rest
  signals-bind s rest f v = bind_of_some read_signals f _ (signals_trip s rest v)

body_trip :
    (unset_signals : SignalInfo) (unset : MemoryRegion) (padding : Bytes)
    (c : RealProcessCheckpoint) (rest : Bytes)
    → length padding ≡ 7
    → IsStorable c
    → read_body unset_signals unset (write_body padding c ++ rest) ≡ some (stored unset c, rest)
unfolding read_body write_body pure new
body_trip unset_signals unset padding c rest h v =
    let regions : to_u32 (length c.memory_map) ≡ length c.memory_map =
      omega (arith, v.region_count) in
    let dumps : to_u32 (length c.memory_dumps) ≡ length c.memory_dumps =
      omega (arith, v.dump_count) in
    simp (
      append_assoc,
      read_u64-bind,
      read_u32-bind,
      read_text-bind,
      registers-bind unset_signals unset,
      regions-bind unset_signals unset,
      dumps-bind unset_signals unset,
      signals-bind unset_signals unset,
      regions,
      dumps,
      h,
      v.id,
      v.timestamp,
      v.name,
      v.pid,
      v.ppid,
      v.proc_name,
      v.cmdline,
      v.registers,
      v.region_count,
      v.memory_map,
      v.dump_count,
      v.memory_dumps,
      v.signals,
    )

version_length : (s : Bytes) → ltb (length (u32_bytes 1 ++ s)) 4 ≡ false
version_length s = rw (length-append, length-u32_bytes) (ground arith)

-- A process checkpoint that fits the format, written and read back, has its ids, name and times, the
-- registers, the regions of memory but for their offset, device and inode, the dumps with their
-- addresses, and the signals, whatever bytes stand behind it and in the padding.
pub deserialize-serialize_snapshot :
    (unset_signals : SignalInfo) (unset : MemoryRegion) (padding : Bytes)
    (c : RealProcessCheckpoint) (rest : Bytes)
    → length padding ≡ 7
    → IsStorable c
    → deserialize unset_signals unset (serialize padding c ++ rest) ≡ some (stored unset c, rest)
unfolding deserialize serialize read_version
deserialize-serialize_snapshot unset_signals unset padding c rest h v =
    rw (append_assoc, version_length (write_body padding c ++ rest))
      (read_u32-bind 1 (write_body padding c ++ rest) _ (omega arith)
        ∙ body_trip unset_signals unset padding c rest h v)
