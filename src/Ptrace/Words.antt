-- ===== src/Ptrace/Words.antt =====
-- Reading and writing the memory of the traced process (src/real_process/ptrace_controller.cpp),
-- word by word. What a failed read leaves in its buffer is not kept: no caller looks at it. Loops
-- over `size` bytes take (size + 7) / 8 rounds, and the word of each is at the next eight bytes.
use process_snapshot.Prelude.{
  ℕ, zero, suc, ◌+◌, ◌-◌, ◌/◌, ◌%◌, Bytes, [], ◌++◌, Option, none, some, Bool, true, false, length,
  take, drop, ltb, ◌==◌, not, ◌||◌, if◌then◌else◌, min,
}
use process_snapshot.Wire.{le_bytes, le_value, u64_mod}
use process_snapshot.Memory.{MemoryRegion, size, is_vdso}
use process_snapshot.Snapshot.{MemoryDump}
use process_snapshot.Kernel.{Outcome, failed, done, Kernel}
use process_snapshot.Ptrace.{
  PtraceController, PtraceError, is_traced, errno_to_ptrace_error, guarded,
}

-- An error, or what was read.
pub data Reading {ℓ} (A : Type ℓ) : Type ℓ where
  unread : PtraceError → Reading A
  value : A → Reading A

abbrev pub rounds : ℕ → ℕ
rounds size = (size + 7) / 8

unfoldable pub peeked : Outcome ℕ → Reading ℕ
peeked (failed e) = unread (errno_to_ptrace_error e)
peeked (done w) = value w

-- The bytes that a round copies from its word.
unfoldable pub first_bytes : ℕ → Reading ℕ → Reading Bytes
first_bytes size (unread e) = unread e
first_bytes size (value word) = value (take (min size 8) (le_bytes 8 word))

unfoldable pub followed : Reading Bytes → Reading Bytes → Reading Bytes
followed (unread e) r = unread e
followed (value b) (unread e) = unread e
followed (value b) (value c) = value (b ++ c)

unfoldable pub is_success : PtraceError → Bool
is_success PtraceError.success = true
is_success PtraceError.permission_denied = false
is_success PtraceError.no_such_process = false
is_success PtraceError.already_traced = false
is_success PtraceError.not_stopped = false
is_success PtraceError.memory_error = false
is_success PtraceError.invalid_argument = false
is_success PtraceError.unknown_error = false

-- Bytes over the first ones of a word.
unfoldable pub merged : Bytes → Reading ℕ → Reading ℕ
merged b (unread e) = unread e
merged b (value word) = value (le_value (b ++ drop (length b) (le_bytes 8 word)))

unfoldable pub dumped : MemoryRegion → Reading Bytes → MemoryDump
dumped region (unread e) = record { region = region; dump_data = []; is_valid = false }
dumped region (value b) = record { region = region; dump_data = b; is_valid = true }

module _ {K : Type 0} (kernel : Kernel K) where
  unfoldable pub peek_data : ℕ → PtraceController → K → Reading ℕ
  peek_data addr c k =
      if is_traced c then peeked (kernel.peek c.pid addr k) else unread PtraceError.not_stopped

  unfoldable pub poke_data : ℕ → ℕ → PtraceController → K → PtraceError × K
  poke_data addr word c k = guarded kernel c (kernel.poke c.pid addr word k) k

  unfoldable pub read_words : ℕ → ℕ → ℕ → PtraceController → K → Reading Bytes
  read_words zero addr size c k = value []
  read_words (suc n) addr size c k =
      followed (first_bytes size (peek_data addr c k))
        (read_words n ((addr + 8) % u64_mod) (size - 8) c k)

  -- The bytes that `pread` gives, if they are as many as were asked for.
  unfoldable pub read_file : ℕ → ℕ → Option ℕ → K → Option Bytes
  read_file addr size none k = none
  read_file addr size (some fd) k =
      let b = kernel.pread fd size addr k in if length b == size then some b else none

  -- What `pread` gives, or else what the words give.
  unfoldable pub read_either : Option Bytes → Reading Bytes → Reading Bytes
  read_either (some b) r = value b
  read_either none r = r

  unfoldable pub read_memory : ℕ → ℕ → PtraceController → K → Reading Bytes
  read_memory addr size c k =
      if is_traced c
      then read_either (read_file addr size c.mem_fd k) (read_words (rounds size) addr size c k)
      else unread PtraceError.not_stopped

  -- The word that a round writes: a part of a word is put over the word that is there.
  unfoldable pub next_word : ℕ → Bytes → PtraceController → K → Reading ℕ
  next_word addr b c k =
      if ltb (length b) 8 then merged b (peek_data addr c k) else value (le_value (take 8 b))

  unfoldable pub poke_word : ℕ → Reading ℕ → PtraceController → K → PtraceError × K
  poke_word addr (unread e) c k = (e, k)
  poke_word addr (value word) c k = poke_data addr word c k

  unfoldable pub write_words : ℕ → ℕ → Bytes → PtraceController → K → PtraceError × K
  write_words zero addr b c k = (PtraceError.success, k)
  write_words (suc n) addr b c k =
      let (error, k') = poke_word addr (next_word addr b c k) c k in
      let rest = write_words n ((addr + 8) % u64_mod) (drop 8 b) c k' in
      if is_success error then rest else (error, k')

  unfoldable pub write_memory : ℕ → Bytes → PtraceController → K → PtraceError × K
  write_memory addr b c k =
      if is_traced c
      then write_words (rounds (length b)) addr b c k
      else (PtraceError.not_stopped, k)

  unfoldable pub dump_memory_region : MemoryRegion → PtraceController → K → MemoryDump
  dump_memory_region region c k =
      if is_vdso region || (not region.readable || not (is_traced c))
      then dumped region (unread PtraceError.not_stopped)
      else dumped region (read_memory region.start_addr (size region) c k)

  unfoldable pub restore_memory_region : MemoryDump → PtraceController → K → PtraceError × K
  restore_memory_region dump c k =
      if not dump.is_valid || length dump.dump_data == 0
      then (PtraceError.invalid_argument, k)
      else if not (is_traced c)
      then (PtraceError.not_stopped, k)
      else if not dump.region.writable
      then (PtraceError.permission_denied, k)
      else write_memory dump.region.start_addr dump.dump_data c k
