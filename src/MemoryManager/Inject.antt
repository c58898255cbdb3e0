-- ===== src/MemoryManager/Inject.antt =====
-- `MemoryManager::injectSyscall` and the mappings that are made with it
-- (src/real_process/memory_manager.cpp), over the calls of `Kernel`. A result is the bit pattern of
-- an `int64_t`. `strerror` is the function of the C library, and `errno` gives its
-- value in a state of the machine, if it is not 0: `PTRACE_PEEKTEXT` is called without a reset.
pub mod Laws
pub mod Executed
use process_snapshot.Prelude.{
  ℕ, zero, suc, ◌+◌, ◌-◌, ◌*◌, ◌/◌, ◌%◌, ◌^◌, Text, List, [], ◌∷◌, ◌++◌, Option, none, some, Bool,
  true, false, not, ◌&&◌, ◌||◌, codes, ltb, ◌==◌, bit_or, if◌then◌else◌,
}
use process_snapshot.Wire.{u64_mod}
use process_snapshot.Kernel.{Errno, Outcome, failed, done, Kernel}
use process_snapshot.Checkpointer.Restore.{to_string_signed, value_at, rip}
use process_snapshot.MemoryManager.{MemoryError, to_prot_flags}

pub record MemoryManager : Type 0 where
  -- 0 where no process is bound.
  pub pid : ℕ
  pub last_error : Text

abbrev pub new : MemoryManager
new = record { pid = 0; last_error = [] }

abbrev pub is_bound : MemoryManager → Bool
is_bound m = not (m.pid == 0)

pub record Syscall : Type 0 where
  pub number : ℕ
  pub arg1 : ℕ
  pub arg2 : ℕ
  pub arg3 : ℕ
  pub arg4 : ℕ
  pub arg5 : ℕ
  pub arg6 : ℕ

-- `-1`.
abbrev pub minus_one : ℕ
minus_one = 0xFFFFFFFFFFFFFFFF

abbrev pub with_error : Text → MemoryManager → MemoryManager
with_error e m = record m { last_error = e }

unfoldable pub set_at : ℕ → ℕ → List ℕ → List ℕ
set_at i n [] = []
set_at zero n (x ∷ xs) = n ∷ xs
set_at (suc i) n (x ∷ xs) = x ∷ set_at i n xs

-- rax, rdi, rsi, rdx, r10, r8 and r9 are the registers 10, 14, 13, 12, 7, 9 and 8.
abbrev pub rax : ℕ
rax = 10

unfoldable pub call_registers : Syscall → ℕ → List ℕ → List ℕ
call_registers call at regs = set_at rip at (
    set_at 8 call.arg6 (
      set_at 9 call.arg5 (
        set_at 7 call.arg4 (
          set_at 12 call.arg3
            (set_at 13 call.arg2 (set_at 14 call.arg1 (set_at rax call.number regs)))))))

-- The word with the instruction `syscall` in its first two bytes: with the low 16 bits cleared, `|`
-- adds.
unfoldable pub syscall_code : ℕ → ℕ
syscall_code code = code / 65536 * 65536 + 0x050F

-- Whether the word that was read counts.
unfoldable pub read_code : Option Errno → Outcome ℕ → Outcome ℕ
read_code errno (failed e) = failed e
read_code none (done code) = done code
read_code (some e) (done code) = if code == minus_one then failed e else done code

unfoldable pub noted : Text → Outcome (Unit {0}) → MemoryManager → MemoryManager
noted message (failed e) m = with_error message m
noted message (done u) m = m

abbrev pub sys_mmap : ℕ
sys_mmap = 9

abbrev pub sys_mprotect : ℕ
sys_mprotect = 10

abbrev pub sys_munmap : ℕ
sys_munmap = 11

-- `MAP_PRIVATE | MAP_ANONYMOUS`, and `MAP_FIXED` with them.
unfoldable pub map_flags : Bool → ℕ
map_flags fixed = if fixed then bit_or (bit_or 0x02 0x20) 0x10 else bit_or 0x02 0x20

abbrev negated : ℕ → ℕ
negated n = (u64_mod - n) % u64_mod

module _ {K : Type 0} (kernel : Kernel K) (strerror : Errno → Text) (errno : K → Option Errno) where
  unfoldable pub registers_restored : Outcome (Unit {0}) → MemoryManager → Bool × MemoryManager
  registers_restored (failed e) m =
      (false, with_error (codes "Failed to restore registers: " ++ strerror e) m)
  registers_restored (done u) m = (true, m)

  unfoldable pub restore_registers : List ℕ → MemoryManager → K → Bool × MemoryManager × K
  restore_registers saved m k =
      let (outcome, k') = kernel.set_regs m.pid saved k in
      let (ok, m') = registers_restored outcome m in (ok, m', k')

  -- The ways out that give the code and the registers back.
  unfoldable pub give_up : Text → ℕ → ℕ → List ℕ → MemoryManager → K → ℕ × MemoryManager × K
  give_up message at code saved m k =
      let (ok, m', k') = restore_registers saved m (kernel.poke m.pid at code k).1 in
      (minus_one, with_error message m', k')

  unfoldable pub got_result :
      Outcome (List ℕ) → ℕ → ℕ → List ℕ → MemoryManager → K → ℕ × MemoryManager × K
  got_result (failed e) at code saved m k =
      give_up (codes "Failed to get syscall result") at code saved m k
  got_result (done regs) at code saved m k =
      let (outcome, k1) = kernel.poke m.pid at code k in
      let m1 = noted (codes "Warning: Failed to restore original code") outcome m in
      let (ok, m2, k2) = restore_registers saved m1 k1 in
      let m3 =
        if ok then m2 else with_error (codes "Warning: Failed to restore original registers") m2 in
      (value_at rax regs, m3, k2)

  unfoldable pub stepped :
      Outcome (Unit {0}) → ℕ → ℕ → List ℕ → MemoryManager → K → ℕ × MemoryManager × K
  stepped (failed e) at code saved m k =
      give_up (codes "Failed to execute syscall") at code saved m k
  stepped (done u) at code saved m k =
      let (status, k') = kernel.wait m.pid k in
      got_result (kernel.get_regs m.pid k') at code saved m k'

  unfoldable pub registers_set :
      Outcome (Unit {0}) → ℕ → ℕ → List ℕ → MemoryManager → K → ℕ × MemoryManager × K
  registers_set (failed e) at code saved m k = (
    minus_one,
    with_error (codes "Failed to set registers for syscall") m,
    (kernel.poke m.pid at code k).1,
  )
  registers_set (done u) at code saved m k =
      let (outcome, k') = kernel.single_step m.pid k in stepped outcome at code saved m k'

  unfoldable pub registers_got :
      Outcome (List ℕ) → Syscall → ℕ → ℕ → List ℕ → MemoryManager → K → ℕ × MemoryManager × K
  registers_got (failed e) call at code saved m k = (
    minus_one,
    with_error (codes "Failed to get registers for syscall") m,
    (kernel.poke m.pid at code k).1,
  )
  registers_got (done regs) call at code saved m k =
      let (outcome, k') = kernel.set_regs m.pid (call_registers call at regs) k in
      registers_set outcome at code saved m k'

  unfoldable pub code_written :
      Outcome (Unit {0}) → Syscall → ℕ → ℕ → List ℕ → MemoryManager → K → ℕ × MemoryManager × K
  code_written (failed e) call at code saved m k =
      (minus_one, with_error (codes "Failed to inject syscall: " ++ strerror e) m, k)
  code_written (done u) call at code saved m k =
      registers_got (kernel.get_regs m.pid k) call at code saved m k

  unfoldable pub code_read :
      Outcome ℕ → Syscall → ℕ → List ℕ → MemoryManager → K → ℕ × MemoryManager × K
  code_read (failed e) call at saved m k =
      (minus_one, with_error (codes "Failed to read original code: " ++ strerror e) m, k)
  code_read (done code) call at saved m k =
      let (outcome, k') = kernel.poke m.pid at (syscall_code code) k in
      code_written outcome call at code saved m k'

  unfoldable pub registers_saved :
      Outcome (List ℕ) → Syscall → MemoryManager → K → ℕ × MemoryManager × K
  registers_saved (failed e) call m k =
      (minus_one, with_error (codes "Failed to save registers: " ++ strerror e) m, k)
  registers_saved (done saved) call m k =
      let at = value_at rip saved in
      code_read (read_code (errno k) (kernel.peek m.pid at k)) call at saved m k

  unfoldable pub inject_syscall : Syscall → MemoryManager → K → ℕ × MemoryManager × K
  inject_syscall call m k =
      if is_bound m
      then registers_saved (kernel.get_regs m.pid k) call m k
      else (minus_one, with_error (codes "No process bound") m, k)

  unfoldable pub create_mapping :
      ℕ → ℕ → Bool → Bool → Bool → Bool → MemoryManager → K → MemoryError × MemoryManager × K
  create_mapping addr size readable writable executable fixed m k =
      let placed = fixed && not (addr == 0) in
      let (result, m1, k1) =
        inject_syscall
          (record {
            number = sys_mmap;
            arg1 = addr;
            arg2 = size;
            arg3 = to_prot_flags readable writable executable;
            arg4 = map_flags placed;
            arg5 = minus_one;
            arg6 = 0;
          })
          m k in
      let (unmapped, m2, k2) =
        inject_syscall
          (record {
            number = sys_munmap;
            arg1 = result;
            arg2 = size;
            arg3 = 0;
            arg4 = 0;
            arg5 = 0;
            arg6 = 0;
          })
          (with_error (codes "mmap returned different address than requested") m1) k1 in
      if not (is_bound m)
      then (MemoryError.process_not_attached, with_error (codes "No process bound") m, k)
      else if ltb (u64_mod - 4096) result
      then (
        MemoryError.mmap_failed,
        with_error (codes "mmap failed with error: " ++ to_string_signed (negated result)) m1,
        k1,
      )
      else if placed && not (result == addr)
      then (MemoryError.mmap_failed, m2, k2)
      else (MemoryError.success, m1, k1)

  unfoldable pub remove_mapping : ℕ → ℕ → MemoryManager → K → MemoryError × MemoryManager × K
  remove_mapping addr size m k =
      let (result, m', k') =
        inject_syscall
          (record {
            number = sys_munmap;
            arg1 = addr;
            arg2 = size;
            arg3 = 0;
            arg4 = 0;
            arg5 = 0;
            arg6 = 0;
          })
          m k in
      if not (is_bound m)
      then (MemoryError.process_not_attached, m, k)
      else if result == 0
      then (MemoryError.success, m', k')
      else (
        MemoryError.munmap_failed,
        with_error (codes "munmap failed with error: " ++ to_string_signed (negated result)) m',
        k',
      )

  unfoldable pub change_protection :
      ℕ → ℕ → Bool → Bool → Bool → MemoryManager → K → MemoryError × MemoryManager × K
  change_protection addr size readable writable executable m k =
      let (result, m', k') =
        inject_syscall
          (record {
            number = sys_mprotect;
            arg1 = addr;
            arg2 = size;
            arg3 = to_prot_flags readable writable executable;
            arg4 = 0;
            arg5 = 0;
            arg6 = 0;
          })
          m k in
      if not (is_bound m)
      then (MemoryError.process_not_attached, m, k)
      else if result == 0
      then (MemoryError.success, m', k')
      else (
        MemoryError.mprotect_failed,
        with_error (codes "mprotect failed with error: " ++ to_string_signed (negated result)) m',
        k',
      )
