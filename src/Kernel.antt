-- ===== src/Kernel.antt =====
-- What the program uses of Linux to trace a process: `ptrace`, `waitpid`, `kill` and the file
-- /proc/pid/mem, over a state `K` of the machine. A call that only reads leaves the state as it is.
-- A stopped process does not run; the calls say nothing of what it does after it is let go.
pub mod Memory
use process_snapshot.Prelude.{ℕ, ◌+◌, ◌<◌, ◌≤◌, ◌≡◌, Bytes, List, Option, some, Bool, length}
use process_snapshot.Wire.{le_bytes, u64_mod}
use process_snapshot.Kernel.Memory.{store, bytes_at}

-- `errno`, as far as it is told apart.
pub data Errno : Type 0 where
  eperm esrch ebusy efault einval eio other : Errno

-- A call that fails, or its result.
pub data Outcome {ℓ} (A : Type ℓ) : Type ℓ where
  failed : Errno → Outcome A
  done : A → Outcome A

pub record Kernel (K : Type 0) : Type 0 where
  pub attach : ℕ → K → Outcome (Unit {0}) × K
  pub seize : ℕ → K → Outcome (Unit {0}) × K
  pub detach : ℕ → K → Outcome (Unit {0}) × K
  pub interrupt : ℕ → K → Outcome (Unit {0}) × K
  pub cont : ℕ → ℕ → K → Outcome (Unit {0}) × K
  pub single_step : ℕ → K → Outcome (Unit {0}) × K
  pub syscall : ℕ → K → Outcome (Unit {0}) × K
  pub kill : ℕ → ℕ → K → Outcome (Unit {0}) × K
  -- `waitpid` without options: `WIFSTOPPED` of the status.
  pub wait : ℕ → K → Outcome Bool × K
  -- The 27 registers of `user_regs_struct`.
  pub get_regs : ℕ → K → Outcome (List ℕ)
  pub set_regs : ℕ → List ℕ → K → Outcome (Unit {0}) × K
  -- The register set NT_FPREGSET, into a buffer of a size.
  pub get_fpu : ℕ → ℕ → K → Outcome Bytes
  pub set_fpu : ℕ → Bytes → K → Outcome (Unit {0}) × K
  -- A word of eight bytes, of data or of code.
  pub peek : ℕ → ℕ → K → Outcome ℕ
  pub poke : ℕ → ℕ → ℕ → K → Outcome (Unit {0}) × K
  -- `open` of /proc/pid/mem, `close`, and the bytes that a `pread` of a size gives at an address.
  pub open_mem : ℕ → K → Outcome ℕ × K
  pub close : ℕ → K → K
  pub pread : ℕ → ℕ → ℕ → K → Bytes

-- The memory and the registers of a process, and how the calls read and change them.
pub record IsKernel {K : Type 0} (kernel : Kernel K) : Type 0 where
  pub memory : K → ℕ → ℕ → ℕ
  pub registers : K → ℕ → List ℕ
  pub owner : K → ℕ → ℕ
  pub memory_byte : (k : K) (p a : ℕ) → memory k p a < 256
  pub get_regs_lem : (p : ℕ) (k : K) {r : List ℕ} → kernel.get_regs p k ≡ done r → r ≡ registers k p
  pub set_regs_lem :
      (p : ℕ) (r : List ℕ) (k : K)
      → (kernel.set_regs p r k).0 ≡ done tt
      → registers (kernel.set_regs p r k).1 p ≡ r
  pub set_regs_memory :
      (p : ℕ) (r : List ℕ) (k : K) → memory (kernel.set_regs p r k).1 p ≡ memory k p
  pub set_fpu_memory : (p : ℕ) (d : Bytes) (k : K) → memory (kernel.set_fpu p d k).1 p ≡ memory k p
  pub set_fpu_registers :
      (p : ℕ) (d : Bytes) (k : K) → registers (kernel.set_fpu p d k).1 p ≡ registers k p
  pub peek_lem :
      (p a : ℕ) (k : K) {w : ℕ}
      → kernel.peek p a k ≡ done w
      → le_bytes 8 w ≡ bytes_at (memory k p) a 8
  pub poke_lem :
      (p a w : ℕ) (k : K)
      → (kernel.poke p a w k).0 ≡ done tt
      → memory (kernel.poke p a w k).1 p ≡ store a (le_bytes 8 w) (memory k p)
  pub poke_registers : (p a w : ℕ) (k : K) → registers (kernel.poke p a w k).1 p ≡ registers k p
  pub open_mem_lem :
      (p : ℕ) (k : K) {fd : ℕ}
      → (kernel.open_mem p k).0 ≡ done fd
      → owner (kernel.open_mem p k).1 fd ≡ p
  pub pread_lem :
      (fd n a : ℕ) (k : K)
      → length (kernel.pread fd n a k) ≡ n
      → kernel.pread fd n a k ≡ bytes_at (memory k (owner k fd)) a n
  -- The memory and the registers stay while a process is let go or its file is closed.
  pub detach_memory : (q p : ℕ) (k : K) → memory (kernel.detach q k).1 p ≡ memory k p
  pub detach_registers : (q p : ℕ) (k : K) → registers (kernel.detach q k).1 p ≡ registers k p
  pub close_memory : (fd p : ℕ) (k : K) → memory (kernel.close fd k) p ≡ memory k p
  pub close_registers : (fd p : ℕ) (k : K) → registers (kernel.close fd k) p ≡ registers k p
