-- ===== src/Ptrace.antt =====
-- `PtraceController` (include/real_process/ptrace_controller.hpp and
-- src/real_process/ptrace_controller.cpp) over the calls of `Kernel`. A method takes and returns the
-- controller with the state of the machine. `waitForStop` is the one without a time limit.
pub mod Words
pub mod Lifetime
pub mod Laws
pub mod Writing
pub mod Answering
pub mod Reading
pub mod Keeps
use process_snapshot.Prelude.{
  ℕ, ◌≡◌, Bytes, Text, List, [], ◌∷◌, Option, none, some, Bool, true, false, ◌||◌, ◌&&◌, codes,
  length, ltb, ◌==◌, ◌+◌, if◌then◌else◌, starts_with,
}
use process_snapshot.Snapshot.{LinuxRegisters}
use process_snapshot.Kernel.{Errno, Outcome, failed, done, Kernel}

pub data PtraceError : Type 0 where
  success permission_denied no_such_process already_traced not_stopped memory_error invalid_argument
        unknown_error :
      PtraceError

unfoldable pub ptrace_error_to_string : PtraceError → Text
ptrace_error_to_string PtraceError.success = codes "Success"
ptrace_error_to_string PtraceError.permission_denied =
    codes "Permission denied (need root or same user)"
ptrace_error_to_string PtraceError.no_such_process = codes "No such process"
ptrace_error_to_string PtraceError.already_traced = codes "Process already being traced"
ptrace_error_to_string PtraceError.not_stopped = codes "Process not stopped"
ptrace_error_to_string PtraceError.memory_error = codes "Memory access error"
ptrace_error_to_string PtraceError.invalid_argument = codes "Invalid argument"
ptrace_error_to_string PtraceError.unknown_error = codes "Unknown error"

unfoldable pub errno_to_ptrace_error : Errno → PtraceError
errno_to_ptrace_error Errno.eperm = PtraceError.permission_denied
errno_to_ptrace_error Errno.esrch = PtraceError.no_such_process
errno_to_ptrace_error Errno.ebusy = PtraceError.already_traced
errno_to_ptrace_error Errno.efault = PtraceError.memory_error
errno_to_ptrace_error Errno.einval = PtraceError.invalid_argument
errno_to_ptrace_error Errno.eio = PtraceError.memory_error
errno_to_ptrace_error Errno.other = PtraceError.unknown_error

pub record PtraceController : Type 0 where
  pub pid : ℕ
  pub attached : Bool
  pub seized : Bool
  -- The descriptor of /proc/pid/mem, `none` for -1.
  pub mem_fd : Option ℕ

-- A moved-from controller is a new one.
abbrev pub new : PtraceController
new = record { pid = 0; attached = false; seized = false; mem_fd = none }

-- `m_attached || m_seized`.
abbrev pub is_traced : PtraceController → Bool
is_traced c = c.attached || c.seized

-- `-1` with its `errno`, or success.
unfoldable pub to_error : Outcome (Unit {0}) → PtraceError
to_error (failed e) = errno_to_ptrace_error e
to_error (done u) = PtraceError.success

abbrev pub let_go : PtraceController → PtraceController
let_go c = record c { pid = 0; attached = false; seized = false }

unfoldable pub opened : Outcome ℕ → PtraceController → PtraceController
opened (failed e) c = record c { mem_fd = none }
opened (done fd) c = record c { mem_fd = some fd }

unfoldable pub detached : Outcome (Unit {0}) → PtraceController → PtraceError × PtraceController
detached (failed Errno.esrch) c = (PtraceError.no_such_process, let_go c)
detached (failed e) c = (errno_to_ptrace_error e, c)
detached (done u) c = (PtraceError.success, let_go c)

unfoldable pub stopped_outcome : Outcome Bool → PtraceError
stopped_outcome (done true) = PtraceError.success
stopped_outcome (done false) = PtraceError.unknown_error
stopped_outcome (failed e) = PtraceError.unknown_error

abbrev pub sigstop : ℕ
sigstop = 19

unfoldable pub got_registers : Outcome (List ℕ) → LinuxRegisters → PtraceError × LinuxRegisters
got_registers (failed e) r = (errno_to_ptrace_error e, r)
got_registers (done general) r = (PtraceError.success, record r { general = general })

unfoldable pub got_fpu_registers : Outcome Bytes → PtraceError × Bytes
got_fpu_registers (failed e) = (errno_to_ptrace_error e, [])
got_fpu_registers (done state) = (PtraceError.success, state)

module _ {K : Type 0} (kernel : Kernel K) where
  unfoldable pub close_file : Option ℕ → PtraceController → K → PtraceController × K
  close_file none c k = (c, k)
  close_file (some fd) c k = (record c { mem_fd = none }, kernel.close fd k)

  unfoldable pub close_mem_fd : PtraceController → K → PtraceController × K
  close_mem_fd c k = close_file c.mem_fd c k

  unfoldable pub open_file : Option ℕ → PtraceController → K → PtraceController × K
  open_file (some fd) c k = (c, k)
  open_file none c k = let (outcome, k') = kernel.open_mem c.pid k in (opened outcome c, k')

  unfoldable pub open_mem_fd : PtraceController → K → PtraceController × K
  open_mem_fd c k = open_file c.mem_fd c k

  unfoldable pub detach : PtraceController → K → PtraceError × PtraceController × K
  detach c k =
      let (c1, k1) = close_mem_fd c k in
      let (outcome, k2) = kernel.detach c1.pid k1 in
      let (error, c2) = detached outcome c1 in
      if is_traced c then (error, c2, k2) else (PtraceError.success, c, k)

  unfoldable pub let_go_first : PtraceController → K → PtraceController × K
  let_go_first c k = let (error, c', k') = detach c k in if is_traced c then (c', k') else (c, k)

  -- `attach`, behind the `waitpid`.
  unfoldable pub attach_waited :
      Outcome Bool → PtraceController → K → PtraceError × PtraceController × K
  attach_waited (failed e) c k =
      (errno_to_ptrace_error e, record c { attached = false; pid = 0 }, k)
  attach_waited (done status) c k = let (c', k') = open_mem_fd c k in (PtraceError.success, c', k')

  -- `attach` and `seize`, behind the first call of `ptrace`.
  unfoldable pub attach_called :
      Outcome (Unit {0}) → ℕ → PtraceController → K → PtraceError × PtraceController × K
  attach_called (failed e) pid c k = (errno_to_ptrace_error e, c, k)
  attach_called (done u) pid c k =
      let (status, k') = kernel.wait pid k in
      attach_waited status (record c { pid = pid; attached = true }) k'

  unfoldable pub attach : ℕ → PtraceController → K → PtraceError × PtraceController × K
  attach pid c k =
      let (c1, k1) = let_go_first c k in
      let (outcome, k2) = kernel.attach pid k1 in attach_called outcome pid c1 k2

  unfoldable pub seize_called :
      Outcome (Unit {0}) → ℕ → PtraceController → K → PtraceError × PtraceController × K
  seize_called (failed e) pid c k = (errno_to_ptrace_error e, c, k)
  seize_called (done u) pid c k =
      let (c', k') = open_mem_fd (record c { pid = pid; seized = true }) k in
      (PtraceError.success, c', k')

  unfoldable pub seize : ℕ → PtraceController → K → PtraceError × PtraceController × K
  seize pid c k =
      let (c1, k1) = let_go_first c k in
      let (outcome, k2) = kernel.seize pid k1 in seize_called outcome pid c1 k2

  -- The destructor.
  unfoldable pub close : PtraceController → K → PtraceController × K
  close c k = let (c', k') = let_go_first c k in close_mem_fd c' k'

  -- `*this = std::move(other)`, of two different objects: both afterwards.
  unfoldable pub move_assign :
      PtraceController → PtraceController → K → PtraceController × PtraceController × K
  move_assign c other k = let (c', k') = close c k in (other, new, k')

  unfoldable pub stop_called : Outcome (Unit {0}) → ℕ → K → PtraceError × K
  stop_called (failed e) pid k = (errno_to_ptrace_error e, k)
  stop_called (done u) pid k = let (status, k') = kernel.wait pid k in (stopped_outcome status, k')

  unfoldable pub stop : PtraceController → K → PtraceError × K
  stop c k =
      let (outcome, k') =
        if c.seized then kernel.interrupt c.pid k else kernel.kill c.pid sigstop k in
      if is_traced c then stop_called outcome c.pid k' else (PtraceError.not_stopped, k)

  -- A method that makes one call, if the controller traces a process.
  unfoldable pub guarded : PtraceController → Outcome (Unit {0}) × K → K → PtraceError × K
  guarded c call k = if is_traced c then (to_error call.0, call.1) else (PtraceError.not_stopped, k)

  unfoldable pub cont : ℕ → PtraceController → K → PtraceError × K
  cont signal c k = guarded c (kernel.cont c.pid signal k) k

  unfoldable pub step_called : Outcome (Unit {0}) → ℕ → K → PtraceError × K
  step_called (failed e) pid k = (errno_to_ptrace_error e, k)
  step_called (done u) pid k = let (status, k') = kernel.wait pid k in (PtraceError.success, k')

  unfoldable pub single_step : PtraceController → K → PtraceError × K
  single_step c k =
      let (outcome, k') = kernel.single_step c.pid k in
      if is_traced c then step_called outcome c.pid k' else (PtraceError.not_stopped, k)

  unfoldable pub syscall : PtraceController → K → PtraceError × K
  syscall c k = guarded c (kernel.syscall c.pid k) k

  unfoldable pub inject_signal : ℕ → PtraceController → K → PtraceError × K
  inject_signal signal c k = guarded c (kernel.kill c.pid signal k) k

  -- The registers that are passed keep their floating point state.
  unfoldable pub get_registers :
      PtraceController → LinuxRegisters → K → PtraceError × LinuxRegisters
  get_registers c r k =
      if is_traced c
      then got_registers (kernel.get_regs c.pid k) r
      else (PtraceError.not_stopped, r)

  unfoldable pub set_registers : LinuxRegisters → PtraceController → K → PtraceError × K
  set_registers r c k = guarded c (kernel.set_regs c.pid r.general k) k

  -- Into a vector that is passed.
  unfoldable pub get_fpu_registers : PtraceController → Bytes → K → PtraceError × Bytes
  get_fpu_registers c state k =
      if is_traced c
      then got_fpu_registers (kernel.get_fpu c.pid 512 k)
      else (PtraceError.not_stopped, state)

  unfoldable pub set_fpu_registers : Bytes → PtraceController → K → PtraceError × K
  set_fpu_registers d c k = guarded c (kernel.set_fpu c.pid d k) k
