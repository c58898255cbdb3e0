-- ===== src/MemoryManager/Inject/Executed.antt =====
-- What the process runs when a system call is injected into it.
use process_snapshot.Prelude.{
  ℕ, zero, suc, ◌<◌, ◌≡◌, ◌≢◌, refl, Text, List, [], ◌∷◌, Option, Bool, true, false, codes, length,
  ◌==◌, if◌then◌else◌, Bool-cases, inl, inr, arith, ap, ap₂, sym, subst, ◌∙◌, if_true, if_false,
}
use process_snapshot.Wire.{le_bytes}
use process_snapshot.Kernel.{Errno, Outcome, failed, done, Kernel, IsKernel}
use process_snapshot.Kernel.Memory.{bytes_at, store}
use process_snapshot.Checkpointer.Restore.{value_at, rip}
use process_snapshot.MemoryManager.Inject.{
  MemoryManager, is_bound, with_error, Syscall, minus_one, set_at, call_registers, syscall_code,
  read_code, noted, registers_restored, restore_registers, give_up, got_result, stepped,
  registers_set, registers_got, code_written, code_read, registers_saved, inject_syscall,
}

length-set_at : (i n : ℕ) (xs : List ℕ) → length (set_at i n xs) ≡ length xs
unfolding set_at
length-set_at zero n [] = refl
length-set_at (suc i) n [] = refl
length-set_at zero n (x ∷ xs) = refl
length-set_at (suc i) n (x ∷ xs) = ap suc (length-set_at i n xs)

value_at-set_at :
    (i j n : ℕ) (xs : List ℕ)
    → j < length xs
    → value_at i (set_at j n xs) ≡ (if i == j then n else value_at i xs)
unfolding value_at set_at
value_at-set_at i zero n [] h = absurd (omega arith)
value_at-set_at i (suc j) n [] h = absurd (omega arith)
value_at-set_at zero zero n (x ∷ xs) h = refl
value_at-set_at (suc i) zero n (x ∷ xs) h = ground arith
value_at-set_at zero (suc j) n (x ∷ xs) h = ground arith
value_at-set_at (suc i) (suc j) n (x ∷ xs) h = ground (arith, value_at-set_at i j n xs)

-- The arguments stand in the registers of the calling convention.
pub record Passes (call : Syscall) (at : ℕ) (regs : List ℕ) : Type 0 where
  pub instruction_pointer : value_at 16 regs ≡ at
  pub number : value_at 10 regs ≡ call.number
  pub arg1 : value_at 14 regs ≡ call.arg1
  pub arg2 : value_at 13 regs ≡ call.arg2
  pub arg3 : value_at 12 regs ≡ call.arg3
  pub arg4 : value_at 7 regs ≡ call.arg4
  pub arg5 : value_at 9 regs ≡ call.arg5
  pub arg6 : value_at 8 regs ≡ call.arg6

call_registers-Passes :
    (call : Syscall) (at : ℕ) (regs : List ℕ)
    → length regs ≡ 27
    → Passes call at (call_registers call at regs)
unfolding call_registers
call_registers-Passes call at regs h = record {
  instruction_pointer = grind (arith, value_at-set_at, length-set_at, h);
  number = grind (arith, value_at-set_at, length-set_at, h);
  arg1 = grind (arith, value_at-set_at, length-set_at, h);
  arg2 = grind (arith, value_at-set_at, length-set_at, h);
  arg3 = grind (arith, value_at-set_at, length-set_at, h);
  arg4 = grind (arith, value_at-set_at, length-set_at, h);
  arg5 = grind (arith, value_at-set_at, length-set_at, h);
  arg6 = grind (arith, value_at-set_at, length-set_at, h);
}

-- The instruction is 0F 05.
bytes_at-syscall_code :
    (at code : ℕ) (m : ℕ → ℕ)
    → bytes_at (store at (le_bytes 8 (syscall_code code)) m) at 2 ≡ 0x0F ∷ 0x05 ∷ []
unfolding bytes_at store le_bytes syscall_code
bytes_at-syscall_code at code m = ap₂ (λ x y. x ∷ y ∷ []) (ground arith) (ground arith)

module _ {K : Type 0} (kernel : Kernel K) (strerror : Errno → Text) (errno : K → Option Errno)
    (laws : IsKernel kernel) where
  -- The state in which the process is made to run, and the state once it has stopped again.
  abbrev pub ready : ℕ → ℕ → ℕ → List ℕ → K → K
  ready p at word regs k = (kernel.set_regs p regs (kernel.poke p at word k).1).1

  abbrev pub ran : ℕ → K → K
  ran p k = (kernel.wait p (kernel.single_step p k).1).1

  -- The process was let run for one step where its registers ask for the system call and its next
  -- instruction makes it, then had the result in `rax`, and only its code and registers were written
  -- back behind that.
  pub record Executed (p : ℕ) (call : Syscall) (k : K) (result : ℕ) (k' : K) : Type 0 where
    pub at : ℕ
    pub word : ℕ
    pub regs : List ℕ
    pub code : ℕ
    pub saved : List ℕ
    pub instruction : bytes_at (laws.memory (ready p at word regs k) p) at 2 ≡ 0x0F ∷ 0x05 ∷ []
    pub passes : Passes call at (laws.registers (ready p at word regs k) p)
    pub steps : (kernel.single_step p (ready p at word regs k)).0 ≡ done tt
    pub returns : value_at 10 (laws.registers (ran p (ready p at word regs k)) p) ≡ result
    pub after :
        k' ≡ (kernel.set_regs p saved (kernel.poke p at code (ran p (ready p at word regs k))).1).1

  -- The results of the parts, once they are no error.
  abbrev Ended : ℕ → ℕ → ℕ → List ℕ → K → ℕ × MemoryManager × K → Type 0
  Ended p at code saved k4 x =
      (value_at 10 (laws.registers k4 p) ≡ x.0)
      × (x.1.pid ≡ p)
      × (x.2 ≡ (kernel.set_regs p saved (kernel.poke p at code k4).1).1)

  restored-pid :
      (o : Outcome (Unit {0})) (m : MemoryManager)
      → (registers_restored kernel strerror errno o m).1.pid ≡ m.pid
  unfolding registers_restored
  restored-pid (failed e) m = refl
  restored-pid (done u) m = refl

  warned-pid :
      (ok : Bool) (e : Text) (m : MemoryManager) → (if ok then m else with_error e m).pid ≡ m.pid
  warned-pid true e m = refl
  warned-pid false e m = refl

  noted-pid : (e : Text) (o : Outcome (Unit {0})) (m : MemoryManager) → (noted e o m).pid ≡ m.pid
  unfolding noted
  noted-pid e (failed f) m = refl
  noted-pid e (done u) m = refl

  got_result-Ended :
      (o : Outcome (List ℕ)) (at code : ℕ) (saved : List ℕ) (m : MemoryManager) (k : K)
      → o ≡ kernel.get_regs m.pid k
      → (got_result kernel strerror errno o at code saved m k).0 ≢ minus_one
      → Ended m.pid at code saved k (got_result kernel strerror errno o at code saved m k)
  unfolding got_result give_up restore_registers
  got_result-Ended (failed e) at code saved m k same fine = absurd (fine refl)
  got_result-Ended (done regs) at code saved m k same fine =
      let (outcome, k1) = kernel.poke m.pid at code k in
      let warn = codes "Warning: Failed to restore original code" in
      let m1 = noted warn outcome m in
      let pid1 : m1.pid ≡ m.pid = noted-pid warn outcome m in
      let back = kernel.set_regs m1.pid saved k1 in
      (
        ap (value_at 10) (sym (laws.get_regs_lem m.pid k (sym same))),
        warned-pid (registers_restored kernel strerror errno back.0 m1).0 _
              (registers_restored kernel strerror errno back.0 m1).1
            ∙ restored-pid back.0 m1
            ∙ pid1,
        ap (λ p. (kernel.set_regs p saved k1).1) pid1,
      )

  -- Behind the step, from the state in which it was made.
  abbrev Ran : ℕ → ℕ → ℕ → List ℕ → K → ℕ × MemoryManager × K → Type 0
  Ran p at code saved k3 x =
      ((kernel.single_step p k3).0 ≡ done tt) × Ended p at code saved (ran p k3) x

  stepped-Ran :
      (o : Outcome (Unit {0})) (at code : ℕ) (saved : List ℕ) (m : MemoryManager) (k3 : K)
      → o ≡ (kernel.single_step m.pid k3).0
      → (stepped kernel strerror errno o at code saved m (kernel.single_step m.pid k3).1).0
        ≢ minus_one
      → Ran m.pid at code saved k3
          (stepped kernel strerror errno o at code saved m (kernel.single_step m.pid k3).1)
  unfolding stepped give_up
  stepped-Ran (failed e) at code saved m k3 same fine = absurd (fine refl)
  stepped-Ran (done u) at code saved m k3 same fine = (
    sym same,
    got_result-Ended (kernel.get_regs m.pid (ran m.pid k3)) at code saved m (ran m.pid k3) refl
        fine,
  )

  registers_set-Ran :
      (o : Outcome (Unit {0})) (at code : ℕ) (saved regs : List ℕ) (m : MemoryManager) (k2 : K)
      → o ≡ (kernel.set_regs m.pid regs k2).0
      → (registers_set kernel strerror errno o at code saved m (kernel.set_regs m.pid regs k2).1).0
        ≢ minus_one
      → ((kernel.set_regs m.pid regs k2).0 ≡ done tt)
        × Ran m.pid at code saved (kernel.set_regs m.pid regs k2).1 (
            registers_set kernel strerror errno o at code saved m (kernel.set_regs m.pid regs k2).1)
  unfolding registers_set
  registers_set-Ran (failed e) at code saved regs m k2 same fine = absurd (fine refl)
  registers_set-Ran (done u) at code saved regs m k2 same fine =
      let k3 = (kernel.set_regs m.pid regs k2).1 in
      (sym same, stepped-Ran (kernel.single_step m.pid k3).0 at code saved m k3 refl fine)

  -- The registers that are read of a process are 27.
  abbrev pub Sized : ℕ → Type 0
  Sized p = (k : K) (r : List ℕ) → kernel.get_regs p k ≡ done r → length r ≡ 27

  registers_got-Executed :
      (o : Outcome (List ℕ)) (call : Syscall) (at code : ℕ) (saved : List ℕ) (m : MemoryManager)
      (k : K)
      → Sized m.pid
      → (kernel.poke m.pid at (syscall_code code) k).0 ≡ done tt
      → let k1 = (kernel.poke m.pid at (syscall_code code) k).1 in
        o ≡ kernel.get_regs m.pid k1
        → (registers_got kernel strerror errno o call at code saved m k1).0 ≢ minus_one
        → Executed m.pid call k
            (registers_got kernel strerror errno o call at code saved m k1).0
            (registers_got kernel strerror errno o call at code saved m k1).2
          × ((registers_got kernel strerror errno o call at code saved m k1).1.pid ≡ m.pid)
  unfolding registers_got
  registers_got-Executed (failed e) call at code saved m k sized poked same fine =
      absurd (fine refl)
  registers_got-Executed (done regs) call at code saved m k sized poked same fine =
      let word = syscall_code code in
      let k1 = (kernel.poke m.pid at word k).1 in
      let new_regs = call_registers call at regs in
      let k2 = (kernel.set_regs m.pid new_regs k1).1 in
      let (set, made) =
        registers_set-Ran (kernel.set_regs m.pid new_regs k1).0 at code saved new_regs m k1 refl
          fine in
      let (stepped_ok, returned) = made in
      let long : length regs ≡ 27 = sized k1 regs (sym same) in
      let registers = laws.set_regs_lem m.pid new_regs k1 set in
      let memory = laws.set_regs_memory m.pid new_regs k1 ∙ laws.poke_lem m.pid at word k poked in
      (
        record {
          at = at;
          word = word;
          regs = new_regs;
          code = code;
          saved = saved;
          instruction =
              ap (λ f. bytes_at f at 2) memory
              ∙ bytes_at-syscall_code at code (laws.memory k m.pid);
          passes = subst (Passes call at) (sym registers) (call_registers-Passes call at regs long);
          steps = stepped_ok;
          returns = returned.0;
          after = returned.2;
        },
        returned.1,
      )

  abbrev Runs : ℕ → Syscall → K → ℕ × MemoryManager × K → Type 0
  Runs p call k x = Executed p call k x.0 x.2 × (x.1.pid ≡ p)

  code_written-Executed :
      (o : Outcome (Unit {0})) (call : Syscall) (at code : ℕ) (saved : List ℕ) (m : MemoryManager)
      (k : K)
      → Sized m.pid
      → o ≡ (kernel.poke m.pid at (syscall_code code) k).0
      → let k1 = (kernel.poke m.pid at (syscall_code code) k).1 in
        (code_written kernel strerror errno o call at code saved m k1).0 ≢ minus_one
        → Runs m.pid call k (code_written kernel strerror errno o call at code saved m k1)
  unfolding code_written
  code_written-Executed (failed e) call at code saved m k sized same fine = absurd (fine refl)
  code_written-Executed (done u) call at code saved m k sized same fine =
      let k1 = (kernel.poke m.pid at (syscall_code code) k).1 in
      registers_got-Executed (kernel.get_regs m.pid k1) call at code saved m k sized (sym same) refl
        fine

  code_read-Executed :
      (o : Outcome ℕ) (call : Syscall) (at : ℕ) (saved : List ℕ) (m : MemoryManager) (k : K)
      → Sized m.pid
      → (code_read kernel strerror errno o call at saved m k).0 ≢ minus_one
      → Runs m.pid call k (code_read kernel strerror errno o call at saved m k)
  unfolding code_read
  code_read-Executed (failed e) call at saved m k sized fine = absurd (fine refl)
  code_read-Executed (done code) call at saved m k sized fine =
      code_written-Executed (kernel.poke m.pid at (syscall_code code) k).0 call at code saved m k
        sized refl fine

  registers_saved-Executed :
      (o : Outcome (List ℕ)) (call : Syscall) (m : MemoryManager) (k : K)
      → Sized m.pid
      → (registers_saved kernel strerror errno o call m k).0 ≢ minus_one
      → Runs m.pid call k (registers_saved kernel strerror errno o call m k)
  unfolding registers_saved
  registers_saved-Executed (failed e) call m k sized fine = absurd (fine refl)
  registers_saved-Executed (done saved) call m k sized fine =
      code_read-Executed (read_code (errno k) (kernel.peek m.pid (value_at rip saved) k)) call
        (value_at rip saved) saved m k sized fine

  -- A result other than -1 of injectSyscall is that of the system call, which the process has made.
  pub inject_syscall-Executed :
      (call : Syscall) (m : MemoryManager) (k : K)
      → Sized m.pid
      → (inject_syscall kernel strerror errno call m k).0 ≢ minus_one
      → Executed m.pid call k
          (inject_syscall kernel strerror errno call m k).0
          (inject_syscall kernel strerror errno call m k).2
        × ((inject_syscall kernel strerror errno call m k).1.pid ≡ m.pid)
  unfolding inject_syscall
  inject_syscall-Executed call m k sized fine = elim (Bool-cases (is_bound m)) [
    | inl bound ↦
        let same =
          if_true (registers_saved kernel strerror errno (kernel.get_regs m.pid k) call m k) _
            bound in
        subst (Runs m.pid call k) (sym same) (
          registers_saved-Executed (kernel.get_regs m.pid k) call m k sized
            (λ e. fine (ap (λ (x : ℕ × MemoryManager × K). x.0) same ∙ e)))
    | inr free ↦ absurd (fine (ap (λ (x : ℕ × MemoryManager × K). x.0) (if_false _ _ free)))
  ]
