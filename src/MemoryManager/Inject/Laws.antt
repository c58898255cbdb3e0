-- ===== src/MemoryManager/Inject/Laws.antt =====
-- What an injected system call leaves of the code and of the registers.
use process_snapshot.Prelude.{
  ℕ, zero, suc, ◌+◌, ◌≤◌, ◌≡◌, refl, Text, Bytes, List, [], ◌∷◌, Option, none, some, length, ==_iff,
  Bool-cases, inl, inr, arith, ap, ap₂, sym, subst, ◌∙◌, if_true,
}
use process_snapshot.Wire.{le_bytes}
use process_snapshot.Kernel.{Errno, Outcome, failed, done, Kernel, IsKernel}
use process_snapshot.Kernel.Memory.{bytes_at, store}
use process_snapshot.Checkpointer.Restore.{value_at, rip}
use process_snapshot.MemoryManager.Inject.{
  MemoryManager, is_bound, Syscall, syscall_code, call_registers, read_code, noted,
  restore_registers, give_up, got_result, stepped, registers_set, registers_got, code_written,
  code_read, registers_saved, inject_syscall,
}

-- A process whose words and registers can be written.
pub record Obeys {K : Type 0} (kernel : Kernel K) (p : ℕ) : Type 0 where
  pub pokes : (a w : ℕ) (k : K) → (kernel.poke p a w k).0 ≡ done tt
  pub sets : (r : List ℕ) (k : K) → (kernel.set_regs p r k).0 ≡ done tt

bytes_at_same :
    (m n : ℕ → ℕ) (a k : ℕ) → ((c : ℕ) → a ≤ c → m c ≡ n c) → bytes_at m a k ≡ bytes_at n a k
unfolding bytes_at
bytes_at_same m n a zero same = refl
bytes_at_same m n a (suc k) same =
    ap₂ (λ x b. x ∷ b) (same a (omega arith))
      (bytes_at_same m n (a + 1) k (λ c h. same c (omega (arith, h))))

-- What was written is read.
bytes_at-store : (a : ℕ) (b : Bytes) (m : ℕ → ℕ) → bytes_at (store a b m) a (length b) ≡ b
unfolding bytes_at store
bytes_at-store a [] m = refl
bytes_at-store a (x ∷ b) m =
    ap₂ (λ y t. y ∷ t) (if_true x (store (a + 1) b m a) ((==_iff a a).1 refl))
      (bytes_at_same _ (store (a + 1) b m) (a + 1) (length b) (λ c h. ground (arith, h))
        ∙ bytes_at-store (a + 1) b m)

length-le_bytes : (n w : ℕ) → length (le_bytes n w) ≡ n
unfolding le_bytes
length-le_bytes zero w = refl
length-le_bytes (suc n) w = ap suc (length-le_bytes n _)

read_code-done :
    (errno : Option Errno) (o : Outcome ℕ) {code : ℕ}
    → read_code errno o ≡ done code
    → o ≡ done code
unfolding read_code
read_code-done errno (failed e) h = h
read_code-done none (done w) h = h
read_code-done (some e) (done w) h = ground (arith, h)

module _ {K : Type 0} (kernel : Kernel K) (strerror : Errno → Text) (errno : K → Option Errno)
    (laws : IsKernel kernel) where
  -- The eight bytes at an address, and the registers.
  abbrev Given : ℕ → ℕ → Bytes → List ℕ → K → Type 0
  Given p at b r k = (bytes_at (laws.memory k p) at 8 ≡ b) × (laws.registers k p ≡ r)

  put_back :
      (p at code : ℕ) (k : K)
      → Obeys kernel p
      → (bytes_at (laws.memory (kernel.poke p at code k).1 p) at 8 ≡ le_bytes 8 code)
        × (laws.registers (kernel.poke p at code k).1 p ≡ laws.registers k p)
  put_back p at code k obeys =
      let stored = laws.poke_lem p at code k (obeys.pokes at code k) in
      (
        ap (λ m. bytes_at m at 8) stored
            ∙ subst
                (λ n.
                  bytes_at (store at (le_bytes 8 code) (laws.memory k p)) at n ≡ le_bytes 8 code)
                (length-le_bytes 8 code) (bytes_at-store at (le_bytes 8 code) (laws.memory k p)),
        laws.poke_registers p at code k,
      )

  -- The code and the registers are both written back.
  both_back :
      (m m' : MemoryManager) (at code : ℕ) (saved : List ℕ) (k : K)
      → m'.pid ≡ m.pid
      → Obeys kernel m.pid
      → Given m.pid at
          (le_bytes 8 code)
          saved
          (restore_registers kernel strerror errno saved m' (kernel.poke m.pid at code k).1).2
  unfolding restore_registers
  both_back m m' at code saved k same obeys =
      let k1 = (kernel.poke m.pid at code k).1 in
      subst (λ p. Given m.pid at (le_bytes 8 code) saved (kernel.set_regs p saved k1).1) (sym same)
        (
          ap (λ f. bytes_at f at 8) (laws.set_regs_memory m.pid saved k1)
              ∙ (put_back m.pid at code k obeys).0,
          laws.set_regs_lem m.pid saved k1 (obeys.sets saved k1),
        )

  noted-pid :
      (message : Text) (o : Outcome (Unit {0})) (m : MemoryManager)
      → (noted message o m).pid ≡ m.pid
  unfolding noted
  noted-pid message (failed e) m = refl
  noted-pid message (done u) m = refl

  got_result_lem :
      (o : Outcome (List ℕ)) (at code : ℕ) (saved : List ℕ) (m : MemoryManager) (k : K)
      → Obeys kernel m.pid
      → Given m.pid at
          (le_bytes 8 code)
          saved
          (got_result kernel strerror errno o at code saved m k).2
  unfolding got_result give_up
  got_result_lem (failed e) at code saved m k obeys = both_back m m at code saved k refl obeys
  got_result_lem (done regs) at code saved m k obeys =
      both_back m (noted _ (kernel.poke m.pid at code k).0 m) at code saved k (noted-pid _ _ m)
        obeys

  stepped_lem :
      (o : Outcome (Unit {0})) (at code : ℕ) (saved : List ℕ) (m : MemoryManager) (k : K)
      → Obeys kernel m.pid
      → Given m.pid at (le_bytes 8 code) saved (stepped kernel strerror errno o at code saved m k).2
  unfolding stepped give_up
  stepped_lem (failed e) at code saved m k obeys = both_back m m at code saved k refl obeys
  stepped_lem (done u) at code saved m k obeys =
      let k' = (kernel.wait m.pid k).1 in
      got_result_lem (kernel.get_regs m.pid k') at code saved m k' obeys

  registers_set_lem :
      (o : Outcome (Unit {0})) (at code : ℕ) (saved : List ℕ) (m : MemoryManager) (k : K)
      → Obeys kernel m.pid
      → o ≡ done tt
      → Given m.pid at
          (le_bytes 8 code)
          saved
          (registers_set kernel strerror errno o at code saved m k).2
  unfolding registers_set
  registers_set_lem (failed e) at code saved m k obeys h = absurd (cc)
  registers_set_lem (done u) at code saved m k obeys h =
      let (outcome, k') = kernel.single_step m.pid k in stepped_lem outcome at code saved m k' obeys

  registers_got_lem :
      (o : Outcome (List ℕ)) (call : Syscall) (at code : ℕ) (saved : List ℕ) (m : MemoryManager)
      (k : K)
      → Obeys kernel m.pid
      → laws.registers k m.pid ≡ saved
      → Given m.pid at
          (le_bytes 8 code)
          saved
          (registers_got kernel strerror errno o call at code saved m k).2
  unfolding registers_got
  registers_got_lem (failed e) call at code saved m k obeys h =
      let (bytes, registers) = put_back m.pid at code k obeys in (bytes, registers ∙ h)
  registers_got_lem (done regs) call at code saved m k obeys h =
      let new_regs = call_registers call at regs in
      registers_set_lem (kernel.set_regs m.pid new_regs k).0 at code saved m
        (kernel.set_regs m.pid new_regs k).1 obeys (obeys.sets new_regs k)

  code_written_lem :
      (o : Outcome (Unit {0})) (call : Syscall) (at code : ℕ) (saved : List ℕ) (m : MemoryManager)
      (k : K)
      → Obeys kernel m.pid
      → o ≡ done tt
      → laws.registers k m.pid ≡ saved
      → Given m.pid at
          (le_bytes 8 code)
          saved
          (code_written kernel strerror errno o call at code saved m k).2
  unfolding code_written
  code_written_lem (failed e) call at code saved m k obeys h r = absurd (cc)
  code_written_lem (done u) call at code saved m k obeys h r =
      registers_got_lem (kernel.get_regs m.pid k) call at code saved m k obeys r

  code_read_lem :
      (o : Outcome ℕ) (call : Syscall) (at : ℕ) (saved : List ℕ) (m : MemoryManager) (k : K)
      → Obeys kernel m.pid
      → ((code : ℕ) → o ≡ done code → le_bytes 8 code ≡ bytes_at (laws.memory k m.pid) at 8)
      → laws.registers k m.pid ≡ saved
      → Given m.pid at
          (bytes_at (laws.memory k m.pid) at 8)
          saved
          (code_read kernel strerror errno o call at saved m k).2
  unfolding code_read
  code_read_lem (failed e) call at saved m k obeys read r = (refl, r)
  code_read_lem (done code) call at saved m k obeys read r =
      let (outcome, k') = kernel.poke m.pid at (syscall_code code) k in
      let (bytes, registers) =
        code_written_lem outcome call at code saved m k' obeys
          (obeys.pokes at (syscall_code code) k)
          (laws.poke_registers m.pid at (syscall_code code) k ∙ r) in
      (bytes ∙ read code refl, registers)

  registers_saved_lem :
      (o : Outcome (List ℕ)) (call : Syscall) (m : MemoryManager) (k : K)
      → Obeys kernel m.pid
      → ((r : List ℕ) → o ≡ done r → r ≡ laws.registers k m.pid)
      → Given m.pid
          (value_at rip (laws.registers k m.pid))
          (bytes_at (laws.memory k m.pid) (value_at rip (laws.registers k m.pid)) 8)
          (laws.registers k m.pid)
          (registers_saved kernel strerror errno o call m k).2
  unfolding registers_saved
  registers_saved_lem (failed e) call m k obeys got = (refl, refl)
  registers_saved_lem (done saved) call m k obeys got =
      let at = value_at rip saved in
      let (bytes, registers) =
        code_read_lem (read_code (errno k) (kernel.peek m.pid at k)) call at saved m k obeys
          (λ code h. laws.peek_lem m.pid at k (read_code-done (errno k) (kernel.peek m.pid at k) h))
          (sym (got saved refl)) in
      subst
        (λ s.
          Given m.pid (value_at rip s) (bytes_at (laws.memory k m.pid) (value_at rip s) 8) s
            (code_read kernel strerror errno (read_code (errno k) (kernel.peek m.pid at k)) call at
              saved m k).2)
        (got saved refl) (bytes, registers)

  -- Whatever an injected system call does to the memory and the registers of a process whose words and
  -- registers can be written, and whichever call fails on the way: afterwards the registers are those
  -- from before, and so are the eight bytes at the instruction pointer.
  pub inject_syscall-restores :
      (call : Syscall) (m : MemoryManager) (k : K)
      → Obeys kernel m.pid
      → let at = value_at rip (laws.registers k m.pid) in
        let k' = (inject_syscall kernel strerror errno call m k).2 in
        (bytes_at (laws.memory k' m.pid) at 8 ≡ bytes_at (laws.memory k m.pid) at 8)
        × (laws.registers k' m.pid ≡ laws.registers k m.pid)
  unfolding inject_syscall
  inject_syscall-restores call m k obeys = elim (Bool-cases (is_bound m)) [
    | inl bound ↦ rw bound (
        registers_saved_lem (kernel.get_regs m.pid k) call m k obeys
          (λ r h. laws.get_regs_lem m.pid k h))
    | inr free ↦ rw free (refl, refl)
  ]
