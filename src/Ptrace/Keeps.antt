-- ===== src/Ptrace/Keeps.antt =====
-- What the controller leaves as it is when it takes and lets go of a process.
use process_snapshot.Prelude.{
  ℕ, ◌≡◌, refl, Option, none, some, Bool, true, Bool-cases, inl, inr, ◌∙◌,
}
use process_snapshot.Kernel.{Outcome, failed, done, Kernel, IsKernel}
use process_snapshot.Ptrace.{
  PtraceController, new, is_traced, opened, close_file, close_mem_fd, open_mem_fd, open_file,
  detach, let_go_first, attach_waited, attach_called, attach, close,
}
use process_snapshot.Ptrace.Words.{is_success}
use process_snapshot.Ptrace.Laws.{errno_no_success}

module _ {K : Type 0} (kernel : Kernel K) (laws : IsKernel kernel) (p : ℕ) where
  -- The memory and the registers of the process are the same.
  abbrev pub Same : K → K → Type 0
  Same k k' = (laws.memory k' p ≡ laws.memory k p) × (laws.registers k' p ≡ laws.registers k p)

  Same-trans : (k k' k'' : K) → Same k k' → Same k' k'' → Same k k''
  Same-trans k k' k'' s t = (t.0 ∙ s.0, t.1 ∙ s.1)

  close_file-Same :
      (fd : Option ℕ) (c : PtraceController) (k : K) → Same k (close_file kernel fd c k).1
  unfolding close_file
  close_file-Same none c k = (refl, refl)
  close_file-Same (some fd) c k = (laws.close_memory fd p k, laws.close_registers fd p k)

  pub detach-Same : (c : PtraceController) (k : K) → Same k (detach kernel c k).2
  unfolding detach close_mem_fd
  detach-Same c k = elim (Bool-cases (is_traced c)) [
    | inl traced ↦
        let (c1, k1) = close_file kernel c.mem_fd c k in
        rw traced (
          Same-trans k k1 (kernel.detach c1.pid k1).1 (close_file-Same c.mem_fd c k)
            (laws.detach_memory c1.pid p k1, laws.detach_registers c1.pid p k1))
    | inr free ↦ rw free (refl, refl)
  ]

  pub close-Same : (c : PtraceController) (k : K) → Same k (close kernel c k).1
  unfolding close let_go_first close_mem_fd
  close-Same c k = elim (Bool-cases (is_traced c)) [
    | inl traced ↦
        let (error, c', k') = detach kernel c k in
        rw traced (
          Same-trans k k' (close_file kernel c'.mem_fd c' k').1 (detach-Same c k)
            (close_file-Same c'.mem_fd c' k'))
    | inr free ↦ rw free (close_file-Same c.mem_fd c k)
  ]

  -- A controller that has the process, and no file of another one.
  pub record Holds (c : PtraceController) (k : K) : Type 0 where
    pub traced : is_traced c ≡ true
    pub pid : c.pid ≡ p
    pub own : (d : ℕ) → c.mem_fd ≡ some d → laws.owner k d ≡ c.pid

  -- The controller behind the `waitpid` of `attach`.
  abbrev held : PtraceController
  held = record new { pid = p; attached = true }

  opened-Holds :
      (o : Outcome ℕ) (k : K)
      → (kernel.open_mem p k).0 ≡ o
      → Holds (opened o held) (kernel.open_mem p k).1
  unfolding opened
  opened-Holds (failed e) k h = record {
    traced = refl;
    pid = refl;
    own = λ d none_open. absurd (cc);
  }
  opened-Holds (done fd) k h = record {
    traced = refl;
    pid = refl;
    own = λ d same. rw (← fd_of d same) (laws.open_mem_lem p k h);
  }
    where
      fd_of : (d : ℕ) → some fd ≡ some d → fd ≡ d
      fd_of d same = cc

  attach_waited-Holds :
      (o : Outcome Bool) (k : K)
      → is_success (attach_waited kernel o held k).0 ≡ true
      → Holds (attach_waited kernel o held k).1 (attach_waited kernel o held k).2
  unfolding attach_waited open_mem_fd open_file
  attach_waited-Holds (failed e) k h = absurd (cc (errno_no_success e))
  attach_waited-Holds (done status) k h = opened-Holds (kernel.open_mem p k).0 k refl

  attach_called-Holds :
      (o : Outcome (Unit {0})) (k : K)
      → is_success (attach_called kernel o p new k).0 ≡ true
      → Holds (attach_called kernel o p new k).1 (attach_called kernel o p new k).2
  unfolding attach_called
  attach_called-Holds (failed e) k h = absurd (cc (errno_no_success e))
  attach_called-Holds (done u) k h = attach_waited-Holds (kernel.wait p k).0 (kernel.wait p k).1 h

  pub attach-Holds :
      (k : K)
      → is_success (attach kernel p new k).0 ≡ true
      → Holds (attach kernel p new k).1 (attach kernel p new k).2
  unfolding attach let_go_first
  attach-Holds k h = attach_called-Holds (kernel.attach p k).0 (kernel.attach p k).1 h
