-- ===== src/Ptrace/Lifetime.antt =====
-- Which process and file a `PtraceController` holds, over its life.
use process_snapshot.Prelude.{
  ℕ, ◌≡◌, refl, Option, none, some, Bool, true, false, Bool-cases, inl, inr, arith, ap, ◌∙◌,
}
use process_snapshot.Kernel.{Errno, Outcome, failed, done, Kernel}
use process_snapshot.Ptrace.{
  PtraceController, new, is_traced, let_go, close_file, open_file, attach_called, seize_called,
  close_mem_fd, opened, open_mem_fd, detached, detach, let_go_first, attach_waited, attach, seize,
  close,
}

-- A controller that traces no process names none, and has no file of its memory open.
pub record IsTidy (c : PtraceController) : Type 0 where
  pub no_file : is_traced c ≡ false → c.mem_fd ≡ none
  pub no_pid : is_traced c ≡ false → c.pid ≡ 0

-- What a traced controller is, closed, whether or not it traces.
closed-IsTidy :
    (c : PtraceController) → c.mem_fd ≡ none → (is_traced c ≡ false → c.pid ≡ 0) → IsTidy c
closed-IsTidy c e p = record { no_file = λ _. e; no_pid = p }

traced-IsTidy : (c : PtraceController) → is_traced c ≡ true → IsTidy c
traced-IsTidy c t = record { no_file = λ f. absurd (cc); no_pid = λ f. absurd (cc) }

detached-closed :
    (o : Outcome (Unit {0})) (c : PtraceController)
    → c.mem_fd ≡ none
    → is_traced c ≡ true
    → IsTidy (detached o c).1 × ((detached o c).1.mem_fd ≡ none)
unfolding detached
detached-closed (failed Errno.esrch) c e t = (closed-IsTidy (let_go c) e (λ _. refl), e)
detached-closed (failed Errno.eperm) c e t = (traced-IsTidy c t, e)
detached-closed (failed Errno.ebusy) c e t = (traced-IsTidy c t, e)
detached-closed (failed Errno.efault) c e t = (traced-IsTidy c t, e)
detached-closed (failed Errno.einval) c e t = (traced-IsTidy c t, e)
detached-closed (failed Errno.eio) c e t = (traced-IsTidy c t, e)
detached-closed (failed Errno.other) c e t = (traced-IsTidy c t, e)
detached-closed (done u) c e t = (closed-IsTidy (let_go c) e (λ _. refl), e)

opened-traced : (o : Outcome ℕ) (c : PtraceController) → is_traced (opened o c) ≡ is_traced c
unfolding opened
opened-traced (failed e) c = refl
opened-traced (done fd) c = refl

module _ {K : Type 0} (kernel : Kernel K) where
  close_file-none :
      (fd : Option ℕ) (c : PtraceController) (k : K)
      → c.mem_fd ≡ fd
      → (close_file kernel fd c k).0 ≡ record c { mem_fd = none }
  unfolding close_file
  close_file-none none c k e = ap (λ f. record c { mem_fd = f }) e
  close_file-none (some fd) c k e = refl

  pub close_mem_fd-none :
      (c : PtraceController) (k : K) → (close_mem_fd kernel c k).0 ≡ record c { mem_fd = none }
  unfolding close_mem_fd
  close_mem_fd-none c k = close_file-none c.mem_fd c k refl

  open_file-traced :
      (fd : Option ℕ) (c : PtraceController) (k : K)
      → is_traced (open_file kernel fd c k).0 ≡ is_traced c
  unfolding open_file
  open_file-traced none c k = opened-traced (kernel.open_mem c.pid k).0 c
  open_file-traced (some fd) c k = refl

  pub detach_closed :
      (c : PtraceController) (k : K)
      → is_traced c ≡ true
      → IsTidy (detach kernel c k).1 × ((detach kernel c k).1.mem_fd ≡ none)
  unfolding detach
  detach_closed c k t =
      let (c1, k1) = close_mem_fd kernel c k in
      let same = close_mem_fd-none c k in
      rw t (
        detached-closed (kernel.detach c1.pid k1).0 c1 (ap (λ x. x.mem_fd) same)
          (ap (λ x. is_traced x) same ∙ t))

  detach-IsTidy : (c : PtraceController) (k : K) → IsTidy c → IsTidy (detach kernel c k).1
  detach-IsTidy c k v = elim (Bool-cases (is_traced c)) [
    | inl traced ↦ (detach_closed c k traced).0
    | inr free ↦ unfold detach in rw free v
  ]

  let_go_first_closed :
      (c : PtraceController) (k : K)
      → IsTidy c
      → IsTidy (let_go_first kernel c k).0 × ((let_go_first kernel c k).0.mem_fd ≡ none)
  unfolding let_go_first
  let_go_first_closed c k v = elim (Bool-cases (is_traced c)) [
    | inl traced ↦ rw traced (detach_closed c k traced)
    | inr free ↦ rw free (v, v.no_file free)
  ]

  attach_waited-IsTidy :
      (o : Outcome Bool) (c : PtraceController) (k : K)
      → is_traced c ≡ true
      → c.mem_fd ≡ none
      → IsTidy (attach_waited kernel o c k).1
  unfolding attach_waited open_mem_fd
  attach_waited-IsTidy (failed e) c k t closed =
      closed-IsTidy (record c { attached = false; pid = 0 }) closed (λ _. refl)
  attach_waited-IsTidy (done status) c k t closed =
      traced-IsTidy (open_file kernel c.mem_fd c k).0 (open_file-traced c.mem_fd c k ∙ t)

  attach_called-IsTidy :
      (o : Outcome (Unit {0})) (pid : ℕ) (c : PtraceController) (k : K)
      → IsTidy c
      → c.mem_fd ≡ none
      → IsTidy (attach_called kernel o pid c k).1
  unfolding attach_called
  attach_called-IsTidy (failed e) pid c k v closed = v
  attach_called-IsTidy (done u) pid c k v closed =
      attach_waited-IsTidy (kernel.wait pid k).0 (record c { pid = pid; attached = true })
        (kernel.wait pid k).1 refl closed

  seize_called-IsTidy :
      (o : Outcome (Unit {0})) (pid : ℕ) (c : PtraceController) (k : K)
      → IsTidy c
      → IsTidy (seize_called kernel o pid c k).1
  unfolding seize_called open_mem_fd
  seize_called-IsTidy (failed e) pid c k v = v
  seize_called-IsTidy (done u) pid c k v =
      let c' = record c { pid = pid; seized = true } in
      traced-IsTidy (open_file kernel c'.mem_fd c' k).0
        (open_file-traced c'.mem_fd c' k ∙ ground arith)

  pub attach-IsTidy :
      (pid : ℕ) (c : PtraceController) (k : K) → IsTidy c → IsTidy (attach kernel pid c k).1
  unfolding attach
  attach-IsTidy pid c k v =
      let (tidy, closed) = let_go_first_closed c k v in
      let (c1, k1) = let_go_first kernel c k in
      attach_called-IsTidy (kernel.attach pid k1).0 pid c1 (kernel.attach pid k1).1 tidy closed

  close-IsTidy : (c : PtraceController) (k : K) → IsTidy c → IsTidy (close kernel c k).0
  unfolding close
  close-IsTidy c k v =
      let (tidy, closed) = let_go_first_closed c k v in
      let (c1, k1) = let_go_first kernel c k in
      rw (close_mem_fd-none c1 k1) (closed-IsTidy (record c1 { mem_fd = none }) refl tidy.no_pid)

  -- The methods that change a controller, from any state of the machine: other programs run between.
  pub data Step : PtraceController → PtraceController → Type 0 where
    attach_step : (pid : ℕ) (c : PtraceController) (k : K) → Step c (attach kernel pid c k).1
    seize_step : (pid : ℕ) (c : PtraceController) (k : K) → Step c (seize kernel pid c k).1
    detach_step : (c : PtraceController) (k : K) → Step c (detach kernel c k).1
    close_step : (c : PtraceController) (k : K) → Step c (close kernel c k).0

  pub data Reach (c : PtraceController) : PtraceController → Type 0 where
    here : Reach c c
    next : {d e : PtraceController} → Reach c d → Step d e → Reach c e

  Step-IsTidy : {c d : PtraceController} → Step c d → IsTidy c → IsTidy d
  unfolding seize
  Step-IsTidy (attach_step pid c k) v = attach-IsTidy pid c k v
  Step-IsTidy (seize_step pid c k) v =
      let (c1, k1) = let_go_first kernel c k in
      seize_called-IsTidy (kernel.seize pid k1).0 pid c1 (kernel.seize pid k1).1
        (let_go_first_closed c k v).0
  Step-IsTidy (detach_step c k) v = detach-IsTidy c k v
  Step-IsTidy (close_step c k) v = close-IsTidy c k v

  stays-IsTidy : {c d : PtraceController} → Reach c d → IsTidy c → IsTidy d
  stays-IsTidy here v = v
  stays-IsTidy (next r st) v = Step-IsTidy st (stays-IsTidy r v)

  -- Whatever a controller is made to do from its construction on: while it traces no process, it
  -- names none and has no file of a memory open.
  pub Reach-IsTidy : (c : PtraceController) → Reach new c → IsTidy c
  Reach-IsTidy c r = stays-IsTidy r (record { no_file = λ _. refl; no_pid = λ _. refl })
