-- ===== src/Ptrace/Laws.antt =====
-- The errors of the word operations, and a word that is read.
use process_snapshot.Prelude.{ℕ, ◌≡◌, refl, true, false, inl, inr, ◌⊎◌, Bool-cases, ap}
use process_snapshot.Wire.{le_bytes}
use process_snapshot.Kernel.{Errno, Outcome, failed, done, Kernel, IsKernel}
use process_snapshot.Kernel.Memory.{bytes_at}
use process_snapshot.Ptrace.{
  PtraceController, PtraceError, is_traced, to_error, errno_to_ptrace_error,
}
use process_snapshot.Ptrace.Words.{Reading, unread, value, peeked, peek_data, is_success}

pub peeked-value : (o : Outcome ℕ) {w : ℕ} → peeked o ≡ value w → o ≡ done w
unfolding peeked
peeked-value (failed e) h = absurd (cc)
peeked-value (done w) h = ap done (cc)

pub errno_no_success : (e : Errno) → is_success (errno_to_ptrace_error e) ≡ false
unfolding errno_to_ptrace_error is_success
errno_no_success Errno.eperm = refl
errno_no_success Errno.esrch = refl
errno_no_success Errno.ebusy = refl
errno_no_success Errno.efault = refl
errno_no_success Errno.einval = refl
errno_no_success Errno.eio = refl
errno_no_success Errno.other = refl

pub unread_injective {ℓ} :
    {A : Type ℓ} {e f : PtraceError} → ◌≡◌ {A = Reading A} (unread e) (unread f) → e ≡ f
unread_injective h = cc

pub to_error-success : (o : Outcome (Unit {0})) → is_success (to_error o) ≡ true → o ≡ done tt
unfolding to_error
to_error-success (failed e) h = absurd (cc (errno_no_success e))
to_error-success (done u) h = refl

pub Reading-cases {ℓ} :
    {A : Type ℓ} (r : Reading A) → ((e : PtraceError) × (r ≡ unread e)) ⊎ ((a : A) × (r ≡ value a))
Reading-cases (unread e) = inl (e, refl)
Reading-cases (value a) = inr (a, refl)

pub peeked-unread : (o : Outcome ℕ) {e : PtraceError} → peeked o ≡ unread e → is_success e ≡ false
unfolding peeked
peeked-unread (failed e) h = rw (← unread_injective h) (errno_no_success e)
peeked-unread (done w) h = absurd (cc)

module _ {K : Type 0} (kernel : Kernel K) (laws : IsKernel kernel) where
  pub peek_data_lem :
      (addr : ℕ) (c : PtraceController) (k : K) {w : ℕ}
      → peek_data kernel addr c k ≡ value w
      → le_bytes 8 w ≡ bytes_at (laws.memory k c.pid) addr 8
  unfolding peek_data
  peek_data_lem addr c k h = elim (Bool-cases (is_traced c)) [
    | inl traced ↦
        laws.peek_lem c.pid addr k (peeked-value (kernel.peek c.pid addr k) (rw traced at h))
    | inr free ↦ absurd (cc (rw free at h))
  ]
