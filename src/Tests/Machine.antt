-- ===== src/Tests/Machine.antt =====
-- A machine whose calls all succeed, for the tests: the memory and the registers of each process.
use process_snapshot.Prelude.{
  ℕ, zero, suc, ◌+◌, ◌/◌, ◌%◌, ◌<◌, ◌≡◌, refl, Bytes, List, [], ◌∷◌, Bool, length, true, false,
  IsBytes, ◌==◌, ==_iff, if◌then◌else◌, if_true, arith, subst, ap, sym, fun_ext, ◌∙◌,
}
use process_snapshot.Wire.{le_bytes, le_value}
use process_snapshot.Wire.Laws.{le_bytes-le_value}
use process_snapshot.Kernel.{Kernel, IsKernel, Outcome, failed, done, Errno}
use process_snapshot.Kernel.Memory.{store, bytes_at, bytes_at-IsBytes, length-bytes_at}
use process_snapshot.Ptrace.Answering.{Answers}
use process_snapshot.MemoryManager.Inject.Laws.{Obeys}

pub record Machine : Type 0 where
  pub cells : ℕ → ℕ → ℕ
  pub regs : ℕ → List ℕ

abbrev pub memory_of : Machine → ℕ → ℕ → ℕ
memory_of k p a = k.cells p a % 256

abbrev pub put_cells : ℕ → (ℕ → ℕ) → Machine → Machine
put_cells p m k = record k { cells = λ q. if q == p then m else k.cells q }

abbrev quiet : Machine → Outcome (Unit {0}) × Machine
quiet k = (done tt, k)

unfoldable pub machine : Kernel Machine
unfolding store bytes_at le_bytes le_value
machine = record {
  attach = λ p k. quiet k;
  seize = λ p k. quiet k;
  detach = λ p k. quiet k;
  interrupt = λ p k. quiet k;
  cont = λ p s k. quiet k;
  single_step = λ p k. quiet k;
  syscall = λ p k. quiet k;
  kill = λ p s k. quiet k;
  wait = λ p k. (done true, k);
  get_regs = λ p k. if length (k.regs p) == 27 then done (k.regs p) else failed Errno.einval;
  set_regs = λ p r k. (done tt, record k { regs = λ q. if q == p then r else k.regs q });
  get_fpu = λ p n k. failed Errno.einval;
  set_fpu = λ p d k. quiet k;
  peek = λ p a k. done (le_value (bytes_at (memory_of k p) a 8));
  poke = λ p a w k. (done tt, put_cells p (store a (le_bytes 8 w) (memory_of k p)) k);
  open_mem = λ p k. (done p, k);
  close = λ fd k. k;
  pread = λ fd n a k. bytes_at (memory_of k fd) a n;
}

le_bytes-IsBytes : (n w : ℕ) → IsBytes (le_bytes n w)
unfolding le_bytes
le_bytes-IsBytes zero w = tt
le_bytes-IsBytes (suc n) w = (omega arith, le_bytes-IsBytes n (w / 256))

small_store :
    (a : ℕ) (b : Bytes) (m : ℕ → ℕ) (c : ℕ)
    → IsBytes b
    → m c < 256
    → store a b m c % 256 ≡ store a b m c
unfolding store
small_store a [] m c h small = omega arith
small_store a (x ∷ b) m c h small = ground (arith, small_store (a + 1) b m c)

pub self_eq : (p : ℕ) → (p == p) ≡ true
self_eq p = (==_iff p p).1 refl

pub poked :
    (p a w : ℕ) (k : Machine)
    → memory_of (machine.poke p a w k).1 p ≡ store a (le_bytes 8 w) (memory_of k p)
unfolding machine
poked p a w k = fun_ext (λ c.
    ap (λ (m : ℕ → ℕ). m c % 256)
      (if_true (store a (le_bytes 8 w) (memory_of k p)) (k.cells p) (self_eq p))
    ∙ small_store a (le_bytes 8 w) (memory_of k p) c (le_bytes-IsBytes 8 w) (omega arith))

pub byte : (x : ℕ) → x % 256 < 256
byte x = omega arith

pub done_eq : {A : Type 0} {x y : A} → done x ≡ done y → y ≡ x
done_eq h = cc

whole_word : (s : Bytes) → length s ≡ 8 → IsBytes s → le_bytes 8 (le_value s) ≡ s
whole_word s h b = subst (λ n. le_bytes n (le_value s) ≡ s) h (le_bytes-le_value s b)

pub peeked :
    (p a : ℕ) (k : Machine) {w : ℕ}
    → done (le_value (bytes_at (memory_of k p) a 8)) ≡ done w
    → le_bytes 8 w ≡ bytes_at (memory_of k p) a 8
peeked p a k h =
    ap (le_bytes 8) (done_eq h)
    ∙ whole_word (bytes_at (memory_of k p) a 8) (length-bytes_at (memory_of k p) a 8)
        (bytes_at-IsBytes (memory_of k p) a 8 (λ c. byte (k.cells p c)))

pub if_done :
    {A : Type 0} {x y : A} (b : Bool) → (if b then done x else failed Errno.einval) ≡ done y → y ≡ x
if_done true h = done_eq h
if_done false h = absurd (cc)

unfoldable pub machine-IsKernel : IsKernel machine
unfolding machine
machine-IsKernel = record {
  memory = memory_of;
  registers = λ k p. k.regs p;
  owner = λ k fd. fd;
  memory_byte = λ k p a. byte (k.cells p a);
  get_regs_lem = λ p k h. if_done (length (k.regs p) == 27) h;
  set_regs_lem = λ p r k h. if_true r (k.regs p) (self_eq p);
  set_regs_memory = λ p r k. refl;
  set_fpu_memory = λ p d k. refl;
  set_fpu_registers = λ p d k. refl;
  peek_lem = λ p a k h. peeked p a k h;
  poke_lem = λ p a w k h. poked p a w k;
  poke_registers = λ p a w k. refl;
  open_mem_lem = λ p k h. done_eq h;
  pread_lem = λ fd n a k h. refl;
  detach_memory = λ q p k. refl;
  detach_registers = λ q p k. refl;
  close_memory = λ fd p k. refl;
  close_registers = λ fd p k. refl;
}

pub machine-Answers : (p : ℕ) → Answers machine p
unfolding machine
machine-Answers p = record { peeks = λ a k. (_, refl); pokes = λ a w k. refl }

pub machine-Obeys : (p : ℕ) → Obeys machine p
unfolding machine
machine-Obeys p = record { pokes = λ a w k. refl; sets = λ r k. refl }

sized :
    (x : List ℕ) {y : List ℕ} (b : Bool)
    → b ≡ (length x == 27)
    → (if b then done x else failed Errno.einval) ≡ done y
    → length y ≡ 27
sized x true e h = ap (λ r. length r) (done_eq h) ∙ (==_iff (length x) 27).0 (sym e)
sized x false e h = absurd (cc)

pub machine_registers :
    (p : ℕ) (k : Machine) (r : List ℕ) → machine.get_regs p k ≡ done r → length r ≡ 27
unfolding machine
machine_registers p k r h = sized (k.regs p) (length (k.regs p) == 27) refl h
