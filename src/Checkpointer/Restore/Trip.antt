-- ===== src/Checkpointer/Restore/Trip.antt =====
-- From `createCheckpoint` to `restoreCheckpointEx`: the process as it was.
use process_snapshot.Prelude.{
  ℕ, ◌+◌, ◌<◌, ◌≡◌, refl, Text, List, [], ◌∷◌, some, Bool, true, false, ◌&&◌, ◌||◌, ltb, leb, All,
  if◌then◌else◌, ap, ◌∙◌,
}
use process_snapshot.Memory.{size}
use process_snapshot.Snapshot.{RealProcessCheckpoint, MemoryDump, SignalInfo}
use process_snapshot.Kernel.{Kernel, IsKernel, done}
use process_snapshot.Kernel.Memory.{
  bytes_at, store, store-bytes_at, length-bytes_at, bytes_at-IsBytes,
}
use process_snapshot.Ptrace
use process_snapshot.Ptrace.{attach}
use process_snapshot.Checkpointer.{CheckpointOptions, RestoreOptions, ProcReader}
use process_snapshot.Checkpointer.Create.{create_checkpoint}
use process_snapshot.Checkpointer.Create.Laws.{
  HasBytes, IsInRange, create_checkpoint-HasBytes, create_checkpoint-registers,
}
use process_snapshot.Checkpointer.Restore.{restore_checkpoint_ex}
use process_snapshot.Checkpointer.Restore.Laws.{IsFitting, write_dumps}
use process_snapshot.Checkpointer.Restore.Success.{IsStrict}
use process_snapshot.Checkpointer.Restore.Complete.{restore_checkpoint_ex_lem}

-- Whether an address lies in a dump that a restore writes.
unfoldable pub is_covered : List MemoryDump → ℕ → Bool
is_covered [] a = false
is_covered (d ∷ dumps) a =
    (d.region.writable
      && (leb d.region.start_addr a && ltb a (d.region.start_addr + size d.region)))
    || is_covered dumps a

if_or : (r c : Bool) (x y : ℕ) → (if c then x else (if r then x else y)) ≡ (if r || c then x else y)
if_or true true x y = refl
if_or true false x y = refl
if_or false c x y = refl

written-HasBytes :
    (writable : Bool) (m n : ℕ → ℕ) (s k a : ℕ)
    → (if writable then store s (bytes_at m s k) n else n) a
      ≡ (if writable && (leb s a && ltb a (s + k)) then m a else n a)
written-HasBytes true m n s k a = store-bytes_at m n s k a
written-HasBytes false m n s k a = refl

write_dumps-HasBytes :
    (m n : ℕ → ℕ) (dumps : List MemoryDump) (a : ℕ)
    → All (HasBytes m) dumps
    → write_dumps dumps n a ≡ (if is_covered dumps a then m a else n a)
unfolding write_dumps is_covered
write_dumps-HasBytes m n [] a h = refl
write_dumps-HasBytes m n (d ∷ dumps) a h =
    let start = d.region.start_addr in
    let n' = if d.region.writable then store start d.dump_data n else n in
    let inside = d.region.writable && (leb start a && ltb a (start + size d.region)) in
    write_dumps-HasBytes m n' dumps a h.1
    ∙ ap (λ y. if is_covered dumps a then m a else y)
        (ap (λ b. (if d.region.writable then store start b n else n) a) h.0.bytes
          ∙ written-HasBytes d.region.writable m n start (size d.region) a)
    ∙ if_or inside (is_covered dumps a) (m a) (n a)

HasBytes-IsFitting :
    (m : ℕ → ℕ) (dumps : List MemoryDump)
    → ((a : ℕ) → m a < 256)
    → All (HasBytes m) dumps
    → All IsFitting dumps
HasBytes-IsFitting m [] small h = tt
HasBytes-IsFitting m (d ∷ dumps) small h = (
  record {
    bytes = rw h.0.bytes (bytes_at-IsBytes m d.region.start_addr (size d.region) small);
    room = rw (h.0.bytes, length-bytes_at) h.0.room;
  },
  HasBytes-IsFitting m dumps small h.1,
)

module _ {K : Type 0} (kernel : Kernel K) (reader : ProcReader K) (laws : IsKernel kernel) where
  -- A checkpoint of one process, restored to another or to the same one later: where the restore
  -- reports success, every address in a dump of a writable region has the byte that it had when the
  -- first process was stopped, every other address the byte it had when the second was stopped, and
  -- the registers are those of the first.
  pub restore-create_checkpoint :
      (p q : ℕ) (name : Text) (made : CheckpointOptions) (id now : ℕ) (unset : SignalInfo)
      (last : Text) (o : RestoreOptions) (k j : K) {checkpoint : RealProcessCheckpoint} {g : List ℕ}
      → made.save_registers ≡ true
      → kernel.get_regs p (attach kernel p Ptrace.new k).2 ≡ done g
      → All IsInRange (reader.get_memory_maps p (attach kernel p Ptrace.new k).2)
      → (create_checkpoint kernel reader p name made id now unset last k).0 ≡ some checkpoint
      → IsStrict o
      → (restore_checkpoint_ex kernel reader q checkpoint o j).0.success ≡ true
      → let then_memory = laws.memory (attach kernel p Ptrace.new k).2 p in
        let now_memory = laws.memory (attach kernel q Ptrace.new j).2 q in
        let j' = (restore_checkpoint_ex kernel reader q checkpoint o j).1 in
        ((a : ℕ)
          → laws.memory j' q a
            ≡ (if is_covered checkpoint.memory_dumps a then then_memory a else now_memory a))
        × (laws.registers j' q ≡ laws.registers (attach kernel p Ptrace.new k).2 p)
  restore-create_checkpoint p q name made id now unset last o k j {checkpoint = checkpoint} saved
        read ranges h strict success =
      let k1 = (attach kernel p Ptrace.new k).2 in
      let m = laws.memory k1 p in
      let held =
        create_checkpoint-HasBytes kernel laws p reader name made id now unset last k ranges h in
      let fits = HasBytes-IsFitting m checkpoint.memory_dumps (laws.memory_byte k1 p) held in
      let (memory, registers) =
        restore_checkpoint_ex_lem kernel laws q reader checkpoint o j strict fits success in
      (
        λ a.
            ap (λ f. f a) memory
            ∙ write_dumps-HasBytes m (laws.memory (attach kernel q Ptrace.new j).2 q)
                checkpoint.memory_dumps a held,
        registers
            ∙ create_checkpoint-registers kernel laws p reader name made id now unset last k saved
                read h,
      )
