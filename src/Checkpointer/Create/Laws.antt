-- ===== src/Checkpointer/Create/Laws.antt =====
-- What a checkpoint holds of the process that it was made of.
use process_snapshot.Prelude.{
  ℕ, ◌+◌, ◌%◌, ◌<◌, ◌≡◌, refl, Text, List, [], ◌∷◌, Option, none, some, Bool, true, false, not,
  ◌&&◌, length, All, if◌then◌else◌, Bool-cases, inl, inr, if_true, ap, sym, subst, ◌∙◌,
}
use process_snapshot.Wire.{u64_mod}
use process_snapshot.Memory.{MemoryRegion, size}
use process_snapshot.Snapshot
use process_snapshot.Snapshot.{
  RealProcessCheckpoint, RealProcessInfo, MemoryDump, SignalInfo, LinuxRegisters,
}
use process_snapshot.Kernel.{Kernel, IsKernel, Outcome, failed, done}
use process_snapshot.Kernel.Memory.{bytes_at}
use process_snapshot.Ptrace
use process_snapshot.Ptrace.{
  PtraceController, PtraceError, attach, get_registers, got_registers, is_traced,
}
use process_snapshot.Ptrace.Words.{is_success, dump_memory_region}
use process_snapshot.Ptrace.Reading.{dump_memory_region_lem}
use process_snapshot.Ptrace.Keeps.{Holds, attach-Holds}
use process_snapshot.Checkpointer.{CheckpointOptions, ProcReader}
use process_snapshot.Checkpointer.Create.{
  is_skipped, at_limit, with_fpu, dump_regions, save_registers_part, capture_process, create_with,
  create_checkpoint,
}

-- A dump of what a memory has in its region.
pub record HasBytes (m : ℕ → ℕ) (d : MemoryDump) : Type 0 where
  pub bytes : d.dump_data ≡ bytes_at m d.region.start_addr (size d.region)
  pub room : d.region.start_addr + size d.region < u64_mod

abbrev pub IsInRange : MemoryRegion → Type 0
IsInRange r = r.start_addr + size r < u64_mod

All-if {ℓ} :
    {A : Type ℓ} (P : A → Type 0) (b : Bool) (xs ys : List A)
    → (b ≡ true → All P xs)
    → (b ≡ false → All P ys)
    → All P (if b then xs else ys)
All-if P true xs ys h k = h refl
All-if P false xs ys h k = k refl

module _ {K : Type 0} (kernel : Kernel K) (laws : IsKernel kernel) (p : ℕ) where
  dump_HasBytes :
      (r : MemoryRegion) (c : PtraceController) (k : K)
      → Holds kernel laws p c k
      → IsInRange r
      → (dump_memory_region kernel r c k).is_valid ≡ true
      → HasBytes (laws.memory k p) (dump_memory_region kernel r c k)
  dump_HasBytes r c k held range valid =
      let (bytes, region) = dump_memory_region_lem kernel laws r c k held.own range valid in
      let m = laws.memory k p in
      record {
        bytes =
            bytes
            ∙ ap (λ q. bytes_at (laws.memory k q) r.start_addr (size r)) held.pid
            ∙ sym (ap (λ (s : MemoryRegion). bytes_at m s.start_addr (size s)) region);
        room = subst IsInRange (sym region) range;
      }

  dump_regions-HasBytes :
      (o : CheckpointOptions) (total : ℕ) (regions : List MemoryRegion) (c : PtraceController)
      (k : K)
      → Holds kernel laws p c k
      → All IsInRange regions
      → All (HasBytes (laws.memory k p)) (dump_regions kernel o total regions c k)
  unfolding dump_regions
  dump_regions-HasBytes o total [] c k held ranges = tt
  dump_regions-HasBytes o total (r ∷ regions) c k held ranges =
      let d = dump_memory_region kernel r c k in
      let taken = not (is_skipped o r) && d.is_valid in
      let total' = if taken then (total + length d.dump_data) % u64_mod else total in
      let P = HasBytes (laws.memory k p) in
      let rest = dump_regions-HasBytes o total' regions c k held ranges.1 in
      All-if P (is_skipped o r) _ _ (λ _. rest)
        (λ _.
          All-if P (at_limit o total) _ _ (λ _. tt)
            (λ _.
              All-if P d.is_valid _ _ (λ valid. (dump_HasBytes r c k held ranges.0 valid, rest))
                (λ _. rest)))

  -- How a checkpoint was made: the process was attached to, and stood still while it was read.
  abbrev Reads : ProcReader K → CheckpointOptions → Text → K → RealProcessCheckpoint → Type 0
  Reads reader o last k checkpoint =
      let (error, c, k1) = attach kernel p Ptrace.new k in
      (is_success error ≡ true)
      × (checkpoint.registers ≡ (save_registers_part kernel o c last k1).0)
      × (checkpoint.memory_dumps ≡ (
          if o.save_memory then dump_regions kernel o 0 (reader.get_memory_maps p k1) c k1 else []))

  create_with_parts :
      (reader : ProcReader K) (found : Option RealProcessInfo) (name : Text) (o : CheckpointOptions)
      (id now : ℕ) (unset : SignalInfo) (last : Text) (k : K) {checkpoint : RealProcessCheckpoint}
      → (create_with kernel reader found p name o id now unset last k).0 ≡ some checkpoint
      → Reads reader o last k checkpoint
  unfolding create_with capture_process
  create_with_parts reader none name o id now unset last k h = absurd (cc)
  create_with_parts reader (some info) name o id now unset last k {checkpoint = checkpoint} h =
      let (error, c, k1) = attach kernel p Ptrace.new k in
      let made =
        capture_process kernel reader p name o id now unset info
          (save_registers_part kernel o c last k1).0 c k1 in
      elim (Bool-cases (is_success error)) [
        | inl ok ↦
            let same : made ≡ checkpoint = cc (rw ok at h) in
            (ok, ap (λ x. x.registers) (sym same), ap (λ x. x.memory_dumps) (sym same))
        | inr bad ↦ absurd (cc (rw bad at h))
      ]

  create_checkpoint_parts :
      (reader : ProcReader K) (name : Text) (o : CheckpointOptions) (id now : ℕ)
      (unset : SignalInfo) (last : Text) (k : K) {checkpoint : RealProcessCheckpoint}
      → (create_checkpoint kernel reader p name o id now unset last k).0 ≡ some checkpoint
      → Reads reader o last k checkpoint
  unfolding create_checkpoint
  create_checkpoint_parts reader name o id now unset last k h =
      elim (Bool-cases (reader.process_exists p k)) [
        | inl there ↦
            create_with_parts reader (reader.get_process_info p k) name o id now unset last k
              (rw there at h)
        | inr absent ↦ absurd (cc (rw absent at h))
      ]

  -- Every dump of a checkpoint holds the bytes that its region had when the process was stopped.
  pub create_checkpoint-HasBytes :
      (reader : ProcReader K) (name : Text) (o : CheckpointOptions) (id now : ℕ)
      (unset : SignalInfo) (last : Text) (k : K) {checkpoint : RealProcessCheckpoint}
      → All IsInRange (reader.get_memory_maps p (attach kernel p Ptrace.new k).2)
      → (create_checkpoint kernel reader p name o id now unset last k).0 ≡ some checkpoint
      → All (HasBytes (laws.memory (attach kernel p Ptrace.new k).2 p)) checkpoint.memory_dumps
  create_checkpoint-HasBytes reader name o id now unset last k ranges h =
      let (error, c, k1) = attach kernel p Ptrace.new k in
      let (ok, registers, dumps) = create_checkpoint_parts reader name o id now unset last k h in
      let P = HasBytes (laws.memory k1 p) in
      rw dumps (
        All-if P o.save_memory _ []
          (λ _.
            dump_regions-HasBytes o 0 (reader.get_memory_maps p k1) c k1
              (attach-Holds kernel laws p k ok) ranges)
          (λ _. tt))

  got_registers-general :
      (outcome : Outcome (List ℕ)) (r : LinuxRegisters) {g : List ℕ}
      → outcome ≡ done g
      → (got_registers outcome r).1.general ≡ g
  unfolding got_registers
  got_registers-general (failed e) r h = absurd (cc)
  got_registers-general (done x) r h = cc

  with_fpu-general :
      (x : PtraceError × List ℕ) (r : LinuxRegisters) → (with_fpu x r).general ≡ r.general
  unfolding with_fpu
  with_fpu-general (error, state) r = elim (Bool-cases (is_success error)) [
    | inl ok ↦ rw ok refl
    | inr bad ↦ rw bad refl
  ]

  saved_general :
      (o : CheckpointOptions) (last : Text) (c : PtraceController) (k : K) {g : List ℕ}
      → Holds kernel laws p c k
      → o.save_registers ≡ true
      → kernel.get_regs p k ≡ done g
      → (save_registers_part kernel o c last k).0.general ≡ g
  unfolding save_registers_part get_registers
  saved_general o last c k held saved read =
      let fresh = Snapshot.new_registers in
      ap (λ (x : LinuxRegisters × Text). x.0.general) (if_true _ (fresh, last) saved)
      ∙ with_fpu-general _ _
      ∙ ap (λ (x : PtraceError × LinuxRegisters). x.1.general) (if_true _ _ held.traced)
      ∙ got_registers-general (kernel.get_regs c.pid k) fresh
          (ap (λ q. kernel.get_regs q k) held.pid ∙ read)

  -- The registers of a checkpoint are those of the stopped process, if they were read.
  pub create_checkpoint-registers :
      (reader : ProcReader K) (name : Text) (o : CheckpointOptions) (id now : ℕ)
      (unset : SignalInfo) (last : Text) (k : K) {checkpoint : RealProcessCheckpoint} {g : List ℕ}
      → o.save_registers ≡ true
      → kernel.get_regs p (attach kernel p Ptrace.new k).2 ≡ done g
      → (create_checkpoint kernel reader p name o id now unset last k).0 ≡ some checkpoint
      → checkpoint.registers.general ≡ laws.registers (attach kernel p Ptrace.new k).2 p
  create_checkpoint-registers reader name o id now unset last k saved read h =
      let (error, c, k1) = attach kernel p Ptrace.new k in
      let (ok, registers, dumps) = create_checkpoint_parts reader name o id now unset last k h in
      ap (λ (r : LinuxRegisters). r.general) registers
      ∙ saved_general o last c k1 (attach-Holds kernel laws p k ok) saved read
      ∙ laws.get_regs_lem p k1 read
