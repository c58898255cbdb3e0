-- ===== src/Checkpointer/Restore/Stored.antt =====
-- A restore of a checkpoint that was read back from its binary format.
use process_snapshot.Prelude.{
  ℕ, ◌≡◌, refl, Bytes, List, [], ◌∷◌, append-nil, map, some, true, false, length, All, ap, if_false,
  sym, subst, ◌∙◌,
}
use process_snapshot.Memory.{MemoryRegion}
use process_snapshot.Snapshot.{RealProcessCheckpoint, MemoryDump, SignalInfo}
use process_snapshot.Snapshot.Format.{serialize, deserialize}
use process_snapshot.Snapshot.Format.RoundTrip.{
  IsStorable, stored, stored_dump, deserialize-serialize_snapshot,
}
use process_snapshot.Kernel.{Kernel, IsKernel}
use process_snapshot.Kernel.Memory.{store}
use process_snapshot.Ptrace
use process_snapshot.Ptrace.{attach}
use process_snapshot.Checkpointer.{RestoreOptions, ProcReader}
use process_snapshot.Checkpointer.Restore.{restore_checkpoint_ex}
use process_snapshot.Checkpointer.Restore.Laws.{IsFitting, write_dumps}
use process_snapshot.Checkpointer.Restore.Success.{IsStrict}
use process_snapshot.Checkpointer.Restore.Complete.{restore_checkpoint_ex_lem}

-- The dumps have the permissions of a region that nothing has initialized.
write_dumps-stored :
    (unset : MemoryRegion) (dumps : List MemoryDump) (m : ℕ → ℕ)
    → unset.writable ≡ false
    → write_dumps (map (stored_dump unset) dumps) m ≡ m
unfolding write_dumps
write_dumps-stored unset [] m h = refl
write_dumps-stored unset (d ∷ dumps) m h =
    ap (write_dumps (map (stored_dump unset) dumps))
      (if_false (store d.region.start_addr d.dump_data m) m h)
    ∙ write_dumps-stored unset dumps m h

stored_dump-IsFitting :
    (unset : MemoryRegion) (dumps : List MemoryDump)
    → All IsFitting dumps
    → All IsFitting (map (stored_dump unset) dumps)
stored_dump-IsFitting unset [] h = tt
stored_dump-IsFitting unset (d ∷ dumps) h =
    (record { bytes = h.0.bytes; room = h.0.room }, stored_dump-IsFitting unset dumps h.1)

module _ {K : Type 0} (kernel : Kernel K) (reader : ProcReader K) (laws : IsKernel kernel) where
  -- A checkpoint is read back from its format with the dumps' regions as they are left by a
  -- declaration without initialization. Where that is not writable, a restore of it that reports
  -- success has left the memory as it was.
  pub restore-deserialize :
      (unset_signals : SignalInfo) (unset : MemoryRegion) (padding : Bytes)
      (c : RealProcessCheckpoint) (p : ℕ) (o : RestoreOptions) (k : K)
      {read : RealProcessCheckpoint} {rest : Bytes}
      → length padding ≡ 7
      → IsStorable c
      → All IsFitting c.memory_dumps
      → unset.writable ≡ false
      → deserialize unset_signals unset (serialize padding c) ≡ some (read, rest)
      → IsStrict o
      → (restore_checkpoint_ex kernel reader p read o k).0.success ≡ true
      → laws.memory (restore_checkpoint_ex kernel reader p read o k).1 p
        ≡ laws.memory (attach kernel p Ptrace.new k).2 p
  restore-deserialize unset_signals unset padding c p o k {read = read} long storable fits fixed
        found strict h =
      let trip =
        rw append-nil at
          (deserialize-serialize_snapshot unset_signals unset padding c [] long storable) in
      let same : read ≡ stored unset c = cc (found, trip) in
      let dumps = ap (λ (x : RealProcessCheckpoint). x.memory_dumps) same in
      let fits' : All IsFitting read.memory_dumps =
        subst (All IsFitting) (sym dumps) (stored_dump-IsFitting unset c.memory_dumps fits) in
      let m = laws.memory (attach kernel p Ptrace.new k).2 p in
      (restore_checkpoint_ex_lem kernel laws p reader read o k strict fits' h).0
      ∙ ap (λ ds. write_dumps ds m) dumps
      ∙ write_dumps-stored unset c.memory_dumps m fixed
