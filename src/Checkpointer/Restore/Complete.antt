-- ===== src/Checkpointer/Restore/Complete.antt =====
-- `restoreCheckpointEx` from its call to its end.
use process_snapshot.Prelude.{
  ℕ, ◌≡◌, refl, List, [], ◌∷◌, Option, none, some, true, false, not, All, Bool-cases, inl, inr,
  arith, sym, subst, if_false, ◌∙◌,
}
use process_snapshot.Memory.{MemoryRegion}
use process_snapshot.Snapshot.{RealProcessCheckpoint}
use process_snapshot.Kernel.{Kernel, IsKernel}
use process_snapshot.Ptrace
use process_snapshot.Ptrace.{attach, close}
use process_snapshot.Ptrace.Words.{is_success}
use process_snapshot.Ptrace.Keeps.{attach-Holds}
use process_snapshot.Checkpointer.{RestoreOptions, RestoreResult, new_result, ProcReader}
use process_snapshot.Checkpointer.Restore.{
  Flow, stopped, going, find_moved, note_moved, check_region, check_regions, validate_part,
  dry_part, then_dry, apply, restore_checkpoint_ex,
}
use process_snapshot.Checkpointer.Restore.Laws.{IsFitting, write_dumps}
use process_snapshot.Checkpointer.Restore.Success.{IsStrict, success_of, apply_lem}

note_moved-success :
    (r : MemoryRegion) (found : Option MemoryRegion) (result : RestoreResult)
    → (note_moved r found result).success ≡ result.success
unfolding note_moved
note_moved-success r none result = refl
note_moved-success r (some cur) result = refl

check_region-success :
    (o : RestoreOptions) (r : MemoryRegion) (current : List MemoryRegion) (result : RestoreResult)
    → (check_region o r current result).success ≡ result.success
unfolding check_region
check_region-success o r current result =
    ground (arith, note_moved-success r (find_moved r current) result)

check_regions-success :
    (o : RestoreOptions) (regions current : List MemoryRegion) (result : RestoreResult)
    → (check_regions o regions current result).success ≡ result.success
unfolding check_regions
check_regions-success o [] current result = refl
check_regions-success o (r ∷ regions) current result =
    check_regions-success o regions current (check_region o r current result)
    ∙ check_region-success o r current result

validate_part-success :
    (o : RestoreOptions) (regions current : List MemoryRegion) (result : RestoreResult)
    → success_of (validate_part o regions current result) ≡ result.success
unfolding validate_part success_of
validate_part-success o regions current result =
    ground (arith, check_regions-success o regions current result)

dry_part-going :
    (o : RestoreOptions) (r : RestoreResult) → o.dry_run ≡ false → dry_part o r ≡ going r
unfolding dry_part
dry_part-going o r h = if_false _ _ h

module _ {K : Type 0} (kernel : Kernel K) (laws : IsKernel kernel) (p : ℕ) where
  -- The process has the memory and the registers of the checkpoint, over the memory at `k`.
  abbrev pub IsRestored : RealProcessCheckpoint → K → K → Type 0
  IsRestored checkpoint k k' =
      (laws.memory k' p ≡ write_dumps checkpoint.memory_dumps (laws.memory k p))
      × (laws.registers k' p ≡ checkpoint.registers.general)

  -- Behind the validation, which has given its flow.
  validated_lem :
      (o : RestoreOptions) (checkpoint : RealProcessCheckpoint) (flow : Flow) (k : K)
      → IsStrict o
      → All IsFitting checkpoint.memory_dumps
      → success_of flow ≡ false
      → let (error, c, k1) = attach kernel p Ptrace.new k in
        is_success error ≡ true
        → (apply kernel o checkpoint c (then_dry o flow) k1).0.success ≡ true
        → IsRestored checkpoint k1 (apply kernel o checkpoint c (then_dry o flow) k1).1
  unfolding success_of then_dry
  validated_lem o checkpoint (stopped r) k strict fits not_yet ok h =
      let unfinished : r.success ≡ true = unfold apply in h in absurd (cc)
  validated_lem o checkpoint (going r) k strict fits not_yet ok h =
      let (error, c, k1) = attach kernel p Ptrace.new k in
      let held = attach-Holds kernel laws p k ok in
      subst
        (λ f.
          (apply kernel o checkpoint c f k1).0.success ≡ true
          → IsRestored checkpoint k1 (apply kernel o checkpoint c f k1).1)
        (sym (dry_part-going o r strict.applies))
        (apply_lem kernel laws p o checkpoint c r k1 strict held.pid fits not_yet) h

  -- A restore of everything that gives up at the first error and moves no address, and that reports
  -- success, has written the dumps of writable regions over the memory that the process had when it
  -- was stopped, and nothing else, and has set its registers to those of the checkpoint.
  pub restore_checkpoint_ex_lem :
      (reader : ProcReader K) (checkpoint : RealProcessCheckpoint) (o : RestoreOptions) (k : K)
      → IsStrict o
      → All IsFitting checkpoint.memory_dumps
      → (restore_checkpoint_ex kernel reader p checkpoint o k).0.success ≡ true
      → IsRestored checkpoint
          (attach kernel p Ptrace.new k).2
          (restore_checkpoint_ex kernel reader p checkpoint o k).1
  unfolding restore_checkpoint_ex
  restore_checkpoint_ex_lem reader checkpoint o k strict fits h =
      elim (Bool-cases (not (reader.process_exists p k))) [
        | inl absent ↦ absurd (cc (rw absent at h))
        | inr there ↦
            let (error, c, k1) = attach kernel p Ptrace.new k in
            let current = reader.get_memory_maps p k1 in
            elim (Bool-cases (is_success error)) [
              | inr bad ↦ absurd (cc (rw (there, bad) at h))
              | inl ok ↦
                  rw (there, ok)
                    (validated_lem o checkpoint
                      (validate_part o checkpoint.memory_map current new_result) k strict fits
                      (validate_part-success o checkpoint.memory_map current new_result) ok
                      (rw (there, ok) at h))
            ]
      ]
