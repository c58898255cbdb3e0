-- ===== src/Checkpointer/Restore/Success.antt =====
-- What is true of a process when its restore reports success.
use process_snapshot.Prelude.{
  ℕ, ◌≡◌, refl, List, [], ◌∷◌, Bool, true, false, All, if◌then◌else◌, Bool-cases, inl, inr, ◌⊎◌,
  arith, ap, ap₂, subst, if_true, if_false, sym, ◌∙◌,
}
use process_snapshot.Snapshot.{
  RealProcessCheckpoint, LinuxRegisters, MemoryDump, FileDescriptorInfo,
}
use process_snapshot.Kernel.{Kernel, IsKernel}
use process_snapshot.Ptrace.{
  PtraceController, PtraceError, is_traced, stop, detach, guarded, set_registers, set_fpu_registers,
}
use process_snapshot.Ptrace.Words.{is_success}
use process_snapshot.Ptrace.Laws.{to_error-success}
use process_snapshot.Ptrace.Keeps.{Same, detach-Same, close-Same}
use process_snapshot.Checkpointer.{RestoreOptions, RestoreResult}
use process_snapshot.Checkpointer.Restore.{
  Flow, stopped, going, region_result, restore_writable, restore_dump, restore_dumps,
  restore_memory_part, adjusted_registers, noted_rip, set_result, fpu_result, fpu_part,
  restore_registers_part, restore_fds_part, detach_result, release_part, conclude, finish, apply,
}
use process_snapshot.Checkpointer.Restore.Laws.{
  IsFitting, write_dumps, failures, stays, restore_dumps_lem,
}

-- A restore of everything that gives up at the first error and moves no address.
pub record IsStrict (o : RestoreOptions) : Type 0 where
  pub registers : o.restore_registers ≡ true
  pub memory : o.restore_memory ≡ true
  pub continues : o.continue_after_restore ≡ true
  pub stops : o.stop_on_error ≡ true
  pub applies : o.dry_run ≡ false
  pub still : o.handle_aslr ≡ false
  pub minds : o.ignore_memory_errors ≡ false

unfoldable pub success_of : Flow → Bool
success_of (stopped r) = r.success
success_of (going r) = r.success

region_result-success :
    (o : RestoreOptions) (target : ℕ) (e : PtraceError) (r : RestoreResult)
    → success_of (region_result o target e r) ≡ r.success
unfolding region_result success_of
region_result-success o target e r = ground arith

set_result-success :
    (o : RestoreOptions) (e : PtraceError) (r : RestoreResult)
    → o.stop_on_error ≡ true
    → ((s : RestoreResult) × (set_result o e r ≡ stopped s) × (s.success ≡ r.success))
      ⊎ ((s : RestoreResult) × (set_result o e r ≡ going s)
          × (s.success ≡ r.success)
          × (s.memory_regions_failed ≡ r.memory_regions_failed)
          × (is_success e ≡ true))
unfolding set_result
set_result-success o e r stop = elim (Bool-cases (is_success e)) [
  | inl ok ↦ rw ok (inr (record r { registers_restored = 1 }, refl, refl, refl, refl))
  | inr bad ↦ rw (bad, stop) (inl (_, refl, refl))
]

conclude_lem :
    (o : RestoreOptions) (r : RestoreResult)
    → o.ignore_memory_errors ≡ false
    → (conclude o r).success ≡ true
    → r.memory_regions_failed ≡ 0
unfolding conclude
conclude_lem o r minds h = ground (arith, h, minds)

fds-failed :
    (o : RestoreOptions) (fds : List FileDescriptorInfo) (r : RestoreResult)
    → (restore_fds_part o fds r).memory_regions_failed ≡ r.memory_regions_failed
unfolding restore_fds_part
fds-failed o fds r = ground arith

detach_result-failed :
    (e : PtraceError) (r : RestoreResult)
    → (detach_result e r).memory_regions_failed ≡ r.memory_regions_failed
unfolding detach_result
detach_result-failed e r = ground arith

module _ {K : Type 0} (kernel : Kernel K) where
  writable-success :
      (b : Bool) (o : RestoreOptions) (d : MemoryDump) (c : PtraceController) (r : RestoreResult)
      (k : K)
      → success_of (restore_writable kernel b o d c r k).0 ≡ r.success
  unfolding restore_writable
  writable-success true o d c r k = region_result-success o _ _ r
  writable-success false o d c r k = unfold success_of in refl

  restore_dumps-success :
      (o : RestoreOptions) (dumps : List MemoryDump) (c : PtraceController) (flow : Flow) (k : K)
      → success_of (restore_dumps kernel o dumps c flow k).0 ≡ success_of flow
  unfolding restore_dumps restore_dump success_of
  restore_dumps-success o dumps c (stopped r) k = refl
  restore_dumps-success o [] c (going r) k = refl
  restore_dumps-success o (d ∷ dumps) c (going r) k =
      let (flow, k') = restore_writable kernel d.region.writable o d c r k in
      restore_dumps-success o dumps c flow k' ∙ writable-success d.region.writable o d c r k

module _ {K : Type 0} (kernel : Kernel K) (laws : IsKernel kernel) (p : ℕ) where
  -- Registers that are set where they do not move.
  set_registers_lem :
      (r : LinuxRegisters) (c : PtraceController) (k : K)
      → c.pid ≡ p
      → is_success (set_registers kernel r c k).0 ≡ true
      → (laws.memory (set_registers kernel r c k).1 p ≡ laws.memory k p)
        × (laws.registers (set_registers kernel r c k).1 p ≡ r.general)
  unfolding set_registers guarded is_success
  set_registers_lem r c k pid h = elim (Bool-cases (is_traced c)) [
    | inl traced ↦
        let set = kernel.set_regs c.pid r.general k in
        let ok = to_error-success set.0 (rw traced at h) in
        rw (traced, ← pid)
          (laws.set_regs_memory c.pid r.general k, laws.set_regs_lem c.pid r.general k ok)
    | inr free ↦ absurd (cc (rw free at h))
  ]

  set_fpu_registers-Same :
      (c : PtraceController) (state : List ℕ) (k : K)
      → c.pid ≡ p
      → Same kernel laws p k (set_fpu_registers kernel state c k).1
  unfolding set_fpu_registers guarded
  set_fpu_registers-Same c state k pid = elim (Bool-cases (is_traced c)) [
    | inl traced ↦
        rw (traced, ← pid) (laws.set_fpu_memory c.pid state k, laws.set_fpu_registers c.pid state k)
    | inr free ↦ rw free (refl, refl)
  ]

  -- The flow goes on with as many failures, and the process is the same.
  abbrev GoesOn : RestoreResult → K → Flow × K → Type 0
  GoesOn s k (flow, k') =
      Same kernel laws p k k'
      × (t : RestoreResult) × (flow ≡ going t)
      × (t.success ≡ s.success)
      × (t.memory_regions_failed ≡ s.memory_regions_failed)

  chosen_GoesOn :
      (b : Bool) (s t : RestoreResult) (k k' : K)
      → Same kernel laws p k k'
      → t.success ≡ s.success
      → t.memory_regions_failed ≡ s.memory_regions_failed
      → GoesOn s k (if b then (going t, k') else (going s, k))
  chosen_GoesOn true s t k k' same success count = (same, t, refl, success, count)
  chosen_GoesOn false s t k k' same success count = ((refl, refl), s, refl, refl, refl)

  fpu_part_lem :
      (r : LinuxRegisters) (c : PtraceController) (s : RestoreResult) (k : K)
      → c.pid ≡ p
      → GoesOn s k (fpu_part kernel r c (going s) k)
  unfolding fpu_part
  fpu_part_lem r c s k pid =
      let (error, k') = set_fpu_registers kernel r.fpu_state c k in
      chosen_GoesOn r.has_fpu s (fpu_result error s) k k'
        (set_fpu_registers-Same c r.fpu_state k pid) (unfold fpu_result in ground arith)
        (unfold fpu_result in ground arith)

  restore_registers_part-eq :
      (o : RestoreOptions) (r : LinuxRegisters) (c : PtraceController) (s : RestoreResult) (k : K)
      → IsStrict o
      → restore_registers_part kernel o r c s k ≡ (
          let (error, k1) = set_registers kernel r c k in
          fpu_part kernel r c (set_result o error s) k1)
  unfolding restore_registers_part adjusted_registers noted_rip
  restore_registers_part-eq o r c s k strict =
      let moves_not = stays o s strict.still in
      if_true _ _ strict.registers
      ∙ ap₂
          (λ r' t.
            let (error, k1) = set_registers kernel r' c k in
            fpu_part kernel r c (set_result o error t) k1)
          (if_false _ _ moves_not) (if_false _ _ moves_not)

  -- What the registers part comes to: it stops, or the process has the registers.
  abbrev SetsRegisters : LinuxRegisters → RestoreResult → K → Flow × K → Type 0
  SetsRegisters r s k (flow, k') =
      ((t : RestoreResult) × (flow ≡ stopped t) × (t.success ≡ s.success))
      ⊎ ((t : RestoreResult) × (flow ≡ going t)
          × (t.success ≡ s.success)
          × (t.memory_regions_failed ≡ s.memory_regions_failed)
          × (laws.memory k' p ≡ laws.memory k p)
          × (laws.registers k' p ≡ r.general))

  restore_registers_part_lem :
      (o : RestoreOptions) (r : LinuxRegisters) (c : PtraceController) (s : RestoreResult) (k : K)
      → IsStrict o
      → c.pid ≡ p
      → SetsRegisters r s k (restore_registers_part kernel o r c s k)
  restore_registers_part_lem o r c s k strict pid =
      let (error, k1) = set_registers kernel r c k in
      subst (SetsRegisters r s k) (sym (restore_registers_part-eq o r c s k strict))
        (elim (set_result-success o error s strict.stops) [
          | inl (t, stop, success) ↦ inl (t, rw stop (unfold fpu_part in refl), success)
          | inr (t, go, success, count, ok) ↦
              let (memory, registers) = set_registers_lem r c k pid ok in
              let (same, u, flow, success', count') = fpu_part_lem r c t k1 pid in
              rw go (
                inr (
                  u,
                  flow,
                  success' ∙ success,
                  count' ∙ count,
                  same.0 ∙ memory,
                  same.1 ∙ registers,
                ))
        ])

  release_part-Same :
      (o : RestoreOptions) (c : PtraceController) (r : RestoreResult) (k : K)
      → o.continue_after_restore ≡ true
      → Same kernel laws p k (release_part kernel o c r k).2
  unfolding release_part
  release_part-Same o c r k continues =
      subst (λ k1. Same kernel laws p k (detach kernel c k1).2) (sym (if_true k _ continues))
        (detach-Same kernel laws p c k)

  -- A process that a restore comes to the end with is the same as before the end.
  finish_lem :
      (o : RestoreOptions) (checkpoint : RealProcessCheckpoint) (c : PtraceController) (flow : Flow)
      (k : K)
      → IsStrict o
      → success_of flow ≡ false
      → (finish kernel o checkpoint c flow k).0.success ≡ true
      → Same kernel laws p k (finish kernel o checkpoint c flow k).1 × (failures flow ≡ 0)
  unfolding finish failures success_of release_part
  finish_lem o checkpoint c (stopped r) k strict not_yet h = absurd (cc)
  finish_lem o checkpoint c (going r) k strict not_yet h =
      let with_fds = restore_fds_part o checkpoint.file_descriptors r in
      let (released, c', k') = release_part kernel o c with_fds k in
      let closed = close-Same kernel laws p c' k' in
      let same = release_part-Same o c with_fds k strict.continues in
      let count = conclude_lem o released strict.minds h in
      (
        (closed.0 ∙ same.0, closed.1 ∙ same.1),
        sym (fds-failed o checkpoint.file_descriptors r)
            ∙ sym (
                detach_result-failed
                  (detach kernel c (if o.continue_after_restore then k else (stop kernel c k).1)).0
                  with_fds)
            ∙ count,
      )

  stop_success :
      (o : RestoreOptions) (checkpoint : RealProcessCheckpoint) (c : PtraceController)
      (t : RestoreResult) (k : K)
      → (let (flow, k') = restore_dumps kernel o checkpoint.memory_dumps c (stopped t) k in
          (finish kernel o checkpoint c flow k').0.success)
        ≡ t.success
  unfolding restore_dumps finish
  stop_success o checkpoint c t k = refl

  -- Behind the registers part: the dumps and the end.
  memory_finish :
      (o : RestoreOptions) (checkpoint : RealProcessCheckpoint) (c : PtraceController)
      (r : RestoreResult) (k : K) (flow : Flow) (k1 : K)
      → IsStrict o
      → c.pid ≡ p
      → All IsFitting checkpoint.memory_dumps
      → r.success ≡ false
      → SetsRegisters checkpoint.registers r k (flow, k1)
      → let (flow', k2) = restore_dumps kernel o checkpoint.memory_dumps c flow k1 in
        (finish kernel o checkpoint c flow' k2).0.success ≡ true
        → (laws.memory (finish kernel o checkpoint c flow' k2).1 p
            ≡ write_dumps checkpoint.memory_dumps (laws.memory k p))
          × (laws.registers (finish kernel o checkpoint c flow' k2).1 p
              ≡ checkpoint.registers.general)
  memory_finish o checkpoint c r k flow k1 strict pid fits not_yet (inl (t, stop, success)) h =
      absurd (cc (rw (stop, stop_success o checkpoint c t k1) at h, success, not_yet))
  memory_finish o checkpoint c r k flow k1 strict pid fits not_yet
        (inr (t, go, success, count, memory, registers)) h =
      let (flow', k2) = restore_dumps kernel o checkpoint.memory_dumps c flow k1 in
      let dumps_success = restore_dumps-success kernel o checkpoint.memory_dumps c flow k1 in
      let none_yet : success_of flow' ≡ false =
        dumps_success ∙ ap success_of go ∙ unfold success_of in success ∙ not_yet in
      let (same, no_failure) = finish_lem o checkpoint c flow' k2 strict none_yet h in
      let dumped =
        restore_dumps_lem kernel laws o checkpoint.memory_dumps c t k1 strict.still fits
          (rw go at no_failure) in
      let dumps = checkpoint.memory_dumps in
      let at_p =
        subst
          (λ q.
            (laws.memory (restore_dumps kernel o dumps c (going t) k1).1 q
              ≡ write_dumps dumps (laws.memory k1 q))
            × (laws.registers (restore_dumps kernel o dumps c (going t) k1).1 q
                ≡ laws.registers k1 q))
          pid dumped in
      let at_flow =
        subst
          (λ f.
            (laws.memory (restore_dumps kernel o dumps c f k1).1 p
              ≡ write_dumps dumps (laws.memory k1 p))
            × (laws.registers (restore_dumps kernel o dumps c f k1).1 p ≡ laws.registers k1 p))
          (sym go) at_p in
      (same.0 ∙ at_flow.0 ∙ ap (write_dumps dumps) memory, same.1 ∙ at_flow.1 ∙ registers)

  -- A restore that goes on from a result without success or failures.
  pub apply_lem :
      (o : RestoreOptions) (checkpoint : RealProcessCheckpoint) (c : PtraceController)
      (r : RestoreResult) (k : K)
      → IsStrict o
      → c.pid ≡ p
      → All IsFitting checkpoint.memory_dumps
      → r.success ≡ false
      → (apply kernel o checkpoint c (going r) k).0.success ≡ true
      → let k' = (apply kernel o checkpoint c (going r) k).1 in
        (laws.memory k' p ≡ write_dumps checkpoint.memory_dumps (laws.memory k p))
        × (laws.registers k' p ≡ checkpoint.registers.general)
  unfolding apply restore_memory_part
  apply_lem o checkpoint c r k strict pid fits not_yet h =
      let (flow, k1) = restore_registers_part kernel o checkpoint.registers c r k in
      let set = restore_registers_part_lem o checkpoint.registers c r k strict pid in
      let finished = memory_finish o checkpoint c r k flow k1 strict pid fits not_yet set in
      subst
        (λ stage.
          (finish kernel o checkpoint c stage.0 stage.1).0.success ≡ true
          → (laws.memory (finish kernel o checkpoint c stage.0 stage.1).1 p
              ≡ write_dumps checkpoint.memory_dumps (laws.memory k p))
            × (laws.registers (finish kernel o checkpoint c stage.0 stage.1).1 p
                ≡ checkpoint.registers.general))
        (sym (
          if_true (restore_dumps kernel o checkpoint.memory_dumps c flow k1) (flow, k1)
            strict.memory))
        finished h
