-- ===== src/Checkpointer/Restore/Laws.antt =====
-- What a restore does to the memory and the registers of the process.
use process_snapshot.Prelude.{
  ℕ, ◌+◌, ◌≤◌, ◌<◌, ◌≡◌, refl, List, [], ◌∷◌, Bool, true, false, not, ◌&&◌, length, All, IsBytes,
  if◌then◌else◌, Bool-cases, inl, inr, ◌⊎◌, &&_false, arith, ap, ◌∙◌,
}
use process_snapshot.Wire.{u64_mod}
use process_snapshot.Snapshot.{MemoryDump}
use process_snapshot.Kernel.{Kernel, IsKernel}
use process_snapshot.Kernel.Memory.{store}
use process_snapshot.Ptrace.{PtraceController, PtraceError}
use process_snapshot.Ptrace.Words.{is_success, restore_memory_region}
use process_snapshot.Ptrace.Writing.{restore_memory_region_lem}
use process_snapshot.Checkpointer.{RestoreOptions, RestoreResult}
use process_snapshot.Checkpointer.Restore.{
  Flow, stopped, going, moves, target_addr, adjusted_dump, region_result, restore_writable,
  restore_dump, restore_dumps,
}

-- A dump of bytes that lie in the address space.
pub record IsFitting (d : MemoryDump) : Type 0 where
  pub bytes : IsBytes d.dump_data
  pub room : d.region.start_addr + length d.dump_data < u64_mod

-- The memory with the dumps of writable regions written to it, in order.
unfoldable pub write_dumps : List MemoryDump → (ℕ → ℕ) → ℕ → ℕ
write_dumps [] m = m
write_dumps (d ∷ dumps) m =
    write_dumps dumps (if d.region.writable then store d.region.start_addr d.dump_data m else m)

unfoldable pub failures : Flow → ℕ
failures (stopped r) = r.memory_regions_failed
failures (going r) = r.memory_regions_failed

pub stays :
    (options : RestoreOptions) (result : RestoreResult)
    → options.handle_aslr ≡ false
    → moves options result ≡ false
stays options result h = rw h (&&_false result.aslr_detected)

target_addr-stays :
    (options : RestoreOptions) (result : RestoreResult) (d : MemoryDump)
    → options.handle_aslr ≡ false
    → target_addr options result d ≡ d.region.start_addr
unfolding target_addr
target_addr-stays options result d h = rw (stays options result h) refl

region_result-fails :
    (options : RestoreOptions) (target : ℕ) (error : PtraceError) (result : RestoreResult)
    → is_success error ≡ false
    → result.memory_regions_failed < failures (region_result options target error result)
unfolding region_result failures
region_result-fails options target error result bad =
    elim (Bool-cases (options.stop_on_error && not options.ignore_memory_errors)) [
      | inl stop ↦ rw (bad, stop) (omega arith)
      | inr go ↦ rw (bad, go) (omega arith)
    ]

region_result-restores :
    (options : RestoreOptions) (target : ℕ) (error : PtraceError) (result : RestoreResult)
    → is_success error ≡ true
    → region_result options target error result
      ≡ going (record result { memory_regions_restored = result.memory_regions_restored + 1 })
unfolding region_result
region_result-restores options target error result ok = rw ok refl

module _ {K : Type 0} (kernel : Kernel K) (laws : IsKernel kernel) where
  -- What one dump does, where it does not fail.
  restore_writable_lem :
      (writable : Bool) (options : RestoreOptions) (d : MemoryDump) (c : PtraceController)
      (result : RestoreResult) (k : K)
      → options.handle_aslr ≡ false
      → IsFitting d
      → let (flow, k') = restore_writable kernel writable options d c result k in
        (result.memory_regions_failed < failures flow)
        ⊎ ((r : RestoreResult) × (flow ≡ going r)
            × (r.memory_regions_failed ≡ result.memory_regions_failed)
            × (laws.memory k' c.pid ≡ (
                if writable
                then store d.region.start_addr d.dump_data (laws.memory k c.pid)
                else laws.memory k c.pid))
            × (laws.registers k' c.pid ≡ laws.registers k c.pid))
  unfolding restore_writable adjusted_dump
  restore_writable_lem false options d c result k still fits = inr (result, refl, refl, refl, refl)
  restore_writable_lem true options d c result k still fits =
      let d' = adjusted_dump options result d in
      let start = target_addr-stays options result d still in
      elim (Bool-cases (is_success (restore_memory_region kernel d' c k).0)) [
        | inl ok ↦
            let (memory, registers) =
              restore_memory_region_lem kernel laws d' c k fits.bytes (rw start fits.room) ok in
            inr (
              record result { memory_regions_restored = result.memory_regions_restored + 1 },
              region_result-restores options (target_addr options result d)
                  (restore_memory_region kernel d' c k).0 result ok,
              refl,
              memory ∙ ap (λ a. store a d.dump_data (laws.memory k c.pid)) start,
              registers,
            )
        | inr bad ↦ inl (
            region_result-fails options (target_addr options result d)
              (restore_memory_region kernel d' c k).0 result bad)
      ]

  failures_grow :
      (options : RestoreOptions) (dumps : List MemoryDump) (c : PtraceController) (flow : Flow)
      (k : K)
      → All IsFitting dumps
      → options.handle_aslr ≡ false
      → failures flow ≤ failures (restore_dumps kernel options dumps c flow k).0
  unfolding restore_dumps restore_dump failures
  failures_grow options dumps c (stopped r) k fits still = omega arith
  failures_grow options [] c (going r) k fits still = omega arith
  failures_grow options (d ∷ dumps) c (going r) k fits still =
      let (flow, k') = restore_writable kernel d.region.writable options d c r k in
      let rest = failures_grow options dumps c flow k' fits.1 still in
      elim (restore_writable_lem d.region.writable options d c r k still fits.0) [
        | inl more ↦ omega (arith, rest, more)
        | inr (r', same, count, _, _) ↦ omega (arith, rest, ap failures same, count)
      ]

  -- All dumps, if none fails.
  pub restore_dumps_lem :
      (options : RestoreOptions) (dumps : List MemoryDump) (c : PtraceController)
      (r : RestoreResult) (k : K)
      → options.handle_aslr ≡ false
      → All IsFitting dumps
      → failures (restore_dumps kernel options dumps c (going r) k).0 ≡ 0
      → let k' = (restore_dumps kernel options dumps c (going r) k).1 in
        (laws.memory k' c.pid ≡ write_dumps dumps (laws.memory k c.pid))
        × (laws.registers k' c.pid ≡ laws.registers k c.pid)
  unfolding restore_dumps restore_dump write_dumps
  restore_dumps_lem options [] c r k still fits none_failed = (refl, refl)
  restore_dumps_lem options (d ∷ dumps) c r k still fits none_failed =
      let (flow, k') = restore_writable kernel d.region.writable options d c r k in
      elim (restore_writable_lem d.region.writable options d c r k still fits.0) [
        | inl more ↦
            absurd
              (omega (arith, failures_grow options dumps c flow k' fits.1 still, more, none_failed))
        | inr (r', same, count, memory, registers) ↦
            let (memory', registers') =
              restore_dumps_lem options dumps c r' k' still fits.1
                (rw (same, restore_dumps) at none_failed) in
            rw (same, restore_dumps)
              (memory' ∙ ap (write_dumps dumps) memory, registers' ∙ registers)
      ]
