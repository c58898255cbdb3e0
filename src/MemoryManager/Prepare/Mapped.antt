-- ===== src/MemoryManager/Prepare/Mapped.antt =====
-- Regions that are mapped by system calls of the process itself.
use process_snapshot.Prelude.{
  ℕ, ◌+◌, ◌-◌, ◌≡◌, ◌⊎◌, refl, Text, List, [], ◌∷◌, Option, Bool, true, false, not, ◌&&◌, ltb, ◌==◌,
  ==_iff, if◌then◌else◌, Bool-cases, inl, inr, ap₂, subst, arith,
}
use process_snapshot.Wire.{u64_mod}
use process_snapshot.Memory.{MemoryRegion, size}
use process_snapshot.Kernel.{Errno, Kernel, IsKernel}
use process_snapshot.MemoryManager.{to_prot_flags}
use process_snapshot.MemoryManager.Inject.{
  MemoryManager, Syscall, is_bound, inject_syscall, create_mapping, map_flags, minus_one, sys_mmap,
}
use process_snapshot.MemoryManager.Inject.Executed.{Executed, Sized, inject_syscall-Executed}
use process_snapshot.MemoryManager.Prepare.{is_success}

-- `mmap` of a private anonymous mapping with the bounds and the permissions of a region, at its
-- address unless that is 0.
abbrev pub mmap_of : MemoryRegion → Syscall
mmap_of r = record {
  number = 9;
  arg1 = r.start_addr;
  arg2 = size r;
  arg3 =
      (if r.readable then 1 else 0)
      + ((if r.writable then 2 else 0) + (if r.executable then 4 else 0));
  arg4 = if r.start_addr == 0 then 0x22 else 0x32;
  arg5 = 0xFFFFFFFFFFFFFFFF;
  arg6 = 0;
}

prot_sum :
    (readable writable executable : Bool)
    → to_prot_flags readable writable executable
      ≡ (if readable then 1 else 0) + ((if writable then 2 else 0) + (if executable then 4 else 0))
unfolding to_prot_flags
prot_sum true true true = refl
prot_sum true true false = refl
prot_sum true false true = refl
prot_sum true false false = refl
prot_sum false true true = refl
prot_sum false true false = refl
prot_sum false false true = refl
prot_sum false false false = refl

flags_of : (null : Bool) → map_flags (true && not null) ≡ (if null then 0x22 else 0x32)
unfolding map_flags
flags_of true = refl
flags_of false = refl

-- The result is no error, and it is the address that was asked for, unless that is 0.
pub record IsPlaced (r : MemoryRegion) (result : ℕ) : Type 0 where
  pub no_error : ltb (u64_mod - 4096) result ≡ false
  pub at_start : (r.start_addr ≡ 0) ⊎ (result ≡ r.start_addr)

module _ {K : Type 0} (kernel : Kernel K) (strerror : Errno → Text) (errno : K → Option Errno)
    (laws : IsKernel kernel) where
  -- The process has made the call for each region, in order and with nothing between.
  abbrev pub Mapped : ℕ → List MemoryRegion → K → K → Type 0
  Mapped p [] k k' = k' ≡ k
  Mapped p (r ∷ regions) k k' =
      (result : ℕ) × (k1 : K) × Executed kernel strerror errno laws p (mmap_of r) k result k1
      × IsPlaced r result
      × Mapped p regions k1 k'

  placed_at :
      (r : MemoryRegion) (result : ℕ)
      → (not (r.start_addr == 0) && not (result == r.start_addr)) ≡ false
      → (r.start_addr ≡ 0) ⊎ (result ≡ r.start_addr)
  placed_at r result h = elim (Bool-cases (r.start_addr == 0)) [
    | inl null ↦ inl ((==_iff r.start_addr 0).0 null)
    | inr other ↦ inr ((==_iff result r.start_addr).0 (ground (arith, h)))
  ]

  -- A `createMapping` that succeeds has had the process make the call.
  pub create_mapping-Executed :
      (r : MemoryRegion) (m : MemoryManager) (k : K)
      → Sized kernel strerror errno laws m.pid
      → is_bound m ≡ true
      → let (error, m', k') =
          create_mapping kernel strerror errno r.start_addr
            (size r)
            r.readable
            r.writable
            r.executable
            true
            m
            k in
        is_success error ≡ true
        → (result : ℕ) × Executed kernel strerror errno laws m.pid (mmap_of r) k result k'
          × IsPlaced r result
          × (m'.pid ≡ m.pid)
  unfolding create_mapping is_success
  create_mapping-Executed r m k sized bound h =
      let call : Syscall = record {
        number = sys_mmap;
        arg1 = r.start_addr;
        arg2 = size r;
        arg3 = to_prot_flags r.readable r.writable r.executable;
        arg4 = map_flags (true && not (r.start_addr == 0));
        arg5 = minus_one;
        arg6 = 0;
      } in
      let (result, m1, k1) = inject_syscall kernel strerror errno call m k in
      let same : call ≡ mmap_of r =
        ap₂ (λ prot flags. record (mmap_of r) { arg3 = prot; arg4 = flags })
          (prot_sum r.readable r.writable r.executable) (flags_of (r.start_addr == 0)) in
      elim (Bool-cases (ltb (u64_mod - 4096) result)) [
        | inl bad ↦ absurd (cc (rw (bound, bad) at h))
        | inr good ↦ elim (Bool-cases (not (r.start_addr == 0) && not (result == r.start_addr))) [
          | inl elsewhere ↦ absurd (cc (rw (bound, good, elsewhere) at h))
          | inr here ↦
              let (run, pid) =
                inject_syscall-Executed kernel strerror errno laws call m k sized
                  (λ e. absurd (ground (arith, good, e))) in
              rw (bound, good, here)
                (
                  result,
                  subst (λ c. Executed kernel strerror errno laws m.pid c k result k1) same run,
                  record { no_error = good; at_start = placed_at r result here },
                  pid,
                )
        ]
      ]
