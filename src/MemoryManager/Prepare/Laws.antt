-- ===== src/MemoryManager/Prepare/Laws.antt =====
-- What a preparation that reports success has created.
use process_snapshot.Prelude.{
  ℕ, not, ◌==◌, subst, ◌≡◌, refl, Text, List, [], ◌∷◌, ◌++◌, append-nil, append_assoc, Option, Bool,
  true, false, if◌then◌else◌, Bool-cases, inl, inr, ap, sym, ◌∙◌, if_true, arith,
}
use process_snapshot.Memory.{MemoryRegion, size, is_vdso}
use process_snapshot.Kernel.{Errno, Kernel, IsKernel}
use process_snapshot.Checkpointer.{ProcReader}
use process_snapshot.MemoryManager.{MemoryError}
use process_snapshot.MemoryManager.Compare.{compare_address_space, is_empty}
use process_snapshot.MemoryManager.Inject.{MemoryManager, is_bound, create_mapping}
use process_snapshot.MemoryManager.Inject.Executed.{Sized}
use process_snapshot.MemoryManager.Prepare.Mapped.{Mapped, create_mapping-Executed}
use process_snapshot.MemoryManager.Prepare.{
  PrepareResult, new_result, is_success, with_relocation, allocated, concluded, allocate_region,
  allocate_missing, remove_region, remove_extra, prepare_for_restore,
}

not_attached : is_success MemoryError.process_not_attached ≡ false
unfolding is_success
not_attached = refl

-- The regions that are to be created: those of the kernel are left out.
abbrev pub needed : List MemoryRegion → List MemoryRegion
needed [] = []
needed (r ∷ regions) = if is_vdso r then needed regions else r ∷ needed regions

is_empty-add : (l : List MemoryRegion) (r : MemoryRegion) → is_empty (l ++ r ∷ []) ≡ false
is_empty-add [] r = refl
is_empty-add (s ∷ l) r = refl

needed-cons :
    (r : MemoryRegion) (regions : List MemoryRegion)
    → needed (r ∷ []) ++ needed regions ≡ needed (r ∷ regions)
needed-cons r regions = elim (Bool-cases (is_vdso r)) [
  | inl vdso ↦ rw vdso refl
  | inr plain ↦ rw plain refl
]

abbrev Keeps : PrepareResult → PrepareResult → Type 0
Keeps a b = (a.failed_regions ≡ b.failed_regions) × (a.created_regions ≡ b.created_regions)

concluded-success :
    (result : PrepareResult)
    → is_success (concluded result).error ≡ true
    → (is_empty result.failed_regions ≡ true) × (concluded result ≡ result)
unfolding concluded is_success
concluded-success result h = elim (Bool-cases (is_empty result.failed_regions)) [
  | inl none_failed ↦ (none_failed, if_true _ _ none_failed)
  | inr some_failed ↦ absurd (cc (rw some_failed at h))
]

module _ {K : Type 0} (kernel : Kernel K) (strerror : Errno → Text) (errno : K → Option Errno)
    (laws : IsKernel kernel) where
  Mapped-append :
      (p : ℕ) (a b : List MemoryRegion) (k k1 k2 : K)
      → Mapped kernel strerror errno laws p a k k1
      → Mapped kernel strerror errno laws p b k1 k2
      → Mapped kernel strerror errno laws p (a ++ b) k k2
  Mapped-append p [] b k k1 k2 none_made made =
      subst (λ x. Mapped kernel strerror errno laws p b x k2) none_made made
  Mapped-append p (r ∷ a) b k k1 k2 (result, x, run, placed, rest) made =
      (result, x, run, placed, Mapped-append p a b x k1 k2 rest made)

  -- Nothing failed before, and the regions were created and reported.
  abbrev Creates :
      ℕ → List MemoryRegion → PrepareResult → K → PrepareResult × MemoryManager × K → Type 0
  Creates p regions result k x =
      (is_empty result.failed_regions ≡ true)
      × (x.0.created_regions ≡ result.created_regions ++ regions)
      × Mapped kernel strerror errno laws p regions k x.2
      × (x.1.pid ≡ p)

  allocate_region_lem :
      (r : MemoryRegion) (result : PrepareResult) (m : MemoryManager) (k : K)
      → Sized kernel strerror errno laws m.pid
      → is_bound m ≡ true
      → is_empty (allocate_region kernel strerror errno r result m k).0.failed_regions ≡ true
      → Creates m.pid
          (needed (r ∷ []))
          result
          k
          (allocate_region kernel strerror errno r result m k)
  unfolding allocate_region allocated
  allocate_region_lem r result m k sized bound h = elim (Bool-cases (is_vdso r)) [
    | inl vdso ↦ rw vdso (rw vdso at h, sym (append-nil _), refl, refl)
    | inr plain ↦ elim (Bool-cases result.needs_relocation) [
      | inl moved ↦ absurd (cc (is_empty-add result.failed_regions r, rw (plain, moved) at h))
      | inr fixed ↦
          let (error, m1, k1) =
            create_mapping kernel strerror errno r.start_addr (size r) r.readable r.writable
              r.executable true m k in
          elim (Bool-cases (is_success error)) [
            | inl ok ↦
                let (value, run, placed, pid) =
                  create_mapping-Executed kernel strerror errno laws r m k sized bound ok in
                rw (plain, fixed, ok)
                  (rw (plain, fixed, ok) at h, refl, (value, k1, run, placed, refl), pid)
            | inr bad ↦
                absurd (cc (is_empty-add result.failed_regions r, rw (plain, fixed, bad) at h))
          ]
    ]
  ]

  allocate_region-failed :
      (r : MemoryRegion) (result : PrepareResult) (m : MemoryManager) (k : K)
      → is_empty (allocate_region kernel strerror errno r result m k).0.failed_regions ≡ true
      → is_empty result.failed_regions ≡ true
  unfolding allocate_region allocated
  allocate_region-failed r result m k h =
      let add = is_empty-add result.failed_regions r in
      let error =
        (create_mapping kernel strerror errno r.start_addr (size r) r.readable r.writable
          r.executable true m k).0 in
      elim (Bool-cases (is_vdso r)) [
        | inl vdso ↦ rw vdso at h
        | inr plain ↦ elim (Bool-cases result.needs_relocation) [
          | inl moved ↦ absurd (cc (add, rw (plain, moved) at h))
          | inr fixed ↦ elim (Bool-cases (is_success error)) [
            | inl ok ↦ rw (plain, fixed, ok) at h
            | inr bad ↦ absurd (cc (add, rw (plain, fixed, bad) at h))
          ]
        ]
      ]

  -- Regions that failed stay so.
  allocate_missing-failed :
      (regions : List MemoryRegion) (result : PrepareResult) (m : MemoryManager) (k : K)
      → is_empty (allocate_missing kernel strerror errno regions result m k).0.failed_regions ≡ true
      → is_empty result.failed_regions ≡ true
  unfolding allocate_missing
  allocate_missing-failed [] result m k h = h
  allocate_missing-failed (r ∷ regions) result m k h =
      let (result', m', k') = allocate_region kernel strerror errno r result m k in
      allocate_region-failed r result m k (allocate_missing-failed regions result' m' k' h)

  allocate_missing_lem :
      (regions : List MemoryRegion) (result : PrepareResult) (m : MemoryManager) (k : K) (p : ℕ)
      → m.pid ≡ p
      → Sized kernel strerror errno laws p
      → (p == 0) ≡ false
      → is_empty (allocate_missing kernel strerror errno regions result m k).0.failed_regions ≡ true
      → Creates p
          (needed regions)
          result
          k
          (allocate_missing kernel strerror errno regions result m k)
  unfolding allocate_missing
  allocate_missing_lem [] result m k p same sized bound h = (h, sym (append-nil _), refl, same)
  allocate_missing_lem (r ∷ regions) result m k p same sized bound h =
      let here = allocate_region kernel strerror errno r result m k in
      let (result', m', k') = here in
      let this : is_empty result'.failed_regions ≡ true
          → Creates p (needed (r ∷ [])) result k here =
        λ empty.
          subst (λ q. Creates q (needed (r ∷ [])) result k here) same
            (allocate_region_lem r result m k
              (subst (Sized kernel strerror errno laws) (sym same) sized)
              (ap (λ q. not (q == 0)) same ∙ ap not bound) empty) in
      let (start, first, mapped_first, pid) =
        this (allocate_missing-failed regions result' m' k' h) in
      let (below, made, mapped, last) =
        allocate_missing_lem regions result' m' k' p pid sized bound h in
      let all = allocate_missing kernel strerror errno regions result' m' k' in
      (
        start,
        made
            ∙ ap (λ l. l ++ needed regions) first
            ∙ append_assoc result.created_regions (needed (r ∷ [])) (needed regions)
            ∙ ap (λ l. result.created_regions ++ l) (needed-cons r regions),
        subst (λ l. Mapped kernel strerror errno laws p l k all.2) (needed-cons r regions)
            (Mapped-append p (needed (r ∷ [])) (needed regions) k k' all.2 mapped_first mapped),
        last,
      )

  remove_region_lem :
      (r : MemoryRegion) (result : PrepareResult) (m : MemoryManager) (k : K)
      → Keeps (remove_region kernel strerror errno r result m k).0 result
  unfolding remove_region
  remove_region_lem r result m k = (ground arith, ground arith)

  remove_extra_lem :
      (regions : List MemoryRegion) (result : PrepareResult) (m : MemoryManager) (k : K)
      → Keeps (remove_extra kernel strerror errno regions result m k).0 result
  unfolding remove_extra
  remove_extra_lem [] result m k = (refl, refl)
  remove_extra_lem (r ∷ regions) result m k =
      let (result', m', k') = remove_region kernel strerror errno r result m k in
      let (f, c) = remove_extra_lem regions result' m' k' in
      let (f', c') = remove_region_lem r result m k in (f ∙ f', c ∙ c')

  maybe_removed :
      (remove : Bool) (regions : List MemoryRegion) (result : PrepareResult) (m : MemoryManager)
      (k : K)
      → Keeps
          (if remove
            then remove_extra kernel strerror errno regions result m k
            else (result, m, k)).0
          result
  maybe_removed true regions result m k = remove_extra_lem regions result m k
  maybe_removed false regions result m k = (refl, refl)

  -- Where the process has 27 registers and prepareForRestore is to allocate and reports success: in
  -- order, the process has executed one `mmap` for each region that the comparison found missing, but
  -- for those of the kernel, with the bounds and the permissions of the region; each returned no error,
  -- and the address of the region, unless that is 0. Only the removal of extra regions comes behind,
  -- and the result reports these regions as created.
  pub prepare_for_restore_lem :
      (reader : ProcReader K) (checkpoint_map : List MemoryRegion) (remove : Bool)
      (m : MemoryManager) (k : K)
      → Sized kernel strerror errno laws m.pid
      → let (result, m', k') =
          prepare_for_restore kernel strerror errno reader checkpoint_map true remove m k in
        let c = compare_address_space checkpoint_map (reader.get_memory_maps m.pid k) in
        is_success result.error ≡ true
        → (result.created_regions ≡ needed c.missing)
          × ((start : PrepareResult) × (m1 : MemoryManager) × (k1 : K) × Mapped kernel strerror
                errno laws m.pid
                (needed c.missing)
                k
                k1
              × (k'
                  ≡ (if remove
                      then remove_extra kernel strerror errno c.extra start m1 k1
                      else (start, m1, k1)).2))
  unfolding prepare_for_restore
  prepare_for_restore_lem reader checkpoint_map remove m k sized h =
      elim (Bool-cases (m.pid == 0)) [
        | inl free ↦ absurd (cc (not_attached, rw free at h))
        | inr bound ↦
            let c = compare_address_space checkpoint_map (reader.get_memory_maps m.pid k) in
            let start = with_relocation c new_result in
            let (result1, m1, k1) = allocate_missing kernel strerror errno c.missing start m k in
            let result2 =
              (if remove
                then remove_extra kernel strerror errno c.extra result1 m1 k1
                else (result1, m1, k1)).0 in
            let (kept_failed, kept_created) = maybe_removed remove c.extra result1 m1 k1 in
            let (none_failed, same) = concluded-success result2 (rw bound at h) in
            let (blank, made, mapped, pid) =
              allocate_missing_lem c.missing start m k m.pid refl sized bound
                (ap (λ l. is_empty l) (sym kept_failed) ∙ none_failed) in
            let empty : start.created_regions ≡ [] = unfold with_relocation in ground arith in
            rw bound (
              ap (λ (x : PrepareResult). x.created_regions) same
                  ∙ kept_created
                  ∙ made
                  ∙ ap (λ l. l ++ needed c.missing) empty,
              (result1, m1, k1, mapped, refl),
            )
      ]
