-- ===== src/Ptrace/Reading.antt =====
-- What reading word by word gives of the memory of the traced process.
use process_snapshot.Prelude.{
  ℕ, zero, suc, ◌+◌, ◌-◌, ◌*◌, ◌%◌, ◌≤◌, ◌<◌, ◌≡◌, refl, Bytes, ◌++◌, Option, none, some, true,
  length, take, leb, ◌==◌, ==_iff, not, ◌||◌, min, inl, inr, Bool-cases, Option-cases, arith, ap,
  ap₂, append-nil, sym, ◌∙◌, take-all,
}
use process_snapshot.Wire.{le_bytes, u64_mod}
use process_snapshot.Memory.{MemoryRegion, size, is_vdso}
use process_snapshot.Kernel.{Kernel, IsKernel}
use process_snapshot.Kernel.Memory.{bytes_at, bytes_at-add, length-bytes_at, take-bytes_at}
use process_snapshot.Ptrace.{PtraceController, is_traced}
use process_snapshot.Ptrace.Words.{
  Reading, unread, value, rounds, first_bytes, followed, read_either, peek_data, read_words,
  read_file, read_memory, dumped, dump_memory_region,
}
use process_snapshot.Ptrace.Laws.{peek_data_lem}

followed-value :
    (r s : Reading Bytes) {b : Bytes}
    → followed r s ≡ value b
    → (x y : Bytes) × (r ≡ value x) × (s ≡ value y) × (b ≡ x ++ y)
unfolding followed
followed-value (unread e) s h = absurd (cc)
followed-value (value x) (unread e) h = absurd (cc)
followed-value (value x) (value y) h = (x, y, refl, refl, cc)

first_bytes-value :
    (size : ℕ) (r : Reading ℕ) {b : Bytes}
    → first_bytes size r ≡ value b
    → (w : ℕ) × (r ≡ value w) × (b ≡ take (min size 8) (le_bytes 8 w))
unfolding first_bytes
first_bytes-value size (unread e) h = absurd (cc)
first_bytes-value size (value w) h = (w, refl, cc)

-- The bytes of the first word and of the next ones are those of the range.
bytes_at_next :
    (m : ℕ → ℕ) (addr size : ℕ)
    → addr + size < u64_mod
    → take (min size 8) (bytes_at m addr 8) ++ bytes_at m ((addr + 8) % u64_mod) (size - 8)
      ≡ bytes_at m addr size
bytes_at_next m addr size room = elim (Bool-cases (leb size 8)) [
  | inl short ↦
      let n : min size 8 ≡ size = ground (arith, short) in
      let rest : size - 8 ≡ 0 = ground (arith, short) in
      let word : bytes_at m addr 8 ≡ bytes_at m addr (size + (8 - size)) =
        ap (bytes_at m addr) (ground (arith, short)) in
      ap₂ (λ s t. s ++ t) (ap₂ take n word ∙ take-bytes_at m addr size (8 - size))
        (ap (bytes_at m ((addr + 8) % u64_mod)) rest)
      ∙ unfold bytes_at in append-nil (bytes_at m addr size)
  | inr long ↦
      let n : min size 8 ≡ 8 = ground (arith, long) in
      let a : (addr + 8) % u64_mod ≡ addr + 8 = ground (arith, long) in
      ap₂ (λ s t. s ++ t)
        (ap (λ i. take i (bytes_at m addr 8)) n
          ∙ take-all 8 (bytes_at m addr 8) (omega (arith, length-bytes_at m addr 8)))
        (ap (λ b. bytes_at m b (size - 8)) a)
      ∙ sym (bytes_at-add m addr 8 (size - 8))
      ∙ ap (bytes_at m addr) (ground (arith, long))
]

dumped-value :
    (region : MemoryRegion) (r : Reading Bytes)
    → (dumped region r).is_valid ≡ true
    → (b : Bytes) × (r ≡ value b)
unfolding dumped
dumped-value region (unread e) h = absurd (cc)
dumped-value region (value b) h = (b, refl)

module _ {K : Type 0} (kernel : Kernel K) (laws : IsKernel kernel) where
  read_words_lem :
      (n addr size : ℕ) (c : PtraceController) (k : K) {b : Bytes}
      → size ≤ 8 * n
      → 8 * n < size + 8
      → addr + size < u64_mod
      → read_words kernel n addr size c k ≡ value b
      → b ≡ bytes_at (laws.memory k c.pid) addr size
  unfolding read_words
  read_words_lem zero addr size c k up low room h =
      let e : size ≡ 0 = omega arith in rw e (unfold bytes_at in cc)
  read_words_lem (suc n) addr size c k {b = b} up low room h =
      let m = laws.memory k c.pid in
      let (x, y, first, next, whole) =
        followed-value (first_bytes size (peek_data kernel addr c k))
          (read_words kernel n ((addr + 8) % u64_mod) (size - 8) c k) h in
      let (w, word, cut) = first_bytes-value size (peek_data kernel addr c k) first in
      let tail =
        read_words_lem n ((addr + 8) % u64_mod) (size - 8) c k (omega arith) (omega arith)
          (omega arith) next in
      whole
      ∙ ap (λ t. t ++ y) (cut ∙ ap (take (min size 8)) (peek_data_lem kernel laws addr c k word))
      ∙ ap (λ t. take (min size 8) (bytes_at m addr 8) ++ t) tail
      ∙ bytes_at_next m addr size room

  read_file_lem :
      (addr size : ℕ) (fd : Option ℕ) (p : ℕ) (k : K) {b : Bytes}
      → ((d : ℕ) → fd ≡ some d → laws.owner k d ≡ p)
      → read_file kernel addr size fd k ≡ some b
      → b ≡ bytes_at (laws.memory k p) addr size
  unfolding read_file
  read_file_lem addr size none p k own h = absurd (cc)
  read_file_lem addr size (some d) p k {b = b} own h =
      elim (Bool-cases (length (kernel.pread d size addr k) == size)) [
        | inl full ↦
            let whole : kernel.pread d size addr k ≡ b = cc (rw full at h) in
            sym whole
            ∙ laws.pread_lem d size addr k ((==_iff _ size).0 full)
            ∙ ap (λ q. bytes_at (laws.memory k q) addr size) (own d refl)
        | inr less ↦ absurd (cc (rw less at h))
      ]

  -- What a read gives are the bytes of the range, by the file or by words.
  pub read_memory_lem :
      (addr size : ℕ) (c : PtraceController) (k : K) {b : Bytes}
      → ((d : ℕ) → c.mem_fd ≡ some d → laws.owner k d ≡ c.pid)
      → addr + size < u64_mod
      → read_memory kernel addr size c k ≡ value b
      → b ≡ bytes_at (laws.memory k c.pid) addr size
  unfolding read_memory read_either
  read_memory_lem addr size c k {b = b} own room h = elim (Bool-cases (is_traced c)) [
    | inl traced ↦ elim (Option-cases (read_file kernel addr size c.mem_fd k)) [
      | inl no_file ↦
          read_words_lem (rounds size) addr size c k (omega arith) (omega arith) room
            (rw (traced, no_file, read_either) at h)
      | inr (x, file) ↦
          let e : x ≡ b = cc (rw (traced, file, read_either) at h) in
          sym e ∙ read_file_lem addr size c.mem_fd c.pid k own file
    ]
    | inr free ↦ absurd (cc (rw free at h))
  ]

  -- A dump holds the bytes of its region, in the moment when it is made.
  pub dump_memory_region_lem :
      (region : MemoryRegion) (c : PtraceController) (k : K)
      → ((d : ℕ) → c.mem_fd ≡ some d → laws.owner k d ≡ c.pid)
      → region.start_addr + size region < u64_mod
      → (dump_memory_region kernel region c k).is_valid ≡ true
      → ((dump_memory_region kernel region c k).dump_data
          ≡ bytes_at (laws.memory k c.pid) region.start_addr (size region))
        × ((dump_memory_region kernel region c k).region ≡ region)
  unfolding dump_memory_region dumped
  dump_memory_region_lem region c k own room h =
      elim (Bool-cases (is_vdso region || (not region.readable || not (is_traced c)))) [
        | inl skipped ↦ absurd (cc (rw skipped at h))
        | inr taken ↦
            let r = read_memory kernel region.start_addr (size region) c k in
            let (b, read) = dumped-value region r (rw taken at h) in
            rw (taken, read)
              (read_memory_lem region.start_addr (size region) c k own room read, refl)
      ]
