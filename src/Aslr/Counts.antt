-- ===== src/Aslr/Counts.antt =====
-- The counters of a relocation, and what no offset means.
use process_snapshot.Prelude.{
  ℕ, ◌+◌, ◌*◌, ◌%◌, ◌<◌, ◌≤◌, ◌≡◌, refl, Bytes, List, [], ◌∷◌, ◌++◌, Bool, true, false, ◌==◌,
  ==_iff, if◌then◌else◌, length, length-append, Bool-cases, Option-cases, inl, inr, arith, subst,
}
use process_snapshot.Wire.{le_value, u64_bytes, u64_mod}
use process_snapshot.Wire.Laws.{length-u64_bytes}
use process_snapshot.Memory.{MemoryRegion}
use process_snapshot.Aslr.{
  AddressOffset, has_offset, RegionType, calculate_offsets, find_containing_region,
  identify_region_type, offset_of_type, translate_address,
}
use process_snapshot.Aslr.Relocate.{
  RelocationResult, empty_result, relocate_word, add_word, relocate_words, relocate_pointers,
}
use process_snapshot.Aslr.Strategy.{
  RestoreStrategy, strategy_of, recommend_strategy, can_direct_restore,
}

-- What is true of the counters of a dump.
pub record IsCounted (r : RelocationResult) (size : ℕ) : Type 0 where
  pub relocated_le_found : r.pointers_relocated ≤ r.pointers_found
  pub addresses : length r.relocated_addresses ≡ r.pointers_relocated
  pub found_le_words : 8 * r.pointers_found ≤ size

add_word-IsCounted :
    (address value new : ℕ) (found : Bool) (r : RelocationResult) (size : ℕ)
    → (found ≡ false → new ≡ value)
    → IsCounted r size
    → IsCounted (add_word address value (found, new) r) (8 + size)
unfolding add_word
add_word-IsCounted address value new true r size h c = elim (Bool-cases (new == value)) [
  | inl same ↦ rw same (record {
    relocated_le_found = omega arith;
    addresses = c.addresses;
    found_le_words = omega arith;
  })
  | inr other ↦ rw other (record {
    relocated_le_found = omega arith;
    addresses = omega arith;
    found_le_words = omega arith;
  })
]
add_word-IsCounted address value new false r size h c = rw ((==_iff new value).1 (h refl)) (record {
  relocated_le_found = c.relocated_le_found;
  addresses = c.addresses;
  found_le_words = omega arith;
})

step_of :
    (b : Bool) (x v : ℕ)
    → let w : Bool × ℕ = if b then (true, x) else (false, v) in w.0 ≡ false → w.1 ≡ v
step_of true x v h = absurd (cc)
step_of false x v h = refl

length-put_back :
    (same : Bool) (b0 b1 b2 b3 b4 b5 b6 b7 v : ℕ) (bytes : Bytes)
    → length ((if same then b0 ∷ b1 ∷ b2 ∷ b3 ∷ b4 ∷ b5 ∷ b6 ∷ b7 ∷ [] else u64_bytes v) ++ bytes)
      ≡ 8 + length bytes
length-put_back true b0 b1 b2 b3 b4 b5 b6 b7 v bytes = omega arith
length-put_back false b0 b1 b2 b3 b4 b5 b6 b7 v bytes =
    omega (arith, length-append (u64_bytes v) bytes, length-u64_bytes v)

module _ (checkpoint_map : List MemoryRegion) (offsets : AddressOffset) (conservative : Bool) where
  relocate_word-kept :
      (value : ℕ)
      → (relocate_word checkpoint_map offsets conservative value).0 ≡ false
      → (relocate_word checkpoint_map offsets conservative value).1 ≡ value
  unfolding relocate_word
  relocate_word-kept value h = step_of _ _ value h

  relocate_words-IsCounted :
      (address : ℕ) (bytes : Bytes)
      → IsCounted
          (relocate_words checkpoint_map offsets conservative address bytes).0
          (length bytes)
  unfolding relocate_words
  relocate_words-IsCounted address (b0 ∷ b1 ∷ b2 ∷ b3 ∷ b4 ∷ b5 ∷ b6 ∷ b7 ∷ bytes) =
      let value = le_value (b0 ∷ b1 ∷ b2 ∷ b3 ∷ b4 ∷ b5 ∷ b6 ∷ b7 ∷ []) in
      let (found, new) = relocate_word checkpoint_map offsets conservative value in
      subst (IsCounted _) (omega arith) (
        add_word-IsCounted address value new found
          (relocate_words checkpoint_map offsets conservative ((address + 8) % u64_mod) bytes).0
          (length bytes) (relocate_word-kept value)
          (relocate_words-IsCounted ((address + 8) % u64_mod) bytes))
  relocate_words-IsCounted address bytes = record {
    relocated_le_found = omega arith;
    addresses = refl;
    found_le_words = omega arith;
  }

  length-relocate_words :
      (address : ℕ) (bytes : Bytes)
      → length (relocate_words checkpoint_map offsets conservative address bytes).1 ≡ length bytes
  unfolding relocate_words
  length-relocate_words address (b0 ∷ b1 ∷ b2 ∷ b3 ∷ b4 ∷ b5 ∷ b6 ∷ b7 ∷ bytes) =
      let rest =
        (relocate_words checkpoint_map offsets conservative ((address + 8) % u64_mod) bytes).1 in
      omega (
        arith,
        length-put_back _ b0 b1 b2 b3 b4 b5 b6 b7
            (relocate_word checkpoint_map offsets conservative
              (le_value (b0 ∷ b1 ∷ b2 ∷ b3 ∷ b4 ∷ b5 ∷ b6 ∷ b7 ∷ []))).1
            rest,
        length-relocate_words ((address + 8) % u64_mod) bytes,
      )
  length-relocate_words address bytes = refl

  -- A relocation keeps the length of the dump, relocates no more pointers than it finds, finds no
  -- more than there are words, and reports one address for each pointer that it relocates.
  pub relocate_pointers-IsCounted :
      (start : ℕ) (bytes : Bytes)
      → let (r, bytes') = relocate_pointers checkpoint_map offsets conservative (start, bytes) in
        (length bytes' ≡ length bytes) × IsCounted r (length bytes)
  unfolding relocate_pointers
  relocate_pointers-IsCounted start bytes = elim (Bool-cases (has_offset offsets)) [
    | inl moves ↦ rw moves (length-relocate_words start bytes, relocate_words-IsCounted start bytes)
    | inr still ↦ rw still (
      refl,
      record { relocated_le_found = omega arith; addresses = refl; found_le_words = omega arith },
    )
  ]

no_offset :
    (o : AddressOffset) (type : RegionType) → has_offset o ≡ false → offset_of_type type o ≡ 0
unfolding has_offset offset_of_type
no_offset o RegionType.code h = ground arith
no_offset o RegionType.data_segment h = ground arith
no_offset o RegionType.heap h = ground arith
no_offset o RegionType.stack h = ground arith
no_offset o RegionType.mmap h = ground arith
no_offset o RegionType.vdso h = refl
no_offset o RegionType.other h = refl

translate_address-still :
    (before : List MemoryRegion) (o : AddressOffset) (addr : ℕ)
    → has_offset o ≡ false
    → addr < u64_mod
    → translate_address addr before o ≡ addr
unfolding translate_address
translate_address-still before o addr still small =
    elim (Option-cases (find_containing_region addr before)) [
      | inl outside ↦ rw (outside, translate_address) refl
      | inr (r, found) ↦
          rw (found, translate_address)
            (rw (no_offset o (identify_region_type r) still) (omega (arith, small)))
    ]

-- Where a checkpoint can be restored directly, every address stays as it is, the strategy is the
-- direct one, whatever else is allowed, and a relocation changes no dump.
pub can_direct_restore_lem :
    (before now : List MemoryRegion) (addr start : ℕ) (bytes : Bytes)
    (aslr restart conservative : Bool)
    → can_direct_restore before now ≡ true
    → addr < u64_mod
    → let o = calculate_offsets before now in
      (translate_address addr before o ≡ addr)
      × (recommend_strategy before now aslr restart ≡ RestoreStrategy.direct)
      × (relocate_pointers before o conservative (start, bytes) ≡ (empty_result, bytes))
unfolding can_direct_restore recommend_strategy strategy_of relocate_pointers
can_direct_restore_lem before now addr start bytes aslr restart conservative h small =
    let o = calculate_offsets before now in
    let still : has_offset o ≡ false = ground arith in
    (translate_address-still before o addr still small, rw still refl, rw still refl)
