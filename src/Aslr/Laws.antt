-- ===== src/Aslr/Laws.antt =====
-- What the relocation of addresses does.
use process_snapshot.Prelude.{
  ℕ, ◌+◌, ◌-◌, ◌%◌, ◌<◌, ◌≤◌, ◌≡◌, refl, Bytes, List, [], ◌∷◌, ◌++◌, map, Option, none, some, Bool,
  true, false, not, ◌&&◌, ltb, leb, ==_iff, if◌then◌else◌, Bool-cases, Option-cases, inl, inr,
  arith, ap, ◌∙◌, sym, subst, ◌⊎◌,
}
use process_snapshot.Wire.{le_value, le_bytes, u64_bytes, u64_mod}
use process_snapshot.Wire.Laws.{le_value-le_bytes}
use process_snapshot.Memory.{MemoryRegion, is_stack, is_heap}
use process_snapshot.Aslr.{
  AddressOffset, has_offset, RegionType, is_code, last_such, difference, calculate_offsets,
  contains_addr, find_containing_region, identify_region_type, offset_of_type, translate_address,
}
use process_snapshot.Aslr.Relocate.{
  min_addr, max_addr, is_pointer_type, relocated, relocate_word, relocate_words, relocate_pointers,
}

-- The region by which `calculateOffsets` measures how far a type has moved.
abbrev pub last_of : RegionType → List MemoryRegion → Option MemoryRegion
last_of RegionType.code regions = last_such is_code none regions
last_of RegionType.data_segment regions = last_such is_code none regions
last_of RegionType.heap regions = last_such is_heap none regions
last_of RegionType.stack regions = last_such is_stack none regions
last_of RegionType.mmap regions = last_such is_heap none regions
last_of RegionType.vdso regions = none
last_of RegionType.other regions = none

offset_of_type-calculate_offsets :
    (type : RegionType) (before now : List MemoryRegion)
    → offset_of_type type (calculate_offsets before now)
      ≡ difference (last_of type before) (last_of type now)
unfolding offset_of_type calculate_offsets difference
offset_of_type-calculate_offsets RegionType.code before now = refl
offset_of_type-calculate_offsets RegionType.heap before now = refl
offset_of_type-calculate_offsets RegionType.stack before now = refl
offset_of_type-calculate_offsets RegionType.data_segment before now = refl
offset_of_type-calculate_offsets RegionType.mmap before now = refl
offset_of_type-calculate_offsets RegionType.vdso before now = refl
offset_of_type-calculate_offsets RegionType.other before now = refl

-- A region found holds the address.
abbrev Holds : ℕ → Option MemoryRegion → Type 0
Holds addr none = Unit
Holds addr (some r) = (r.start_addr ≤ addr) × (addr < r.end_addr)

find_containing_region-Holds :
    (addr : ℕ) (regions : List MemoryRegion) → Holds addr (find_containing_region addr regions)
unfolding find_containing_region
find_containing_region-Holds addr [] = tt
find_containing_region-Holds addr (q ∷ regions) = elim (Bool-cases (contains_addr addr q)) [
  | inl held ↦ rw held (ground arith, ground arith)
  | inr away ↦ rw away (find_containing_region-Holds addr regions)
]

moved :
    (addr r c : ℕ)
    → r ≤ addr
    → r < u64_mod
    → (addr + (c + u64_mod - r) % u64_mod) % u64_mod ≡ (c + (addr - r)) % u64_mod
moved addr r c h k = omega arith

-- An address in the region by which its type is measured is translated to the address at the same
-- distance from the start of that region in the memory of now.
pub translate_address-distance :
    (addr : ℕ) (before now : List MemoryRegion) (r c : MemoryRegion)
    → find_containing_region addr before ≡ some r
    → last_of (identify_region_type r) before ≡ some r
    → last_of (identify_region_type r) now ≡ some c
    → r.start_addr < u64_mod
    → translate_address addr before (calculate_offsets before now)
      ≡ (c.start_addr + (addr - r.start_addr)) % u64_mod
unfolding translate_address
translate_address-distance addr before now r c found last_before last_now small =
    let offset = offset_of_type-calculate_offsets (identify_region_type r) before now in
    let above = (subst (Holds addr) found (find_containing_region-Holds addr before)).0 in
    rw (found, translate_address)
      (ap (λ x. (addr + x) % u64_mod)
          (offset
            ∙ ap (λ o. difference o (last_of (identify_region_type r) now)) last_before
            ∙ ap (difference (some r)) last_now)
        ∙ (unfold difference in moved addr r.start_addr c.start_addr above small))

-- The words of a dump.
unfoldable pub words : Bytes → List ℕ
words (b0 ∷ b1 ∷ b2 ∷ b3 ∷ b4 ∷ b5 ∷ b6 ∷ b7 ∷ bytes) =
    le_value (b0 ∷ b1 ∷ b2 ∷ b3 ∷ b4 ∷ b5 ∷ b6 ∷ b7 ∷ []) ∷ words bytes
words bytes = []

min_addr-le : (lowest : ℕ) (regions : List MemoryRegion) → min_addr lowest regions ≤ lowest
unfolding min_addr
min_addr-le lowest [] = omega arith
min_addr-le lowest (r ∷ regions) =
    ground (arith, min_addr-le lowest regions, min_addr-le r.start_addr regions)

le-max_addr : (highest : ℕ) (regions : List MemoryRegion) → highest ≤ max_addr highest regions
unfolding max_addr
le-max_addr highest [] = omega arith
le-max_addr highest (r ∷ regions) =
    ground (arith, le-max_addr highest regions, le-max_addr r.end_addr regions)

-- An address in a region is in the range of all of them.
abbrev InRange : ℕ → ℕ → ℕ → List MemoryRegion → Type 0
InRange value lowest highest regions =
    (min_addr lowest regions ≤ value) × (value < max_addr highest regions)

range_cons :
    (value lowest highest : ℕ) (q : MemoryRegion) (regions : List MemoryRegion)
    → contains_addr value q ≡ true
    → InRange value lowest highest (q ∷ regions)
unfolding min_addr max_addr
range_cons value lowest highest q regions held = (
  ground (arith, min_addr-le lowest regions, min_addr-le q.start_addr regions),
  ground (arith, le-max_addr highest regions, le-max_addr q.end_addr regions),
)

find_containing_region-InRange :
    (value : ℕ) (regions : List MemoryRegion) (lowest highest : ℕ) (r : MemoryRegion)
    → find_containing_region value regions ≡ some r
    → InRange value lowest highest regions
unfolding find_containing_region min_addr max_addr
find_containing_region-InRange value [] lowest highest r h = absurd (cc)
find_containing_region-InRange value (q ∷ regions) lowest highest r h =
    elim (Bool-cases (contains_addr value q)) [
      | inl held ↦ range_cons value lowest highest q regions held
      | inr away ↦
          find_containing_region-InRange value regions _ _ r
            (sym (rw (away, find_containing_region) refl) ∙ h)
    ]

in_range :
    (low high value : ℕ) → low ≤ value → value < high → (leb low value && ltb value high) ≡ true
in_range low high value h k = ground arith

word_of : Bool × ℕ → ℕ
word_of w = w.1

either : (b : Bool) (x v : ℕ) → x ≡ v → word_of (if b then (true, x) else (false, v)) ≡ x
unfolding word_of
either true x v h = refl
either false x v h = sym h

-- A word, or another one in its place.
put_back :
    (same : Bool) (b0 b1 b2 b3 b4 b5 b6 b7 v : ℕ) (bytes : Bytes)
    → (same ≡ true → le_value (b0 ∷ b1 ∷ b2 ∷ b3 ∷ b4 ∷ b5 ∷ b6 ∷ b7 ∷ []) ≡ v)
    → (same ≡ false → v < u64_mod)
    → words ((if same then b0 ∷ b1 ∷ b2 ∷ b3 ∷ b4 ∷ b5 ∷ b6 ∷ b7 ∷ [] else u64_bytes v) ++ bytes)
      ≡ v ∷ words bytes
unfolding words u64_bytes le_bytes
put_back true b0 b1 b2 b3 b4 b5 b6 b7 v bytes h k = ap (λ x. x ∷ words bytes) (h refl)
put_back false b0 b1 b2 b3 b4 b5 b6 b7 v bytes h k =
    ap (λ x. x ∷ words bytes) (le_value-le_bytes 8 v (k refl))

module _ (checkpoint_map : List MemoryRegion) (offsets : AddressOffset) (conservative : Bool) where
  -- A word by its region alone: the pointer moved, if its region is of a type that is relocated.
  abbrev pub moved_word : ℕ → ℕ
  moved_word value =
      relocated checkpoint_map offsets conservative (find_containing_region value checkpoint_map)
        value

  -- The test of the range is met by each address in a region.
  relocate_word-moved :
      (value : ℕ) → (relocate_word checkpoint_map offsets conservative value).1 ≡ moved_word value
  unfolding relocate_word relocated word_of
  relocate_word-moved value = elim (Option-cases (find_containing_region value checkpoint_map)) [
    | inl outside ↦
        either _ (moved_word value) value
          (ap (λ o. relocated checkpoint_map offsets conservative o value) outside)
    | inr (r, found) ↦
        let (low, high) =
          find_containing_region-InRange value checkpoint_map 0xffff_ffff_ffff_ffff 0 r found in
        ap (λ b. word_of (if b then (true, moved_word value) else (false, value)))
          (in_range _ _ value low high)
  ]

  translate_address-lt :
      (value : ℕ) (r : MemoryRegion)
      → find_containing_region value checkpoint_map ≡ some r
      → translate_address value checkpoint_map offsets < u64_mod
  unfolding translate_address
  translate_address-lt value r found = rw (found, translate_address) (omega arith)

  moved_word-lt : (value : ℕ) → (moved_word value ≡ value) ⊎ (moved_word value < u64_mod)
  unfolding relocated
  moved_word-lt value = elim (Option-cases (find_containing_region value checkpoint_map)) [
    | inl outside ↦ inl (rw (outside, relocated) refl)
    | inr (r, found) ↦
        elim (Bool-cases (conservative && not (is_pointer_type (identify_region_type r)))) [
          | inl kept ↦ inl (rw (found, relocated) (rw kept refl))
          | inr free ↦ inr (rw (found, relocated) (rw free (translate_address-lt value r found)))
        ]
  ]

  -- Each word of a relocated dump is the word that was there, moved.
  words-relocate_words :
      (address : ℕ) (bytes : Bytes)
      → words (relocate_words checkpoint_map offsets conservative address bytes).1
        ≡ map moved_word (words bytes)
  unfolding relocate_words words
  words-relocate_words address (b0 ∷ b1 ∷ b2 ∷ b3 ∷ b4 ∷ b5 ∷ b6 ∷ b7 ∷ bytes) =
      let value = le_value (b0 ∷ b1 ∷ b2 ∷ b3 ∷ b4 ∷ b5 ∷ b6 ∷ b7 ∷ []) in
      let moved_to = relocate_word-moved value in
      put_back _ b0 b1 b2 b3 b4 b5 b6 b7 (relocate_word checkpoint_map offsets conservative value).1
        _ (λ same. sym ((==_iff _ _).0 same))
        (λ changed. elim (moved_word-lt value) [
          | inl kept ↦ absurd (cc ((==_iff _ _).1 (moved_to ∙ kept), changed))
          | inr small ↦ subst (λ x. x < u64_mod) (sym moved_to) small
        ])
      ∙ ap
          (λ x.
            x
            ∷ words
                (relocate_words checkpoint_map offsets conservative ((address + 8) % u64_mod)
                  bytes).1)
          moved_to
      ∙ ap (λ l. moved_word value ∷ l) (words-relocate_words ((address + 8) % u64_mod) bytes)
  words-relocate_words address bytes = refl

  -- Where something has moved, each word of a relocated dump is the word that was there, moved: the
  -- test of the address range, which comes first in the source, leaves no pointer out.
  pub words-relocate_pointers :
      (start : ℕ) (bytes : Bytes)
      → has_offset offsets ≡ true
      → words (relocate_pointers checkpoint_map offsets conservative (start, bytes)).1
        ≡ map moved_word (words bytes)
  unfolding relocate_pointers
  words-relocate_pointers start bytes moves = rw moves (words-relocate_words start bytes)
