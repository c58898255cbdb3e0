-- ===== src/Tests/Aslr.antt =====
-- A heap that has moved and code that has not.
use process_snapshot.Prelude.{
  ℕ, ◌≡◌, refl, Bytes, Text, List, [], ◌∷◌, map, some, Bool, true, false, codes, arith, starts_with,
  text_eq,
}
use process_snapshot.Memory.{MemoryRegion, contains, is_stack, is_heap, is_vdso}
use process_snapshot.Aslr.{
  has_offset, last_such, difference, is_code, calculate_offsets, find_containing_region,
  identify_region_type, translate_address,
}
use process_snapshot.Aslr.Relocate.{empty_result, relocate_pointers}
use process_snapshot.Aslr.Strategy.{RestoreStrategy, recommend_strategy, can_direct_restore}
use process_snapshot.Aslr.Laws.{
  last_of, translate_address-distance, words, moved_word, words-relocate_pointers,
}
use process_snapshot.Aslr.Counts.{can_direct_restore_lem}

abbrev region : ℕ → ℕ → Bool → Text → MemoryRegion
region first last executable name = record {
  start_addr = first;
  end_addr = last;
  readable = true;
  writable = false;
  executable = executable;
  is_private = true;
  offset = 0;
  device = [];
  inode = 0;
  pathname = name;
}

abbrev program : MemoryRegion
program = region 0x40_0000 0x41_0000 true (codes "/x")

abbrev old_heap : MemoryRegion
old_heap = region 0x1000 0x2000 false (codes "[heap]")

abbrev new_heap : MemoryRegion
new_heap = region 0x5000 0x6000 false (codes "[heap]")

abbrev before : List MemoryRegion
before = program ∷ old_heap ∷ []

abbrev now : List MemoryRegion
now = program ∷ new_heap ∷ []

in_old_heap : find_containing_region 0x1008 before ≡ some old_heap
unfolding find_containing_region
in_old_heap = refl

old_last : last_of (identify_region_type old_heap) before ≡ some old_heap
unfolding identify_region_type is_stack is_heap contains starts_with last_such text_eq
old_last = refl

new_last : last_of (identify_region_type old_heap) now ≡ some new_heap
unfolding identify_region_type is_stack is_heap contains starts_with last_such text_eq
new_last = refl

translate_address-distance_example :
    translate_address 0x1008 before (calculate_offsets before now) ≡ 0x5008
translate_address-distance_example =
    translate_address-distance 0x1008 before now old_heap new_heap in_old_heap old_last new_last
      (omega arith)

-- A pointer into the heap and a small number.
abbrev dump : Bytes
dump = 8 ∷ 16 ∷ 0 ∷ 0 ∷ 0 ∷ 0 ∷ 0 ∷ 0 ∷ 7 ∷ 0 ∷ 0 ∷ 0 ∷ 0 ∷ 0 ∷ 0 ∷ 0 ∷ []

has_moved : has_offset (calculate_offsets before now) ≡ true
unfolding has_offset calculate_offsets last_such difference is_code is_heap is_stack is_vdso
    contains starts_with text_eq
has_moved = refl

words-relocate_pointers_example :
    words (relocate_pointers before (calculate_offsets before now) true (0x7000, dump)).1
    ≡ map (moved_word before (calculate_offsets before now) true) (words dump)
words-relocate_pointers_example =
    words-relocate_pointers before (calculate_offsets before now) true 0x7000 dump has_moved

unmoved : can_direct_restore before before ≡ true
unfolding can_direct_restore has_offset calculate_offsets last_such difference is_code is_heap
    is_stack is_vdso contains starts_with text_eq
unmoved = refl

can_direct_restore_lem_example :
    (translate_address 0x1008 before (calculate_offsets before before) ≡ 0x1008)
    × (recommend_strategy before before true true ≡ RestoreStrategy.direct)
    × (relocate_pointers before (calculate_offsets before before) false (0x7000, dump)
        ≡ (empty_result, dump))
can_direct_restore_lem_example =
    can_direct_restore_lem before before 0x1008 0x7000 dump true true false unmoved (omega arith)
