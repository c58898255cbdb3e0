-- ===== src/MemoryManager/Compare.antt =====
-- `MemoryManager::compareAddressSpace` and `detectASLROffset` (src/real_process/memory_manager.cpp).
-- An offset is the bit pattern of an `int64_t`. Of the set of matched addresses only its elements
-- are looked at, so it is a list.
pub mod Laws
use process_snapshot.Prelude.{
  ℕ, ◌+◌, ◌%◌, ◌≡◌, refl, List, [], ◌∷◌, ◌++◌, Option, none, some, Bool, true, false, not, ◌&&◌,
  ◌||◌, ◌==◌, ==_iff, map, if◌then◌else◌, Bool-cases, inl, inr, Option-cases, arith, ap, ap₂, sym,
  ◌∙◌, if_true, if_false,
}
use process_snapshot.Wire.{u64_mod}
use process_snapshot.OrderedMap.{contains, find, insert}
use process_snapshot.OrderedMap.Laws.{find-insert}
use process_snapshot.Memory.{MemoryRegion, size, is_stack, is_heap}
use process_snapshot.Aslr.{last_such, difference}

pub record AddressSpaceComparison : Type 0 where
  pub matching : List MemoryRegion
  pub missing : List MemoryRegion
  pub extra : List MemoryRegion
  pub moved : List (MemoryRegion × MemoryRegion)
  pub aslr_detected : Bool
  pub stack_offset : ℕ
  pub heap_offset : ℕ
  pub base_offset : ℕ

abbrev pub is_empty {ℓ} : {A : Type ℓ} → List A → Bool
is_empty [] = true
is_empty (a ∷ rest) = false

unfoldable pub has_changes : AddressSpaceComparison → Bool
has_changes c = not (is_empty c.missing) || (not (is_empty c.extra) || not (is_empty c.moved))

-- `currentByAddr`: the regions over those that are there, a later one in place of an earlier one.
unfoldable pub by_address : List MemoryRegion → List (ℕ × MemoryRegion) → List (ℕ × MemoryRegion)
by_address [] index = index
by_address (r ∷ regions) index = by_address regions (insert r.start_addr r index)

-- Before the regions are compared.
unfoldable pub offsets : List MemoryRegion → List MemoryRegion → AddressSpaceComparison
offsets checkpoint_map current_map =
    let stack =
      difference (last_such is_stack none checkpoint_map) (last_such is_stack none current_map) in
    let heap =
      difference (last_such is_heap none checkpoint_map) (last_such is_heap none current_map) in
    record {
      matching = [];
      missing = [];
      extra = [];
      moved = [];
      aslr_detected = not (stack == 0) || not (heap == 0);
      stack_offset = stack;
      heap_offset = heap;
      base_offset = 0;
    }

abbrev pub add_missing : MemoryRegion → AddressSpaceComparison → AddressSpaceComparison
add_missing r c = record c { missing = c.missing ++ r ∷ [] }

-- A region that is not at its address, and what is at the expected one.
unfoldable pub compare_moved :
    MemoryRegion
    → ℕ
    → Option MemoryRegion
    → AddressSpaceComparison
    → List ℕ
    → AddressSpaceComparison × List ℕ
compare_moved r expected none c matched = (add_missing r c, matched)
compare_moved r expected (some cur) c matched =
    if size cur == size r
    then (record c { moved = c.moved ++ (r, cur) ∷ [] }, expected ∷ matched)
    else (add_missing r c, matched)

unfoldable pub offset_of : MemoryRegion → AddressSpaceComparison → ℕ
offset_of r c =
    if is_stack r then c.stack_offset else if is_heap r then c.heap_offset else c.base_offset

-- A region, and what is at its address.
unfoldable pub compare_found :
    List (ℕ × MemoryRegion)
    → MemoryRegion
    → Option MemoryRegion
    → AddressSpaceComparison
    → List ℕ
    → AddressSpaceComparison × List ℕ
compare_found index r none c matched =
    let expected = (r.start_addr + offset_of r c) % u64_mod in
    if c.aslr_detected
    then compare_moved r expected (find expected index) c matched
    else (add_missing r c, matched)
compare_found index r (some cur) c matched =
    if size r == size cur
    then (record c { matching = c.matching ++ r ∷ [] }, r.start_addr ∷ matched)
    else (add_missing r c, r.start_addr ∷ matched)

unfoldable pub compare_regions :
    List (ℕ × MemoryRegion)
    → List MemoryRegion
    → AddressSpaceComparison
    → List ℕ
    → AddressSpaceComparison × List ℕ
compare_regions index [] c matched = (c, matched)
compare_regions index (r ∷ regions) c matched =
    let (c', matched') = compare_found index r (find r.start_addr index) c matched in
    compare_regions index regions c' matched'

unfoldable pub extra_regions : List ℕ → List MemoryRegion → List MemoryRegion
extra_regions matched [] = []
extra_regions matched (cur ∷ current_map) =
    let rest = extra_regions matched current_map in
    if contains cur.start_addr matched then rest else cur ∷ rest

unfoldable pub compare_address_space :
    List MemoryRegion → List MemoryRegion → AddressSpaceComparison
compare_address_space checkpoint_map current_map =
    let (c, matched) =
      compare_regions (by_address current_map []) checkpoint_map
        (offsets checkpoint_map current_map) [] in
    record c { extra = extra_regions matched current_map }

unfoldable pub detect_aslr_offset : List MemoryRegion → List MemoryRegion → ℕ
detect_aslr_offset checkpoint_map current_map =
    let c = compare_address_space checkpoint_map current_map in
    if not c.aslr_detected
    then 0
    else if not (c.heap_offset == 0)
    then c.heap_offset
    else c.stack_offset
