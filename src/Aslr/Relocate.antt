-- ===== src/Aslr/Relocate.antt =====
-- `relocatePointers` (src/real_process/aslr_handler.cpp). The bytes behind the last whole word stay.
use process_snapshot.Prelude.{
  ℕ, suc, ◌+◌, ◌%◌, Bytes, List, [], ◌∷◌, ◌++◌, Option, none, some, Bool, true, false, not, ◌&&◌,
  ltb, leb, ◌==◌, if◌then◌else◌,
}
use process_snapshot.Wire.{le_value, u64_bytes, u64_mod}
use process_snapshot.Memory.{MemoryRegion}
use process_snapshot.Aslr.{
  AddressOffset, has_offset, RegionType, find_containing_region, identify_region_type,
  translate_address,
}

pub record RelocationResult : Type 0 where
  pub pointers_found : ℕ
  pub pointers_relocated : ℕ
  pub relocated_addresses : List ℕ

abbrev pub empty_result : RelocationResult
empty_result = record { pointers_found = 0; pointers_relocated = 0; relocated_addresses = [] }

unfoldable pub min_addr : ℕ → List MemoryRegion → ℕ
min_addr lowest [] = lowest
min_addr lowest (r ∷ regions) =
    min_addr (if ltb r.start_addr lowest then r.start_addr else lowest) regions

unfoldable pub max_addr : ℕ → List MemoryRegion → ℕ
max_addr highest [] = highest
max_addr highest (r ∷ regions) =
    max_addr (if ltb highest r.end_addr then r.end_addr else highest) regions

abbrev pub is_pointer_type : RegionType → Bool
is_pointer_type RegionType.code = true
is_pointer_type RegionType.stack = true
is_pointer_type RegionType.heap = true
is_pointer_type _ = false

-- The counters behind the round of a word.
unfoldable pub add_word : ℕ → ℕ → Bool × ℕ → RelocationResult → RelocationResult
add_word address value (found, new) result =
    let counted = record result {
      pointers_found = if found then suc result.pointers_found else result.pointers_found;
    } in
    if new == value then counted else record counted {
      pointers_relocated = suc result.pointers_relocated;
      relocated_addresses = address ∷ result.relocated_addresses;
    }

module _ (checkpoint_map : List MemoryRegion) (offsets : AddressOffset) (conservative : Bool) where
  -- The word in place of a value in the range of the addresses.
  unfoldable pub relocated : Option MemoryRegion → ℕ → ℕ
  relocated none value = value
  relocated (some r) value =
      if conservative && not (is_pointer_type (identify_region_type r))
      then value
      else translate_address value checkpoint_map offsets

  -- The round of one word, which lies at an address: whether it is counted as found, and the new
  -- word.
  unfoldable pub relocate_word : ℕ → Bool × ℕ
  unfolding relocated min_addr max_addr
  relocate_word value =
      if leb (min_addr 0xffff_ffff_ffff_ffff checkpoint_map) value
        && ltb value (max_addr 0 checkpoint_map)
      then (true, relocated (find_containing_region value checkpoint_map) value)
      else (false, value)

  -- The words from an address on.
  unfoldable pub relocate_words : ℕ → Bytes → RelocationResult × Bytes
  unfolding relocate_word add_word
  relocate_words address (b0 ∷ b1 ∷ b2 ∷ b3 ∷ b4 ∷ b5 ∷ b6 ∷ b7 ∷ bytes) =
      let word = b0 ∷ b1 ∷ b2 ∷ b3 ∷ b4 ∷ b5 ∷ b6 ∷ b7 ∷ [] in
      let value = le_value word in
      let step = relocate_word value in
      let (result, bytes') = relocate_words ((address + 8) % u64_mod) bytes in
      (
        add_word address value step result,
        (if step.1 == value then word else u64_bytes step.1) ++ bytes',
      )
  relocate_words address bytes = (empty_result, bytes)

  -- The dump is the start address of its region and its data.
  unfoldable pub relocate_pointers : ℕ × Bytes → RelocationResult × Bytes
  unfolding relocate_words
  relocate_pointers (start, bytes) =
      if has_offset offsets then relocate_words start bytes else (empty_result, bytes)
