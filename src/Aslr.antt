-- ===== src/Aslr.antt =====
-- `ASLRHandler` (include/real_process/aslr_handler.hpp, src/real_process/aslr_handler.cpp): where the
-- memory of a process lay at a checkpoint and where it lies now, and moving addresses from the one
-- to the other. A signed offset is its bit pattern; addresses of a process are below 2 ^ 63.
pub mod Relocate
pub mod Strategy
pub mod Laws
pub mod Counts
use process_snapshot.Prelude.{
  ℕ, ◌+◌, ◌-◌, ◌%◌, Text, List, [], ◌∷◌, Option, none, some, Bool, true, false, not, ◌&&◌, ◌||◌,
  ltb, leb, text_eq, ◌==◌, if◌then◌else◌,
}
use process_snapshot.Wire.{u64_mod}
use process_snapshot.Memory.{MemoryRegion, is_file, is_anonymous, is_stack, is_heap, is_vdso}

pub record AddressOffset : Type 0 where
  pub code_offset : ℕ
  pub data_offset : ℕ
  pub heap_offset : ℕ
  pub stack_offset : ℕ
  pub mmap_offset : ℕ

unfoldable pub has_offset : AddressOffset → Bool
has_offset o =
    not (o.code_offset == 0)
    || (not (o.data_offset == 0)
        || (not (o.heap_offset == 0) || (not (o.stack_offset == 0) || not (o.mmap_offset == 0))))

pub data RegionType : Type 0 where
  code data_segment heap stack mmap vdso other : RegionType

unfoldable pub is_code : MemoryRegion → Bool
is_code r = r.executable && (not (is_vdso r) && is_file r.pathname)

-- The pointer that a loop over the regions leaves: the last region that passes the test.
unfoldable pub last_such :
    (MemoryRegion → Bool) → Option MemoryRegion → List MemoryRegion → Option MemoryRegion
last_such test found [] = found
last_such test found (r ∷ regions) = last_such test (if test r then some r else found) regions

unfoldable pub difference : Option MemoryRegion → Option MemoryRegion → ℕ
difference none current = 0
difference (some r) none = 0
difference (some r) (some c) = (c.start_addr + u64_mod - r.start_addr) % u64_mod

unfoldable pub calculate_offsets : List MemoryRegion → List MemoryRegion → AddressOffset
unfolding last_such difference is_code
calculate_offsets checkpoint_map current_map =
    let offset_of : (MemoryRegion → Bool) → ℕ =
      λ test. difference (last_such test none checkpoint_map) (last_such test none current_map) in
    let code_offset = offset_of is_code in
    let heap_offset = offset_of is_heap in
    record {
      code_offset = code_offset;
      data_offset = code_offset;
      heap_offset = heap_offset;
      stack_offset = offset_of is_stack;
      mmap_offset = heap_offset;
    }

abbrev pub contains_addr : ℕ → MemoryRegion → Bool
contains_addr addr r = leb r.start_addr addr && ltb addr r.end_addr

unfoldable pub find_containing_region : ℕ → List MemoryRegion → Option MemoryRegion
find_containing_region addr [] = none
find_containing_region addr (r ∷ regions) =
    if contains_addr addr r then some r else find_containing_region addr regions

unfoldable pub identify_region_type : MemoryRegion → RegionType
identify_region_type r =
    if is_stack r
    then RegionType.stack
    else if is_heap r
    then RegionType.heap
    else if is_vdso r
    then RegionType.vdso
    else if is_file r.pathname
    then if r.executable then RegionType.code else RegionType.data_segment
    else if is_anonymous r
    then RegionType.mmap
    else RegionType.other

unfoldable pub offset_of_type : RegionType → AddressOffset → ℕ
offset_of_type RegionType.code o = o.code_offset
offset_of_type RegionType.data_segment o = o.data_offset
offset_of_type RegionType.heap o = o.heap_offset
offset_of_type RegionType.stack o = o.stack_offset
offset_of_type RegionType.mmap o = o.mmap_offset
offset_of_type RegionType.vdso o = 0
offset_of_type RegionType.other o = 0

unfoldable pub translate_address : ℕ → List MemoryRegion → AddressOffset → ℕ
unfolding find_containing_region identify_region_type offset_of_type
translate_address addr checkpoint_map o = elim (find_containing_region addr checkpoint_map) [
  | none ↦ addr
  | some r ↦ (addr + offset_of_type (identify_region_type r) o) % u64_mod
]

-- The registers that a translation changes, of `LinuxRegisters`; the others stay.
pub record Pointers : Type 0 where
  pub rip : ℕ
  pub rsp : ℕ
  pub rbp : ℕ

unfoldable pub translate_registers : Pointers → AddressOffset → Pointers
translate_registers p o = record {
  rip = (p.rip + o.code_offset) % u64_mod;
  rsp = (p.rsp + o.stack_offset) % u64_mod;
  rbp = (p.rbp + o.stack_offset) % u64_mod;
}

-- `real_path` is what `readlink` gives of the executable.
unfoldable pub get_executable_base_address : Option Text → List MemoryRegion → ℕ
get_executable_base_address none maps = 0
get_executable_base_address (some real_path) [] = 0
get_executable_base_address (some real_path) (r ∷ maps) =
    let rest = get_executable_base_address (some real_path) maps in
    if text_eq r.pathname real_path && r.executable then r.start_addr else rest
