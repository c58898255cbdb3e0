-- ===== src/MemoryManager/Regions.antt =====
-- Tests on the regions of a memory map (src/real_process/memory_manager.cpp).
use process_snapshot.Prelude.{
  ℕ, ◌+◌, ◌%◌, List, [], ◌∷◌, Option, none, some, Bool, false, not, ◌&&◌, ◌||◌, ltb, leb, ◌==◌,
  if◌then◌else◌,
}
use process_snapshot.Wire.{u64_mod}
use process_snapshot.Memory.{MemoryRegion}

unfoldable pub regions_overlap : MemoryRegion → MemoryRegion → Bool
regions_overlap a b = not (leb a.end_addr b.start_addr || leb b.end_addr a.start_addr)

unfoldable pub regions_adjacent : MemoryRegion → MemoryRegion → Bool
regions_adjacent a b = a.end_addr == b.start_addr || b.end_addr == a.start_addr

-- In the regions that `getCurrentMemoryMap` gives.
unfoldable pub region_exists : ℕ → ℕ → List MemoryRegion → Bool
region_exists addr size [] = false
region_exists addr size (r ∷ regions) =
    (leb r.start_addr addr && leb ((addr + size) % u64_mod) r.end_addr)
    || region_exists addr size regions

unfoldable pub find_region : ℕ → List MemoryRegion → Option MemoryRegion
find_region addr [] = none
find_region addr (r ∷ regions) =
    if leb r.start_addr addr && ltb addr r.end_addr then some r else find_region addr regions
