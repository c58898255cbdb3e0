-- ===== src/Memory.antt =====
-- `MemoryRegion` (include/real_process/real_process_types.hpp), and the part of `LinuxRegisters` and
-- `MemoryDump` that the relocation changes or reads. An address is a number below 2 ^ 64.
use process_snapshot.Prelude.{
  ℕ, ◌+◌, ◌-◌, ◌%◌, Text, [], ◌∷◌, Bool, false, not, ◌||◌, codes, starts_with, text_eq, ◌==◌,
}
use process_snapshot.Wire.{u64_mod}

pub record MemoryRegion : Type 0 where
  pub start_addr : ℕ
  pub end_addr : ℕ
  pub readable : Bool
  pub writable : Bool
  pub executable : Bool
  pub is_private : Bool
  pub offset : ℕ
  pub device : Text
  pub inode : ℕ
  pub pathname : Text

-- `s.find(p) != npos`.
unfoldable pub contains : Text → Text → Bool
contains p [] = starts_with p []
contains p (c ∷ s) = starts_with p (c ∷ s) || contains p s

unfoldable pub size : MemoryRegion → ℕ
size r = (r.end_addr + u64_mod - r.start_addr) % u64_mod

-- `!pathname.empty() && pathname[0] == '/'`.
abbrev pub is_file : Text → Bool
is_file [] = false
is_file (c ∷ s) = c == b'/'

unfoldable pub is_anonymous : MemoryRegion → Bool
is_anonymous r = not (is_file r.pathname)

unfoldable pub is_stack : MemoryRegion → Bool
is_stack r = contains (codes "[stack") r.pathname

unfoldable pub is_heap : MemoryRegion → Bool
is_heap r = text_eq r.pathname (codes "[heap]")

unfoldable pub is_vdso : MemoryRegion → Bool
is_vdso r = text_eq r.pathname (codes "[vdso]") || text_eq r.pathname (codes "[vvar]")
