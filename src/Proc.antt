-- ===== src/Proc.antt =====
-- `ProcFSReader` (src/real_process/proc_reader.cpp) and `PtraceController::isStopped`
-- (src/real_process/ptrace_controller.cpp): what they make of a file under /proc, whose content is
-- an argument, empty if it cannot be read.
pub mod Laws
use process_snapshot.Prelude.{
  ℕ, Text, List, [], ◌∷◌, ◌++◌, Option, none, some, Bool, true, false, not, ◌&&◌, ◌||◌, ◌==◌,
  if◌then◌else◌,
}
use process_snapshot.Memory.{MemoryRegion, is_anonymous, is_heap, is_stack, is_vdso}
use process_snapshot.Snapshot.{LinuxProcessState, char_to_linux_state}
use process_snapshot.MemoryManager.Compare.{is_empty}

-- The strings between the bytes 0, without empty ones and without what is behind the last 0.
unfoldable pub split_nul : Text → Text → List Text
split_nul current [] = []
split_nul current (c ∷ s) =
    let fresh = split_nul [] s in
    let longer = split_nul (current ++ c ∷ []) s in
    if c == 0 then if is_empty current then fresh else current ∷ fresh else longer

unfoldable pub get_environment : Text → List Text
get_environment content = split_nul [] content

unfoldable pub or_here : Option Text → Bool → Text → Option Text
or_here (some t) here s = some t
or_here none here s = if here then some s else none

-- What is behind the last `c`, as `rfind` finds it.
unfoldable pub after_last : ℕ → Text → Option Text
after_last c [] = none
after_last c (x ∷ s) = or_here (after_last c s) (x == c) s

-- The character two places behind the last `)`.
unfoldable pub state_char : Option Text → Option ℕ
state_char none = none
state_char (some []) = none
state_char (some (x ∷ [])) = none
state_char (some (x ∷ y ∷ s)) = some y

unfoldable pub state_of : Option ℕ → LinuxProcessState
state_of none = LinuxProcessState.unknown
state_of (some c) = char_to_linux_state c

unfoldable pub get_process_state : Text → LinuxProcessState
get_process_state stat = state_of (state_char (after_last b')' stat))

unfoldable pub is_stop_char : Option ℕ → Bool
is_stop_char none = false
is_stop_char (some c) = c == b'T' || c == b't'

unfoldable pub first_line : Text → Text
first_line [] = []
first_line (c ∷ s) = let rest = first_line s in if c == 10 then [] else c ∷ rest

-- `none` for a file that cannot be opened.
unfoldable pub is_stopped : ℕ → Option Text → Bool
is_stopped pid none = false
is_stopped pid (some stat) =
    if pid == 0 then false else is_stop_char (state_char (after_last b')' (first_line stat)))

unfoldable pub drop_trailing : ℕ → Text → Text
drop_trailing c [] = []
drop_trailing c (x ∷ []) = if x == c then [] else x ∷ []
drop_trailing c (x ∷ y ∷ s) = x ∷ drop_trailing c (y ∷ s)

unfoldable pub get_process_name : Text → Text
get_process_name comm = drop_trailing 10 comm

unfoldable pub nul_to_space : Text → Text
nul_to_space [] = []
nul_to_space (c ∷ s) = (if c == 0 then b' ' else c) ∷ nul_to_space s

unfoldable pub get_process_cmdline : Text → Text
get_process_cmdline cmdline = drop_trailing b' ' (nul_to_space cmdline)

unfoldable pub regions_such : (MemoryRegion → Bool) → List MemoryRegion → List MemoryRegion
regions_such test [] = []
regions_such test (r ∷ maps) =
    let rest = regions_such test maps in if test r then r ∷ rest else rest

unfoldable pub get_stack_regions : List MemoryRegion → List MemoryRegion
get_stack_regions maps = regions_such is_stack maps

unfoldable pub get_heap_regions : List MemoryRegion → List MemoryRegion
get_heap_regions maps = regions_such is_heap maps

unfoldable pub get_writable_regions : List MemoryRegion → List MemoryRegion
get_writable_regions maps = regions_such (λ r. r.writable) maps

unfoldable pub get_anonymous_regions : List MemoryRegion → List MemoryRegion
get_anonymous_regions maps = regions_such (λ r. is_anonymous r && not (is_vdso r)) maps
