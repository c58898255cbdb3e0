-- ===== src/Checkpointer/Compare.antt =====
-- `RealProcessCheckpointer::compareCheckpoints` (src/real_process/ptrace_controller.cpp). Whether the
-- bytes of padding behind `hasFPU` are equal, which `memcmp` sees too, is an argument.
use process_snapshot.Prelude.{
  ℕ, ◌+◌, ◌%◌, ◌≡◌, ◌↔◌, refl, Text, List, [], ◌∷◌, ◌++◌, map, Bool, true, false, not, ◌&&◌, ◌||◌,
  codes, length, ◌==◌, ==_iff, suc, text_eq, text_eq_refl, text_eq→eq, if◌then◌else◌, Bool-cases,
  inl, inr, if_true, if_false, arith, ap, ap₂, sym, ◌∙◌,
}
use process_snapshot.Wire.{u64_mod}
use process_snapshot.Memory.{MemoryRegion}
use process_snapshot.Snapshot.{
  RealProcessCheckpoint, LinuxRegisters, MemoryDump, FileDescriptorInfo,
}
use process_snapshot.Checkpointer.Restore.{value_at}

pub record CheckpointDiff : Type 0 where
  pub registers_changed : Bool
  pub changed_registers : List Text
  pub memory_changed : Bool
  pub added_regions : List MemoryRegion
  pub removed_regions : List MemoryRegion
  pub modified_regions : List MemoryRegion
  pub total_bytes_changed : ℕ
  pub files_changed : Bool
  pub added_fds : List FileDescriptorInfo
  pub removed_fds : List FileDescriptorInfo

abbrev pub no_diff : CheckpointDiff
no_diff = record {
  registers_changed = false;
  changed_registers = [];
  memory_changed = false;
  added_regions = [];
  removed_regions = [];
  modified_regions = [];
  total_bytes_changed = 0;
  files_changed = false;
  added_fds = [];
  removed_fds = [];
}

-- The registers that are compared one by one, with their places.
abbrev pub named_registers : List (Text × ℕ)
named_registers =
    (codes "rax", 10)
    ∷ (codes "rbx", 5)
    ∷ (codes "rcx", 11)
    ∷ (codes "rdx", 12)
    ∷ (codes "rsp", 19)
    ∷ (codes "rbp", 4)
    ∷ (codes "rip", 16)
    ∷ []

unfoldable pub changed_names : List (Text × ℕ) → List ℕ → List ℕ → List Text
changed_names [] xs ys = []
changed_names ((name, place) ∷ rs) xs ys =
    let rest = changed_names rs xs ys in
    if value_at place xs == value_at place ys then rest else name ∷ rest

unfoldable pub same_flag : Bool → Bool → Bool
same_flag a b = (a && b) || (not a && not b)

unfoldable pub compare_registers :
    Bool → LinuxRegisters → LinuxRegisters → CheckpointDiff → CheckpointDiff
compare_registers same_padding r s diff =
    if text_eq r.general s.general && (same_flag r.has_fpu s.has_fpu && same_padding)
    then diff
    else record diff {
      registers_changed = true;
      changed_registers = changed_names named_registers r.general s.general;
    }

unfoldable pub compare_dump : MemoryDump → MemoryDump → CheckpointDiff → CheckpointDiff
compare_dump d e diff = if text_eq d.dump_data e.dump_data then diff else record diff {
  memory_changed = true;
  modified_regions = diff.modified_regions ++ d.region ∷ [];
  total_bytes_changed = (diff.total_bytes_changed + length d.dump_data) % u64_mod;
}

-- The loop over the dumps, of which there are as many.
unfoldable pub compare_dumps : List MemoryDump → List MemoryDump → CheckpointDiff → CheckpointDiff
compare_dumps [] es diff = diff
compare_dumps (d ∷ ds) [] diff = diff
compare_dumps (d ∷ ds) (e ∷ es) diff = compare_dumps ds es (compare_dump d e diff)

unfoldable pub compare_memory : List MemoryDump → List MemoryDump → CheckpointDiff → CheckpointDiff
compare_memory ds es diff =
    if length ds == length es
    then compare_dumps ds es diff
    else record diff { memory_changed = true }

unfoldable pub compare_files :
    List FileDescriptorInfo → List FileDescriptorInfo → CheckpointDiff → CheckpointDiff
compare_files fs gs diff =
    if length fs == length gs then diff else record diff { files_changed = true }

unfoldable pub compare_checkpoints :
    Bool → RealProcessCheckpoint → RealProcessCheckpoint → CheckpointDiff
compare_checkpoints same_padding a b = compare_files a.file_descriptors b.file_descriptors (
    compare_memory a.memory_dumps b.memory_dumps
      (compare_registers same_padding a.registers b.registers no_diff))

-- The bytes of the dumps, without their regions.
abbrev pub contents : List MemoryDump → List (List ℕ)
contents ds = map (λ (d : MemoryDump). d.dump_data) ds

-- Once the memory has changed it stays so.
compare_dumps-true :
    (ds es : List MemoryDump) (diff : CheckpointDiff)
    → diff.memory_changed ≡ true
    → (compare_dumps ds es diff).memory_changed ≡ true
unfolding compare_dumps
compare_dumps-true [] es diff h = h
compare_dumps-true (d ∷ ds) [] diff h = h
compare_dumps-true (d ∷ ds) (e ∷ es) diff h =
    compare_dumps-true ds es (compare_dump d e diff) (unfold compare_dump in ground (arith, h))

compare_dumps_lem :
    (ds es : List MemoryDump) (diff : CheckpointDiff)
    → length ds ≡ length es
    → diff.memory_changed ≡ false
    → ((compare_dumps ds es diff).memory_changed ≡ false) ↔ (contents ds ≡ contents es)
unfolding compare_dumps
compare_dumps_lem [] [] diff n h = (λ _. refl, λ _. h)
compare_dumps_lem [] (e ∷ es) diff n h = absurd (omega (arith, n))
compare_dumps_lem (d ∷ ds) [] diff n h = absurd (omega (arith, n))
compare_dumps_lem (d ∷ ds) (e ∷ es) diff n h = elim (Bool-cases (text_eq d.dump_data e.dump_data)) [
  | inl same ↦
      let below = compare_dumps_lem ds es diff (omega (arith, n)) h in
      let step : compare_dump d e diff ≡ diff = unfold compare_dump in if_true _ _ same in
      rw (step, compare_dumps)
        (
          λ unchanged.
              ap₂ (λ b bs. b ∷ bs) (text_eq→eq d.dump_data e.dump_data same) (below.0 unchanged),
          λ equal. below.1 (cc),
        )
  | inr other ↦
      let changed : (compare_dump d e diff).memory_changed ≡ true =
        unfold compare_dump in ap (λ (x : CheckpointDiff). x.memory_changed) (if_false _ _ other) in
      let stays = compare_dumps-true ds es (compare_dump d e diff) changed in
      (
        λ unchanged. absurd (cc),
        λ equal.
            let heads : d.dump_data ≡ e.dump_data = cc in
            let met : text_eq d.dump_data e.dump_data ≡ true =
              rw heads (text_eq_refl e.dump_data) in
            absurd (cc),
      )
]

length-contents : (ds es : List MemoryDump) → contents ds ≡ contents es → length ds ≡ length es
length-contents [] [] h = refl
length-contents [] (e ∷ es) h = absurd (cc)
length-contents (d ∷ ds) [] h = absurd (cc)
length-contents (d ∷ ds) (e ∷ es) h = ap suc (length-contents ds es (cc))

compare_memory_lem :
    (ds es : List MemoryDump) (diff : CheckpointDiff)
    → diff.memory_changed ≡ false
    → ((compare_memory ds es diff).memory_changed ≡ false) ↔ (contents ds ≡ contents es)
unfolding compare_memory
compare_memory_lem ds es diff h = elim (Bool-cases (length ds == length es)) [
  | inl same ↦ rw same (compare_dumps_lem ds es diff ((==_iff _ _).0 same) h)
  | inr other ↦ rw other (
    λ unchanged. absurd (cc),
    λ equal. absurd (cc (other, (==_iff (length ds) (length es)).1 (length-contents ds es equal))),
  )
]

-- A comparison reports no change of the memory exactly when the two checkpoints hold as many dumps,
-- of the same bytes one by one.
pub compare_checkpoints_lem :
    (same_padding : Bool) (a b : RealProcessCheckpoint)
    → ((compare_checkpoints same_padding a b).memory_changed ≡ false)
      ↔ (contents a.memory_dumps ≡ contents b.memory_dumps)
unfolding compare_checkpoints
compare_checkpoints_lem same_padding a b =
    let registers = compare_registers same_padding a.registers b.registers no_diff in
    let memory = compare_memory a.memory_dumps b.memory_dumps registers in
    let quiet : registers.memory_changed ≡ false = unfold compare_registers in ground arith in
    let same : (compare_files a.file_descriptors b.file_descriptors memory).memory_changed
        ≡ memory.memory_changed =
      unfold compare_files in ground arith in
    let lem = compare_memory_lem a.memory_dumps b.memory_dumps registers quiet in
    (λ h. lem.0 (sym same ∙ h), λ h. same ∙ lem.1 h)
