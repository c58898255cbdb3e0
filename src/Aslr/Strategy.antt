-- ===== src/Aslr/Strategy.antt =====
-- `recommendStrategy` and `canDirectRestore` (src/real_process/aslr_handler.cpp).
use process_snapshot.Prelude.{Text, List, Bool, not, ◌&&◌, ◌||◌, codes, ◌==◌, if◌then◌else◌}
use process_snapshot.Memory.{MemoryRegion}
use process_snapshot.Aslr.{AddressOffset, has_offset, calculate_offsets}

pub data RestoreStrategy : Type 0 where
  direct disable_aslr relocate unsupported : RestoreStrategy

unfoldable pub strategy_of : AddressOffset → Bool → Bool → RestoreStrategy
strategy_of o can_disable_aslr can_restart_process =
    let only_code = not (o.code_offset == 0) && (o.heap_offset == 0 && o.stack_offset == 0) in
    if not (has_offset o)
    then RestoreStrategy.direct
    else if can_disable_aslr && can_restart_process
    then RestoreStrategy.disable_aslr
    else if only_code || (o.code_offset == o.data_offset && o.heap_offset == o.stack_offset)
    then RestoreStrategy.relocate
    else RestoreStrategy.unsupported

unfoldable pub recommend_strategy :
    List MemoryRegion → List MemoryRegion → Bool → Bool → RestoreStrategy
unfolding strategy_of
recommend_strategy checkpoint_map current_map can_disable_aslr can_restart_process =
    strategy_of (calculate_offsets checkpoint_map current_map) can_disable_aslr can_restart_process

unfoldable pub strategy_to_string : RestoreStrategy → Text
strategy_to_string RestoreStrategy.direct = codes "Direct restore (addresses match)"
strategy_to_string RestoreStrategy.disable_aslr = codes "Disable ASLR and restart process"
strategy_to_string RestoreStrategy.relocate = codes "Apply address relocation"
strategy_to_string RestoreStrategy.unsupported = codes "Unsupported (complex ASLR differences)"

unfoldable pub can_direct_restore : List MemoryRegion → List MemoryRegion → Bool
can_direct_restore checkpoint_map current_map =
    not (has_offset (calculate_offsets checkpoint_map current_map))
