-- ===== src/Types/Laws.antt =====
-- The casts between an enum and its stored integer.
use process_snapshot.Prelude.{◌^◌, ◌≤◌, ◌<◌, ◌≡◌, refl, arith}
use process_snapshot.Types.{
  CheckpointStatus, OperationType, status_to_int, status_of_int, operation_type_to_int,
  operation_type_of_int,
}

-- A value that the enum can hold: an enumerator, or another integer of 32 bits.
abbrev pub IsStatus : CheckpointStatus → Type 0
IsStatus (CheckpointStatus.unnamed n) = (6 ≤ n) × (n < 2 ^ 32)
IsStatus _ = Unit

abbrev pub IsOperationType : OperationType → Type 0
IsOperationType (OperationType.unnamed n) = (6 ≤ n) × (n < 2 ^ 32)
IsOperationType _ = Unit

pub status_of_int-to_int : (s : CheckpointStatus) → IsStatus s → status_of_int (status_to_int s) ≡ s
unfolding status_to_int status_of_int
status_of_int-to_int (CheckpointStatus.unnamed n) h = ground arith
status_of_int-to_int _ h = refl

pub status_to_int-lt : (s : CheckpointStatus) → IsStatus s → status_to_int s < 2 ^ 32
unfolding status_to_int
status_to_int-lt (CheckpointStatus.unnamed n) h = h.1
status_to_int-lt _ h = omega arith

pub operation_type_of_int-to_int :
    (t : OperationType) → IsOperationType t → operation_type_of_int (operation_type_to_int t) ≡ t
unfolding operation_type_to_int operation_type_of_int
operation_type_of_int-to_int (OperationType.unnamed n) h = ground arith
operation_type_of_int-to_int _ h = refl

pub operation_type_to_int-lt :
    (t : OperationType) → IsOperationType t → operation_type_to_int t < 2 ^ 32
unfolding operation_type_to_int
operation_type_to_int-lt (OperationType.unnamed n) h = h.1
operation_type_to_int-lt _ h = omega arith
