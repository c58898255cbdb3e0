-- ===== src/Types.antt =====
-- include/core/types.hpp: identifiers are numbers below 2 ^ 64, a `StateData` is `Bytes`. An enum
-- has one more constructor for an integer outside its enumerators, which `static_cast` from a
-- stored `int` may give.
pub mod Laws
use process_snapshot.Prelude.{
  ℕ, ◌+◌, ◌*◌, ◌/◌, ◌%◌, ◌^◌, ◌≤◌, ◌<◌, Text, [], ◌∷◌, Option, none, some, Bool, true, false, leb,
  ◌==◌, if◌then◌else◌, not,
}

pub data CheckpointStatus : Type 0 where
  pending active committed rolled_back corrupted deleted : CheckpointStatus
  unnamed : ℕ → CheckpointStatus

pub data OperationType : Type 0 where
  create update delete checkpoint rollback custom : OperationType
  unnamed : ℕ → OperationType

pub data LogLevel : Type 0 where
  trace debug info warning error critical : LogLevel

pub data RollbackStrategy : Type 0 where
  full partial incremental selective : RollbackStrategy

pub data ErrorCode : Type 0 where
  success checkpoint_not_found checkpoint_corrupted rollback_failed invalid_state : ErrorCode
  serialization_error deserialization_error io_error permission_denied : ErrorCode
  out_of_memory timeout unknown : ErrorCode

-- `Result<T>`: the source's two factories. `failure` carries the code and the message; nothing
-- calls it with the code `success`.
pub data Result {ℓ} (A : Type ℓ) : Type ℓ where
  ok : A → Result A
  failure : ErrorCode → Text → Result A

abbrev pub is_success {ℓ} : {A : Type ℓ} → Result A → Bool
is_success (ok a) = true
is_success (failure e message) = false

abbrev pub is_error {ℓ} : {A : Type ℓ} → Result A → Bool
is_error r = not (is_success r)

-- `static_cast<int>` of a status, and back.
unfoldable pub status_to_int : CheckpointStatus → ℕ
status_to_int CheckpointStatus.pending = 0
status_to_int CheckpointStatus.active = 1
status_to_int CheckpointStatus.committed = 2
status_to_int CheckpointStatus.rolled_back = 3
status_to_int CheckpointStatus.corrupted = 4
status_to_int CheckpointStatus.deleted = 5
status_to_int (CheckpointStatus.unnamed n) = n

unfoldable pub status_of_int : ℕ → CheckpointStatus
status_of_int n =
    if n == 0
    then CheckpointStatus.pending
    else if n == 1
    then CheckpointStatus.active
    else if n == 2
    then CheckpointStatus.committed
    else if n == 3
    then CheckpointStatus.rolled_back
    else if n == 4
    then CheckpointStatus.corrupted
    else if n == 5
    then CheckpointStatus.deleted
    else CheckpointStatus.unnamed n

unfoldable pub operation_type_to_int : OperationType → ℕ
operation_type_to_int OperationType.create = 0
operation_type_to_int OperationType.update = 1
operation_type_to_int OperationType.delete = 2
operation_type_to_int OperationType.checkpoint = 3
operation_type_to_int OperationType.rollback = 4
operation_type_to_int OperationType.custom = 5
operation_type_to_int (OperationType.unnamed n) = n

unfoldable pub operation_type_of_int : ℕ → OperationType
operation_type_of_int n =
    if n == 0
    then OperationType.create
    else if n == 1
    then OperationType.update
    else if n == 2
    then OperationType.delete
    else if n == 3
    then OperationType.checkpoint
    else if n == 4
    then OperationType.rollback
    else if n == 5
    then OperationType.custom
    else OperationType.unnamed n

-- The order of the enumerators, which `level < minLevel` compares.
unfoldable pub level_to_int : LogLevel → ℕ
level_to_int LogLevel.trace = 0
level_to_int LogLevel.debug = 1
level_to_int LogLevel.info = 2
level_to_int LogLevel.warning = 3
level_to_int LogLevel.error = 4
level_to_int LogLevel.critical = 5
