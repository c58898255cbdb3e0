-- ===== src/State/OperationRecord/RoundTrip.antt =====
-- What a stored `OperationRecord` gives when it is read back.
use process_snapshot.Prelude.{
  ◌/◌, ◌*◌, ◌<◌, ◌≡◌, refl, Bytes, Bool, true, false, not, [], ◌++◌, some, length, append_assoc,
  arith, ◌==◌,
}
use process_snapshot.Wire.{pure, u32_mod, u64_mod, to_u32}
use process_snapshot.Wire.Laws.{read_u8-bind, read_u32-bind, read_u64-bind, read_bytes-bind}
use process_snapshot.Types.Laws.{
  IsOperationType, operation_type_of_int-to_int, operation_type_to_int-lt,
}
use process_snapshot.Utils.{nanoseconds, to_unix_timestamp-lt, from_unix_timestamp-to}
use process_snapshot.State.OperationRecord.{OperationRecord, bool_to_int, serialize, deserialize}

pub record IsStorable (r : OperationRecord) : Type 0 where
  pub id : r.id < u64_mod
  pub type : IsOperationType r.type
  pub timestamp : r.timestamp < u64_mod
  pub related_checkpoint : r.related_checkpoint < u64_mod
  pub description : length r.description < u32_mod

-- What the format keeps: whole seconds of the time, and neither of the two states.
abbrev pub stored : OperationRecord → OperationRecord
stored r = record r {
  timestamp = r.timestamp / nanoseconds * nanoseconds;
  previous_state = [];
  new_state = [];
}

bool_to_int-lt : (b : Bool) → bool_to_int b < 256
bool_to_int-lt true = omega arith
bool_to_int-lt false = omega arith

bool_of_int-to_int : (b : Bool) → not (bool_to_int b == 0) ≡ b
bool_of_int-to_int true = refl
bool_of_int-to_int false = refl

-- A record that is written and read back is the same but for the fraction of a second and the two
-- states, which come back empty, whatever bytes stand behind it.
pub deserialize-serialize_record :
    (r : OperationRecord) (rest : Bytes)
    → IsStorable r
    → deserialize (serialize r ++ rest) ≡ some (stored r, rest)
unfolding deserialize serialize pure
deserialize-serialize_record r rest v =
    let desc_len : to_u32 (length r.description) ≡ length r.description =
      omega (arith, v.description) in
    let timestamp = to_unix_timestamp-lt r.timestamp v.timestamp in
    let type = operation_type_to_int-lt r.type v.type in
    let can_undo = bool_to_int-lt r.can_undo in
    simp (
      desc_len,
      append_assoc,
      read_u64-bind,
      read_u32-bind,
      read_u8-bind,
      read_bytes-bind,
      v.id,
      type,
      timestamp,
      v.related_checkpoint,
      v.description,
      can_undo,
      from_unix_timestamp-to,
      operation_type_of_int-to_int r.type v.type,
      bool_of_int-to_int,
    )
