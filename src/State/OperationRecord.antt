-- ===== src/State/OperationRecord.antt =====
-- `OperationRecord` (include/state/state_manager.hpp, src/state/state_manager.cpp).
pub mod RoundTrip
use process_snapshot.Prelude.{
  ℕ, Bytes, Text, Bool, true, false, not, List, [], ◌∷◌, ◌++◌, length, ◌==◌, if◌then◌else◌,
}
use process_snapshot.Wire.{
  Reader, ◌>>=◌, pure, read_bytes, read_u8, read_u32, read_u64, u8_bytes, u32_bytes, u64_bytes,
  to_u32,
}
use process_snapshot.Types.{OperationType, operation_type_to_int, operation_type_of_int}
use process_snapshot.Utils.{Timestamp, to_unix_timestamp, from_unix_timestamp}

pub record OperationRecord : Type 0 where
  pub id : ℕ
  pub type : OperationType
  pub timestamp : Timestamp
  pub related_checkpoint : ℕ
  pub description : Text
  pub previous_state : Bytes
  pub new_state : Bytes
  pub can_undo : Bool

abbrev pub bool_to_int : Bool → ℕ
bool_to_int true = 1
bool_to_int false = 0

unfoldable pub serialize : OperationRecord → Bytes
serialize r =
    u64_bytes r.id
    ++ (u32_bytes (operation_type_to_int r.type)
        ++ (u64_bytes (to_unix_timestamp r.timestamp)
            ++ (u64_bytes r.related_checkpoint
                ++ (u32_bytes (to_u32 (length r.description))
                    ++ (r.description ++ u8_bytes (bool_to_int r.can_undo))))))

-- The two states are not stored: a new object has empty ones.
unfoldable pub deserialize : Reader OperationRecord
deserialize = do
  id ← read_u64
  type_int ← read_u32
  ts ← read_u64
  related_checkpoint ← read_u64
  desc_len ← read_u32
  description ← read_bytes desc_len
  can_undo ← read_u8
  pure (record {
    id = id;
    type = operation_type_of_int type_int;
    timestamp = from_unix_timestamp ts;
    related_checkpoint = related_checkpoint;
    description = description;
    previous_state = [];
    new_state = [];
    can_undo = not (can_undo == 0);
  })
