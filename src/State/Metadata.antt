-- ===== src/State/Metadata.antt =====
-- `CheckpointMetadata` (include/state/state_manager.hpp) with its `serialize` and `deserialize`
-- (src/state/state_manager.cpp).
pub mod RoundTrip
use process_snapshot.Prelude.{ℕ, ◌%◌, Bytes, Text, List, [], ◌∷◌, ◌++◌, length}
use process_snapshot.Wire.{
  Reader, ◌>>=◌, pure, read_bytes, read_u32, read_u64, u32_bytes, u64_bytes, to_u32,
}
use process_snapshot.Types.{CheckpointStatus, status_to_int, status_of_int}
use process_snapshot.Utils.{Timestamp, to_unix_timestamp, from_unix_timestamp}

pub record CheckpointMetadata : Type 0 where
  pub id : ℕ
  pub name : Text
  pub description : Text
  pub created_at : Timestamp
  pub modified_at : Timestamp
  pub status : CheckpointStatus
  pub data_size : ℕ
  pub checksum : ℕ
  -- `std::map<std::string, std::string>`
  pub tags : List (Text × Text)

unfoldable pub serialize : CheckpointMetadata → Bytes
serialize m =
    u64_bytes m.id
    ++ (u32_bytes (to_u32 (length m.name))
        ++ (m.name
            ++ (u32_bytes (to_u32 (length m.description))
                ++ (m.description
                    ++ (u64_bytes (to_unix_timestamp m.created_at)
                        ++ (u64_bytes (to_unix_timestamp m.modified_at)
                            ++ (u32_bytes (status_to_int m.status)
                                ++ (u64_bytes m.data_size ++ u32_bytes m.checksum))))))))

-- The tags are not stored: a new object has none. Bytes behind the last field are not looked at.
unfoldable pub deserialize : Reader CheckpointMetadata
deserialize = do
  id ← read_u64
  name_len ← read_u32
  name ← read_bytes name_len
  desc_len ← read_u32
  description ← read_bytes desc_len
  created ← read_u64
  modified ← read_u64
  status_int ← read_u32
  data_size ← read_u64
  checksum ← read_u32
  pure (record {
    id = id;
    name = name;
    description = description;
    created_at = from_unix_timestamp created;
    modified_at = from_unix_timestamp modified;
    status = status_of_int status_int;
    data_size = data_size;
    checksum = checksum;
    tags = [];
  })
