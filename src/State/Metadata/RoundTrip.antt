-- ===== src/State/Metadata/RoundTrip.antt =====
-- What a stored `CheckpointMetadata` gives when it is read back.
use process_snapshot.Prelude.{
  ◌/◌, ◌*◌, ◌<◌, ◌≡◌, Bytes, [], ◌++◌, some, length, append_assoc, arith,
}
use process_snapshot.Wire.{pure, u32_mod, u64_mod, to_u32}
use process_snapshot.Wire.Laws.{read_u32-bind, read_u64-bind, read_bytes-bind}
use process_snapshot.Types.Laws.{IsStatus, status_of_int-to_int, status_to_int-lt}
use process_snapshot.Utils.{nanoseconds, to_unix_timestamp-lt, from_unix_timestamp-to}
use process_snapshot.State.Metadata.{CheckpointMetadata, serialize, deserialize}

-- The values that the fields' types hold, with texts whose length fits the 32 bits it is stored in.
pub record IsStorable (m : CheckpointMetadata) : Type 0 where
  pub id : m.id < u64_mod
  pub name : length m.name < u32_mod
  pub description : length m.description < u32_mod
  pub created_at : m.created_at < u64_mod
  pub modified_at : m.modified_at < u64_mod
  pub status : IsStatus m.status
  pub data_size : m.data_size < u64_mod
  pub checksum : m.checksum < u32_mod

-- What the format keeps: whole seconds of the times, and no tags.
abbrev pub stored : CheckpointMetadata → CheckpointMetadata
stored m = record m {
  created_at = m.created_at / nanoseconds * nanoseconds;
  modified_at = m.modified_at / nanoseconds * nanoseconds;
  tags = [];
}

-- Metadata that is written and read back is the same but for the fractions of a second and the
-- tags, whatever bytes stand behind it.
pub deserialize-serialize_metadata :
    (m : CheckpointMetadata) (rest : Bytes)
    → IsStorable m
    → deserialize (serialize m ++ rest) ≡ some (stored m, rest)
unfolding deserialize serialize pure
deserialize-serialize_metadata m rest v =
    let name_len : to_u32 (length m.name) ≡ length m.name = omega (arith, v.name) in
    let desc_len : to_u32 (length m.description) ≡ length m.description =
      omega (arith, v.description) in
    let created = to_unix_timestamp-lt m.created_at v.created_at in
    let modified = to_unix_timestamp-lt m.modified_at v.modified_at in
    let status = status_to_int-lt m.status v.status in
    simp (
      name_len,
      desc_len,
      append_assoc,
      read_u64-bind,
      read_u32-bind,
      read_bytes-bind,
      v.id,
      v.name,
      v.description,
      created,
      modified,
      status,
      v.data_size,
      v.checksum,
      from_unix_timestamp-to,
      status_of_int-to_int m.status v.status,
    )
