-- ===== src/State/Checkpoint/RoundTrip.antt =====
-- What a stored `Checkpoint` gives when it is read back.
use process_snapshot.Prelude.{
  ◌<◌, ◌≡◌, Bytes, [], ◌++◌, some, length, All, append_assoc, append-nil, arith,
}
use process_snapshot.Wire.{Reader, ◌>>=◌, pure, read_u64, u32_mod, u64_mod, u64_bytes, to_u32}
use process_snapshot.Wire.Laws.{read_u32-bind, read_u64_lem, read_bytes-bind, read_many-bind}
use process_snapshot.State.Metadata
use process_snapshot.State.Metadata.RoundTrip as MetadataTrip
use process_snapshot.State.Metadata.{CheckpointMetadata}
use process_snapshot.State.Checkpoint.{Checkpoint, serialize, deserialize, within}

pub record IsStorable (c : Checkpoint) : Type 0 where
  pub metadata : MetadataTrip.IsStorable c.metadata
  pub metadata_size : length (Metadata.serialize c.metadata) < u32_mod
  pub contents : length c.contents < u32_mod
  pub operation_count : length c.related_operations < u32_mod
  pub operation_ids : All (λ id. id < u64_mod) c.related_operations

-- What the format keeps of the metadata, and all of the rest.
abbrev pub stored : Checkpoint → Checkpoint
stored c = record c { metadata = MetadataTrip.stored c.metadata }

metadata_trip :
    (m : CheckpointMetadata)
    → MetadataTrip.IsStorable m
    → Metadata.deserialize (Metadata.serialize m) ≡ some (MetadataTrip.stored m, [])
metadata_trip m v = rw append-nil at (MetadataTrip.deserialize-serialize_metadata m [] v)

pub within-bind {ℓ κ} :
    {A : Type ℓ} {B : Type κ} (r : Reader A) (s : Bytes) (f : A → Reader B) (rest : Bytes) {a : A}
    → r s ≡ some (a, [])
    → (within r s >>= f) rest ≡ f a rest
unfolding within ◌>>=◌
within-bind r s f rest h = rw (h, within, ◌>>=◌)

-- A checkpoint that is written and read back has its data and its operations, and its metadata but
-- for the fractions of a second and the tags.
pub deserialize-serialize_checkpoint :
    (c : Checkpoint) (rest : Bytes)
    → IsStorable c
    → deserialize (serialize c ++ rest) ≡ some (stored c, rest)
unfolding deserialize serialize pure
deserialize-serialize_checkpoint c rest v =
    let meta_size : to_u32 (length (Metadata.serialize c.metadata))
        ≡ length (Metadata.serialize c.metadata) =
      omega (arith, v.metadata_size) in
    let data_size : to_u32 (length c.contents) ≡ length c.contents = omega (arith, v.contents) in
    let op_count : to_u32 (length c.related_operations) ≡ length c.related_operations =
      omega (arith, v.operation_count) in
    let metadata = λ (f : CheckpointMetadata → Reader Checkpoint) (s : Bytes).
      within-bind Metadata.deserialize (Metadata.serialize c.metadata) f s
        (metadata_trip c.metadata v.metadata) in
    let many =
      read_many-bind {B = Checkpoint} read_u64 u64_bytes (λ id. id < u64_mod) read_u64_lem in
    simp (
      meta_size, data_size, op_count, append_assoc, read_u32-bind, read_bytes-bind, metadata, many,
      v.metadata_size, v.contents, v.operation_count, v.operation_ids,
    )
