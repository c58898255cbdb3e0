-- ===== src/Tests/State.antt =====
-- The stored records at concrete inputs.
use process_snapshot.Prelude.{◌≡◌, ◌++◌, [], ◌∷◌, some, false, codes, length, arith, ◌<◌}
use process_snapshot.Wire.{u32_mod, u32_bytes, u64_bytes, le_bytes}
use process_snapshot.Types.{CheckpointStatus, status_to_int}
use process_snapshot.Utils.{to_unix_timestamp}
use process_snapshot.State.Metadata
use process_snapshot.State.Metadata.{CheckpointMetadata}
use process_snapshot.State.Metadata.RoundTrip as MetadataTrip
use process_snapshot.State.Checkpoint
use process_snapshot.State.Checkpoint.{Checkpoint, verify_integrity, set_data}
use process_snapshot.State.Checkpoint.RoundTrip as CheckpointTrip
use process_snapshot.State.Checkpoint.Integrity.{verify_integrity_detects}

abbrev metadata : CheckpointMetadata
metadata = record {
  id = 5;
  name = codes "base";
  description = [];
  created_at = 1500000000;
  modified_at = 2500000000;
  status = CheckpointStatus.committed;
  data_size = 2;
  checksum = 77;
  tags = (codes "k", codes "v") ∷ [];
}

metadata-IsStorable : MetadataTrip.IsStorable metadata
metadata-IsStorable = record {
  id = omega arith;
  name = omega arith;
  description = omega arith;
  created_at = omega arith;
  modified_at = omega arith;
  status = tt;
  data_size = omega arith;
  checksum = omega arith;
}

abbrev pub checkpoint : Checkpoint
checkpoint = record { metadata = metadata; contents = 1 ∷ 2 ∷ []; related_operations = 3 ∷ 4 ∷ [] }

metadata_size-lt : length (Metadata.serialize metadata) < u32_mod
unfolding Metadata.serialize u32_bytes u64_bytes le_bytes status_to_int to_unix_timestamp
metadata_size-lt = omega arith

pub checkpoint-IsStorable : CheckpointTrip.IsStorable checkpoint
checkpoint-IsStorable = record {
  metadata = metadata-IsStorable;
  metadata_size = metadata_size-lt;
  contents = omega arith;
  operation_count = omega arith;
  operation_ids = (omega arith, (omega arith, tt));
}

deserialize-serialize_checkpoint_example :
    Checkpoint.deserialize (Checkpoint.serialize checkpoint ++ 9 ∷ [])
    ≡ some (CheckpointTrip.stored checkpoint, 9 ∷ [])
deserialize-serialize_checkpoint_example =
    CheckpointTrip.deserialize-serialize_checkpoint checkpoint (9 ∷ []) checkpoint-IsStorable

verify_integrity_detects_example :
    verify_integrity
      (record (set_data (1 ∷ [] ++ 3 ∷ 5 ∷ []) 10 checkpoint) { contents = 1 ∷ [] ++ 4 ∷ 5 ∷ [] })
    ≡ false
verify_integrity_detects_example =
    verify_integrity_detects (1 ∷ []) (5 ∷ []) 3 4 10 checkpoint (omega arith, tt) (omega arith, tt)
      (omega arith) (omega arith) (omega arith)
