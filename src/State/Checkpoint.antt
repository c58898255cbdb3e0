-- ===== src/State/Checkpoint.antt =====
-- The class `Checkpoint` (include/state/state_manager.hpp, src/state/state_manager.cpp). A method
-- that reads the clock takes the reading, `now`, as an argument.
pub mod RoundTrip
pub mod Integrity
use process_snapshot.Prelude.{
  ℕ, Bytes, Text, Bool, true, not, List, [], ◌∷◌, ◌++◌, ◌&&◌, Option, none, some, length, text_eq,
  ◌==◌, if◌then◌else◌,
}
use process_snapshot.Wire.{
  Reader, ◌>>=◌, pure, read_bytes, read_u32, read_u64, read_many, write_many, u32_bytes, u64_bytes,
  to_u32,
}
use process_snapshot.Types.{CheckpointStatus, status_to_int}
use process_snapshot.Utils.{Timestamp}
use process_snapshot.Serializer.Checksum.{calculate_checksum, verify_checksum}
use process_snapshot.State.Metadata
use process_snapshot.State.Metadata.{CheckpointMetadata}

-- `contents` is `m_data`.
pub record Checkpoint : Type 0 where
  pub metadata : CheckpointMetadata
  pub contents : Bytes
  pub related_operations : List ℕ

-- The constructor `Checkpoint(id, name)`.
unfoldable pub new : ℕ → Text → Timestamp → Checkpoint
new id name now = record {
  metadata = record {
    id = id;
    name = name;
    description = [];
    created_at = now;
    modified_at = now;
    status = CheckpointStatus.pending;
    data_size = 0;
    checksum = 0;
    tags = [];
  };
  contents = [];
  related_operations = [];
}

unfoldable pub set_name : Text → Timestamp → Checkpoint → Checkpoint
set_name name now c = record c { metadata = record c.metadata { name = name; modified_at = now } }

unfoldable pub set_description : Text → Timestamp → Checkpoint → Checkpoint
set_description description now c = record c {
  metadata = record c.metadata { description = description; modified_at = now };
}

unfoldable pub set_status : CheckpointStatus → Timestamp → Checkpoint → Checkpoint
set_status status now c = record c {
  metadata = record c.metadata { status = status; modified_at = now };
}

-- Both overloads of `setData`.
unfoldable pub set_data : Bytes → Timestamp → Checkpoint → Checkpoint
set_data s now c = record c {
  metadata = record c.metadata {
    data_size = length s;
    checksum = calculate_checksum s;
    modified_at = now;
  };
  contents = s;
}

-- `tags[key] = value`.
set_tag : Text → Text → List (Text × Text) → List (Text × Text)
set_tag key value [] = (key, value) ∷ []
set_tag key value ((k, v) ∷ tags) =
    if text_eq k key then (k, value) ∷ tags else (k, v) ∷ set_tag key value tags

unfoldable pub add_tag : Text → Text → Timestamp → Checkpoint → Checkpoint
unfolding set_tag
add_tag key value now c = record c {
  metadata = record c.metadata { tags = set_tag key value c.metadata.tags; modified_at = now };
}

unfoldable pub add_related_operation : ℕ → Checkpoint → Checkpoint
add_related_operation id c = record c { related_operations = c.related_operations ++ id ∷ [] }

abbrev is_empty {ℓ} : {A : Type ℓ} → List A → Bool
is_empty [] = true
is_empty (a ∷ l) = Bool.false

unfoldable pub is_valid : Checkpoint → Bool
unfolding status_to_int
is_valid c =
    not (c.metadata.id == 0)
    && (not (is_empty c.metadata.name) && not (status_to_int c.metadata.status == 4))

unfoldable pub verify_integrity : Checkpoint → Bool
verify_integrity c =
    if is_empty c.contents then true else verify_checksum c.contents c.metadata.checksum

unfoldable pub serialize : Checkpoint → Bytes
serialize c =
    let meta = Metadata.serialize c.metadata in
    u32_bytes (to_u32 (length meta))
    ++ (meta
        ++ (u32_bytes (to_u32 (length c.contents))
            ++ (c.contents
                ++ (u32_bytes (to_u32 (length c.related_operations))
                    ++ write_many u64_bytes c.related_operations))))

-- A reader applied to a copy of some bytes, for the bytes behind them.
unfoldable pub within {ℓ} : {A : Type ℓ} → Reader A → Bytes → Reader A
within r s rest = elim (r s) [ none ↦ none | some (a, _) ↦ some (a, rest) ]

unfoldable pub deserialize : Reader Checkpoint
deserialize = do
  meta_size ← read_u32
  meta ← read_bytes meta_size
  metadata ← within Metadata.deserialize meta
  data_size ← read_u32
  contents ← read_bytes data_size
  op_count ← read_u32
  related ← read_many op_count read_u64
  pure (record { metadata = metadata; contents = contents; related_operations = related })
