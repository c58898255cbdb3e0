-- ===== src/State/Checkpoint/Integrity.antt =====
-- `Checkpoint::verifyIntegrity` (src/state/state_manager.cpp) on new, changed and stored data.
use process_snapshot.Prelude.{
  ℕ, ◌<◌, ◌≡◌, ◌≢◌, refl, Bytes, true, false, [], ◌∷◌, ◌++◌, some, arith,
}
use process_snapshot.Utils.{Timestamp}
use process_snapshot.Serializer.Checksum.{calculate_checksum, verify_checksum}
use process_snapshot.Prelude.{IsBytes}
use process_snapshot.Serializer.Checksum.Laws.{verify_checksum_detects}
use process_snapshot.State.Checkpoint.{
  Checkpoint, set_data, verify_integrity, serialize, deserialize,
}
use process_snapshot.State.Checkpoint.RoundTrip.{
  IsStorable, stored, deserialize-serialize_checkpoint,
}

verify_checksum-calculate : (s : Bytes) → verify_checksum s (calculate_checksum s) ≡ true
unfolding verify_checksum
verify_checksum-calculate s = ground arith

-- Data that `setData` stored passes, also after the status is set.
pub verify_integrity-set_data :
    (s : Bytes) (now : Timestamp) (c : Checkpoint) → verify_integrity (set_data s now c) ≡ true
unfolding verify_integrity set_data
verify_integrity-set_data [] now c = refl
verify_integrity-set_data (b ∷ s) now c = verify_checksum-calculate (b ∷ s)

-- A checkpoint whose data was set and then changed in one byte, with its metadata left as it was,
-- fails the check.
pub verify_integrity_detects :
    (xs ys : Bytes) (a b : ℕ) (now : Timestamp) (c : Checkpoint)
    → IsBytes xs
    → IsBytes ys
    → a < 256
    → b < 256
    → a ≢ b
    → verify_integrity (record (set_data (xs ++ a ∷ ys) now c) { contents = xs ++ b ∷ ys }) ≡ false
unfolding verify_integrity set_data
verify_integrity_detects [] ys a b now c hx hy ha hb ne =
    verify_checksum_detects [] ys a b hx hy ha hb ne
verify_integrity_detects (x ∷ xs) ys a b now c hx hy ha hb ne =
    verify_checksum_detects (x ∷ xs) ys a b hx hy ha hb ne

-- Writing a checkpoint and reading it back gives one that passes exactly when the first does.
pub verify_integrity-deserialize :
    (c : Checkpoint) (rest : Bytes)
    → IsStorable c
    → (d : Checkpoint) × (deserialize (serialize c ++ rest) ≡ some (d, rest))
      × (verify_integrity d ≡ verify_integrity c)
unfolding verify_integrity
verify_integrity-deserialize c rest v = (stored c, deserialize-serialize_checkpoint c rest v, refl)
