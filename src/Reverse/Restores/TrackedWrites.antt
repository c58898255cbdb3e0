-- ===== src/Reverse/Restores/TrackedWrites.antt =====
-- Writes, truncations and creations that the tracker is told of before and after.
use process_snapshot.Prelude.{
  ℕ, ◌≡◌, refl, Bytes, Text, [], ◌∷◌, none, some, true, false, length, starts_with, ◌⊎◌, arith, sym,
  ◌∙◌, ap, leb, subst, ◌==◌,
}
use process_snapshot.Utils.{Timestamp}
use process_snapshot.FileSystem.{FileSystem, IsFileSystem, Stat}
use process_snapshot.FileSystem.Contents.{overwrite, slice, length-slice}
use process_snapshot.FileOperation.Kind.{FileOperationType}
use process_snapshot.FileOperation.Record.{FileOperation}
use process_snapshot.FileOperation.Tracker.{
  FileOperationTracker, started, advance, with_stat, with_new_size, with_old_data, with_new_data,
  capture_part, before_write, written, after_write,
}
use process_snapshot.FileOperation.Tracker.Moves.{before_create, after_create}
use process_snapshot.FileOperation.Tracker.PathMap
use process_snapshot.FileOperation.Tracker.PathMap.{find-insert_self}
use process_snapshot.Reverse.Restores.{Restores}
use process_snapshot.Reverse.Restores.Kinds.{OnlyAt, create-Restores}
use process_snapshot.Reverse.Restores.Writes.{write_diff-Restores}
use process_snapshot.Reverse.Restores.Tracked.{Tracks, Records, operations-recorded}

module _ {F : Type 0} (fs : FileSystem F) (laws : IsFileSystem fs) (dir : Text) where
  -- A write of the bytes `b` at an offset, of which the tracker keeps the old and the new bytes: it
  -- is asked before, in the state `s`, and after, in `s'`.
  pub record IsTrackedWrite (t : FileOperationTracker) (path : Text) (offset : ℕ) (b d : Bytes)
      (st st' : Stat) (s s' : F) : Type 0 where
    pub read : fs.read path s ≡ some d
    pub stat : fs.stat path s ≡ some st
    pub read' : fs.read path s' ≡ some (overwrite d offset b)
    pub stat' : fs.stat path s' ≡ some st'
    pub small : leb (length b) t.options.max_file_size ≡ true

  capture_part-read :
      (path : Text) (offset n : ℕ) (s : F) (d : Bytes)
      → fs.read path s ≡ some d
      → capture_part fs path offset n s ≡ slice d offset n
  unfolding capture_part
  capture_part-read path offset n s d h = rw (h, capture_part) refl

  pending : ℕ → Text → ℕ → Bytes → Timestamp → Stat → Bytes → FileOperationTracker → FileOperation
  pending fd path offset b now st d t = record (started FileOperationType.write path now t) {
    fd = fd;
    offset = offset;
    original_size = st.size;
    original_mode = st.mode;
    original_uid = st.uid;
    original_gid = st.gid;
    diffs = record { offset = offset; old_data = slice d offset (length b); new_data = [] } ∷ [];
  }

  with_old_data-slice :
      (offset : ℕ) (d : Bytes) (x : ℕ) (b : Bytes) (o : FileOperation)
      → with_old_data offset (slice d offset (length (x ∷ b))) o ≡ record o {
        diffs =
            record { offset = offset; old_data = slice d offset (length (x ∷ b)); new_data = [] }
            ∷ o.diffs;
      }
  unfolding with_old_data
  with_old_data-slice offset d x b o =
      go (slice d offset (length (x ∷ b))) (length-slice d offset (length (x ∷ b)))
    where
      go :
          (old : Bytes)
          → length old ≡ length (x ∷ b)
          → with_old_data offset old o ≡ record o {
            diffs = record { offset = offset; old_data = old; new_data = [] } ∷ o.diffs;
          }
      go [] h = absurd (omega (arith, h))
      go (y ∷ old) h = refl

  before_write-pending :
      (t : FileOperationTracker) (fd : ℕ) (path : Text) (offset : ℕ) (now : Timestamp) (x : ℕ)
      (b d : Bytes) (st st' : Stat) (s s' : F)
      → Tracks t path
      → IsTrackedWrite t path offset (x ∷ b) d st st' s s'
      → before_write fs fd path offset (length (x ∷ b)) now s t ≡ record (advance t) {
        pending_writes =
            PathMap.insert path (pending fd path offset (x ∷ b) now st d t) t.pending_writes;
      }
  unfolding before_write with_stat pending started
  before_write-pending t fd path offset now x b d st st' s s' tracks w =
      simp
        (
          tracks.tracking,
          tracks.tracked,
          w.stat,
          w.small,
          capture_part-read path offset (length (x ∷ b)) s d w.read,
          with_old_data-slice offset d x b,
        )
        refl

  -- The write that `afterWrite` records.
  recorded_write :
      ℕ → Text → ℕ → Bytes → Timestamp → Stat → Stat → Bytes → FileOperationTracker → FileOperation
  recorded_write fd path offset b now st st' d t = record (pending fd path offset b now st d t) {
    new_size = st'.size;
    diffs =
        record {
          offset = offset;
          old_data = slice d offset (length b);
          new_data = slice (overwrite d offset b) offset (length b);
        }
        ∷ [];
  }

  recorded_id :
      (fd : ℕ) (path : Text) (offset : ℕ) (b : Bytes) (now : Timestamp) (st st' : Stat) (d : Bytes)
      (t : FileOperationTracker)
      → t.next_op_id == 0 ≡ false
      → (recorded_write fd path offset b now st st' d t).operation_id == 0 ≡ false
  unfolding recorded_write pending started
  recorded_id fd path offset b now st st' d t h = h

  written-recorded :
      (t : FileOperationTracker) (fd : ℕ) (path : Text) (offset : ℕ) (now : Timestamp) (b d : Bytes)
      (st st' : Stat) (s s' : F)
      → IsTrackedWrite t path offset b d st st' s s'
      → written fs path offset (length b) true s' t (pending fd path offset b now st d t)
        ≡ recorded_write fd path offset b now st st' d t
  unfolding written with_new_size with_new_data pending recorded_write
  written-recorded t fd path offset now b d st st' s s' w =
      simp
        (
          w.stat',
          w.small,
          capture_part-read path offset (length b) s' (overwrite d offset b) w.read',
        )
        refl

  after_write-pending :
      (t : FileOperationTracker) (fd : ℕ) (path : Text) (offset n : ℕ) (s' : F) (o : FileOperation)
      → t.is_tracking ≡ true
      → PathMap.find path t.pending_writes ≡ some o
      → (written fs path offset n true s' t o).operation_id == 0 ≡ false
      → Records t (after_write fs fd path offset n true s' t) (written fs path offset n true s' t o)
  unfolding after_write
  after_write-pending t fd path offset n s' o tracking found id =
      rw (found, after_write)
        (rw tracking (
          operations-recorded (written fs path offset n true s' t o)
            (record t { pending_writes = PathMap.erase path t.pending_writes }) id))

  -- A write that the tracker is told of before and after: the log has one operation more, which can
  -- be undone if the stream does not buffer the old bytes or the size did not change.
  pub write-Restores :
      (t : FileOperationTracker) (fd : ℕ) (path : Text) (offset : ℕ) (now : Timestamp) (x : ℕ)
      (b d : Bytes) (st st' : Stat) (s s' : F)
      → Tracks t path
      → IsTrackedWrite t path offset (x ∷ b) d st st' s s'
      → OnlyAt fs laws dir path s s'
      → starts_with dir path ≡ false
      → (fs.buffers (slice d offset (length (x ∷ b))) ≡ false) ⊎ (st.size ≡ st'.size)
      → let n = length (x ∷ b) in
        (o : FileOperation) × Records t
          (after_write fs fd path offset n true s' (before_write fs fd path offset n now s t))
          o
        × (o.is_reversible ≡ true)
        × Restores fs laws dir o s s'
  unfolding advance written recorded_write pending started
  write-Restores t fd path offset now x b d st st' s s' tracks w only out how =
      let o = pending fd path offset (x ∷ b) now st d t in
      let o' = recorded_write fd path offset (x ∷ b) now st st' d t in
      let n = length (x ∷ b) in
      let t1 = record (advance t) { pending_writes = PathMap.insert path o t.pending_writes } in
      let same : written fs path offset n true s' t1 o ≡ o' =
        written-recorded t fd path offset now (x ∷ b) d st st' s s' w in
      (
        o',
        subst (λ u. Records t (after_write fs fd path offset n true s' u) o')
            (sym (before_write-pending t fd path offset now x b d st st' s s' tracks w))
            (subst (Records t (after_write fs fd path offset n true s' t1)) same (
              after_write-pending t1 fd path offset n s' o tracks.tracking
                (find-insert_self path o t.pending_writes)
                (ap (λ u. u.operation_id == 0) same
                  ∙ recorded_id fd path offset (x ∷ b) now st st' d t tracks.next))),
        refl,
        write_diff-Restores fs laws dir o' _ d (x ∷ b) s s' refl
            (record {
              one = refl;
              no_backup = refl;
              old_data = refl;
              original_size = laws.stat_lem path s w.stat (laws.read_lem path s w.read);
              new_size = laws.stat_lem path s' w.stat' (laws.read_lem path s' w.read');
            })
            how out (laws.read_lem path s w.read) (laws.read_lem path s' w.read') only,
      )

  -- The creation of a file that was not there.
  pub create_tracked-Restores :
      (t : FileOperationTracker) (path : Text) (mode fd : ℕ) (now : Timestamp) (s s' : F)
      → Tracks t path
      → laws.content s path ≡ none
      → OnlyAt fs laws dir path s s'
      → (o : FileOperation) × Records t
          (after_create fs path fd true (before_create fs path mode now t))
          o
        × (o.is_reversible ≡ true)
        × Restores fs laws dir o s s'
  unfolding before_create after_create advance started
  create_tracked-Restores t path mode fd now s s' tracks absent only =
      let o = record (started FileOperationType.create path now t) { new_mode = mode } in
      let o' = record o { fd = fd; is_reversible = true } in
      let t1 = record (advance t) { pending_creates = PathMap.insert path o t.pending_creates } in
      let before : before_create fs path mode now t ≡ t1 =
        simp (tracks.tracking, tracks.tracked) refl in
      let after : Records t (after_create fs path fd true t1) o' =
        rw (find-insert_self path o t.pending_creates, after_create)
          (rw tracks.tracking (
            operations-recorded o'
              (record t1 { pending_creates = PathMap.erase path t1.pending_creates })
              tracks.next)) in
      (
        o',
        subst (λ u. Records t (after_create fs path fd true u) o') (sym before) after,
        refl,
        create-Restores fs laws dir o' s s' refl absent only,
      )
