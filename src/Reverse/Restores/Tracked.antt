-- ===== src/Reverse/Restores/Tracked.antt =====
-- What the tracker records of a change is what the reversal of the change needs.
use process_snapshot.Prelude.{
  ◌≡◌, refl, Bytes, Text, [], ◌∷◌, ◌++◌, some, true, false, length, arith, sym, ◌&&◌, ltb, leb,
  subst, ◌==◌,
}
use process_snapshot.Utils.{Timestamp}
use process_snapshot.FileSystem.{FileSystem, IsFileSystem, Stat}
use process_snapshot.FileOperation.Kind.{FileOperationType}
use process_snapshot.FileOperation.Record.{FileOperation, has_full_backup}
use process_snapshot.FileOperation.Log.{record_operation}
use process_snapshot.FileOperation.Tracker.{
  FileOperationTracker, started, advance, recorded, with_stat, capture,
}
use process_snapshot.FileOperation.Tracker.Moves.{with_backup, before_unlink, after_unlink}
use process_snapshot.FileOperation.Tracker.Filter.{should_track_file}
use process_snapshot.FileOperation.Tracker.PathMap
use process_snapshot.FileOperation.Tracker.PathMap.{find-insert_self}
use process_snapshot.Reverse.Restores.{Restores}
use process_snapshot.Reverse.Restores.Kinds.{OnlyAt}
use process_snapshot.Reverse.Restores.Moves.{delete-Restores}

-- The tracker is on, the path passes its filter, and its counter of ids has not come round to 0.
pub record Tracks (t : FileOperationTracker) (path : Text) : Type 0 where
  pub tracking : t.is_tracking ≡ true
  pub tracked : should_track_file t.options path ≡ true
  pub next : t.next_op_id == 0 ≡ false

-- `t'` has one operation more in its log than `t`.
abbrev pub Records : FileOperationTracker → FileOperationTracker → FileOperation → Type 0
Records t t' o = t'.log.operations ≡ t.log.operations ++ o ∷ []

pub operations-recorded :
    (o : FileOperation) (t : FileOperationTracker)
    → o.operation_id == 0 ≡ false
    → (recorded o t).log.operations ≡ t.log.operations ++ o ∷ []
unfolding recorded record_operation
operations-recorded o t h = simp h refl

module _ {F : Type 0} (fs : FileSystem F) (laws : IsFileSystem fs) (dir : Text) where
  -- A file that can be read and of which the tracker takes a backup.
  pub record IsBackedUp (t : FileOperationTracker) (path : Text) (s : F) (st : Stat) (d : Bytes)
      : Type 0 where
    pub read : fs.read path s ≡ some d
    pub stat : fs.stat path s ≡ some st
    pub small : leb st.size t.options.max_file_size ≡ true

  pub capture-read :
      (t : FileOperationTracker) (path : Text) (s : F) (st : Stat) (d : Bytes)
      → IsBackedUp t path s st d
      → capture fs t.options.max_file_size path s ≡ d
  unfolding capture
  capture-read t path s st d backed =
      let sizes = laws.stat_lem path s backed.stat (laws.read_lem path s backed.read) in
      let small : ltb t.options.max_file_size (length d) ≡ false =
        ground (arith, sizes, backed.small) in
      rw (backed.read, capture) (rw small refl)

  -- The operation of `beforeUnlink`.
  unlinked : Text → Timestamp → Stat → Bytes → FileOperationTracker → FileOperation
  unlinked path now st d t = record (started FileOperationType.delete path now t) {
    original_size = st.size;
    original_mode = st.mode;
    original_uid = st.uid;
    original_gid = st.gid;
    original_content = some d;
  }

  before_unlink-backed :
      (t : FileOperationTracker) (path : Text) (now : Timestamp) (s : F) (st : Stat) (d : Bytes)
      → Tracks t path
      → IsBackedUp t path s st d
      → before_unlink fs path now s t ≡ record (advance t) {
        pending_unlinks = PathMap.insert path (unlinked path now st d t) t.pending_unlinks;
      }
  unfolding before_unlink with_backup with_stat unlinked
  before_unlink-backed t path now s st d tracks backed =
      simp
        (
          tracks.tracking,
          tracks.tracked,
          backed.stat,
          backed.small,
          capture-read t path s st d backed,
        )
        refl

  -- `afterUnlink` of a pending operation.
  after_unlink-pending :
      (t : FileOperationTracker) (path : Text) (o : FileOperation)
      → t.is_tracking ≡ true
      → PathMap.find path t.pending_unlinks ≡ some o
      → o.operation_id == 0 ≡ false
      → Records t
          (after_unlink fs path true t)
          (record o { is_reversible = true && has_full_backup o; new_size = 0 })
  unfolding after_unlink
  after_unlink-pending t path o tracking found id =
      rw (found, after_unlink)
        (rw tracking (
          operations-recorded (record o { is_reversible = true && has_full_backup o; new_size = 0 })
            (record t { pending_unlinks = PathMap.erase path t.pending_unlinks }) id))

  -- A deletion of a file that can be read and is not larger than the limit, of which a tracker that is
  -- on, filters the path in and has an id left is told before and after: the log has one operation
  -- more, which can be undone, and its reversal, where it succeeds, gives back the file.
  pub unlink-Restores :
      (t : FileOperationTracker) (path : Text) (now : Timestamp) (st : Stat) (d : Bytes) (s s' : F)
      → Tracks t path
      → IsBackedUp t path s st d
      → OnlyAt fs laws dir path s s'
      → (o : FileOperation) × Records t
          (after_unlink fs path true (before_unlink fs path now s t))
          o
        × (o.is_reversible ≡ true)
        × Restores fs laws dir o s s'
  unfolding advance unlinked started
  unlink-Restores t path now st d s s' tracks backed only =
      let o = unlinked path now st d t in
      let t1 = record (advance t) { pending_unlinks = PathMap.insert path o t.pending_unlinks } in
      let o' = record o { is_reversible = true && has_full_backup o; new_size = 0 } in
      (
        o',
        subst (λ x. Records t (after_unlink fs path true x) o')
            (sym (before_unlink-backed t path now s st d tracks backed))
            (after_unlink-pending t1 path o tracks.tracking
              (find-insert_self path o t.pending_unlinks) tracks.next),
        refl,
        delete-Restores fs laws dir o' d s s' refl refl (laws.read_lem path s backed.read) only,
      )
