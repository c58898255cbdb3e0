-- ===== src/Tests/Tracker.antt =====
-- Changes of files that a tracker is told of.
use process_snapshot.Prelude.{ℕ, ◌≡◌, refl, [], ◌∷◌, none, some, true, text_eq, starts_with, inl}
use process_snapshot.FileSystem.{Stat}
use process_snapshot.FileSystem.Contents.{overwrite, put}
use process_snapshot.FileOperation.Record.{FileOperation}
use process_snapshot.FileOperation.Tracker
use process_snapshot.FileOperation.Tracker.{
  FileOperationTracker, start_tracking, before_write, after_write,
}
use process_snapshot.FileOperation.Tracker.Moves.{before_unlink, after_unlink}
use process_snapshot.FileOperation.Tracker.Filter.{
  default_options, is_below, is_one_of, is_included, should_track_file,
}
use process_snapshot.Reverse.Restores.{Restores}
use process_snapshot.Reverse.Restores.Tracked.{Tracks, Records, unlink-Restores}
use process_snapshot.Reverse.Restores.TrackedWrites.{write-Restores}
use process_snapshot.Tests.Files.{put_file, files, files-IsFileSystem}
use process_snapshot.Tests.Reverse.{
  direct, path_a, path_b, before, between, later, dir, put_file-OnlyAt,
}

abbrev tracker : FileOperationTracker
tracker = start_tracking 7 (Tracker.new default_options)

tracker-Tracks : Tracks tracker path_b
unfolding start_tracking Tracker.new should_track_file is_below is_one_of is_included
tracker-Tracks = record { tracking = refl; tracked = refl; next = refl }

tracker-Tracks_a : Tracks tracker path_a
unfolding start_tracking Tracker.new should_track_file is_below is_one_of is_included
tracker-Tracks_a = record { tracking = refl; tracked = refl; next = refl }

abbrev one_byte : Stat
one_byte = record { size = 1; mode = 420; uid = 0; gid = 0 }

unlink-Restores_example :
    (o : FileOperation) × Records tracker
      (after_unlink
        (files direct)
        path_b
        true
        (before_unlink (files direct) path_b 3 before tracker))
      o
    × (o.is_reversible ≡ true)
    × Restores (files direct) (files-IsFileSystem direct) dir o before (put_file path_b none before)
unfolding files files-IsFileSystem text_eq start_tracking Tracker.new
unlink-Restores_example =
    unlink-Restores (files direct) (files-IsFileSystem direct) dir tracker path_b 3 one_byte
      (7 ∷ []) before (put_file path_b none before) tracker-Tracks
      (record { read = refl; stat = refl; small = refl })
      (put_file-OnlyAt direct dir path_b none before)

abbrev sized : ℕ → Stat
sized n = record { size = n; mode = 420; uid = 0; gid = 0 }

write-Restores_example :
    (o : FileOperation) × Records tracker
      (after_write
        (files direct)
        4
        path_a
        2
        3
        true
        later
        (before_write (files direct) 4 path_a 2 3 3 between tracker))
      o
    × (o.is_reversible ≡ true)
    × Restores (files direct) (files-IsFileSystem direct) dir o between later
unfolding files files-IsFileSystem text_eq start_tracking Tracker.new overwrite put starts_with
write-Restores_example =
    write-Restores (files direct) (files-IsFileSystem direct) dir tracker 4 path_a 2 3 9
      (8 ∷ 7 ∷ []) (1 ∷ 2 ∷ 3 ∷ 4 ∷ []) (sized 4) (sized 5) between later tracker-Tracks_a
      (record { read = refl; stat = refl; read' = refl; stat' = refl; small = refl })
      (put_file-OnlyAt direct dir path_a (some (1 ∷ 2 ∷ 9 ∷ 8 ∷ 7 ∷ [])) between) refl (inl refl)
