-- ===== src/FileOperation/Tracker/Filter.antt =====
-- `FileTrackingOptions` (include/real_process/file_operation.hpp) and
-- `FileOperationTracker::shouldTrackFile` (src/real_process/file_operation.cpp).
use process_snapshot.Prelude.{
  ℕ, Text, List, [], ◌∷◌, Bool, true, false, not, ◌&&◌, ◌||◌, starts_with, text_eq, ◌==◌,
  if◌then◌else◌,
}

pub record FileTrackingOptions : Type 0 where
  pub include_paths : List Text
  pub exclude_paths : List Text
  pub include_extensions : List Text
  pub exclude_extensions : List Text
  pub max_file_size : ℕ
  pub use_deltas : Bool
  pub track_metadata : Bool

abbrev pub default_options : FileTrackingOptions
default_options = record {
  include_paths = [];
  exclude_paths = [];
  include_extensions = [];
  exclude_extensions = [];
  max_file_size = 10485760;
  use_deltas = true;
  track_metadata = true;
}

-- Whether the path lies below one of some directories.
unfoldable pub is_below : Text → List Text → Bool
is_below path [] = false
is_below path (dir ∷ dirs) = starts_with dir path || is_below path dirs

unfoldable pub is_one_of : Text → List Text → Bool
is_one_of text [] = false
is_one_of text (t ∷ texts) = text_eq text t || is_one_of text texts

-- The text behind the last dot; `found` is what stands behind the last one so far.
unfoldable pub extension : Text → Text → Text
extension found [] = found
extension found (c ∷ path) = extension (if c == b'.' then path else found) path

unfoldable pub is_included : List Text → Bool → Bool
is_included [] found = true
is_included (t ∷ texts) found = found

unfoldable pub should_track_file : FileTrackingOptions → Text → Bool
unfolding is_below is_one_of extension is_included
should_track_file options path =
    let ext = extension [] path in
    not (is_below path options.exclude_paths)
    && (is_included options.include_paths (is_below path options.include_paths)
        && (not (is_one_of ext options.exclude_extensions)
            && is_included options.include_extensions (is_one_of ext options.include_extensions)))
