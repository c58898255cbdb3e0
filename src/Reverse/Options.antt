-- ===== src/Reverse/Options.antt =====
-- The records of `ReverseExecutor` (include/real_process/reverse_executor.hpp) and its filter.
use process_snapshot.Prelude.{
  ℕ, Text, List, [], ◌∷◌, Option, none, some, Bool, true, false, not, ◌&&◌, ◌||◌, codes, ◌==◌,
}
use process_snapshot.FileOperation.Kind.{FileOperationType, type_to_int}
use process_snapshot.FileOperation.Record.{FileOperation}

pub record ReverseResult : Type 0 where
  pub success : Bool
  pub error_message : Text
  pub operation_id : ℕ
  pub bytes_restored : ℕ
  pub affected_path : Text

abbrev pub ok : ℕ → Text → ℕ → ReverseResult
ok id path bytes = record {
  success = true;
  error_message = [];
  operation_id = id;
  bytes_restored = bytes;
  affected_path = path;
}

abbrev pub error : ℕ → Text → ReverseResult
error id message = record {
  success = false;
  error_message = message;
  operation_id = id;
  bytes_restored = 0;
  affected_path = [];
}

-- Without the `warnings`, which nothing fills. The duration is in milliseconds.
pub record BatchReverseResult : Type 0 where
  pub all_succeeded : Bool
  pub total_operations : ℕ
  pub success_count : ℕ
  pub fail_count : ℕ
  pub skipped_count : ℕ
  pub results : List ReverseResult
  pub duration : ℕ

pub record ReverseOptions : Type 0 where
  pub stop_on_error : Bool
  pub dry_run : Bool
  pub create_backups : Bool
  pub backup_dir : Text
  pub validate_before_reverse : Bool
  pub preserve_timestamps : Bool
  pub reverse_newest_first : Bool
  pub include_types : List FileOperationType
  pub exclude_types : List FileOperationType
  pub filter : Option (FileOperation → Bool)

abbrev pub default_options : ReverseOptions
default_options = record {
  stop_on_error = false;
  dry_run = false;
  create_backups = true;
  backup_dir = codes "/tmp/checkpoint_backups";
  validate_before_reverse = true;
  preserve_timestamps = true;
  reverse_newest_first = true;
  include_types = [];
  exclude_types = [];
  filter = none;
}

abbrev pub safe : ReverseOptions
safe = record default_options {
  stop_on_error = true;
  create_backups = true;
  validate_before_reverse = true;
}

abbrev pub fast : ReverseOptions
fast = record default_options { create_backups = false; validate_before_reverse = false }

abbrev pub preview : ReverseOptions
preview = record default_options { dry_run = true }

-- `ReverseExecutor::Impl`: the options and the two counters.
pub record ReverseExecutor : Type 0 where
  pub options : ReverseOptions
  pub total_reversed : ℕ
  pub total_bytes_restored : ℕ

unfoldable pub has_type : FileOperationType → List FileOperationType → Bool
has_type type [] = false
has_type type (t ∷ types) = type_to_int type == type_to_int t || has_type type types

unfoldable pub passes : Option (FileOperation → Bool) → FileOperation → Bool
passes none o = true
passes (some filter) o = filter o

unfoldable pub is_included : FileOperationType → List FileOperationType → Bool
is_included type [] = true
is_included type (t ∷ types) = has_type type (t ∷ types)

unfoldable pub should_process : ReverseOptions → FileOperation → Bool
unfolding is_included has_type passes
should_process options o =
    is_included o.type options.include_types
    && (not (has_type o.type options.exclude_types) && passes options.filter o)
