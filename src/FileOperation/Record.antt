-- ===== src/FileOperation/Record.antt =====
-- `FileContentDiff` and `FileOperation` with `serialize`, `deserialize` and `estimatedMemoryUsage`
-- (src/real_process/file_operation.cpp). A signed field (`fd`, `offset`, `pid`) is its bit pattern.
pub mod RoundTrip
use process_snapshot.Prelude.{
  ℕ, zero, suc, ◌+◌, ◌*◌, ◌/◌, Bytes, Text, List, [], ◌∷◌, ◌++◌, Option, none, some, Bool, true,
  false, not, length, ◌==◌, if◌then◌else◌,
}
use process_snapshot.Wire.{
  Reader, ◌>>=◌, pure, read_bytes, read_u8, read_short, read_many, write_many, u8_bytes, u32_bytes,
  u64_bytes, to_u32,
}
use process_snapshot.Utils.{Timestamp}
use process_snapshot.FileOperation.Kind.{FileOperationType, type_to_int, type_of_int}

pub record FileContentDiff : Type 0 where
  pub offset : ℕ
  pub old_data : Bytes
  pub new_data : Bytes

pub record FileOperation : Type 0 where
  pub operation_id : ℕ
  pub type : FileOperationType
  pub timestamp : Timestamp
  pub path : Text
  pub original_path : Text
  pub fd : ℕ
  pub offset : ℕ
  pub original_size : ℕ
  pub new_size : ℕ
  pub original_content : Option Bytes
  pub diffs : List FileContentDiff
  pub original_mode : ℕ
  pub new_mode : ℕ
  pub original_uid : ℕ
  pub original_gid : ℕ
  pub new_uid : ℕ
  pub new_gid : ℕ
  pub is_reversible : Bool
  pub was_reversed : Bool
  pub description : Text
  pub pid : ℕ

-- The default constructor, at a time that it leaves open.
abbrev pub new : FileOperation
new = record {
  operation_id = 0;
  type = FileOperationType.write;
  timestamp = 0;
  path = [];
  original_path = [];
  fd = 0xffff_ffff;
  offset = 0;
  original_size = 0;
  new_size = 0;
  original_content = none;
  diffs = [];
  original_mode = 0;
  new_mode = 0;
  original_uid = 0;
  original_gid = 0;
  new_uid = 0;
  new_gid = 0;
  is_reversible = true;
  was_reversed = false;
  description = [];
  pid = 0;
}

unfoldable pub milliseconds : Timestamp → ℕ
milliseconds t = t / 1000000

pub of_milliseconds : ℕ → Timestamp
of_milliseconds n = n * 1000000

-- The lambdas of `serialize`.
unfoldable pub append_string : Text → Bytes
append_string s = u32_bytes (to_u32 (length s)) ++ s

unfoldable pub append_bytes : Bytes → Bytes
append_bytes s = u64_bytes (length s) ++ s

unfoldable pub append_flag : Bool → Bytes
append_flag true = u8_bytes 1
append_flag false = u8_bytes 0

unfoldable pub append_content : Option Bytes → Bytes
append_content none = append_flag false
append_content (some s) = append_flag true ++ append_bytes s

unfoldable pub append_diff : FileContentDiff → Bytes
append_diff d = u64_bytes d.offset ++ (append_bytes d.old_data ++ append_bytes d.new_data)

unfoldable pub serialize : FileOperation → Bytes
serialize o =
    u64_bytes o.operation_id
    ++ (u32_bytes (type_to_int o.type)
        ++ (u64_bytes (milliseconds o.timestamp)
            ++ (append_string o.path
                ++ (append_string o.original_path
                    ++ (u32_bytes o.fd
                        ++ (u64_bytes o.offset
                            ++ (u64_bytes o.original_size
                                ++ (u64_bytes o.new_size
                                    ++ (append_content o.original_content
                                        ++ (u32_bytes (to_u32 (length o.diffs))
                                            ++ (write_many append_diff o.diffs
                                                ++ (u32_bytes o.original_mode
                                                    ++ (u32_bytes o.new_mode
                                                        ++ (u32_bytes o.original_uid
                                                            ++ (u32_bytes o.original_gid
                                                            ++ (u32_bytes o.new_uid
                                                            ++ (u32_bytes o.new_gid
                                                            ++ (append_flag o.is_reversible
                                                            ++ (append_flag o.was_reversed
                                                            ++ (append_string o.description
                                                            ++ u32_bytes o.pid))))))))))))))))))))

-- The lambdas of `deserialize`. Its integers may be cut short by the end of the data, its strings
-- and its `data[pos++]` may not.
pub read_string : Reader Text
read_string = do len ← read_short 4; read_bytes len

pub read_sized : Reader Bytes
read_sized = do len ← read_short 8; read_bytes len

pub read_flag : Reader Bool
read_flag = do b ← read_u8; pure (not (b == 0))

pub content_if : Bool → Reader (Option Bytes)
content_if true = do s ← read_sized; pure (some s)
content_if false = pure none

pub read_content : Reader (Option Bytes)
read_content = do present ← read_flag; content_if present

pub read_diff : Reader FileContentDiff
read_diff = do
  offset ← read_short 8
  old_data ← read_sized
  new_data ← read_sized
  pure (record { offset = offset; old_data = old_data; new_data = new_data })

unfoldable pub deserialize : Reader FileOperation
deserialize = do
  operation_id ← read_short 8
  type ← read_short 4
  ts ← read_short 8
  path ← read_string
  original_path ← read_string
  fd ← read_short 4
  offset ← read_short 8
  original_size ← read_short 8
  new_size ← read_short 8
  original_content ← read_content
  diff_count ← read_short 4
  diffs ← read_many diff_count read_diff
  original_mode ← read_short 4
  new_mode ← read_short 4
  original_uid ← read_short 4
  original_gid ← read_short 4
  new_uid ← read_short 4
  new_gid ← read_short 4
  is_reversible ← read_flag
  was_reversed ← read_flag
  description ← read_string
  pid ← read_short 4
  pure (record {
    operation_id = operation_id;
    type = type_of_int type;
    timestamp = of_milliseconds ts;
    path = path;
    original_path = original_path;
    fd = fd;
    offset = offset;
    original_size = original_size;
    new_size = new_size;
    original_content = original_content;
    diffs = diffs;
    original_mode = original_mode;
    new_mode = new_mode;
    original_uid = original_uid;
    original_gid = original_gid;
    new_uid = new_uid;
    new_gid = new_gid;
    is_reversible = is_reversible;
    was_reversed = was_reversed;
    description = description;
    pid = pid;
  })

abbrev pub has_full_backup : FileOperation → Bool
has_full_backup o = elim o.original_content [ none ↦ false | some s ↦ true ]

abbrev pub has_diffs : FileOperation → Bool
has_diffs o = elim o.diffs [ [] ↦ false | d ∷ l ↦ true ]

-- `sizeof` of the two structs is the compiler's, an argument here.
module _ (operation_size diff_size : ℕ) where
  diffs_usage : List FileContentDiff → ℕ
  diffs_usage [] = 0
  diffs_usage (d ∷ l) = diff_size + length d.old_data + length d.new_data + diffs_usage l

  content_usage : Option Bytes → ℕ
  content_usage none = 0
  content_usage (some s) = length s

  unfoldable pub estimated_memory_usage : FileOperation → ℕ
  unfolding diffs_usage content_usage
  estimated_memory_usage o =
      operation_size
      + length o.path
      + length o.original_path
      + content_usage o.original_content
      + diffs_usage o.diffs
      + length o.description
