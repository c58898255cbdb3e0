-- ===== src/FileOperation/Record/RoundTrip.antt =====
-- What a stored `FileOperation` gives when it is read back.
use process_snapshot.Prelude.{
  ◌*◌, ◌/◌, ◌<◌, ◌≡◌, Bytes, Text, ◌++◌, Option, none, some, Bool, true, false, All, length,
  append_assoc, arith,
}
use process_snapshot.Wire.{Reader, ◌>>=◌, pure, u32_mod, u64_mod, to_u32}
use process_snapshot.Wire.Laws.{
  read_u8-bind, read_short32-bind, read_short64-bind, read_bytes-bind, read_many-bind, bind_assoc,
  pure-bind,
}
use process_snapshot.FileOperation.Kind.{IsType, type_of_int-to_int, type_to_int-lt}
use process_snapshot.FileOperation.Record.{
  FileContentDiff, FileOperation, milliseconds, of_milliseconds, append_string, append_bytes,
  append_flag, append_content, append_diff, serialize, read_string, read_sized, read_flag,
  content_if, read_content, read_diff, deserialize,
}

abbrev pub IsContent : Option Bytes → Type 0
IsContent none = Unit
IsContent (some s) = length s < u64_mod

abbrev pub IsDiff : FileContentDiff → Type 0
IsDiff d = (d.offset < u64_mod) × (length d.old_data < u64_mod) × (length d.new_data < u64_mod)

-- The values that the fields' types hold, with lengths that fit the bits they are stored in.
pub record IsStorable (o : FileOperation) : Type 0 where
  pub operation_id : o.operation_id < u64_mod
  pub type : IsType o.type
  pub timestamp : o.timestamp < u64_mod
  pub path : length o.path < u32_mod
  pub original_path : length o.original_path < u32_mod
  pub fd : o.fd < u32_mod
  pub offset : o.offset < u64_mod
  pub original_size : o.original_size < u64_mod
  pub new_size : o.new_size < u64_mod
  pub original_content : IsContent o.original_content
  pub diff_count : length o.diffs < u32_mod
  pub diffs : All IsDiff o.diffs
  pub original_mode : o.original_mode < u32_mod
  pub new_mode : o.new_mode < u32_mod
  pub original_uid : o.original_uid < u32_mod
  pub original_gid : o.original_gid < u32_mod
  pub new_uid : o.new_uid < u32_mod
  pub new_gid : o.new_gid < u32_mod
  pub description : length o.description < u32_mod
  pub pid : o.pid < u32_mod

-- What the format keeps: whole milliseconds of the time, and all of the rest.
abbrev pub stored : FileOperation → FileOperation
stored o = record o { timestamp = o.timestamp / 1000000 * 1000000 }

module _ {B : Type 0} where
  read_string-bind :
      (s : Text) (rest : Bytes) (f : Text → Reader B)
      → length s < u32_mod
      → (read_string >>= f) (append_string s ++ rest) ≡ f s rest
  unfolding read_string append_string
  read_string-bind s rest f h =
      let e : to_u32 (length s) ≡ length s = omega arith in
      simp (e, append_assoc, bind_assoc, read_short32-bind, read_bytes-bind, h)

  read_sized-bind :
      (s rest : Bytes) (f : Bytes → Reader B)
      → length s < u64_mod
      → (read_sized >>= f) (append_bytes s ++ rest) ≡ f s rest
  unfolding read_sized append_bytes
  read_sized-bind s rest f h =
      simp (append_assoc, bind_assoc, read_short64-bind, read_bytes-bind, h)

  read_flag-bind :
      (b : Bool) (rest : Bytes) (f : Bool → Reader B)
      → (read_flag >>= f) (append_flag b ++ rest) ≡ f b rest
  unfolding read_flag append_flag
  read_flag-bind true rest f =
      let small : 1 < 256 = omega arith in simp (bind_assoc, read_u8-bind, small, pure-bind)
  read_flag-bind false rest f =
      let small : 0 < 256 = omega arith in simp (bind_assoc, read_u8-bind, small, pure-bind)

module _ {B : Type 0} where
  read_content-bind :
      (o : Option Bytes) (rest : Bytes) (f : Option Bytes → Reader B)
      → IsContent o
      → (read_content >>= f) (append_content o ++ rest) ≡ f o rest
  unfolding read_content append_content content_if
  read_content-bind none rest f h = simp (bind_assoc, read_flag-bind, pure-bind)
  read_content-bind (some s) rest f h =
      simp (append_assoc, bind_assoc, read_flag-bind, read_sized-bind, h, pure-bind)

read_diff_lem :
    (d : FileContentDiff) (rest : Bytes)
    → IsDiff d
    → read_diff (append_diff d ++ rest) ≡ some (d, rest)
unfolding read_diff append_diff pure
read_diff_lem d rest h = simp (append_assoc, read_short64-bind, read_sized-bind, h.0, h.1, h.2)

-- An operation that is written and read back is the same but for the fraction of a millisecond,
-- whatever bytes stand behind it.
pub deserialize-serialize_operation :
    (o : FileOperation) (rest : Bytes)
    → IsStorable o
    → deserialize (serialize o ++ rest) ≡ some (stored o, rest)
unfolding deserialize serialize milliseconds of_milliseconds pure
deserialize-serialize_operation o rest v =
    let type = type_to_int-lt o.type v.type in
    let ts : o.timestamp / 1000000 < u64_mod = omega (arith, v.timestamp) in
    let diff_count : to_u32 (length o.diffs) ≡ length o.diffs = omega (arith, v.diff_count) in
    let many = read_many-bind {B = FileOperation} read_diff append_diff IsDiff read_diff_lem in
    simp (
      append_assoc,
      diff_count,
      read_short64-bind,
      read_short32-bind,
      read_string-bind,
      read_content-bind,
      read_flag-bind,
      many,
      v.operation_id,
      type,
      ts,
      v.path,
      v.original_path,
      v.fd,
      v.offset,
      v.original_size,
      v.new_size,
      v.original_content,
      v.diff_count,
      v.diffs,
      v.original_mode,
      v.new_mode,
      v.original_uid,
      v.original_gid,
      v.new_uid,
      v.new_gid,
      v.description,
      v.pid,
      type_of_int-to_int o.type v.type,
    )
