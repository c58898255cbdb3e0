-- ===== src/FileOperation/Kind.antt =====
-- `FileOperationType` with `fileOpTypeToString` and `stringToFileOpType`
-- (src/real_process/file_operation.cpp).
use process_snapshot.Prelude.{
  ℕ, ◌^◌, ◌≤◌, ◌<◌, ◌≡◌, refl, Text, codes, text_eq, ◌==◌, if◌then◌else◌, arith,
}

pub data FileOperationType : Type 0 where
  create write truncate delete rename chmod chown mkdir rmdir symlink append : FileOperationType
  unnamed : ℕ → FileOperationType

unfoldable pub type_to_int : FileOperationType → ℕ
type_to_int FileOperationType.create = 0
type_to_int FileOperationType.write = 1
type_to_int FileOperationType.truncate = 2
type_to_int FileOperationType.delete = 3
type_to_int FileOperationType.rename = 4
type_to_int FileOperationType.chmod = 5
type_to_int FileOperationType.chown = 6
type_to_int FileOperationType.mkdir = 7
type_to_int FileOperationType.rmdir = 8
type_to_int FileOperationType.symlink = 9
type_to_int FileOperationType.append = 10
type_to_int (FileOperationType.unnamed n) = n

unfoldable pub type_of_int : ℕ → FileOperationType
type_of_int n =
    if n == 0
    then FileOperationType.create
    else if n == 1
    then FileOperationType.write
    else if n == 2
    then FileOperationType.truncate
    else if n == 3
    then FileOperationType.delete
    else if n == 4
    then FileOperationType.rename
    else if n == 5
    then FileOperationType.chmod
    else if n == 6
    then FileOperationType.chown
    else if n == 7
    then FileOperationType.mkdir
    else if n == 8
    then FileOperationType.rmdir
    else if n == 9
    then FileOperationType.symlink
    else if n == 10
    then FileOperationType.append
    else FileOperationType.unnamed n

unfoldable pub type_to_string : FileOperationType → Text
type_to_string FileOperationType.create = codes "CREATE"
type_to_string FileOperationType.write = codes "WRITE"
type_to_string FileOperationType.truncate = codes "TRUNCATE"
type_to_string FileOperationType.delete = codes "DELETE"
type_to_string FileOperationType.rename = codes "RENAME"
type_to_string FileOperationType.chmod = codes "CHMOD"
type_to_string FileOperationType.chown = codes "CHOWN"
type_to_string FileOperationType.mkdir = codes "MKDIR"
type_to_string FileOperationType.rmdir = codes "RMDIR"
type_to_string FileOperationType.symlink = codes "SYMLINK"
type_to_string FileOperationType.append = codes "APPEND"
type_to_string (FileOperationType.unnamed n) = codes "UNKNOWN"

unfoldable pub string_to_type : Text → FileOperationType
string_to_type s =
    if text_eq s (codes "CREATE")
    then FileOperationType.create
    else if text_eq s (codes "WRITE")
    then FileOperationType.write
    else if text_eq s (codes "TRUNCATE")
    then FileOperationType.truncate
    else if text_eq s (codes "DELETE")
    then FileOperationType.delete
    else if text_eq s (codes "RENAME")
    then FileOperationType.rename
    else if text_eq s (codes "CHMOD")
    then FileOperationType.chmod
    else if text_eq s (codes "CHOWN")
    then FileOperationType.chown
    else if text_eq s (codes "MKDIR")
    then FileOperationType.mkdir
    else if text_eq s (codes "RMDIR")
    then FileOperationType.rmdir
    else if text_eq s (codes "SYMLINK")
    then FileOperationType.symlink
    else if text_eq s (codes "APPEND")
    then FileOperationType.append
    else FileOperationType.write

-- A value that the enum can hold: an enumerator, or another integer of 32 bits.
abbrev pub IsType : FileOperationType → Type 0
IsType (FileOperationType.unnamed n) = (11 ≤ n) × (n < 2 ^ 32)
IsType _ = Unit

pub type_of_int-to_int : (t : FileOperationType) → IsType t → type_of_int (type_to_int t) ≡ t
unfolding type_to_int type_of_int
type_of_int-to_int (FileOperationType.unnamed n) h = ground arith
type_of_int-to_int _ h = refl

pub type_to_int-lt : (t : FileOperationType) → IsType t → type_to_int t < 2 ^ 32
unfolding type_to_int
type_to_int-lt (FileOperationType.unnamed n) h = h.1
type_to_int-lt _ h = omega arith

-- The type that a name of `fileOpTypeToString` stands for: WRITE where it is no enumerator's.
abbrev pub named : FileOperationType → FileOperationType
named (FileOperationType.unnamed n) = FileOperationType.write
named t = t

-- Every enumerator is read back from its name, and the name of any other value reads as WRITE.
pub string_to_type-to_string : (t : FileOperationType) → string_to_type (type_to_string t) ≡ named t
unfolding type_to_string string_to_type text_eq
string_to_type-to_string FileOperationType.create = refl
string_to_type-to_string _ = refl
