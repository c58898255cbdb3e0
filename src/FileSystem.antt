-- ===== src/FileSystem.antt =====
-- What the program uses of the file system: the calls of `std::filesystem`, of `std::fstream` and of
-- POSIX, over a state `F` of the files, and what it relies on in `IsFileSystem`. A path is a text,
-- and different texts name different files.
pub mod Contents
use process_snapshot.Prelude.{
  ℕ, ◌≡◌, ◌≢◌, Bytes, Text, Option, none, some, Bool, true, false, if◌then◌else◌, text_eq, length,
}
use process_snapshot.FileSystem.Contents.{overwrite, fill}

-- A call that may throw: its result, which is `true` where it has none, or the text of `what()`.
pub data Attempt : Type 0 where
  done : Bool → Attempt
  threw : Text → Attempt

-- An `std::ofstream` on a file and one `write`: it was not opened, the write failed, or all is
-- written.
pub data WriteOutcome : Type 0 where
  refused failed written : WriteOutcome

-- `struct stat`, as far as it is read.
pub record Stat : Type 0 where
  pub size : ℕ
  pub mode : ℕ
  pub uid : ℕ
  pub gid : ℕ

pub record FileSystem (F : Type 0) : Type 0 where
  pub exists : Text → F → Bool
  pub is_directory : Text → F → Bool
  pub is_empty : Text → F → Bool
  pub is_symlink : Text → F → Bool
  pub stat : Text → F → Option Stat
  -- An `std::ifstream` and all that it reads.
  pub read : Text → F → Option Bytes
  pub write : Text → Bytes → F → WriteOutcome × F
  -- Whether an `std::fstream` opens for reading and writing, and bytes written at an offset.
  pub can_update : Text → F → Bool
  -- Whether the stream keeps the bytes of a `write` in its buffer until the next seek or its end.
  pub buffers : Bytes → Bool
  pub write_at : Text → ℕ → Bytes → F → F
  pub resize : Text → ℕ → F → Attempt × F
  pub remove : Text → F → Attempt × F
  pub create_directories : Text → F → Attempt × F
  pub rename : Text → Text → F → Attempt × F
  pub copy_file : Text → Text → F → Attempt × F
  -- `none`, or the text of `strerror(errno)`.
  pub chmod : Text → ℕ → F → Option Text × F
  pub chown : Text → ℕ → ℕ → F → Option Text × F
  pub parent_path : Text → Text
  pub filename : Text → Text

-- The contents of the regular files, and how the calls change them. A call that throws changes
-- none, and a write to an open file completes: the device does not run full.
pub record IsFileSystem {F : Type 0} (fs : FileSystem F) : Type 0 where
  pub content : F → Text → Option Bytes
  pub read_lem : (p : Text) (s : F) {d : Bytes} → fs.read p s ≡ some d → content s p ≡ some d
  pub stat_lem :
      (p : Text) (s : F) {st : Stat} {d : Bytes}
      → fs.stat p s ≡ some st
      → content s p ≡ some d
      → st.size ≡ length d
  pub write_complete : (p : Text) (d : Bytes) (s : F) → (fs.write p d s).0 ≢ WriteOutcome.failed
  pub write_lem :
      (p q : Text) (d : Bytes) (s : F)
      → (fs.write p d s).0 ≡ WriteOutcome.written
      → content (fs.write p d s).1 q ≡ (if text_eq q p then some d else content s q)
  pub write_at_lem :
      (p q : Text) (off : ℕ) (b : Bytes) (s : F) {d : Bytes}
      → content s p ≡ some d
      → content (fs.write_at p off b s) q
        ≡ (if text_eq q p then some (overwrite d off b) else content s q)
  pub resize_lem :
      (p q : Text) (n : ℕ) (s : F) {d : Bytes} {b : Bool}
      → content s p ≡ some d
      → (fs.resize p n s).0 ≡ Attempt.done b
      → content (fs.resize p n s).1 q ≡ (if text_eq q p then some (fill d n) else content s q)
  pub remove_lem :
      (p q : Text) (s : F)
      → (fs.remove p s).0 ≡ Attempt.done true
      → content (fs.remove p s).1 q ≡ (if text_eq q p then none else content s q)
  pub rename_lem :
      (p r q : Text) (s : F) {b : Bool}
      → (fs.rename p r s).0 ≡ Attempt.done b
      → content (fs.rename p r s).1 q
        ≡ (if text_eq q r then content s p else if text_eq q p then none else content s q)
  -- A copy changes its target only, and these calls no contents at all.
  pub copy_file_lem :
      (p r q : Text) (s : F) → text_eq q r ≡ false → content (fs.copy_file p r s).1 q ≡ content s q
  pub create_directories_lem :
      (p q : Text) (s : F) → content (fs.create_directories p s).1 q ≡ content s q
  pub chmod_lem : (p q : Text) (m : ℕ) (s : F) → content (fs.chmod p m s).1 q ≡ content s q
  pub chown_lem : (p q : Text) (u g : ℕ) (s : F) → content (fs.chown p u g s).1 q ≡ content s q
