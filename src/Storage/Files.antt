-- ===== src/Storage/Files.antt =====
-- `FileStorage` (src/state/storage.cpp) over the calls on files. What the directory iterator shows, and
-- `std::stoull`, are parameters. An extension is a text that begins with a dot; a path is joined to
-- a name with a slash. `cleanup`, which asks for times of files, is left out.
pub mod Laws
use process_snapshot.Prelude.{
  ℕ, ◌+◌, Bytes, Text, List, [], ◌∷◌, ◌++◌, Option, none, some, Bool, true, false, codes, to_string,
  text_eq, ltb, length, ◌&&◌, ◌==◌, if◌then◌else◌,
}
use process_snapshot.Types.{Result, ok, failure, ErrorCode}
use process_snapshot.FileSystem.{FileSystem, Attempt, WriteOutcome, Stat}

pub record FileStorage : Type 0 where
  pub base_path : Text
  pub extension : Text

-- An entry of a directory.
pub record DirectoryEntry : Type 0 where
  pub is_regular_file : Bool
  pub entry_extension : Text
  pub stem : Text
  pub file_size : ℕ

-- The prefix of the names in a directory.
unfoldable pub with_slash : Text → Text
with_slash [] = []
with_slash (c ∷ []) = if c == b'/' then c ∷ [] else c ∷ b'/' ∷ []
with_slash (c ∷ d ∷ t) = c ∷ with_slash (d ∷ t)

unfoldable pub get_file_path : FileStorage → ℕ → Text
unfolding with_slash
get_file_path f id = with_slash f.base_path ++ (to_string id ++ f.extension)

-- The end of `save`, behind the `ofstream`.
unfoldable pub saved : WriteOutcome → Result (Unit {0})
saved WriteOutcome.refused = failure ErrorCode.io_error (codes "Cannot open file for writing")
saved WriteOutcome.failed = failure ErrorCode.io_error (codes "Write failed")
saved WriteOutcome.written = ok tt

unfoldable pub removed : Attempt → Result (Unit {0})
removed (Attempt.done b) = ok tt
removed (Attempt.threw what) = failure ErrorCode.io_error what

unfoldable pub insert_id : ℕ → List ℕ → List ℕ
insert_id id [] = id ∷ []
insert_id id (j ∷ ids) = if ltb j id then j ∷ insert_id id ids else id ∷ j ∷ ids

module _ {F : Type 0} (fs : FileSystem F) (f : FileStorage) where
  unfoldable pub save : ℕ → Bytes → F → Result (Unit {0}) × F
  unfolding get_file_path saved
  save id d s = let (outcome, s') = fs.write (get_file_path f id) d s in (saved outcome, s')

  unfoldable pub opened : Option Bytes → Result Bytes
  opened none = failure ErrorCode.io_error (codes "Cannot open file for reading")
  opened (some d) = ok d

  unfoldable pub load : ℕ → F → Result Bytes
  unfolding get_file_path opened
  load id s =
      if fs.exists (get_file_path f id) s
      then opened (fs.read (get_file_path f id) s)
      else failure ErrorCode.checkpoint_not_found []

  unfoldable pub remove : ℕ → F → Result (Unit {0}) × F
  unfolding get_file_path removed
  remove id s =
      let (result, s') = fs.remove (get_file_path f id) s in
      if fs.exists (get_file_path f id) s then (removed result, s') else (ok tt, s)

  unfoldable pub exists : ℕ → F → Bool
  unfolding get_file_path
  exists id s = fs.exists (get_file_path f id) s

  unfoldable pub size_of : Option Stat → ℕ
  size_of none = 0
  size_of (some st) = st.size

  unfoldable pub get_size : ℕ → F → ℕ
  unfolding get_file_path size_of
  get_size id s =
      if fs.exists (get_file_path f id) s then size_of (fs.stat (get_file_path f id) s) else 0

module _ (f : FileStorage) (stoull : Text → Option ℕ) where
  unfoldable pub add_id : Option ℕ → List ℕ → List ℕ
  unfolding insert_id
  add_id none ids = ids
  add_id (some id) ids = insert_id id ids

  -- The sorted ids of the entries.
  unfoldable pub list_all : List DirectoryEntry → List ℕ
  unfolding add_id
  list_all [] = []
  list_all (e ∷ entries) =
      let ids = list_all entries in
      if e.is_regular_file && text_eq e.entry_extension f.extension
      then add_id (stoull e.stem) ids
      else ids

unfoldable pub get_total_size : List DirectoryEntry → ℕ
get_total_size [] = 0
get_total_size (e ∷ entries) =
    let rest = get_total_size entries in if e.is_regular_file then e.file_size + rest else rest
