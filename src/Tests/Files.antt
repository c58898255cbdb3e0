-- ===== src/Tests/Files.antt =====
-- Files in memory, for the tests. An argument says which bytes a stream keeps in its buffer.
use process_snapshot.Prelude.{
  ℕ, ◌≡◌, refl, Bytes, Text, [], Option, none, some, Bool, true, false, length, text_eq,
  if◌then◌else◌, ap, ◌∙◌, sym,
}
use process_snapshot.OrderedMap.{is_some}
use process_snapshot.FileSystem.{FileSystem, IsFileSystem, Attempt, WriteOutcome, Stat}
use process_snapshot.FileSystem.Contents.{overwrite, fill}

abbrev pub Files : Type 0
Files = Text → Option Bytes

abbrev pub put_file : Text → Option Bytes → Files → Files
put_file p d s = λ q. if text_eq q p then d else s q

pub stat_of : Option Bytes → Option Stat
stat_of none = none
stat_of (some d) = some (record { size = length d; mode = 420; uid = 0; gid = 0 })

pub write_at_of : Text → ℕ → Bytes → Option Bytes → Files → Files
write_at_of p off b none s = s
write_at_of p off b (some d) s = put_file p (some (overwrite d off b)) s

pub resize_of : Text → ℕ → Option Bytes → Files → Attempt × Files
resize_of p n none s = (Attempt.threw [], s)
resize_of p n (some d) s = (Attempt.done true, put_file p (some (fill d n)) s)

pub remove_of : Text → Option Bytes → Files → Attempt × Files
remove_of p none s = (Attempt.done false, s)
remove_of p (some d) s = (Attempt.done true, put_file p none s)

pub rename_of : Text → Text → Option Bytes → Files → Attempt × Files
rename_of p r none s = (Attempt.threw [], s)
rename_of p r (some d) s = (Attempt.done true, put_file r (some d) (put_file p none s))

unfoldable pub files : (Bytes → Bool) → FileSystem Files
unfolding stat_of write_at_of resize_of remove_of rename_of
files buffers = record {
  exists = λ p s. is_some (s p);
  is_directory = λ p s. false;
  is_empty = λ p s. false;
  is_symlink = λ p s. false;
  stat = λ p s. stat_of (s p);
  read = λ p s. s p;
  write = λ p d s. (WriteOutcome.written, put_file p (some d) s);
  can_update = λ p s. is_some (s p);
  buffers = buffers;
  write_at = λ p off b s. write_at_of p off b (s p) s;
  resize = λ p n s. resize_of p n (s p) s;
  remove = λ p s. remove_of p (s p) s;
  create_directories = λ p s. (Attempt.done true, s);
  rename = λ p r s. rename_of p r (s p) s;
  copy_file = λ p r s. (Attempt.done true, put_file r (s p) s);
  chmod = λ p m s. (none, s);
  chown = λ p u g s. (none, s);
  parent_path = λ p. [];
  filename = λ p. p;
}

at_some : (Bytes → Bytes) → Option Bytes → Option Bytes
at_some f none = none
at_some f (some d) = some (f d)

size_of : Option Stat → ℕ
size_of none = 0
size_of (some st) = st.size

length_of : Option Bytes → ℕ
length_of none = 0
length_of (some d) = length d

pub stat_of-size :
    (c : Option Bytes) {st : Stat} {d : Bytes}
    → stat_of c ≡ some st
    → c ≡ some d
    → st.size ≡ length d
unfolding stat_of size_of length_of
stat_of-size none h k = absurd (cc)
stat_of-size (some b) h k = ap size_of (sym h) ∙ ap length_of k

pub write_at_of-content :
    (p q : Text) (off : ℕ) (b : Bytes) (s : Files) (c : Option Bytes) {d : Bytes}
    → c ≡ some d
    → write_at_of p off b c s q ≡ (if text_eq q p then some (overwrite d off b) else s q)
unfolding write_at_of at_some
write_at_of-content p q off b s none h = absurd (cc)
write_at_of-content p q off b s (some c) h =
    ap (λ o. if text_eq q p then at_some (λ d. overwrite d off b) o else s q) h

pub resize_of-content :
    (p q : Text) (n : ℕ) (s : Files) (c : Option Bytes) {d : Bytes}
    → c ≡ some d
    → (resize_of p n c s).1 q ≡ (if text_eq q p then some (fill d n) else s q)
unfolding resize_of at_some
resize_of-content p q n s none h = absurd (cc)
resize_of-content p q n s (some c) h =
    ap (λ o. if text_eq q p then at_some (λ d. fill d n) o else s q) h

pub remove_of-content :
    (p q : Text) (s : Files) (c : Option Bytes)
    → (remove_of p c s).0 ≡ Attempt.done true
    → (remove_of p c s).1 q ≡ (if text_eq q p then none else s q)
unfolding remove_of
remove_of-content p q s none h = absurd (cc)
remove_of-content p q s (some c) h = refl

pub rename_of-content :
    (p r q : Text) (s : Files) (c : Option Bytes) {b : Bool}
    → (rename_of p r c s).0 ≡ Attempt.done b
    → (rename_of p r c s).1 q ≡ (if text_eq q r then c else if text_eq q p then none else s q)
unfolding rename_of
rename_of-content p r q s none h = absurd (cc)
rename_of-content p r q s (some c) h = refl

unfoldable pub files-IsFileSystem : (buffers : Bytes → Bool) → IsFileSystem (files buffers)
unfolding files
files-IsFileSystem buffers = record {
  content = λ s p. s p;
  read_lem = λ p s h. h;
  stat_lem = λ p s h k. stat_of-size (s p) h k;
  write_complete = λ p d s e. absurd (cc);
  write_lem = λ p q d s h. refl;
  write_at_lem = λ p q off b s h. write_at_of-content p q off b s (s p) h;
  resize_lem = λ p q n s h k. resize_of-content p q n s (s p) h;
  remove_lem = λ p q s h. remove_of-content p q s (s p) h;
  rename_lem = λ p r q s h. rename_of-content p r q s (s p) h;
  copy_file_lem = λ p r q s h. ap (λ at. if at then s p else s q) h;
  create_directories_lem = λ p q s. refl;
  chmod_lem = λ p q m s. refl;
  chown_lem = λ p q u g s. refl;
}
