-- ===== src/Reverse/Restores/Diffs.antt =====
-- The reversal of a write by the bytes that it had replaced (`reverseWrite` without a backup).
use process_snapshot.Prelude.{
  ℕ, ◌+◌, ◌≡◌, refl, Bytes, Text, [], ◌∷◌, Option, none, some, Bool, true, false, length, text_eq,
  text_eq_refl, sym, ◌∙◌, ap, if◌then◌else◌, codes, ◌==◌,
}
use process_snapshot.FileSystem.{FileSystem, IsFileSystem, Attempt}
use process_snapshot.FileSystem.Contents.{overwrite, fill}
use process_snapshot.FileOperation.Record.{FileContentDiff, FileOperation}
use process_snapshot.Reverse.Options.{ReverseResult, error}
use process_snapshot.Reverse.Steps.{after_call, flush, write_diffs, set_size, reverse_write}
use process_snapshot.Reverse.Restores.{after_call_inv}

module _ {F : Type 0} (fs : FileSystem F) where
  -- A file that opens, as a successful reversal shows.
  pub opened_inv :
      (o : FileOperation) (opens : Bool) (r : ReverseResult × F) (t : F)
      → let all =
          if opens then r else (error o.operation_id (codes "Cannot open file for writing"), t) in
        all.0.success ≡ true → all ≡ r
  opened_inv o true r t h = refl
  opened_inv o false r t h = absurd (cc)

  unfoldable pub write_diffs_of : FileOperation → FileContentDiff → F → ReverseResult × F
  write_diffs_of o diff t = set_size fs o (write_diffs fs o.path (diff ∷ []) none 0 t)

  unfoldable pub guarded : FileOperation → FileContentDiff → F → ReverseResult × F
  guarded o diff t =
      if fs.can_update o.path t
      then write_diffs_of o diff t
      else (error o.operation_id (codes "Cannot open file for writing"), t)

  pub reverse_write-diff :
      (o : FileOperation) (diff : FileContentDiff) (t : F)
      → o.original_content ≡ none
      → o.diffs ≡ diff ∷ []
      → reverse_write fs o t ≡ guarded o diff t
  unfolding reverse_write guarded write_diffs_of
  reverse_write-diff o diff t e1 e2 = rw e1 (rw e2 refl)

  pub set_size_same :
      (o : FileOperation) (buffer : Option (ℕ × Bytes)) (bytes : ℕ) (s : F)
      → o.original_size == o.new_size ≡ true
      → (set_size fs o ((buffer, bytes), s)).1 ≡ flush fs o.path buffer s
  unfolding set_size
  set_size_same o buffer bytes s e = rw e refl

  set_size_else :
      (o : FileOperation) (buffer : Option (ℕ × Bytes)) (bytes : ℕ) (s : F)
      → o.original_size == o.new_size ≡ false
      → let (r, s1) = after_call fs o o.path bytes (fs.resize o.path o.original_size s) in
        set_size fs o ((buffer, bytes), s) ≡ (r, flush fs o.path buffer s1)
  unfolding set_size
  set_size_else o buffer bytes s e = rw e refl

  -- The difference is in the file before the size is set, or in the buffer of the stream.
  pub once_direct :
      (o : FileOperation) (diff : FileContentDiff) (t : F)
      → fs.buffers diff.old_data ≡ false
      → write_diffs_of o diff t
        ≡ set_size fs o
            ((none, 0 + length diff.old_data), fs.write_at o.path diff.offset diff.old_data t)
  unfolding write_diffs_of write_diffs flush
  once_direct o diff t e = rw e refl

  pub once_buffered :
      (o : FileOperation) (diff : FileContentDiff) (t : F)
      → fs.buffers diff.old_data ≡ true
      → write_diffs_of o diff t
        ≡ set_size fs o ((some (diff.offset, diff.old_data), 0 + length diff.old_data), t)
  unfolding write_diffs_of write_diffs flush
  once_buffered o diff t e = rw e refl

module _ {F : Type 0} (fs : FileSystem F) (laws : IsFileSystem fs) (dir : Text) where
  pub set_size_other :
      (o : FileOperation) (buffer : Option (ℕ × Bytes)) (bytes : ℕ) (s : F)
      → o.original_size == o.new_size ≡ false
      → (set_size fs o ((buffer, bytes), s)).0.success ≡ true
      → (b : Bool) × ((fs.resize o.path o.original_size s).0 ≡ Attempt.done b)
        × ((set_size fs o ((buffer, bytes), s)).1
            ≡ flush fs o.path buffer (fs.resize o.path o.original_size s).1)
  set_size_other o buffer bytes s e h =
      let w = fs.resize o.path o.original_size s in
      let same = set_size_else fs o buffer bytes s e in
      let (b, done, state) =
        after_call_inv fs laws dir o o.path bytes w (sym (ap (λ u. u.0.success) same) ∙ h) in
      (b, done, ap (λ u. u.1) same ∙ ap (λ u. flush fs o.path buffer u) state)

  -- The contents at the path and elsewhere.
  abbrev pub Holds : Text → F → Bytes → F → Type 0
  Holds p t d u =
      (laws.content u p ≡ some d)
      × ((q : Text) → text_eq q p ≡ false → laws.content u q ≡ laws.content t q)

  pub write_at-Holds :
      (p : Text) (off : ℕ) (b : Bytes) (t u : F) (d : Bytes)
      → Holds p t d u
      → Holds p t (overwrite d off b) (fs.write_at p off b u)
  write_at-Holds p off b t u d (here, others) = (
    laws.write_at_lem p p off b u here
        ∙ ap (λ at. if at then some (overwrite d off b) else laws.content u p) (text_eq_refl p),
    λ q away.
        laws.write_at_lem p q off b u here
        ∙ ap (λ at. if at then some (overwrite d off b) else laws.content u q) away
        ∙ others q away,
  )

  pub resize-Holds :
      (p : Text) (n : ℕ) (t u : F) (d : Bytes) (b : Bool)
      → Holds p t d u
      → (fs.resize p n u).0 ≡ Attempt.done b
      → Holds p t (fill d n) (fs.resize p n u).1
  resize-Holds p n t u d b (here, others) done = (
    laws.resize_lem p p n u here done
        ∙ ap (λ at. if at then some (fill d n) else laws.content u p) (text_eq_refl p),
    λ q away.
        laws.resize_lem p q n u here done
        ∙ ap (λ at. if at then some (fill d n) else laws.content u q) away
        ∙ others q away,
  )
