-- ===== src/Reverse/Restores/Writes.antt =====
-- The reversal of a write of which the tracker recorded one difference.
use process_snapshot.Prelude.{
  ◌+◌, ◌<◌, ◌≡◌, refl, Bytes, Text, [], ◌∷◌, none, some, true, false, length, starts_with,
  Bool-cases, inl, inr, ◌⊎◌, arith, sym, ◌∙◌, ap, subst, ◌==◌, ==_iff,
}
use process_snapshot.FileSystem.{FileSystem, IsFileSystem}
use process_snapshot.FileSystem.Contents.{
  overwrite, fill, slice, overwrite_restore, overwrite_restore_same, le_length-overwrite,
  length-slice,
}
use process_snapshot.FileOperation.Kind.{FileOperationType}
use process_snapshot.FileOperation.Record.{FileContentDiff, FileOperation}
use process_snapshot.Reverse.Steps.{flush, reverse_write, reverse_type}
use process_snapshot.Reverse.Restores.{Restores}
use process_snapshot.Reverse.Restores.Kinds.{OnlyAt, Same-OnlyAt, of_type, through}
use process_snapshot.Reverse.Restores.Diffs.{
  opened_inv, write_diffs_of, guarded, reverse_write-diff, set_size_same, set_size_other,
  once_direct, once_buffered, Holds, write_at-Holds, resize-Holds,
}

-- A write of `b` at the offset of the difference, and what the tracker recorded of it.
pub record IsWrite (o : FileOperation) (diff : FileContentDiff) (d b : Bytes) : Type 0 where
  pub one : o.diffs ≡ diff ∷ []
  pub no_backup : o.original_content ≡ none
  pub old_data : diff.old_data ≡ slice d diff.offset (length b)
  pub original_size : o.original_size ≡ length d
  pub new_size : o.new_size ≡ length (overwrite d diff.offset b)

module _ {F : Type 0} (fs : FileSystem F) (laws : IsFileSystem fs) (dir : Text) where
  restored : FileOperation → FileContentDiff → F → F
  restored o diff t = fs.write_at o.path diff.offset diff.old_data t

  restored-Holds :
      (o : FileOperation) (diff : FileContentDiff) (d b : Bytes) (t : F)
      → IsWrite o diff d b
      → laws.content t o.path ≡ some (overwrite d diff.offset b)
      → Holds fs laws dir o.path t
          (overwrite (overwrite d diff.offset b) diff.offset (slice d diff.offset (length b)))
          (restored o diff t)
  unfolding restored
  restored-Holds o diff d b t w now =
      subst
        (λ old.
          Holds fs laws dir o.path t (overwrite (overwrite d diff.offset b) diff.offset old)
            (restored o diff t))
        w.old_data
        (write_at-Holds fs laws dir o.path diff.offset diff.old_data t t (overwrite d diff.offset b)
          (now, λ q away. refl))

  -- With an unchanged size the old bytes are written back, with or without the buffer.
  same_size-state :
      (o : FileOperation) (diff : FileContentDiff) (t : F)
      → o.original_size == o.new_size ≡ true
      → (write_diffs_of fs o diff t).1 ≡ restored o diff t
  unfolding flush restored
  same_size-state o diff t e = elim (Bool-cases (fs.buffers diff.old_data)) [
    | inl buffered ↦
        ap (λ w. w.1) (once_buffered fs o diff t buffered)
        ∙ set_size_same fs o (some (diff.offset, diff.old_data)) (0 + length diff.old_data) t e
    | inr direct ↦
        ap (λ w. w.1) (once_direct fs o diff t direct)
        ∙ set_size_same fs o none (0 + length diff.old_data) (restored o diff t) e
  ]

  other_size-Holds :
      (o : FileOperation) (diff : FileContentDiff) (d b : Bytes) (t : F)
      → IsWrite o diff d b
      → laws.content t o.path ≡ some (overwrite d diff.offset b)
      → fs.buffers diff.old_data ≡ false
      → o.original_size == o.new_size ≡ false
      → (write_diffs_of fs o diff t).0.success ≡ true
      → Holds fs laws dir o.path t d (write_diffs_of fs o diff t).1
  unfolding flush restored
  other_size-Holds o diff d b t w now direct e h =
      let once = once_direct fs o diff t direct in
      let (done, resized, state) =
        set_size_other fs laws dir o none (0 + length diff.old_data) (restored o diff t) e
          (sym (ap (λ r. r.0.success) once) ∙ h) in
      subst (λ u. Holds fs laws dir o.path t d u) (sym (ap (λ r. r.1) once ∙ state))
        (subst
          (λ x.
            Holds fs laws dir o.path t x (fs.resize o.path o.original_size (restored o diff t)).1)
          (ap (fill _) w.original_size ∙ overwrite_restore d diff.offset b)
          (resize-Holds fs laws dir o.path o.original_size t (restored o diff t) _ done
            (restored-Holds o diff d b t w now) resized))

  once-Holds :
      (o : FileOperation) (diff : FileContentDiff) (d b : Bytes) (t : F)
      → IsWrite o diff d b
      → (fs.buffers diff.old_data ≡ false) ⊎ (o.original_size ≡ o.new_size)
      → laws.content t o.path ≡ some (overwrite d diff.offset b)
      → (write_diffs_of fs o diff t).0.success ≡ true
      → Holds fs laws dir o.path t d (write_diffs_of fs o diff t).1
  once-Holds o diff d b t w how now h = elim (Bool-cases (o.original_size == o.new_size)) [
    | inl same ↦
        let sizes = sym w.original_size ∙ (==_iff o.original_size o.new_size).0 same ∙ w.new_size in
        subst (λ u. Holds fs laws dir o.path t d u) (sym (same_size-state o diff t same))
          (subst (λ x. Holds fs laws dir o.path t x (restored o diff t))
            (overwrite_restore_same d diff.offset b sizes) (restored-Holds o diff d b t w now))
    | inr other ↦ elim how [
      | inl direct ↦ other_size-Holds o diff d b t w now direct other h
      | inr same ↦ absurd (cc ((==_iff o.original_size o.new_size).1 same))
    ]
  ]

  -- A write with its one difference is undone, if the stream does not buffer the old bytes or the
  -- size did not change.
  pub write_diff-Restores :
      (o : FileOperation) (diff : FileContentDiff) (d b : Bytes) (s s' : F)
      → o.type ≡ FileOperationType.write
      → IsWrite o diff d b
      → (fs.buffers diff.old_data ≡ false) ⊎ (o.original_size ≡ o.new_size)
      → starts_with dir o.path ≡ false
      → laws.content s o.path ≡ some d
      → laws.content s' o.path ≡ some (overwrite d diff.offset b)
      → OnlyAt fs laws dir o.path s s'
      → Restores fs laws dir o s s'
  unfolding reverse_type guarded
  write_diff-Restores o diff d b s s' kind w how out before now only =
      of_type fs laws dir o s s' kind λ t same h.
        let e = reverse_write-diff fs o diff t w.no_backup w.one in
        let e' =
          e
          ∙ opened_inv fs o (fs.can_update o.path t) (write_diffs_of fs o diff t) t
              (sym (ap (λ r. r.0.success) e) ∙ h) in
        through fs laws dir s e'
          (λ h'.
            let (here, others) = once-Holds o diff d b t w how (sym (same o.path out) ∙ now) h' in
            Same-OnlyAt fs laws dir o.path s s' t (write_diffs_of fs o diff t).1 only same
              (here ∙ sym before) others)
          h

  sizes_differ :
      (o : FileOperation) (diff : FileContentDiff) (d b : Bytes)
      → IsWrite o diff d b
      → length d < diff.offset + length b
      → o.original_size == o.new_size ≡ false
  sizes_differ o diff d b w longer =
      ground (arith, w.original_size, w.new_size, le_length-overwrite d diff.offset b)

  -- The other case: the stream keeps the old bytes until the file has its old size again, and then
  -- writes them, some behind that end. The file stays longer than it was.
  pub buffered_diff-longer :
      (o : FileOperation) (diff : FileContentDiff) (d b : Bytes) (t : F)
      → IsWrite o diff d b
      → fs.buffers diff.old_data ≡ true
      → length d < diff.offset + length b
      → laws.content t o.path ≡ some (overwrite d diff.offset b)
      → (reverse_write fs o t).0.success ≡ true
      → (r : Bytes) × (laws.content (reverse_write fs o t).1 o.path ≡ some r) × length d < length r
  unfolding flush guarded restored
  buffered_diff-longer o diff d b t w buffered longer now h =
      let e = reverse_write-diff fs o diff t w.no_backup w.one in
      let once =
        e
        ∙ opened_inv fs o (fs.can_update o.path t) (write_diffs_of fs o diff t) t
            (sym (ap (λ r. r.0.success) e) ∙ h)
        ∙ once_buffered fs o diff t buffered in
      let (done, resized, state) =
        set_size_other fs laws dir o (some (diff.offset, diff.old_data)) (0 + length diff.old_data)
          t (sizes_differ o diff d b w longer) (sym (ap (λ r. r.0.success) once) ∙ h) in
      let short = (fs.resize o.path o.original_size t).1 in
      let r =
        overwrite (fill (overwrite d diff.offset b) o.original_size) diff.offset diff.old_data in
      let holds : Holds fs laws dir o.path t r (restored o diff short) =
        write_at-Holds fs laws dir o.path diff.offset diff.old_data t short _ (
          resize-Holds fs laws dir o.path o.original_size t t _ done (now, λ q away. refl)
            resized) in
      (
        r,
        ap (λ u. laws.content u o.path) (ap (λ u. u.1) once ∙ state) ∙ holds.0,
        omega (
          arith,
          longer,
          le_length-overwrite (fill (overwrite d diff.offset b) o.original_size) diff.offset
              diff.old_data,
          ap length w.old_data,
          length-slice d diff.offset (length b),
        ),
      )
