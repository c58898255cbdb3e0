-- ===== src/Reverse/Restores/Kinds.antt =====
-- Each type of operation, with the data that the tracker records for it.
use process_snapshot.Prelude.{
  ◌≡◌, refl, Bytes, Text, none, some, true, false, length, text_eq, text_eq_refl, text_eq→eq,
  Bool-cases, inl, inr, ◌⊎◌, sym, ◌∙◌, ap, subst, if◌then◌else◌, codes,
}
use process_snapshot.FileSystem.{FileSystem, IsFileSystem, WriteOutcome}
use process_snapshot.FileOperation.Kind.{FileOperationType}
use process_snapshot.FileOperation.Record.{FileOperation}
use process_snapshot.Reverse.Options.{ReverseResult}
use process_snapshot.Reverse.Steps.{
  restore_full, reverse_write, reverse_truncate, reverse_type, reverse_create,
}
use process_snapshot.Reverse.Restores.{Same, Restores, after_write_inv, after_remove_inv}

module _ {F : Type 0} (fs : FileSystem F) (laws : IsFileSystem fs) (dir : Text) where
  -- The contents differ at one path only.
  abbrev pub OnlyAt : Text → F → F → Type 0
  OnlyAt p s s' = (q : Text) → text_eq q p ≡ false → laws.content s q ≡ laws.content s' q

  -- A state in which the one path has its contents of `s` again.
  pub Same-OnlyAt :
      (p : Text) (s s' t u : F)
      → OnlyAt p s s'
      → Same fs laws dir s' t
      → laws.content u p ≡ laws.content s p
      → ((q : Text) → text_eq q p ≡ false → laws.content u q ≡ laws.content t q)
      → Same fs laws dir s u
  Same-OnlyAt p s s' t u only same here others q h = elim (Bool-cases (text_eq q p)) [
    | inl at ↦
        let e = text_eq→eq q p at in
        subst (λ x. laws.content s x ≡ laws.content u x) (sym e) (sym here)
    | inr away ↦ only q away ∙ same q h ∙ sym (others q away)
  ]

  -- The old contents, written to the one path.
  pub write-Same :
      (p : Text) (d : Bytes) (s s' t : F)
      → OnlyAt p s s'
      → laws.content s p ≡ some d
      → Same fs laws dir s' t
      → (fs.write p d t).0 ≡ WriteOutcome.written
      → Same fs laws dir s (fs.write p d t).1
  write-Same p d s s' t only before same wrote =
      Same-OnlyAt p s s' t (fs.write p d t).1 only same
        (laws.write_lem p p d t wrote
          ∙ ap (λ b. if b then some d else laws.content t p) (text_eq_refl p)
          ∙ sym before)
        (λ q away.
          laws.write_lem p q d t wrote ∙ ap (λ b. if b then some d else laws.content t q) away)

  restore_full-Same :
      (o : FileOperation) (d : Bytes) (s s' t : F)
      → OnlyAt o.path s s'
      → laws.content s o.path ≡ some d
      → Same fs laws dir s' t
      → (restore_full fs o d t).0.success ≡ true
      → Same fs laws dir s (restore_full fs o d t).1
  unfolding restore_full
  restore_full-Same o d s s' t only before same h =
      let w = fs.write o.path d t in
      let (wrote, state) =
        after_write_inv fs laws dir o (codes "Cannot open file for writing") (length d) w
          (laws.write_complete o.path d t) h in
      subst (λ u. Same fs laws dir s u) (sym state)
        (write-Same o.path d s s' t only before same wrote)

  -- The reversal of a type of operation, as in `Restores`.
  abbrev pub RestoresAs : FileOperationType → FileOperation → F → F → Type 0
  RestoresAs type o s s' =
      (t : F)
      → Same fs laws dir s' t
      → (reverse_type fs type o t).0.success ≡ true
      → Same fs laws dir s (reverse_type fs type o t).1

  pub of_type :
      (o : FileOperation) (s s' : F) {type : FileOperationType}
      → o.type ≡ type
      → RestoresAs type o s s'
      → Restores fs laws dir o s s'
  of_type o s s' kind f = subst (λ type. RestoresAs type o s s') (sym kind) f

  -- The same for an equal result.
  pub through :
      (s : F) {r r' : ReverseResult × F}
      → r ≡ r'
      → (r'.0.success ≡ true → Same fs laws dir s r'.1)
      → r.0.success ≡ true
      → Same fs laws dir s r.1
  through s e f h =
      subst (λ u. Same fs laws dir s u) (ap (λ w. w.1) (sym e))
        (f (sym (ap (λ w. w.0.success) e) ∙ h))

  reverse_write-full :
      (o : FileOperation) (d : Bytes) (t : F)
      → o.original_content ≡ some d
      → reverse_write fs o t ≡ restore_full fs o d t
  unfolding reverse_write
  reverse_write-full o d t backup = rw backup refl

  reverse_truncate-full :
      (o : FileOperation) (d : Bytes) (t : F)
      → o.original_content ≡ some d
      → reverse_truncate fs o t ≡ restore_full fs o d t
  unfolding reverse_truncate
  reverse_truncate-full o d t backup = rw backup refl

  -- A write or a truncation with a backup of the whole file.
  pub full_backup-Restores :
      (o : FileOperation) (d : Bytes) (s s' : F)
      → (o.type ≡ FileOperationType.write) ⊎ (o.type ≡ FileOperationType.truncate)
      → o.original_content ≡ some d
      → laws.content s o.path ≡ some d
      → OnlyAt o.path s s'
      → Restores fs laws dir o s s'
  unfolding reverse_type
  full_backup-Restores o d s s' (inl kind) backup before only = of_type o s s' kind λ t same h.
      through s (reverse_write-full o d t backup) (restore_full-Same o d s s' t only before same) h
  full_backup-Restores o d s s' (inr kind) backup before only = of_type o s s' kind λ t same h.
      through s (reverse_truncate-full o d t backup) (restore_full-Same o d s s' t only before same)
        h

  -- A creation of a file that was not there.
  pub create-Restores :
      (o : FileOperation) (s s' : F)
      → o.type ≡ FileOperationType.create
      → laws.content s o.path ≡ none
      → OnlyAt o.path s s'
      → Restores fs laws dir o s s'
  unfolding reverse_type reverse_create
  create-Restores o s s' kind before only = of_type o s s' kind λ t same h.
      let w = fs.remove o.path t in
      let (removed, state) = after_remove_inv fs laws dir o (codes "Failed to remove file") w h in
      subst (λ u. Same fs laws dir s u) (sym state)
        (Same-OnlyAt o.path s s' t w.1 only same
          (laws.remove_lem o.path o.path t removed
            ∙ ap (λ b. if b then none else laws.content t o.path) (text_eq_refl o.path)
            ∙ sym before)
          (λ q away.
            laws.remove_lem o.path q t removed
            ∙ ap (λ b. if b then none else laws.content t q) away))
