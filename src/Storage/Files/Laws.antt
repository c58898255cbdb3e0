-- ===== src/Storage/Files/Laws.antt =====
-- `FileStorage` (src/state/storage.cpp): what is loaded after `save` and `remove`.
use process_snapshot.Prelude.{
  ℕ, zero, suc, ◌+◌, ◌*◌, ◌-◌, ◌/◌, ◌%◌, ◌<◌, ◌≡◌, refl, Bytes, Text, [], ◌∷◌, ◌++◌, Option, none,
  some, Bool, true, false, emit_digits, to_string, text_eq, text_eq_refl, text_eq→eq, ltb,
  Bool-cases, inl, inr, ◌==◌, ==_iff, if◌then◌else◌, arith, ap, sym, ◌∙◌, subst,
}
use mathlib.Core.List.{append_cancel_left, append_cancel_right}
use process_snapshot.Types.{ok, failure, ErrorCode, is_success}
use process_snapshot.OrderedMap.{is_some}
use process_snapshot.Storage.{loaded}
use process_snapshot.FileSystem.{FileSystem, IsFileSystem, Attempt, WriteOutcome}
use process_snapshot.Storage.Files.{
  FileStorage, with_slash, get_file_path, saved, removed, save, opened, load, remove,
}

-- The number that decimal digits stand for, behind the digits of `v`.
value_from : ℕ → Text → ℕ
value_from v [] = v
value_from v (c ∷ t) = value_from (10 * v + (c - 48)) t

value_from-emit_digits :
    (fuel n : ℕ) (t : Text) → n < fuel → value_from 0 (emit_digits fuel n t) ≡ value_from n t
unfolding value_from emit_digits
value_from-emit_digits zero n t h = absurd (omega arith)
value_from-emit_digits (suc fuel) n t h = elim (Bool-cases (ltb n 10)) [
  | inl e ↦ rw e (ap (λ v. value_from v t) (omega arith))
  | inr e ↦ rw e (
      value_from-emit_digits fuel (n / 10) ((b'0' + n % 10) ∷ t) (ground (arith, e, h))
      ∙ ap (λ v. value_from v t) (omega arith))
]

to_string-injective : (m n : ℕ) → to_string m ≡ to_string n → m ≡ n
unfolding to_string value_from
to_string-injective m n h =
    sym (value_from-emit_digits (suc m) m [] (omega arith))
    ∙ ap (value_from 0) h
    ∙ value_from-emit_digits (suc n) n [] (omega arith)

get_file_path-injective :
    (f : FileStorage) (id j : ℕ) → get_file_path f j ≡ get_file_path f id → j ≡ id
unfolding get_file_path
get_file_path-injective f id j h = to_string-injective j id (
    append_cancel_right (to_string j) (to_string id) f.extension (
      append_cancel_left (with_slash f.base_path) (to_string j ++ f.extension)
        (to_string id ++ f.extension) h))

Bool-ext : (b c : Bool) → (b ≡ true → c ≡ true) → (c ≡ true → b ≡ true) → b ≡ c
Bool-ext true c to from = sym (to refl)
Bool-ext false true to from = from refl
Bool-ext false false to from = refl

text_eq-get_file_path :
    (f : FileStorage) (id j : ℕ) → text_eq (get_file_path f j) (get_file_path f id) ≡ (id == j)
text_eq-get_file_path f id j =
    Bool-ext (text_eq (get_file_path f j) (get_file_path f id)) (id == j)
      (λ same. (==_iff id j).1 (
        sym (
          get_file_path-injective f id j
            (text_eq→eq (get_file_path f j) (get_file_path f id) same))))
      (λ same.
        subst (λ k. text_eq (get_file_path f k) (get_file_path f id) ≡ true) ((==_iff id j).0 same)
          (text_eq_refl (get_file_path f id)))

module _ {F : Type 0} (fs : FileSystem F) (laws : IsFileSystem fs) (f : FileStorage)
    (reads : (p : Text) (s : F) → fs.read p s ≡ laws.content s p)
    (shown : (p : Text) (s : F) → fs.exists p s ≡ is_some (laws.content s p)) where
  opened_lem :
      (o : Option Bytes)
      → (if is_some o then opened fs f o else failure ErrorCode.checkpoint_not_found []) ≡ loaded o
  unfolding opened
  opened_lem none = refl
  opened_lem (some d) = refl

  load_lem : (id : ℕ) (s : F) → load fs f id s ≡ loaded (laws.content s (get_file_path f id))
  unfolding load
  load_lem id s =
      rw (shown (get_file_path f id) s, reads (get_file_path f id) s)
        (opened_lem (laws.content s (get_file_path f id)))

  loaded-if :
      (b : Bool) (d : Bytes) (o : Option Bytes)
      → loaded (if b then some d else o) ≡ (if b then ok d else loaded o)
  loaded-if true d o = refl
  loaded-if false d o = refl

  saved-written : (o : WriteOutcome) → is_success (saved o) ≡ true → o ≡ WriteOutcome.written
  unfolding saved
  saved-written WriteOutcome.refused h = absurd (cc)
  saved-written WriteOutcome.failed h = absurd (cc)
  saved-written WriteOutcome.written h = refl

  -- Where the calls read and show each file as it is: after a `save` that succeeds, the id loads the
  -- saved data, and every other id what it loaded before.
  pub load-save_file :
      (id j : ℕ) (d : Bytes) (s : F)
      → is_success (save fs f id d s).0 ≡ true
      → load fs f j (save fs f id d s).1 ≡ (if id == j then ok d else load fs f j s)
  unfolding save
  load-save_file id j d s h =
      rw
        (
          load_lem j (save fs f id d s).1,
          load_lem j s,
          laws.write_lem (get_file_path f id) (get_file_path f j) d s
              (saved-written (fs.write (get_file_path f id) d s).0 h),
          text_eq-get_file_path f id j,
        )
        (loaded-if (id == j) d (laws.content s (get_file_path f j)))

  loaded-unless :
      (b : Bool) (o : Option Bytes)
      → loaded (if b then none else o)
        ≡ (if b then failure ErrorCode.checkpoint_not_found [] else loaded o)
  loaded-unless true o = refl
  loaded-unless false o = refl

  removed-done : (o : Attempt) → is_success (removed o) ≡ true → (b : Bool) × (o ≡ Attempt.done b)
  unfolding removed
  removed-done (Attempt.done b) h = (b, refl)
  removed-done (Attempt.threw what) h = absurd (cc)

  -- What is no file is left as it is by the branch that removes nothing.
  loaded-absent :
      (b : Bool) (o p : Option Bytes)
      → is_some o ≡ false
      → (b ≡ true → p ≡ o)
      → loaded p ≡ (if b then failure ErrorCode.checkpoint_not_found [] else loaded p)
  loaded-absent false o p h e = refl
  loaded-absent true none p h e = rw (e refl) refl
  loaded-absent true (some d) p h e = absurd (cc)

  -- The same of a `remove` that succeeds, where a removal says `true` of a file that was there: the id
  -- is not found, and every other id loads what it loaded before.
  load-remove_file :
      ((p : Text) (s : F) (b : Bool)
        → fs.exists p s ≡ true
        → (fs.remove p s).0 ≡ Attempt.done b
        → b ≡ true)
      → (id j : ℕ) (s : F) → is_success (remove fs f id s).0 ≡ true
      → load fs f j (remove fs f id s).1
        ≡ (if id == j then failure ErrorCode.checkpoint_not_found [] else load fs f j s)
  unfolding remove
  load-remove_file tells id j s h = elim (Bool-cases (fs.exists (get_file_path f id) s)) [
    | inl there ↦
        let path = get_file_path f id in
        let done = removed-done (fs.remove path s).0 (rw there at h) in
        rw
          (
            there,
            load_lem j (fs.remove path s).1,
            load_lem j s,
            laws.remove_lem path (get_file_path f j) s
                (done.1 ∙ ap Attempt.done (tells path s done.0 there done.1)),
            text_eq-get_file_path f id j,
          )
          (loaded-unless (id == j) (laws.content s (get_file_path f j)))
    | inr absent ↦
        rw (absent, load_lem j s)
          (loaded-absent (id == j) (laws.content s (get_file_path f id))
            (laws.content s (get_file_path f j)) (sym (shown (get_file_path f id) s) ∙ absent)
            (λ e. ap (λ k. laws.content s (get_file_path f k)) (sym ((==_iff id j).0 e))))
  ]
