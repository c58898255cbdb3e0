-- ===== src/Logger/Writing.antt =====
-- What the outputs of the logger get in any interleaving (src/logger/operation_logger.cpp).
use process_snapshot.Prelude.{
  ℕ, ◌+◌, ◌≡◌, refl, Text, List, [], ◌∷◌, ◌++◌, map, map-append, append_assoc, ap, ap₂, sym, ◌∙◌,
  arith, Bool-cases, inl, inr, text_eq, if◌then◌else◌,
}
use process_snapshot.Logger.{
  LogEntry, OperationLogger, Thread, Control, write_all, append, set_min_level, add_operation,
  complete_operation,
}
use process_snapshot.Logger.Steps.{
  in_flight, unwritten, Step, Reach, here, next, log_step, operation_step, complete_step,
  level_step, thread_step, call_step, control_step, Moves, stays, writes, async_loop-Moves,
  async_loop-entries, Keeps, enable_async-Keeps,
}
use process_snapshot.Logger.Switching.{Ready, enable_async_next-Keeps, Step-Ready}

-- How often a text stands in an output.
abbrev pub occurrences : Text → List Text → ℕ
occurrences t [] = 0
occurrences t (s ∷ texts) = (if text_eq t s then 1 else 0) + occurrences t texts

occurrences-append :
    (t : Text) (a b : List Text) → occurrences t (a ++ b) ≡ occurrences t a + occurrences t b
occurrences-append t [] b = omega arith
occurrences-append t (s ∷ a) b = omega (arith, occurrences-append t a b)

-- The occurrences in each output, with some more.
abbrev counts : Text → ℕ → List (List Text) → List ℕ
counts t n outputs = map (λ o. occurrences t o + n) outputs

counts_more :
    (t : Text) (n more : ℕ) (outputs : List (List Text))
    → counts t (n + more) outputs ≡ map (λ k. k + more) (counts t n outputs)
counts_more t n more [] = refl
counts_more t n more (o ∷ outputs) = ap₂ (λ x y. x ∷ y) (omega arith) (counts_more t n more outputs)

module _ (format : LogEntry → Text) where
  abbrev formatted : Text → List LogEntry → ℕ
  formatted t entries = occurrences t (map format entries)

  formatted-append :
      (t : Text) (a b : List LogEntry) → formatted t (a ++ b) ≡ formatted t a + formatted t b
  formatted-append t a b =
      ap (occurrences t) (map-append format a b)
      ∙ occurrences-append t (map format a) (map format b)

  counts-write_all :
      (t : Text) (n : ℕ) (entry : LogEntry) (outputs : List (List Text))
      → counts t n (write_all format entry outputs)
        ≡ counts t (formatted t (entry ∷ []) + n) outputs
  unfolding write_all
  counts-write_all t n entry [] = refl
  counts-write_all t n entry (o ∷ outputs) =
      ap₂ (λ x y. x ∷ y) (omega (arith, occurrences-append t o (format entry ∷ [])))
        (counts-write_all t n entry outputs)

  -- Each output with what is unwritten has what it had at first with what was logged.
  abbrev IsBalanced : Text → List (List Text) → OperationLogger → Type 0
  IsBalanced t first l =
      counts t (formatted t (unwritten l)) l.outputs ≡ counts t (formatted t l.entries) first

  append-IsBalanced :
      (t : Text) (first : List (List Text)) (entry : LogEntry) (l : OperationLogger)
      → IsBalanced t first l
      → IsBalanced t first (append format entry l)
  unfolding append
  append-IsBalanced t first entry l h =
      let one = formatted t (entry ∷ []) in
      let both : counts t (formatted t (unwritten l) + one) l.outputs
          ≡ counts t (formatted t (l.entries ++ entry ∷ [])) first =
        counts_more t (formatted t (unwritten l)) one l.outputs
        ∙ ap (map (λ k. k + one)) h
        ∙ sym (counts_more t (formatted t l.entries) one first)
        ∙ ap (λ n. counts t n first) (sym (formatted-append t l.entries (entry ∷ []))) in
      elim (Bool-cases l.async_enabled) [
        | inl queued ↦ rw queued (
            ap (λ n. counts t n l.outputs)
              (ap (formatted t)
                  (sym (append_assoc (in_flight l.async_thread) l.pending_entries (entry ∷ [])))
                ∙ formatted-append t (unwritten l) (entry ∷ []))
            ∙ both)
        | inr direct ↦ rw direct (
            counts-write_all t (formatted t (unwritten l)) entry l.outputs
            ∙ ap (λ n. counts t n l.outputs) (omega arith)
            ∙ both)
      ]

  Moves-counts :
      (t : Text) {l l' : OperationLogger}
      → Moves format l l'
      → counts t (formatted t (unwritten l')) l'.outputs
        ≡ counts t (formatted t (unwritten l)) l.outputs
  Moves-counts t (stays same outputs) = ap₂ (λ u os. counts t (formatted t u) os) same outputs
  Moves-counts t {l} {l'} (writes entry taken outputs) =
      ap (counts t (formatted t (unwritten l'))) outputs
      ∙ counts-write_all t (formatted t (unwritten l')) entry l.outputs
      ∙ ap (λ n. counts t n l.outputs) (sym (formatted-append t (entry ∷ []) (unwritten l')))
      ∙ ap (λ u. counts t (formatted t u) l.outputs) (sym taken)

  Keeps-IsBalanced :
      (t : Text) (first : List (List Text)) {l l' : OperationLogger}
      → Keeps l l'
      → IsBalanced t first l
      → IsBalanced t first l'
  Keeps-IsBalanced t first kept h =
      ap₂ (λ u os. counts t (formatted t u) os) kept.unwritten_same kept.outputs
      ∙ h
      ∙ ap (λ es. counts t (formatted t es) first) (sym kept.entries)

  Step-IsBalanced :
      (t : Text) (first : List (List Text)) {u v : OperationLogger × Control}
      → Step format u v
      → Ready u.1 u.0
      → IsBalanced t first u.0
      → IsBalanced t first v.0
  unfolding add_operation complete_operation set_min_level
  Step-IsBalanced t first (log_step entry l c) ready h = append-IsBalanced t first entry l h
  Step-IsBalanced t first (operation_step op l c) ready h = h
  Step-IsBalanced t first (complete_step id success l c) ready h = h
  Step-IsBalanced t first (level_step level l c) ready h = h
  Step-IsBalanced t first (thread_step l c) ready h =
      Moves-counts t (async_loop-Moves format l)
      ∙ h
      ∙ ap (λ es. counts t (formatted t es) first) (sym (async_loop-entries format l).0)
  Step-IsBalanced t first (call_step enable l) ready h =
      Keeps-IsBalanced t first (enable_async-Keeps enable l) h
  Step-IsBalanced t first (control_step l c) ready h =
      Keeps-IsBalanced t first (enable_async_next-Keeps c l ready) h

  Reach-IsBalanced :
      (t : Text) (first : List (List Text)) {u v : OperationLogger × Control}
      → Reach format u v
      → Ready u.1 u.0
      → IsBalanced t first u.0
      → Ready v.1 v.0 × IsBalanced t first v.0
  Reach-IsBalanced t first here ready h = (ready, h)
  Reach-IsBalanced t first (next r st) ready h =
      let (ready', h') = Reach-IsBalanced t first r ready h in
      (Step-Ready format st ready', Step-IsBalanced t first st ready' h')

  counts-zero :
      (t : Text) (outputs : List (List Text))
      → counts t 0 outputs ≡ map (λ o. occurrences t o) outputs
  counts-zero t [] = refl
  counts-zero t (o ∷ outputs) = ap₂ (λ x y. x ∷ y) (omega arith) (counts-zero t outputs)

  -- From a logger with no entries and no thread, in any interleaving of logging, of the steps of the
  -- logging thread and of starts and stops of it that do not overlap: once the queue is empty and the
  -- thread has no entry in hand, each text stands in each output as often as it did at first and as
  -- there are logged entries that are formatted to it. Nothing is lost or written twice; the order may
  -- differ from that of logging.
  pub Reach-delivered :
      (t : Text) (l : OperationLogger) {w : OperationLogger × Control}
      → l.entries ≡ []
      → l.pending_entries ≡ []
      → l.async_thread ≡ Thread.absent
      → Reach format (l, Control.idle) w
      → unwritten w.0 ≡ []
      → map (λ o. occurrences t o) w.0.outputs
        ≡ map (λ o. occurrences t o + occurrences t (map format w.0.entries)) l.outputs
  Reach-delivered t l {w} clean idle free r done =
      let start : unwritten l ≡ l.entries =
        ap (λ x. in_flight x ++ l.pending_entries) free ∙ idle ∙ sym clean in
      let balanced =
        (Reach-IsBalanced t l.outputs r (λ off. free)
          (ap (λ u. counts t (formatted t u) l.outputs) start)).1 in
      sym (counts-zero t w.0.outputs)
      ∙ ap (λ u. counts t (formatted t u) w.0.outputs) (sym done)
      ∙ balanced
