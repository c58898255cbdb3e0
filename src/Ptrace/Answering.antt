-- ===== src/Ptrace/Answering.antt =====
-- Writes to a process whose calls succeed.
use process_snapshot.Prelude.{
  ℕ, zero, suc, ◌+◌, ◌<◌, ◌%◌, ◌≡◌, refl, Bytes, drop, length, ltb, true, IsBytes, Bool-cases, inl,
  inr, if_true, if_false, ap, ◌∙◌,
}
use process_snapshot.Wire.{u64_mod}
use process_snapshot.Kernel.{done, Kernel, IsKernel}
use process_snapshot.Kernel.Memory.{store}
use process_snapshot.Ptrace.{PtraceController, PtraceError, is_traced, to_error, guarded}
use process_snapshot.Ptrace.Words.{
  value, rounds, peeked, merged, peek_data, poke_data, next_word, is_success, poke_word,
  write_words, write_memory,
}
use process_snapshot.Ptrace.Writing.{write_memory_lem}

-- A process whose memory can be read and written at every address.
pub record Answers {K : Type 0} (kernel : Kernel K) (p : ℕ) : Type 0 where
  pub peeks : (a : ℕ) (k : K) → (w : ℕ) × (kernel.peek p a k ≡ done w)
  pub pokes : (a w : ℕ) (k : K) → (kernel.poke p a w k).0 ≡ done tt

module _ {K : Type 0} (kernel : Kernel K) (c : PtraceController) (answers : Answers kernel c.pid)
    (traced : is_traced c ≡ true) where
  peek_data_answers : (addr : ℕ) (k : K) → (w : ℕ) × (peek_data kernel addr c k ≡ value w)
  unfolding peek_data peeked
  peek_data_answers addr k =
      let (w, e) = answers.peeks addr k in (w, if_true _ _ traced ∙ ap peeked e)

  next_word_answers :
      (addr : ℕ) (b : Bytes) (k : K) → (w : ℕ) × (next_word kernel addr b c k ≡ value w)
  unfolding next_word merged
  next_word_answers addr b k = elim (Bool-cases (ltb (length b) 8)) [
    | inl short ↦ let (w, e) = peek_data_answers addr k in (_, if_true _ _ short ∙ ap (merged b) e)
    | inr long ↦ (_, if_false _ _ long)
  ]

  poke_word_answers :
      (addr : ℕ) (b : Bytes) (k : K)
      → is_success (poke_word kernel addr (next_word kernel addr b c k) c k).0 ≡ true
  unfolding poke_word poke_data guarded to_error is_success
  poke_word_answers addr b k =
      let (w, e) = next_word_answers addr b k in
      ap (λ r. is_success (poke_word kernel addr r c k).0) e
      ∙ ap (λ (x : PtraceError × K). is_success x.0) (if_true _ _ traced)
      ∙ ap (λ o. is_success (to_error o)) (answers.pokes addr w k)

  write_words_answers :
      (n addr : ℕ) (b : Bytes) (k : K) → is_success (write_words kernel n addr b c k).0 ≡ true
  unfolding write_words
  write_words_answers zero addr b k = unfold is_success in refl
  write_words_answers (suc n) addr b k =
      let poked = poke_word kernel addr (next_word kernel addr b c k) c k in
      ap (λ (x : PtraceError × K). is_success x.0) (if_true _ poked (poke_word_answers addr b k))
      ∙ write_words_answers n ((addr + 8) % u64_mod) (drop 8 b) poked.1

  -- A write to a traced process that answers succeeds, of any length, whole words or not, and the
  -- memory is then the old one with the bytes in it.
  pub write_memory_answers :
      (laws : IsKernel kernel) (addr : ℕ) (b : Bytes) (k : K)
      → IsBytes b
      → addr + length b < u64_mod
      → (is_success (write_memory kernel addr b c k).0 ≡ true)
        × (laws.memory (write_memory kernel addr b c k).1 c.pid
            ≡ store addr b (laws.memory k c.pid))
  write_memory_answers laws addr b k bytes room =
      let ok : is_success (write_memory kernel addr b c k).0 ≡ true =
        unfold write_memory in
        ap (λ (x : PtraceError × K). is_success x.0) (if_true _ _ traced)
        ∙ write_words_answers (rounds (length b)) addr b k in
      (ok, (write_memory_lem kernel laws addr b c k bytes room ok).0)
