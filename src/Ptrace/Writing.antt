-- ===== src/Ptrace/Writing.antt =====
-- What writing word by word does to the memory of the traced process.
use process_snapshot.Prelude.{
  ℕ, zero, suc, ◌+◌, ◌-◌, ◌*◌, ◌%◌, ◌≤◌, ◌<◌, ◌≡◌, refl, Bytes, [], ◌∷◌, ◌++◌, true, false, length,
  take, drop, ltb, leb, ◌==◌, not, ◌||◌, inl, inr, Bool-cases, arith, ap, sym, subst, ◌∙◌, IsBytes,
  All-append, All-take, All-drop, length-append, length-take, length-drop, take-all, drop-all,
  take-drop,
}
use process_snapshot.Wire.{le_bytes, le_value, u64_mod}
use process_snapshot.Wire.Laws.{le_bytes-le_value}
use process_snapshot.Snapshot.{MemoryDump}
use process_snapshot.Kernel.{Kernel, IsKernel}
use process_snapshot.Kernel.Memory.{
  bytes_at, store, store-append, store-bytes_at_self, length-bytes_at, bytes_at-IsBytes,
  drop-bytes_at,
}
use process_snapshot.Ptrace.{PtraceController, PtraceError, is_traced, guarded}
use process_snapshot.Ptrace.Words.{
  Reading, unread, value, rounds, merged, peek_data, poke_data, next_word, poke_word, is_success,
  write_words, write_memory, restore_memory_region,
}
use process_snapshot.Ptrace.Laws.{
  Reading-cases, peeked-unread, unread_injective, to_error-success, peek_data_lem,
}

eight_bytes : (s : Bytes) → length s ≡ 8 → IsBytes s → le_bytes 8 (le_value s) ≡ s
eight_bytes s h b = subst (λ n. le_bytes n (le_value s) ≡ s) h (le_bytes-le_value s b)

merged-value :
    (b : Bytes) (r : Reading ℕ) {w : ℕ}
    → merged b r ≡ value w
    → (v : ℕ) × (r ≡ value v) × (w ≡ le_value (b ++ drop (length b) (le_bytes 8 v)))
unfolding merged
merged-value b (unread e) h = absurd (cc)
merged-value b (value v) h = (v, refl, cc)

merged-unread : (b : Bytes) (r : Reading ℕ) {e : PtraceError} → merged b r ≡ unread e → r ≡ unread e
unfolding merged
merged-unread b (unread e) h = h
merged-unread b (value v) h = absurd (cc)

-- The bytes behind the first word are written behind it.
store_next :
    (addr : ℕ) (b : Bytes) (m : ℕ → ℕ)
    → addr + length b < u64_mod
    → store ((addr + 8) % u64_mod) (drop 8 b) (store addr (take 8 b) m) ≡ store addr b m
store_next addr b m room = elim (Bool-cases (leb (length b) 8)) [
  | inl short ↦
      let e : drop 8 b ≡ [] = drop-all 8 b (ground (arith, short)) in
      rw (e, take-all 8 b (ground (arith, short))) (unfold store in refl)
  | inr long ↦
      let a : (addr + 8) % u64_mod ≡ addr + length (take 8 b) =
        ground (arith, long, length-take 8 b (ground (arith, long))) in
      rw a (store-append addr (take 8 b) (drop 8 b) m ∙ ap (λ t. store addr t m) (take-drop 8 b))
]

module _ {K : Type 0} (kernel : Kernel K) (laws : IsKernel kernel) where
  -- The bytes of a whole word, or of a part of one over what is there.
  next_word_lem :
      (addr : ℕ) (b : Bytes) (c : PtraceController) (k : K) {w : ℕ}
      → IsBytes b
      → next_word kernel addr b c k ≡ value w
      → store addr (le_bytes 8 w) (laws.memory k c.pid)
        ≡ store addr (take 8 b) (laws.memory k c.pid)
  unfolding next_word
  next_word_lem addr b c k {w = w} bytes h =
      let m = laws.memory k c.pid in
      elim (Bool-cases (ltb (length b) 8)) [
        | inl short ↦
            let found = merged-value b (peek_data kernel addr c k) (rw short at h) in
            let n = 8 - length b in
            let tail = bytes_at m (addr + length b) n in
            let word : bytes_at m addr 8 ≡ bytes_at m addr (length b + n) =
              ap (bytes_at m addr) (ground (arith, short)) in
            let tail_eq : drop (length b) (le_bytes 8 found.0) ≡ tail =
              ap (drop (length b)) (peek_data_lem kernel laws addr c k found.1 ∙ word)
              ∙ drop-bytes_at m addr (length b) n in
            let whole : le_bytes 8 w ≡ b ++ tail =
              ap (le_bytes 8) found.2
              ∙ ap (λ t. le_bytes 8 (le_value (b ++ t))) tail_eq
              ∙ eight_bytes (b ++ tail)
                  (length-append b tail
                    ∙ ap (λ i. length b + i) (length-bytes_at m (addr + length b) n)
                    ∙ ground (arith, short))
                  (All-append (λ x. x < 256) b tail bytes
                    (bytes_at-IsBytes m (addr + length b) n (laws.memory_byte k c.pid))) in
            rw (whole, take-all 8 b (ground (arith, short))) (store-bytes_at_self addr b n m)
        | inr long ↦
            let e : le_value (take 8 b) ≡ w = cc (rw long at h) in
            ap (λ v. store addr (le_bytes 8 v) m) (sym e)
            ∙ ap (λ s. store addr s m)
                (eight_bytes (take 8 b) (length-take 8 b (ground (arith, long)))
                  (All-take (λ x. x < 256) 8 b bytes))
      ]

  next_word_unread :
      (addr : ℕ) (b : Bytes) (c : PtraceController) (k : K) {e : PtraceError}
      → next_word kernel addr b c k ≡ unread e
      → is_success e ≡ false
  unfolding next_word peek_data is_success
  next_word_unread addr b c k h = elim (Bool-cases (ltb (length b) 8)) [
    | inl short ↦
        let below = merged-unread b (peek_data kernel addr c k) (rw short at h) in
        elim (Bool-cases (is_traced c)) [
          | inl traced ↦ peeked-unread (kernel.peek c.pid addr k) (rw traced at below)
          | inr free ↦ rw (← unread_injective (rw free at below)) refl
        ]
    | inr long ↦ absurd (cc (rw long at h))
  ]

  -- One poke that succeeds.
  poke_data_lem :
      (addr w : ℕ) (c : PtraceController) (k : K)
      → is_success (poke_data kernel addr w c k).0 ≡ true
      → (laws.memory (poke_data kernel addr w c k).1 c.pid
          ≡ store addr (le_bytes 8 w) (laws.memory k c.pid))
        × (laws.registers (poke_data kernel addr w c k).1 c.pid ≡ laws.registers k c.pid)
  unfolding poke_data guarded is_success
  poke_data_lem addr w c k h = elim (Bool-cases (is_traced c)) [
    | inl traced ↦
        let ok = to_error-success (kernel.poke c.pid addr w k).0 (rw traced at h) in
        rw traced (laws.poke_lem c.pid addr w k ok, laws.poke_registers c.pid addr w k)
    | inr free ↦ absurd (cc (rw free at h))
  ]

  -- One round of a write that succeeds.
  poke_word_lem :
      (addr : ℕ) (b : Bytes) (c : PtraceController) (k : K)
      → IsBytes b
      → is_success (poke_word kernel addr (next_word kernel addr b c k) c k).0 ≡ true
      → let k' = (poke_word kernel addr (next_word kernel addr b c k) c k).1 in
        (laws.memory k' c.pid ≡ store addr (take 8 b) (laws.memory k c.pid))
        × (laws.registers k' c.pid ≡ laws.registers k c.pid)
  unfolding poke_word
  poke_word_lem addr b c k bytes h = elim (Reading-cases (next_word kernel addr b c k)) [
    | inl (e, failed_word) ↦
        absurd (cc (next_word_unread addr b c k failed_word, rw (failed_word, poke_word) at h))
    | inr (word, found) ↦
        let (memory, registers) = poke_data_lem addr word c k (rw (found, poke_word) at h) in
        rw (found, poke_word) (memory ∙ next_word_lem addr b c k bytes found, registers)
  ]

  -- The rounds of a write, all of which succeed.
  pub write_words_lem :
      (n addr : ℕ) (b : Bytes) (c : PtraceController) (k : K)
      → length b ≤ 8 * n
      → 8 * n < length b + 8
      → IsBytes b
      → addr + length b < u64_mod
      → is_success (write_words kernel n addr b c k).0 ≡ true
      → (laws.memory (write_words kernel n addr b c k).1 c.pid ≡ store addr b (laws.memory k c.pid))
        × (laws.registers (write_words kernel n addr b c k).1 c.pid ≡ laws.registers k c.pid)
  unfolding write_words
  write_words_lem zero addr [] c k up low bytes room h = (unfold store in refl, refl)
  write_words_lem zero addr (x ∷ b) c k up low bytes room h = absurd (omega arith)
  write_words_lem (suc n) addr b c k up low bytes room h =
      let poked = poke_word kernel addr (next_word kernel addr b c k) c k in
      elim (Bool-cases (is_success poked.0)) [
        | inl ok ↦
            let (memory, registers) = poke_word_lem addr b c k bytes ok in
            let a = (addr + 8) % u64_mod in
            let len = length-drop 8 b in
            let (memory', registers') =
              write_words_lem n a (drop 8 b) c poked.1 (omega (arith, len)) (omega (arith, len))
                (All-drop (λ x. x < 256) 8 b bytes) (omega (arith, len)) (rw ok at h) in
            rw ok (
              memory'
                  ∙ ap (store a (drop 8 b)) memory
                  ∙ store_next addr b (laws.memory k c.pid) room,
              registers' ∙ registers,
            )
        | inr bad ↦ absurd (cc (bad, rw bad at h))
      ]

  pub write_memory_lem :
      (addr : ℕ) (b : Bytes) (c : PtraceController) (k : K)
      → IsBytes b
      → addr + length b < u64_mod
      → is_success (write_memory kernel addr b c k).0 ≡ true
      → (laws.memory (write_memory kernel addr b c k).1 c.pid ≡ store addr b (laws.memory k c.pid))
        × (laws.registers (write_memory kernel addr b c k).1 c.pid ≡ laws.registers k c.pid)
  unfolding write_memory is_success
  write_memory_lem addr b c k bytes room h = elim (Bool-cases (is_traced c)) [
    | inl traced ↦ rw traced (
        write_words_lem (rounds (length b)) addr b c k (omega arith) (omega arith) bytes room
          (rw traced at h))
    | inr free ↦ absurd (cc (rw free at h))
  ]

  pub restore_memory_region_lem :
      (dump : MemoryDump) (c : PtraceController) (k : K)
      → IsBytes dump.dump_data
      → dump.region.start_addr + length dump.dump_data < u64_mod
      → is_success (restore_memory_region kernel dump c k).0 ≡ true
      → let k' = (restore_memory_region kernel dump c k).1 in
        (laws.memory k' c.pid ≡ store dump.region.start_addr dump.dump_data (laws.memory k c.pid))
        × (laws.registers k' c.pid ≡ laws.registers k c.pid)
  unfolding restore_memory_region is_success
  restore_memory_region_lem dump c k bytes room h =
      elim (Bool-cases (not dump.is_valid || length dump.dump_data == 0)) [
        | inl invalid ↦ absurd (cc (rw invalid at h))
        | inr valid ↦ elim (Bool-cases (not (is_traced c))) [
          | inl free ↦ absurd (cc (rw (valid, free) at h))
          | inr traced ↦ elim (Bool-cases (not dump.region.writable)) [
            | inl fixed ↦ absurd (cc (rw (valid, traced, fixed) at h))
            | inr writable ↦
                rw (valid, traced, writable)
                  (write_memory_lem dump.region.start_addr dump.dump_data c k bytes room
                    (rw (valid, traced, writable) at h))
          ]
        ]
      ]
