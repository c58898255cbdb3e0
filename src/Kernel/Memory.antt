-- ===== src/Kernel/Memory.antt =====
-- The memory of a process as a function from addresses to bytes: ranges of it, and writes.
use process_snapshot.Prelude.{
  ℕ, zero, suc, ◌+◌, ◌<◌, ◌≡◌, refl, Bytes, [], ◌∷◌, ◌++◌, Bool, true, false, length, ◌==◌, ==_iff,
  leb, ltb, ◌&&◌, if◌then◌else◌, Bool-cases, inl, inr, arith, ap, ap₂, sym, subst, fun_ext, ◌∙◌,
  take, drop, IsBytes, take-append, drop-append,
}

-- The n bytes from an address on.
unfoldable pub bytes_at : (ℕ → ℕ) → ℕ → ℕ → Bytes
bytes_at m a zero = []
bytes_at m a (suc n) = m a ∷ bytes_at m (a + 1) n

-- The memory with bytes written from an address on.
unfoldable pub store : ℕ → Bytes → (ℕ → ℕ) → ℕ → ℕ
store a [] m c = m c
store a (x ∷ b) m c = if c == a then x else store (a + 1) b m c

pub length-bytes_at : (m : ℕ → ℕ) (a n : ℕ) → length (bytes_at m a n) ≡ n
unfolding bytes_at
length-bytes_at m a zero = refl
length-bytes_at m a (suc n) = ap suc (length-bytes_at m (a + 1) n)

pub bytes_at-add :
    (m : ℕ → ℕ) (a n k : ℕ) → bytes_at m a (n + k) ≡ bytes_at m a n ++ bytes_at m (a + n) k
unfolding bytes_at
bytes_at-add m a zero k = ap₂ (λ b j. bytes_at m b j) (omega arith) (omega arith)
bytes_at-add m a (suc n) k =
    let e : suc n + k ≡ suc (n + k) = omega arith in
    rw e (
      ap (λ t. m a ∷ t)
        (bytes_at-add m (a + 1) n k
          ∙ ap (λ b. bytes_at m (a + 1) n ++ bytes_at m b k) (omega arith)))

pub store_outside :
    (a : ℕ) (b : Bytes) (m : ℕ → ℕ) (c : ℕ)
    → (leb a c && ltb c (a + length b)) ≡ false
    → store a b m c ≡ m c
unfolding store
store_outside a [] m c h = refl
store_outside a (x ∷ b) m c h = ground (arith, store_outside (a + 1) b m c)

-- What is written from another memory reads like that memory.
pub store-bytes_at :
    (m n : ℕ → ℕ) (a k c : ℕ)
    → store a (bytes_at m a k) n c ≡ (if leb a c && ltb c (a + k) then m c else n c)
unfolding store bytes_at
store-bytes_at m n a zero c = ground arith
store-bytes_at m n a (suc k) c = elim (Bool-cases (c == a)) [
  | inl same ↦ let e = (==_iff c a).0 same in rw same (ground (arith, ap m e))
  | inr other ↦ rw other (ground (arith, store-bytes_at m n (a + 1) k c))
]

-- A write reads the memory under it at the same address only.
store_same : (a : ℕ) (b : Bytes) (m n : ℕ → ℕ) (c : ℕ) → m c ≡ n c → store a b m c ≡ store a b n c
unfolding store
store_same a [] m n c h = h
store_same a (x ∷ b) m n c h = ap (λ y. if c == a then x else y) (store_same (a + 1) b m n c h)

store_head :
    (a x : ℕ) (s : Bytes) (m : ℕ → ℕ) (c : ℕ)
    → store a (x ∷ s) m c ≡ (if c == a then x else store (a + 1) s m c)
unfolding store
store_head a x s m c = refl

-- A write behind another one.
store-append_at :
    (a : ℕ) (s t : Bytes) (m : ℕ → ℕ) (c : ℕ)
    → store (a + length s) t (store a s m) c ≡ store a (s ++ t) m c
store-append_at a [] t m c = unfold store in ap (λ b. store b t m c) (omega arith)
store-append_at a (x ∷ s) t m c = elim (Bool-cases (c == a)) [
  | inl same ↦
      store_outside (a + length (x ∷ s)) t (store a (x ∷ s) m) c
        (ground (arith, (==_iff c a).0 same))
      ∙ store_head a x s m c
      ∙ rw same (sym (store_head a x (s ++ t) m c ∙ rw same refl))
  | inr other ↦
      store_same (a + length (x ∷ s)) t (store a (x ∷ s) m) (store (a + 1) s m) c
        (store_head a x s m c ∙ rw other refl)
      ∙ ap (λ b. store b t (store (a + 1) s m) c) (omega arith)
      ∙ store-append_at (a + 1) s t m c
      ∙ sym (store_head a x (s ++ t) m c ∙ rw other refl)
]

pub store-append :
    (a : ℕ) (s t : Bytes) (m : ℕ → ℕ) → store (a + length s) t (store a s m) ≡ store a (s ++ t) m
store-append a s t m = fun_ext (λ c. store-append_at a s t m c)

if_same : (b : Bool) (x : ℕ) → (if b then x else x) ≡ x
if_same true x = refl
if_same false x = refl

-- Bytes that are written as they were change nothing.
store-bytes_at_behind :
    (a : ℕ) (s : Bytes) (n : ℕ) (m : ℕ → ℕ) (c : ℕ)
    → store a (s ++ bytes_at m (a + length s) n) m c ≡ store a s m c
unfolding store
store-bytes_at_behind a [] n m c =
    ap (λ b. store a (bytes_at m b n) m c) (omega arith)
    ∙ store-bytes_at m m a n c
    ∙ if_same (leb a c && ltb c (a + n)) (m c)
store-bytes_at_behind a (x ∷ s) n m c =
    ap (λ y. if c == a then x else y)
      (ap (λ b. store (a + 1) (s ++ bytes_at m b n) m c) (omega arith)
        ∙ store-bytes_at_behind (a + 1) s n m c)

pub store-bytes_at_self :
    (a : ℕ) (s : Bytes) (n : ℕ) (m : ℕ → ℕ)
    → store a (s ++ bytes_at m (a + length s) n) m ≡ store a s m
store-bytes_at_self a s n m = fun_ext (λ c. store-bytes_at_behind a s n m c)

pub bytes_at-IsBytes : (m : ℕ → ℕ) (a n : ℕ) → ((c : ℕ) → m c < 256) → IsBytes (bytes_at m a n)
unfolding bytes_at
bytes_at-IsBytes m a zero h = tt
bytes_at-IsBytes m a (suc n) h = (h a, bytes_at-IsBytes m (a + 1) n h)

pub take-bytes_at : (m : ℕ → ℕ) (a i n : ℕ) → take i (bytes_at m a (i + n)) ≡ bytes_at m a i
take-bytes_at m a i n =
    ap (take i) (bytes_at-add m a i n)
    ∙ subst (λ j. take j (bytes_at m a i ++ bytes_at m (a + i) n) ≡ bytes_at m a i)
        (length-bytes_at m a i) (take-append (bytes_at m a i) (bytes_at m (a + i) n))

pub drop-bytes_at : (m : ℕ → ℕ) (a i n : ℕ) → drop i (bytes_at m a (i + n)) ≡ bytes_at m (a + i) n
drop-bytes_at m a i n =
    ap (drop i) (bytes_at-add m a i n)
    ∙ subst (λ j. drop j (bytes_at m a i ++ bytes_at m (a + i) n) ≡ bytes_at m (a + i) n)
        (length-bytes_at m a i) (drop-append (bytes_at m a i) (bytes_at m (a + i) n))
