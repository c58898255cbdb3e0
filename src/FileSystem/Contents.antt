-- ===== src/FileSystem/Contents.antt =====
-- The bytes of a file under writes at an offset, reads of a fixed number of bytes and resizing. A
-- gap is filled with zeros.
use process_snapshot.Prelude.{
  ℕ, zero, suc, ◌+◌, ◌≤◌, ◌≡◌, refl, Bytes, [], ◌∷◌, length, arith, ap, sym, ◌∙◌,
}

-- The first n bytes, with zeros behind the end.
unfoldable pub fill : Bytes → ℕ → Bytes
fill d zero = []
fill [] (suc n) = 0 ∷ fill [] n
fill (x ∷ d) (suc n) = x ∷ fill d n

-- The bytes `b` in place of the first ones.
unfoldable pub put : Bytes → Bytes → Bytes
put d [] = d
put [] (y ∷ b) = y ∷ put [] b
put (x ∷ d) (y ∷ b) = y ∷ put d b

-- A write of `b` at an offset.
unfoldable pub overwrite : Bytes → ℕ → Bytes → Bytes
overwrite d zero b = put d b
overwrite [] (suc off) b = 0 ∷ overwrite [] off b
overwrite (x ∷ d) (suc off) b = x ∷ overwrite d off b

-- A vector of n zeros into which the bytes from an offset on are read.
unfoldable pub slice : Bytes → ℕ → ℕ → Bytes
slice d zero n = fill d n
slice [] (suc off) n = slice [] off n
slice (x ∷ d) (suc off) n = slice d off n

pub fill-length : (d : Bytes) → fill d (length d) ≡ d
unfolding fill
fill-length [] = refl
fill-length (x ∷ d) = ap (λ t. x ∷ t) (fill-length d)

pub length-fill : (d : Bytes) (n : ℕ) → length (fill d n) ≡ n
unfolding fill
length-fill d zero = refl
length-fill [] (suc n) = ap suc (length-fill [] n)
length-fill (x ∷ d) (suc n) = ap suc (length-fill d n)

pub length-slice : (d : Bytes) (off n : ℕ) → length (slice d off n) ≡ n
unfolding slice
length-slice d zero n = length-fill d n
length-slice [] (suc off) n = length-slice [] off n
length-slice (x ∷ d) (suc off) n = length-slice d off n

put_restore : (d b : Bytes) → fill (put (put d b) (fill d (length b))) (length d) ≡ d
unfolding put fill
put_restore [] b = refl
put_restore (x ∷ d) [] = fill-length (x ∷ d)
put_restore (x ∷ d) (y ∷ b) = ap (λ t. x ∷ t) (put_restore d b)

-- The old bytes written back over new ones, and the old length.
pub overwrite_restore :
    (d : Bytes) (off : ℕ) (b : Bytes)
    → fill (overwrite (overwrite d off b) off (slice d off (length b))) (length d) ≡ d
unfolding overwrite slice fill
overwrite_restore d zero b = put_restore d b
overwrite_restore [] (suc off) b = refl
overwrite_restore (x ∷ d) (suc off) b = ap (λ t. x ∷ t) (overwrite_restore d off b)

length-put-put : (d b c : Bytes) → length b ≡ length c → length (put (put d b) c) ≡ length (put d b)
unfolding put
length-put-put d [] [] h = refl
length-put-put d [] (z ∷ c) h = absurd (omega (arith, h))
length-put-put d (y ∷ b) [] h = refl
length-put-put [] (y ∷ b) (z ∷ c) h = ap suc (length-put-put [] b c (omega (arith, h)))
length-put-put (x ∷ d) (y ∷ b) (z ∷ c) h = ap suc (length-put-put d b c (omega (arith, h)))

length-overwrite-overwrite :
    (d : Bytes) (off : ℕ) (b c : Bytes)
    → length b ≡ length c
    → length (overwrite (overwrite d off b) off c) ≡ length (overwrite d off b)
unfolding overwrite
length-overwrite-overwrite d zero b c h = length-put-put d b c h
length-overwrite-overwrite [] (suc off) b c h = ap suc (length-overwrite-overwrite [] off b c h)
length-overwrite-overwrite (x ∷ d) (suc off) b c h = ap suc (length-overwrite-overwrite d off b c h)

-- Where the write left the length as it was, the old length need not be set.
pub overwrite_restore_same :
    (d : Bytes) (off : ℕ) (b : Bytes)
    → length d ≡ length (overwrite d off b)
    → overwrite (overwrite d off b) off (slice d off (length b)) ≡ d
overwrite_restore_same d off b same =
    let c = slice d off (length b) in
    let r = overwrite (overwrite d off b) off c in
    let e : length r ≡ length d =
      length-overwrite-overwrite d off b c (sym (length-slice d off (length b))) ∙ sym same in
    sym (fill-length r) ∙ ap (fill r) e ∙ overwrite_restore d off b

le_length-put : (d b : Bytes) → length b ≤ length (put d b)
unfolding put
le_length-put d [] = omega arith
le_length-put [] (y ∷ b) = omega (arith, le_length-put [] b)
le_length-put (x ∷ d) (y ∷ b) = omega (arith, le_length-put d b)

-- The bytes written are in the file.
pub le_length-overwrite :
    (d : Bytes) (off : ℕ) (b : Bytes) → off + length b ≤ length (overwrite d off b)
unfolding overwrite
le_length-overwrite d zero b = omega (arith, le_length-put d b)
le_length-overwrite [] (suc off) b = omega (arith, le_length-overwrite [] off b)
le_length-overwrite (x ∷ d) (suc off) b = omega (arith, le_length-overwrite d off b)
