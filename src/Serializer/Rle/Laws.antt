-- ===== src/Serializer/Rle/Laws.antt =====
-- Laws of `compress` and `decompress` (src/core/serializer.cpp).
use native.Mathlib.Numerals.{add-one}
use process_snapshot.Prelude.{
  ℕ, zero, suc, ◌+◌, ◌*◌, ◌%◌, ◌≤◌, Bytes, [], ◌∷◌, ◌++◌, ◌&&◌, ◌||◌, ◌≡◌, ◌≢◌, refl, ap, ◌∙◌, inl,
  inr, length, replicate, ltb, leb, All, length-append, length-replicate, min, if◌then◌else◌,
  Bool-cases, ◌==◌, arith,
}
use process_snapshot.Serializer.Rle.{scan_run, emit_run, compress_loop, compress, decompress}

scan_run_bounds :
    (current : ℕ) (s : Bytes) (count : ℕ)
    → count ≤ 255
    → (count ≤ (scan_run current s count).0)
      × ((scan_run current s count).0 ≤ 255)
      × (length (scan_run current s count).1 + (scan_run current s count).0 ≡ length s + count)
unfolding scan_run
scan_run_bounds current [] count h = omega arith
scan_run_bounds current (b ∷ s) count h = ground (arith, scan_run_bounds current s (count + 1))

replicate-cons : (n v : ℕ) (s : Bytes) → replicate n v ++ v ∷ s ≡ replicate (suc n) v ++ s
replicate-cons zero v s = refl
replicate-cons (suc n) v s = ap (◌∷◌ v) (replicate-cons n v s)

-- The bytes of the run and those behind it are the bytes that were scanned.
scan_run_lem :
    (current : ℕ) (s : Bytes) (count : ℕ)
    → replicate (scan_run current s count).0 current ++ (scan_run current s count).1
      ≡ replicate count current ++ s
unfolding scan_run
scan_run_lem current [] count = refl
scan_run_lem current (b ∷ s) count =
    ground
      (arith, scan_run_lem current s (count + 1), replicate-cons count current s, add-one count)

decompress_single : (b : ℕ) (s : Bytes) → b ≢ 255 → decompress (b ∷ s) ≡ b ∷ decompress s
unfolding decompress
decompress_single b [] h = refl
decompress_single b (c ∷ []) h = refl
decompress_single b (c ∷ d ∷ s) h = ground arith

decompress-replicate :
    (n v : ℕ) (s : Bytes)
    → v ≢ 255
    → decompress (replicate n v ++ s) ≡ replicate n v ++ decompress s
decompress-replicate zero v s h = refl
decompress-replicate (suc n) v s h =
    decompress_single v (replicate n v ++ s) h ∙ ap (◌∷◌ v) (decompress-replicate n v s h)

decompress-emit_run :
    (current count : ℕ) (s : Bytes)
    → count ≤ 255
    → decompress (emit_run current count ++ s) ≡ replicate count current ++ decompress s
decompress-emit_run current count s h = elim (Bool-cases (leb 4 count || current == 255)) [
  | inl escaped ↦
      let e : count % 256 ≡ count = omega arith in unfold emit_run decompress in rw (escaped, e)
  | inr plain ↦ unfold emit_run in rw plain (decompress-replicate count current s (ground arith))
]

decompress-compress_loop :
    (fuel : ℕ) (s : Bytes) → length s ≤ fuel → decompress (compress_loop fuel s) ≡ s
unfolding compress_loop
decompress-compress_loop zero [] h = unfold decompress in refl
decompress-compress_loop zero (b ∷ s) h = absurd (omega arith)
decompress-compress_loop (suc fuel) [] h = unfold decompress in refl
decompress-compress_loop (suc fuel) (current ∷ rest) h =
    let (lower, upper, total) = scan_run_bounds current rest 1 (omega arith) in
    rw (decompress-emit_run, upper)
      (rw (decompress-compress_loop fuel (scan_run current rest 1).1 (omega arith))
        (scan_run_lem current rest 1))

-- For every byte string, `decompress` gives back what `compress` was given.
pub decompress-compress : (s : Bytes) → decompress (compress s) ≡ s
unfolding compress
decompress-compress s = decompress-compress_loop (length s) s (omega arith)

scan_run-All :
    (current : ℕ) (s : Bytes) (count : ℕ)
    → All (λ b. b ≢ 255) s
    → All (λ b. b ≢ 255) (scan_run current s count).1
unfolding scan_run
scan_run-All current [] count h = tt
scan_run-All current (b ∷ s) count h = elim (Bool-cases (b == current && ltb count 255)) [
  | inl more ↦ rw more (scan_run-All current s (count + 1) h.1)
  | inr done ↦ rw done h
]

length-emit_run_plain :
    (current count : ℕ) → current ≢ 255 → length (emit_run current count) ≤ count
unfolding emit_run
length-emit_run_plain current count h = ground (arith, length-replicate count current)

length-compress_loop_plain :
    (fuel : ℕ) (s : Bytes) → All (λ b. b ≢ 255) s → length (compress_loop fuel s) ≤ length s
unfolding compress_loop
length-compress_loop_plain zero s h = omega arith
length-compress_loop_plain (suc fuel) [] h = omega arith
length-compress_loop_plain (suc fuel) (current ∷ rest) h =
    let (count, tail) = scan_run current rest 1 in
    let (lower, upper, total) = scan_run_bounds current rest 1 (omega arith) in
    omega (
      arith,
      length-append (emit_run current count) (compress_loop fuel tail),
      length-emit_run_plain current count h.0,
      length-compress_loop_plain fuel tail (scan_run-All current rest 1 h.1),
    )

-- Data without the escape byte 0xFF does not grow.
pub length-compress-le_plain : (s : Bytes) → All (λ b. b ≢ 255) s → length (compress s) ≤ length s
unfolding compress
length-compress-le_plain s h = length-compress_loop_plain (length s) s h

-- A reference for the size, byte by byte from the left: what the bytes add that come behind `count`
-- equal ones. The first byte of a run of the escape byte costs three and the others nothing; of other
-- bytes the first three of a run cost one each; a run ends at 255 bytes.
abbrev pub cost_behind : ℕ → ℕ → Bytes → ℕ
cost_behind current count [] = 0
cost_behind current count (b ∷ s) =
    let same = cost_behind current (count + 1) s in
    let other = cost_behind b 1 s in
    if b == current && ltb count 255
    then (if current == 0xff then 0 else if ltb count 3 then 1 else 0) + same
    else (if b == 0xff then 3 else 1) + other

abbrev pub cost : Bytes → ℕ
cost [] = 0
cost (b ∷ s) = (if b == 0xff then 3 else 1) + cost_behind b 1 s

-- What a run of a length costs.
run_cost : ℕ → ℕ → ℕ
run_cost current count = if current == 0xff then 3 else min count 3

length-emit_run : (current count : ℕ) → length (emit_run current count) ≡ run_cost current count
unfolding emit_run run_cost
length-emit_run current count = ground (arith, length-replicate count current)

cost-scan_run :
    (current : ℕ) (s : Bytes) (count : ℕ)
    → 1 ≤ count
    → run_cost current (scan_run current s count).0 + cost (scan_run current s count).1
      ≡ run_cost current count + cost_behind current count s
unfolding scan_run run_cost
cost-scan_run current [] count h = refl
cost-scan_run current (b ∷ s) count h = ground (arith, cost-scan_run current s (count + 1))

length-compress_loop-cost :
    (fuel : ℕ) (s : Bytes) → length s ≤ fuel → length (compress_loop fuel s) ≡ cost s
unfolding compress_loop
length-compress_loop-cost zero [] h = refl
length-compress_loop-cost zero (b ∷ s) h = absurd (omega arith)
length-compress_loop-cost (suc fuel) [] h = refl
length-compress_loop-cost (suc fuel) (current ∷ rest) h =
    let (count, tail) = scan_run current rest 1 in
    let (lower, upper, total) = scan_run_bounds current rest 1 (omega arith) in
    let first : run_cost current 1 ≡ (if current == 0xff then 3 else 1) =
      unfold run_cost in ground arith in
    omega (
      arith,
      length-append (emit_run current count) (compress_loop fuel tail),
      length-emit_run current count,
      length-compress_loop-cost fuel tail (omega arith),
      cost-scan_run current rest 1 (omega arith),
      first,
    )

abbrev pub escapes : Bytes → ℕ
escapes [] = 0
escapes (b ∷ s) = (if b == 0xff then 1 else 0) + escapes s

cost_behind-le :
    (current count : ℕ) (s : Bytes) → cost_behind current count s ≤ length s + 2 * escapes s
cost_behind-le current count [] = omega arith
cost_behind-le current count (b ∷ s) =
    ground (arith, cost_behind-le current (count + 1) s, cost_behind-le b 1 s)

cost-le : (s : Bytes) → cost s ≤ length s + 2 * escapes s
cost-le [] = omega arith
cost-le (b ∷ s) = ground (arith, cost_behind-le b 1 s)

-- The length of compressed data is exactly the reference size, and it exceeds that of the data by at
-- most two bytes for each escape byte 0xFF in it.
pub length-compress :
    (s : Bytes) → (length (compress s) ≡ cost s) × (length (compress s) ≤ length s + 2 * escapes s)
unfolding compress
length-compress s =
    let exact = length-compress_loop-cost (length s) s (omega arith) in
    (exact, omega (arith, exact, cost-le s))
