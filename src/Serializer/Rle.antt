-- ===== src/Serializer/Rle.antt =====
-- `BinarySerializer::compress` and `decompress` (src/core/serializer.cpp): run-length encoding with
-- the escape byte 0xFF.
pub mod Laws
use process_snapshot.Prelude.{
  ℕ, zero, suc, ◌+◌, ◌%◌, Bytes, [], ◌∷◌, ◌++◌, ◌&&◌, ◌||◌, ◌≡◌, refl, length, replicate, ltb, leb,
  ◌==◌, if◌then◌else◌,
}

-- The inner `while`: how many bytes equal `current`, `count` of them seen so far and 255 at most,
-- and the bytes behind them.
scan_run : ℕ → Bytes → ℕ → ℕ × Bytes
scan_run current [] count = (count, [])
scan_run current (b ∷ rest) count =
    let more = scan_run current rest (count + 1) in
    if b == current && ltb count 255 then more else (count, b ∷ rest)

-- A run of four or more, or of the escape byte, takes three bytes; any other is copied.
emit_run : ℕ → ℕ → Bytes
emit_run current count =
    if leb 4 count || current == 0xff
    then 0xff ∷ (count % 256) ∷ current ∷ []
    else replicate count current

-- The outer `while`. Each round takes one byte at least, so the length is fuel enough.
compress_loop : ℕ → Bytes → Bytes
compress_loop zero s = []
compress_loop (suc fuel) [] = []
compress_loop (suc fuel) (current ∷ rest) =
    let run = scan_run current rest 1 in
    let others = compress_loop fuel run.1 in emit_run current run.0 ++ others

unfoldable pub compress : Bytes → Bytes
unfolding scan_run emit_run compress_loop
compress s = compress_loop (length s) s

-- An escape byte with two bytes behind it stands for a run; any other byte for itself.
unfoldable pub decompress : Bytes → Bytes
decompress [] = []
decompress (b ∷ []) = b ∷ []
decompress (b ∷ c ∷ []) = b ∷ c ∷ []
decompress (b ∷ count ∷ value ∷ rest) =
    let run = replicate count value ++ decompress rest in
    let single = b ∷ decompress (count ∷ value ∷ rest) in if b == 0xff then run else single

compress_test : compress (7 ∷ 7 ∷ 7 ∷ 7 ∷ 7 ∷ 1 ∷ 255 ∷ []) ≡ 255 ∷ 5 ∷ 7 ∷ 1 ∷ 255 ∷ 1 ∷ 255 ∷ []
unfolding compress
compress_test = refl

decompress_test : decompress (255 ∷ 5 ∷ 7 ∷ 1 ∷ 255 ∷ 1 ∷ []) ≡ 7 ∷ 7 ∷ 7 ∷ 7 ∷ 7 ∷ 1 ∷ 255 ∷ 1 ∷ []
unfolding decompress
decompress_test = refl
