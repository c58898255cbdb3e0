-- ===== src/Serializer/Checksum/Laws.antt =====
-- The size of the checksum, and its answer to the change of a byte (src/core/serializer.cpp).
use process_snapshot.Prelude.{
  ℕ, zero, suc, ◌/◌, ◌^◌, ◌<◌, ◌≡◌, ◌≢◌, Bytes, false, [], ◌∷◌, ◌++◌, bit_xor, IsBytes, arith,
}
use process_snapshot.Serializer.Xor.{bit_xor-lt, bit_xor_cancel, bit_xor_comm, bit_xor-ge}
use process_snapshot.Serializer.Checksum.{
  polynomial, shift_bit, shift_bits, update_checksum, calculate_checksum, verify_checksum,
}

shift_bit-lt : (c : ℕ) → c < 2 ^ 32 → shift_bit c < 2 ^ 32
unfolding shift_bit
shift_bit-lt c h = ground (arith, bit_xor-lt 32 (c / 2) polynomial (omega arith) (omega arith))

shift_bits-lt : (n c : ℕ) → c < 2 ^ 32 → shift_bits n c < 2 ^ 32
unfolding shift_bits
shift_bits-lt zero c h = h
shift_bits-lt (suc n) c h = shift_bits-lt n (shift_bit c) (shift_bit-lt c h)

shift_bit_injective : (c d : ℕ) → c < 2 ^ 32 → d < 2 ^ 32 → shift_bit c ≡ shift_bit d → c ≡ d
unfolding shift_bit
shift_bit_injective c d hc hd e = ground (
  arith,
  bit_xor-ge 31 (c / 2) polynomial (omega arith) (omega arith),
  bit_xor-ge 31 (d / 2) polynomial (omega arith) (omega arith),
  bit_xor_comm (c / 2) polynomial,
  bit_xor_comm (d / 2) polynomial,
  bit_xor_cancel polynomial (c / 2) (d / 2),
)

shift_bits_injective :
    (n c d : ℕ) → c < 2 ^ 32 → d < 2 ^ 32 → shift_bits n c ≡ shift_bits n d → c ≡ d
unfolding shift_bits
shift_bits_injective zero c d hc hd e = e
shift_bits_injective (suc n) c d hc hd e =
    shift_bit_injective c d hc hd
      (shift_bits_injective n (shift_bit c) (shift_bit d) (shift_bit-lt c hc) (shift_bit-lt d hd) e)

abbrev after_byte : ℕ → ℕ → ℕ
after_byte c b = shift_bits 8 (bit_xor c b)

after_byte-lt : (c b : ℕ) → c < 2 ^ 32 → b < 256 → after_byte c b < 2 ^ 32
after_byte-lt c b hc hb = shift_bits-lt 8 (bit_xor c b) (bit_xor-lt 32 c b hc (omega arith))

update_checksum-lt : (s : Bytes) (c : ℕ) → IsBytes s → c < 2 ^ 32 → update_checksum c s < 2 ^ 32
unfolding update_checksum
update_checksum-lt [] c h hc = hc
update_checksum-lt (b ∷ s) c h hc =
    update_checksum-lt s (after_byte c b) h.1 (after_byte-lt c b hc h.0)

-- Different states stay different over the same bytes.
update_checksum_injective :
    (s : Bytes) (c d : ℕ)
    → IsBytes s
    → c < 2 ^ 32
    → d < 2 ^ 32
    → update_checksum c s ≡ update_checksum d s
    → c ≡ d
unfolding update_checksum
update_checksum_injective [] c d h hc hd e = e
update_checksum_injective (b ∷ s) c d h hc hd e =
    let after =
      update_checksum_injective s (after_byte c b) (after_byte d b) h.1 (after_byte-lt c b hc h.0)
        (after_byte-lt d b hd h.0) e in
    let xors =
      shift_bits_injective 8 (bit_xor c b) (bit_xor d b) (bit_xor-lt 32 c b hc (omega (arith, h.0)))
        (bit_xor-lt 32 d b hd (omega (arith, h.0))) after in
    bit_xor_cancel b c d (omega (arith, bit_xor_comm c b, bit_xor_comm d b))

update_checksum_detects :
    (xs ys : Bytes) (c a b : ℕ)
    → IsBytes xs
    → IsBytes ys
    → c < 2 ^ 32
    → a < 256
    → b < 256
    → update_checksum c (xs ++ a ∷ ys) ≡ update_checksum c (xs ++ b ∷ ys)
    → a ≡ b
unfolding update_checksum
update_checksum_detects [] ys c a b hx hy hc ha hb e =
    let after =
      update_checksum_injective ys (after_byte c a) (after_byte c b) hy (after_byte-lt c a hc ha)
        (after_byte-lt c b hc hb) e in
    bit_xor_cancel c a b (
      shift_bits_injective 8 (bit_xor c a) (bit_xor c b) (bit_xor-lt 32 c a hc (omega arith))
        (bit_xor-lt 32 c b hc (omega arith)) after)
update_checksum_detects (x ∷ xs) ys c a b hx hy hc ha hb e =
    update_checksum_detects xs ys (after_byte c x) a b hx.1 hy (after_byte-lt c x hc hx.0) ha hb e

-- The checksum fits the 32 bits in which it is stored.
pub calculate_checksum-lt : (s : Bytes) → calculate_checksum s < 2 ^ 32
unfolding calculate_checksum
calculate_checksum-lt s = omega arith

IsBytes-append : (xs ys : Bytes) → IsBytes xs → IsBytes ys → IsBytes (xs ++ ys)
IsBytes-append [] ys h k = k
IsBytes-append (x ∷ xs) ys h k = (h.0, IsBytes-append xs ys h.1 k)

-- Data in which one byte is replaced by another byte fails the check against the checksum of the
-- data as it was.
pub verify_checksum_detects :
    (xs ys : Bytes) (a b : ℕ)
    → IsBytes xs
    → IsBytes ys
    → a < 256
    → b < 256
    → a ≢ b
    → verify_checksum (xs ++ b ∷ ys) (calculate_checksum (xs ++ a ∷ ys)) ≡ false
unfolding verify_checksum
verify_checksum_detects xs ys a b hx hy ha hb ne = ground (
  arith,
  update_checksum_detects xs ys 0xffff_ffff a b hx hy (omega arith) ha hb,
  update_checksum-lt (xs ++ a ∷ ys) 0xffff_ffff (IsBytes-append xs (a ∷ ys) hx (ha, hy))
      (omega arith),
  update_checksum-lt (xs ++ b ∷ ys) 0xffff_ffff (IsBytes-append xs (b ∷ ys) hx (hb, hy))
      (omega arith),
)
