-- ===== src/Serializer/Checksum.antt =====
-- `BinarySerializer::calculateChecksum` and `verifyChecksum` (src/core/serializer.cpp): CRC-32 over
-- 32-bit words. `JsonSerializer` calls the same.
pub mod Laws
use process_snapshot.Prelude.{
  ℕ, zero, suc, ◌-◌, ◌/◌, ◌%◌, ◌^◌, ◌≡◌, refl, Bytes, Bool, [], ◌∷◌, codes, bit_xor, ◌==◌,
  if◌then◌else◌,
}

abbrev pub polynomial : ℕ
polynomial = 0xedb88320

-- One round of the inner loop.
unfoldable pub shift_bit : ℕ → ℕ
shift_bit checksum = if checksum % 2 == 1 then bit_xor (checksum / 2) polynomial else checksum / 2

pub shift_bits : ℕ → ℕ → ℕ
shift_bits zero checksum = checksum
shift_bits (suc n) checksum = shift_bits n (shift_bit checksum)

-- The loop over the bytes.
pub update_checksum : ℕ → Bytes → ℕ
unfolding shift_bit shift_bits
update_checksum checksum [] = checksum
update_checksum checksum (byte ∷ s) = update_checksum (shift_bits 8 (bit_xor checksum byte)) s

-- `~checksum` of 32 bits.
unfoldable pub calculate_checksum : Bytes → ℕ
unfolding update_checksum
calculate_checksum s = 2 ^ 32 - 1 - update_checksum 0xffff_ffff s

unfoldable pub verify_checksum : Bytes → ℕ → Bool
unfolding calculate_checksum
verify_checksum s checksum = calculate_checksum s == checksum

-- The check value of CRC-32.
check_value : calculate_checksum (codes "123456789") ≡ 0xcbf4_3926
unfolding calculate_checksum
check_value = refl
