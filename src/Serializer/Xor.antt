-- ===== src/Serializer/Xor.antt =====
-- Laws of the exclusive or, digit by digit: cancellation and the bound by a power of two.
use Prim.Native.Nat.{differ, digits, bit_xor-bitwise}
use native.Mathlib.Nat.{pow-suc}
use process_snapshot.Prelude.{
  ℕ, zero, suc, ◌+◌, ◌*◌, ◌/◌, ◌%◌, ◌^◌, ◌≤◌, ◌<◌, bit_xor, ◌≡◌, refl, arith,
}

abbrev xor_digits : ℕ → ℕ → ℕ → ℕ
xor_digits n a b = digits (λ b. b) differ n a b

-- Fuel for the digits of the first number is enough.
xor_digits_fuel : (n m a b : ℕ) → a ≤ n → a ≤ m → xor_digits n a b ≡ xor_digits m a b
xor_digits_fuel zero zero a b p q = refl
xor_digits_fuel zero (suc m) zero b p q = refl
xor_digits_fuel zero (suc m) (suc a) b p q = absurd (omega arith)
xor_digits_fuel (suc n) zero zero b p q = refl
xor_digits_fuel (suc n) zero (suc a) b p q = absurd (omega arith)
xor_digits_fuel (suc n) (suc m) zero b p q = refl
xor_digits_fuel (suc n) (suc m) (suc a) b p q =
    omega (arith, xor_digits_fuel n m (suc a / 2) (b / 2) (omega arith) (omega arith))

zero-bit_xor : (b : ℕ) → bit_xor 0 b ≡ b
zero-bit_xor b = bit_xor-bitwise 0 b

zero-differ : (y : ℕ) → differ 0 y ≡ y
zero-differ y = refl

bit_xor_step : (a b : ℕ) → bit_xor a b ≡ bit_xor (a / 2) (b / 2) * 2 + differ (a % 2) (b % 2)
bit_xor_step zero b = omega (arith, zero-bit_xor b, zero-bit_xor (b / 2), zero-differ (b % 2))
bit_xor_step (suc a) b = omega (
  arith,
  bit_xor-bitwise (suc a) b,
  bit_xor-bitwise (suc a / 2) (b / 2),
  xor_digits_fuel a (suc a / 2) (suc a / 2) (b / 2) (omega arith) (omega arith),
)

differ-le : (x y : ℕ) → x < 2 → y < 2 → differ x y < 2
differ-le zero y h k = k
differ-le (suc zero) zero h k = omega arith
differ-le (suc zero) (suc zero) h k = omega arith
differ-le (suc zero) (suc (suc y)) h k = absurd (omega arith)
differ-le (suc (suc x)) y h k = absurd (omega arith)

differ_cancel : (x y z : ℕ) → x < 2 → y < 2 → z < 2 → differ x y ≡ differ x z → y ≡ z
differ_cancel zero y z hx hy hz e = e
differ_cancel (suc zero) zero zero hx hy hz e = refl
differ_cancel (suc zero) zero (suc zero) hx hy hz e = absurd (omega arith)
differ_cancel (suc zero) (suc zero) zero hx hy hz e = absurd (omega arith)
differ_cancel (suc zero) (suc zero) (suc zero) hx hy hz e = refl
differ_cancel (suc zero) zero (suc (suc z)) hx hy hz e = absurd (omega arith)
differ_cancel (suc zero) (suc zero) (suc (suc z)) hx hy hz e = absurd (omega arith)
differ_cancel (suc zero) (suc (suc y)) z hx hy hz e = absurd (omega arith)
differ_cancel (suc (suc x)) y z hx hy hz e = absurd (omega arith)

differ_comm : (x y : ℕ) → x < 2 → y < 2 → differ x y ≡ differ y x
differ_comm zero zero hx hy = refl
differ_comm zero (suc y) hx hy = refl
differ_comm (suc x) zero hx hy = refl
differ_comm (suc x) (suc y) hx hy = differ_comm x y (omega arith) (omega arith)

pub bit_xor-lt : (k a b : ℕ) → a < 2 ^ k → b < 2 ^ k → bit_xor a b < 2 ^ k
bit_xor-lt zero a b ha hb = let e : a ≡ 0 = omega arith in rw (e, zero-bit_xor) hb
bit_xor-lt (suc k) a b ha hb = omega (
  arith,
  pow-suc 2 k,
  bit_xor_step a b,
  differ-le (a % 2) (b % 2) (omega arith) (omega arith),
  bit_xor-lt k (a / 2) (b / 2) (omega (arith, pow-suc 2 k)) (omega (arith, pow-suc 2 k)),
)

-- Induction on a bound of all three numbers.
bit_xor_cancel_fuel : (k x a b : ℕ) → x ≤ k → a ≤ k → b ≤ k → bit_xor x a ≡ bit_xor x b → a ≡ b
bit_xor_cancel_fuel zero x a b hx ha hb e = omega arith
bit_xor_cancel_fuel (suc k) x a b hx ha hb e =
    let p = bit_xor_step x a in
    let q = bit_xor_step x b in
    let m = differ-le (x % 2) (a % 2) (omega arith) (omega arith) in
    let n = differ-le (x % 2) (b % 2) (omega arith) (omega arith) in
    let low : a % 2 ≡ b % 2 =
      differ_cancel (x % 2) (a % 2) (b % 2) (omega arith) (omega arith) (omega arith)
        (omega arith) in
    let high : a / 2 ≡ b / 2 =
      bit_xor_cancel_fuel k (x / 2) (a / 2) (b / 2) (omega arith) (omega arith) (omega arith)
        (omega arith) in
    omega arith

pub bit_xor_cancel : (x a b : ℕ) → bit_xor x a ≡ bit_xor x b → a ≡ b
bit_xor_cancel x a b e =
    bit_xor_cancel_fuel (x + a + b) x a b (omega arith) (omega arith) (omega arith) e

bit_xor_comm_fuel : (k a b : ℕ) → a ≤ k → b ≤ k → bit_xor a b ≡ bit_xor b a
bit_xor_comm_fuel zero a b ha hb =
    let e : a ≡ 0 = omega arith in let d : b ≡ 0 = omega arith in rw (e, d)
bit_xor_comm_fuel (suc k) a b ha hb = omega (
  arith,
  bit_xor_step a b,
  bit_xor_step b a,
  differ_comm (a % 2) (b % 2) (omega arith) (omega arith),
  bit_xor_comm_fuel k (a / 2) (b / 2) (omega arith) (omega arith),
)

pub bit_xor_comm : (a b : ℕ) → bit_xor a b ≡ bit_xor b a
bit_xor_comm a b = bit_xor_comm_fuel (a + b) a b (omega arith) (omega arith)

-- The highest bit of one number alone stays.
pub bit_xor-ge : (k a b : ℕ) → a < 2 ^ k → 2 ^ k ≤ b → 2 ^ k ≤ bit_xor a b
bit_xor-ge zero a b ha hb = let e : a ≡ 0 = omega arith in rw (e, zero-bit_xor) hb
bit_xor-ge (suc k) a b ha hb = omega (
  arith,
  pow-suc 2 k,
  bit_xor_step a b,
  bit_xor-ge k (a / 2) (b / 2) (omega (arith, pow-suc 2 k)) (omega (arith, pow-suc 2 k)),
)
