-- ===== src/Wire/Laws.antt =====
-- What the readers do to what the writers wrote, each stated for the rest of a reader behind it.
use mathlib.Core.Path.{subst}
use native.Mathlib.Nat.{pow-suc}
use process_snapshot.Prelude.{
  Option-cases, inl, inr, ℕ, zero, suc, ◌*◌, ◌/◌, ◌^◌, ◌<◌, ◌≡◌, refl, ap, Bytes, List, [], ◌∷◌,
  ◌++◌, some, length, take, drop, length-append, take-append, drop-append, append_assoc, ◌∙◌, All,
  IsBytes, ◌+◌, ◌%◌, arith,
}
use process_snapshot.Wire.{
  le_bytes, le_value, u8_bytes, u32_bytes, u64_bytes, u32_mod, u64_mod, Reader, ◌>>=◌, pure,
  read_bytes, read_int, read_short, read_u8, read_u32, read_u64, read_many, write_many,
}

pub length-le_bytes : (k n : ℕ) → length (le_bytes k n) ≡ k
unfolding le_bytes
length-le_bytes zero n = refl
length-le_bytes (suc k) n = ap suc (length-le_bytes k (n / 256))

pub length-u32_bytes : (n : ℕ) → length (u32_bytes n) ≡ 4
unfolding u32_bytes
length-u32_bytes n = length-le_bytes 4 n

pub length-u64_bytes : (n : ℕ) → length (u64_bytes n) ≡ 8
unfolding u64_bytes
length-u64_bytes n = length-le_bytes 8 n

-- Of a number the k lowest bytes keep the value modulo 256 ^ k.
pub le_value-le_bytes : (k n : ℕ) → n < 256 ^ k → le_value (le_bytes k n) ≡ n
unfolding le_bytes le_value
le_value-le_bytes zero n h = omega arith
le_value-le_bytes (suc k) n h =
    let e : 256 ^ suc k ≡ 256 ^ k * 256 = pow-suc 256 k in
    omega (arith, le_value-le_bytes k (n / 256) (omega arith))

pub le_bytes-le_value : (s : Bytes) → IsBytes s → le_bytes (length s) (le_value s) ≡ s
unfolding le_bytes le_value
le_bytes-le_value [] h = refl
le_bytes-le_value (b ∷ s) h =
    let low : (b + 256 * le_value s) % 256 ≡ b = omega (arith, h.0) in
    let high : (b + 256 * le_value s) / 256 ≡ le_value s = omega (arith, h.0) in
    rw (low, high) (ap (λ t. b ∷ t) (le_bytes-le_value s h.1))

read_bytes_lem : (s rest : Bytes) → read_bytes (length s) (s ++ rest) ≡ some (s, rest)
unfolding read_bytes
read_bytes_lem s rest = simp (take-append, drop-append, length-append) (ground arith)

take_prefix : (k n : ℕ) (rest : Bytes) → take k (le_bytes k n ++ rest) ≡ le_bytes k n
take_prefix k n rest =
    subst (λ j. take j (le_bytes k n ++ rest) ≡ le_bytes k n) (length-le_bytes k n)
      (take-append (le_bytes k n) rest)

drop_prefix : (k n : ℕ) (rest : Bytes) → drop k (le_bytes k n ++ rest) ≡ rest
drop_prefix k n rest =
    subst (λ j. drop j (le_bytes k n ++ rest) ≡ rest) (length-le_bytes k n)
      (drop-append (le_bytes k n) rest)

read_int_lem :
    (k n : ℕ) (rest : Bytes) → n < 256 ^ k → read_int k (le_bytes k n ++ rest) ≡ some (n, rest)
unfolding read_int
read_int_lem k n rest h =
    rw
      (
        take_prefix k n rest,
        drop_prefix k n rest,
        length-append,
        length-le_bytes,
        le_value-le_bytes,
        h,
      )
      (ground arith)

read_short_lem :
    (k n : ℕ) (rest : Bytes) → n < 256 ^ k → read_short k (le_bytes k n ++ rest) ≡ some (n, rest)
unfolding read_short
read_short_lem k n rest h = rw (take_prefix k n rest, drop_prefix k n rest, le_value-le_bytes, h)

pub read_u64_lem :
    (n : ℕ) (rest : Bytes) → n < u64_mod → read_u64 (u64_bytes n ++ rest) ≡ some (n, rest)
unfolding read_u64 u64_bytes
read_u64_lem n rest h = read_int_lem 8 n rest h

pub bind_of_some {ℓ κ} :
    {A : Type ℓ} {B : Type κ} (m : Reader A) (f : A → Reader B) (s : Bytes) {a : A} {rest : Bytes}
    → m s ≡ some (a, rest)
    → (m >>= f) s ≡ f a rest
unfolding ◌>>=◌
bind_of_some m f s h = rw (h, ◌>>=◌)

pub bind_assoc {ℓ κ ι} :
    {A : Type ℓ} {B : Type κ} {C : Type ι} (m : Reader A) (f : A → Reader B) (g : B → Reader C)
    (s : Bytes)
    → ((m >>= f) >>= g) s ≡ (m >>= λ a. f a >>= g) s
unfolding ◌>>=◌
bind_assoc m f g s = elim (Option-cases (m s)) [
  | inl failed ↦ rw (failed, ◌>>=◌)
  | inr (x, done) ↦ rw (done, ◌>>=◌)
]

pub pure-bind {ℓ κ} :
    {A : Type ℓ} {B : Type κ} (a : A) (f : A → Reader B) (s : Bytes) → (pure a >>= f) s ≡ f a s
unfolding ◌>>=◌ pure
pure-bind a f s = refl

module _ {ℓ} {B : Type ℓ} where
  pub read_bytes-bind :
      (s rest : Bytes) (f : Bytes → Reader B) → (read_bytes (length s) >>= f) (s ++ rest) ≡ f s rest
  read_bytes-bind s rest f =
      bind_of_some (read_bytes (length s)) f (s ++ rest) (read_bytes_lem s rest)

  read_int-bind :
      (k n : ℕ) (rest : Bytes) (f : ℕ → Reader B)
      → n < 256 ^ k
      → (read_int k >>= f) (le_bytes k n ++ rest) ≡ f n rest
  read_int-bind k n rest f h =
      bind_of_some (read_int k) f (le_bytes k n ++ rest) (read_int_lem k n rest h)

  pub read_u8-bind :
      (n : ℕ) (rest : Bytes) (f : ℕ → Reader B)
      → n < 256
      → (read_u8 >>= f) (u8_bytes n ++ rest) ≡ f n rest
  unfolding read_u8 u8_bytes le_bytes
  read_u8-bind n rest f h = read_int-bind 1 n rest f h

  pub read_u32-bind :
      (n : ℕ) (rest : Bytes) (f : ℕ → Reader B)
      → n < u32_mod
      → (read_u32 >>= f) (u32_bytes n ++ rest) ≡ f n rest
  unfolding read_u32 u32_bytes
  read_u32-bind n rest f h = read_int-bind 4 n rest f h

  pub read_u64-bind :
      (n : ℕ) (rest : Bytes) (f : ℕ → Reader B)
      → n < u64_mod
      → (read_u64 >>= f) (u64_bytes n ++ rest) ≡ f n rest
  unfolding read_u64 u64_bytes
  read_u64-bind n rest f h = read_int-bind 8 n rest f h

  pub read_short32-bind :
      (n : ℕ) (rest : Bytes) (f : ℕ → Reader B)
      → n < u32_mod
      → (read_short 4 >>= f) (u32_bytes n ++ rest) ≡ f n rest
  unfolding u32_bytes
  read_short32-bind n rest f h =
      bind_of_some (read_short 4) f (le_bytes 4 n ++ rest) (read_short_lem 4 n rest h)

  pub read_short64-bind :
      (n : ℕ) (rest : Bytes) (f : ℕ → Reader B)
      → n < u64_mod
      → (read_short 8 >>= f) (u64_bytes n ++ rest) ≡ f n rest
  unfolding u64_bytes
  read_short64-bind n rest f h =
      bind_of_some (read_short 8) f (le_bytes 8 n ++ rest) (read_short_lem 8 n rest h)

-- n values written one after another are read back by n calls of a reader that reads one.
pub read_many-write_many {ℓ} :
    {A : Type ℓ} (r : Reader A) (w : A → Bytes) (P : A → Type 0)
    → ((a : A) (rest : Bytes) → P a → r (w a ++ rest) ≡ some (a, rest))
    → (l : List A) (rest : Bytes) → All P l
    → read_many (length l) r (write_many w l ++ rest) ≡ some (l, rest)
unfolding read_many write_many pure
read_many-write_many r w P step [] rest h = refl
read_many-write_many r w P step (a ∷ l) rest h = rw append_assoc (
    bind_of_some r _ _ (step a (write_many w l ++ rest) h.0)
    ∙ bind_of_some (read_many (length l) r) _ _ (read_many-write_many r w P step l rest h.1))

pub read_many-bind {ℓ κ} :
    {A : Type ℓ} {B : Type κ} (r : Reader A) (w : A → Bytes) (P : A → Type 0)
    → ((a : A) (rest : Bytes) → P a → r (w a ++ rest) ≡ some (a, rest))
    → (l : List A) (rest : Bytes) (f : List A → Reader B) → All P l
    → (read_many (length l) r >>= f) (write_many w l ++ rest) ≡ f l rest
read_many-bind r w P step l rest f h =
    bind_of_some (read_many (length l) r) f (write_many w l ++ rest)
      (read_many-write_many r w P step l rest h)
