-- ===== src/Wire.antt =====
-- Little-endian integers and byte strings as the record formats store them: what
-- `BinarySerializer::serializeObject` writes and `deserializeObject` reads
-- (include/core/serializer.hpp) on x86-64, where an integer's bytes stand lowest first.
pub mod Laws
use process_snapshot.Prelude.{
  ℕ, zero, suc, ◌+◌, ◌*◌, ◌/◌, ◌%◌, ◌^◌, Bytes, List, [], ◌∷◌, ◌++◌, Option, none, some, length,
  take, drop, ltb, if◌then◌else◌,
}

-- The lowest k bytes of n.
unfoldable pub le_bytes : ℕ → ℕ → Bytes
le_bytes zero n = []
le_bytes (suc k) n = (n % 256) ∷ le_bytes k (n / 256)

unfoldable pub le_value : Bytes → ℕ
le_value [] = 0
le_value (b ∷ s) = b + 256 * le_value s

-- Widths: `uint32_t`, and `uint64_t` with `size_t`. A signed integer is its bit pattern.
abbrev pub u32_mod : ℕ
u32_mod = 2 ^ 32

abbrev pub u64_mod : ℕ
u64_mod = 2 ^ 64

-- `static_cast<uint32_t>`.
abbrev pub to_u32 : ℕ → ℕ
to_u32 n = n % u32_mod

unfoldable pub u8_bytes : ℕ → Bytes
u8_bytes n = (n % 256) ∷ []

unfoldable pub u32_bytes : ℕ → Bytes
u32_bytes n = le_bytes 4 n

unfoldable pub u64_bytes : ℕ → Bytes
u64_bytes n = le_bytes 8 n

-- A reader takes the bytes from the current offset on, and returns a value and the bytes behind
-- it. `none`: the source would read past the end of the vector, which is undefined.
abbrev pub Reader {ℓ} : Type ℓ → Type ℓ
Reader A = Bytes → Option (A × Bytes)

infixl 5 ◌>>=◌
unfoldable pub ◌>>=◌ {ℓ κ} : {A : Type ℓ} {B : Type κ} → Reader A → (A → Reader B) → Reader B
◌>>=◌ m f s = elim (m s) [ none ↦ none | some (a, rest) ↦ f a rest ]

unfoldable pub pure {ℓ} : {A : Type ℓ} → A → Reader A
pure a s = some (a, s)

-- The next n bytes, all of which must be there.
unfoldable pub read_bytes : ℕ → Reader Bytes
read_bytes n s = if ltb (length s) n then none else some (take n s, drop n s)

-- `deserializeObject<T>` at an integer type of k bytes.
unfoldable pub read_int : ℕ → Reader ℕ
read_int k s = if ltb (length s) k then none else some (le_value (take k s), drop k s)

-- A loop that reads up to k bytes and stops at the end of the data.
unfoldable pub read_short : ℕ → Reader ℕ
read_short k s = some (le_value (take k s), drop k s)

-- One byte at `data[pos++]`.
pub read_u8 : Reader ℕ
read_u8 = read_int 1

pub read_u32 : Reader ℕ
read_u32 = read_int 4

pub read_u64 : Reader ℕ
read_u64 = read_int 8

-- n values, one after another: a loop that calls `push_back` on each.
unfoldable pub read_many {ℓ} : {A : Type ℓ} → ℕ → Reader A → Reader (List A)
read_many zero r = pure []
read_many (suc n) r = let rest = read_many n r in r >>= λ a. rest >>= λ l. pure (a ∷ l)

unfoldable pub write_many {ℓ} : {A : Type ℓ} → (A → Bytes) → List A → Bytes
write_many w [] = []
write_many w (a ∷ l) = w a ++ write_many w l
