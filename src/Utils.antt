-- ===== src/Utils.antt =====
-- include/utils/helpers.hpp: the identifiers and the clock conversions. The clocks themselves are
-- read by the callers, which take the readings as arguments.
use process_snapshot.Prelude.{ℕ, ◌+◌, ◌*◌, ◌/◌, ◌%◌, ◌^◌, ◌<◌, ◌≡◌, arith}
use process_snapshot.Wire.{u64_mod}

-- A `Timestamp` counts nanoseconds from the epoch on; earlier times are left out.
abbrev pub Timestamp : Type 0
Timestamp = ℕ

abbrev pub nanoseconds : ℕ
nanoseconds = 1000000000

unfoldable pub to_unix_timestamp : Timestamp → ℕ
to_unix_timestamp t = t / nanoseconds

unfoldable pub from_unix_timestamp : ℕ → Timestamp
from_unix_timestamp s = s * nanoseconds

-- `(now << 16) | (s_counter++ & 0xFFFF)`, from the reading of the steady clock and the counter
-- before the call. The 16 low bits of the shifted clock are zero, so the `|` adds.
unfoldable pub generate_checkpoint_id : ℕ → ℕ → ℕ
generate_checkpoint_id now counter = now * 65536 % u64_mod + counter % 65536

-- `s_counter++`, of an atomic 64-bit counter: the old value, and the new one.
unfoldable pub generate_operation_id : ℕ → ℕ × ℕ
generate_operation_id counter = (counter, (counter + 1) % u64_mod)

unfoldable pub next_counter : ℕ → ℕ
next_counter counter = (counter + 1) % u64_mod

pub generate_checkpoint_id-lt : (now counter : ℕ) → generate_checkpoint_id now counter < u64_mod
unfolding generate_checkpoint_id
generate_checkpoint_id-lt now counter = omega arith

-- Two ids are the same only if both the 48 low bits of the clock readings and the 16 low bits of
-- the counters are.
pub generate_checkpoint_id-injective :
    (now now' counter counter' : ℕ)
    → generate_checkpoint_id now counter ≡ generate_checkpoint_id now' counter'
    → (now % 2 ^ 48 ≡ now' % 2 ^ 48) × (counter % 65536 ≡ counter' % 65536)
unfolding generate_checkpoint_id
generate_checkpoint_id-injective now now' counter counter' h = omega arith

pub to_unix_timestamp-lt : (t : Timestamp) → t < u64_mod → to_unix_timestamp t < u64_mod
unfolding to_unix_timestamp
to_unix_timestamp-lt t h = omega arith

-- The time of a stored stamp is the stored time with its fraction of a second dropped.
pub from_unix_timestamp-to :
    (t : Timestamp) → from_unix_timestamp (to_unix_timestamp t) ≡ t / nanoseconds * nanoseconds
unfolding to_unix_timestamp from_unix_timestamp
from_unix_timestamp-to t = omega arith
