-- ===== src/Serializer/Json/Laws.antt =====
-- What `deserialize` of `JsonSerializer` makes of a text that `serialize` wrote.
use process_snapshot.Prelude.{
  ℕ, zero, suc, ◌*◌, ◌/◌, ◌%◌, ◌≤◌, ◌<◌, ◌≡◌, ◌≢◌, refl, Bytes, Text, none, some, [], ◌∷◌, ◌++◌,
  ap₂, arith, length, take, drop, take-append, leb, if◌then◌else◌, starts_with,
}
use process_snapshot.Prelude.{IsBytes}
use process_snapshot.Serializer.Json.{
  hex_char, hex_value, hex_text, quote, data_key, serialize, find, decode_hex, data_field,
  deserialize,
}

hex_value-hex_char : (n : ℕ) → n < 16 → hex_value (hex_char n) ≡ n
unfolding hex_value hex_char
hex_value-hex_char n h = ground arith

hex_char-ne-quote : (n : ℕ) → n < 16 → hex_char n ≢ quote
unfolding hex_char
hex_char-ne-quote n h = ground arith

find-hex_text :
    (s : Bytes) (rest : Text)
    → find (quote ∷ []) (hex_text s ++ quote ∷ rest) ≡ some (length (hex_text s))
unfolding find hex_text starts_with
find-hex_text [] rest = refl
find-hex_text (b ∷ s) rest = ground (
  arith,
  hex_char-ne-quote (b / 16 % 16) (omega arith),
  hex_char-ne-quote (b % 16) (omega arith),
  find-hex_text s rest,
)

length-hex_text : (s : Bytes) → length (hex_text s) ≡ 2 * length s
unfolding hex_text
length-hex_text [] = omega arith
length-hex_text (b ∷ s) = omega (arith, length-hex_text s)

decode_hex-hex_text :
    (n : ℕ) (s : Bytes) → IsBytes s → n ≤ length s → decode_hex n (hex_text s) ≡ take n s
unfolding decode_hex hex_text
decode_hex-hex_text zero s h k = refl
decode_hex-hex_text (suc n) [] h k = absurd (omega arith)
decode_hex-hex_text (suc n) (b ∷ s) h k =
    ap₂ ◌∷◌
      (omega (
        arith,
        h.0,
        hex_value-hex_char (b / 16 % 16) (omega arith),
        hex_value-hex_char (b % 16) (omega arith),
      ))
      (decode_hex-hex_text n s h.1 (omega arith))

find-serialize : (s : Bytes) → find data_key (serialize s) ≡ some 1
unfolding find starts_with serialize
find-serialize s = refl

-- The text behind the key.
behind_key : (s : Bytes) → (rest : Text) × (drop 9 (serialize s) ≡ hex_text s ++ quote ∷ rest)
unfolding serialize
behind_key s = (_, refl)

data_field-serialize : (s : Bytes) → data_field (serialize s) ≡ some (hex_text s)
unfolding data_field hex_text serialize
data_field-serialize s =
    let (rest, e) = behind_key s in rw (find-serialize, e, find-hex_text, take-append, data_field)

-- Of a text that `serialize` wrote, `deserialize` reads any number of the bytes back, and refuses
-- to read more bytes than there are.
pub deserialize-serialize_json :
    (s : Bytes) (n : ℕ)
    → IsBytes s
    → deserialize (serialize s) n ≡ (if leb n (length s) then some (take n s) else none)
unfolding deserialize
deserialize-serialize_json s n h =
    rw (data_field-serialize, deserialize)
      (ground (arith, length-hex_text s, decode_hex-hex_text n s h))
