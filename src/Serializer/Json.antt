-- ===== src/Serializer/Json.antt =====
-- `JsonSerializer` (src/core/serializer.cpp): a byte string as hexadecimal text in a JSON object.
pub mod Laws
use process_snapshot.Prelude.{
  ℕ, zero, suc, ◌+◌, ◌-◌, ◌*◌, ◌/◌, ◌%◌, ◌≡◌, refl, Bytes, Text, Option, none, some, Bool, true,
  false, [], ◌∷◌, ◌++◌, ◌&&◌, codes, length, take, drop, to_string, ltb, leb, ◌==◌, if◌then◌else◌,
  starts_with,
}

-- The n-th entry of the literal "0123456789ABCDEF".
unfoldable pub hex_char : ℕ → ℕ
hex_char n = if ltb n 10 then b'0' + n else b'A' + (n - 10)

unfoldable pub hex_value : ℕ → ℕ
hex_value c =
    if leb b'0' c && leb c b'9'
    then c - b'0'
    else if leb b'A' c && leb c b'F'
    then c - b'A' + 10
    else if leb b'a' c && leb c b'f'
    then c - b'a' + 10
    else 0

pub hex_text : Bytes → Text
hex_text [] = []
hex_text (b ∷ s) = hex_char (b / 16 % 16) ∷ hex_char (b % 16) ∷ hex_text s

abbrev pub quote : ℕ
quote = b'"'

-- `"data":"`
abbrev pub data_key : Text
data_key = quote ∷ codes "data" ++ quote ∷ b':' ∷ quote ∷ []

-- `","size":`
abbrev size_key : Text
size_key = quote ∷ b',' ∷ quote ∷ codes "size" ++ quote ∷ b':' ∷ []

unfoldable pub serialize : Bytes → Text
unfolding hex_char hex_text
serialize s = b'{' ∷ data_key ++ (hex_text s ++ (size_key ++ (to_string (length s) ++ b'}' ∷ [])))

-- `std::string::find`: the first position at which the pattern stands.
pub find : Text → Text → Option ℕ
find p [] = if starts_with p [] then some 0 else none
find p (b ∷ s) =
    let later : Option ℕ = elim (find p s) [ none ↦ none | some i ↦ some (suc i) ] in
    if starts_with p (b ∷ s) then some 0 else later

-- The loop over the pairs of digits. The nibbles do not overlap, so the `|` adds.
pub decode_hex : ℕ → Text → Bytes
decode_hex zero s = []
decode_hex (suc n) (high ∷ low ∷ s) = (hex_value high * 16 + hex_value low) ∷ decode_hex n s
decode_hex (suc n) s = []

-- The text between the end of the key and the next quote. `none` is the result `false`.
pub data_field : Text → Option Text
data_field json = elim (find data_key json) [
  | none ↦ none
  | some start ↦ elim (find (quote ∷ []) (drop (start + 8) json)) [
    | none ↦ none
    | some len ↦ some (take len (drop (start + 8) json))
  ]
]

unfoldable pub deserialize : Text → ℕ → Option Bytes
unfolding hex_value starts_with find decode_hex
deserialize json size = elim (data_field json) [
  | none ↦ none
  | some hex ↦ if ltb (length hex / 2) size then none else some (decode_hex size hex)
]

serialize_test :
    serialize (0 ∷ 171 ∷ []) ≡ b'{' ∷ data_key ++ (codes "00AB" ++ (size_key ++ codes "2}"))
unfolding serialize to_string
serialize_test = refl

deserialize_test : deserialize (serialize (0 ∷ 171 ∷ [])) 2 ≡ some (0 ∷ 171 ∷ [])
unfolding serialize deserialize data_field to_string
deserialize_test = refl
