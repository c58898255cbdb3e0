-- ===== src/Tests/Serializer.antt =====
-- The codecs, the checksum and the identifiers at concrete inputs.
use process_snapshot.Prelude.{◌*◌, ◌+◌, ◌≤◌, ◌≡◌, Bytes, [], ◌∷◌, length, some, arith}
use process_snapshot.Serializer.Rle.{compress, decompress}
use process_snapshot.Serializer.Rle.Laws.{decompress-compress, cost, escapes, length-compress}
use process_snapshot.Serializer.Json.{serialize, deserialize}
use process_snapshot.Serializer.Json.Laws.{deserialize-serialize_json}

-- A run, the escape byte alone, and a run of it.
abbrev runs : Bytes
runs = 7 ∷ 7 ∷ 7 ∷ 7 ∷ 7 ∷ 1 ∷ 255 ∷ 2 ∷ 255 ∷ 255 ∷ []

abbrev plain : Bytes
plain = 7 ∷ 7 ∷ 7 ∷ 7 ∷ 7 ∷ 1 ∷ 2 ∷ []

decompress-compress_example : decompress (compress runs) ≡ runs
decompress-compress_example = decompress-compress runs

length-compress_example :
    (length (compress runs) ≡ cost runs) × (length (compress runs) ≤ length runs + 2 * escapes runs)
length-compress_example = length-compress runs

deserialize-serialize_json_example :
    deserialize (serialize (222 ∷ 173 ∷ 190 ∷ [])) 2 ≡ some (222 ∷ 173 ∷ [])
deserialize-serialize_json_example =
    deserialize-serialize_json (222 ∷ 173 ∷ 190 ∷ []) 2
      (omega arith, (omega arith, (omega arith, tt)))
