-- ===== src/Crown/Cbor/Encode.antt =====
-- The encoder of canonical.rs. What it appends to its buffer is what a function here returns; `none`
-- is the panic of `assert!(number.is_finite())`.
use rcx_registry.Prelude.{
  ℕ, ◌*◌, Bool, true, false, Option, none, some, List, [], ◌∷◌, ◌++◌, Bytes, bit_or, ltb, leb,
  if◌then◌else◌, length, sort_by, lex_le, to_be_bytes,
}
use rcx_registry.Prelude.Partial.{◌>>=◌}
use rcx_registry.Crown.Float.{Platform, is_finite64, float_eq}
use rcx_registry.Crown.Cbor.Value.{
  CborValue, uint, bytes, text, array, object, bool, null, float, Items, no_items, item, Pairs,
  no_pairs, pair, count_items, count_pairs,
}

abbrev pub major_uint : ℕ
major_uint = 0

abbrev pub major_bytes : ℕ
major_bytes = 2

abbrev pub major_text : ℕ
major_text = 3

abbrev pub major_array : ℕ
major_array = 4

abbrev pub major_map : ℕ
major_map = 5

abbrev pub major_simple : ℕ
major_simple = 7

abbrev pub simple_false : ℕ
simple_false = 0xf4

abbrev pub simple_true : ℕ
simple_true = 0xf5

abbrev pub simple_null : ℕ
simple_null = 0xf6

-- `major << 5` fits a byte, since no major type is above 7.
unfoldable pub write_head : ℕ → ℕ → Bytes
write_head major arg =
    let prefix = major * 32 in
    if ltb arg 24
    then bit_or prefix arg ∷ []
    else if leb arg 0xff
    then bit_or prefix 24 ∷ to_be_bytes 1 arg
    else if leb arg 0xffff
    then bit_or prefix 25 ∷ to_be_bytes 2 arg
    else if leb arg 0xffff_ffff
    then bit_or prefix 26 ∷ to_be_bytes 4 arg
    else bit_or prefix 27 ∷ to_be_bytes 8 arg

-- The encoded key of a pair, by which the pairs of a map are sorted.
unfoldable pub encoded_key : Bytes → Bytes
encoded_key key = write_head major_text (length key) ++ key

abbrev pub entry_le : Bytes × Bytes → Bytes × Bytes → Bool
entry_le a b = lex_le a.0 b.0

abbrev pub write_entries : List (Bytes × Bytes) → Bytes
write_entries [] = []
write_entries ((key, value) ∷ rest) = key ++ (value ++ write_entries rest)

-- the three widths, behind the assertion
unfoldable pub float_bytes : Platform → ℕ → Bytes
float_bytes p number =
    let half = p.narrow16 number in
    let single = p.narrow32 number in
    if float_eq (p.widen16 half) number
    then bit_or (major_simple * 32) 25 ∷ to_be_bytes 2 half
    else if float_eq (p.widen32 single) number
    then bit_or (major_simple * 32) 26 ∷ to_be_bytes 4 single
    else bit_or (major_simple * 32) 27 ∷ to_be_bytes 8 number

unfoldable pub write_float : Platform → ℕ → Option Bytes
write_float p number = if is_finite64 number then some (float_bytes p number) else none

abbrev pub write_bool : Bool → Bytes
write_bool true = simple_true ∷ []
write_bool false = simple_false ∷ []

module _ (p : Platform) where
  unfoldable mutual
    pub write_value : CborValue → Option Bytes
    write_value (uint number) = some (write_head major_uint number)
    write_value (bytes bs) = some (write_head major_bytes (length bs) ++ bs)
    write_value (text bs) = some (write_head major_text (length bs) ++ bs)
    write_value (array items) = do
      out ← write_items items
      some (write_head major_array (count_items items) ++ out)
    write_value (object pairs) = do
      entries ← write_pairs pairs
      some (write_head major_map (count_pairs pairs) ++ write_entries (sort_by entry_le entries))
    write_value (bool b) = some (write_bool b)
    write_value null = some (simple_null ∷ [])
    write_value (float number) = write_float p number

    pub write_items : Items → Option Bytes
    write_items no_items = some []
    write_items (item v xs) = do out ← write_value v; rest ← write_items xs; some (out ++ rest)

    -- each pair's encoded key beside its encoded value
    pub write_pairs : Pairs → Option (List (Bytes × Bytes))
    write_pairs no_pairs = some []
    write_pairs (pair k v ps) = do
      out ← write_value v
      rest ← write_pairs ps
      some ((encoded_key k, out) ∷ rest)

-- `CborValue::encode`
unfoldable pub encode : Platform → CborValue → Option Bytes
encode p v = write_value p v
