-- ===== src/Crown/Cbor/Decode.antt =====
-- The decoder of canonical.rs. The cursor holds its offset and the bytes behind it. The recursion of
-- `read_value` takes fuel: a call and each call that it makes read at least a byte, so the length of
-- the input is enough.
use rcx_registry.Prelude.{
  ℕ, zero, suc, ◌+◌, ◌/◌, ◌^◌, true, false, not, ◌||◌, [], ◌∷◌, Bytes, bit_and, ltb, leb, ◌==◌,
  if◌then◌else◌, length, take, drop, from_be_bytes,
}
use rcx_registry.Prelude.Outcome.{Outcome, ok, err, panic, stuck, ◌>>=◌}
use rcx_registry.Crown.Utf8.{valid_utf8}
use rcx_registry.Crown.Float.{Platform, is_finite64, is_finite32, float_eq}
use rcx_registry.Crown.Cbor.Value.{
  CborValue, uint, bytes, text, array, object, bool, null, float, Items, no_items, item, Pairs,
  no_pairs, pair,
}
use rcx_registry.Crown.Cbor.Encode.{
  major_uint, major_bytes, major_text, major_array, major_map, major_simple, simple_true,
  simple_false, simple_null,
}

-- The reasons that `CrownError::Decode` spells out.
pub data DecodeReason : Type 0 where
  unexpected_eof invalid_utf8 non_text_key integer_head non_finite float_encoding : DecodeReason
  trailing_bytes unsupported_major reserved_info unsupported_simple : ℕ → DecodeReason

-- `bad_public_key` is the `Decode` that holds the message of the key's own error.
pub data CrownError : Type 0 where
  decode_error : DecodeReason → CrownError
  bad_signature : CrownError
  public_key_length : ℕ → CrownError
  bad_public_key : CrownError

pub record Cursor : Type 0 where
  pub pos : ℕ
  pub rest : Bytes

abbrev pub Reader {ℓ} : Type ℓ → Type ℓ
Reader A = Cursor → Outcome CrownError (A × Cursor)

abbrev pub fail {ℓ} : {A : Type ℓ} → DecodeReason → Outcome CrownError A
fail why = err (decode_error why)

-- `self.pos + count` is computed in 64 bits. Where it overflows, a debug build panics; a release
-- build passes the test on the wrapped sum and panics on the slice, which ends before it begins.
unfoldable pub take_bytes : ℕ → Reader Bytes
take_bytes count c =
    if leb (2 ^ 64) (c.pos + count)
    then panic
    else if ltb (length c.rest) count
    then fail unexpected_eof
    else ok (take count c.rest, record { pos = c.pos + count; rest = drop count c.rest })

-- `self.take(1)?[0]`
first_byte : Bytes × Cursor → Outcome CrownError (ℕ × Cursor)
first_byte ([], c) = panic
first_byte (b ∷ bs, c) = ok (b, c)

unfoldable pub take_u8 : Reader ℕ
unfolding take_bytes first_byte
take_u8 c = take_bytes 1 c >>= first_byte

-- `from_be_bytes` over the slice that `take` gave
unfoldable pub take_word : ℕ → Reader ℕ
take_word width c = do (bs, c') ← take_bytes width c; ok (from_be_bytes bs, c')

-- a longer head than the number needs is refused
unfoldable pub above : ℕ → ℕ × Cursor → Outcome CrownError (ℕ × Cursor)
above least (value, c) = if leb value least then fail integer_head else ok (value, c)

unfoldable pub read_arg : ℕ → Reader ℕ
unfolding above take_word
read_arg info c =
    if ltb info 24
    then ok (info, c)
    else if info == 24
    then take_u8 c >>= above 23
    else if info == 25
    then take_word 2 c >>= above 0xff
    else if info == 26
    then take_word 4 c >>= above 0xffff
    else if info == 27
    then take_word 8 c >>= above 0xffff_ffff
    else fail (reserved_info info)

-- `read_float` on the bits that it took
unfoldable pub float_of_single : Platform → ℕ × Cursor → Outcome CrownError (CborValue × Cursor)
float_of_single p (number, c) =
    let as_f64 = p.widen32 number in
    if not (is_finite32 number)
    then fail non_finite
    else if float_eq (p.widen16 (p.narrow16 as_f64)) as_f64
    then fail float_encoding
    else ok (float as_f64, c)

unfoldable pub float_of_double : Platform → ℕ × Cursor → Outcome CrownError (CborValue × Cursor)
float_of_double p (number, c) =
    if not (is_finite64 number)
    then fail non_finite
    else if float_eq (p.widen16 (p.narrow16 number)) number
        || float_eq (p.widen32 (p.narrow32 number)) number
    then fail float_encoding
    else ok (float number, c)

unfoldable pub read_float : Platform → ℕ → Reader CborValue
unfolding float_of_single float_of_double take_word
read_float p info c =
    if info == 25
    then (do (bits, c') ← take_word 2 c; ok (float (p.widen16 bits), c'))
    else if info == 26
    then take_word 4 c >>= float_of_single p
    else if info == 27
    then take_word 8 c >>= float_of_double p
    else fail (unsupported_simple info)

-- `for _ in 0..arg`, over the function that reads a value
unfoldable pub read_items : Reader CborValue → ℕ → Reader Items
read_items read zero c = ok (no_items, c)
read_items read (suc n) c = do (v, c1) ← read c; (vs, c2) ← read_items read n c1; ok (item v vs, c2)

-- the key's kind is looked at when the value has been read
abbrev pub add_pair :
    CborValue
    → CborValue
    → Outcome CrownError (Pairs × Cursor)
    → Outcome CrownError (Pairs × Cursor)
add_pair (text k) v rest = rest >>= λ (ps, c). ok (pair k v ps, c)
add_pair _ v rest = fail non_text_key

unfoldable pub read_pairs : Reader CborValue → ℕ → Reader Pairs
read_pairs read zero c = ok (no_pairs, c)
read_pairs read (suc n) c = do
  (k, c1) ← read c
  (v, c2) ← read c1
  let rest = read_pairs read n c2
  add_pair k v rest

unfoldable pub read_text : ℕ → Reader CborValue
read_text arg c = do
  (bs, c') ← take_bytes arg c
  if valid_utf8 bs then ok (text bs, c') else fail invalid_utf8

-- the `match major` of `read_value`
unfoldable pub read_body : Platform → Reader CborValue → ℕ → ℕ → Reader CborValue
unfolding read_text
read_body p read major arg c =
    if major == major_uint
    then ok (uint arg, c)
    else if major == major_bytes
    then (do (bs, c') ← take_bytes arg c; ok (bytes bs, c'))
    else if major == major_text
    then read_text arg c
    else if major == major_array
    then (if p.reserve_items arg
        then (do (vs, c') ← read_items read arg c; ok (array vs, c'))
        else panic)
    else if major == major_map
    then (if p.reserve_pairs arg
        then (do (ps, c') ← read_pairs read arg c; ok (object ps, c'))
        else panic)
    else fail (unsupported_major major)

unfoldable pub read_value : Platform → ℕ → Reader CborValue
read_value p zero c = stuck
read_value p (suc fuel) c = do
  (first, c1) ← take_u8 c
  let major = first / 32
  let info = bit_and first 0x1f
  if first == simple_true
      then ok (bool true, c1)
      else if first == simple_false
      then ok (bool false, c1)
      else if first == simple_null
      then ok (null, c1)
      else if major == major_simple
      then read_float p info c1
      else (do (arg, c2) ← read_arg info c1; read_body p (read_value p fuel) major arg c2)

-- the whole input is one value
unfoldable pub no_rest : CborValue → ℕ → Bytes → Outcome CrownError CborValue
no_rest v pos [] = ok v
no_rest v pos (b ∷ bs) = fail (trailing_bytes pos)

unfoldable pub finish : CborValue × Cursor → Outcome CrownError CborValue
unfolding no_rest
finish (v, c) = no_rest v c.pos c.rest

unfoldable pub decode : Platform → Bytes → Outcome CrownError CborValue
unfolding finish
decode p bs = read_value p (suc (length bs)) (record { pos = 0; rest = bs }) >>= finish
