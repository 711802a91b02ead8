-- ===== src/Crown/Cbor/RoundTrip/Scalars.antt =====
-- Reading back a value of one head, a bool or a null.
use rcx_registry.Prelude.{
  ℕ, zero, suc, ◌+◌, ◌^◌, ◌≤◌, ◌<◌, ◌≡◌, Bool, true, false, ◌++◌, append_assoc, Bytes, length,
  length-append, arith,
}
use rcx_registry.Prelude.Outcome.{ok}
use rcx_registry.Crown.Utf8.{valid_utf8}
use rcx_registry.Crown.Float.{Platform}
use rcx_registry.Crown.Cbor.Value.{CborValue, uint, bytes, text, bool, null}
use rcx_registry.Crown.Cbor.Encode.{write_head}
use rcx_registry.Crown.Cbor.Decode.{read_body, read_value}
use rcx_registry.Crown.Cbor.Heads.{
  at_cursor, take_bytes-append, take_u8-cons, write_head-parts, read_value-head,
}
use rcx_registry.Crown.Cbor.Encoding.{canonical, encoding}

pub write_head_pos : (major arg : ℕ) → major < 8 → 0 < length (write_head major arg)
write_head_pos major arg h = rw (write_head-parts major arg h) (omega arith)

module _ (p : Platform) where
  -- A value behind a cursor is read, and what follows is left.
  abbrev pub Reads : CborValue → Type 0
  Reads v =
      (fuel pos : ℕ) (rest : Bytes)
      → length (encoding p v) ≤ fuel
      → pos + length (encoding p v) < 2 ^ 64
      → read_value p fuel (at_cursor pos (encoding p v ++ rest))
        ≡ ok (canonical v, at_cursor (pos + length (encoding p v)) rest)

  pub Reads-uint : (n : ℕ) → n < 2 ^ 64 → Reads (uint n)
  unfolding encoding canonical read_body
  Reads-uint n h zero pos rest hf hp = absurd (omega (arith, write_head_pos 0 n))
  Reads-uint n h (suc fuel) pos rest hf hp = ground (arith, read_value-head p fuel pos 0 n rest)

  pub Reads-bytes : (bs : Bytes) → length bs < 2 ^ 64 → Reads (bytes bs)
  unfolding encoding canonical read_body
  Reads-bytes bs h zero pos rest hf hp =
      absurd
        (omega (arith, write_head_pos 2 (length bs), length-append (write_head 2 (length bs)) bs))
  Reads-bytes bs h (suc fuel) pos rest hf hp = ground (
    arith,
    length-append (write_head 2 (length bs)) bs,
    append_assoc (write_head 2 (length bs)) bs rest,
    read_value-head p fuel pos 2 (length bs) (bs ++ rest),
    take_bytes-append (pos + length (write_head 2 (length bs))) bs rest,
  )

  pub Reads-text : (bs : Bytes) → length bs < 2 ^ 64 → valid_utf8 bs ≡ true → Reads (text bs)
  unfolding encoding canonical read_body
  Reads-text bs h u zero pos rest hf hp =
      absurd
        (omega (arith, write_head_pos 3 (length bs), length-append (write_head 3 (length bs)) bs))
  Reads-text bs h u (suc fuel) pos rest hf hp = ground (
    arith,
    length-append (write_head 3 (length bs)) bs,
    append_assoc (write_head 3 (length bs)) bs rest,
    read_value-head p fuel pos 3 (length bs) (bs ++ rest),
    take_bytes-append (pos + length (write_head 3 (length bs))) bs rest,
  )

  pub Reads-bool : (b : Bool) → Reads (bool b)
  unfolding encoding canonical read_value
  Reads-bool true zero pos rest hf hp = absurd (omega arith)
  Reads-bool true (suc fuel) pos rest hf hp = ground (arith, take_u8-cons pos 0xf5 rest)
  Reads-bool false zero pos rest hf hp = absurd (omega arith)
  Reads-bool false (suc fuel) pos rest hf hp = ground (arith, take_u8-cons pos 0xf4 rest)

  pub Reads-null : Reads null
  unfolding encoding canonical read_value
  Reads-null zero pos rest hf hp = absurd (omega arith)
  Reads-null (suc fuel) pos rest hf hp = ground (arith, take_u8-cons pos 0xf6 rest)
