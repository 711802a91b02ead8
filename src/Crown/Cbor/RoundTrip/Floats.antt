-- ===== src/Crown/Cbor/RoundTrip/Floats.antt =====
-- Reading back a float of each width.
use rcx_registry.Prelude.{
  ℕ, zero, suc, ◌+◌, ◌^◌, ◌<◌, ◌≡◌, true, false, ◌∷◌, ◌++◌, Bytes, arith, to_be_bytes,
  length-to_be_bytes,
}
use rcx_registry.Prelude.Outcome.{ok}
use rcx_registry.Crown.Float.{Platform, IsLawful, is_finite64, float_eq, float_eq_bits}
use rcx_registry.Crown.Cbor.Value.{float}
use rcx_registry.Crown.Cbor.Encode.{float_bytes}
use rcx_registry.Crown.Cbor.Decode.{read_float, read_value}
use rcx_registry.Crown.Cbor.Heads.{at_cursor, head_and, take_word-append, take_u8-cons}
use rcx_registry.Crown.Cbor.Encoding.{canonical, encoding}
use rcx_registry.Crown.Cbor.RoundTrip.Scalars.{Reads}

module _ (p : Platform) where
  -- The first byte of a float leads to `read_float`.
  read_value-float :
      (fuel pos info : ℕ) (rest : Bytes)
      → info < 28
      → 24 < info
      → pos + 1 < 2 ^ 64
      → read_value p (suc fuel) (at_cursor pos ((224 + info) ∷ rest))
        ≡ read_float p info (at_cursor (pos + 1) rest)
  unfolding read_value
  read_value-float fuel pos info rest h k hp =
      ground (arith, take_u8-cons pos (224 + info) rest, head_and (224 + info))

  module _ (law : IsLawful p) where
    Reads-half :
        (x pos : ℕ) (rest : Bytes)
        → float_eq (p.widen16 (p.narrow16 x)) x ≡ true
        → pos + 2 < 2 ^ 64
        → read_float p 25 (at_cursor pos (to_be_bytes 2 (p.narrow16 x) ++ rest))
          ≡ ok (float x, at_cursor (pos + 2) rest)
    unfolding read_float
    Reads-half x pos rest e hp = ground (
      arith,
      take_word-append 2 pos (p.narrow16 x) rest,
      law.narrow16_lt x,
      float_eq_bits (p.widen16 (p.narrow16 x)) x (law.zero16 x) e,
    )

    Reads-single :
        (x pos : ℕ) (rest : Bytes)
        → is_finite64 x ≡ true
        → float_eq (p.widen16 (p.narrow16 x)) x ≡ false
        → float_eq (p.widen32 (p.narrow32 x)) x ≡ true
        → pos + 4 < 2 ^ 64
        → read_float p 26 (at_cursor pos (to_be_bytes 4 (p.narrow32 x) ++ rest))
          ≡ ok (float x, at_cursor (pos + 4) rest)
    unfolding read_float
    Reads-single x pos rest f e e' hp = ground (
      arith,
      take_word-append 4 pos (p.narrow32 x) rest,
      law.narrow32_lt x,
      law.finite32 (p.narrow32 x),
      float_eq_bits (p.widen32 (p.narrow32 x)) x (law.zero32 x) e',
    )

    Reads-double :
        (x pos : ℕ) (rest : Bytes)
        → x < 2 ^ 64
        → is_finite64 x ≡ true
        → float_eq (p.widen16 (p.narrow16 x)) x ≡ false
        → float_eq (p.widen32 (p.narrow32 x)) x ≡ false
        → pos + 8 < 2 ^ 64
        → read_float p 27 (at_cursor pos (to_be_bytes 8 x ++ rest))
          ≡ ok (float x, at_cursor (pos + 8) rest)
    unfolding read_float
    Reads-double x pos rest h f e e' hp = ground (arith, take_word-append 8 pos x rest)

    pub Reads-float : (x : ℕ) → x < 2 ^ 64 → is_finite64 x ≡ true → Reads p (float x)
    unfolding encoding canonical float_bytes
    Reads-float x h f zero pos rest hf hp = absurd (ground arith)
    Reads-float x h f (suc fuel) pos rest hf hp = ground (
      arith,
      length-to_be_bytes 2 (p.narrow16 x),
      length-to_be_bytes 4 (p.narrow32 x),
      length-to_be_bytes 8 x,
      read_value-float fuel pos 25 (to_be_bytes 2 (p.narrow16 x) ++ rest),
      read_value-float fuel pos 26 (to_be_bytes 4 (p.narrow32 x) ++ rest),
      read_value-float fuel pos 27 (to_be_bytes 8 x ++ rest),
      Reads-half x (pos + 1) rest,
      Reads-single x (pos + 1) rest,
      Reads-double x (pos + 1) rest,
    )
