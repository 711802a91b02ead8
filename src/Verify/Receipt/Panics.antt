-- ===== src/Verify/Receipt/Panics.antt =====
-- `verify_receipt` (crates/rcx-verify/src/lib.rs) on a float of half width that is not finite.
use rcx_registry.Prelude.{ℕ, ◌≡◌, refl, false, [], ◌∷◌, Bytes, length, from_be_bytes, none}
use rcx_registry.Prelude.Outcome.{ok, panic}
use rcx_registry.Crown.Crypto.{Crypto}
use rcx_registry.Crown.Float.{Platform, is_finite64}
use rcx_registry.Crown.Cbor.Value.{float}
use rcx_registry.Crown.Cbor.Encode.{encode, write_value, write_float}
use rcx_registry.Crown.Cbor.Decode.{
  decode, finish, read_value, read_float, take_u8, take_word, take_bytes,
}
use rcx_registry.Verify.Receipt.{verify_receipt}

decode-half :
    (p : Platform) (high low : ℕ)
    → decode p (0xf9 ∷ high ∷ low ∷ []) ≡ ok (float (p.widen16 (from_be_bytes (high ∷ low ∷ []))))
unfolding decode finish read_value read_float take_u8 take_word take_bytes
decode-half p high low = refl

encode-float : (p : Platform) (x : ℕ) → is_finite64 x ≡ false → encode p (float x) ≡ none
unfolding encode write_value write_float
encode-float p x h = rw h

-- On a key of 32 bytes and a float of half width that is widened to an infinity or a NaN, which the
-- decoder takes, `verify_receipt` panics, in the encoder's assertion.
pub verify_receipt-panics :
    (p : Platform) (c : Crypto) (key : Bytes) (high low : ℕ)
    → length key ≡ 32
    → is_finite64 (p.widen16 (from_be_bytes (high ∷ low ∷ []))) ≡ false
    → verify_receipt p c (0xf9 ∷ high ∷ low ∷ []) key ≡ panic
unfolding verify_receipt
verify_receipt-panics p c key high low l f = rw (l, decode-half p high low, encode-float p _ f)
