-- ===== src/Examples/Toy.antt =====
-- Small instances of the parameters: conversions of floats that know the zeros alone, a digest and a
-- signature that keep the length of what they are over.
use rcx_registry.Prelude.{
  ℕ, ◌*◌, ◌%◌, ◌^◌, ◌≡◌, Bool, true, Bytes, bytes_eq, ◌==◌, if◌then◌else◌, length, replicate, ◌++◌,
  arith,
}
use rcx_registry.Crown.Crypto.{Crypto}
use rcx_registry.Crown.Float.{Platform, IsLawful, is_finite32, is_finite64, is_zero64}

abbrev pub toy_narrow16 : ℕ → ℕ
toy_narrow16 x = if x == 2 ^ 63 then 0x8000 else 0

-- an infinity where the exponent is all ones
abbrev pub toy_widen16 : ℕ → ℕ
toy_widen16 n = if n == 0x8000 then 2 ^ 63 else if n == 0x7c00 then 2047 * 2 ^ 52 else 0

abbrev pub toy_narrow32 : ℕ → ℕ
toy_narrow32 x = if x == 2 ^ 63 then 2 ^ 31 else 0

abbrev pub toy_widen32 : ℕ → ℕ
toy_widen32 n = if n == 2 ^ 31 then 2 ^ 63 else if is_finite32 n then 0 else 2047 * 2 ^ 52

abbrev pub toy_platform : Platform
toy_platform = record {
  narrow16 = toy_narrow16;
  widen16 = toy_widen16;
  narrow32 = toy_narrow32;
  widen32 = toy_widen32;
  reserve_items = λ n. true;
  reserve_pairs = λ n. true;
}

toy_zero16 : (x : ℕ) → is_zero64 x ≡ true → toy_widen16 (toy_narrow16 x) ≡ x
unfolding is_zero64
toy_zero16 x h = ground arith

toy_zero32 : (x : ℕ) → is_zero64 x ≡ true → toy_widen32 (toy_narrow32 x) ≡ x
unfolding is_zero64 is_finite32
toy_zero32 x h = ground arith

toy_finite32 : (n : ℕ) → is_finite64 (toy_widen32 n) ≡ is_finite32 n
unfolding is_finite64 is_finite32
toy_finite32 n = ground arith

pub toy_platform-IsLawful : IsLawful toy_platform
toy_platform-IsLawful = record {
  narrow16_lt = λ x. ground arith;
  narrow32_lt = λ x. ground arith;
  zero16 = toy_zero16;
  zero32 = toy_zero32;
  finite32 = λ n h. toy_finite32 n;
}

abbrev pub toy_blake3 : Bytes → Bytes
toy_blake3 bs = replicate 32 (length bs % 256)

abbrev pub toy_sign : Bytes → Bytes → Bytes
toy_sign key message = toy_blake3 message ++ key

abbrev pub toy_verify : Bytes → Bytes → Bytes → Bool
toy_verify key message signature = bytes_eq (toy_sign key message) signature

abbrev pub toy_crypto : Crypto
toy_crypto = record {
  blake3 = toy_blake3;
  valid_key = λ key. true;
  verify = toy_verify;
  verify_strict = toy_verify;
}

abbrev pub toy_key : Bytes
toy_key = replicate 32 9
