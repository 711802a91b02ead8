-- ===== src/Crown/Float.antt =====
-- The numbers that `f64` values stand for, by their IEEE 754 bit patterns: `to_bits` and `from_bits`
-- are then the identity. The conversions between widths are those of the crate `half` and of the
-- hardware, and so a parameter, as is the memory that `Vec::with_capacity` may reserve.
use rcx_registry.Prelude.{ℕ, ◌/◌, ◌%◌, ◌^◌, ◌<◌, ◌≡◌, Bool, true, not, ◌&&◌, ◌||◌, ◌==◌, arith}

pub record Platform : Type 0 where
  -- `f16::from_f64`, `f16::to_f64`, `as f32`, `as f64`
  pub narrow16 : ℕ → ℕ
  pub widen16 : ℕ → ℕ
  pub narrow32 : ℕ → ℕ
  pub widen32 : ℕ → ℕ
  -- whether `Vec::with_capacity` of so many values, or pairs, can be met
  pub reserve_items : ℕ → Bool
  pub reserve_pairs : ℕ → Bool

-- `is_finite`: the exponent is not all ones.
unfoldable pub is_finite64 : ℕ → Bool
is_finite64 x = not (x / 2 ^ 52 % 2 ^ 11 == 2047)

unfoldable pub is_finite32 : ℕ → Bool
is_finite32 x = not (x / 2 ^ 23 % 2 ^ 8 == 255)

unfoldable pub is_nan64 : ℕ → Bool
unfolding is_finite64
is_nan64 x = not (is_finite64 x) && not (x % 2 ^ 52 == 0)

-- the two zeros
unfoldable pub is_zero64 : ℕ → Bool
is_zero64 x = x == 0 || x == 2 ^ 63

-- `==` on `f64`: no NaN equals anything, and the two zeros are equal.
unfoldable pub float_eq : ℕ → ℕ → Bool
float_eq a b = not (is_nan64 a) && not (is_nan64 b) && (a == b || is_zero64 a && is_zero64 b)

-- What the conversions of IEEE 754 do: they keep to their width, keep the sign of a zero, a widening
-- loses nothing, and what was widened is finite as before.
pub record IsLawful (p : Platform) : Type 0 where
  pub narrow16_lt : (x : ℕ) → p.narrow16 x < 2 ^ 16
  pub narrow32_lt : (x : ℕ) → p.narrow32 x < 2 ^ 32
  pub zero16 : (x : ℕ) → is_zero64 x ≡ true → p.widen16 (p.narrow16 x) ≡ x
  pub zero32 : (x : ℕ) → is_zero64 x ≡ true → p.widen32 (p.narrow32 x) ≡ x
  pub finite32 : (n : ℕ) → n < 2 ^ 32 → is_finite64 (p.widen32 n) ≡ is_finite32 n

-- A conversion that is equal to the number by `==` has its very bits.
pub float_eq_bits : (a x : ℕ) → (is_zero64 x ≡ true → a ≡ x) → float_eq a x ≡ true → a ≡ x
unfolding float_eq
float_eq_bits a x z h = ground arith
