-- ===== src/Crown/Utf8.antt =====
-- Which byte strings are UTF-8: the check of `String::from_utf8`, as an automaton that reads one byte
-- at a time. A Rust string is modelled by its bytes.
use mathlib.Core.List.{foldl}
use rcx_registry.Prelude.{
  ℕ, zero, suc, ◌≡◌, refl, Bool, true, false, ◌&&◌, [], ◌∷◌, Bytes, leb, ltb, ◌==◌, if◌then◌else◌,
}

-- `more n lo hi`: `n + 1` bytes of the character are to come, and the next lies between `lo` and
-- `hi`.
pub data Utf8State : Type 0 where
  boundary : Utf8State
  more : ℕ → ℕ → ℕ → Utf8State
  invalid : Utf8State

-- The first byte of a character says how long it is, and bounds its second byte so that no overlong
-- form, surrogate or number above 10FFFF is taken.
pub utf8_start : ℕ → Utf8State
utf8_start b =
    if ltb b 0x80
    then boundary
    else if ltb b 0xc2
    then invalid
    else if ltb b 0xe0
    then more 0 0x80 0xbf
    else if b == 0xe0
    then more 1 0xa0 0xbf
    else if b == 0xed
    then more 1 0x80 0x9f
    else if ltb b 0xf0
    then more 1 0x80 0xbf
    else if b == 0xf0
    then more 2 0x90 0xbf
    else if ltb b 0xf4
    then more 2 0x80 0xbf
    else if b == 0xf4
    then more 2 0x80 0x8f
    else invalid

pub utf8_step : Utf8State → ℕ → Utf8State
utf8_step boundary b = utf8_start b
utf8_step (more zero lo hi) b = if leb lo b && leb b hi then boundary else invalid
utf8_step (more (suc n) lo hi) b = if leb lo b && leb b hi then more n 0x80 0xbf else invalid
utf8_step invalid b = invalid

at_boundary : Utf8State → Bool
at_boundary boundary = true
at_boundary _ = false

unfoldable pub valid_utf8 : Bytes → Bool
unfolding utf8_start utf8_step at_boundary
valid_utf8 bs = at_boundary (foldl utf8_step boundary bs)

valid_samples :
    valid_utf8 (0x61 ∷ 0xc3 ∷ 0xa9 ∷ 0xe2 ∷ 0x82 ∷ 0xac ∷ 0xf0 ∷ 0x9f ∷ 0x98 ∷ 0x80 ∷ []) ≡ true
unfolding valid_utf8
valid_samples = refl

surrogate_invalid : valid_utf8 (0xed ∷ 0xa0 ∷ 0x80 ∷ []) ≡ false
unfolding valid_utf8
surrogate_invalid = refl
