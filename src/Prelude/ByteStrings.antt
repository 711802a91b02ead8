-- ===== src/Prelude/ByteStrings.antt =====
-- Byte strings as lists of numbers: literals, equality, the order of Rust's `Ord`, big-endian words.
use Prim.Native.Nat.{ℕ, zero, suc, ◌+◌, ◌*◌, ◌/◌, ◌%◌, ◌^◌, ◌<◌}
use Prim.Native.Char.{code}
use Prim.Native.String.{String}
use mathlib.Core.Path.{◌≡◌, refl}
use mathlib.Core.Logic.{◌≢◌}
use mathlib.Core.Bool.{Bool, true, false, ◌&&◌}
use mathlib.Core.List.{List, [], ◌∷◌, ◌++◌, foldl}
use native.Mathlib.Omega.{arith}
use rcx_registry.Prelude.Tests.{ltb, ◌==◌, if◌then◌else◌}
use rcx_registry.Prelude.Lists.{length, length-append, All, All-append}

abbrev pub Bytes : Type 0
Bytes = List ℕ

abbrev pub IsByte : ℕ → Type 0
IsByte b = b < 256

-- The code points of a literal: its bytes, since the program's literals are ASCII.
abbrev pub codes : String → Bytes
codes String.[] = []
codes (String.◌∷◌ c s) = code c ∷ codes s

-- `==` of `str` and `[u8]`
unfoldable pub bytes_eq : Bytes → Bytes → Bool
bytes_eq [] [] = true
bytes_eq [] (b ∷ bs) = false
bytes_eq (a ∷ as') [] = false
bytes_eq (a ∷ as') (b ∷ bs) = a == b && bytes_eq as' bs

pub bytes_eq_refl : (as' : Bytes) → bytes_eq as' as' ≡ true
unfolding bytes_eq
bytes_eq_refl [] = refl
bytes_eq_refl (a ∷ as') = ground (arith, bytes_eq_refl as')

pub eq_of_bytes_eq : (as' bs : Bytes) → bytes_eq as' bs ≡ true → as' ≡ bs
unfolding bytes_eq
eq_of_bytes_eq [] [] h = refl
eq_of_bytes_eq [] (b ∷ bs) h = cc
eq_of_bytes_eq (a ∷ as') [] h = cc
eq_of_bytes_eq (a ∷ as') (b ∷ bs) h = ground (arith, eq_of_bytes_eq as' bs)

-- `cmp` of `str` and `[u8]`: by the first byte that differs, else by the length.
unfoldable pub lex_le : Bytes → Bytes → Bool
lex_le [] bs = true
lex_le (a ∷ as') [] = false
lex_le (a ∷ as') (b ∷ bs) = if a == b then lex_le as' bs else ltb a b

pub lex_le_total : (as' bs : Bytes) → lex_le as' bs ≡ false → lex_le bs as' ≡ true
unfolding lex_le
lex_le_total [] bs h = cc
lex_le_total (a ∷ as') [] h = refl
lex_le_total (a ∷ as') (b ∷ bs) h = ground (arith, lex_le_total as' bs)

pub lex_le_antisymm : (as' bs : Bytes) → lex_le as' bs ≡ true → lex_le bs as' ≡ true → as' ≡ bs
unfolding lex_le
lex_le_antisymm [] [] h k = refl
lex_le_antisymm [] (b ∷ bs) h k = cc
lex_le_antisymm (a ∷ as') [] h k = cc
lex_le_antisymm (a ∷ as') (b ∷ bs) h k = ground (arith, lex_le_antisymm as' bs)

pub lex_le_trans :
    (as' bs cs : Bytes) → lex_le as' bs ≡ true → lex_le bs cs ≡ true → lex_le as' cs ≡ true
unfolding lex_le
lex_le_trans [] bs cs h k = refl
lex_le_trans (a ∷ as') [] cs h k = cc
lex_le_trans (a ∷ as') (b ∷ bs) [] h k = cc
lex_le_trans (a ∷ as') (b ∷ bs) (c ∷ cs) h k = ground (arith, lex_le_trans as' bs cs)

-- `to_be_bytes` of a word of `k` bytes, which drops the bits above, as the cast before it does.
unfoldable pub to_be_bytes : ℕ → ℕ → Bytes
to_be_bytes zero n = []
to_be_bytes (suc k) n = to_be_bytes k (n / 256) ++ n % 256 ∷ []

-- `from_be_bytes`
unfoldable pub from_be_bytes : Bytes → ℕ
from_be_bytes = foldl (λ acc b. acc * 256 + b) 0

pub length-to_be_bytes : (k n : ℕ) → length (to_be_bytes k n) ≡ k
unfolding to_be_bytes
length-to_be_bytes zero n = refl
length-to_be_bytes (suc k) n =
    omega (
      arith,
      length-append (to_be_bytes k (n / 256)) (n % 256 ∷ []),
      length-to_be_bytes k (n / 256),
    )

pub All-to_be_bytes : (k n : ℕ) → All IsByte (to_be_bytes k n)
unfolding to_be_bytes
All-to_be_bytes zero n = tt
All-to_be_bytes (suc k) n =
    All-append IsByte (to_be_bytes k (n / 256)) (n % 256 ∷ []) (All-to_be_bytes k (n / 256))
      (omega arith)

foldl_snoc :
    (acc : ℕ) (bs : Bytes) (b : ℕ)
    → foldl (λ acc b. acc * 256 + b) acc (bs ++ b ∷ [])
      ≡ foldl (λ acc b. acc * 256 + b) acc bs * 256 + b
foldl_snoc acc [] b = refl
foldl_snoc acc (c ∷ bs) b = foldl_snoc (acc * 256 + c) bs b

pub from_be_bytes-to_be_bytes : (k n : ℕ) → n < 256 ^ k → from_be_bytes (to_be_bytes k n) ≡ n
unfolding from_be_bytes to_be_bytes
from_be_bytes-to_be_bytes zero n h = omega arith
from_be_bytes-to_be_bytes (suc k) n h = omega (
  arith,
  foldl_snoc 0 (to_be_bytes k (n / 256)) (n % 256),
  from_be_bytes-to_be_bytes k (n / 256) (omega arith),
)

pub bytes_eq_comm : (as' bs : Bytes) → bytes_eq as' bs ≡ bytes_eq bs as'
unfolding bytes_eq
bytes_eq_comm [] [] = refl
bytes_eq_comm [] (b ∷ bs) = refl
bytes_eq_comm (a ∷ as') [] = refl
bytes_eq_comm (a ∷ as') (b ∷ bs) = ground (arith, bytes_eq_comm as' bs)

pub lex_le_refl : (as' : Bytes) → lex_le as' as' ≡ true
unfolding lex_le
lex_le_refl [] = refl
lex_le_refl (a ∷ as') = ground (arith, lex_le_refl as')

pub ne_of_bytes_eq : (as' bs : Bytes) → bytes_eq as' bs ≡ false → as' ≢ bs
ne_of_bytes_eq as' bs h e = ground (arith, bytes_eq_refl as')
