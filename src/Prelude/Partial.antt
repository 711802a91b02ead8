-- ===== src/Prelude/Partial.antt =====
-- Computations that may have no result (`Option`, and an assertion that may fail).
use mathlib.Core.Path.{◌≡◌, refl}
use mathlib.Core.Option.{Option, none, some}

infixl 5 ◌>>=◌
abbrev pub ◌>>=◌ {ℓ κ} :
    {Val : Type ℓ} {Next : Type κ} → Option Val → (Val → Option Next) → Option Next
some val >>= next = next val
none >>= next = none

-- Inversion of a chain that has a result.
pub >>=-eq-some {ℓ κ} :
    {Val : Type ℓ} {Next : Type κ} (first : Option Val) (next : Val → Option Next) {result : Next}
    → (first >>= next) ≡ some result
    → (val : Val) × (first ≡ some val) × (next val ≡ some result)
>>=-eq-some (some val) next returned = (val, refl, returned)
>>=-eq-some none next returned = cc
