-- ===== src/Prelude/Outcome.antt =====
-- What a call of the program comes to: a value, an error that it returns, or a panic. `stuck` is
-- none of these: the model's recursion ran out of fuel.
use mathlib.Core.Path.{◌≡◌, refl}
use mathlib.Core.Option.{Option, none, some}

pub data Outcome {ℓ κ} (E : Type ℓ) (A : Type κ) : Type (ℓ ⊔ κ) where
  ok : A → Outcome E A
  err : E → Outcome E A
  panic : Outcome E A
  stuck : Outcome E A

infixl 5 ◌>>=◌
abbrev pub ◌>>=◌ {ℓ κ μ} :
    {Err : Type ℓ} {Val : Type κ} {Next : Type μ}
    → Outcome Err Val
    → (Val → Outcome Err Next)
    → Outcome Err Next
stuck >>= next = stuck
panic >>= next = panic
err why >>= next = err why
ok val >>= next = next val

-- `map_err`
abbrev pub map_err {ℓ κ μ} :
    {Old : Type ℓ} {New : Type κ} {Val : Type μ} → (Old → New) → Outcome Old Val → Outcome New Val
map_err convert stuck = stuck
map_err convert panic = panic
map_err convert (err why) = err (convert why)
map_err convert (ok val) = ok val

-- The value of a computation that panics where it has none.
abbrev pub or_panic {ℓ κ} : {Err : Type ℓ} {Val : Type κ} → Option Val → Outcome Err Val
or_panic (some val) = ok val
or_panic none = panic

-- Inversion of a chain that returned a value.
pub >>=-eq-ok {ℓ κ μ} :
    {Err : Type ℓ} {Val : Type κ} {Next : Type μ} (first : Outcome Err Val)
    (next : Val → Outcome Err Next) {result : Next}
    → (first >>= next) ≡ ok result
    → (val : Val) × (first ≡ ok val) × (next val ≡ ok result)
>>=-eq-ok stuck next returned = cc
>>=-eq-ok panic next returned = cc
>>=-eq-ok (err why) next returned = cc
>>=-eq-ok (ok val) next returned = (val, refl, returned)

pub or_panic-eq-ok {ℓ κ μ} :
    {Err : Type ℓ} {Val : Type κ} {Next : Type μ} (value : Option Val)
    (next : Val → Outcome Err Next) {result : Next}
    → (or_panic value >>= next) ≡ ok result
    → (val : Val) × (value ≡ some val) × (next val ≡ ok result)
or_panic-eq-ok (some val) next returned = (val, refl, returned)
or_panic-eq-ok none next returned = cc
