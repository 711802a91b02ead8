-- ===== src/Crown/Cbor/Termination.antt =====
-- The fuel of `decode`: what each reader of canonical.rs leaves of its input.
use rcx_registry.Prelude.{
  bit_and, ◌/◌, ℕ, zero, suc, ◌+◌, ◌^◌, ◌≤◌, ◌<◌, ◌≢◌, Bool, true, false, [], ◌∷◌, Bytes, length,
  length-drop, arith, le→ltb_false, Bool-cases, inl, inr, ltb, leb, if◌then◌else◌, ◌==◌,
}
use rcx_registry.Prelude.Outcome.{Outcome, ok, err, panic, stuck, ◌>>=◌}
use rcx_registry.Crown.Utf8.{valid_utf8}
use rcx_registry.Crown.Float.{Platform}
use rcx_registry.Crown.Cbor.Value.{CborValue, text, Pairs}
use rcx_registry.Crown.Cbor.Heads.{at_cursor}
use rcx_registry.Crown.Cbor.Decode.{
  add_pair, CrownError, Cursor, Reader, take_bytes, take_u8, take_word, above, read_arg,
  float_of_single, float_of_double, read_float, read_items, read_pairs, read_body, read_value,
  finish, no_rest, decode,
}

abbrev pub LeavesBelow {ℓ} : {A : Type ℓ} → ℕ → Outcome CrownError (A × Cursor) → Type 0
LeavesBelow n (ok (a, c)) = length c.rest < n
LeavesBelow n (err e) = Unit
LeavesBelow n panic = Unit
LeavesBelow n stuck = ⊥

-- A read that did not get stuck, and left fewer than `n` bytes if it returned.
pub record Leaves {ℓ} {A : Type ℓ} (n : ℕ) (r : Outcome CrownError (A × Cursor)) : Type 0 where
  pub below : LeavesBelow n r

module _ {ℓ κ} {A : Type ℓ} {B : Type κ} where
  Leaves-bind :
      {m n : ℕ} (r : Outcome CrownError (A × Cursor))
      (f : A × Cursor → Outcome CrownError (B × Cursor))
      → Leaves m r
      → ((a : A) (c : Cursor) → length c.rest < m → Leaves n (f (a, c)))
      → Leaves n (r >>= f)
  Leaves-bind (ok (a, c)) f h k = k a c h.below
  Leaves-bind (err e) f h k = record { below = tt }
  Leaves-bind panic f h k = record { below = tt }
  Leaves-bind stuck f h k = absurd h.below

module _ {ℓ} {A : Type ℓ} where
  Leaves-ok : {n : ℕ} (a : A) (c : Cursor) → length c.rest < n → Leaves n (ok (a, c))
  Leaves-ok a c h = record { below = h }

  Leaves-err : {n : ℕ} (e : CrownError) → Leaves {A = A} n (err e)
  Leaves-err e = record { below = tt }

  Leaves-panic : {n : ℕ} → Leaves {A = A} n panic
  Leaves-panic = record { below = tt }

  Leaves-le : {m n : ℕ} {r : Outcome CrownError (A × Cursor)} → m ≤ n → Leaves m r → Leaves n r
  Leaves-le {r = ok (a, c)} le h = record { below = omega (arith, h.below) }
  Leaves-le {r = err e} le h = record { below = tt }
  Leaves-le {r = panic} le h = record { below = tt }
  Leaves-le {r = stuck} le h = absurd h.below

  Leaves-if :
      {n : ℕ} (b : Bool) (r s : Outcome CrownError (A × Cursor))
      → Leaves n r
      → Leaves n s
      → Leaves n (if b then r else s)
  Leaves-if true r s h k = h
  Leaves-if false r s h k = k

ruleset leaves_rules = (Leaves-bind, Leaves-ok, Leaves-err, Leaves-panic, Leaves-if)

take_bytes-Leaves : (n count : ℕ) (c : Cursor) → length c.rest < n → Leaves n (take_bytes count c)
unfolding take_bytes
take_bytes-Leaves n count c h =
    Leaves-if _ _ _ Leaves-panic
      (Leaves-if _ _ _ (Leaves-err _) (Leaves-ok _ _ (omega (arith, length-drop count c.rest))))

u8-Leaves : (pos : ℕ) (rest : Bytes) → Leaves (length rest) (take_u8 (at_cursor pos rest))
unfolding take_u8
u8-Leaves pos [] = elim (Bool-cases (leb (2 ^ 64) (pos + 1))) [
  | inl e ↦ rw e Leaves-panic
  | inr e ↦ rw e (Leaves-err _)
]
u8-Leaves pos (b ∷ bs) = elim (Bool-cases (leb (2 ^ 64) (pos + 1))) [
  | inl e ↦ rw e Leaves-panic
  | inr e ↦ rw (e, le→ltb_false (length (b ∷ bs)) 1 (omega arith)) (Leaves-ok b _ (omega arith))
]

take_u8-Leaves : (n : ℕ) (c : Cursor) → length c.rest ≤ n → Leaves n (take_u8 c)
take_u8-Leaves n c h = Leaves-le h (u8-Leaves c.pos c.rest)

take_word-Leaves : (n width : ℕ) (c : Cursor) → length c.rest < n → Leaves n (take_word width c)
unfolding take_word
take_word-Leaves n width c h =
    Leaves-bind _ _ (take_bytes-Leaves n width c h) (λ bs c' h'. Leaves-ok _ _ h')

above-Leaves :
    (n least value : ℕ) (c : Cursor) → length c.rest < n → Leaves n (above least (value, c))
unfolding above
above-Leaves n least value c h = search leaves_rules

read_arg-Leaves : (n info : ℕ) (c : Cursor) → length c.rest < n → Leaves n (read_arg info c)
unfolding read_arg
read_arg-Leaves n info c h = Leaves-if (ltb info 24) _ _ (Leaves-ok info c h) (
    Leaves-if (info == 24) _ _
      (Leaves-bind _ _ (take_u8-Leaves n c (omega arith)) (above-Leaves n 23))
      (Leaves-if (info == 25) _ _ (word 2 0xff) (
        Leaves-if (info == 26) _ _ (word 4 0xffff)
          (Leaves-if (info == 27) _ _ (word 8 0xffff_ffff) (Leaves-err _)))))
  where
    word : (width least : ℕ) → Leaves n (take_word width c >>= above least)
    word width least = Leaves-bind _ _ (take_word-Leaves n width c h) (above-Leaves n least)

float_of_single-Leaves :
    (p : Platform) (n bits : ℕ) (c : Cursor)
    → length c.rest < n
    → Leaves n (float_of_single p (bits, c))
unfolding float_of_single
float_of_single-Leaves p n bits c h = search leaves_rules

float_of_double-Leaves :
    (p : Platform) (n bits : ℕ) (c : Cursor)
    → length c.rest < n
    → Leaves n (float_of_double p (bits, c))
unfolding float_of_double
float_of_double-Leaves p n bits c h = search leaves_rules

read_float-Leaves :
    (p : Platform) (n info : ℕ) (c : Cursor) → length c.rest < n → Leaves n (read_float p info c)
unfolding read_float
read_float-Leaves p n info c h =
    Leaves-if (info == 25) _ _
      (Leaves-bind _ _ (take_word-Leaves n 2 c h) (λ bits c' h'. Leaves-ok _ _ h'))
      (Leaves-if (info == 26) _ _
        (Leaves-bind _ _ (take_word-Leaves n 4 c h) (float_of_single-Leaves p n))
        (Leaves-if (info == 27) _ _
          (Leaves-bind _ _ (take_word-Leaves n 8 c h) (float_of_double-Leaves p n)) (Leaves-err _)))

-- A reader that is asked for a value where fewer than `n` bytes are left.
abbrev ReadsBelow : ℕ → Reader CborValue → Type 0
ReadsBelow n read = (c : Cursor) → length c.rest < n → Leaves n (read c)

read_items-Leaves :
    (n : ℕ) (read : Reader CborValue) (k : ℕ) (c : Cursor)
    → ReadsBelow n read
    → length c.rest < n
    → Leaves n (read_items read k c)
unfolding read_items
read_items-Leaves n read zero c hr h = Leaves-ok _ _ h
read_items-Leaves n read (suc k) c hr h = Leaves-bind _ _ (hr c h) (λ v c1 h1.
    Leaves-bind _ _ (read_items-Leaves n read k c1 hr h1) (λ vs c2 h2. Leaves-ok _ _ h2))

add_pair-Leaves :
    (n : ℕ) (k v : CborValue) (r : Outcome CrownError (Pairs × Cursor))
    → Leaves n r
    → Leaves n (add_pair k v r)
add_pair-Leaves n (text k) v r h = Leaves-bind r _ h (λ ps c h'. Leaves-ok _ _ h')
add_pair-Leaves n _ v r h = Leaves-err _

read_pairs-Leaves :
    (n : ℕ) (read : Reader CborValue) (k : ℕ) (c : Cursor)
    → ReadsBelow n read
    → length c.rest < n
    → Leaves n (read_pairs read k c)
unfolding read_pairs
read_pairs-Leaves n read zero c hr h = Leaves-ok _ _ h
read_pairs-Leaves n read (suc k) c hr h = Leaves-bind _ _ (hr c h) (λ key c1 h1.
    Leaves-bind _ _ (hr c1 h1)
      (λ v c2 h2. add_pair-Leaves n key v _ (read_pairs-Leaves n read k c2 hr h2)))

read_body-Leaves :
    (p : Platform) (n : ℕ) (read : Reader CborValue) (major arg : ℕ) (c : Cursor)
    → ReadsBelow n read
    → length c.rest < n
    → Leaves n (read_body p read major arg c)
unfolding read_body
read_body-Leaves p n read major arg c hr h = Leaves-if (major == 0) _ _ (Leaves-ok _ _ h) (
    Leaves-if (major == 2) _ _
      (Leaves-bind _ _ (take_bytes-Leaves n arg c h) (λ bs c' h'. Leaves-ok _ _ h'))
      (Leaves-if (major == 3) _ _
        (Leaves-bind _ _ (take_bytes-Leaves n arg c h)
          (λ bs c' h'. Leaves-if (valid_utf8 bs) _ _ (Leaves-ok _ _ h') (Leaves-err _)))
        (Leaves-if (major == 4) _ _
          (Leaves-if (p.reserve_items arg) _ _
            (Leaves-bind _ _ (read_items-Leaves n read arg c hr h) (λ vs c' h'. Leaves-ok _ _ h'))
            Leaves-panic)
          (Leaves-if (major == 5) _ _
            (Leaves-if (p.reserve_pairs arg) _ _
              (Leaves-bind _ _ (read_pairs-Leaves n read arg c hr h) (λ ps c' h'. Leaves-ok _ _ h'))
              Leaves-panic)
            (Leaves-err _)))))

-- With more fuel than bytes a value is read, or refused, and at least a byte is gone.
pub read_value-Leaves :
    (p : Platform) (fuel : ℕ) (c : Cursor)
    → length c.rest < fuel
    → Leaves (length c.rest) (read_value p fuel c)
unfolding read_value
read_value-Leaves p zero c h = absurd (omega arith)
read_value-Leaves p (suc fuel) c h =
    let n = length c.rest in
    Leaves-bind _ _ (take_u8-Leaves n c (omega arith)) (λ first c1 h1.
      Leaves-if (first == 0xf5) _ _ (Leaves-ok _ _ h1) (
        Leaves-if (first == 0xf4) _ _ (Leaves-ok _ _ h1) (
          Leaves-if (first == 0xf6) _ _ (Leaves-ok _ _ h1) (
            Leaves-if (first / 32 == 7) _ _ (read_float-Leaves p n (bit_and first 0x1f) c1 h1) (
              Leaves-bind _ _ (read_arg-Leaves n (bit_and first 0x1f) c1 h1) (λ arg c2 h2.
                read_body-Leaves p n (read_value p fuel) (first / 32) arg c2
                  (λ c' h'. Leaves-le (omega arith) (read_value-Leaves p fuel c' (omega arith)))
                  h2))))))

no_rest-ne-stuck : (v : CborValue) (pos : ℕ) (bs : Bytes) → no_rest v pos bs ≢ stuck
unfolding no_rest
no_rest-ne-stuck v pos [] e = cc
no_rest-ne-stuck v pos (b ∷ bs) e = cc

finish-ne-stuck :
    (r : Outcome CrownError (CborValue × Cursor)) (n : ℕ) → Leaves n r → (r >>= finish) ≢ stuck
unfolding finish
finish-ne-stuck (ok (v, c)) n h = no_rest-ne-stuck v c.pos c.rest
finish-ne-stuck (err e) n h = λ e. cc
finish-ne-stuck panic n h = λ e. cc
finish-ne-stuck stuck n h = absurd h.below

-- The decoder never runs out of fuel: it returns a value or an error, or panics, on every input.
pub decode-ne-stuck : (p : Platform) (bs : Bytes) → decode p bs ≢ stuck
unfolding decode
decode-ne-stuck p bs =
    finish-ne-stuck _ (length bs)
      (read_value-Leaves p (suc (length bs)) (at_cursor 0 bs) (omega arith))
