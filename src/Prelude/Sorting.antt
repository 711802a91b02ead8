-- ===== src/Prelude/Sorting.antt =====
-- Stable sorting by a test on the items (Rust's `sort_by` and `sort_by_key`).
use Prim.Native.Nat.{suc}
use mathlib.Core.Path.{◌≡◌, refl, ap, ◌∙◌}
use mathlib.Core.Logic.{inl, inr}
use mathlib.Core.Bool.{Bool, true, false}
use mathlib.Core.List.{List, [], ◌∷◌, map}
use native.Mathlib.Omega.{arith}
use rcx_registry.Prelude.Tests.{if◌then◌else◌, Bool-cases}
use rcx_registry.Prelude.Lists.{length, All}

-- An item goes in front of the first one that is not before it, so equal items keep their order.
module _ {ℓ} {A : Type ℓ} (le : A → A → Bool) where
  unfoldable pub insert : A → List A → List A
  insert x [] = x ∷ []
  insert x (y ∷ ys) = if le x y then x ∷ y ∷ ys else y ∷ insert x ys

  unfoldable pub sort_by : List A → List A
  sort_by [] = []
  sort_by (x ∷ xs) = insert x (sort_by xs)

  abbrev pub IsSorted : List A → Type 0
  IsSorted [] = Unit
  IsSorted (x ∷ []) = Unit
  IsSorted (x ∷ y ∷ ys) = (le x y ≡ true) × IsSorted (y ∷ ys)

  pub length-insert : (x : A) (xs : List A) → length (insert x xs) ≡ suc (length xs)
  unfolding insert
  length-insert x [] = refl
  length-insert x (y ∷ ys) = ground (arith, length-insert x ys)

  pub length-sort_by : (xs : List A) → length (sort_by xs) ≡ length xs
  unfolding sort_by
  length-sort_by [] = refl
  length-sort_by (x ∷ xs) = length-insert x (sort_by xs) ∙ ap suc (length-sort_by xs)

  insert-first : (x : A) (xs : List A) → IsSorted (x ∷ xs) → insert x xs ≡ x ∷ xs
  unfolding insert
  insert-first x [] h = refl
  insert-first x (y ∷ ys) h = ground arith

  IsSorted-tail : (x : A) (xs : List A) → IsSorted (x ∷ xs) → IsSorted xs
  IsSorted-tail x [] h = tt
  IsSorted-tail x (y ∷ ys) h = h.1

  pub sort_by-IsSorted_id : (xs : List A) → IsSorted xs → sort_by xs ≡ xs
  unfolding sort_by
  sort_by-IsSorted_id [] h = refl
  sort_by-IsSorted_id (x ∷ xs) h =
      ap (insert x) (sort_by-IsSorted_id xs (IsSorted-tail x xs h)) ∙ insert-first x xs h

module _ {ℓ κ} {A : Type ℓ} (le : A → A → Bool) (P : A → Type κ) where
  All-insert : (x : A) (xs : List A) → P x → All P xs → All P (insert le x xs)
  unfolding insert
  All-insert x [] px h = (px, tt)
  All-insert x (y ∷ ys) px (py, h) = elim (Bool-cases (le x y)) [
    | inl e ↦ rw e (px, (py, h))
    | inr e ↦ rw e (py, All-insert x ys px h)
  ]

  pub All-sort_by : (xs : List A) → All P xs → All P (sort_by le xs)
  unfolding sort_by
  All-sort_by [] h = tt
  All-sort_by (x ∷ xs) (px, h) = All-insert x (sort_by le xs) px (All-sort_by xs h)

-- Sorting commutes with a map that carries the one test to the other.
module _ {ℓ κ} {A : Type ℓ} {B : Type κ} (le : A → A → Bool) (le' : B → B → Bool) (f : A → B) where
  module _ (same : (x y : A) → le' (f x) (f y) ≡ le x y) where
    map-insert : (x : A) (xs : List A) → map f (insert le x xs) ≡ insert le' (f x) (map f xs)
    unfolding insert
    map-insert x [] = refl
    map-insert x (y ∷ ys) = elim (Bool-cases (le x y)) [
      | inl e ↦ rw (e, same x y, e)
      | inr e ↦ rw (e, same x y, e) (ap (λ t. f y ∷ t) (map-insert x ys))
    ]

    pub map-sort_by : (xs : List A) → map f (sort_by le xs) ≡ sort_by le' (map f xs)
    unfolding sort_by
    map-sort_by [] = refl
    map-sort_by (x ∷ xs) = map-insert x (sort_by le xs) ∙ ap (insert le' (f x)) (map-sort_by xs)

-- Where of any two items one is not behind the other, the result is sorted.
module _ {ℓ} {A : Type ℓ} (le : A → A → Bool) where
  module _ (total : (x y : A) → le x y ≡ false → le y x ≡ true) where
    insert-IsSorted-behind :
        (x y : A) (ys : List A)
        → le y x ≡ true
        → IsSorted le (y ∷ ys)
        → IsSorted le (insert le x ys)
        → IsSorted le (y ∷ insert le x ys)
    unfolding insert
    insert-IsSorted-behind x y [] h hs hi = (h, tt)
    insert-IsSorted-behind x y (z ∷ zs) h hs hi = elim (Bool-cases (le x z)) [
      | inl e ↦ rw e (h, (e, hs.1))
      | inr e ↦ rw e (hs.0, rw e at hi)
    ]

    insert-IsSorted : (x : A) (xs : List A) → IsSorted le xs → IsSorted le (insert le x xs)
    unfolding insert
    insert-IsSorted x [] h = tt
    insert-IsSorted x (y ∷ ys) h = elim (Bool-cases (le x y)) [
      | inl e ↦ rw e (e, h)
      | inr e ↦ rw e (
          insert-IsSorted-behind x y ys (total x y e) h
            (insert-IsSorted x ys (IsSorted-tail le y ys h)))
    ]

    pub sort_by-IsSorted : (xs : List A) → IsSorted le (sort_by le xs)
    unfolding sort_by
    sort_by-IsSorted [] = tt
    sort_by-IsSorted (x ∷ xs) = insert-IsSorted x (sort_by le xs) (sort_by-IsSorted xs)
