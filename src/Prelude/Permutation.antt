-- ===== src/Prelude/Permutation.antt =====
-- Sorting forgets the order of the input, up to items that the test does not tell apart.
use mathlib.Core.Path.{◌≡◌, refl, sym, ap, ap₂, ◌∙◌}
use mathlib.Core.Logic.{inl, inr}
use mathlib.Core.Bool.{Bool, true, false}
use mathlib.Core.List.{List, [], ◌∷◌, Memᴰ, Permᴰ}
use mathlib.Core.List.Permᴰ as PermD
use native.Mathlib.Omega.{arith}
use rcx_registry.Prelude.Tests.{Bool-cases}
use rcx_registry.Prelude.Sorting.{insert, sort_by}

-- A total and transitive test.
pub record IsOrder {ℓ} {A : Type ℓ} (le : A → A → Bool) : Type ℓ where
  pub total : (x y : A) → le x y ≡ false → le y x ≡ true
  pub trans : (x y z : A) → le x y ≡ true → le y z ≡ true → le x z ≡ true

pub Mem_of_perm {ℓ} : {A : Type ℓ} {x : A} {xs ys : List A} → Permᴰ xs ys → Memᴰ x ys → Memᴰ x xs
Mem_of_perm Permᴰ.nil m = m
Mem_of_perm (Permᴰ.cons e p) (Memᴰ.head h) = Memᴰ.head (h ∙ sym e)
Mem_of_perm (Permᴰ.cons e p) (Memᴰ.tail m) = Memᴰ.tail (Mem_of_perm p m)
Mem_of_perm (Permᴰ.swap e e') (Memᴰ.head h) = Memᴰ.tail (Memᴰ.head (h ∙ sym e'))
Mem_of_perm (Permᴰ.swap e e') (Memᴰ.tail (Memᴰ.head h)) = Memᴰ.head (h ∙ sym e)
Mem_of_perm (Permᴰ.swap e e') (Memᴰ.tail (Memᴰ.tail m)) = Memᴰ.tail (Memᴰ.tail m)
Mem_of_perm (Permᴰ.trans p q) m = Mem_of_perm p (Mem_of_perm q m)

module _ {ℓ} {A : Type ℓ} (le : A → A → Bool) where
  -- No two items of the list are equal by the test, unless they are the same.
  abbrev pub TellsApart : List A → Type ℓ
  TellsApart xs = (x y : A) → Memᴰ x xs → Memᴰ y xs → le x y ≡ true → le y x ≡ true → x ≡ y

  module _ (ord : IsOrder le) where
    insert_comm :
        (x y : A) (xs : List A)
        → (le x y ≡ true → le y x ≡ true → x ≡ y)
        → insert le x (insert le y xs) ≡ insert le y (insert le x xs)
    unfolding insert
    insert_comm x y [] h = elim (Bool-cases (le x y)) [
      | inl e ↦ elim (Bool-cases (le y x)) [ inl e' ↦ rw (h e e') refl | inr e' ↦ rw (e, e') ]
      | inr e ↦ rw (e, ord.total x y e)
    ]
    insert_comm x y (z ∷ zs) h = ground (
      arith,
      ord.total x y,
      ord.total y x,
      ord.trans x y z,
      ord.trans y x z,
      insert_comm x y zs h,
    )

    pub sort_by-perm :
        {xs ys : List A} → Permᴰ xs ys → TellsApart xs → sort_by le xs ≡ sort_by le ys
    unfolding sort_by
    sort_by-perm Permᴰ.nil h = refl
    sort_by-perm (Permᴰ.cons {a} {b} {l₁} {l₂} e p) h =
        ap₂ (insert le) e (sort_by-perm p (λ x y mx my. h x y (Memᴰ.tail mx) (Memᴰ.tail my)))
    sort_by-perm (Permᴰ.swap {a} {b} {a'} {b'} {l} e e') h =
        insert_comm a b (sort_by le l) (h a b (Memᴰ.head refl) (Memᴰ.tail (Memᴰ.head refl)))
        ∙ ap₂ (insert le) e' (ap (λ t. insert le t (sort_by le l)) e)
    sort_by-perm (Permᴰ.trans p q) h =
        sort_by-perm p h ∙ sort_by-perm q (λ x y mx my. h x y (Mem_of_perm p mx) (Mem_of_perm p my))

-- A sorted list is a rearrangement of the input.
module _ {ℓ} {A : Type ℓ} (le : A → A → Bool) where
  insert-perm : (x : A) (xs : List A) → Permᴰ (insert le x xs) (x ∷ xs)
  unfolding insert
  insert-perm x [] = PermD.refl (x ∷ [])
  insert-perm x (y ∷ ys) = elim (Bool-cases (le x y)) [
    | inl e ↦ rw e (PermD.refl (x ∷ y ∷ ys))
    | inr e ↦ rw e (Permᴰ.trans (Permᴰ.cons refl (insert-perm x ys)) (Permᴰ.swap refl refl))
  ]

  pub perm-sort_by : (xs : List A) → Permᴰ (sort_by le xs) xs
  unfolding sort_by
  perm-sort_by [] = Permᴰ.nil
  perm-sort_by (x ∷ xs) =
      Permᴰ.trans (insert-perm x (sort_by le xs)) (Permᴰ.cons refl (perm-sort_by xs))
