-- ===== src/Admin/Pop/Store/Lookup.antt =====
-- Look-up after each operation of a store's map.
use mathlib.Core.List.{Memᴰ}
use rcx_registry.Prelude.{
  ℕ, ◌≤◌, ◌≡◌, refl, ap, inl, inr, true, false, none, some, List, [], ◌∷◌, Bytes, bytes_eq, leb,
  Bool-cases, eq_of_bytes_eq, bytes_eq_comm, arith,
}
use rcx_registry.Admin.Pop.Store.{Entry, find, remove, retain}

module _ {ℓ} {B : Type ℓ} where
  pub find-remove : (key : Bytes) (es : List (Bytes × Entry B)) → find key (remove key es) ≡ none
  unfolding find remove
  find-remove key [] = refl
  find-remove key ((k, e) ∷ es) = ground (arith, find-remove key es)

  pub find-remove_other :
      (key other : Bytes) (es : List (Bytes × Entry B))
      → bytes_eq other key ≡ false
      → find key (remove other es) ≡ find key es
  unfolding find remove
  find-remove_other key other [] h = refl
  find-remove_other key other ((k, e) ∷ es) h =
      ground (arith, find-remove_other key other es h, eq_of_bytes_eq k other, eq_of_bytes_eq k key)

  -- an entry that is still alive is kept
  pub find-retain_alive :
      (now : ℕ) (key : Bytes) (e : Entry B) (es : List (Bytes × Entry B))
      → find key es ≡ some e
      → now ≤ e.expires_at_ms
      → find key (retain now es) ≡ some e
  unfolding find retain
  find-retain_alive now key e [] h l = cc
  find-retain_alive now key e ((k, f) ∷ es) h l = ground (arith, find-retain_alive now key e es)

  pub find-retain-none :
      (now : ℕ) (key : Bytes) (es : List (Bytes × Entry B))
      → find key es ≡ none
      → find key (retain now es) ≡ none
  unfolding find retain
  find-retain-none now key [] h = refl
  find-retain-none now key ((k, f) ∷ es) h = ground (arith, find-retain-none now key es)

  pub Mem_of_find :
      (key : Bytes) (e : Entry B) (es : List (Bytes × Entry B))
      → find key es ≡ some e
      → Memᴰ (key, e) es
  unfolding find
  Mem_of_find key e [] h = cc
  Mem_of_find key e ((k, f) ∷ es) h = elim (Bool-cases (bytes_eq k key)) [
    | inl y ↦ Memᴰ.head (same (eq_of_bytes_eq k key y) (found y h))
    | inr n ↦ Memᴰ.tail (Mem_of_find key e es (ground arith))
  ]
    where
      found : bytes_eq k key ≡ true → find key ((k, f) ∷ es) ≡ some e → f ≡ e
      found y h = ground arith

      same : k ≡ key → f ≡ e → Path (Bytes × Entry B) (key, e) (k, f)
      same p q = cc

  pub Mem_of_remove :
      (key other : Bytes) (e : Entry B) (es : List (Bytes × Entry B))
      → Memᴰ (key, e) (remove other es)
      → Memᴰ (key, e) es × (bytes_eq other key ≡ false)
  unfolding remove
  Mem_of_remove key other e [] m = elim m [ ]
  Mem_of_remove key other e ((k, f) ∷ es) m = elim (Bool-cases (bytes_eq k other)) [
    | inl y ↦ let (m', n) = Mem_of_remove key other e es (rw y at m) in (Memᴰ.tail m', n)
    | inr n ↦ kept (Mem_of_remove key other e es) n (rw n at m)
  ]
    where
      kept :
          (Memᴰ (key, e) (remove other es) → Memᴰ (key, e) es × (bytes_eq other key ≡ false))
          → bytes_eq k other ≡ false
          → Memᴰ (key, e) ((k, f) ∷ remove other es)
          → Memᴰ (key, e) ((k, f) ∷ es) × (bytes_eq other key ≡ false)
      kept rec n (Memᴰ.head p) = (Memᴰ.head p, rw (ap (λ q. q.0) p, bytes_eq_comm other k) n)
      kept rec n (Memᴰ.tail m) = let (m', d) = rec m in (Memᴰ.tail m', d)

  pub Mem_of_retain :
      (now : ℕ) (x : Bytes × Entry B) (es : List (Bytes × Entry B))
      → Memᴰ x (retain now es)
      → Memᴰ x es
  unfolding retain
  Mem_of_retain now x [] m = elim m [ ]
  Mem_of_retain now x ((k, f) ∷ es) m = elim (Bool-cases (leb now f.expires_at_ms)) [
    | inl y ↦ kept (Mem_of_retain now x es) (rw y at m)
    | inr n ↦ Memᴰ.tail (Mem_of_retain now x es (rw n at m))
  ]
    where
      kept :
          (Memᴰ x (retain now es) → Memᴰ x es)
          → Memᴰ x ((k, f) ∷ retain now es)
          → Memᴰ x ((k, f) ∷ es)
      kept rec (Memᴰ.head p) = Memᴰ.head p
      kept rec (Memᴰ.tail m) = Memᴰ.tail (rec m)
