-- ===== src/Crown/Cbor/Value.antt =====
-- `CborValue` of canonical.rs. A map holds its pairs in a list of its own, since a data type cannot
-- stand inside a `List` of itself; `to_list` and `of_list` pass between the two.
use rcx_registry.Prelude.{ℕ, suc, ◌≡◌, refl, ap, Bool, List, [], ◌∷◌, Bytes, length}

mutual
  pub data CborValue : Type 0 where
    uint : ℕ → CborValue
    bytes : Bytes → CborValue
    text : Bytes → CborValue
    array : Items → CborValue
    object : Pairs → CborValue
    bool : Bool → CborValue
    null : CborValue
    float : ℕ → CborValue

  pub data Items : Type 0 where
    no_items : Items
    item : CborValue → Items → Items

  pub data Pairs : Type 0 where
    no_pairs : Pairs
    pair : Bytes → CborValue → Pairs → Pairs

-- `items.len()`, `pairs.len()`
abbrev pub count_items : Items → ℕ
count_items no_items = 0
count_items (item v xs) = suc (count_items xs)

abbrev pub count_pairs : Pairs → ℕ
count_pairs no_pairs = 0
count_pairs (pair k v ps) = suc (count_pairs ps)

abbrev pub to_list : Pairs → List (Bytes × CborValue)
to_list no_pairs = []
to_list (pair k v ps) = (k, v) ∷ to_list ps

abbrev pub of_list : List (Bytes × CborValue) → Pairs
of_list [] = no_pairs
of_list ((k, v) ∷ ps) = pair k v (of_list ps)

pub to_list-of_list : (ps : List (Bytes × CborValue)) → to_list (of_list ps) ≡ ps
to_list-of_list [] = refl
to_list-of_list ((k, v) ∷ ps) = ap (λ t. (k, v) ∷ t) (to_list-of_list ps)

pub of_list-to_list : (ps : Pairs) → of_list (to_list ps) ≡ ps
of_list-to_list no_pairs = refl
of_list-to_list (pair k v ps) = ap (pair k v) (of_list-to_list ps)

pub length-to_list : (ps : Pairs) → length (to_list ps) ≡ count_pairs ps
length-to_list no_pairs = refl
length-to_list (pair k v ps) = ap suc (length-to_list ps)
