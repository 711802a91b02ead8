-- ===== src/Ingest/NameSets.antt =====
-- The sets of names of crates/rcx-registry-ingest/src/lib.rs.
use rcx_registry.Prelude.{
  ◌≡◌, refl, false, ◌||◌, List, [], ◌∷◌, Bytes, bytes_eq, bytes_eq_refl, eq_of_bytes_eq, All, arith,
}
use rcx_registry.Ingest.{add_name, is_in}

pub is_in-add_name :
    (n name : Bytes) (names : List Bytes)
    → is_in n (add_name name names) ≡ (bytes_eq name n || is_in n names)
unfolding is_in add_name
is_in-add_name n name [] = refl
is_in-add_name n name (m ∷ names) =
    ground (arith, is_in-add_name n name names, eq_of_bytes_eq name m)

-- Names that are not in a set with one more are not in the set, and none of them is the one.
pub All-not_in :
    (name : Bytes) (set names : List Bytes)
    → All (λ n. is_in n (add_name name set) ≡ false) names
    → (is_in name names ≡ false) × All (λ n. is_in n set ≡ false) names
unfolding is_in
All-not_in name set [] h = (refl, tt)
All-not_in name set (n ∷ names) (new, h) =
    let (out, rest) = All-not_in name set names h in
    let e = is_in-add_name n name set in
    (
      ground (arith, out, new, e, eq_of_bytes_eq n name, bytes_eq_refl name),
      (ground (arith, new, e), rest),
    )

-- The converse.
pub All-not_in_add :
    (name : Bytes) (set names : List Bytes)
    → is_in name names ≡ false
    → All (λ n. is_in n set ≡ false) names
    → All (λ n. is_in n (add_name name set) ≡ false) names
unfolding is_in
All-not_in_add name set [] out h = tt
All-not_in_add name set (n ∷ names) out (new, h) = (
  ground (arith, is_in-add_name n name set, eq_of_bytes_eq name n, bytes_eq_refl n),
  All-not_in_add name set names (ground arith) h,
)
