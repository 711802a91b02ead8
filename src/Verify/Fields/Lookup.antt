-- ===== src/Verify/Fields/Lookup.antt =====
-- A look-up finds in the sorted fields of a map what it finds in the unsorted ones.
use rcx_registry.Prelude.{
  ◌≡◌, refl, ap, ◌∙◌, false, inl, inr, some, List, [], ◌∷◌, map, Bytes, bytes_eq, eq_of_bytes_eq,
  lex_le, lex_le_refl, insert, sort_by, if◌then◌else◌, Bool-cases, arith, ◌≢◌,
}
use mathlib.Core.Option
use rcx_registry.Crown.Cbor.Value.{CborValue, Pairs, to_list, of_list, to_list-of_list}
use rcx_registry.Crown.Cbor.Encode.{encoded_key}
use rcx_registry.Crown.Cbor.Encoding.{
  key_le, canonical, canonical_pair, canonical_pairs, canonical_pairs-to_list,
}
use rcx_registry.Verify.Fields.{lookup}

-- A pair that goes behind another has another key.
key_le_ne : (k k' : Bytes) → lex_le (encoded_key k) (encoded_key k') ≡ false → k ≢ k'
key_le_ne k k' h e = cc (lex_le_refl (encoded_key k))

lookup-insert :
    (key k : Bytes) (v : CborValue) (fields : List (Bytes × CborValue))
    → lookup key (insert key_le (k, v) fields)
      ≡ (if bytes_eq k key then some v else lookup key fields)
unfolding lookup insert
lookup-insert key k v [] = refl
lookup-insert key k v ((k', v') ∷ fields) = elim (Bool-cases (key_le (k, v) (k', v'))) [
  | inl e ↦ rw e
  | inr e ↦ rw e (
      rw (lookup-insert key k v fields)
        (ground (arith, eq_of_bytes_eq k key, eq_of_bytes_eq k' key, key_le_ne k k' e)))
]

pub lookup-sort_by :
    (key : Bytes) (fields : List (Bytes × CborValue))
    → lookup key (sort_by key_le fields) ≡ lookup key fields
unfolding lookup sort_by
lookup-sort_by key [] = refl
lookup-sort_by key ((k, v) ∷ fields) =
    lookup-insert key k v (sort_by key_le fields)
    ∙ ap (λ r. if bytes_eq k key then some v else r) (lookup-sort_by key fields)

lookup-canonical_pair :
    (key : Bytes) (fields : List (Bytes × CborValue))
    → lookup key (map canonical_pair fields) ≡ Option.map canonical (lookup key fields)
unfolding lookup
lookup-canonical_pair key [] = refl
lookup-canonical_pair key ((k, v) ∷ fields) = elim (Bool-cases (bytes_eq k key)) [
  | inl e ↦ rw e
  | inr e ↦ rw e (lookup-canonical_pair key fields)
]

-- In a map that was decoded, a field is what the encoded map had under its name.
pub lookup-canonical_pairs :
    (key : Bytes) (ps : Pairs)
    → lookup key (to_list (of_list (sort_by key_le (canonical_pairs ps))))
      ≡ Option.map canonical (lookup key (to_list ps))
lookup-canonical_pairs key ps =
    ap (lookup key) (to_list-of_list (sort_by key_le (canonical_pairs ps)))
    ∙ lookup-sort_by key (canonical_pairs ps)
    ∙ ap (lookup key) (canonical_pairs-to_list ps)
    ∙ lookup-canonical_pair key (to_list ps)
