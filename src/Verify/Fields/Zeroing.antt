-- ===== src/Verify/Fields/Zeroing.antt =====
-- Zeroing fields commutes with sorting them.
use rcx_registry.Prelude.{
  ◌≡◌, refl, ap, ap₂, ◌∙◌, sym, inl, inr, List, [], ◌∷◌, map, Bytes, sort_by, map-sort_by,
  Bool-cases,
}
use rcx_registry.Crown.Float.{Platform}
use rcx_registry.Crown.Cbor.Value.{
  CborValue, uint, bytes, text, array, object, bool, null, float, Pairs, no_pairs, pair, to_list,
  of_list, to_list-of_list,
}
use rcx_registry.Crown.Cbor.Encode.{encode}
use rcx_registry.Crown.Cbor.Encoding.{
  key_le, canonical, canonical_pair, canonical_pairs, canonical_pairs-to_list, IsFinite,
  AreFinitePairs,
}
use rcx_registry.Crown.Cbor.Canonical.{encode-canonical}
use rcx_registry.Verify.Fields.{zeroed, contains, zero_field, zero_fields}

zeroed-canonical : (v : CborValue) → zeroed (canonical v) ≡ canonical (zeroed v)
unfolding zeroed canonical
zeroed-canonical (uint n) = refl
zeroed-canonical (bytes bs) = refl
zeroed-canonical (text s) = refl
zeroed-canonical (array xs) = refl
zeroed-canonical (object ps) = refl
zeroed-canonical (bool b) = refl
zeroed-canonical null = refl
zeroed-canonical (float x) = refl

zero_field-canonical :
    (keys : List Bytes) (f : Bytes × CborValue)
    → zero_field keys (canonical_pair f) ≡ canonical_pair (zero_field keys f)
zero_field-canonical keys (k, v) = elim (Bool-cases (contains keys k)) [
  | inl e ↦ rw e (ap (λ w. (k, w)) (zeroed-canonical v))
  | inr e ↦ rw e
]

map-zero_field-canonical :
    (keys : List Bytes) (fields : List (Bytes × CborValue))
    → map (zero_field keys) (map canonical_pair fields)
      ≡ map canonical_pair (map (zero_field keys) fields)
map-zero_field-canonical keys [] = refl
map-zero_field-canonical keys (f ∷ fields) =
    ap₂ (λ g r. g ∷ r) (zero_field-canonical keys f) (map-zero_field-canonical keys fields)

pub zero_fields-canonical :
    (ps : Pairs) (keys : List Bytes)
    → zero_fields (canonical (object ps)) keys ≡ canonical (zero_fields (object ps) keys)
unfolding zero_fields canonical
zero_fields-canonical ps keys =
    ap (λ fields. object (of_list fields))
      (ap (map (zero_field keys)) (to_list-of_list (sort_by key_le (canonical_pairs ps)))
        ∙ map-sort_by key_le key_le (zero_field keys) (λ a b. refl) (canonical_pairs ps)
        ∙ ap (sort_by key_le) (
            ap (map (zero_field keys)) (canonical_pairs-to_list ps)
            ∙ map-zero_field-canonical keys (to_list ps)
            ∙ ap (map canonical_pair) (sym (to_list-of_list (map (zero_field keys) (to_list ps))))
            ∙ sym (canonical_pairs-to_list (of_list (map (zero_field keys) (to_list ps))))))

IsFinite-zeroed : (v : CborValue) → IsFinite v → IsFinite (zeroed v)
unfolding zeroed
IsFinite-zeroed (uint n) h = tt
IsFinite-zeroed (bytes bs) h = tt
IsFinite-zeroed (text s) h = tt
IsFinite-zeroed (array xs) h = h
IsFinite-zeroed (object ps) h = h
IsFinite-zeroed (bool b) h = tt
IsFinite-zeroed null h = tt
IsFinite-zeroed (float x) h = h

pub IsFinite-zero_fields :
    (ps : Pairs) (keys : List Bytes)
    → AreFinitePairs ps
    → AreFinitePairs (of_list (map (zero_field keys) (to_list ps)))
IsFinite-zero_fields no_pairs keys h = tt
IsFinite-zero_fields (pair k v ps) keys (hv, h) = elim (Bool-cases (contains keys k)) [
  | inl e ↦ rw e (IsFinite-zeroed v hv, IsFinite-zero_fields ps keys h)
  | inr e ↦ rw e (hv, IsFinite-zero_fields ps keys h)
]

-- The zeroed encoding of a map that was decoded is that of the map that was encoded.
pub encode-zero_fields :
    (p : Platform) (ps : Pairs) (keys : List Bytes)
    → AreFinitePairs ps
    → encode p (zero_fields (canonical (object ps)) keys) ≡ encode p (zero_fields (object ps) keys)
unfolding zero_fields
encode-zero_fields p ps keys h =
    ap (encode p) (zero_fields-canonical ps keys)
    ∙ encode-canonical p (zero_fields (object ps) keys) (IsFinite-zero_fields ps keys h)
