-- ===== src/Crown/Cbor/Encoding.antt =====
-- What the encoder writes where it does not panic, as a total function, and the form in which a value
-- comes back: the pairs of each map in the order of their encoded keys.
use rcx_registry.Prelude.{
  arith, map-sort_by, sym, ◌∙◌, ap, map, ◌<◌, ◌^◌, ◌≡◌, refl, Bool, true, some, List, [], ◌∷◌, ◌++◌,
  Bytes, lex_le, sort_by, length,
}
use rcx_registry.Prelude.Partial.{>>=-eq-some}
use rcx_registry.Crown.Utf8.{valid_utf8}
use rcx_registry.Crown.Float.{Platform, is_finite64}
use rcx_registry.Crown.Cbor.Value.{
  CborValue, uint, bytes, text, array, object, bool, null, float, Items, no_items, item, Pairs,
  no_pairs, pair, to_list, count_items, count_pairs, of_list,
}
use rcx_registry.Crown.Cbor.Encode.{
  major_uint, major_bytes, major_text, major_array, major_map, simple_null, write_head, encoded_key,
  entry_le, write_entries, float_bytes, write_float, write_bool, write_value, write_items,
  write_pairs, encode,
}

abbrev pub key_le : Bytes × CborValue → Bytes × CborValue → Bool
key_le a b = lex_le (encoded_key a.0) (encoded_key b.0)

unfoldable mutual
  pub canonical : CborValue → CborValue
  canonical (uint n) = uint n
  canonical (bytes bs) = bytes bs
  canonical (text bs) = text bs
  canonical (array xs) = array (canonical_items xs)
  canonical (object ps) = object (of_list (sort_by key_le (canonical_pairs ps)))
  canonical (bool b) = bool b
  canonical null = null
  canonical (float x) = float x

  pub canonical_items : Items → Items
  canonical_items no_items = no_items
  canonical_items (item v xs) = item (canonical v) (canonical_items xs)

  pub canonical_pairs : Pairs → List (Bytes × CborValue)
  canonical_pairs no_pairs = []
  canonical_pairs (pair k v ps) = (k, canonical v) ∷ canonical_pairs ps

abbrev pub canonical_pair : Bytes × CborValue → Bytes × CborValue
canonical_pair (k, v) = (k, canonical v)

pub canonical_pairs-to_list : (ps : Pairs) → canonical_pairs ps ≡ map canonical_pair (to_list ps)
unfolding canonical
canonical_pairs-to_list no_pairs = refl
canonical_pairs-to_list (pair k v ps) = ap (λ t. (k, canonical v) ∷ t) (canonical_pairs-to_list ps)

-- The pairs of a map come back sorted as they were.
pub sorted_pairs :
    (ps : Pairs)
    → sort_by key_le (canonical_pairs ps) ≡ map canonical_pair (sort_by key_le (to_list ps))
sorted_pairs ps =
    ap (sort_by key_le) (canonical_pairs-to_list ps)
    ∙ sym (map-sort_by key_le key_le canonical_pair (λ a b. refl) (to_list ps))

module _ (p : Platform) where
  unfoldable mutual
    pub encoding : CborValue → Bytes
    encoding (uint n) = write_head major_uint n
    encoding (bytes bs) = write_head major_bytes (length bs) ++ bs
    encoding (text bs) = write_head major_text (length bs) ++ bs
    encoding (array xs) = write_head major_array (count_items xs) ++ encoding_items xs
    encoding (object ps) =
        write_head major_map (count_pairs ps) ++ write_entries (sort_by entry_le (entries ps))
    encoding (bool b) = write_bool b
    encoding null = simple_null ∷ []
    encoding (float x) = float_bytes p x

    pub encoding_items : Items → Bytes
    encoding_items no_items = []
    encoding_items (item v xs) = encoding v ++ encoding_items xs

    pub entries : Pairs → List (Bytes × Bytes)
    entries no_pairs = []
    entries (pair k v ps) = (encoded_key k, encoding v) ∷ entries ps

module _ (p : Platform) where
  -- A pair's encoded key beside its encoded value.
  abbrev pub pair_entry : Bytes × CborValue → Bytes × Bytes
  pair_entry (k, v) = (encoded_key k, encoding p v)

  pub entries-to_list : (ps : Pairs) → entries p ps ≡ map pair_entry (to_list ps)
  unfolding encoding
  entries-to_list no_pairs = refl
  entries-to_list (pair k v ps) = ap (λ t. pair_entry (k, v) ∷ t) (entries-to_list ps)

  -- The entries of a map are written in the order of its sorted pairs.
  pub sorted_entries :
      (ps : Pairs) → sort_by entry_le (entries p ps) ≡ map pair_entry (sort_by key_le (to_list ps))
  sorted_entries ps =
      ap (sort_by entry_le) (entries-to_list ps)
      ∙ sym (map-sort_by key_le entry_le pair_entry (λ a b. refl) (to_list ps))

-- The values that the encoder takes: every float is finite.
abbrev mutual
  pub IsFinite : CborValue → Type 0
  IsFinite (array xs) = AreFinite xs
  IsFinite (object ps) = AreFinitePairs ps
  IsFinite (float x) = is_finite64 x ≡ true
  IsFinite _ = Unit

  pub AreFinite : Items → Type 0
  AreFinite no_items = Unit
  AreFinite (item v xs) = IsFinite v × AreFinite xs

  pub AreFinitePairs : Pairs → Type 0
  AreFinitePairs no_pairs = Unit
  AreFinitePairs (pair k v ps) = IsFinite v × AreFinitePairs ps

-- The values of the Rust type: 64-bit words, strings of UTF-8, lengths that fit a word; and of these
-- the ones whose lists the decoder can reserve memory for.
module _ (p : Platform) where
  abbrev mutual
    pub IsValue : CborValue → Type 0
    IsValue (uint n) = n < 2 ^ 64
    IsValue (bytes bs) = length bs < 2 ^ 64
    IsValue (text bs) = (length bs < 2 ^ 64) × (valid_utf8 bs ≡ true)
    IsValue (array xs) =
        (count_items xs < 2 ^ 64) × (p.reserve_items (count_items xs) ≡ true) × AreValues xs
    IsValue (object ps) =
        (count_pairs ps < 2 ^ 64) × (p.reserve_pairs (count_pairs ps) ≡ true) × ArePairs ps
    IsValue (float x) = x < 2 ^ 64
    IsValue _ = Unit

    pub AreValues : Items → Type 0
    AreValues no_items = Unit
    AreValues (item v xs) = IsValue v × AreValues xs

    pub ArePairs : Pairs → Type 0
    ArePairs no_pairs = Unit
    ArePairs (pair k v ps) = ((length k < 2 ^ 64) × (valid_utf8 k ≡ true)) × IsValue v × ArePairs ps

-- On such values the encoder returns, and it is `encoding` that it returns.
module _ (p : Platform) where
  mutual
    unfolding write_value encoding write_float

    write_value-IsFinite : (v : CborValue) → IsFinite v → write_value p v ≡ some (encoding p v)
    write_value-IsFinite (uint n) h = refl
    write_value-IsFinite (bytes bs) h = refl
    write_value-IsFinite (text bs) h = refl
    write_value-IsFinite (array xs) h = rw (write_items-IsFinite xs h)
    write_value-IsFinite (object ps) h = rw (write_pairs-IsFinite ps h)
    write_value-IsFinite (bool b) h = refl
    write_value-IsFinite null h = refl
    write_value-IsFinite (float x) h = rw h

    write_items-IsFinite :
        (xs : Items) → AreFinite xs → write_items p xs ≡ some (encoding_items p xs)
    write_items-IsFinite no_items h = refl
    write_items-IsFinite (item v xs) (hv, h) =
        rw (write_value-IsFinite v hv, write_items-IsFinite xs h)

    write_pairs-IsFinite : (ps : Pairs) → AreFinitePairs ps → write_pairs p ps ≡ some (entries p ps)
    write_pairs-IsFinite no_pairs h = refl
    write_pairs-IsFinite (pair k v ps) (hv, h) =
        rw (write_value-IsFinite v hv, write_pairs-IsFinite ps h)

  pub encode-IsFinite : (v : CborValue) → IsFinite v → encode p v ≡ some (encoding p v)
  unfolding encode
  encode-IsFinite v h = write_value-IsFinite v h

-- Where the encoder returns, every float was finite.
module _ (p : Platform) where
  mutual
    unfolding write_value write_float

    IsFinite-of_written : (v : CborValue) (bs : Bytes) → write_value p v ≡ some bs → IsFinite v
    IsFinite-of_written (uint n) bs h = tt
    IsFinite-of_written (bytes b) bs h = tt
    IsFinite-of_written (text b) bs h = tt
    IsFinite-of_written (array xs) bs h =
        let (out, e, _) = >>=-eq-some (write_items p xs) _ h in AreFinite-of_written xs out e
    IsFinite-of_written (object ps) bs h =
        let (out, e, _) = >>=-eq-some (write_pairs p ps) _ h in AreFinitePairs-of_written ps out e
    IsFinite-of_written (bool b) bs h = tt
    IsFinite-of_written null bs h = tt
    IsFinite-of_written (float x) bs h = ground arith

    AreFinite-of_written : (xs : Items) (bs : Bytes) → write_items p xs ≡ some bs → AreFinite xs
    AreFinite-of_written no_items bs h = tt
    AreFinite-of_written (item v xs) bs h =
        let (out, e, h') = >>=-eq-some (write_value p v) _ h in
        let (rest, e', _) = >>=-eq-some (write_items p xs) _ h' in
        (IsFinite-of_written v out e, AreFinite-of_written xs rest e')

    AreFinitePairs-of_written :
        (ps : Pairs) (bs : List (Bytes × Bytes)) → write_pairs p ps ≡ some bs → AreFinitePairs ps
    AreFinitePairs-of_written no_pairs bs h = tt
    AreFinitePairs-of_written (pair k v ps) bs h =
        let (out, e, h') = >>=-eq-some (write_value p v) _ h in
        let (rest, e', _) = >>=-eq-some (write_pairs p ps) _ h' in
        (IsFinite-of_written v out e, AreFinitePairs-of_written ps rest e')

  pub encode-eq-some :
      (v : CborValue) (bs : Bytes) → encode p v ≡ some bs → IsFinite v × (encoding p v ≡ bs)
  unfolding encode
  encode-eq-some v bs h = let f = IsFinite-of_written v bs h in (f, cc (write_value-IsFinite p v f))
