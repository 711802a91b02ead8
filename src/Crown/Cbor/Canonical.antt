-- ===== src/Crown/Cbor/Canonical.antt =====
-- `CborValue::encode` and `decode` together (canonical.rs), and the form in which a value comes back.
use rcx_registry.Prelude.{
  suc, ◌<◌, ◌^◌, ◌≡◌, refl, sym, ap, ◌∙◌, true, false, some, List, [], ◌∷◌, ◌++◌, map, Bytes,
  lex_le_total, sort_by, sort_by-IsSorted, sort_by-IsSorted_id, map-sort_by, length, length-sort_by,
  All, All-sort_by, arith, length-map,
}
use rcx_registry.Crown.Float.{Platform, IsLawful}
use rcx_registry.Crown.Cbor.Value.{
  CborValue, uint, bytes, text, array, object, bool, null, float, Items, no_items, item, Pairs,
  no_pairs, pair, count_items, count_pairs, to_list, of_list, to_list-of_list, length-to_list,
}
use rcx_registry.Crown.Cbor.Encode.{write_head, encoded_key, entry_le, write_entries, encode}
use rcx_registry.Crown.Cbor.Encoding.{
  key_le, pair_entry, canonical_pair, canonical, canonical_items, canonical_pairs, encoding,
  encoding_items, entries, entries-to_list, canonical_pairs-to_list, IsFinite, AreFinite,
  AreFinitePairs, encode-IsFinite, encode-eq-some, IsValue,
}
use rcx_registry.Crown.Cbor.Decode.{decode}
use rcx_registry.Crown.Cbor.RoundTrip.{decode-encoding}
use rcx_registry.Prelude.Outcome.{ok}

key_le_total : (a b : Bytes × CborValue) → key_le a b ≡ false → key_le b a ≡ true
key_le_total a b = lex_le_total (encoded_key a.0) (encoded_key b.0)

entry_le_total : (a b : Bytes × Bytes) → entry_le a b ≡ false → entry_le b a ≡ true
entry_le_total a b = lex_le_total a.0 b.0

pub count-canonical_items : (xs : Items) → count_items (canonical_items xs) ≡ count_items xs
unfolding canonical
count-canonical_items no_items = refl
count-canonical_items (item v xs) = ap suc (count-canonical_items xs)

-- The number of pairs is not changed by sorting.
pub count-sorted_pairs :
    (ps : Pairs) → count_pairs (of_list (sort_by key_le (canonical_pairs ps))) ≡ count_pairs ps
count-sorted_pairs ps =
    sym (length-to_list (of_list (sort_by key_le (canonical_pairs ps))))
    ∙ ap length (to_list-of_list (sort_by key_le (canonical_pairs ps)))
    ∙ length-sort_by key_le (canonical_pairs ps)
    ∙ ap length (canonical_pairs-to_list ps)
    ∙ length-map canonical_pair (to_list ps)
    ∙ length-to_list ps

module _ (p : Platform) where
  -- The entries of sorted pairs are the sorted entries, and sorting them again changes nothing.
  sorted_twice :
      (ps : Pairs)
      → map (pair_entry p) (canonical_pairs ps) ≡ entries p ps
      → sort_by entry_le (entries p (of_list (sort_by key_le (canonical_pairs ps))))
        ≡ sort_by entry_le (entries p ps)
  sorted_twice ps e =
      let sorted = sort_by key_le (canonical_pairs ps) in
      ap (sort_by entry_le) (
        entries-to_list p (of_list sorted)
        ∙ ap (map (pair_entry p)) (to_list-of_list sorted)
        ∙ map-sort_by key_le entry_le (pair_entry p) (λ a b. refl) (canonical_pairs ps)
        ∙ ap (sort_by entry_le) e)
      ∙ sort_by-IsSorted_id entry_le _ (sort_by-IsSorted entry_le entry_le_total (entries p ps))

  mutual
    unfolding encoding canonical

    encoding-canonical : (v : CborValue) → encoding p (canonical v) ≡ encoding p v
    encoding-canonical (uint n) = refl
    encoding-canonical (bytes bs) = refl
    encoding-canonical (text bs) = refl
    encoding-canonical (array xs) = rw (count-canonical_items xs, encoding-canonical_items xs)
    encoding-canonical (object ps) = rw (count-sorted_pairs ps) (
        ap (λ es. write_head 5 (count_pairs ps) ++ write_entries es)
          (sorted_twice ps (entries-canonical ps)))
    encoding-canonical (bool b) = refl
    encoding-canonical null = refl
    encoding-canonical (float x) = refl

    encoding-canonical_items :
        (xs : Items) → encoding_items p (canonical_items xs) ≡ encoding_items p xs
    encoding-canonical_items no_items = refl
    encoding-canonical_items (item v xs) = rw (encoding-canonical v, encoding-canonical_items xs)

    entries-canonical : (ps : Pairs) → map (pair_entry p) (canonical_pairs ps) ≡ entries p ps
    entries-canonical no_pairs = refl
    entries-canonical (pair k v ps) = rw (encoding-canonical v, entries-canonical ps)

abbrev FinitePair : Bytes × CborValue → Type 0
FinitePair (k, v) = IsFinite v

AreFinitePairs-of_list :
    (ps : List (Bytes × CborValue)) → All FinitePair ps → AreFinitePairs (of_list ps)
AreFinitePairs-of_list [] h = tt
AreFinitePairs-of_list ((k, v) ∷ ps) (hv, h) = (hv, AreFinitePairs-of_list ps h)

mutual
  unfolding canonical

  IsFinite-canonical : (v : CborValue) → IsFinite v → IsFinite (canonical v)
  IsFinite-canonical (uint n) h = tt
  IsFinite-canonical (bytes bs) h = tt
  IsFinite-canonical (text bs) h = tt
  IsFinite-canonical (array xs) h = AreFinite-canonical xs h
  IsFinite-canonical (object ps) h =
      AreFinitePairs-of_list _
        (All-sort_by key_le FinitePair (canonical_pairs ps) (FinitePair-canonical ps h))
  IsFinite-canonical (bool b) h = tt
  IsFinite-canonical null h = tt
  IsFinite-canonical (float x) h = h

  AreFinite-canonical : (xs : Items) → AreFinite xs → AreFinite (canonical_items xs)
  AreFinite-canonical no_items h = tt
  AreFinite-canonical (item v xs) (hv, h) = (IsFinite-canonical v hv, AreFinite-canonical xs h)

  FinitePair-canonical : (ps : Pairs) → AreFinitePairs ps → All FinitePair (canonical_pairs ps)
  FinitePair-canonical no_pairs h = tt
  FinitePair-canonical (pair k v ps) (hv, h) = (IsFinite-canonical v hv, FinitePair-canonical ps h)

module _ (p : Platform) where
  pub encode-canonical : (v : CborValue) → IsFinite v → encode p (canonical v) ≡ encode p v
  encode-canonical v h =
      encode-IsFinite p (canonical v) (IsFinite-canonical v h)
      ∙ ap some (encoding-canonical p v)
      ∙ sym (encode-IsFinite p v h)

  -- If the encoder returns bytes for a value of the program (64-bit words, UTF-8 strings, lists that
  -- the decoder can reserve memory for) and they are fewer than 2 ^ 64, then the decoder returns the
  -- value with the pairs of every map sorted by encoded key, and that value encodes to the same bytes.
  pub decode-encode :
      (law : IsLawful p) (v : CborValue) (bs : Bytes)
      → IsValue p v
      → encode p v ≡ some bs
      → length bs < 2 ^ 64
      → (decode p bs ≡ ok (canonical v)) × (encode p (canonical v) ≡ some bs)
  decode-encode law v bs h e hl =
      let (f, e') = encode-eq-some p v bs e in
      (
        rw (← e') (decode-encoding p law v h f (omega (arith, ap length e'))),
        encode-canonical v f ∙ e,
      )
