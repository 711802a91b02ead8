-- ===== src/Crown/Cbor/RoundTrip/Containers.antt =====
-- Reading back an array, and a map with its pairs sorted.
use rcx_registry.Prelude.{
  ℕ, zero, suc, ◌+◌, ◌^◌, ◌≤◌, ◌<◌, ◌≡◌, true, List, [], ◌∷◌, ◌++◌, map, append_assoc, Bytes,
  sort_by, length, length-append, All, All-sort_by, length-sort_by, arith,
}
use rcx_registry.Prelude.Outcome.{ok}
use rcx_registry.Crown.Float.{Platform}
use rcx_registry.Crown.Cbor.Value.{
  CborValue, text, array, object, Items, no_items, item, Pairs, count_items, count_pairs, to_list,
  of_list, length-to_list,
}
use rcx_registry.Crown.Cbor.Encode.{write_head, encoded_key, entry_le, write_entries}
use rcx_registry.Crown.Cbor.Decode.{read_body, read_items, read_pairs, read_value}
use rcx_registry.Crown.Cbor.Heads.{at_cursor, read_value-head}
use rcx_registry.Crown.Cbor.Encoding.{
  key_le, pair_entry, canonical_pair, sorted_pairs, sorted_entries, canonical, canonical_items,
  encoding, encoding_items, entries,
}
use rcx_registry.Crown.Cbor.RoundTrip.Scalars.{write_head_pos, Reads}

module _ (p : Platform) where
  -- A list of values that are read one by one.
  abbrev pub ReadsItems : Items → Type 0
  ReadsItems xs =
      (fuel pos : ℕ) (rest : Bytes)
      → length (encoding_items p xs) ≤ fuel
      → pos + length (encoding_items p xs) < 2 ^ 64
      → read_items (read_value p fuel) (count_items xs)
          (at_cursor pos (encoding_items p xs ++ rest))
        ≡ ok (canonical_items xs, at_cursor (pos + length (encoding_items p xs)) rest)

  pub ReadsItems-none : ReadsItems no_items
  unfolding read_items encoding canonical
  ReadsItems-none fuel pos rest hf hp = ground arith

  pub ReadsItems-item :
      (v : CborValue) (xs : Items) → Reads p v → ReadsItems xs → ReadsItems (item v xs)
  unfolding read_items encoding canonical
  ReadsItems-item v xs rv rs fuel pos rest hf hp = ground (
    arith,
    length-append (encoding p v) (encoding_items p xs),
    append_assoc (encoding p v) (encoding_items p xs) rest,
    rv fuel pos (encoding_items p xs ++ rest),
    rs fuel (pos + length (encoding p v)) rest,
  )

  pub Reads-array :
      (xs : Items)
      → count_items xs < 2 ^ 64
      → p.reserve_items (count_items xs) ≡ true
      → ReadsItems xs
      → Reads p (array xs)
  unfolding encoding canonical read_body
  Reads-array xs h r rs zero pos rest hf hp = absurd (
      omega (
        arith,
        write_head_pos 4 (count_items xs),
        length-append (write_head 4 (count_items xs)) (encoding_items p xs),
      ))
  Reads-array xs h r rs (suc fuel) pos rest hf hp = ground (
    arith,
    write_head_pos 4 (count_items xs),
    length-append (write_head 4 (count_items xs)) (encoding_items p xs),
    append_assoc (write_head 4 (count_items xs)) (encoding_items p xs) rest,
    read_value-head p fuel pos 4 (count_items xs) (encoding_items p xs ++ rest),
    rs fuel (pos + length (write_head 4 (count_items xs))) rest,
  )

  -- The key of a pair is read as a text, and its value behind it.
  abbrev pub ReadsPair : Bytes × CborValue → Type 0
  ReadsPair (k, v) = Reads p (text k) × Reads p v

  read_pairs-entries :
      (ps : List (Bytes × CborValue)) (fuel pos : ℕ) (rest : Bytes)
      → All ReadsPair ps
      → length (write_entries (map (pair_entry p) ps)) ≤ fuel
      → pos + length (write_entries (map (pair_entry p) ps)) < 2 ^ 64
      → read_pairs
          (read_value p fuel)
          (length ps)
          (at_cursor pos (write_entries (map (pair_entry p) ps) ++ rest))
        ≡ ok (
          of_list (map canonical_pair ps),
          at_cursor (pos + length (write_entries (map (pair_entry p) ps))) rest,
        )
  unfolding read_pairs encoding canonical encoded_key
  read_pairs-entries [] fuel pos rest h hf hp = ground arith
  read_pairs-entries ((k, v) ∷ ps) fuel pos rest ((rk, rv), h) hf hp =
      let key = encoded_key k in
      let value = encoding p v in
      let others = write_entries (map (pair_entry p) ps) in
      ground (
        arith,
        length-append key (value ++ others),
        length-append value others,
        append_assoc key (value ++ others) rest,
        append_assoc value others rest,
        rk fuel pos (value ++ (others ++ rest)),
        rv fuel (pos + length key) (others ++ rest),
        read_pairs-entries ps fuel (pos + length key + length value) rest h,
      )

  pub Reads-object :
      (ps : Pairs)
      → count_pairs ps < 2 ^ 64
      → p.reserve_pairs (count_pairs ps) ≡ true
      → All ReadsPair (to_list ps)
      → Reads p (object ps)
  unfolding encoding canonical read_body
  Reads-object ps h r rs zero pos rest hf hp = absurd (
      omega (
        arith,
        write_head_pos 5 (count_pairs ps),
        length-append (write_head 5 (count_pairs ps))
            (write_entries (sort_by entry_le (entries p ps))),
      ))
  Reads-object ps h r rs (suc fuel) pos rest hf hp =
      let head = write_head 5 (count_pairs ps) in
      let sorted = sort_by key_le (to_list ps) in
      let body = write_entries (map (pair_entry p) sorted) in
      ground (
        arith,
        write_head_pos 5 (count_pairs ps),
        sorted_pairs ps,
        sorted_entries p ps,
        length-sort_by key_le (to_list ps),
        length-to_list ps,
        length-append head body,
        append_assoc head body rest,
        read_value-head p fuel pos 5 (count_pairs ps) (body ++ rest),
        read_pairs-entries sorted fuel (pos + length head) rest
            (All-sort_by key_le ReadsPair (to_list ps) rs),
      )
