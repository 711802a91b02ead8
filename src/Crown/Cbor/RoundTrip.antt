-- ===== src/Crown/Cbor/RoundTrip.antt =====
-- The readers of canonical.rs on what its writers wrote, for whole values.
mod Scalars
mod Floats
mod Containers
use rcx_registry.Prelude.{
  ℕ, zero, suc, ◌+◌, ◌^◌, ◌≤◌, ◌<◌, ◌≡◌, Bool, true, false, List, [], ◌∷◌, ◌++◌, map, append_assoc,
  append-nil, Bytes, sort_by, length, length-append, All, All-sort_by, length-sort_by, arith,
  to_be_bytes, length-to_be_bytes,
}
use rcx_registry.Prelude.Outcome.{ok}
use rcx_registry.Crown.Utf8.{valid_utf8}
use rcx_registry.Crown.Float.{Platform, IsLawful, is_finite64, float_eq, float_eq_bits}
use rcx_registry.Crown.Cbor.Value.{
  CborValue, uint, bytes, text, array, object, bool, null, float, Items, no_items, item, Pairs,
  no_pairs, pair, count_items, count_pairs, to_list, of_list, length-to_list,
}
use rcx_registry.Crown.Cbor.Encode.{write_head, encoded_key, entry_le, write_entries, float_bytes}
use rcx_registry.Crown.Cbor.Decode.{
  read_body, read_items, read_pairs, read_float, read_value, decode,
}
use rcx_registry.Crown.Cbor.Heads.{
  at_cursor, head_and, take_bytes-append, take_word-append, take_u8-cons, write_head-parts,
  read_value-head,
}
use rcx_registry.Crown.Cbor.Encoding.{
  key_le, pair_entry, canonical_pair, sorted_pairs, sorted_entries, canonical, canonical_items,
  encoding, encoding_items, entries, IsFinite, AreFinite, AreFinitePairs, IsValue, AreValues,
  ArePairs,
}
use Scalars.{write_head_pos, Reads, Reads-uint, Reads-bytes, Reads-text, Reads-bool, Reads-null}
use Floats.{Reads-float}
use Containers.{ReadsItems, ReadsPair, ReadsItems-none, ReadsItems-item, Reads-array, Reads-object}

module _ (p : Platform) (law : IsLawful p) where
  -- Every value of the program is read back where it was written.
  mutual
    unfolding read_items encoding canonical

    Reads-value : (v : CborValue) → IsValue p v → IsFinite v → Reads p v
    Reads-value (uint n) h f = Reads-uint p n h
    Reads-value (bytes bs) h f = Reads-bytes p bs h
    Reads-value (text bs) (h, u) f = Reads-text p bs h u
    Reads-value (array xs) (h, r, hs) f = Reads-array p xs h r (reads_all xs hs f)
    Reads-value (object ps) (h, r, hs) f = Reads-object p ps h r (reads_pairs ps hs f)
    Reads-value (bool b) h f = Reads-bool p b
    Reads-value null h f = Reads-null p
    Reads-value (float x) h f = Reads-float p law x h f

    reads_all : (xs : Items) → AreValues p xs → AreFinite xs → ReadsItems p xs
    reads_all no_items h f = ReadsItems-none p
    reads_all (item v xs) (hv, h) (fv, f) =
        ReadsItems-item p v xs (Reads-value v hv fv) (reads_all xs h f)

    reads_pairs : (ps : Pairs) → ArePairs p ps → AreFinitePairs ps → All (ReadsPair p) (to_list ps)
    reads_pairs no_pairs h f = tt
    reads_pairs (pair k v ps) ((hk, uk), hv, h) (fv, f) =
        ((Reads-text p k hk uk, Reads-value v hv fv), reads_pairs ps h f)

  -- Where the encoder returns, the decoder reads what it wrote as the value with its maps sorted.
  pub decode-encoding :
      (v : CborValue)
      → IsValue p v
      → IsFinite v
      → length (encoding p v) < 2 ^ 64
      → decode p (encoding p v) ≡ ok (canonical v)
  unfolding decode
  decode-encoding v h f hl =
      ground
        (arith, append-nil (encoding p v), Reads-value v h f (suc (length (encoding p v))) 0 [])
