-- ===== src/Examples/Cbor.antt =====
-- The encoding at concrete values.
use rcx_registry.Prelude.{
  ◌≡◌, ◌≢◌, refl, true, some, [], ◌∷◌, Bytes, codes, ltb→lt, insert, lex_le, sort_by, to_be_bytes,
}
use rcx_registry.Prelude.Outcome.{ok, stuck}
use rcx_registry.Crown.Utf8.{valid_utf8}
use rcx_registry.Crown.Cbor.Value.{
  CborValue, uint, array, object, bool, null, no_items, item, no_pairs, pair,
}
use rcx_registry.Crown.Cbor.Encode.{encode, write_value, write_head, encoded_key}
use rcx_registry.Crown.Cbor.Decode.{decode}
use rcx_registry.Crown.Cbor.Encoding.{canonical}
use rcx_registry.Crown.Cbor.Canonical.{decode-encode}
use rcx_registry.Crown.Cbor.Termination.{decode-ne-stuck}
use rcx_registry.Examples.Toy.{toy_platform, toy_platform-IsLawful}

-- a map whose pairs are not sorted
abbrev two_keys : CborValue
two_keys = object (
    pair (codes "bb") (uint 300)
      (pair (codes "a") (array (item (bool true) (item null no_items))) no_pairs))

abbrev two_keys_bytes : Bytes
two_keys_bytes = 0xa2 ∷ 0x61 ∷ 97 ∷ 0x82 ∷ 0xf5 ∷ 0xf6 ∷ 0x62 ∷ 98 ∷ 98 ∷ 0x19 ∷ 1 ∷ 44 ∷ []

decode-encode_example :
    (decode toy_platform two_keys_bytes ≡ ok (canonical two_keys))
    × (encode toy_platform (canonical two_keys) ≡ some two_keys_bytes)
unfolding valid_utf8 encode write_value write_head encoded_key sort_by insert lex_le to_be_bytes
decode-encode_example =
    decode-encode toy_platform toy_platform-IsLawful two_keys two_keys_bytes
      (
        ltb→lt _ _ refl,
        refl,
        (
          (ltb→lt _ _ refl, refl),
          ltb→lt _ _ refl,
          ((ltb→lt _ _ refl, refl), (ltb→lt _ _ refl, refl, (tt, (tt, tt))), tt),
        ),
      )
      refl (ltb→lt _ _ refl)

-- an array that promises 3 items and holds one
decode-ne-stuck_example : decode toy_platform (0x83 ∷ 1 ∷ []) ≢ stuck
decode-ne-stuck_example = decode-ne-stuck toy_platform (0x83 ∷ 1 ∷ [])
