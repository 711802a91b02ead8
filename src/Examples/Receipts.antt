-- ===== src/Examples/Receipts.antt =====
-- A receipt, signed and verified.
use rcx_registry.Prelude.{
  List, ◌≡◌, ◌↔◌, refl, false, Option, none, some, [], ◌∷◌, Bytes, codes, replicate, ltb→lt,
  bytes_eq, insert, lex_le, sort_by, to_be_bytes, from_be_bytes,
}
use rcx_registry.Prelude.Outcome.{err, ok, panic}
use rcx_registry.Crown.Utf8.{valid_utf8}
use rcx_registry.Crown.Cbor.Encode.{encode, write_value, write_head, encoded_key}
use rcx_registry.Crown.Cbor.Encoding.{IsValue}
use rcx_registry.Crown.Float.{is_finite64}
use rcx_registry.Crown.Receipt.{
  receipt_fields, signing_value, set_field, to_canonical_cbor, to_zeroed_canonical_cbor,
  compute_hash, check_signature, verify_receipt_signature,
}
use rcx_registry.Crown.Receipt.Kinds.Claims.{
  PublisherRightsVerifiedReceipt, publisher_rights_verified,
}
use rcx_registry.Crown.Receipt.Fields.{publisher_rights_verified-IsReceipt}
use rcx_registry.Crown.Receipt.Checks.{IsSigned, verify_receipt_signature_iff}
use rcx_registry.Verify.Receipt.{verify_receipt}
use rcx_registry.Verify.Receipt.Accepts.{facts_of, verify_receipt-to_canonical_cbor}
use rcx_registry.Verify.Receipt.Sound.{IsSoundReceipt, verify_receipt_iff}
use rcx_registry.Verify.Receipt.Panics.{verify_receipt-panics}
use rcx_registry.Crown.Cbor.Decode as Decode
use rcx_registry.Crown.Cbor.Decode.{
  decode, finish, no_rest, read_value, read_body, read_text, read_items, read_pairs, read_arg,
  take_u8, take_word, above,
}
use rcx_registry.Crown.Receipt.Kinds.Entries.{EntryEnrichedReceipt}
use rcx_registry.Crown.Receipt.Kinds.Entries as Entries
use rcx_registry.Verify.Errors.{chain_broken}
use rcx_registry.Verify.Fields.{lookup, take_bytes, zero_fields, zeroed, contains}
use rcx_registry.Verify.Receipt.{verify_fields, fields_of, kid_of, root_of}
use rcx_registry.Verify.Chain.{
  entry_enriched, verify_history, verify_links, check_previous, check_link, back_reference,
  actual_link,
}
use rcx_registry.Verify.Chain.Links.{IsChain, verify_history_iff}
use rcx_registry.Examples.Toy.{toy_platform, toy_platform-IsLawful, toy_crypto, toy_key, toy_sign}

abbrev pub bytes_or_nil : Option Bytes → Bytes
bytes_or_nil none = []
bytes_or_nil (some bs) = bs

-- the receipt under a hash and a signature
abbrev rights : Bytes → Bytes → PublisherRightsVerifiedReceipt
rights hash signature = record {
  event_id = replicate 16 1;
  publisher_passport = codes "p_1";
  namespace = codes "io.x";
  verification_method = codes "dns";
  verified_at = 5;
  receipt_hash = hash;
  receipt_signature = signature;
  signer_kid = codes "k";
}

-- the hash of its zeroed encoding, and its encoding before it is signed
abbrev rights_hash : Bytes
rights_hash = bytes_or_nil (compute_hash toy_platform toy_crypto (rights [] []))

abbrev rights_signature : Bytes
rights_signature =
    toy_sign toy_key (
      bytes_or_nil
        (to_canonical_cbor toy_platform toy_crypto (rights rights_hash (replicate 64 0))))

abbrev signed_rights : PublisherRightsVerifiedReceipt
signed_rights = rights rights_hash rights_signature

abbrev signed_rights_bytes : Bytes
signed_rights_bytes = bytes_or_nil (to_canonical_cbor toy_platform toy_crypto signed_rights)

signed_rights-IsValue :
    IsValue toy_platform (publisher_rights_verified.to_cbor_value signed_rights false)
unfolding valid_utf8 receipt_fields encode write_value write_head encoded_key sort_by insert lex_le
    to_be_bytes to_canonical_cbor to_zeroed_canonical_cbor compute_hash
signed_rights-IsValue = (
  ltb→lt _ _ refl,
  refl,
  (
    (ltb→lt _ _ refl, refl),
    ltb→lt _ _ refl,
    (
      (ltb→lt _ _ refl, refl),
      (ltb→lt _ _ refl, refl),
      (
        (ltb→lt _ _ refl, refl),
        (ltb→lt _ _ refl, refl),
        (
          (ltb→lt _ _ refl, refl),
          (ltb→lt _ _ refl, refl),
          (
            (ltb→lt _ _ refl, refl),
            ltb→lt _ _ refl,
            (
              (ltb→lt _ _ refl, refl),
              ltb→lt _ _ refl,
              (
                (ltb→lt _ _ refl, refl),
                ltb→lt _ _ refl,
                ((ltb→lt _ _ refl, refl), (ltb→lt _ _ refl, refl), tt),
              ),
            ),
          ),
        ),
      ),
    ),
  ),
)

signed_rights_accepted :
    verify_receipt_signature toy_platform toy_crypto signed_rights toy_key ≡ ok tt
unfolding receipt_fields encode write_value write_head encoded_key sort_by insert lex_le to_be_bytes
    to_canonical_cbor to_zeroed_canonical_cbor compute_hash bytes_eq verify_receipt_signature
    check_signature signing_value set_field
signed_rights_accepted = refl

verify_receipt_signature_iff_example :
    (verify_receipt_signature toy_platform toy_crypto signed_rights toy_key ≡ ok tt)
    ↔ IsSigned publisher_rights_verified-IsReceipt toy_platform toy_crypto signed_rights toy_key
verify_receipt_signature_iff_example =
    verify_receipt_signature_iff publisher_rights_verified-IsReceipt toy_platform toy_crypto
      signed_rights toy_key

verify_receipt-to_canonical_cbor_example :
    verify_receipt toy_platform toy_crypto signed_rights_bytes toy_key
    ≡ ok (facts_of publisher_rights_verified-IsReceipt signed_rights)
unfolding receipt_fields encode write_value write_head encoded_key sort_by insert lex_le to_be_bytes
    to_canonical_cbor to_zeroed_canonical_cbor compute_hash bytes_eq
verify_receipt-to_canonical_cbor_example =
    verify_receipt-to_canonical_cbor publisher_rights_verified-IsReceipt toy_platform toy_crypto
      toy_platform-IsLawful signed_rights toy_key signed_rights_bytes signed_rights_accepted refl
      refl (λ m h. h) signed_rights-IsValue refl (ltb→lt _ _ refl)

verify_receipt_iff_example :
    (verify_receipt toy_platform toy_crypto signed_rights_bytes toy_key
      ≡ ok (facts_of publisher_rights_verified-IsReceipt signed_rights))
    ↔ IsSoundReceipt toy_platform toy_crypto signed_rights_bytes toy_key
        (facts_of publisher_rights_verified-IsReceipt signed_rights)
verify_receipt_iff_example =
    verify_receipt_iff toy_platform toy_crypto signed_rights_bytes toy_key
      (facts_of publisher_rights_verified-IsReceipt signed_rights)

-- an enrichment, and one that supersedes it
abbrev enriched : Option Bytes → Bytes → Bytes → EntryEnrichedReceipt
enriched supersedes hash signature = record {
  event_id = replicate 16 1;
  server_name = codes "io.x/a";
  publisher_passport = codes "p_1";
  declared_uri = codes "https://x";
  declared_hash = replicate 32 3;
  enrichment_bytes = codes "{}";
  supersedes_prior = supersedes;
  receipt_hash = hash;
  receipt_signature = signature;
  signer_kid = codes "k";
}

abbrev enriched_hash : Option Bytes → Bytes
enriched_hash supersedes = bytes_or_nil (
    compute_hash ⦃doc = Entries.entry_enriched⦄ toy_platform toy_crypto (enriched supersedes [] []))

abbrev enriched_bytes : Option Bytes → Bytes
enriched_bytes supersedes =
    let hash = enriched_hash supersedes in
    let unsigned =
      to_canonical_cbor ⦃doc = Entries.entry_enriched⦄ toy_platform toy_crypto
        (enriched supersedes hash (replicate 64 0)) in
    bytes_or_nil (
      to_canonical_cbor ⦃doc = Entries.entry_enriched⦄ toy_platform toy_crypto
        (enriched supersedes hash (toy_sign toy_key (bytes_or_nil unsigned))))

abbrev two_links : List Bytes
two_links = enriched_bytes none ∷ enriched_bytes (some (enriched_hash none)) ∷ []

two_links_accepted : verify_history toy_platform toy_crypto two_links toy_key entry_enriched ≡ ok tt
unfolding receipt_fields encode write_value write_head encoded_key sort_by insert lex_le to_be_bytes
    from_be_bytes to_canonical_cbor to_zeroed_canonical_cbor compute_hash bytes_eq verify_history
    verify_links check_previous check_link back_reference actual_link verify_receipt verify_fields
    fields_of kid_of root_of lookup take_bytes zero_fields zeroed contains decode finish no_rest
    read_value read_body read_text read_items read_pairs read_arg take_u8 take_word
    Decode.take_bytes above valid_utf8
two_links_accepted = refl

-- in the wrong order
two_links_reversed :
    verify_history toy_platform toy_crypto
      (enriched_bytes (some (enriched_hash none)) ∷ enriched_bytes none ∷ [])
      toy_key
      entry_enriched
    ≡ err (chain_broken 1)
unfolding receipt_fields encode write_value write_head encoded_key sort_by insert lex_le to_be_bytes
    from_be_bytes to_canonical_cbor to_zeroed_canonical_cbor compute_hash bytes_eq verify_history
    verify_links check_previous check_link back_reference actual_link verify_receipt verify_fields
    fields_of kid_of root_of lookup take_bytes zero_fields zeroed contains decode finish no_rest
    read_value read_body read_text read_items read_pairs read_arg take_u8 take_word
    Decode.take_bytes above valid_utf8
two_links_reversed = refl

verify_history_iff_example :
    (verify_history toy_platform toy_crypto two_links toy_key entry_enriched ≡ ok tt)
    ↔ IsChain toy_platform entry_enriched toy_crypto toy_key none two_links
verify_history_iff_example =
    verify_history_iff toy_platform toy_crypto toy_key entry_enriched two_links

-- an infinity of half width
verify_receipt-panics_example :
    verify_receipt toy_platform toy_crypto (0xf9 ∷ 0x7c ∷ 0 ∷ []) toy_key ≡ panic
unfolding is_finite64 from_be_bytes
verify_receipt-panics_example =
    verify_receipt-panics toy_platform toy_crypto toy_key 0x7c 0 refl refl
