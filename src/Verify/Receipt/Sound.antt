-- ===== src/Verify/Receipt/Sound.antt =====
-- What `verify_receipt` accepts, on any bytes.
use rcx_registry.Prelude.{
  ◌≡◌, refl, sym, ap, ◌∙◌, ◌↔◌, inl, inr, true, not, some, List, Bytes, bytes_eq, bytes_eq_refl,
  eq_of_bytes_eq, ◌==◌, ==_iff, if◌then◌else◌, length, Bool-cases, arith,
}
use rcx_registry.Prelude.Outcome.{
  Outcome, ok, err, panic, stuck, map_err, or_panic, ◌>>=◌, >>=-eq-ok, or_panic-eq-ok,
}
use rcx_registry.Crown.Crypto.{Crypto}
use rcx_registry.Crown.Float.{Platform}
use rcx_registry.Crown.Cbor.Value.{CborValue}
use rcx_registry.Crown.Cbor.Encode.{encode}
use rcx_registry.Crown.Cbor.Decode.{CrownError, decode}
use rcx_registry.Crown.Receipt.{field_receipt_hash, field_receipt_signature, field_signer_kid}
use rcx_registry.Verify.Errors.{
  VerifyError, decode_error, crown, hash_mismatch, bad_signature, bad_public_key,
}
use rcx_registry.Verify.Fields.{lookup, take_bytes, zero_fields}
use rcx_registry.Verify.Receipt.{
  ReceiptFacts, field_snapshot_root, hash_preimage_keys, signing_preimage_keys, fields_of, kid_of,
  root_of, verify_fields, verify_receipt,
}
use rcx_registry.Verify.Receipt.Accepts.{verify_fields_lem}

pub decoded_ok :
    (o : Outcome CrownError CborValue) (value : CborValue)
    → map_err (λ e. decode_error (crown e)) o ≡ ok value
    → o ≡ ok value
decoded_ok (ok v) value h = cc
decoded_ok (err e) value h = cc
decoded_ok panic value h = cc
decoded_ok stuck value h = cc

module _ (p : Platform) (c : Crypto) where
  -- The fields of a value whose hash and signature are sound under a key.
  pub record HasSoundFields (value : CborValue) (key : Bytes) (facts : ReceiptFacts) : Type 0 where
    pub fields : List (Bytes × CborValue)
    pub hash : Bytes
    pub signature : Bytes
    pub kid : Bytes
    pub zeroed : Bytes
    pub preimage : Bytes
    pub is_map : fields_of value ≡ ok fields
    pub hash_stored : take_bytes fields field_receipt_hash 32 ≡ ok hash
    pub signature_stored : take_bytes fields field_receipt_signature 64 ≡ ok signature
    pub kid_stored : kid_of (lookup field_signer_kid fields) ≡ ok kid
    pub zeroed_written : encode p (zero_fields value hash_preimage_keys) ≡ some zeroed
    pub hash_matches : c.blake3 zeroed ≡ hash
    pub preimage_written : encode p (zero_fields value signing_preimage_keys) ≡ some preimage
    pub key_valid : c.valid_key key ≡ true
    pub verifies : c.verify_strict key preimage signature ≡ true
    pub reported : facts ≡ record {
      receipt_hash = hash;
      signer_kid = kid;
      snapshot_root = root_of (lookup field_snapshot_root fields);
    }

  -- Bytes that are a sound receipt under a key: they are the canonical encoding of the value that they
  -- decode to, and the value's hash and signature are sound.
  pub record IsSoundReceipt (bs key : Bytes) (facts : ReceiptFacts) : Type 0 where
    pub value : CborValue
    pub key_length : length key ≡ 32
    pub decoded : decode p bs ≡ ok value
    pub encoded : encode p value ≡ some bs
    pub sound : HasSoundFields value key facts

  same_facts :
      (o : Outcome VerifyError ReceiptFacts) (a b : ReceiptFacts) → o ≡ ok a → o ≡ ok b → b ≡ a
  same_facts o a b h k = cc

  -- the fields that are read before the hash is checked
  record AreRead (value : CborValue) : Type 0 where
    fields : List (Bytes × CborValue)
    hash : Bytes
    signature : Bytes
    kid : Bytes
    zeroed : Bytes
    is_map : fields_of value ≡ ok fields
    hash_stored : take_bytes fields field_receipt_hash 32 ≡ ok hash
    signature_stored : take_bytes fields field_receipt_signature 64 ≡ ok signature
    kid_stored : kid_of (lookup field_signer_kid fields) ≡ ok kid
    zeroed_written : encode p (zero_fields value hash_preimage_keys) ≡ some zeroed

  abbrev facts_read : {value : CborValue} → AreRead value → ReceiptFacts
  facts_read r = record {
    receipt_hash = r.hash;
    signer_kid = r.kid;
    snapshot_root = root_of (lookup field_snapshot_root r.fields);
  }

  abbrev check_key :
      {value : CborValue} → AreRead value → Bytes → Bytes → Outcome VerifyError ReceiptFacts
  check_key r key preimage =
      if not (c.valid_key key)
      then err (bad_public_key (length key))
      else if not (c.verify_strict key preimage r.signature)
      then err bad_signature
      else ok (facts_read r)

  key_sound :
      (value : CborValue) (r : AreRead value) (key preimage : Bytes) (facts : ReceiptFacts)
      → check_key r key preimage ≡ ok facts
      → (c.valid_key key ≡ true)
        × (c.verify_strict key preimage r.signature ≡ true)
        × (facts ≡ facts_read r)
  key_sound value r key preimage facts h = elim (Bool-cases (c.valid_key key)) [
    | inr n ↦ absurd (ground arith)
    | inl v ↦ elim (Bool-cases (c.verify_strict key preimage r.signature)) [
      | inr n ↦ absurd (ground arith)
      | inl s ↦ (v, s, same_facts _ _ facts refl (rw (v, s) at h))
    ]
  ]

  read_sound :
      (value : CborValue) (r : AreRead value) (key : Bytes) (facts : ReceiptFacts)
      → (if not (bytes_eq (c.blake3 r.zeroed) r.hash)
          then err hash_mismatch
          else or_panic (encode p (zero_fields value signing_preimage_keys)) >>= check_key r key)
        ≡ ok facts
      → HasSoundFields value key facts
  read_sound value r key facts h = elim (Bool-cases (bytes_eq (c.blake3 r.zeroed) r.hash)) [
    | inr n ↦ absurd (ground arith)
    | inl y ↦
        let (preimage, e, h') =
          or_panic-eq-ok (encode p (zero_fields value signing_preimage_keys)) _ (rw y at h) in
        let (v, s, f) = key_sound value r key preimage facts h' in
        record {
          fields = r.fields;
          hash = r.hash;
          signature = r.signature;
          kid = r.kid;
          zeroed = r.zeroed;
          preimage = preimage;
          is_map = r.is_map;
          hash_stored = r.hash_stored;
          signature_stored = r.signature_stored;
          kid_stored = r.kid_stored;
          zeroed_written = r.zeroed_written;
          hash_matches = eq_of_bytes_eq _ _ y;
          preimage_written = e;
          key_valid = v;
          verifies = s;
          reported = f;
        }
  ]

  fields_sound :
      (value : CborValue) (key : Bytes) (facts : ReceiptFacts)
      → verify_fields p c value key ≡ ok facts
      → HasSoundFields value key facts
  unfolding verify_fields
  fields_sound value key facts h =
      let (fields, e0, h0) = >>=-eq-ok (fields_of value) _ h in
      let (hash, e1, h1) = >>=-eq-ok (take_bytes fields field_receipt_hash 32) _ h0 in
      let (signature, e2, h2) = >>=-eq-ok (take_bytes fields field_receipt_signature 64) _ h1 in
      let (kid, e3, h3) = >>=-eq-ok (kid_of (lookup field_signer_kid fields)) _ h2 in
      let (zeroed, e4, h4) =
        or_panic-eq-ok (encode p (zero_fields value hash_preimage_keys)) _ h3 in
      read_sound value
        (record {
          fields = fields;
          hash = hash;
          signature = signature;
          kid = kid;
          zeroed = zeroed;
          is_map = e0;
          hash_stored = e1;
          signature_stored = e2;
          kid_stored = e3;
          zeroed_written = e4;
        })
        key facts h4

  receipt_sound :
      (bs key : Bytes) (facts : ReceiptFacts)
      → verify_receipt p c bs key ≡ ok facts
      → IsSoundReceipt bs key facts
  unfolding verify_receipt
  receipt_sound bs key facts h = elim (Bool-cases (length key == 32)) [
    | inr n ↦ absurd (ground arith)
    | inl l ↦
        let (value, e0, h0) =
          >>=-eq-ok (map_err (λ e. decode_error (crown e)) (decode p bs)) _ (rw l at h) in
        let (encoded, e1, h1) = or_panic-eq-ok (encode p value) _ h0 in
        elim (Bool-cases (bytes_eq encoded bs)) [
          | inr n ↦ absurd (ground arith)
          | inl y ↦ record {
            value = value;
            key_length = (==_iff _ _).0 l;
            decoded = decoded_ok _ value e0;
            encoded = e1 ∙ ap some (eq_of_bytes_eq encoded bs y);
            sound = fields_sound value key facts (rw y at h1);
          }
        ]
  ]

  -- On any bytes and key, `verify_receipt` accepts with certain facts exactly if the key has 32 bytes,
  -- the bytes decode to a value whose encoding they are, and the value is a map whose stored hash is
  -- the digest of its encoding with hash, signature and key id neutralised, whose stored signature
  -- passes the strict check under the key over its encoding with the signature alone zeroed, and
  -- whose hash, key id and snapshot root are the facts.
  pub verify_receipt_iff :
      (bs key : Bytes) (facts : ReceiptFacts)
      → (verify_receipt p c bs key ≡ ok facts) ↔ IsSoundReceipt bs key facts
  unfolding verify_receipt
  verify_receipt_iff bs key facts = (
    receipt_sound bs key facts,
    λ s.
        rw (s.key_length, s.decoded, s.encoded, bytes_eq_refl bs)
          (verify_fields_lem p c s.value key s.sound.fields s.sound.hash s.sound.signature
              s.sound.kid s.sound.zeroed s.sound.preimage s.sound.is_map s.sound.hash_stored
              s.sound.signature_stored s.sound.kid_stored s.sound.zeroed_written
              s.sound.hash_matches s.sound.preimage_written s.sound.key_valid s.sound.verifies
            ∙ ap ok (sym s.sound.reported)),
  )
