-- ===== src/Admin/Pop/Accepts.antt =====
-- What `verify_pop` accepts.
use rcx_registry.Prelude.{
  ℕ, ◌≡◌, ◌↔◌, inl, inr, true, not, Option, none, some, ◌++◌, Bytes, codes, bytes_eq, bytes_eq_refl,
  eq_of_bytes_eq, ◌==◌, if◌then◌else◌, length, take, Bool-cases, arith,
}
use rcx_registry.Prelude.Outcome.{ok, err, >>=-eq-ok}
use rcx_registry.Crown.Crypto.{Crypto}
use rcx_registry.Admin.Pop.{
  PopError, bad_signature, fingerprint_mismatch, Hex, passport_fpr_from_public_key, of_hex,
  decode_public_key, check_fingerprint, check_pop_signature, verify_pop, challenge_signing_bytes,
}

module _ (c : Crypto) (h : Hex) where
  -- A signature over a challenge under the key that its fingerprint commits to.
  pub record IsProof (nonce server fpr key_hex signature_hex : Bytes) : Type 0 where
    pub key : Bytes
    pub signature : Bytes
    pub key_decoded : h.decode_hex key_hex ≡ some key
    pub key_length : length key ≡ 32
    pub committed : codes "p_" ++ h.encode_hex (take 16 (c.blake3 key)) ≡ fpr
    pub key_valid : c.valid_key key ≡ true
    pub signature_decoded : h.decode_hex signature_hex ≡ some signature
    pub signature_length : length signature ≡ 64
    pub verifies : c.verify key (challenge_signing_bytes nonce server fpr) signature ≡ true

  of_hex_sound :
      (len : ℕ) (malformed : PopError) (wrong : ℕ → PopError) (digits bs : Bytes)
      → of_hex c h len malformed wrong digits ≡ ok bs
      → (h.decode_hex digits ≡ some bs) × (length bs ≡ len)
  unfolding of_hex
  of_hex_sound len malformed wrong digits bs e = go (h.decode_hex digits) e
    where
      go :
          (o : Option Bytes)
          → elim o [
            | none ↦ err malformed
            | some bs ↦ if length bs == len then ok bs else err (wrong (length bs))
          ]
            ≡ ok bs
          → (o ≡ some bs) × (length bs ≡ len)
      go none e = cc
      go (some cs) e = ground arith

  of_hex_complete :
      (len : ℕ) (malformed : PopError) (wrong : ℕ → PopError) (digits bs : Bytes)
      → h.decode_hex digits ≡ some bs
      → length bs ≡ len
      → of_hex c h len malformed wrong digits ≡ ok bs
  unfolding of_hex
  of_hex_complete len malformed wrong digits bs e l = rw (of_hex, e) (ground arith)

  fingerprint_sound :
      (fpr derived : Bytes)
      → (if not (bytes_eq derived fpr) then err (fingerprint_mismatch fpr derived) else ok (tt {0}))
        ≡ ok (tt {0})
      → derived ≡ fpr
  fingerprint_sound fpr derived e = ground (arith, eq_of_bytes_eq derived fpr)

  checked_fingerprint :
      (fpr key_hex key : Bytes)
      → decode_public_key c h key_hex ≡ ok key
      → check_fingerprint c h fpr key_hex ≡ ok tt
      → passport_fpr_from_public_key c h key ≡ fpr
  unfolding check_fingerprint
  checked_fingerprint fpr key_hex key d e =
      let (key', d', e') = >>=-eq-ok (decode_public_key c h key_hex) _ e in
      fingerprint_sound fpr _ (rw (same key' key d' d) at e')
    where
      same :
          (a b : Bytes)
          → decode_public_key c h key_hex ≡ ok a
          → decode_public_key c h key_hex ≡ ok b
          → a ≡ b
      same a b e e' = cc

  signature_sound :
      (key message signature_hex : Bytes)
      → check_pop_signature c h key message signature_hex ≡ ok tt
      → (s : Bytes) × (h.decode_hex signature_hex ≡ some s)
        × (length s ≡ 64)
        × (c.verify key message s ≡ true)
  unfolding check_pop_signature
  signature_sound key message signature_hex e =
      let (s, d, e') =
        >>=-eq-ok
          (of_hex c h 64 PopError.malformed_signature PopError.signature_length signature_hex) _
          e in
      let (d', l) = of_hex_sound 64 _ _ signature_hex s d in (s, d', l, verified s e')
    where
      verified :
          (s : Bytes)
          → (if c.verify key message s then ok (tt {0}) else err bad_signature) ≡ ok (tt {0})
          → c.verify key message s ≡ true
      verified s e = ground arith

  proof :
      (nonce server fpr key_hex signature_hex : Bytes)
      → verify_pop c h nonce server fpr key_hex signature_hex ≡ ok tt
      → IsProof nonce server fpr key_hex signature_hex
  unfolding verify_pop decode_public_key passport_fpr_from_public_key
  proof nonce server fpr key_hex signature_hex e =
      let (_, e0, e0') = >>=-eq-ok (check_fingerprint c h fpr key_hex) _ e in
      let (key, e1, e1') = >>=-eq-ok (decode_public_key c h key_hex) _ e0' in
      let (kd, kl) = of_hex_sound 32 _ _ key_hex key e1 in
      elim (Bool-cases (c.valid_key key)) [
        | inr n ↦ absurd (ground arith)
        | inl v ↦
            let (s, d, l, ve) =
              signature_sound key (challenge_signing_bytes nonce server fpr) signature_hex
                (rw v at e1') in
            record {
              key = key;
              signature = s;
              key_decoded = kd;
              key_length = kl;
              committed = checked_fingerprint fpr key_hex key e1 e0;
              key_valid = v;
              signature_decoded = d;
              signature_length = l;
              verifies = ve;
            }
      ]

  -- `verify_pop` accepts exactly if the key's hex text decodes to 32 bytes that are a key, the
  -- fingerprint is `p_` and the hex text of the first 16 bytes of the key's digest, and the
  -- signature's hex text decodes to 64 bytes that verify under the key over the challenge's bytes.
  pub verify_pop_iff :
      (nonce server fpr key_hex signature_hex : Bytes)
      → (verify_pop c h nonce server fpr key_hex signature_hex ≡ ok tt)
        ↔ IsProof nonce server fpr key_hex signature_hex
  unfolding verify_pop check_fingerprint decode_public_key passport_fpr_from_public_key
      check_pop_signature
  verify_pop_iff nonce server fpr key_hex signature_hex = (
    proof nonce server fpr key_hex signature_hex,
    λ s. rw (
      of_hex_complete 32 PopError.malformed_public_key PopError.public_key_length key_hex s.key
          s.key_decoded s.key_length,
      s.committed,
      bytes_eq_refl fpr,
      s.key_valid,
      of_hex_complete 64 PopError.malformed_signature PopError.signature_length signature_hex
          s.signature s.signature_decoded s.signature_length,
      s.verifies,
    ),
  )
