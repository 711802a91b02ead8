-- ===== src/Skills/Sign/Verifies.antt =====
-- `sign_receipt` and `verify_lock_receipt` together (crates/rcx-registry-skills/src/sign.rs).
use rcx_registry.Prelude.{
  ◌≡◌, refl, sym, ap, ◌∙◌, ◌↔◌, Bool, true, false, some, Bytes, bytes_eq, bytes_eq_refl,
  eq_of_bytes_eq, length, replicate, arith,
}
use rcx_registry.Prelude.Outcome.{Outcome, ok, err, panic, stuck, map_err, ◌>>=◌, >>=-eq-ok}
use rcx_registry.Crown.Crypto.{Crypto}
use rcx_registry.Crown.Float.{Platform}
use rcx_registry.Crown.Json.{JsonText}
use rcx_registry.Crown.Hashing.{snapshot_merkle_root}
use rcx_registry.Crown.Cbor.Decode.{CrownError}
use rcx_registry.Crown.Cbor.Value.{CborValue}
use rcx_registry.Crown.Cbor.Encode.{encode}
use rcx_registry.Crown.Cbor.Encoding.{IsFinite, encoding, encode-IsFinite}
use rcx_registry.Crown.Receipt.{
  receipt_fields, signing_value, set_field, compute_hash, to_canonical_cbor,
  to_zeroed_canonical_cbor, verify_receipt_signature,
}
use rcx_registry.Crown.Receipt.Kinds.Snapshots.{SkillSnapshotReceipt, skill_snapshot}
use rcx_registry.Crown.Receipt.Fields.{bytes_or_null-IsFinite, skill_snapshot-IsReceipt}
use rcx_registry.Crown.Receipt.Checks.{
  signed_value, signing_value-receipt, IsSigned, verify_receipt_signature_iff,
}
use rcx_registry.Skills.Errors.{SkillsError, not_signable, signature_refused}
use rcx_registry.Skills.Lock.{SkillLock, signable}
use rcx_registry.Skills.Sign.{
  ReceiptDraft, digest_entries, lock_merkle_root, with_hash, with_signature, unhashed,
  prepare_receipt, signing_preimage, sign_receipt, compare_lock, verify_lock_receipt,
}

skill_snapshot-IsFinite :
    (d : SkillSnapshotReceipt) (zero : Bool) → IsFinite (skill_snapshot.to_cbor_value d zero)
unfolding receipt_fields
skill_snapshot-IsFinite d true = search (tt, bytes_or_null-IsFinite) depth 20
skill_snapshot-IsFinite d false = search (tt, bytes_or_null-IsFinite) depth 20

module _ (p : Platform) (c : Crypto) (t : JsonText) where
  -- A lockfile that a receipt is about.
  pub record Describes (receipt : SkillSnapshotReceipt) (lock : SkillLock) : Type 0 where
    pub is_signable : signable lock ≡ ok tt
    pub same_root : snapshot_merkle_root c.blake3 (digest_entries t lock) ≡ receipt.lock_merkle_root
    pub same_version : lock.version ≡ receipt.lock_version
    pub same_count : length lock.skills ≡ receipt.skill_count

  accepted_signature :
      (o : Outcome CrownError (Unit {0}))
      → map_err (λ e. not_signable (signature_refused e)) o ≡ ok tt
      → o ≡ ok tt
  accepted_signature (ok tt) h = refl
  accepted_signature (err e) h = cc
  accepted_signature panic h = cc
  accepted_signature stuck h = cc

  compare_sound :
      (lock : SkillLock) (receipt : SkillSnapshotReceipt) (root : Bytes)
      → compare_lock p c t lock receipt root ≡ ok tt
      → (root ≡ receipt.lock_merkle_root)
        × (lock.version ≡ receipt.lock_version)
        × (length lock.skills ≡ receipt.skill_count)
  unfolding compare_lock
  compare_sound lock receipt root h =
      (ground (arith, eq_of_bytes_eq root receipt.lock_merkle_root), ground arith, ground arith)

  root_sound :
      (lock : SkillLock) (root : Bytes)
      → lock_merkle_root p c t lock ≡ ok root
      → (signable lock ≡ ok tt) × (snapshot_merkle_root c.blake3 (digest_entries t lock) ≡ root)
  unfolding lock_merkle_root
  root_sound lock root h = let (_, e, h') = >>=-eq-ok (signable lock) _ h in (e, cc)

  lock_receipt_sound :
      (lock : SkillLock) (receipt : SkillSnapshotReceipt) (key : Bytes)
      → verify_lock_receipt p c t lock receipt key ≡ ok tt
      → (verify_receipt_signature p c receipt key ≡ ok tt) × Describes receipt lock
  unfolding verify_lock_receipt
  lock_receipt_sound lock receipt key h =
      let (_, e0, h0) =
        >>=-eq-ok
          (map_err (λ e. not_signable (signature_refused e))
            (verify_receipt_signature p c receipt key))
          _ h in
      let (root, e1, h1) = >>=-eq-ok (lock_merkle_root p c t lock) _ h0 in
      let (s, r) = root_sound lock root e1 in
      let (er, ev, ec) = compare_sound lock receipt root h1 in
      (
        accepted_signature _ e0,
        record { is_signable = s; same_root = r ∙ er; same_version = ev; same_count = ec },
      )

  -- `verify_lock_receipt` accepts a receipt for a lockfile under a key exactly if the receipt's signature
  -- is accepted under the key, the lockfile is signable, and its root, version and number of skills
  -- are those of the receipt.
  pub verify_lock_receipt_iff :
      (lock : SkillLock) (receipt : SkillSnapshotReceipt) (key : Bytes)
      → (verify_lock_receipt p c t lock receipt key ≡ ok tt)
        ↔ ((verify_receipt_signature p c receipt key ≡ ok tt) × Describes receipt lock)
  unfolding verify_lock_receipt compare_lock lock_merkle_root
  verify_lock_receipt_iff lock receipt key = (
    lock_receipt_sound lock receipt key,
    λ (v, s).
        rw (v, s.is_signable, s.same_root, bytes_eq_refl receipt.lock_merkle_root)
          (ground (arith, s.same_version, s.same_count)),
  )

  -- the receipt that is signed, with its hash
  hash_of : SkillSnapshotReceipt → Bytes
  hash_of r = c.blake3 (encoding p (skill_snapshot.to_cbor_value r true))

  compute_hash-hash_of : (r : SkillSnapshotReceipt) → compute_hash p c r ≡ some (hash_of r)
  unfolding compute_hash to_zeroed_canonical_cbor hash_of
  compute_hash-hash_of r =
      rw (encode-IsFinite p (skill_snapshot.to_cbor_value r true) (skill_snapshot-IsFinite r true))

  abbrev preimage_of : SkillSnapshotReceipt → Bytes
  preimage_of r =
      encoding p (skill_snapshot.to_cbor_value (with_signature p c t r (replicate 64 0)) false)

  signing_preimage-preimage_of :
      (r : SkillSnapshotReceipt) → signing_preimage p c t r ≡ some (preimage_of r)
  unfolding signing_preimage to_canonical_cbor
  signing_preimage-preimage_of r =
      encode-IsFinite p _ (skill_snapshot-IsFinite (with_signature p c t r (replicate 64 0)) false)

  abbrev signed_by : (Bytes → Bytes) → SkillSnapshotReceipt → SkillSnapshotReceipt
  signed_by sign r =
      let hashed = with_hash p c t r (hash_of r) in
      with_signature p c t hashed (sign (preimage_of hashed))

  sign_receipt-signed_by :
      (sign : Bytes → Bytes) (r : SkillSnapshotReceipt)
      → sign_receipt p c t {E = SkillsError} r (λ m. ok (sign m)) ≡ ok (signed_by sign r)
  unfolding sign_receipt
  sign_receipt-signed_by sign r =
      rw (compute_hash-hash_of r, signing_preimage-preimage_of (with_hash p c t r (hash_of r)))

  signing_value-with_signature :
      (r : SkillSnapshotReceipt)
      → signing_value (skill_snapshot.to_cbor_value r false)
        ≡ some (skill_snapshot.to_cbor_value (with_signature p c t r (replicate 64 0)) false)
  unfolding signing_value set_field receipt_fields bytes_eq
  signing_value-with_signature r = refl

  signed_value-with_signature :
      (r : SkillSnapshotReceipt)
      → signed_value skill_snapshot-IsReceipt r
        ≡ skill_snapshot.to_cbor_value (with_signature p c t r (replicate 64 0)) false
  signed_value-with_signature r =
      same _ _
        (sym (signing_value-receipt skill_snapshot-IsReceipt r) ∙ signing_value-with_signature r)
    where
      same : (v w : CborValue) → some v ≡ some w → v ≡ w
      same v w h = cc

  signed_by-IsSigned :
      (sign : Bytes → Bytes) (r : SkillSnapshotReceipt) (key : Bytes)
      → length key ≡ 32
      → c.valid_key key ≡ true
      → ((m : Bytes) → c.verify key m (sign m) ≡ true)
      → IsSigned skill_snapshot-IsReceipt p c (signed_by sign r) key
  unfolding hash_of receipt_fields
  signed_by-IsSigned sign r key l v s = record {
    key_length = l;
    key_valid = v;
    hash_stored = compute_hash-hash_of (signed_by sign r);
    signing_bytes = preimage_of (with_hash p c t r (hash_of r));
    written =
        ap (encode p) (signed_value-with_signature (signed_by sign r))
        ∙ encode-IsFinite p _ (
            skill_snapshot-IsFinite (with_signature p c t (signed_by sign r) (replicate 64 0))
              false);
    verifies = s (preimage_of (with_hash p c t r (hash_of r)));
  }

  prepared : SkillLock → ReceiptDraft → SkillSnapshotReceipt
  prepared lock draft =
      let r = unhashed p c t lock draft (snapshot_merkle_root c.blake3 (digest_entries t lock)) in
      with_hash p c t r (hash_of r)

  prepare_receipt-prepared :
      (lock : SkillLock) (draft : ReceiptDraft)
      → signable lock ≡ ok tt
      → prepare_receipt p c t lock draft ≡ ok (prepared lock draft)
  unfolding prepare_receipt lock_merkle_root prepared
  prepare_receipt-prepared lock draft h = rw (
    h,
    compute_hash-hash_of
        (unhashed p c t lock draft (snapshot_merkle_root c.blake3 (digest_entries t lock))),
  )

  prepared-Describes :
      (lock : SkillLock) (draft : ReceiptDraft) (sign : Bytes → Bytes)
      → signable lock ≡ ok tt
      → Describes (signed_by sign (prepared lock draft)) lock
  unfolding prepared unhashed
  prepared-Describes lock draft sign h = record {
    is_signable = h;
    same_root = refl;
    same_version = refl;
    same_count = refl;
  }

  -- If a lockfile is signable, the key is one of 32 bytes, and what the signer returns for a message
  -- verifies under the key, then preparing a receipt for the lockfile and signing it returns a receipt,
  -- without a panic, and `verify_lock_receipt` accepts it for the lockfile under the key.
  pub verify_lock_receipt-sign_receipt :
      (lock : SkillLock) (draft : ReceiptDraft) (sign : Bytes → Bytes) (key : Bytes)
      → signable lock ≡ ok tt
      → length key ≡ 32
      → c.valid_key key ≡ true
      → ((m : Bytes) → c.verify key m (sign m) ≡ true)
      → (receipt : SkillSnapshotReceipt) × ((prepare_receipt p c t lock draft >>= λ r.
            sign_receipt p c t r (λ m. ok (sign m)))
          ≡ ok receipt)
        × (verify_lock_receipt p c t lock receipt key ≡ ok tt)
  verify_lock_receipt-sign_receipt lock draft sign key h l v s =
      let r = prepared lock draft in
      (
        signed_by sign r,
        rw (prepare_receipt-prepared lock draft h) (sign_receipt-signed_by sign r),
        (verify_lock_receipt_iff lock (signed_by sign r) key).1 (
          (verify_receipt_signature_iff skill_snapshot-IsReceipt p c (signed_by sign r) key).1
              (signed_by-IsSigned sign r key l v s),
          prepared-Describes lock draft sign h,
        ),
      )
