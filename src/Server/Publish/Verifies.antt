-- ===== src/Server/Publish/Verifies.antt =====
-- A snapshot that crates/rcx-registry-server/src/loops/sync.rs plans, signs and stores, before the
-- offline verifier of crates/rcx-verify/src/lib.rs.
use rcx_registry.Prelude.{
  ℕ, ◌^◌, ◌-◌, ◌<◌, ◌≡◌, refl, sym, ap, ◌∙◌, Bool, true, false, Option, some, List, map, Bytes,
  bytes_eq, bytes_eq_refl, length, replicate, arith,
}
use rcx_registry.Prelude.Outcome.{ok}
use rcx_registry.Crown.Crypto.{Crypto}
use rcx_registry.Crown.Float.{Platform, IsLawful}
use rcx_registry.Crown.Json.{Json, array}
use rcx_registry.Crown.Hashing.{snapshot_merkle_root, snapshot_preimage}
use rcx_registry.Crown.Cbor.Value.{CborValue}
use rcx_registry.Crown.Cbor.Encode.{encode}
use rcx_registry.Crown.Cbor.Encoding.{IsFinite, IsValue, encoding, encode-IsFinite}
use rcx_registry.Crown.Receipt.{
  receipt_fields, signing_value, set_field, compute_hash, to_canonical_cbor,
  to_zeroed_canonical_cbor,
}
use rcx_registry.Crown.Receipt.Kinds.Snapshots.{RegistrySnapshotReceipt, registry_snapshot}
use rcx_registry.Crown.Receipt.Fields.{
  bytes_or_null-IsFinite, text_or_null-IsFinite, registry_snapshot-IsReceipt,
}
use rcx_registry.Crown.Receipt.Checks.{
  signed_value, signing_value-receipt, IsSigned, verify_receipt_signature_iff,
}
use rcx_registry.Verify.Receipt.{ReceiptFacts, verify_receipt, root_of}
use rcx_registry.Verify.Receipt.Accepts.{facts_of, verify_receipt-to_canonical_cbor}
use rcx_registry.Verify.Fields.{lookup}
use rcx_registry.Verify.Digests.{verify_snapshot}
use rcx_registry.Ingest.{MirroredServer, digest_entry_of, reconcile_snapshots}
use rcx_registry.Ingest.SnapshotPlan.{SnapshotPlan, snapshot_receipt_of, build_snapshot_plan}
use rcx_registry.Server.Snapshots.{StoredSnapshot}
use rcx_registry.Server.Publish.{stored_snapshot, signed_with, entries_value, min}

registry_snapshot-IsFinite :
    (d : RegistrySnapshotReceipt) (zero : Bool) → IsFinite (registry_snapshot.to_cbor_value d zero)
unfolding receipt_fields
registry_snapshot-IsFinite d true =
    search (tt, bytes_or_null-IsFinite, text_or_null-IsFinite) depth 20
registry_snapshot-IsFinite d false =
    search (tt, bytes_or_null-IsFinite, text_or_null-IsFinite) depth 20

module _ (p : Platform) (c : Crypto) where
  -- the digest of the zeroed encoding
  hash_of : RegistrySnapshotReceipt → Bytes
  hash_of r = c.blake3 (encoding p (registry_snapshot.to_cbor_value r true))

  compute_hash-hash_of : (r : RegistrySnapshotReceipt) → compute_hash p c r ≡ some (hash_of r)
  unfolding compute_hash to_zeroed_canonical_cbor hash_of
  compute_hash-hash_of r = rw (
      encode-IsFinite p (registry_snapshot.to_cbor_value r true)
        (registry_snapshot-IsFinite r true))

  abbrev unsigned : RegistrySnapshotReceipt → RegistrySnapshotReceipt
  unsigned r = signed_with r (replicate 64 0)

  signing_value-unsigned :
      (r : RegistrySnapshotReceipt)
      → signing_value (registry_snapshot.to_cbor_value r false)
        ≡ some (registry_snapshot.to_cbor_value (unsigned r) false)
  unfolding signing_value set_field receipt_fields bytes_eq
  signing_value-unsigned r = refl

  signed_value-unsigned :
      (r : RegistrySnapshotReceipt)
      → signed_value registry_snapshot-IsReceipt r
        ≡ registry_snapshot.to_cbor_value (unsigned r) false
  signed_value-unsigned r =
      same _ _
        (sym (signing_value-receipt registry_snapshot-IsReceipt r) ∙ signing_value-unsigned r)
    where
      same : (v w : CborValue) → some v ≡ some w → v ≡ w
      same v w h = cc

  abbrev preimage_of : RegistrySnapshotReceipt → Bytes
  preimage_of r = encoding p (registry_snapshot.to_cbor_value r false)

  to_canonical_cbor-preimage_of :
      (r : RegistrySnapshotReceipt) → to_canonical_cbor p c r ≡ some (preimage_of r)
  unfolding to_canonical_cbor
  to_canonical_cbor-preimage_of r = encode-IsFinite p _ (registry_snapshot-IsFinite r false)

  module _ (current previous : List MirroredServer) (event_id snapshot_id : Bytes)
      (scraped_at_ms : ℕ) (previous_hash etag : Option Bytes) (kid : Bytes) where
    abbrev planned : Bytes → Bytes → RegistrySnapshotReceipt
    planned =
        snapshot_receipt_of c.blake3 current (reconcile_snapshots c.blake3 previous current)
          event_id snapshot_id scraped_at_ms previous_hash etag kid

    -- The receipt that is planned, with its hash.
    unfoldable pub hashed : RegistrySnapshotReceipt
    unfolding hash_of snapshot_receipt_of
    hashed = planned (hash_of (planned (replicate 32 0) (replicate 64 0))) (replicate 64 0)

    -- The same under the signature that a function gives for its encoding.
    unfoldable pub published : (Bytes → Bytes) → RegistrySnapshotReceipt
    unfolding hashed
    published sign = signed_with hashed (sign (preimage_of hashed))

    build_snapshot_plan-hashed :
        build_snapshot_plan p c current previous event_id snapshot_id scraped_at_ms previous_hash
          etag kid
        ≡ some (record {
          diff = reconcile_snapshots c.blake3 previous current;
          snapshot_receipt = hashed;
        })
    unfolding build_snapshot_plan hashed
    build_snapshot_plan-hashed =
        rw (compute_hash-hash_of (planned (replicate 32 0) (replicate 64 0)))

    published-IsSigned :
        (sign : Bytes → Bytes) (key : Bytes)
        → length key ≡ 32
        → c.valid_key key ≡ true
        → ((m : Bytes) → c.verify key m (sign m) ≡ true)
        → IsSigned registry_snapshot-IsReceipt p c (published sign) key
    unfolding published hash_of receipt_fields snapshot_receipt_of
    published-IsSigned sign key l v s = record {
      key_length = l;
      key_valid = v;
      hash_stored = compute_hash-hash_of (published sign);
      signing_bytes = preimage_of hashed;
      written =
          ap (encode p) (signed_value-unsigned (published sign))
          ∙ encode-IsFinite p _ (registry_snapshot-IsFinite hashed false);
      verifies = s (preimage_of hashed);
    }

    root_of-published :
        (sign : Bytes → Bytes)
        → ((bs : Bytes) → length (c.blake3 bs) ≡ 32)
        → (facts_of registry_snapshot-IsReceipt (published sign)).snapshot_root
          ≡ some (published sign).snapshot_merkle_root
    unfolding facts_of root_of lookup bytes_eq published hashed snapshot_receipt_of
        snapshot_merkle_root
    root_of-published sign l = ground (arith, l (snapshot_preimage (map digest_entry_of current)))

    abbrev stored_as : (Bytes → Bytes) → (Json → Bytes) → StoredSnapshot
    stored_as sign to_vec = record {
      snapshot_id = snapshot_id;
      snapshot_hash = (published sign).snapshot_merkle_root;
      server_count = min (length current) (2 ^ 32 - 1);
      scraped_at = scraped_at_ms;
      receipt_hash = (published sign).receipt_hash;
      receipt_signature = (published sign).receipt_signature;
      signer_kid = kid;
      receipt_cbor = preimage_of (published sign);
      entries_json = to_vec (array (entries_value current));
    }

    stored_snapshot-stored_as :
        (sign : Bytes → Bytes) (to_vec : Json → Bytes)
        → stored_snapshot p c
            (record { sign = λ m. ok (sign m); signer_kid = kid })
            to_vec
            hashed
            current
          ≡ ok (stored_as sign to_vec)
    unfolding stored_snapshot published hashed snapshot_receipt_of
    stored_snapshot-stored_as sign to_vec = rw (
      to_canonical_cbor-preimage_of hashed,
      to_canonical_cbor-preimage_of (signed_with hashed (sign (preimage_of hashed))),
    )

    -- What a snapshot is to a verifier: its receipt is accepted under the key, with the stored hash and
    -- key id and the stored root, and its entries have that root.
    pub record IsVerifiable (key : Bytes) (stored : StoredSnapshot) : Type 0 where
      pub facts : ReceiptFacts
      pub accepted : verify_receipt p c stored.receipt_cbor key ≡ ok facts
      pub same_hash : facts.receipt_hash ≡ stored.receipt_hash
      pub same_kid : facts.signer_kid ≡ stored.signer_kid
      pub same_root : facts.snapshot_root ≡ some stored.snapshot_hash
      pub entries :
          verify_snapshot c.blake3 (map digest_entry_of current) stored.snapshot_hash ≡ ok tt

    verify_snapshot-published :
        (sign : Bytes → Bytes)
        → verify_snapshot c.blake3
            (map digest_entry_of current)
            (published sign).snapshot_merkle_root
          ≡ ok tt
    unfolding verify_snapshot published hashed snapshot_receipt_of
    verify_snapshot-published sign =
        rw (bytes_eq_refl (snapshot_merkle_root c.blake3 (map digest_entry_of current)))

    stored_as-IsVerifiable :
        (law : IsLawful p) (sign : Bytes → Bytes) (to_vec : Json → Bytes) (key : Bytes)
        → length key ≡ 32
        → c.valid_key key ≡ true
        → ((m : Bytes) → c.verify key m (sign m) ≡ true)
        → ((m : Bytes) → length (sign m) ≡ 64)
        → ((m signature : Bytes)
            → c.verify key m signature ≡ true
            → c.verify_strict key m signature ≡ true)
        → ((bs : Bytes) → length (c.blake3 bs) ≡ 32)
        → IsValue p (registry_snapshot.to_cbor_value (published sign) false)
        → length (preimage_of (published sign)) < 2 ^ 64
        → IsVerifiable key (stored_as sign to_vec)
    unfolding published hashed hash_of snapshot_receipt_of facts_of
    stored_as-IsVerifiable law sign to_vec key l v s ls strict lh hv hl = record {
      facts = facts_of registry_snapshot-IsReceipt (published sign);
      accepted =
          verify_receipt-to_canonical_cbor registry_snapshot-IsReceipt p c law (published sign) key
            (preimage_of (published sign))
            ((verify_receipt_signature_iff registry_snapshot-IsReceipt p c (published sign) key).1
              (published-IsSigned sign key l v s))
            (lh _) (ls (preimage_of hashed)) (λ m. strict m (sign (preimage_of hashed))) hv
            (to_canonical_cbor-preimage_of (published sign)) hl;
      same_hash = refl;
      same_kid = refl;
      same_root = root_of-published sign lh;
      entries = verify_snapshot-published sign;
    }

    -- If the key is one of 32 bytes, the signer returns for every message a signature of 64 bytes that
    -- verifies under it, `verify_strict` takes what `verify` takes under the key, digests have 32 bytes,
    -- and the signed receipt is a value of the program whose encoding is shorter than 2 ^ 64 bytes, then
    -- planning a snapshot and signing it returns, without a panic, a row for the table whose receipt
    -- the offline verifier accepts under the key, with the row's hash, key id and root, and whose root is
    -- the one that the verifier computes from the servers of the snapshot.
    pub stored_snapshot-IsVerifiable :
        (law : IsLawful p) (sign : Bytes → Bytes) (to_vec : Json → Bytes) (key : Bytes)
        → length key ≡ 32
        → c.valid_key key ≡ true
        → ((m : Bytes) → c.verify key m (sign m) ≡ true)
        → ((m : Bytes) → length (sign m) ≡ 64)
        → ((m signature : Bytes)
            → c.verify key m signature ≡ true
            → c.verify_strict key m signature ≡ true)
        → ((bs : Bytes) → length (c.blake3 bs) ≡ 32)
        → IsValue p (registry_snapshot.to_cbor_value (published sign) false)
        → length (preimage_of (published sign)) < 2 ^ 64
        → (plan : SnapshotPlan) × (stored : StoredSnapshot) × (build_snapshot_plan p c current
              previous event_id snapshot_id scraped_at_ms previous_hash etag kid
            ≡ some plan)
          × (stored_snapshot p c
                (record { sign = λ m. ok (sign m); signer_kid = kid })
                to_vec
                plan.snapshot_receipt
                current
              ≡ ok stored)
          × IsVerifiable key stored
    stored_snapshot-IsVerifiable law sign to_vec key l v s ls strict lh hv hl = (
      _,
      _,
      build_snapshot_plan-hashed,
      stored_snapshot-stored_as sign to_vec,
      stored_as-IsVerifiable law sign to_vec key l v s ls strict lh hv hl,
    )
