-- ===== src/Skills/Sign.antt =====
-- crates/rcx-registry-skills/src/sign.rs: signing a lockfile, and checking a signature over one. A
-- receipt that is changed in place is returned; `none` and `panic` stand for the encoder's panic.
pub mod Verifies
use rcx_registry.Prelude.{
  ℕ, not, Option, none, some, List, [], ◌∷◌, map, Bytes, codes, bytes_eq, ◌==◌, if◌then◌else◌,
  length, replicate,
}
use rcx_registry.Prelude.Outcome.{Outcome, ok, err, or_panic, map_err, ◌>>=◌}
use rcx_registry.Crown.Crypto.{Crypto}
use rcx_registry.Crown.Float.{Platform}
use rcx_registry.Crown.Json.{JsonText, Json, string, object, no_members, member}
use rcx_registry.Crown.Hashing.{SnapshotEntry, canonicalize_json, snapshot_merkle_root}
use rcx_registry.Crown.Receipt.{
  hash_len, signature_len, compute_hash, to_canonical_cbor, verify_receipt_signature,
}
use rcx_registry.Crown.Receipt.Kinds.Snapshots.{SkillSnapshotReceipt, skill_snapshot}
use rcx_registry.Skills.Errors.{
  SkillsError, not_signable, signature_refused, root_differs, lock_version_differs,
  skill_count_differs,
}
use rcx_registry.Skills.Lock.{SkillLock, LockEntry, signable}

pub record ReceiptDraft : Type 0 where
  pub event_id : Bytes
  pub snapshot_id : Bytes
  pub signed_at_ms : ℕ
  pub previous_snapshot_hash : Option Bytes
  pub signer_kid : Bytes

-- the `json!` of an entry
unfoldable pub entry_json : LockEntry → Json
entry_json e = object (
    member (codes "source") (string e.source) (
      member (codes "sourceType") (string e.source_type) (
        member (codes "skillPath") (string e.skill_path) (
          member (codes "ref") (string e.git_ref)
            (member (codes "computedHash") (string e.computed_hash) no_members)))))

unfoldable pub digest_entry : JsonText → Bytes × LockEntry → SnapshotEntry
digest_entry t (name, e) = record {
  name = name;
  version = e.git_ref;
  canonical_json = canonicalize_json t (entry_json e);
}

unfoldable pub digest_entries : JsonText → SkillLock → List SnapshotEntry
digest_entries t lock = map (digest_entry t) lock.skills

module _ (p : Platform) (c : Crypto) (t : JsonText) where
  unfoldable pub lock_merkle_root : SkillLock → Outcome SkillsError Bytes
  lock_merkle_root lock = do
    _ ← signable lock
    ok (snapshot_merkle_root c.blake3 (digest_entries t lock))

  -- `receipt.receipt_hash = …`, `receipt.receipt_signature = …`
  abbrev pub with_hash : SkillSnapshotReceipt → Bytes → SkillSnapshotReceipt
  with_hash r hash = record {
    event_id = r.event_id;
    snapshot_id = r.snapshot_id;
    signed_at_ms = r.signed_at_ms;
    skill_count = r.skill_count;
    lock_version = r.lock_version;
    lock_merkle_root = r.lock_merkle_root;
    previous_snapshot_hash = r.previous_snapshot_hash;
    receipt_hash = hash;
    receipt_signature = r.receipt_signature;
    signer_kid = r.signer_kid;
  }

  abbrev pub with_signature : SkillSnapshotReceipt → Bytes → SkillSnapshotReceipt
  with_signature r signature = record {
    event_id = r.event_id;
    snapshot_id = r.snapshot_id;
    signed_at_ms = r.signed_at_ms;
    skill_count = r.skill_count;
    lock_version = r.lock_version;
    lock_merkle_root = r.lock_merkle_root;
    previous_snapshot_hash = r.previous_snapshot_hash;
    receipt_hash = r.receipt_hash;
    receipt_signature = signature;
    signer_kid = r.signer_kid;
  }

  -- the receipt before its hash is computed
  unfoldable pub unhashed : SkillLock → ReceiptDraft → Bytes → SkillSnapshotReceipt
  unhashed lock draft root = record {
    event_id = draft.event_id;
    snapshot_id = draft.snapshot_id;
    signed_at_ms = draft.signed_at_ms;
    skill_count = length lock.skills;
    lock_version = lock.version;
    lock_merkle_root = root;
    previous_snapshot_hash = draft.previous_snapshot_hash;
    receipt_hash = replicate hash_len 0;
    receipt_signature = replicate signature_len 0;
    signer_kid = draft.signer_kid;
  }

  unfoldable pub prepare_receipt :
      SkillLock → ReceiptDraft → Outcome SkillsError SkillSnapshotReceipt
  unfolding unhashed
  prepare_receipt lock draft = do
    root ← lock_merkle_root lock
    hash ← or_panic (compute_hash p c (unhashed lock draft root))
    ok (with_hash (unhashed lock draft root) hash)

  unfoldable pub signing_preimage : SkillSnapshotReceipt → Option Bytes
  signing_preimage receipt =
      to_canonical_cbor p c (with_signature receipt (replicate signature_len 0))

  unfoldable pub sign_receipt {ℓ} :
      {E : Type ℓ}
      → SkillSnapshotReceipt
      → (Bytes → Outcome E Bytes)
      → Outcome E SkillSnapshotReceipt
  unfolding signing_preimage
  sign_receipt receipt sign = do
    hash ← or_panic (compute_hash p c receipt)
    preimage ← or_panic (signing_preimage (with_hash receipt hash))
    signature ← sign preimage
    ok (with_signature (with_hash receipt hash) signature)

  -- the three comparisons, with the root first
  unfoldable pub compare_lock :
      SkillLock → SkillSnapshotReceipt → Bytes → Outcome SkillsError (Unit {0})
  compare_lock lock receipt recomputed =
      if not (bytes_eq recomputed receipt.lock_merkle_root)
      then err (not_signable root_differs)
      else if not (lock.version == receipt.lock_version)
      then err (not_signable (lock_version_differs receipt.lock_version lock.version))
      else if not (length lock.skills == receipt.skill_count)
      then err (not_signable (skill_count_differs receipt.skill_count (length lock.skills)))
      else ok tt

  unfoldable pub verify_lock_receipt :
      SkillLock → SkillSnapshotReceipt → Bytes → Outcome SkillsError (Unit {0})
  unfolding compare_lock
  verify_lock_receipt lock receipt public_key = do
    _ ←
        map_err (λ e. not_signable (signature_refused e))
          (verify_receipt_signature p c receipt public_key)
    recomputed ← lock_merkle_root lock
    compare_lock lock receipt recomputed
