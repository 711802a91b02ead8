-- ===== src/Examples/Skills.antt =====
-- A lockfile, its signature, and URIs.
use rcx_registry.Prelude.Texts.{
  to_ascii_lowercase, all_bytes, strip_prefix, split_once, rsplit_once, contains_byte,
}
use rcx_registry.Prelude.{
  ◌≡◌, ◌↔◌, refl, none, some, [], ◌∷◌, ◌++◌, Bytes, codes, bytes_eq_refl, replicate,
}
use rcx_registry.Prelude.Outcome.{ok, ◌>>=◌}
use rcx_registry.Crown.Json.{JsonText}
use rcx_registry.Crown.Receipt.{verify_receipt_signature}
use rcx_registry.Crown.Receipt.Kinds.Snapshots.{SkillSnapshotReceipt, skill_snapshot}
use rcx_registry.Skills.Lock.{
  SkillLock, LockEntry, signable, check_refs, is_git_sha_hex, is_lower_hex,
}
use rcx_registry.Skills.Sign.{
  ReceiptDraft, unhashed, prepare_receipt, sign_receipt, verify_lock_receipt,
}
use rcx_registry.Skills.Sign.Verifies.{
  Describes, verify_lock_receipt_iff, verify_lock_receipt-sign_receipt,
}
use rcx_registry.Skills.Uri.{
  SkillUri, parse, display, Registry, local, public_fallback, resolve_by_id, contains_dots,
  is_commit_id, parse_rest, parse_authority, parse_id, parse_version,
}
use rcx_registry.Skills.Uri.RoundTrip.{IsUri, parse-display, parse-IsUri}
use rcx_registry.Skills.Uri.Resolution.{IsChosen, resolve_by_id-IsChosen}
use rcx_registry.Examples.Toy.{toy_platform, toy_crypto, toy_key, toy_sign}

abbrev plain_text : JsonText
plain_text = record { number_text = λ n. []; quote = λ s. s }

abbrev commit : Bytes
commit = replicate 40 b'a'

abbrev skill_entry : LockEntry
skill_entry = record {
  source = codes "o/r";
  source_type = codes "github";
  skill_path = codes "SKILL.md";
  git_ref = commit;
  computed_hash = replicate 64 b'0';
}

abbrev one_skill : SkillLock
one_skill = record { version = 2; skills = (codes "a", skill_entry) ∷ [] }

one_skill-signable : signable one_skill ≡ ok tt
unfolding signable check_refs is_git_sha_hex is_lower_hex all_bytes
one_skill-signable = refl

abbrev draft : ReceiptDraft
draft = record {
  event_id = replicate 16 1;
  snapshot_id = replicate 16 2;
  signed_at_ms = 5;
  previous_snapshot_hash = none;
  signer_kid = codes "k";
}

verify_lock_receipt-sign_receipt_example :
    (receipt : SkillSnapshotReceipt) × ((prepare_receipt toy_platform toy_crypto plain_text
          one_skill draft
        >>= λ r. sign_receipt toy_platform toy_crypto plain_text r (λ m. ok (toy_sign toy_key m)))
      ≡ ok receipt)
    × (verify_lock_receipt toy_platform toy_crypto plain_text one_skill receipt toy_key ≡ ok tt)
verify_lock_receipt-sign_receipt_example =
    verify_lock_receipt-sign_receipt toy_platform toy_crypto plain_text one_skill draft
      (toy_sign toy_key) toy_key one_skill-signable refl refl
      (λ m. bytes_eq_refl (toy_sign toy_key m))

abbrev unsigned_receipt : SkillSnapshotReceipt
unsigned_receipt = unhashed toy_platform toy_crypto plain_text one_skill draft (replicate 32 0)

verify_lock_receipt_iff_example :
    (verify_lock_receipt toy_platform toy_crypto plain_text one_skill unsigned_receipt toy_key
      ≡ ok tt)
    ↔ ((verify_receipt_signature toy_platform toy_crypto unsigned_receipt toy_key ≡ ok tt)
        × Describes toy_platform toy_crypto plain_text unsigned_receipt one_skill)
verify_lock_receipt_iff_example =
    verify_lock_receipt_iff toy_platform toy_crypto plain_text one_skill unsigned_receipt toy_key

abbrev skill_uri : SkillUri
skill_uri = record { registry = codes "rcx.org"; skill_id = codes "a"; version = some commit }

skill_uri-IsUri : IsUri skill_uri
unfolding all_bytes contains_byte contains_dots is_git_sha_hex is_lower_hex
skill_uri-IsUri = record {
  registry_given = refl;
  registry_host = refl;
  id_given = refl;
  id_slash = refl;
  id_dots = refl;
  id_at = refl;
  version_pinned = refl;
}

parse-display_example : parse (display skill_uri) ≡ ok skill_uri
parse-display_example = parse-display skill_uri skill_uri-IsUri

-- the commit in upper case
abbrev shouted : Bytes
shouted = codes "skill://rcx.org/a@" ++ replicate 40 b'A'

parse-IsUri_example : IsUri skill_uri × (parse (display skill_uri) ≡ ok skill_uri)
unfolding parse parse_rest parse_authority parse_id parse_version strip_prefix split_once
    rsplit_once all_bytes contains_byte contains_dots is_commit_id to_ascii_lowercase
parse-IsUri_example = parse-IsUri shouted skill_uri refl

abbrev open_registry : Registry
open_registry = record { host = codes "open.org"; kind = public_fallback; lock = one_skill }

abbrev own_registry : Registry
own_registry = record { host = codes "rcx.org"; kind = local; lock = one_skill }

resolve_by_id-IsChosen_example :
    IsChosen
      (codes "a")
      (open_registry ∷ own_registry ∷ [])
      (resolve_by_id (codes "a") (open_registry ∷ own_registry ∷ []))
resolve_by_id-IsChosen_example =
    resolve_by_id-IsChosen (codes "a") (open_registry ∷ own_registry ∷ [])
