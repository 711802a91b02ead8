-- ===== src/Verify/Chain.antt =====
-- `verify_history` of crates/rcx-verify/src/lib.rs: the loop over the links of a receipt chain.
pub mod Links
use rcx_registry.Prelude.{
  ℕ, suc, not, Option, none, some, List, [], ◌∷◌, Bytes, codes, bytes_eq, ◌==◌, if◌then◌else◌,
  length,
}
use rcx_registry.Prelude.Outcome.{Outcome, ok, err, map_err, ◌>>=◌}
use rcx_registry.Crown.Crypto.{Crypto}
use rcx_registry.Crown.Float.{Platform}
use rcx_registry.Crown.Cbor.Value.{CborValue, bytes}
use rcx_registry.Crown.Cbor.Decode.{decode}
use rcx_registry.Crown.Receipt.{hash_len}
use rcx_registry.Verify.Errors.{VerifyError, missing_field, chain_broken, decode_error, crown}
use rcx_registry.Verify.Fields.{lookup}
use rcx_registry.Verify.Receipt.{ReceiptFacts, field_snapshot_root, fields_of, verify_receipt}

-- Which field carries the link back, and what it points at.
pub data ChainKind : Type 0 where
  snapshot entry_enriched : ChainKind

abbrev pub field_previous_snapshot_hash : Bytes
field_previous_snapshot_hash = codes "previous_snapshot_hash"

abbrev pub field_supersedes_prior : Bytes
field_supersedes_prior = codes "supersedes_prior"

-- the root that a snapshot's link has to name
abbrev pub root_field : Option Bytes → Outcome VerifyError (Bytes × Bytes)
root_field none = err (missing_field field_snapshot_root)
root_field (some root) = ok (field_previous_snapshot_hash, root)

-- the `match kind`
unfoldable pub back_reference : ChainKind → ReceiptFacts → Outcome VerifyError (Bytes × Bytes)
back_reference snapshot prior = root_field prior.snapshot_root
back_reference entry_enriched prior = ok (field_supersedes_prior, prior.receipt_hash)

-- the `match` on the field that was found
unfoldable pub actual_link : ℕ → Option CborValue → Outcome VerifyError Bytes
actual_link index (some (bytes bs)) =
    if length bs == hash_len then ok bs else err (chain_broken index)
actual_link index _ = err (chain_broken index)

unfoldable pub check_link :
    Platform → ChainKind → ℕ → ReceiptFacts → Bytes → Outcome VerifyError (Unit {0})
check_link p kind index prior link = do
  value ← map_err (λ e. decode_error (crown e)) (decode p link)
  fields ← fields_of value
  (link_field, expected) ← back_reference kind prior
  actual ← actual_link index (lookup link_field fields)
  if not (bytes_eq actual expected) then err (chain_broken index) else ok tt

-- `if let Some(prior) = &previous`
unfoldable pub check_previous :
    Platform → ChainKind → ℕ → Option ReceiptFacts → Bytes → Outcome VerifyError (Unit {0})
check_previous p kind index none link = ok tt
check_previous p kind index (some prior) link = check_link p kind index prior link

module _ (p : Platform) (c : Crypto) (public_key : Bytes) (kind : ChainKind) where
  unfoldable pub verify_links :
      Option ReceiptFacts → ℕ → List Bytes → Outcome VerifyError (Unit {0})
  verify_links previous index [] = ok tt
  verify_links previous index (link ∷ links) = do
    facts ← verify_receipt p c link public_key
    _ ← check_previous p kind index previous link
    verify_links (some facts) (suc index) links

unfoldable pub verify_history :
    Platform → Crypto → List Bytes → Bytes → ChainKind → Outcome VerifyError (Unit {0})
unfolding verify_links
verify_history p c links public_key kind = verify_links p c public_key kind none 0 links
