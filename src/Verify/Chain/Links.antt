-- ===== src/Verify/Chain/Links.antt =====
-- What `verify_history` accepts: chains, as a relation on the links.
use rcx_registry.Prelude.{
  ℕ, suc, ◌≡◌, refl, sym, ap, ◌∙◌, ◌↔◌, not, Option, none, some, List, [], ◌∷◌, Bytes, bytes_eq,
  bytes_eq_refl, eq_of_bytes_eq, if◌then◌else◌, length, arith,
}
use rcx_registry.Prelude.Outcome.{ok, err, map_err, >>=-eq-ok}
use rcx_registry.Crown.Crypto.{Crypto}
use rcx_registry.Crown.Float.{Platform}
use rcx_registry.Crown.Cbor.Value.{CborValue, uint, bytes, text, array, object, bool, null, float}
use rcx_registry.Crown.Cbor.Decode.{decode}
use rcx_registry.Verify.Errors.{chain_broken, decode_error, crown}
use rcx_registry.Verify.Fields.{lookup}
use rcx_registry.Verify.Receipt.{ReceiptFacts, fields_of, verify_receipt}
use rcx_registry.Verify.Receipt.Sound.{IsSoundReceipt, verify_receipt_iff, decoded_ok}
use rcx_registry.Verify.Chain.{
  ChainKind, snapshot, entry_enriched, field_previous_snapshot_hash, field_supersedes_prior,
  root_field, back_reference, actual_link, check_link, check_previous, verify_links, verify_history,
}

-- the field of a link that refers back
abbrev pub link_field : ChainKind → Bytes
link_field snapshot = field_previous_snapshot_hash
link_field entry_enriched = field_supersedes_prior

-- what it has to hold
abbrev pub link_target : ChainKind → ReceiptFacts → Option Bytes
link_target snapshot prior = prior.snapshot_root
link_target entry_enriched prior = some prior.receipt_hash

module _ (p : Platform) (kind : ChainKind) where
  -- A link refers back to the receipt before it.
  pub record LinksBack (prior : ReceiptFacts) (link : Bytes) : Type 0 where
    pub value : CborValue
    pub fields : List (Bytes × CborValue)
    pub target : Bytes
    pub decoded : decode p link ≡ ok value
    pub is_map : fields_of value ≡ ok fields
    pub points_at : link_target kind prior ≡ some target
    pub target_length : length target ≡ 32
    pub refers : lookup (link_field kind) fields ≡ some (bytes target)

  -- The links of a chain, behind the receipt that comes before them: each is a sound receipt, and each
  -- that has a predecessor refers back to it.
  pub data IsChain (c : Crypto) (key : Bytes) : Option ReceiptFacts → List Bytes → Type 0 where
    chain_end : {previous : Option ReceiptFacts} → IsChain c key previous []
    chain_start :
        {facts : ReceiptFacts} {link : Bytes} {links : List Bytes}
        → IsSoundReceipt p c link key facts
        → IsChain c key (some facts) links
        → IsChain c key none (link ∷ links)
    chain_next :
        {prior facts : ReceiptFacts} {link : Bytes} {links : List Bytes}
        → IsSoundReceipt p c link key facts
        → LinksBack prior link
        → IsChain c key (some facts) links
        → IsChain c key (some prior) (link ∷ links)

root_field_sound :
    (o : Option Bytes) (field expected : Bytes)
    → root_field o ≡ ok (field, expected)
    → (field ≡ field_previous_snapshot_hash) × (o ≡ some expected)
root_field_sound none field expected h = cc
root_field_sound (some root) field expected h = (cc, cc)

reference_sound :
    (kind : ChainKind) (prior : ReceiptFacts) (field expected : Bytes)
    → back_reference kind prior ≡ ok (field, expected)
    → (field ≡ link_field kind) × (link_target kind prior ≡ some expected)
unfolding back_reference
reference_sound snapshot prior field expected h =
    root_field_sound prior.snapshot_root field expected h
reference_sound entry_enriched prior field expected h = (cc, cc)

reference_complete :
    (kind : ChainKind) (prior : ReceiptFacts) (expected : Bytes)
    → link_target kind prior ≡ some expected
    → back_reference kind prior ≡ ok (link_field kind, expected)
unfolding back_reference
reference_complete snapshot prior expected h = rw h
reference_complete entry_enriched prior expected h = cc

actual_sound :
    (index : ℕ) (o : Option CborValue) (actual : Bytes)
    → actual_link index o ≡ ok actual
    → (o ≡ some (bytes actual)) × (length actual ≡ 32)
unfolding actual_link
actual_sound index none actual h = cc
actual_sound index (some (bytes bs)) actual h = ground arith
actual_sound index (some (uint n)) actual h = cc
actual_sound index (some (text s)) actual h = cc
actual_sound index (some (array xs)) actual h = cc
actual_sound index (some (object ps)) actual h = cc
actual_sound index (some (bool b)) actual h = cc
actual_sound index (some null) actual h = cc
actual_sound index (some (float x)) actual h = cc

equal_bytes :
    (index : ℕ) (actual expected : Bytes)
    → (if not (bytes_eq actual expected) then err (chain_broken index) else ok (tt {0}))
      ≡ ok (tt {0})
    → actual ≡ expected
equal_bytes index actual expected h = ground (arith, eq_of_bytes_eq actual expected)

link_back :
    (p : Platform) (kind : ChainKind) (index : ℕ) (prior : ReceiptFacts) (link : Bytes)
    → check_link p kind index prior link ≡ ok tt
    → LinksBack p kind prior link
unfolding check_link
link_back p kind index prior link h =
    let (value, e0, h0) = >>=-eq-ok (map_err (λ e. decode_error (crown e)) (decode p link)) _ h in
    let (fields, e1, h1) = >>=-eq-ok (fields_of value) _ h0 in
    let ((field, expected), e2, h2) = >>=-eq-ok (back_reference kind prior) _ h1 in
    let (actual, e3, h3) = >>=-eq-ok (actual_link index (lookup field fields)) _ h2 in
    let (f, t) = reference_sound kind prior field expected e2 in
    let (r, l) = actual_sound index (lookup field fields) actual e3 in
    let same = equal_bytes index actual expected h3 in
    record {
      value = value;
      fields = fields;
      target = actual;
      decoded = decoded_ok (decode p link) value e0;
      is_map = e1;
      points_at = t ∙ ap some (sym same);
      target_length = l;
      refers = ap (λ k. lookup k fields) (sym f) ∙ r;
    }

check_link_complete :
    (p : Platform) (kind : ChainKind) (index : ℕ) (prior : ReceiptFacts) (link : Bytes)
    → LinksBack p kind prior link
    → check_link p kind index prior link ≡ ok tt
unfolding check_link actual_link
check_link_complete p kind index prior link s = rw (
  s.decoded,
  s.is_map,
  reference_complete kind prior s.target s.points_at,
  s.refers,
  s.target_length,
  bytes_eq_refl s.target,
)

module _ (p : Platform) (c : Crypto) (key : Bytes) (kind : ChainKind) where
  links_sound :
      (previous : Option ReceiptFacts) (index : ℕ) (links : List Bytes)
      → verify_links p c key kind previous index links ≡ ok tt
      → IsChain p kind c key previous links
  unfolding verify_links check_previous
  links_sound previous index [] h = chain_end
  links_sound none index (link ∷ links) h =
      let (facts, e, h') = >>=-eq-ok (verify_receipt p c link key) _ h in
      chain_start ((verify_receipt_iff p c link key facts).0 e)
        (links_sound (some facts) (suc index) links h')
  links_sound (some prior) index (link ∷ links) h =
      let (facts, e, h') = >>=-eq-ok (verify_receipt p c link key) _ h in
      let (_, e', h'') = >>=-eq-ok (check_link p kind index prior link) _ h' in
      chain_next ((verify_receipt_iff p c link key facts).0 e)
        (link_back p kind index prior link e') (links_sound (some facts) (suc index) links h'')

  links_complete :
      (index : ℕ) {previous : Option ReceiptFacts} {links : List Bytes}
      → IsChain p kind c key previous links
      → verify_links p c key kind previous index links ≡ ok tt
  unfolding verify_links check_previous
  links_complete index chain_end = refl
  links_complete index (chain_start {facts} {link} s h) =
      rw ((verify_receipt_iff p c link key facts).1 s) (links_complete (suc index) h)
  links_complete index (chain_next {prior} {facts} {link} s b h) =
      rw
        ((verify_receipt_iff p c link key facts).1 s, check_link_complete p kind index prior link b)
        (links_complete (suc index) h)

  -- `verify_history` accepts a list of links exactly if each is a sound receipt under the key and each
  -- but the first decodes to a map whose field for this kind of chain holds the 32 bytes that the
  -- link before it has as its snapshot root, or as its receipt hash.
  pub verify_history_iff :
      (links : List Bytes)
      → (verify_history p c links key kind ≡ ok tt) ↔ IsChain p kind c key none links
  unfolding verify_history
  verify_history_iff links = (links_sound none 0 links, links_complete 0)
