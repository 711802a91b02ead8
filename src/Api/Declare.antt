-- ===== src/Api/Declare.antt =====
-- crates/rcx-registry-api/src/lib.rs: the handler of a publisher's declaration. The schema, the reading
-- of a declaration and the clock's readings are parameters.
pub mod Steps
pub mod Declared
use rcx_registry.Prelude.{
  ℕ, not, Option, none, some, ◌∷◌, ◌++◌, Bytes, codes, bytes_eq, ◌==◌, if◌then◌else◌, length,
}
use rcx_registry.Prelude.Partial
use rcx_registry.Prelude.Texts.{strip_prefix}
use rcx_registry.Prelude.Outcome as Outcome
use rcx_registry.Prelude.Outcome.{ok, err, map_err}
use rcx_registry.Crown.Crypto.{Crypto}
use rcx_registry.Crown.Float.{Platform}
use rcx_registry.Crown.Json.{Json, JsonText}
use rcx_registry.Crown.Hashing.{declaration_hash}
use rcx_registry.Admin.Pop.{Hex, verify_pop}
use rcx_registry.Admin.Namespace.{
  NamespaceClaim, PublisherRightsRecord, classify_namespace, dns_txt_challenge, verify_dns_txt,
}
use rcx_registry.Crown.Receipt.Kinds.Entries.{EntryEnrichedReceipt}
use rcx_registry.Enrich.{
  EnrichError, http, json, schema_validation, declaration_name_mismatch, graph_edge_missing_node,
  duplicate_capability, missing_declaration_uri, negative_number, unexpected_status,
}
use rcx_registry.Enrich.Blocks.{PublisherEnrichmentPayload, PublisherEnrichmentRecord}
use rcx_registry.Enrich.Declaration.{PublisherDeclaration, validate_publisher_declaration_value}
use rcx_registry.Enrich.Receipts.{
  build_publisher_enrichment_payload, build_entry_enriched_receipt,
  build_publisher_enrichment_record,
}
use rcx_registry.Api.Errors.{Api, bad_request, verification_failed}
use rcx_registry.Api.Messages.{of_pop, of_admin}
use rcx_registry.Api.Stores.{lookup_right, get_enrichment}
use rcx_registry.Api.State.{
  ApiState, Handler, ◌>>=◌, lift, spawn_store, check_limit, consume_nonce, store_enrichment,
}
use rcx_registry.Api.Control.{
  Services, domain_or, dns_label, derived_event_id, default_publisher_signer_kid, nonce_binding,
}
use rcx_registry.Api.Requests.{client_key}

pub record PublisherDeclareRequest : Type 0 where
  pub server_name : Bytes
  pub declared_uri : Bytes
  pub declaration : Json
  pub passport_fingerprint : Bytes
  pub public_key_hex : Bytes
  pub nonce : Bytes
  pub signature : Bytes

-- the messages; the status of an unexpected answer is left out
unfoldable pub enrich_message : EnrichError → Bytes
enrich_message (http message) = codes "http: " ++ message
enrich_message (json message) = codes "json: " ++ message
enrich_message (schema_validation message) = codes "schema validation failed: " ++ message
enrich_message (declaration_name_mismatch expected actual) =
    codes "declaration mcp_name `"
    ++ (actual ++ (codes "` did not match expected `" ++ (expected ++ codes "`")))
enrich_message (graph_edge_missing_node source target) =
    codes "capability graph edge `"
    ++ (source ++ (codes "` -> `" ++ (target ++ codes "` references missing node")))
enrich_message (duplicate_capability capability) =
    codes "duplicate capability `" ++ (capability ++ codes "` in capability graph")
enrich_message missing_declaration_uri = codes "declaration metadata missing declaration-uri"
enrich_message negative_number =
    codes "negative numbers are not supported in canonical enrichment cbor"
enrich_message unexpected_status = codes "unexpected upstream status "

abbrev pub of_enrich : {A : Type 0} → Outcome.Outcome EnrichError A → Api A
of_enrich result = map_err (λ e. bad_request (enrich_message e)) result

abbrev declarations_only : Bytes
declarations_only = codes "declarations currently require a reverse-dns namespace"

-- the test of the publisher that a declaration names
unfoldable pub check_publisher : Bytes → Bytes → Api (Unit {0})
check_publisher expected_label passport =
    if not (bytes_eq passport expected_label)
    then err (
        verification_failed (
          codes "declaration names publisher `"
          ++ (passport
              ++ (codes "` but this namespace requires `" ++ (expected_label ++ codes "`")))))
    else ok tt

-- `ok_or_else`
unfoldable pub rights_or : Bytes → Bytes → Option PublisherRightsRecord → Api PublisherRightsRecord
rights_or passport namespace (some row) = ok row
rights_or passport namespace none = err (
    verification_failed (
      codes "publisher passport `"
      ++ (passport
          ++ (codes "` has no verified rights for namespace `" ++ (namespace ++ codes "`")))))

abbrev or_whole : Bytes → Option Bytes → Bytes
or_whole value (some rest) = rest
or_whole value none = value

unfoldable pub parse_blake3_prefixed_hash : (Bytes → Option Bytes) → Bytes → Option Bytes
parse_blake3_prefixed_hash decode_hex value =
    Partial.◌>>=◌ (decode_hex (or_whole value (strip_prefix (codes "blake3:") value)))
      λ bs. if not (length bs == 32) then none else some bs

abbrev pub receipt_hash_of : PublisherEnrichmentRecord → Bytes
receipt_hash_of row = row.block.enrichment_receipt_hash

-- `map` and `and_then` on the prior record
abbrev pub hash_text_of : Option PublisherEnrichmentRecord → Option Bytes
hash_text_of none = none
hash_text_of (some row) = some (receipt_hash_of row)

module _ (p : Platform) (c : Crypto) (h : Hex) (services : Services) (t : JsonText)
    (schema : Json → Option Bytes)
    (from_value : Json → Outcome.Outcome EnrichError PublisherDeclaration) where
  abbrev declaration_seed : PublisherDeclareRequest → PublisherDeclaration → Bytes
  declaration_seed body declaration =
      body.server_name
      ++ b':'
        ∷ (declaration.publisher_passport
            ++ b':' ∷ (body.declared_uri ++ b':' ∷ declaration.declared_at))

  abbrev pub payload_of :
      PublisherDeclareRequest
      → PublisherDeclaration
      → PublisherRightsRecord
      → PublisherEnrichmentPayload
  payload_of body declaration rights =
      build_publisher_enrichment_payload h.encode_hex declaration body.declared_uri
        (declaration_hash c.blake3 t body.declaration).0 rights.verification_method none

  unfoldable pub receipt_of :
      PublisherDeclareRequest
      → PublisherDeclaration
      → PublisherRightsRecord
      → Option PublisherEnrichmentRecord
      → Api EntryEnrichedReceipt
  unfolding derived_event_id
  receipt_of body declaration rights prior = of_enrich (
      build_entry_enriched_receipt p c body.server_name declaration body.declared_uri
        (declaration_hash c.blake3 t body.declaration).0 (payload_of body declaration rights)
        (derived_event_id c.blake3 (declaration_seed body declaration)) default_publisher_signer_kid
        (Partial.◌>>=◌ (hash_text_of prior) (parse_blake3_prefixed_hash h.decode_hex)))

  abbrev pub record_of :
      PublisherDeclareRequest
      → PublisherDeclaration
      → PublisherRightsRecord
      → Option PublisherEnrichmentRecord
      → EntryEnrichedReceipt
      → PublisherEnrichmentRecord
  record_of body declaration rights prior receipt =
      build_publisher_enrichment_record h.encode_hex body.server_name declaration
        (payload_of body declaration rights) receipt.receipt_hash (hash_text_of prior)

  -- the record of a declaration under rights, with the record it supersedes
  unfoldable pub enrichment_of :
      PublisherDeclareRequest
      → PublisherDeclaration
      → PublisherRightsRecord
      → Option PublisherEnrichmentRecord
      → Api PublisherEnrichmentRecord
  enrichment_of body declaration rights prior =
      Outcome.◌>>=◌ (receipt_of body declaration rights prior)
        λ receipt. ok (record_of body declaration rights prior receipt)

  -- behind the declaration's shape: the domain, the label and the rights
  unfoldable pub declare_under :
      NamespaceClaim
      → PublisherDeclareRequest
      → PublisherDeclaration
      → Handler PublisherEnrichmentRecord
  declare_under claim body declaration = do
    domain ← lift (domain_or declarations_only claim.kind)
    let challenge = dns_txt_challenge domain body.passport_fingerprint
    observed ← lift (services.lookup_txt challenge.record_name)
    _ ← lift (of_admin (verify_dns_txt claim body.passport_fingerprint observed))
    _ ← lift (check_publisher (dns_label domain) declaration.publisher_passport)
    λ s.
        (do
          found ←
              lift (
                lookup_right declaration.publisher_passport claim.namespace
                  s.publisher_rights_store)
          rights ← lift (rights_or declaration.publisher_passport claim.namespace found)
          prior ← lift (get_enrichment body.server_name s.publisher_enrichment_store)
          row ← lift (enrichment_of body declaration rights prior)
          _ ← store_enrichment row
          lift (ok row))
          s

  -- the closure
  unfoldable pub declare : ℕ → PublisherDeclareRequest → Handler PublisherEnrichmentRecord
  declare consumed_at body = do
    claim ← lift (of_admin (classify_namespace body.server_name))
    _ ←
        consume_nonce consumed_at body.nonce
          (nonce_binding p c h services claim body.passport_fingerprint body.public_key_hex)
    _ ← lift (
        of_pop (
          verify_pop c h body.nonce claim.server_name body.passport_fingerprint body.public_key_hex
            body.signature))
    declaration ← lift (
        of_enrich (
          validate_publisher_declaration_value schema from_value body.declaration
            (some body.server_name)))
    declare_under claim body declaration

  unfoldable pub declare_publisher_enrichment :
      ℕ → ℕ → Option Bytes → PublisherDeclareRequest → Handler PublisherEnrichmentRecord
  declare_publisher_enrichment received_at consumed_at forwarded body = do
    _ ← check_limit received_at (client_key forwarded)
    λ s. spawn_store (declare consumed_at body s)
