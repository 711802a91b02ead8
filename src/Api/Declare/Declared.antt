-- ===== src/Api/Declare/Declared.antt =====
-- What `declare_publisher_enrichment` has checked when it stores a record.
use mathlib.Core.List.{Memᴰ}
use rcx_registry.Prelude.{ℕ, ◌≡◌, Option, some, List, ◌++◌, Bytes, codes}
use rcx_registry.Prelude.Outcome as Outcome
use rcx_registry.Prelude.Outcome.{ok}
use rcx_registry.Crown.Crypto.{Crypto}
use rcx_registry.Crown.Float.{Platform}
use rcx_registry.Crown.Json.{Json, JsonText}
use rcx_registry.Admin.Pop.{Hex}
use rcx_registry.Admin.Pop.Accepts.{IsProof}
use rcx_registry.Admin.Namespace.{reverse_dns, NamespaceClaim, PublisherRightsRecord}
use rcx_registry.Admin.Namespace.Control.{IsClaimOf}
use rcx_registry.Enrich.{EnrichError}
use rcx_registry.Enrich.Blocks.{PublisherEnrichmentRecord}
use rcx_registry.Enrich.Declaration.{PublisherDeclaration, validate_publisher_declaration_value}
use rcx_registry.Api.Stores.{lookup_right, get_enrichment}
use rcx_registry.Api.State.{ApiState}
use rcx_registry.Api.Control.{Services, nonce_binding, dns_label}
use rcx_registry.Api.Control.Granted.{IsSpent}
use rcx_registry.Api.Declare.{PublisherDeclareRequest, hash_text_of, enrichment_of}
use rcx_registry.Api.Declare.Steps.{Read, IsStored}

module _ (p : Platform) (c : Crypto) (h : Hex) (services : Services) (t : JsonText)
    (schema : Json → Option Bytes)
    (from_value : Json → Outcome.Outcome EnrichError PublisherDeclaration) where
  -- What has been checked when a declaration is stored.
  pub record IsDeclared (consumed_at : ℕ) (body : PublisherDeclareRequest) (read : Read)
      (s' : ApiState) (row : PublisherEnrichmentRecord) : Type 0 where
    pub claim : NamespaceClaim
    pub domain : Bytes
    pub values : List Bytes
    pub declaration : PublisherDeclaration
    pub rights : PublisherRightsRecord
    pub prior : Option PublisherEnrichmentRecord
    pub is_claim : IsClaimOf body.server_name claim
    pub is_dns : claim.kind ≡ reverse_dns domain
    pub is_spent :
        IsSpent read.0 s'.pop_nonces consumed_at body.nonce
          (nonce_binding p c h services claim body.passport_fingerprint body.public_key_hex)
    pub proof :
        IsProof c h body.nonce claim.server_name body.passport_fingerprint body.public_key_hex
          body.signature
    pub is_valid :
        validate_publisher_declaration_value schema from_value body.declaration
          (some body.server_name)
        ≡ ok declaration
    pub resolved : services.lookup_txt (codes "_rcx-registry." ++ domain) ≡ ok values
    pub named : Memᴰ body.passport_fingerprint values
    pub labelled : declaration.publisher_passport ≡ dns_label domain
    pub has_rights :
        lookup_right declaration.publisher_passport claim.namespace read.1.0 ≡ ok (some rights)
    pub has_prior : get_enrichment body.server_name read.1.1 ≡ ok prior
    pub same_name : row.server_name ≡ body.server_name
    pub same_passport : row.publisher_passport ≡ declaration.publisher_passport
    pub supersedes : row.supersedes_prior_receipt_hash ≡ hash_text_of prior
    pub found : get_enrichment row.server_name s'.publisher_enrichment_store ≡ ok (some row)

  -- What the steps behind the declaration's shape have checked.
  record IsUnder (claim : NamespaceClaim) (body : PublisherDeclareRequest)
      (declaration : PublisherDeclaration) (s s' : ApiState) (row : PublisherEnrichmentRecord)
      : Type 0 where
    pub domain : Bytes
    pub values : List Bytes
    pub rights : PublisherRightsRecord
    pub prior : Option PublisherEnrichmentRecord
    pub is_dns : claim.kind ≡ reverse_dns domain
    pub resolved : services.lookup_txt (codes "_rcx-registry." ++ domain) ≡ ok values
    pub named : Memᴰ body.passport_fingerprint values
    pub labelled : declaration.publisher_passport ≡ dns_label domain
    pub has_rights :
        lookup_right declaration.publisher_passport claim.namespace s.publisher_rights_store
        ≡ ok (some rights)
    pub has_prior : get_enrichment body.server_name s.publisher_enrichment_store ≡ ok prior
    pub is_row :
        enrichment_of p c h services t schema from_value body declaration rights prior ≡ ok row
    pub is_stored : IsStored s s' row
