-- ===== src/Api/Declare/Steps.antt =====
-- What the steps of `declare_publisher_enrichment` have done where they returned a value.
use mathlib.Core.Path.{subst}
use rcx_registry.Prelude.{
  ℕ, ◌≡◌, refl, sym, ap, inl, inr, Option, some, Bytes, bytes_eq_refl, eq_of_bytes_eq, Bool-cases,
  arith,
}
use rcx_registry.Prelude.Outcome.{ok}
use rcx_registry.Admin.Pop.Nonces.{NonceStore, NonceBinding}
use rcx_registry.Admin.Namespace.{PublisherRightsRecord}
use rcx_registry.Enrich.Blocks.{PublisherEnrichmentRecord}
use rcx_registry.Api.Errors.{Api}
use rcx_registry.Api.Stores.{
  RightsStore, EnrichmentStore, is_enrichment, get_enrichment, upsert_enrichment,
}
use rcx_registry.Api.State.{ApiState, check_limit, consume_nonce, store_enrichment}
use rcx_registry.Api.State.Calls.{get_row-put_row}
use rcx_registry.Api.Declare.{check_publisher, rights_or}

-- The stores that a declaration reads.
abbrev pub Read : Type 0
Read = NonceStore × (RightsStore × EnrichmentStore)

abbrev pub read_of : ApiState → Read
read_of s = (s.pop_nonces, (s.publisher_rights_store, s.publisher_enrichment_store))

pub publisher_sound :
    (expected passport : Bytes) → check_publisher expected passport ≡ ok tt → passport ≡ expected
unfolding check_publisher
publisher_sound expected passport h = ground (arith, eq_of_bytes_eq passport expected)

pub rights_sound :
    (passport namespace : Bytes) (found : Option PublisherRightsRecord)
    (row : PublisherRightsRecord)
    → rights_or passport namespace found ≡ ok row
    → found ≡ some row
unfolding rights_or
rights_sound passport namespace found row h = ground arith

pub limited :
    (now : ℕ) (client : Bytes) (s t : ApiState)
    → check_limit now client s ≡ (ok tt, t)
    → read_of t ≡ read_of s
unfolding check_limit
limited now client s t e = sym (ap (λ r. read_of r.1) e)

pub get_enrichment-upsert_enrichment :
    (row : PublisherEnrichmentRecord) (s : EnrichmentStore)
    → (upsert_enrichment row s).0 ≡ ok tt
    → get_enrichment row.server_name (upsert_enrichment row s).1 ≡ ok (some row)
unfolding upsert_enrichment get_enrichment
get_enrichment-upsert_enrichment row s h = elim (Bool-cases s.poisoned) [
  | inl y ↦ absurd (ground arith)
  | inr n ↦ rw (
    n,
    get_row-put_row (is_enrichment row.server_name) row s.rows (bytes_eq_refl row.server_name),
  )
]

pub same_row :
    (o : Api PublisherEnrichmentRecord) (a b : PublisherEnrichmentRecord)
    → o ≡ ok a
    → o ≡ ok b
    → a ≡ b
same_row o a b h k = cc

-- An enrichment was stored, and the nonces are as before.
pub record IsStored (s s' : ApiState) (row : PublisherEnrichmentRecord) : Type 0 where
  pub found : get_enrichment row.server_name s'.publisher_enrichment_store ≡ ok (some row)
  pub same_nonces : s'.pop_nonces ≡ s.pop_nonces
  pub same_rights : s'.publisher_rights_store ≡ s.publisher_rights_store

pub stored :
    (row : PublisherEnrichmentRecord) (s s' : ApiState)
    → store_enrichment row s ≡ (ok tt, s')
    → IsStored s s' row
unfolding store_enrichment
stored row s s' e =
    subst (λ t. IsStored s t row) (ap (λ r. r.1) e)
      (record {
        found = get_enrichment-upsert_enrichment row s.publisher_enrichment_store (ap (λ r. r.0) e);
        same_nonces = refl;
        same_rights = refl;
      })

pub consumed_read :
    (now : ℕ) (nonce : Bytes) (binding : NonceBinding) (s t : ApiState)
    → consume_nonce now nonce binding s ≡ (ok tt, t)
    → (read_of t).1 ≡ (read_of s).1
unfolding consume_nonce
consumed_read now nonce binding s t e = sym (ap (λ r. (read_of r.1).1) e)
