-- ===== src/Api/Stores.antt =====
-- crates/rcx-registry-api/src/lib.rs: `InMemoryPublisherRightsStore` and
-- `InMemoryPublisherEnrichmentStore`. A store's mutex is a flag that says whether it is poisoned.
use rcx_registry.Prelude.{
  Bool, false, ◌&&◌, Option, none, some, List, [], ◌∷◌, Bytes, codes, bytes_eq, lex_le,
  if◌then◌else◌, keep, sort_by,
}
use rcx_registry.Prelude.Outcome.{ok, err}
use rcx_registry.Admin.Namespace.{PublisherRightsRecord}
use rcx_registry.Enrich.Blocks.{PublisherEnrichmentRecord}
use rcx_registry.Api.Errors.{Api, store}

-- A map from names to enrichments or from passports and namespaces to rights.
pub record Records (A : Type 0) : Type 0 where
  pub poisoned : Bool
  pub rows : List A

abbrev pub no_records : {A : Type 0} → Records A
no_records = record { poisoned = false; rows = [] }

abbrev pub with_rows : {A : Type 0} → Records A → List A → Records A
with_rows s rows = record { poisoned = s.poisoned; rows = rows }

-- `BTreeMap::insert`, of a value under the key it holds
unfoldable pub put_row : {A : Type 0} → (A → Bool) → A → List A → List A
put_row same new_row [] = new_row ∷ []
put_row same new_row (row ∷ rows) =
    let rest = put_row same new_row rows in if same row then new_row ∷ rows else row ∷ rest

-- `BTreeMap::get`
unfoldable pub get_row : {A : Type 0} → (A → Bool) → List A → Option A
get_row same [] = none
get_row same (row ∷ rows) = let rest = get_row same rows in if same row then some row else rest

abbrev pub RightsStore : Type 0
RightsStore = Records PublisherRightsRecord

abbrev pub is_right : Bytes → Bytes → PublisherRightsRecord → Bool
is_right passport namespace row =
    bytes_eq row.publisher_passport passport && bytes_eq row.namespace namespace

abbrev pub rights_poisoned : Bytes
rights_poisoned = codes "publisher rights mutex poisoned"

unfoldable pub upsert_right : PublisherRightsRecord → RightsStore → Api (Unit {0}) × RightsStore
unfolding put_row
upsert_right row s =
    if s.poisoned
    then (err (store rights_poisoned), s)
    else (ok tt, with_rows s (put_row (is_right row.publisher_passport row.namespace) row s.rows))

unfoldable pub list_by_publisher : Bytes → RightsStore → Api (List PublisherRightsRecord)
list_by_publisher passport s =
    if s.poisoned
    then err (store rights_poisoned)
    else ok (
        sort_by (λ left right. lex_le left.namespace right.namespace)
          (keep (λ row. bytes_eq row.publisher_passport passport) s.rows))

unfoldable pub lookup_right : Bytes → Bytes → RightsStore → Api (Option PublisherRightsRecord)
unfolding get_row
lookup_right passport namespace s =
    if s.poisoned
    then err (store rights_poisoned)
    else ok (get_row (is_right passport namespace) s.rows)

abbrev pub EnrichmentStore : Type 0
EnrichmentStore = Records PublisherEnrichmentRecord

abbrev pub is_enrichment : Bytes → PublisherEnrichmentRecord → Bool
is_enrichment server_name row = bytes_eq row.server_name server_name

abbrev pub enrichments_poisoned : Bytes
enrichments_poisoned = codes "publisher enrichment mutex poisoned"

unfoldable pub upsert_enrichment :
    PublisherEnrichmentRecord → EnrichmentStore → Api (Unit {0}) × EnrichmentStore
unfolding put_row
upsert_enrichment row s =
    if s.poisoned
    then (err (store enrichments_poisoned), s)
    else (ok tt, with_rows s (put_row (is_enrichment row.server_name) row s.rows))

unfoldable pub get_enrichment : Bytes → EnrichmentStore → Api (Option PublisherEnrichmentRecord)
unfolding get_row
get_enrichment server_name s =
    if s.poisoned
    then err (store enrichments_poisoned)
    else ok (get_row (is_enrichment server_name) s.rows)
