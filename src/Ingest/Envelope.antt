-- ===== src/Ingest/Envelope.antt =====
-- crates/rcx-registry-ingest/src/lib.rs: what the upstream registry lists, and what is mirrored of it.
-- The schemas that servers are validated by are a function; `jsonschema` is not code of the crate.
use rcx_registry.Prelude.{
  ℕ, zero, suc, Bool, true, ◌&&◌, ◌||◌, Option, none, some, List, [], ◌∷◌, ◌++◌, Bytes, codes,
  bytes_eq, ◌==◌, ltb, if◌then◌else◌, length,
}
use rcx_registry.Prelude.Partial
use rcx_registry.Prelude.Outcome.{Outcome, ok, err, ◌>>=◌}
use rcx_registry.Prelude.Texts.{split_at_text, split_on, split_once, is_ascii_digit}
use rcx_registry.Crown.Json.{JsonText, Json, get_key, as_str}
use rcx_registry.Crown.Hashing.{canonicalize_json}
use rcx_registry.Ingest.{MirroredServer}

pub data IngestError : Type 0 where
  http : Bytes → IngestError
  json : Bytes → IngestError
  missing_field : Bytes → IngestError
  invalid_field : Bytes → IngestError
  invalid_schema_uri : Bytes → IngestError
  unknown_schema : Bytes → IngestError
  schema_validation : Bytes → Bytes → IngestError
  unexpected_status : ℕ → IngestError

pub record OfficialRegistryMeta : Type 0 where
  pub status : Bytes
  pub status_changed_at : Option Bytes
  pub published_at : Option Bytes
  pub updated_at : Option Bytes
  pub is_latest : Bool

-- the keys of `extra` are distinct
pub record RegistryServerMeta : Type 0 where
  pub official : OfficialRegistryMeta
  pub extra : List (Bytes × Json)

pub record RegistryServerEnvelope : Type 0 where
  pub server : Json
  pub meta : RegistryServerMeta

pub record RegistryListMetadata : Type 0 where
  pub next_cursor : Option Bytes
  pub count : ℕ

pub record RegistryServerListResponse : Type 0 where
  pub servers : List RegistryServerEnvelope
  pub metadata : RegistryListMetadata

-- `BTreeMap::insert`, where the order of the keys does not matter
unfoldable pub insert_extra : Bytes → Json → List (Bytes × Json) → List (Bytes × Json)
insert_extra key value [] = (key, value) ∷ []
insert_extra key value ((k, v) ∷ extra) =
    let rest = insert_extra key value extra in
    if bytes_eq k key then (k, value) ∷ extra else (k, v) ∷ rest

-- `BTreeMap::get`
unfoldable pub get_extra : Bytes → List (Bytes × Json) → Option Json
get_extra key [] = none
get_extra key ((k, v) ∷ extra) = if bytes_eq k key then some v else get_extra key extra

unfoldable pub insert_extension : Bytes → Json → RegistryServerMeta → RegistryServerMeta
insert_extension key value m = record m { extra = insert_extra key value m.extra }

-- `bytes[index]`, within the bytes
abbrev byte_at : ℕ → Bytes → ℕ
byte_at index [] = 0
byte_at zero (b ∷ bs) = b
byte_at (suc index) (b ∷ bs) = byte_at index bs

-- `enumerate().all`, from an index on
all_digits_from : ℕ → Bytes → Bool
all_digits_from index [] = true
all_digits_from index (b ∷ bs) =
    (index == 4 || index == 7 || is_ascii_digit b) && all_digits_from (suc index) bs

unfoldable pub is_schema_date : Bytes → Bool
unfolding all_digits_from
is_schema_date date =
    length date == 10 && byte_at 4 date == b'-' && byte_at 7 date == b'-' && all_digits_from 0 date

-- `split(marker).nth(1)`: what is behind the first marker, up to the second
abbrev up_to_next : Bytes → Bytes → Option (Bytes × Bytes) → Bytes
up_to_next marker text none = text
up_to_next marker text (some (before, after)) = before

unfoldable pub between_markers : Bytes → Bytes → Option Bytes
between_markers marker text =
    Partial.◌>>=◌ (split_at_text marker text)
      (λ parts. some (up_to_next marker parts.1 (split_at_text marker parts.1)))

-- `find_map` over the two markers
abbrev or_else : Option Bytes → Option Bytes → Option Bytes
or_else (some a) b = some a
or_else none b = b

unfoldable pub schema_remainder : Bytes → Option Bytes
unfolding between_markers
schema_remainder uri =
    or_else (between_markers (codes "/schemas/") uri) (between_markers (codes "/schema/") uri)

-- `split('.').next()`
abbrev before_dot : Bytes → Option (Bytes × Bytes) → Bytes
before_dot segment none = segment
before_dot segment (some (before, after)) = before

-- the first segment that is a date, less its extension
unfoldable pub find_date : List Bytes → Option Bytes
find_date [] = none
find_date (segment ∷ segments) =
    let candidate = before_dot segment (split_once b'.' segment) in
    if is_schema_date candidate then some candidate else find_date segments

abbrev or_err {ℓ} : {A : Type ℓ} → IngestError → Option A → Outcome IngestError A
or_err e none = err e
or_err e (some a) = ok a

unfoldable pub schema_date_from_uri : Bytes → Outcome IngestError Bytes
unfolding schema_remainder find_date
schema_date_from_uri uri = do
  remainder ← or_err (invalid_schema_uri uri) (schema_remainder uri)
  or_err (invalid_schema_uri uri) (find_date (split_on b'/' remainder))

-- `ServerSchemaCatalog::validate_server`
abbrev pub ServerSchemaCatalog : Type 0
ServerSchemaCatalog = Bytes → Json → Outcome IngestError (Unit {0})

unfoldable pub noop_schema_catalog : ServerSchemaCatalog
noop_schema_catalog schema_uri server = ok tt

-- `StaticSchemaCatalog`, over validators that return the messages of what is not valid
abbrev checked : Bytes → Option Bytes → Outcome IngestError (Unit {0})
checked schema_uri none = ok tt
checked schema_uri (some message) = err (schema_validation schema_uri message)

unfoldable pub static_schema_catalog : List (Bytes × (Json → Option Bytes)) → ServerSchemaCatalog
static_schema_catalog [] schema_uri server = err (unknown_schema schema_uri)
static_schema_catalog ((uri, validator) ∷ validators) schema_uri server =
    if bytes_eq uri schema_uri
    then checked schema_uri (validator server)
    else static_schema_catalog validators schema_uri server

-- a member of the server that is a string
unfoldable pub string_member : Bytes → Json → Option Bytes
string_member key server = Partial.◌>>=◌ (get_key key server) as_str

module _ (t : JsonText) (validate_server : ServerSchemaCatalog) where
  unfoldable pub from_envelope : RegistryServerEnvelope → Outcome IngestError MirroredServer
  from_envelope envelope = do
    schema_uri ←
        or_err (missing_field (codes "server.$schema"))
          (string_member (codes "$schema") envelope.server)
    name ←
        or_err (missing_field (codes "server.name")) (string_member (codes "name") envelope.server)
    version ←
        or_err (missing_field (codes "server.version"))
          (string_member (codes "version") envelope.server)
    valid ← validate_server schema_uri envelope.server
    schema_date ← schema_date_from_uri schema_uri
    ok (record {
      name = name;
      version = version;
      schema_uri = schema_uri;
      schema_date = schema_date;
      status = envelope.meta.official.status;
      updated_at = envelope.meta.official.updated_at;
      is_latest = envelope.meta.official.is_latest;
      canonical_json = canonicalize_json t envelope.server;
    })

-- `MirroredServer::cursor_token`
unfoldable pub cursor_token : MirroredServer → Bytes
cursor_token s = s.name ++ b':' ∷ s.version

pub record ListServersRequest : Type 0 where
  pub cursor : Option Bytes
  pub limit : Option ℕ
  pub updated_since : Option Bytes
  pub search : Option Bytes
  pub version : Option Bytes
  pub include_deleted : Bool

abbrev pub default_page_limit : ℕ
default_page_limit = 30

abbrev pub max_page_limit : ℕ
max_page_limit = 100

abbrev pub clamp : ℕ → ℕ → ℕ → ℕ
clamp low high n = if ltb n low then low else if ltb high n then high else n

abbrev limit_or_default : Option ℕ → ℕ
limit_or_default none = default_page_limit
limit_or_default (some n) = n

unfoldable pub normalized_limit : ListServersRequest → ℕ
normalized_limit request = clamp 1 max_page_limit (limit_or_default request.limit)

pub record FetchPageResult : Type 0 where
  pub page : Option RegistryServerListResponse
  pub etag : Option Bytes
