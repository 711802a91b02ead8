-- ===== src/Server/Listing.antt =====
-- crates/rcx-registry-server/src/db/mirror.rs: `PgMirrorStore`, the mirror that lists servers from the
-- rows of the database. `LOWER`, `LIKE` and the collation of the database are parameters.
pub mod Pages
use rcx_registry.Prelude.{
  ℕ, suc, Bool, true, false, not, ◌||◌, ◌&&◌, Option, none, some, List, [], ◌∷◌, ◌++◌, map, Bytes,
  codes, bytes_eq, lex_le, ltb, if◌then◌else◌, length, take, keep, sort_by, is_some,
}
use rcx_registry.Prelude.Outcome as Outcome
use rcx_registry.Prelude.Outcome.{ok, err}
use rcx_registry.Prelude.Partial
use rcx_registry.Prelude.Texts.{to_ascii_lowercase}
use rcx_registry.Ingest.Envelope.{
  RegistryServerEnvelope, RegistryServerListResponse, ListServersRequest, normalized_limit,
  string_member,
}
use rcx_registry.Api.Errors.{Api, ApiError, invalid_cursor, not_found, store}
use rcx_registry.Server.Rows.{ServerRow, DbError, failed, MirrorDb, Db, run_call}

-- What the database does with texts.
pub record Sql : Type 0 where
  pub lower : Bytes → Bytes
  pub like : Bytes → Bytes → Bool
  pub text_le : Bytes → Bytes → Bool

-- `COALESCE`
abbrev coalesce : Option Bytes → Option Bytes → Option Bytes
coalesce (some a) b = some a
coalesce none b = b

abbrev named : Bytes → Option Bytes → Bool
named name none = false
named name (some other) = bytes_eq other name

abbrev text_or_empty : Option Bytes → Bytes
text_or_empty none = []
text_or_empty (some text) = text

unfoldable pub envelope_version : RegistryServerEnvelope → Option Bytes
envelope_version envelope = string_member (codes "version") envelope.server

unfoldable pub cursor_token : RegistryServerEnvelope → Option Bytes
unfolding envelope_version
cursor_token envelope =
    Partial.◌>>=◌ (string_member (codes "name") envelope.server)
      λ name. Partial.◌>>=◌ (envelope_version envelope) λ version. some (name ++ b':' ∷ version)

module _ (sql : Sql) where
  abbrev selects_search : Option Bytes → ServerRow → Bool
  selects_search none row = true
  selects_search (some needle) row =
      sql.like (sql.lower row.name) (codes "%" ++ (to_ascii_lowercase needle ++ codes "%"))

  abbrev selects_version : Option Bytes → ServerRow → Bool
  selects_version none row = true
  selects_version (some version) row =
      (bytes_eq version (codes "latest") && row.is_latest) || bytes_eq row.version version

  -- a comparison with `NULL` does not hold
  abbrev is_not_before : Bytes → Option Bytes → Bool
  is_not_before since none = false
  is_not_before since (some timestamp) = sql.text_le since timestamp

  abbrev selects_since : Option Bytes → ServerRow → Bool
  selects_since none row = true
  selects_since (some since) row =
      let official = row.envelope_json.meta.official in
      is_not_before since
        (coalesce official.updated_at (coalesce official.status_changed_at official.published_at))

  -- the `WHERE` of the statement
  unfoldable pub is_selected : ListServersRequest → ServerRow → Bool
  is_selected request row =
      (request.include_deleted
        || is_some request.updated_since
        || not (bytes_eq row.status (codes "deleted")))
      && selects_search request.search row
      && selects_version request.version row
      && selects_since request.updated_since row

  -- `ORDER BY name ASC, version ASC`
  unfoldable pub row_order : ServerRow → ServerRow → Bool
  row_order left right =
      if bytes_eq left.name right.name
      then sql.text_le left.version right.version
      else sql.text_le left.name right.name

  abbrev envelope_json_of : ServerRow → RegistryServerEnvelope
  envelope_json_of row = row.envelope_json

  unfoldable pub query_envelopes : ListServersRequest → Db (List RegistryServerEnvelope)
  unfolding run_call keep is_selected row_order
  query_envelopes request =
      run_call
        λ rows. (map envelope_json_of (sort_by row_order (keep (is_selected request) rows)), rows)

abbrev is_cursor : Bytes → Option Bytes → Bool
is_cursor cursor (some token) = bytes_eq token cursor
is_cursor cursor none = false

-- `position` and `split_off(index + 1)`
unfoldable pub behind_cursor :
    Bytes → List RegistryServerEnvelope → Option (List RegistryServerEnvelope)
behind_cursor cursor [] = none
behind_cursor cursor (e ∷ es) =
    let rest = behind_cursor cursor es in
    if is_cursor cursor (cursor_token e) then some es else rest

abbrev or_invalid_cursor : Option (List RegistryServerEnvelope) → Api (List RegistryServerEnvelope)
or_invalid_cursor none = err invalid_cursor
or_invalid_cursor (some es) = ok es

unfoldable pub split_off :
    Option Bytes → List RegistryServerEnvelope → Api (List RegistryServerEnvelope)
split_off none es = ok es
split_off (some cursor) es = or_invalid_cursor (behind_cursor cursor es)

unfoldable pub last_cursor : List RegistryServerEnvelope → Option Bytes
last_cursor [] = none
last_cursor (e ∷ []) = cursor_token e
last_cursor (e ∷ e' ∷ es) = last_cursor (e' ∷ es)

abbrev pub page_with : List RegistryServerEnvelope → Option Bytes → RegistryServerListResponse
page_with page next_cursor = record {
  servers = page;
  metadata = record { next_cursor = next_cursor; count = length page };
}

-- one envelope more than the limit is taken, to see whether there are more
unfoldable pub envelope_page : ℕ → List RegistryServerEnvelope → RegistryServerListResponse
envelope_page limit es =
    let page = take (suc limit) es in
    if ltb limit (length page)
    then page_with (take limit page) (last_cursor (take limit page))
    else page_with page none

-- what a request answers of the envelopes that the statement selects
unfoldable pub page_envelopes :
    ListServersRequest → List RegistryServerEnvelope → Api RegistryServerListResponse
unfolding split_off envelope_page
page_envelopes request es =
    Outcome.◌>>=◌ (split_off request.cursor es)
      λ rest. ok (envelope_page (normalized_limit request) rest)

-- the database's own words of an error are left out
abbrev of_db : DbError → ApiError
of_db failed = store []

unfoldable pub answer_of :
    {A : Type 0}
    → (List RegistryServerEnvelope → Api A)
    → Outcome.Outcome DbError (List RegistryServerEnvelope) × MirrorDb
    → Api A × MirrorDb
answer_of answer (result, db') = (Outcome.◌>>=◌ (Outcome.map_err of_db result) answer, db')

abbrev pub all_of : Bool → ListServersRequest
all_of include_deleted = record {
  cursor = none;
  limit = none;
  updated_since = none;
  search = none;
  version = none;
  include_deleted = include_deleted;
}

abbrev has_name : Bytes → RegistryServerEnvelope → Bool
has_name name e = named name (string_member (codes "name") e.server)

-- the greatest version first
unfoldable pub envelope_order : RegistryServerEnvelope → RegistryServerEnvelope → Bool
envelope_order left right =
    lex_le (text_or_empty (envelope_version right)) (text_or_empty (envelope_version left))

abbrev is_version : Bytes → RegistryServerEnvelope → Bool
is_version version e =
    if bytes_eq version (codes "latest")
    then e.meta.official.is_latest
    else named version (envelope_version e)

-- `find` and `ok_or`
unfoldable pub find_envelope :
    (RegistryServerEnvelope → Bool) → List RegistryServerEnvelope → Api RegistryServerEnvelope
find_envelope test [] = err not_found
find_envelope test (e ∷ es) = let rest = find_envelope test es in if test e then ok e else rest

module _ (sql : Sql) where
  unfoldable pub pg_list_servers :
      ListServersRequest → MirrorDb → Api RegistryServerListResponse × MirrorDb
  pg_list_servers request db = answer_of (page_envelopes request) (query_envelopes sql request db)

  unfoldable pub pg_list_versions :
      Bytes → Bool → MirrorDb → Api RegistryServerListResponse × MirrorDb
  unfolding keep envelope_order
  pg_list_versions server_name include_deleted db =
      answer_of
        (λ es. ok (page_with (sort_by envelope_order (keep (has_name server_name) es)) none))
        (query_envelopes sql (all_of include_deleted) db)

  unfoldable pub pg_get_version :
      Bytes → Bytes → Bool → MirrorDb → Api RegistryServerEnvelope × MirrorDb
  unfolding keep find_envelope
  pg_get_version server_name version include_deleted db =
      answer_of (λ es. find_envelope (is_version version) (keep (has_name server_name) es))
        (query_envelopes sql (all_of include_deleted) db)
