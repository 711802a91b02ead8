-- ===== src/Examples/Listing.antt =====
-- A page of the database's mirror.
use rcx_registry.Prelude.{
  ◌≡◌, refl, true, false, none, some, List, [], ◌∷◌, map, Bytes, codes, bytes_eq, lex_le, keep,
  sort_by, insert, All,
}
use rcx_registry.Prelude.Outcome.{ok}
use rcx_registry.Prelude.Texts.{to_ascii_lowercase}
use rcx_registry.Crown.Json.{get_key, get_member, as_str}
use rcx_registry.Ingest.Envelope.{ListServersRequest, string_member}
use rcx_registry.Api.Mirror.{
  StoredServerRecord, stored_token, stored_name, stored_version, record_order, is_deleted,
  matching_records, envelope_of, is_latest, list_servers,
}
use rcx_registry.Api.Mirror.Pages.{HasToken}
use rcx_registry.Server.Rows.{ServerRow, MirrorDb, run_call}
use rcx_registry.Server.Listing.{Sql, is_selected, row_order, query_envelopes, pg_list_servers}
use rcx_registry.Server.Listing.Pages.{pg_list_servers-list_servers}
use rcx_registry.Examples.Api.{server_json, envelope}

abbrev toy_sql : Sql
toy_sql = record { lower = to_ascii_lowercase; like = λ text pattern. true; text_le = lex_le }

abbrev row : Bytes → Bytes → ServerRow
row name status = record {
  name = name;
  server_json = server_json name (codes "1");
  upstream_hash = [];
  first_observed_at = 1;
  last_observed_at = 2;
  status = status;
  schema_date = codes "2025-12-11";
  observed_in_snapshot = [];
  envelope_json = envelope name status;
  version = codes "1";
  is_latest = true;
  deleted_upstream_at = none;
}

abbrev rows : MirrorDb
rows = record {
  rows =
      row (codes "b") (codes "active")
      ∷ row (codes "c") (codes "deleted")
      ∷ row (codes "a") (codes "active")
      ∷ [];
  answers = true ∷ [];
}

abbrev kept : List StoredServerRecord
kept =
    record { envelope = envelope (codes "c") (codes "deleted") }
    ∷ record { envelope = envelope (codes "a") (codes "active") }
    ∷ record { envelope = envelope (codes "b") (codes "active") }
    ∷ []

-- the page behind the first server
abbrev request : ListServersRequest
request = record {
  cursor = some (codes "a:1");
  limit = some 1;
  updated_since = none;
  search = none;
  version = some (codes "latest");
  include_deleted = false;
}

abbrev after_query : MirrorDb
after_query = (query_envelopes toy_sql request rows).1

selected :
    query_envelopes toy_sql request rows
    ≡ (ok (map envelope_of (matching_records kept request)), after_query)
unfolding query_envelopes run_call is_selected row_order matching_records record_order is_deleted
    stored_name stored_version string_member get_key get_member as_str keep sort_by insert bytes_eq
    lex_le is_latest
selected = refl

kept-HasToken : All HasToken (matching_records kept request)
unfolding matching_records keep sort_by insert record_order is_deleted stored_name stored_version
    stored_token string_member get_key get_member as_str bytes_eq lex_le is_latest
kept-HasToken = (refl, (refl, tt))

pg_list_servers-list_servers_example :
    pg_list_servers toy_sql request rows ≡ (list_servers kept request, after_query)
pg_list_servers-list_servers_example =
    pg_list_servers-list_servers toy_sql kept request rows after_query selected kept-HasToken
