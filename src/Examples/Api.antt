-- ===== src/Examples/Api.antt =====
-- A mirror that is fetched in pages, and a limit on requests.
use rcx_registry.Prelude.{
  ◌-◌, ◌≡◌, refl, true, false, none, some, List, [], ◌∷◌, map, Bytes, codes, bytes_eq, lex_le, keep,
  sort_by, insert, arith,
}
use rcx_registry.Prelude.Outcome.{ok}
use rcx_registry.Crown.Json.{Json, string, object, no_members, member, get_key, get_member, as_str}
use rcx_registry.Ingest.Envelope.{RegistryServerEnvelope, string_member}
use rcx_registry.Api.Mirror.{
  StoredServerRecord, stored_token, stored_name, stored_version, record_order, is_deleted,
  matching_records, envelope_of,
}
use rcx_registry.Api.Mirror.Pages.{AreListed}
use rcx_registry.Api.RateLimit.{RateLimiter, get_window}
use rcx_registry.Api.RateLimit.Window.{Request, let_through, count_of, min, let_through-min}
use rcx_registry.Server.Fetch.{fetch_all_pages, page_request}
use rcx_registry.Server.Fetch.Complete.{served, listed, fetch_all_pages-listed}

abbrev pub server_json : Bytes → Bytes → Json
server_json name version = object (
    member (codes "name") (string name) (
      member (codes "version") (string version) (
        member (codes "$schema") (string (codes "https://x/schemas/2025-12-11/s.json"))
          no_members)))

abbrev pub envelope : Bytes → Bytes → RegistryServerEnvelope
envelope name status = record {
  server = server_json name (codes "1");
  meta = record {
    official = record {
      status = status;
      status_changed_at = none;
      published_at = none;
      updated_at = none;
      is_latest = true;
    };
    extra = [];
  };
}

abbrev stored : Bytes → Bytes → StoredServerRecord
stored name status = record { envelope = envelope name status }

-- two servers out of order, and one that is deleted
abbrev records : List StoredServerRecord
records =
    stored (codes "b") (codes "active")
    ∷ stored (codes "c") (codes "deleted")
    ∷ stored (codes "a") (codes "active")
    ∷ []

listed-records :
    listed records ≡ stored (codes "a") (codes "active") ∷ stored (codes "b") (codes "active") ∷ []
unfolding matching_records page_request keep sort_by insert record_order is_deleted stored_name
    stored_version string_member get_key get_member as_str bytes_eq lex_le
listed-records = refl

records-AreListed : AreListed (listed records)
unfolding matching_records page_request keep sort_by insert record_order is_deleted stored_name
    stored_version stored_token string_member get_key get_member as_str bytes_eq lex_le
records-AreListed = (refl, (refl, tt), (refl, tt, tt))

fetch_all_pages-listed_example :
    fetch_all_pages (served records) ≡ ok (map envelope_of (listed records))
fetch_all_pages-listed_example =
    fetch_all_pages-listed records records-AreListed (rw listed-records (omega arith))

-- a limiter that has counted one request of a client at 100
abbrev limiter : RateLimiter
limiter = record {
  window_ms = 60;
  max = 2;
  windows = (codes "10.0.0.1", record { started_at_ms = 100; count = 1 }) ∷ [];
  poisoned = false;
}

abbrev requests : List Request
requests = (110, codes "10.0.0.1") ∷ (120, codes "10.0.0.2") ∷ (159, codes "10.0.0.1") ∷ []

limiter-found :
    get_window (codes "10.0.0.1") limiter.windows ≡ some (record { started_at_ms = 100; count = 1 })
unfolding get_window bytes_eq
limiter-found = refl

let_through-min_example :
    let_through (codes "10.0.0.1") limiter requests
    ≡ min (count_of (codes "10.0.0.1") requests) (limiter.max - 1)
let_through-min_example =
    let_through-min (codes "10.0.0.1") requests limiter (record { started_at_ms = 100; count = 1 })
      refl (omega arith) (omega arith) limiter-found (omega arith)
