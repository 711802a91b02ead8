-- ===== src/Server/Fetch.antt =====
-- crates/rcx-registry-server/src/loops/sync.rs: `fetch_all_pages`. The client of the upstream registry is
-- a function from requests to pages, since what it does is up to HTTP and the registry.
pub mod Complete
use rcx_registry.Prelude.{
  ℕ, zero, suc, Bool, true, false, Option, none, some, List, [], ◌∷◌, ◌++◌, Bytes,
}
use rcx_registry.Prelude.Outcome.{Outcome, ok, err, ◌>>=◌}
use rcx_registry.Ingest.Envelope.{
  IngestError, RegistryServerEnvelope, RegistryServerListResponse, ListServersRequest,
  FetchPageResult, max_page_limit,
}

abbrev pub max_pages_per_run : ℕ
max_pages_per_run = 1000

unfoldable pub page_request : Option Bytes → ListServersRequest
page_request cursor = record {
  cursor = cursor;
  limit = some max_page_limit;
  updated_since = none;
  search = none;
  version = none;
  include_deleted = false;
}

abbrev pub Envelopes : Type 0
Envelopes = List RegistryServerEnvelope

-- what follows a page, over the rounds from a cursor
abbrev pub follow :
    (Option Bytes → Outcome IngestError Envelopes)
    → Envelopes
    → Option Bytes
    → Outcome IngestError Envelopes
follow rounds servers none = ok servers
follow rounds servers (some []) = ok servers
follow rounds servers (some (b ∷ next)) = do more ← rounds (some (b ∷ next)); ok (servers ++ more)

abbrev pub take_page :
    (Option Bytes → Outcome IngestError Envelopes)
    → Option RegistryServerListResponse
    → Outcome IngestError Envelopes
take_page rounds none = ok []
take_page rounds (some response) = follow rounds response.servers response.metadata.next_cursor

module _ (fetch_servers_page : ListServersRequest → Outcome IngestError FetchPageResult) where
  -- the rounds that are left; the first argument bounds them
  unfoldable pub fetch_pages : ℕ → Option Bytes → Outcome IngestError Envelopes
  fetch_pages zero cursor = ok []
  fetch_pages (suc rounds) cursor = do
    result ← fetch_servers_page (page_request cursor)
    take_page (fetch_pages rounds) result.page

  unfoldable pub fetch_all_pages : Outcome IngestError Envelopes
  unfolding fetch_pages
  fetch_all_pages = fetch_pages max_pages_per_run none
