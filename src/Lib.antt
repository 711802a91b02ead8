-- ===== src/Lib.antt =====
-- RCX-Registry: receipts, their offline verification, proofs of possession, and skills
--
-- The repository publishes a registry of MCP servers and of skills. Each change is recorded in a
-- signed receipt, whose canonical CBOR encoding is hashed and signed; anyone can verify receipts,
-- snapshots, publishers' declarations and chains of receipts from the bytes alone. This library models
-- the crates that decide what is signed and what is accepted:
--
-- * crates/rcx-registry-crown, in Crown: `canonical.rs` is Crown/Cbor (Value: `CborValue`; Encode:
--   `write_value`, `write_head`, `write_float`; Decode: `Cursor`, `read_value`, `read_arg`,
--   `read_float`, `decode`), `hashing.rs` is Crown/Hashing, `receipt.rs` and `skill_receipt.rs` are
--   Crown/Receipt and Crown/Receipt/Kinds.
-- * crates/rcx-verify/src/lib.rs, in Verify: Receipt is `verify_receipt`, Digests is `verify_snapshot`,
--   `verify_publisher` and `verify_namespace`, Chain is `verify_history`, Fields the helpers.
-- * crates/rcx-registry-admin/src/pop.rs, in Admin/Pop: fingerprints and `verify_pop`, and in
--   Admin/Pop/Store the nonces and OAuth states, with their instances Nonces and OauthStates.
-- * crates/rcx-registry-admin/src/lib.rs, in Admin/Namespace: `classify_namespace`, the proofs of control
--   (Control) and the receipt of publisher rights (Receipt).
-- * crates/rcx-registry-skills, in Skills: `lock.rs` is Lock, `sign.rs` is Sign, `uri.rs` is Uri.
-- * crates/rcx-registry-ingest/src/lib.rs, in Ingest: `reconcile_snapshots`, `reconcile_soft_deletes` and
--   `next_run_at`; Envelope has what upstream lists, `from_envelope` and `schema_date_from_uri`, and
--   SnapshotPlan `build_snapshot_plan`.
-- * crates/rcx-registry-enrich/src/lib.rs, in Enrich: Json is `json_to_cbor`, Graph the check of capability
--   graphs, Declaration the discovery and the check of declarations, Blocks the payloads and blocks,
--   Receipts the receipts that are built.
-- * crates/rcx-registry-api/src/lib.rs, in Api: Mirror is `InMemoryMirrorStore`, which lists servers in
--   pages, RateLimit is `RateLimiter`, Errors is `ApiError`, Messages turns other crates' errors into it,
--   Stores holds the stores of rights and enrichments in memory, State is `ApiState` with the calls of
--   its parts as functions from a state to an answer and a state, Requests has the bodies of
--   requests, Control the handlers of DNS and GitHub proofs, Declare that of declarations, Decorate
--   `decorate_list_response`. A handler's clock readings are its first arguments.
-- * crates/rcx-registry-server, in Server: Fetch is `fetch_all_pages`, Sync what a run does to the mirror
--   (`persist_changes`, `compute_full_diff`, `reconcile_soft_deletes_blocking`), Publish the signing and
--   storing of a snapshot, Tick `run_tick_blocking` as a whole, all of `loops/sync.rs`; Rows is
--   `db/mirror.rs`, by which the loop writes, Listing the same file's `PgMirrorStore` as it answers
--   requests, and Snapshots `db/snapshots.rs`.
--
-- The verifier decodes with Crown/Cbor, zeroes fields as the receipts do, and hashes with the digest
-- that the receipts are built with; a snapshot's root is that of Crown/Hashing. A run of the server
-- fetches pages as the API serves them, mirrors what Ingest makes of them into Server/Rows, plans a
-- snapshot with Ingest, signs its receipt and stores it in Server/Snapshots, where anyone can take it to
-- the verifier.
--
-- Conventions. Text and byte strings are lists of numbers, the bytes. A call that may fail returns an
-- `Outcome` (Prelude/Outcome): a value, an error of the program, a panic, or `stuck` where the model's
-- recursion runs out of fuel. The decoder's fuel is the length of the input and one: every call of
-- `read_value` takes at least a byte. `usize` and `u64` have 64 bits, and the sums that can exceed them
-- (`Cursor::take`, `saturating_add`) are written out; a float is its 64-bit pattern. A Rust method
-- that changes its receiver returns the new state beside its result. The messages inside errors are
-- kept where they carry data of the program, and are otherwise left out. A table of the database is a
-- list of rows with the statements of the source as functions on it, written after their SQL; whether
-- the pool and the database serve a statement is part of the state or an argument, so a call that
-- fails leaves what was written before. `fetch_all_pages` has the bound of the source, 1000 pages.
--
-- Parameters. BLAKE3 and Ed25519 (Crown/Crypto), the conversions between float widths and the memory
-- that can be reserved (Crown/Float), the parser and the printing of numbers and strings of
-- `serde_json` (Crown/Json), and the crate `hex` (Admin/Pop) are not code of the repository. What the
-- code relies on of the floats is `IsLawful`; what a theorem relies on of the others is among its
-- hypotheses. So are the clock, the signer (Server/Publish), the calls of HTTP clients, the JSON schemas
-- and the reading of a declaration (Enrich/Declaration).
--
-- Not modelled: the HTTP server, its configuration, vault, metrics and network clients, the stores
-- of rights and enrichments in the database, the loop of enrichment
-- (crates/rcx-registry-server), the API's router, manual review and published records
-- (crates/rcx-registry-api), the HTTP client of the ingest (crates/rcx-registry-ingest), the reading and
-- printing of lockfiles, the index of skills and fetching (crates/rcx-registry-skills), the command line
-- (crates/rcx-cli), the SDKs in other languages, and the printing of CBOR as JSON
-- (crates/rcx-registry-crown). Mutexes are modelled by whether they are poisoned, and each operation of
-- a store is one step, since it holds the lock throughout.
--
-- Examples has the theorems at concrete inputs.
pub mod Admin
pub mod Api
pub mod Crown
pub mod Enrich
pub mod Examples
pub mod Ingest
pub mod Prelude
pub mod Server
pub mod Skills
pub mod Verify
