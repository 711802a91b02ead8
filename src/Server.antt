-- ===== src/Server.antt =====
-- crates/rcx-registry-server: the loop that mirrors the upstream registry, and the tables that it keeps.
pub mod Fetch
pub mod Rows
pub mod Listing
pub mod Snapshots
pub mod Sync
pub mod Publish
pub mod Tick
