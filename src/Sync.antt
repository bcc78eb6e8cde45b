-- ===== src/Sync.antt =====
-- backend/app/connectors/sync and imap/sync: the incremental sync of one connection.
pub mod Planner
pub mod Fetch
pub mod Fetcher
pub mod EmailIngest
pub mod Ingest
pub mod Store
pub mod UidSet
pub mod Tracker
pub mod Runner
pub mod Service
