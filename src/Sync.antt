-- ===== src/Sync.antt =====
-- The sync engine (src/sync).
pub mod Errors
pub mod Exec
pub mod Ingest
pub mod Reconcile
pub mod Worker
pub mod Manager
pub mod Tests
