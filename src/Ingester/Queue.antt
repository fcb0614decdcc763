-- ===== src/Ingester/Queue.antt =====
-- ingester/model.js: the CRUD layer over the ingest queue and its event log.
pub mod Store
pub mod Update
pub mod Insert
pub mod Select
pub mod Cancel
pub mod Sweep
pub mod Listed
pub mod Outcome
pub mod Returned
pub mod Retry
pub mod Audit
pub mod Kept
pub mod Reach
mod Tests
pub mod PriorState
pub mod Orphans
