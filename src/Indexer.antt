-- ===== src/Indexer.antt =====
-- indexer/: the queue of repository objects that wait for the search index, and its worker.
pub mod Model
pub mod Worker
pub mod Claimed
pub mod Outage
pub mod Accepted
pub mod Failures
pub mod Ensure
mod Tests
