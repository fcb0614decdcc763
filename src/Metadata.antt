-- ===== src/Metadata.antt =====
-- metadata/: the refresh of the repository's metadata: its queue, the batches of a system-wide refresh,
-- the producer that fills them and the worker's step for one row.
pub mod Model
pub mod Batches
pub mod Producer
pub mod Worker
pub mod Resume
pub mod Claims
pub mod Retries
pub mod Ledger
pub mod Inserted
pub mod Settled
pub mod Ticks
pub mod Runs
pub mod Drained
-- pub mod Coverage
mod Tests
