-- ===== src/Repository.antt =====
-- repository/: the table of the copies of archival packages.
pub mod AipStore
pub mod AipStatus
mod Tests
