-- ===== src/Ingester.antt =====
-- The ingest subsystem, folder ingester/.
pub mod States
pub mod Queue
pub mod Worker
pub mod Controller
pub mod Polling
pub mod Stages
