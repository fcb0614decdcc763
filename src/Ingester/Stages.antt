-- ===== src/Ingester/Stages.antt =====
-- ingester/stages/: what each stage does to the queue, step by step.
pub mod World
pub mod Frame
pub mod Rules
mod Text
pub mod Steps
pub mod Ends
pub mod Says
pub mod AipStore
pub mod AipFrame
pub mod AipExits
pub mod AipAttempts
pub mod AipBudget
pub mod AipCalls
pub mod ProcessMetadata
pub mod Upload
pub mod Transfer
pub mod DipCopy
pub mod DipOwn
pub mod Ingest
pub mod MetadataSays
pub mod UploadSays
pub mod TransferSays
pub mod IngestSays
pub mod MetadataEnds
pub mod UploadEnds
pub mod IngestEnds
pub mod TransferEnds
pub mod TransferResumed
mod Tests
mod PipelineTests
