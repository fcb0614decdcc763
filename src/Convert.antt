-- ===== src/Convert.antt =====
-- convert/: the queue of image conversions and the worker that sends them one by one.
pub mod Mime
pub mod Expand
pub mod Files
pub mod Model
pub mod Claims
pub mod Rows
pub mod Worker
pub mod Attempts
pub mod Awaiting
pub mod Stranded
pub mod Batches
mod Tests
