-- ===== src/Concurrent.antt =====
-- The package concurrent: the retry loop and the pools of concurrent/conc.go, and masters with their workers.
pub mod Batch
pub mod Master
pub mod Retry
pub mod Worker
mod Lives
mod Tests
