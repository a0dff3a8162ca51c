-- ===== src/Scheduler.antt =====
-- crates/scheduler: consensus events in, transaction batches and commit decisions out.
mod Tests
pub mod PendingQueue
pub mod Backpressure
pub mod Pipeline
