-- ===== src/Worker.antt =====
-- src/worker.ts: what a worker sends to the caller of an execution, and how the replies of a task group
-- are joined.
pub mod Returns
pub mod Groups
pub mod Completion
pub mod Delivery
pub mod Silence
pub mod Joining
