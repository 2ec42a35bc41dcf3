-- ===== src/Registry.antt =====
-- src/registry.ts: the execution records of a session, worker leases and scoped locks.
pub mod Executions
pub mod Leases
pub mod Members
