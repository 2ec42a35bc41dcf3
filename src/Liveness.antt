-- ===== src/Liveness.antt =====
-- src/liveness: how a suspended caller is registered, woken once, and rescued.
pub mod WaitIndex
pub mod WaitGate
pub mod WaitRegistration
pub mod WaitReply
pub mod WaitSweeper
