-- ===== src/Liveness/WaitSweeper.antt =====
-- src/liveness/wait_sweeper.ts: the sweep that resolves waits whose reply does not come.
pub mod Deadlines
pub mod Replies
pub mod Triage
pub mod Pass
pub mod Effects
pub mod Steps
pub mod Verdicts
pub mod Renewal
pub mod Sweeping
pub mod StandIns
