-- ===== src/Examples.antt =====
-- Concrete runs on the server in memory: tests of the modelled code.
pub mod Wire
pub mod Gate
pub mod Sweep
pub mod Records
pub mod Work
pub mod Finish
pub mod Members
pub mod Calls
pub mod Groups
