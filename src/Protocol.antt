-- ===== src/Protocol.antt =====
-- src/protocol: execution states, JSON values, message headers and commands.
pub mod Json
pub mod AgentState
pub mod State
pub mod Strings
pub mod Header
pub mod Commands
pub mod Codec
