-- ===== src/Protocol/Agent.antt =====
-- crates/protocol/src/agent.rs: the operations that an SSH companion takes, and their validation.
pub mod Types
pub mod Validate
pub mod Bounded
pub mod Watched
