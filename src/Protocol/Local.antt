-- ===== src/Protocol/Local.antt =====
-- crates/protocol/src/local.rs: the commands that the desktop takes, and their validation.
pub mod Beneath
pub mod Boundary
pub mod Commands
pub mod Passed
pub mod Revisions
pub mod Texts
pub mod Validate
