-- ===== src/Protocol.antt =====
-- crates/protocol: the transport between the desktop, its command line and the SSH companion.
pub mod Errors
pub mod Frame
pub mod Local
pub mod Auth
pub mod Agent
pub mod Reverse
