-- ===== src/Git/Pool.antt =====
-- crates/git/src/pool.rs: app-managed mirrors and detached review worktrees.
pub mod Types
pub mod Names
pub mod Host
pub mod Registry
pub mod Sources
pub mod Sets
pub mod Lifecycle
pub mod Orphans
pub mod Trace
pub mod Outcomes
