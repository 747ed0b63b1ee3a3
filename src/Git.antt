-- ===== src/Git.antt =====
-- crates/git: the program git as it is run, and the pool of managed worktrees.
pub mod Command
pub mod Status
pub mod RawDiff
pub mod Pool
pub mod Discovery
