-- ===== src/Git/Pool/Outcomes.antt =====
-- crates/git/src/pool.rs: what the operations give and leave behind, in the cases that protect work.
pub mod Again
pub mod Dirty
pub mod Repaired
