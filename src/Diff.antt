-- ===== src/Diff.antt =====
-- crates/diff/src/lib.rs: canonical, side-aware diff documents and their projections.
pub mod Types
pub mod Rows
pub mod Split
pub mod Source
pub mod FullFile
pub mod Patch
pub mod Compare
