-- ===== src/Diff/Patch.antt =====
-- crates/diff/src/lib.rs: the parser of Git's unified patch text. Header has the hunk header, Paths
-- the quoted paths, Builder one file of a patch, Parse the loop over the lines.
pub mod Header
pub mod Headers
pub mod Paths
pub mod Builder
pub mod Parse
pub mod Numbering
pub mod Invariant
pub mod Methods
pub mod Sound
pub mod Sides
