-- ===== src/Domain.antt =====
-- crates/domain/src/lib.rs: the durable types that the other crates share, and the checks at their
-- constructors. Errors has the errors, Annotations the anchors of notes, References the base
-- references and object ids, Paths the repository paths, Options the comparison options, Baseline the
-- choice of a base, Sources the kinds of workspace.
pub mod Errors
pub mod Annotations
pub mod References
pub mod Paths
pub mod Options
pub mod Baseline
pub mod Sources
