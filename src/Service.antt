-- ===== src/Service.antt =====
-- crates/service: the configuration of a workspace, the anchors of annotations and the previous review.
pub mod Config
pub mod Anchors
pub mod Previous
