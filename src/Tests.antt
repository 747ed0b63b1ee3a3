-- ===== src/Tests.antt =====
-- Runs of the definitions at concrete inputs, and the theorems applied at them.
mod Agents
mod Anchors
mod Comparisons
mod Configs
mod Diffs
mod Domains
mod Frames
mod Proofs
mod Requests
mod Registries
mod Outputs
mod Pools
mod Walks
