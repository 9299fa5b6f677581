-- ===== src/Orchestrator.antt =====
-- crates/orchestrator/src/lib.rs, with the gossip and batch ports that src/run.rs gives it.
pub mod Bridges
pub mod Phases
pub mod Events
pub mod Consensus
pub mod Reveals
