-- ===== src/Gossip.antt =====
-- crates/gossip_validation/src/lib.rs: which gossip messages are believed.
pub mod Quota
pub mod Defs
pub mod Validator
pub mod Invariant
pub mod Reveals
pub mod Commits
