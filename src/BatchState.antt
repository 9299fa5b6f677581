-- ===== src/BatchState.antt =====
-- crates/batch_state/src/lib.rs: what a node keeps of the batch that it is in.
pub mod Defs
pub mod Lifecycle
