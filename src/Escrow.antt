-- ===== src/Escrow.antt =====
-- crates/escrow_tracker/src: projected balances and the cache of active nodes.
pub mod Defs
pub mod Solvency
pub mod Settlement
pub mod Pending
pub mod Reserve
pub mod IsActiveCache
