-- ===== src/Settlement.antt =====
-- crates/settlement/src: what a node does with its matches until the chain has settled them.
pub mod Codes
pub mod Defs
pub mod Pending
pub mod Agreement
pub mod Refinement
pub mod Failures
pub mod Expiry
pub mod Transactions
pub mod Status
pub mod Submitter
pub mod Worker
pub mod Results
pub mod Sequence
pub mod Encoding
pub mod Swap
pub mod Queued
