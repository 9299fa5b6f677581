-- ===== src/Strategy.antt =====
-- crates/strategy/src/convert.rs: from the orders of a strategy to the orders that are committed.
pub mod Convert
pub mod Decimal
pub mod Validate
pub mod Limits
pub mod Accounts
pub mod Commit
pub mod Committed
