-- ===== src/Config.antt =====
-- crates/config/src/lib.rs: the node's configuration.
pub mod Defs
pub mod Overrides
