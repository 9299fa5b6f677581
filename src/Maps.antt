-- ===== src/Maps.antt =====
-- `HashMap` and `HashSet` as lists of entries with distinct keys. Rust leaves the order of
-- iteration open: the list stands for one such order, and what depends on it is said where it is
-- used.
mod Defs
mod Laws
pub use Defs.{Map, keys, values, is_some, contains_key, get_or}
unfoldable pub use Defs.{lookup, insert, remove, contains, add}
pub use Laws.*
