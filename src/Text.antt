-- ===== src/Text.antt =====
-- What the node uses of Rust's `str`, on lists of code points: searching, splitting, trimming, and
-- the parsing of unsigned integers.
pub mod Search
pub mod Parse
