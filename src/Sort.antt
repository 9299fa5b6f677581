-- ===== src/Sort.antt =====
-- `slice::sort_by`: a stable insertion sort by a strict order on elements that carry a key.
mod Defs
mod Laws
pub use Defs.{StrictOrder}
unfoldable pub use Defs.{insert_sorted, sort_by}
pub use Laws.*
