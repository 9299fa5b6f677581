-- ===== src/Matching.antt =====
-- crates/matching/src/lib.rs: the deterministic matching engine.
mod Defs
mod Run
pub mod Rounds
pub mod Fills
pub mod Symbols
pub mod Grouping
pub mod Determinism
pub mod Orders
pub mod Liveness
pub mod Soundness
pub use Defs.{
  RevealedOrder, Match, Book, Terms, price, quantity, nft_id, can_trade, running, iterate,
  advance_buy, advance_sell, first_quantity, after_fill, open_book, tops_cross,
}
unfoldable pub use Defs.{
  determine_gas_payer, skip_self_trade, skip_dust, make_match, match_tops, closed_book,
  generate_matches,
}
pub use Run.{MarketConfig, MatchingInput}
unfoldable pub use Run.{
  buys_before, sells_before, sort_buys, sort_sells, market_map, by_symbol, match_market,
  match_symbol, match_symbols, run_matching, compute_order_hash,
}
