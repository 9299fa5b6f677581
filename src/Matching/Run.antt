-- ===== src/Matching/Run.antt =====
-- crates/matching/src/lib.rs, `sort_orders`, `run_matching` and `compute_order_hash`.
use deadmkt_node.Prelude.{
  ℕ, Bool, ◌&&◌, ◌||◌, Option, none, some, List, [], ◌∷◌, ◌++◌, ltb, nat_eq, bytes_eq, ◌==◌, filter,
  ℕ_discrete,
}
use deadmkt_node.Sort.{sort_by}
use deadmkt_node.Maps.{Map, keys, lookup, insert, get_or}
use deadmkt_node.Bytes.{Bytes, lex_ltb}
use deadmkt_node.Crypto.{Order, Libraries, encode_order}
use deadmkt_node.Matching.Defs.{RevealedOrder, Match, price, generate_matches}

pub record MarketConfig : Type 0 where
  pub symbol : Bytes
  pub min_quantity : ℕ

pub record MatchingInput : Type 0 where
  pub batch_id : ℕ
  pub pool_id : ℕ
  pub reveals : List RevealedOrder
  pub markets : List MarketConfig

-- Highest price first, then the lower hash.
unfoldable pub buys_before : RevealedOrder → RevealedOrder → Bool
buys_before a b =
    ltb (price b) (price a) || (price b == price a && lex_ltb a.order_hash b.order_hash)

-- Lowest price first, then the lower hash.
unfoldable pub sells_before : RevealedOrder → RevealedOrder → Bool
sells_before a b =
    ltb (price a) (price b) || (price a == price b && lex_ltb a.order_hash b.order_hash)

-- The two sorts of `sort_orders`.
unfoldable pub sort_buys : List RevealedOrder → List RevealedOrder
sort_buys = sort_by buys_before

unfoldable pub sort_sells : List RevealedOrder → List RevealedOrder
sort_sells = sort_by sells_before

-- `markets.iter().map(...).collect()`: a later entry of a symbol replaces an earlier one.
unfoldable pub market_map : Map Bytes ℕ → List MarketConfig → Map Bytes ℕ
market_map m [] = m
market_map m (c ∷ cs) = market_map (insert c.symbol c.min_quantity m) cs

-- `entry(symbol).or_default().push(reveal)`
abbrev pub push_reveal :
    Map Bytes (List RevealedOrder) → RevealedOrder → Map Bytes (List RevealedOrder)
push_reveal m r = insert r.order.symbol (get_or [] (lookup r.order.symbol m) ++ r ∷ []) m

-- The grouping loop.
unfoldable pub by_symbol :
    Map Bytes (List RevealedOrder) → List RevealedOrder → Map Bytes (List RevealedOrder)
by_symbol m [] = m
by_symbol m (r ∷ rs) = by_symbol (push_reveal m r) rs

-- The body of the loop over the symbols, at the market found: sides 1 and 0 are BUY and SELL.
unfoldable pub match_market : Libraries → ℕ → ℕ → Bytes → List RevealedOrder → Option ℕ → List Match
match_market lib batch_id pool_id symbol reveals none = []
match_market lib batch_id pool_id symbol reveals (some min_quantity) =
    generate_matches lib
      (record {
        batch_id = batch_id;
        pool_id = pool_id;
        symbol = symbol;
        min_quantity = min_quantity;
      })
      (sort_buys (filter (λ r. ℕ_discrete r.order.side 1) reveals))
      (sort_sells (filter (λ r. ℕ_discrete r.order.side 0) reveals))

unfoldable pub match_symbol :
    Libraries → ℕ → ℕ → Map Bytes ℕ → Bytes → List RevealedOrder → List Match
match_symbol lib batch_id pool_id markets symbol reveals =
    match_market lib batch_id pool_id symbol reveals (lookup symbol markets)

unfoldable pub match_symbols :
    Libraries → ℕ → ℕ → Map Bytes ℕ → Map Bytes (List RevealedOrder) → List Bytes → List Match
match_symbols lib batch_id pool_id markets groups [] = []
match_symbols lib batch_id pool_id markets groups (symbol ∷ symbols) =
    match_symbol lib batch_id pool_id markets symbol (get_or [] (lookup symbol groups))
    ++ match_symbols lib batch_id pool_id markets groups symbols

unfoldable pub run_matching : Libraries → MatchingInput → List Match
run_matching lib input =
    let groups = by_symbol [] input.reveals in
    match_symbols lib input.batch_id input.pool_id (market_map [] input.markets) groups
      (sort_by lex_ltb (keys groups))

unfoldable pub compute_order_hash : Libraries → Order → Bytes
compute_order_hash lib order = lib.sha256 (encode_order lib order)
