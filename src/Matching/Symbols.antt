-- ===== src/Matching/Symbols.antt =====
-- Orders never match across symbols, sides or unknown markets.
use mathlib.Core.List.{mem-filter}
use mathlib.Core.List.Perm
use deadmkt_node.Prelude.{
  ℕ, ◌≤◌, ◌≡◌, refl, sym, ap, ◌∙◌, List, [], ◌∷◌, Option, none, some, filter, Mem, All, All-append,
  All-map, ℕ_discrete, bytes_eq,
}
use deadmkt_node.Sort.{sort_by-perm, sort_by}
use deadmkt_node.Maps.{Map, lookup, keys}
use deadmkt_node.Bytes.{Bytes, lex_ltb}
use deadmkt_node.Crypto.{Libraries}
use deadmkt_node.Matching.Defs.{RevealedOrder, Match, Terms, generate_matches}
use deadmkt_node.Matching.Run.{
  MatchingInput, sort_buys, sort_sells, buys_before, sells_before, market_map, by_symbol,
  match_market, match_symbol, match_symbols, run_matching,
}
use deadmkt_node.Matching.Grouping.{Bytes-discrete, of_symbol, groups-of_symbol}
use deadmkt_node.Matching.Soundness.{IsTrade, matches-IsTrade}

-- A match of two reveals of its own symbol, a buy and a sell, in a market that the input lists, of
-- at least that market's minimum quantity.
pub record IsListed (markets : Map Bytes ℕ) (rs : List RevealedOrder) (m : Match) : Type 0 where
  pub buyer_in : Mem m.buyer rs
  pub seller_in : Mem m.seller rs
  pub buyer_symbol : m.buyer.order.symbol ≡ m.symbol
  pub seller_symbol : m.seller.order.symbol ≡ m.symbol
  pub buyer_side : m.buyer.order.side ≡ 1
  pub seller_side : m.seller.order.side ≡ 0
  pub minimum : ℕ
  pub listed : lookup m.symbol markets ≡ some minimum
  pub enough : minimum ≤ m.fill_quantity

of_side :
    (symbol : Bytes) (side : ℕ) (r : RevealedOrder) (rs : List RevealedOrder)
    → Mem r (filter (λ q. ℕ_discrete q.order.side side) (of_symbol symbol rs))
    → Mem r rs × (r.order.symbol ≡ symbol) × (r.order.side ≡ side)
of_side symbol side r rs m =
    let (inside, of_that_side) =
      (mem-filter (λ (q : RevealedOrder). ℕ_discrete q.order.side side)).0 m in
    let (listed, of_that_symbol) =
      (mem-filter (λ (q : RevealedOrder). Bytes-discrete q.order.symbol symbol)).0 inside in
    (listed, of_that_symbol, of_that_side)

module _ (lib : Libraries) (batch_id pool_id : ℕ) (markets : Map Bytes ℕ)
    (rs : List RevealedOrder) where
  match_market-IsListed :
      (s : Bytes) (o : Option ℕ)
      → lookup s markets ≡ o
      → All (IsListed markets rs) (match_market lib batch_id pool_id s (of_symbol s rs) o)
  unfolding match_market sort_buys sort_sells
  match_market-IsListed s none e = tt
  match_market-IsListed s (some minimum) e =
      All-map {P = IsTrade terms buys sells} listed (generate_matches lib terms buys sells)
        (matches-IsTrade lib terms buys sells)
    where
      terms : Terms
      terms = record { batch_id = batch_id; pool_id = pool_id; symbol = s; min_quantity = minimum }

      buys : List RevealedOrder
      buys = sort_buys (filter (λ r. ℕ_discrete r.order.side 1) (of_symbol s rs))

      sells : List RevealedOrder
      sells = sort_sells (filter (λ r. ℕ_discrete r.order.side 0) (of_symbol s rs))

      listed : (m : Match) → IsTrade terms buys sells m → IsListed markets rs m
      listed m t =
          let (b_in, b_symbol, b_side) =
            of_side s 1 m.buyer rs ((Perm.mem_iff (sort_by-perm buys_before _)).0 t.buyer_in) in
          let (s_in, s_symbol, s_side) =
            of_side s 0 m.seller rs ((Perm.mem_iff (sort_by-perm sells_before _)).0 t.seller_in) in
          record {
            buyer_in = b_in;
            seller_in = s_in;
            buyer_symbol = b_symbol ∙ sym t.of_symbol;
            seller_symbol = s_symbol ∙ sym t.of_symbol;
            buyer_side = b_side;
            seller_side = s_side;
            minimum = minimum;
            listed = ap (λ k. lookup k markets) t.of_symbol ∙ e;
            enough = t.enough;
          }

  match_symbols-IsListed :
      (symbols : List Bytes)
      → All
          (IsListed markets rs)
          (match_symbols lib batch_id pool_id markets (by_symbol [] rs) symbols)
  unfolding match_symbols match_symbol
  match_symbols-IsListed [] = tt
  match_symbols-IsListed (s ∷ symbols) =
      All-append (IsListed markets rs) _ _
        (rw (groups-of_symbol s rs) (match_market-IsListed s (lookup s markets) refl))
        (match_symbols-IsListed symbols)

-- Every match of a run joins a revealed buy and a revealed sell of its own symbol, in a market
-- that the input lists, and fills at least the minimum that the last entry of that market sets.
pub run_matching-IsListed :
    (lib : Libraries) (input : MatchingInput)
    → All (IsListed (market_map [] input.markets) input.reveals) (run_matching lib input)
unfolding run_matching
run_matching-IsListed lib input =
    match_symbols-IsListed lib input.batch_id input.pool_id (market_map [] input.markets)
      input.reveals (sort_by lex_ltb (keys (by_symbol [] input.reveals)))
