-- ===== src/Strategy/Commit.antt =====
-- src/run.rs, `convert_strategy_orders`: a strategy's orders become the orders that the node commits.
use deadmkt_node.Prelude.{
  ℕ, ◌%◌, ◌^◌, Option, some, List, [], ◌∷◌, map, ◌>>=◌, String, string_eq, nat_eq, bytes_eq,
}
use deadmkt_node.Maps.{Map, insert, add}
use deadmkt_node.Bytes.{Bytes}
use deadmkt_node.Crypto.{Libraries, Order, encode_order, commit_hash, sign_order}
use deadmkt_node.Chain.{BatchParams}
use deadmkt_node.Matching.{MarketConfig}
use deadmkt_node.Escrow.Defs.{EscrowTracker, TokenBalance, token_projected}
use deadmkt_node.Text.Search.{Text, codes}
use deadmkt_node.Orchestrator.Phases.{ValidatedOrder}
use deadmkt_node.Strategy.Convert.{OrderSpec, CanonicalOrder}
use deadmkt_node.Strategy.Validate.{OrderValidationContext, validate_orders}

-- The texts of the tracker's tokens are read as lists of code points.
unfoldable pub balances_of : Map String TokenBalance → Map Text ℕ
balances_of [] = []
balances_of ((token, b) ∷ m) = insert (codes token) (token_projected b) (balances_of m)

module _ (from_utf8_lossy : Bytes → Text) where
  unfoldable pub pairs_of : List MarketConfig → List Text
  pairs_of [] = []
  pairs_of (mc ∷ rest) = add (from_utf8_lossy mc.symbol) (pairs_of rest)

  -- A later market of the same symbol overwrites an earlier one.
  unfoldable pub min_quantities_of : List MarketConfig → Map Text ℕ → Map Text ℕ
  min_quantities_of [] mins = mins
  min_quantities_of (mc ∷ rest) mins =
      min_quantities_of rest (insert (from_utf8_lossy mc.symbol) mc.min_quantity mins)

  unfoldable pub validation_context :
      (nft_id batch_id : ℕ)
      → BatchParams
      → EscrowTracker
      → (token_decimals : Map Text ℕ) → List MarketConfig
      → OrderValidationContext
  unfolding balances_of pairs_of min_quantities_of
  validation_context nft_id batch_id params tracker token_decimals market_configs = record {
    active_pairs = pairs_of market_configs;
    min_quantities = min_quantities_of market_configs [];
    token_decimals = token_decimals;
    projected_balances = balances_of tracker.balances;
    commits_per_batch = params.commits_per_batch % 2 ^ 32;
    nft_id = nft_id;
    batch_id = batch_id;
  }

abbrev pub order_of : CanonicalOrder → Order
order_of canonical = record {
  nft_id = canonical.nft_id;
  symbol = canonical.symbol;
  side = canonical.side;
  price = canonical.price;
  quantity = canonical.quantity;
  batch_id = canonical.batch_id;
  nonce = canonical.nonce;
}

unfoldable pub sign_canonical : Libraries → (signing_key : Bytes) → CanonicalOrder → ValidatedOrder
sign_canonical lib signing_key canonical = record {
  commit_hash = commit_hash lib (order_of canonical);
  order_bytes = encode_order lib (order_of canonical);
  signature = sign_order lib signing_key (order_of canonical);
}

-- The nonces of the random generator are an argument; `none` is a panic of `validate_orders`.
unfoldable pub convert_strategy_orders :
    Libraries
    → (from_utf8_lossy : Bytes → Text) → List OrderSpec
    → (signing_key : Bytes) → (nft_id batch_id : ℕ) → BatchParams
    → EscrowTracker
    → (token_decimals : Map Text ℕ) → List MarketConfig
    → (nonce_fn : ℕ → Bytes) → Option (List ValidatedOrder)
unfolding validation_context sign_canonical
convert_strategy_orders lib from_utf8_lossy order_specs signing_key nft_id batch_id params tracker
      token_decimals market_configs nonce_fn =
    validate_orders order_specs
      (validation_context from_utf8_lossy nft_id batch_id params tracker token_decimals
        market_configs)
      nonce_fn
    >>= λ result. some (map (sign_canonical lib signing_key) result.orders)
