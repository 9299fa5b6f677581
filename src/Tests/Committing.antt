-- ===== src/Tests/Committing.antt =====
-- The orders of a strategy that a node commits, at a concrete input.
use deadmkt_node.Prelude.{
  ℕ, ◌%◌, ◌^◌, ◌≤◌, ◌≡◌, refl, some, List, [], ◌∷◌, map, length, String, string_eq, bytes_eq, All,
}
use deadmkt_node.Maps.{Map, lookup, insert, add, contains}
use deadmkt_node.Bytes.{Bytes}
use deadmkt_node.Chain.{BatchParams}
use deadmkt_node.Matching.{MarketConfig}
use deadmkt_node.Escrow.Defs.{EscrowTracker, token_projected, projected}
use deadmkt_node.Text.Search.{Text, codes}
use deadmkt_node.Text.Parse.{digit_of, parse_digits, from_str_radix}
use deadmkt_node.Orchestrator.Phases.{ValidatedOrder}
use deadmkt_node.Strategy.Convert.{
  OrderSpec, CanonicalOrder, parse_decimal_to_fixed, base_token, quote_token, convert_order,
}
use deadmkt_node.Strategy.Validate.{
  compute_outflow, check_order, check_spec, check_specs, validate_orders,
}
use deadmkt_node.Strategy.Limits.{Charged, taken}
use deadmkt_node.Strategy.Commit.{
  balances_of, pairs_of, min_quantities_of, validation_context, sign_canonical,
  convert_strategy_orders,
}
use deadmkt_node.Strategy.Committed.{Opens, committed_within_escrow}
use deadmkt_node.Tests.Data.{stand_in}
use deadmkt_node.Tests.Signing.{stand_in-Signs}

abbrev spec : OrderSpec
spec = record {
  pair = codes "E/K";
  side = codes "sell";
  price = codes "0.05";
  quantity = codes "2.5";
}

abbrev params : BatchParams
params = record {
  blocks_per_batch = 10;
  commit_blocks = 4;
  reveal_blocks = 2;
  match_blocks = 2;
  swap_blocks = 2;
  commits_per_batch = 3;
}

abbrev tracker : EscrowTracker
tracker = record {
  balances =
      ("E", record { confirmed = 300; pending_out = []; pending_in = []; earmarked = 0 }) ∷ [];
}

abbrev text : Bytes → Text
text b = codes "E/K"

abbrev markets : List MarketConfig
markets = record { symbol = 7 ∷ []; min_quantity = 1 } ∷ []

abbrev decimals : Map Text ℕ
decimals = (codes "E", 2) ∷ []

abbrev converted : CanonicalOrder
converted = record {
  symbol = codes "E/K";
  side = 0;
  price = 5000000;
  quantity = 250;
  nft_id = 1;
  batch_id = 9;
  nonce = [];
}

-- The second of two equal orders exceeds the balance.
abbrev committed : List ValidatedOrder
committed = sign_canonical stand_in (5 ∷ []) converted ∷ []

commits :
    convert_strategy_orders stand_in text
      (spec ∷ spec ∷ [])
      (5 ∷ [])
      1
      9
      params
      tracker
      decimals
      markets
      (λ i. [])
    ≡ some committed
unfolding convert_strategy_orders validation_context balances_of pairs_of min_quantities_of
    token_projected add validate_orders check_specs check_spec check_order convert_order
    parse_decimal_to_fixed from_str_radix parse_digits digit_of compute_outflow base_token
    quote_token lookup insert contains
commits = refl

committed_within_escrow_example :
    All (Opens stand_in (5 ∷ [])) committed
    × (length committed ≤ 3 % 2 ^ 32)
    × ((orders : List CanonicalOrder) × (charges : List (Text × ℕ)) × (committed
          ≡ map (sign_canonical stand_in (5 ∷ [])) orders)
        × Charged (validation_context text 1 9 params tracker decimals markets) orders charges
        × ((token : String) → taken (codes token) charges % 2 ^ 64 ≤ projected token tracker))
committed_within_escrow_example =
    committed_within_escrow stand_in (λ secret. secret) stand_in-Signs text (spec ∷ spec ∷ [])
      (5 ∷ []) 1 9 params tracker decimals markets (λ i. []) committed commits
