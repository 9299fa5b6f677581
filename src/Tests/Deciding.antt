-- ===== src/Tests/Deciding.antt =====
-- Orders of a strategy and the phases of a batch at concrete inputs.
use deadmkt_node.Prelude.{
  ℕ, ◌+◌, ◌*◌, ◌%◌, ◌^◌, ◌≤◌, ◌<◌, ◌≡◌, refl, some, List, [], ◌∷◌, length, string_eq, ltb,
  if◌then◌else◌, arith, bytes_eq, nat_eq,
}
use deadmkt_node.Maps.{lookup, insert, contains}
use deadmkt_node.Text.Search.{Text, codes, trim}
use deadmkt_node.Text.Parse.{digit_of, parse_digits, from_str_radix, denotes}
use deadmkt_node.Strategy.Convert.{
  OrderSpec, CanonicalOrder, parts, parse_decimal_to_fixed, base_token, quote_token, convert_order,
}
use deadmkt_node.Strategy.Decimal.{fraction_value, parse_decimal_exact}
use deadmkt_node.Strategy.Validate.{
  OrderValidationContext, ValidationResult, projected_for, compute_outflow, check_order, check_spec,
  check_specs, validate_orders,
}
use deadmkt_node.Strategy
use deadmkt_node.Strategy.Limits.{Charged, taken, validated_within_balance}
use deadmkt_node.Strategy.Accounts.{Answers, validated_all_answered}

abbrev spec : OrderSpec
spec = record {
  pair = codes "E/K";
  side = codes "sell";
  price = codes "0.05";
  quantity = codes "2.5";
}

abbrev ctx : OrderValidationContext
ctx = record {
  active_pairs = codes "E/K" ∷ [];
  min_quantities = (codes "E/K", 1) ∷ [];
  token_decimals = (codes "E", 2) ∷ [];
  projected_balances = (codes "E", 300) ∷ [];
  commits_per_batch = 3;
  nft_id = 1;
  batch_id = 9;
}

abbrev accepted : CanonicalOrder
accepted = record {
  symbol = codes "E/K";
  side = 0;
  price = 5000000;
  quantity = 250;
  nft_id = 1;
  batch_id = 9;
  nonce = [];
}

parsed : parse_decimal_to_fixed (codes " 12.5") 3 ≡ some 12500
unfolding parse_decimal_to_fixed from_str_radix parse_digits digit_of
parsed = refl

parse_decimal_exact_example :
    (whole part : ℕ) × (denotes 10 0 (parts (trim (codes " 12.5"))).0 ≡ some whole)
    × (fraction_value (parts (trim (codes " 12.5"))).1 3 ≡ some part)
    × (12500 ≡ whole * 10 ^ 3 + part)
    × (12500 < 2 ^ 64)
parse_decimal_exact_example = parse_decimal_exact (codes " 12.5") 3 12500 (omega arith) parsed

-- The second of two equal orders exceeds the balance.
abbrev answered : ValidationResult
answered = record { orders = accepted ∷ []; warnings = Strategy.Validate.exceeds_projected 1 ∷ [] }

validated : validate_orders (spec ∷ spec ∷ []) ctx (λ i. []) ≡ some answered
unfolding validate_orders check_specs check_spec check_order convert_order parse_decimal_to_fixed
    from_str_radix parse_digits digit_of compute_outflow base_token quote_token lookup insert
    contains
validated = refl

validated_within_balance_example :
    (charges : List (Text × ℕ)) × (Charged ctx answered.orders charges)
    × ((token : Text) → taken token charges % 2 ^ 64 ≤ projected_for ctx token)
validated_within_balance_example =
    validated_within_balance (spec ∷ spec ∷ []) ctx (λ i. []) answered validated

validated_all_answered_example :
    (length answered.orders ≤ 3)
    × ((warnings : List Strategy.Validate.Warning) × (answered.warnings
          ≡ (if ltb 3 2 then Strategy.Validate.truncated 2 3 ∷ warnings else warnings))
        × Answers ctx (λ i. []) 0 (spec ∷ spec ∷ []) answered.orders warnings)
validated_all_answered_example =
    validated_all_answered (spec ∷ spec ∷ []) ctx (λ i. []) answered validated
