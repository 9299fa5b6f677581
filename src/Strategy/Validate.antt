-- ===== src/Strategy/Validate.antt =====
-- crates/strategy/src/convert.rs, `validate_orders`.
use deadmkt_node.Prelude.{
  ℕ, ◌+◌, ◌-◌, ◌*◌, ◌%◌, ◌^◌, zero, suc, Bool, false, not, ltb, ◌==◌, nat_eq, bytes_eq,
  if◌then◌else◌, Option, none, some, List, [], ◌∷◌, ◌++◌, length, ◌>>=◌, u64_add, div_or_panic,
}
use deadmkt_node.Maps.{Map, lookup, insert, contains, get_or}
use deadmkt_node.Bytes.{Bytes}
use deadmkt_node.Text.Search.{Text}
use deadmkt_node.Strategy.Convert.{
  OrderSpec, CanonicalOrder, StrategyError, Converted, ok, err, base_token, quote_token,
  decimals_of, convert_order,
}

pub record OrderValidationContext : Type 0 where
  pub active_pairs : List Text
  pub min_quantities : Map Text ℕ
  pub token_decimals : Map Text ℕ
  pub projected_balances : Map Text ℕ
  pub commits_per_batch : ℕ
  pub nft_id : ℕ
  pub batch_id : ℕ

-- The warnings, by what they are about, with the index of the order.
pub data Warning : Type 0 where
  truncated : (specs commits_per_batch : ℕ) → Warning
  conversion_failed : (i : ℕ) → StrategyError → Warning
  pair_not_active price_is_zero below_min_quantity exceeds_projected : (i : ℕ) → Warning

pub record ValidationResult : Type 0 where
  pub orders : List CanonicalOrder
  pub warnings : List Warning

-- The result so far, and the outflows of its orders by token.
pub record Progress : Type 0 where
  pub result : ValidationResult
  pub cumulative_outflows : Map Text ℕ

-- The worst case of an order: its token and its amount. `none` is the panic of a division by zero;
-- the exponent is a `u32`, and the quotient becomes a `u64`.
unfoldable pub compute_outflow : CanonicalOrder → (pair : Text) → Map Text ℕ → Option (Text × ℕ)
unfolding base_token quote_token
compute_outflow order pair token_decimals =
    let base_dec = decimals_of token_decimals (base_token pair) in
    let quote_dec = decimals_of token_decimals (quote_token pair) in
    if order.side == 1
    then (div_or_panic (order.quantity * order.price)
          (10 ^ ((base_dec + 8 + 2 ^ 32 - quote_dec) % 2 ^ 32) % 2 ^ 128)
        >>= λ outflow. some (quote_token pair, outflow % 2 ^ 64))
    else some (base_token pair, order.quantity)

abbrev pub warn : Warning → Progress → Progress
warn w p = record p { result = record p.result { warnings = p.result.warnings ++ (w ∷ []) } }

abbrev pub accept : CanonicalOrder → Progress → Progress
accept order p = record p { result = record p.result { orders = p.result.orders ++ (order ∷ []) } }

abbrev pub spent : Text → Progress → ℕ
spent token p = get_or 0 (lookup token p.cumulative_outflows)

abbrev pub with_spent : Text → ℕ → Progress → Progress
with_spent token amount p = record p {
  cumulative_outflows = insert token amount p.cumulative_outflows;
}

abbrev pub projected_for : OrderValidationContext → Text → ℕ
projected_for ctx token = get_or 0 (lookup token ctx.projected_balances)

-- Step 4. The entry of the token is created in any case.
abbrev pub check_balance :
    OrderValidationContext → (i : ℕ) → CanonicalOrder → Text × ℕ → Progress → Progress
check_balance ctx i order (token, amount) p =
    let new_cumulative = u64_add (spent token p) amount in
    if ltb (projected_for ctx token) new_cumulative
    then warn (exceeds_projected i) (with_spent token (spent token p) p)
    else accept order (with_spent token new_cumulative p)

abbrev pub below_min : Option ℕ → ℕ → Bool
below_min none quantity = false
below_min (some min_qty) quantity = ltb quantity min_qty

-- Steps 3 and 4, for an order that was converted.
unfoldable pub check_order :
    OrderValidationContext → (i : ℕ) → OrderSpec → CanonicalOrder → Progress → Option Progress
unfolding compute_outflow
check_order ctx i spec order p =
    if not (contains spec.pair ctx.active_pairs)
    then some (warn (pair_not_active i) p)
    else if order.price == 0
    then some (warn (price_is_zero i) p)
    else if below_min (lookup spec.pair ctx.min_quantities) order.quantity
    then some (warn (below_min_quantity i) p)
    else (compute_outflow order spec.pair ctx.token_decimals >>= λ outflow.
        some (check_balance ctx i order outflow p))

abbrev pub check_converted :
    OrderValidationContext
    → (i : ℕ) → OrderSpec
    → Converted CanonicalOrder
    → Progress
    → Option Progress
check_converted ctx i spec (err e) p = some (warn (conversion_failed i e) p)
check_converted ctx i spec (ok order) p = check_order ctx i spec order p

-- The body of the loop. The nonces of the library's random generator are an argument.
unfoldable pub check_spec :
    OrderValidationContext
    → (nonce_fn : ℕ → Bytes) → (i : ℕ) → OrderSpec
    → Progress
    → Option Progress
unfolding convert_order check_order
check_spec ctx nonce_fn i spec p =
    check_converted ctx i spec
      (convert_order spec ctx.token_decimals ctx.nft_id ctx.batch_id (nonce_fn i)) p

unfoldable pub check_specs :
    OrderValidationContext
    → (nonce_fn : ℕ → Bytes) → (i : ℕ) → List OrderSpec
    → Progress
    → Option Progress
unfolding check_spec
check_specs ctx nonce_fn i [] p = some p
check_specs ctx nonce_fn i (spec ∷ specs) p =
    check_spec ctx nonce_fn i spec p >>= λ q. check_specs ctx nonce_fn (i + 1) specs q

abbrev pub first : {A : Type 0} → ℕ → List A → List A
first zero xs = []
first (suc n) [] = []
first (suc n) (x ∷ xs) = x ∷ first n xs

-- Step 1.
abbrev pub begin : OrderValidationContext → ℕ → Progress
begin ctx n = record {
  result = record {
    orders = [];
    warnings = if ltb ctx.commits_per_batch n then truncated n ctx.commits_per_batch ∷ [] else [];
  };
  cumulative_outflows = [];
}

unfoldable pub validate_orders :
    List OrderSpec → OrderValidationContext → (nonce_fn : ℕ → Bytes) → Option ValidationResult
unfolding check_specs
validate_orders specs ctx nonce_fn =
    check_specs ctx nonce_fn 0 (first ctx.commits_per_batch specs) (begin ctx (length specs))
    >>= λ p. some p.result
