-- ===== src/Escrow/Defs.antt =====
-- crates/escrow_tracker/src/lib.rs: the balances of this node's escrow.
use deadmkt_node.Prelude.{
  ℕ, ◌+◌, ◌-◌, ◌*◌, ◌%◌, ◌^◌, Bool, true, false, ◌||◌, not, ltb, if◌then◌else◌, Option, none, some,
  [], ◌∷◌, string_eq, String, any, sum_by, u64_add, div_or_panic, ◌>>=◌,
}
use deadmkt_node.Maps.{Map, lookup, insert, remove, contains_key, get_or}

pub data EscrowError : Type 0 where
  insufficient_balance : (need have : ℕ) → EscrowError
  unknown_token : (token : String) → EscrowError
  duplicate_pending : (match_hash : String) → EscrowError
  pending_not_found : (match_hash : String) → EscrowError
  earmark_exceeds_projected : (need have : ℕ) → EscrowError

-- `Result<(), EscrowError>`
pub data EscrowResult : Type 0 where
  ok : EscrowResult
  err : EscrowError → EscrowResult

pub data Side : Type 0 where
  buy sell : Side

pub record TokenBalance : Type 0 where
  pub confirmed : ℕ
  pub pending_out : Map String ℕ
  pub pending_in : Map String ℕ
  pub earmarked : ℕ

-- `Default`
abbrev pub empty_balance : TokenBalance
empty_balance = record { confirmed = 0; pending_out = []; pending_in = []; earmarked = 0 }

-- The sums wrap in 64 bits.
abbrev pub total : Map String ℕ → ℕ
total m = sum_by (λ e. e.1) m % 2 ^ 64

unfoldable pub token_projected : TokenBalance → ℕ
token_projected b = b.confirmed - total b.pending_out - b.earmarked

pub record EscrowTracker : Type 0 where
  pub balances : Map String TokenBalance

abbrev pub new_tracker : EscrowTracker
new_tracker = record { balances = [] }

-- `entry(token).or_default()`: the balance, which is stored where the token was unknown.
abbrev pub entry : String → EscrowTracker → TokenBalance
entry token t = get_or empty_balance (lookup token t.balances)

abbrev pub store : String → TokenBalance → EscrowTracker → EscrowTracker
store token b t = record { balances = insert token b t.balances }

unfoldable pub set_confirmed : String → ℕ → EscrowTracker → EscrowTracker
set_confirmed token amount t = store token (record (entry token t) { confirmed = amount }) t

unfoldable pub reserve_outflow : String → String → ℕ → EscrowTracker → EscrowTracker × EscrowResult
reserve_outflow token match_hash amount t =
    let b = entry token t in
    if contains_key match_hash b.pending_out
    then (store token b t, err (duplicate_pending match_hash))
    else if ltb (token_projected b) amount
    then (store token b t, err (insufficient_balance amount (token_projected b)))
    else (store token (record b { pending_out = insert match_hash amount b.pending_out }) t, ok)

unfoldable pub track_inflow : String → String → ℕ → EscrowTracker → EscrowTracker × EscrowResult
track_inflow token match_hash amount t =
    let b = entry token t in
    if contains_key match_hash b.pending_in
    then (store token b t, err (duplicate_pending match_hash))
    else (store token (record b { pending_in = insert match_hash amount b.pending_in }) t, ok)

-- The bodies of the loops over `values_mut`, with what they report as found.
abbrev pub is_pending : String → TokenBalance → Bool
is_pending match_hash b =
    contains_key match_hash b.pending_out || contains_key match_hash b.pending_in

abbrev pub settled : String → TokenBalance → TokenBalance
settled match_hash b = record {
  confirmed = u64_add b.confirmed (get_or 0 (lookup match_hash b.pending_in));
  pending_out = remove match_hash b.pending_out;
  pending_in = remove match_hash b.pending_in;
  earmarked = b.earmarked;
}

abbrev pub released : String → TokenBalance → TokenBalance
released match_hash b = record {
  confirmed = b.confirmed;
  pending_out = remove match_hash b.pending_out;
  pending_in = remove match_hash b.pending_in;
  earmarked = b.earmarked;
}

unfoldable pub each_balance :
    (String → TokenBalance → TokenBalance)
    → String
    → Map String TokenBalance
    → Map String TokenBalance × Bool
each_balance body match_hash [] = ([], false)
each_balance body match_hash ((token, b) ∷ m) =
    let rest = each_balance body match_hash m in
    ((token, body match_hash b) ∷ rest.0, is_pending match_hash b || rest.1)

abbrev pub found_or_err : String → Bool → EscrowResult
found_or_err match_hash true = ok
found_or_err match_hash false = err (pending_not_found match_hash)

unfoldable pub confirm_settlement : String → EscrowTracker → EscrowTracker × EscrowResult
confirm_settlement match_hash t =
    let after = each_balance settled match_hash t.balances in
    (record { balances = after.0 }, found_or_err match_hash after.1)

unfoldable pub release_pending : String → EscrowTracker → EscrowTracker × EscrowResult
release_pending match_hash t =
    let after = each_balance released match_hash t.balances in
    (record { balances = after.0 }, found_or_err match_hash after.1)

unfoldable pub earmark_withdrawal : String → ℕ → EscrowTracker → EscrowTracker × EscrowResult
earmark_withdrawal token amount t =
    let b = entry token t in
    if ltb (token_projected b) amount
    then (store token b t, err (earmark_exceeds_projected amount (token_projected b)))
    else (store token (record b { earmarked = u64_add b.earmarked amount }) t, ok)

abbrev pub without_earmark : ℕ → Bool → TokenBalance → TokenBalance
without_earmark amount executed b = record b {
  earmarked = b.earmarked - amount;
  confirmed = if executed then b.confirmed - amount else b.confirmed;
}

abbrev pub release_found :
    String → ℕ → Bool → EscrowTracker → Option TokenBalance → EscrowTracker × EscrowResult
release_found token amount executed t none = (t, err (unknown_token token))
release_found token amount executed t (some b) =
    (store token (without_earmark amount executed b) t, ok)

unfoldable pub release_earmark : String → ℕ → Bool → EscrowTracker → EscrowTracker × EscrowResult
release_earmark token amount executed t =
    release_found token amount executed t (lookup token t.balances)

abbrev pub projected_or_zero : Option TokenBalance → ℕ
projected_or_zero none = 0
projected_or_zero (some b) = token_projected b

unfoldable pub projected : String → EscrowTracker → ℕ
projected token t = projected_or_zero (lookup token t.balances)

unfoldable pub can_afford : String → ℕ → EscrowTracker → Bool
unfolding projected
can_afford token amount t = not (ltb (projected token t) amount)

unfoldable pub safe_transfer_max : String → ℕ → EscrowTracker → ℕ
safe_transfer_max token base_capital t = projected token t - base_capital

-- `?` after the reservation
abbrev pub and_then :
    EscrowTracker × EscrowResult
    → (EscrowTracker → EscrowTracker × EscrowResult)
    → EscrowTracker × EscrowResult
and_then (t, ok) f = f t
and_then (t, err e) f = (t, err e)

-- The exponent is a `u32`, the power and the products are `u128`s, the quotient becomes a `u64`.
unfoldable pub quote_amount : (fill_quantity price base_decimals quote_decimals : ℕ) → Option ℕ
quote_amount fill_quantity price base_decimals quote_decimals =
    let exponent = (base_decimals + 8 + 2 ^ 32 - quote_decimals) % 2 ^ 32 in
    div_or_panic (fill_quantity * price) (10 ^ exponent % 2 ^ 128) >>= λ q. some (q % 2 ^ 64)

-- `none` is the panic of a division by zero.
unfoldable pub apply_match :
    (match_hash : String)
    → Side
    → (base_token quote_token : String)
    → (fill_quantity buyer_price settlement_price base_decimals quote_decimals : ℕ) → EscrowTracker
    → Option (EscrowTracker × EscrowResult)
apply_match match_hash Side.buy base_token quote_token fill_quantity buyer_price settlement_price
      base_decimals quote_decimals t =
    quote_amount fill_quantity buyer_price base_decimals quote_decimals >>= λ quote_outflow. some (
      and_then (reserve_outflow quote_token match_hash quote_outflow t)
        (track_inflow base_token match_hash fill_quantity))
apply_match match_hash Side.sell base_token quote_token fill_quantity buyer_price settlement_price
      base_decimals quote_decimals t =
    quote_amount fill_quantity settlement_price base_decimals quote_decimals >>= λ quote_inflow.
    some (
      and_then (reserve_outflow base_token match_hash fill_quantity t)
        (track_inflow quote_token match_hash quote_inflow))

unfoldable pub has_pending : String → EscrowTracker → Bool
has_pending match_hash t = any (λ e. is_pending match_hash e.1) t.balances
