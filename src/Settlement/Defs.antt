-- ===== src/Settlement/Defs.antt =====
-- crates/settlement/src/lib.rs: the settlement manager, from the actions on. The tracker that it
-- shares with the rest of the node by `Arc<Mutex<_>>` is a field of its state.
use deadmkt_node.Prelude.{
  ℕ, ◌+◌, ◌%◌, ◌^◌, Bool, true, false, ◌&&◌, ◌||◌, ◌==◌, if◌then◌else◌, Option, none, some, [], ◌∷◌,
  u64_add, ◌>>=◌, String, string_eq, nat_eq,
}
use deadmkt_node.Maps.{Map, lookup, insert, remove, contains_key}
use deadmkt_node.Bytes.{Bytes}
use deadmkt_node.Matching.{Match}
use deadmkt_node.Escrow.Defs.{
  EscrowTracker, EscrowResult, ok, err, Side, apply_match, confirm_settlement,
}
use deadmkt_node.Escrow
use deadmkt_node.Settlement.Codes.{AbortCode}

pub data SettlementOutcome : Type 0 where
  confirmed : (tx_hash : String) → SettlementOutcome
  already_settled : SettlementOutcome
  aborted : (code : AbortCode) → SettlementOutcome
  pending : (tx_hash : String) → SettlementOutcome

pub data SettlementAction : Type 0 where
  keep_pending release_pending enter_limited : SettlementAction

pub record PendingSettlement : Type 0 where
  pub m : Match
  pub is_gas_payer : Bool
  pub submitted_at : Option ℕ
  pub tx_hash : Option String
  pub backstop_eligible_at : ℕ
  pub created_at_batch : ℕ

pub data SkipReason : Type 0 where
  inactive : (nft_id : ℕ) → SkipReason

pub record SettlementManager : Type 0 where
  pub tracker : EscrowTracker
  pub pending : Map String PendingSettlement
  pub own_nft_id : ℕ
  pub already_settled_count : ℕ
  pub total_settlement_count : ℕ
  pub skipped_inactive_total : ℕ
  pub skipped_last : Map String SkipReason

abbrev pub new : EscrowTracker → ℕ → SettlementManager
new t own = record {
  tracker = t;
  pending = [];
  own_nft_id = own;
  already_settled_count = 0;
  total_settlement_count = 0;
  skipped_inactive_total = 0;
  skipped_last = [];
}

-- The counters are `u32`s.
abbrev pub u32_add : ℕ → ℕ → ℕ
u32_add a b = (a + b) % 2 ^ 32

unfoldable pub release_pending_internal : String → SettlementManager → SettlementManager
release_pending_internal match_hash s =
    if contains_key match_hash s.pending
    then record s {
      pending = remove match_hash s.pending;
      tracker = (Escrow.Defs.release_pending match_hash s.tracker).0;
    }
    else s

unfoldable pub register_skipped : String → SkipReason → SettlementManager → SettlementManager
unfolding release_pending_internal
register_skipped match_hash reason s =
    let after = release_pending_internal match_hash s in
    record after {
      skipped_inactive_total = u64_add s.skipped_inactive_total 1;
      skipped_last = insert match_hash reason s.skipped_last;
    }

-- The end of `register_match`: the `?` on the tracker's answer, whose error is only put into a
-- text, and the insertion.
abbrev pub registered :
    String
    → PendingSettlement
    → SettlementManager
    → EscrowTracker × EscrowResult
    → SettlementManager × EscrowResult
registered match_hash ps s (t, ok) =
    (record s { tracker = t; pending = insert match_hash ps s.pending }, ok)
registered match_hash ps s (t, err e) = (record s { tracker = t }, err e)

abbrev pub my_side : Match → SettlementManager → Side
my_side m s = if m.buyer.order.nft_id == s.own_nft_id then Side.buy else Side.sell

module _ (hex_encode : Bytes → String) where
  -- `none` is the panic of the tracker.
  unfoldable pub register_match :
      Match
      → (is_gas_payer : Bool) → (swap_start_block blocks_per_batch : ℕ)
      → (base_token quote_token : String) → (base_decimals quote_decimals : ℕ) → SettlementManager
      → Option (SettlementManager × EscrowResult)
  register_match m is_gas_payer swap_start_block blocks_per_batch base_token quote_token
        base_decimals quote_decimals s =
      let match_hash = hex_encode m.match_hash in
      let ps : PendingSettlement = record {
        m = m;
        is_gas_payer = is_gas_payer;
        submitted_at = none;
        tx_hash = none;
        backstop_eligible_at = u64_add swap_start_block blocks_per_batch;
        created_at_batch = m.batch_id;
      } in
      apply_match match_hash (my_side m s) base_token quote_token m.fill_quantity
        m.buyer.order.price m.settlement_price base_decimals quote_decimals s.tracker
      >>= λ after. some (registered match_hash ps s after)

pub record BatchTradeSettledEvent : Type 0 where
  pub batch_id : ℕ
  pub pool_id : ℕ
  pub trade_id : String
  pub buyer_nft_id : ℕ
  pub seller_nft_id : ℕ
  pub symbol : Bytes
  pub buyer_price : ℕ
  pub seller_price : ℕ
  pub clearing_price : ℕ
  pub base_amount : ℕ
  pub quote_amount : ℕ
  pub buyer_order_hash : String
  pub seller_order_hash : String
  pub gas_payer : String
  pub timestamp : ℕ

abbrev pub is_trade_of : BatchTradeSettledEvent → PendingSettlement → Bool
is_trade_of event ps =
    ps.m.batch_id == event.batch_id
    && ps.m.buyer.order.nft_id == event.buyer_nft_id
    && ps.m.seller.order.nft_id == event.seller_nft_id
    && ps.m.fill_quantity == event.base_amount

-- The scan by fields, in the order of the map.
unfoldable pub scan_fields : BatchTradeSettledEvent → Map String PendingSettlement → Option String
scan_fields event [] = none
scan_fields event ((key, ps) ∷ m) = if is_trade_of event ps then some key else scan_fields event m

unfoldable pub find_pending_for_event : BatchTradeSettledEvent → SettlementManager → Option String
unfolding scan_fields
find_pending_for_event event s =
    if contains_key event.trade_id s.pending
    then some event.trade_id
    else scan_fields event s.pending

abbrev pub confirmed_key : SettlementManager → Option String → SettlementManager × Bool
confirmed_key s none = (s, false)
confirmed_key s (some key) = (
  record s { tracker = (confirm_settlement key s.tracker).0; pending = remove key s.pending },
  true,
)

unfoldable pub on_settlement_confirmed :
    BatchTradeSettledEvent → SettlementManager → SettlementManager × Bool
on_settlement_confirmed event s = confirmed_key s (find_pending_for_event event s)

-- `self.pending.get(match_hash)` and a test of the entry
abbrev pub holds_for : (PendingSettlement → Bool) → Option PendingSettlement → Bool
holds_for test none = false
holds_for test (some ps) = test ps

abbrev pub own_buyer : String → SettlementManager → Bool
own_buyer match_hash s =
    holds_for (λ ps. ps.m.buyer.order.nft_id == s.own_nft_id) (lookup match_hash s.pending)

abbrev pub own_seller : String → SettlementManager → Bool
own_seller match_hash s =
    holds_for (λ ps. ps.m.seller.order.nft_id == s.own_nft_id) (lookup match_hash s.pending)

abbrev pub own_either : String → SettlementManager → Bool
own_either match_hash s =
    holds_for
      (λ ps. ps.m.buyer.order.nft_id == s.own_nft_id || ps.m.seller.order.nft_id == s.own_nft_id)
      (lookup match_hash s.pending)

abbrev pub is_already_settled : AbortCode → Bool
is_already_settled AbortCode.already_settled = true
is_already_settled _ = false

abbrev pub count_failure : AbortCode → SettlementManager → SettlementManager
count_failure code s = record s {
  total_settlement_count = u32_add s.total_settlement_count 1;
  already_settled_count =
      if is_already_settled code
      then u32_add s.already_settled_count 1
      else s.already_settled_count;
}

abbrev pub limited_if : Bool → SettlementAction
limited_if own = if own then enter_limited else release_pending

-- The arms of the match on the code.
unfoldable pub route_abort :
    String → AbortCode → SettlementManager → SettlementManager × SettlementAction
route_abort match_hash AbortCode.already_settled s = (s, keep_pending)
route_abort match_hash AbortCode.insufficient_balance s = (s, keep_pending)
route_abort match_hash AbortCode.buyer_inactive s =
    (release_pending_internal match_hash s, limited_if (own_buyer match_hash s))
route_abort match_hash AbortCode.seller_inactive s =
    (release_pending_internal match_hash s, limited_if (own_seller match_hash s))
route_abort match_hash AbortCode.nft_blocked s =
    (release_pending_internal match_hash s, limited_if (own_either match_hash s))
route_abort match_hash AbortCode.nft_burned s =
    (release_pending_internal match_hash s, limited_if (own_either match_hash s))
route_abort match_hash _ s = (release_pending_internal match_hash s, release_pending)

unfoldable pub on_settlement_failed :
    String → AbortCode → SettlementManager → SettlementManager × SettlementAction
on_settlement_failed match_hash code s = route_abort match_hash code (count_failure code s)
