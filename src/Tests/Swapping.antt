-- ===== src/Tests/Swapping.antt =====
-- The swap phase at concrete inputs: of two matches that this node pays for, one has a side that the
-- cache calls inactive.
use deadmkt_node.Prelude.{
  ◌≡◌, refl, true, false, ◌==◌, bytes_eq, if◌then◌else◌, some, none, List, [], ◌∷◌, String,
  string_eq, All,
}
use deadmkt_node.Maps.{lookup, insert, remove, contains, contains_key}
use deadmkt_node.Bytes.{Bytes}
use deadmkt_node.Matching.{Match}
use deadmkt_node.Escrow.Defs.{
  TokenBalance, EscrowTracker, token_projected, reserve_outflow, track_inflow, quote_amount,
  apply_match, has_pending, each_balance, release_pending,
}
use deadmkt_node.Escrow.IsActiveCache.{IsActiveCache, get}
use deadmkt_node.Settlement.Defs.{
  new, inactive, register_match, register_skipped, release_pending_internal,
}
use deadmkt_node.Settlement.Refinement.{Run}
use deadmkt_node.Settlement.Swap.{
  Node, Swap, Moment, tokens_of, dead_nft, after_register, swap_match, swap_matches,
}
use deadmkt_node.Settlement.Queued.{IsDue, request, queued_are_reserved}
use deadmkt_node.Tests.Data.{revealed}

abbrev funded : TokenBalance
funded = record { confirmed = 1000; pending_out = []; pending_in = []; earmarked = 100 }

abbrev tracker : EscrowTracker
tracker = record { balances = ("EMM", funded) ∷ ("KAY", funded) ∷ [] }

abbrev hex : Bytes → String
hex b = if b == (9 ∷ []) then "m" else "n"

abbrev symbol : Bytes → String
symbol b = "EMM/KAY"

-- Node 1 buys 500 from node 2, and 100 from node 3.
abbrev first : Match
first = record {
  batch_id = 3;
  pool_id = 0;
  symbol = 7 ∷ [];
  buyer = revealed 1 1 100000000 500;
  seller = revealed 2 0 80000000 500;
  fill_quantity = 500;
  settlement_price = 90000000;
  match_hash = 9 ∷ [];
  gas_payer_nft_id = 1;
}

abbrev second : Match
second = record first {
  seller = revealed 3 0 80000000 100;
  fill_quantity = 100;
  match_hash = 8 ∷ [];
}

abbrev cache : IsActiveCache
cache = record {
  entries = (3, record { is_active = false; fetched_at = 5 }) ∷ [];
  ttl = 60;
  max_entries = 10;
}

abbrev node : Node
node = record {
  nft_id = 1;
  swap_start_block = 100;
  blocks_per_batch = 50;
  token_decimals = ("EMM", 8) ∷ ("KAY", 8) ∷ [];
  is_active_cache = cache;
}

abbrev now : Moment
now = record { at_buyer = 10; at_seller = 10; has_room = true }

abbrev matches : List (Match × Moment)
matches = (first, now) ∷ (second, now) ∷ []

abbrev before : Swap
before = record { manager = new tracker 1; filter_skipped_inactive = 0 }

abbrev after : Swap
after = record {
  manager = record (new tracker 1) {
    tracker = record {
      balances =
          ("EMM", record funded { pending_in = ("m", 500) ∷ [] })
          ∷ ("KAY", record funded { pending_out = ("m", 500) ∷ [] })
          ∷ [];
    };
    pending =
        (
          "m",
          record {
            m = first;
            is_gas_payer = true;
            submitted_at = none;
            tx_hash = none;
            backstop_eligible_at = 150;
            created_at_batch = 3;
          },
        )
        ∷ [];
    skipped_inactive_total = 1;
    skipped_last = ("n", inactive 3) ∷ [];
  };
  filter_skipped_inactive = 1;
}

swapped : swap_matches hex symbol node matches before ≡ some (after, request "m" first ∷ [])
unfolding swap_matches swap_match tokens_of after_register dead_nft get register_match apply_match
    quote_amount reserve_outflow track_inflow token_projected register_skipped
    release_pending_internal release_pending each_balance lookup insert remove
swapped = refl

queued_are_reserved_example :
    All
      (λ q.
        IsDue hex node matches q
        × (contains_key q.match_hash after.manager.pending ≡ true)
        × (has_pending q.match_hash after.manager.tracker ≡ true))
      (request "m" first ∷ [])
unfolding contains has_pending lookup
queued_are_reserved_example =
    queued_are_reserved hex node symbol matches before after [] (request "m" first ∷ [])
      (Run.begins tracker 1 (λ j. refl)) refl swapped
