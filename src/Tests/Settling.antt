-- ===== src/Tests/Settling.antt =====
-- The settlement manager at concrete inputs: a match is registered, fails and expires.
use deadmkt_node.Prelude.{
  nat_eq, ◌&&◌, ltb, ◌>>=◌, ◌%◌, ◌^◌, ◌+◌, ◌-◌, ◌≡◌, refl, true, false, some, none, List, [], ◌∷◌,
  String, string_eq, Nodup, if◌then◌else◌, arith,
}
use mathlib.Core.List.{Nodup-cons, Nodup-nil, not-mem-nil}
use deadmkt_node.Maps.{lookup, insert, remove, contains, contains_key, keys}
use deadmkt_node.Bytes.{Bytes}
use deadmkt_node.Matching.{Match}
use deadmkt_node.Escrow.Defs.{
  TokenBalance, EscrowTracker, ok, entry, token_projected, reserve_outflow, track_inflow, projected,
  quote_amount, apply_match, has_pending, each_balance, release_pending,
}
use deadmkt_node.Settlement.Codes.{AbortCode}
use deadmkt_node.Settlement.Defs.{
  SettlementManager, PendingSettlement, new, register_match, release_pending_internal, route_abort,
  on_settlement_failed,
}
use deadmkt_node.Settlement.Pending.{expire_stale, SettleResult, process_result}
use deadmkt_node.Settlement.Agreement.{Change, starts, ends, change}
use deadmkt_node.Settlement.Refinement.{
  Step, Run, replay, manager_refines_replay, all_ended_unlocks,
}
use deadmkt_node.Settlement.Failures.{verdict, blamed_in, failed_outcome, third_party_reserves}
use deadmkt_node.Settlement.Expiry.{expire_stale_exact}
use deadmkt_node.Tests.Data.{revealed}

abbrev funded : TokenBalance
funded = record { confirmed = 1000; pending_out = []; pending_in = []; earmarked = 100 }

abbrev tracker : EscrowTracker
tracker = record { balances = ("EMM", funded) ∷ ("KAY", funded) ∷ [] }

abbrev hex : Bytes → String
hex b = "m"

-- Trader 1 buys 500 from trader 2.
abbrev trade : Match
trade = record {
  batch_id = 3;
  pool_id = 0;
  symbol = 7 ∷ [];
  buyer = revealed 1 1 100000000 500;
  seller = revealed 2 0 80000000 500;
  fill_quantity = 500;
  settlement_price = 90000000;
  match_hash = 9 ∷ [];
  gas_payer_nft_id = 1;
}

abbrev entry_of_trade : PendingSettlement
entry_of_trade = record {
  m = trade;
  is_gas_payer = true;
  submitted_at = none;
  tx_hash = none;
  backstop_eligible_at = 150;
  created_at_batch = 3;
}

abbrev waiting : SettlementManager
waiting = record (new tracker 1) {
  tracker = record {
    balances =
        ("EMM", record funded { pending_in = ("m", 500) ∷ [] })
        ∷ ("KAY", record funded { pending_out = ("m", 500) ∷ [] })
        ∷ [];
  };
  pending = ("m", entry_of_trade) ∷ [];
}

registered_trade :
    register_match hex trade true 100 50 "EMM" "KAY" 8 8 (new tracker 1) ≡ some (waiting, ok)
unfolding register_match apply_match quote_amount reserve_outflow track_inflow token_projected
    lookup insert
registered_trade = refl

waits : Run hex (starts "m" ∷ []) waiting
unfolding has_pending lookup
waits = Run.goes_on (starts "m") [] (new tracker 1) waiting (Run.begins tracker 1 (λ j. refl)) (
    Step.registers_match trade true 100 50 "EMM" "KAY" 8 8 (new tracker 1) waiting ok
      registered_trade)

abbrev overfilled : SettleResult
overfilled = SettleResult.failed "m" AbortCode.buyer_overfill

abbrev trace : List Change
trace = ends ("m" ∷ []) ∷ starts "m" ∷ []

abbrev ended : SettlementManager
ended = (process_result overfilled waiting).0

runs : Run hex trace ended
runs =
    Run.goes_on (ends ("m" ∷ [])) (starts "m" ∷ []) waiting ended waits
      (Step.gets_result overfilled waiting)

manager_refines_replay_example :
    (contains_key "m" ended.pending ≡ replay trace "m")
    × (has_pending "m" ended.tracker ≡ replay trace "m")
manager_refines_replay_example = manager_refines_replay hex trace ended runs "m"

all_ended : (j : String) → replay trace j ≡ false
unfolding replay change contains
all_ended j = ground arith

all_ended_unlocks_example : projected "EMM" ended.tracker ≡ 1000 - 100
unfolding process_result on_settlement_failed route_abort release_pending_internal release_pending
    each_balance lookup remove
all_ended_unlocks_example =
    all_ended_unlocks hex trace ended "EMM" (record funded { pending_in = [] }) runs all_ended refl

failed_outcome_example :
    ((on_settlement_failed "m" AbortCode.buyer_inactive waiting).1
      ≡ verdict false (
          contains waiting.own_nft_id
            (blamed_in AbortCode.buyer_inactive (lookup "m" waiting.pending))))
    × (lookup "m" (on_settlement_failed "m" AbortCode.buyer_inactive waiting).0.pending
        ≡ (if string_eq.beq "m" "m" && true then none else lookup "m" waiting.pending))
    × ((on_settlement_failed "m" AbortCode.buyer_inactive waiting).0.total_settlement_count
        ≡ (0 + 1) % 2 ^ 32)
    × ((on_settlement_failed "m" AbortCode.buyer_inactive waiting).0.already_settled_count ≡ 0)
failed_outcome_example = failed_outcome "m" AbortCode.buyer_inactive waiting "m"

one_key : Nodup (keys waiting.pending)
one_key = Nodup-cons.1 (not-mem-nil, Nodup-nil)

expire_stale_exact_example : lookup "m" (expire_stale 200 100 waiting).pending ≡ (
    lookup "m" waiting.pending >>= λ ps.
    if ltb ((ps.created_at_batch + 100) % 2 ^ 64) 200 then none else some ps)
expire_stale_exact_example = expire_stale_exact 200 100 waiting "m" one_key

-- The same trade at node 5, which has no part in it.
abbrev misled : SettlementManager
misled = record (new tracker 5) {
  tracker = record {
    balances =
        ("EMM", record funded { pending_out = ("m", 500) ∷ [] })
        ∷ ("KAY", record funded { pending_in = ("m", 450) ∷ [] })
        ∷ [];
  };
  pending = ("m", record entry_of_trade { is_gas_payer = false }) ∷ [];
}

registered_elsewhere :
    register_match hex trade false 100 50 "EMM" "KAY" 8 8 (new tracker 5) ≡ some (misled, ok)
unfolding register_match apply_match quote_amount reserve_outflow track_inflow token_projected
    lookup insert
registered_elsewhere = refl

third_party_reserves_example :
    projected "EMM" misled.tracker + 500 ≡ token_projected (entry "EMM" tracker)
third_party_reserves_example =
    third_party_reserves hex trade false 100 50 "EMM" "KAY" 8 8 (new tracker 5) misled
      (ground arith) (ground arith) (ground (arith, string_eq.beq_iff "KAY" "EMM"))
      ((omega arith, omega arith), ((omega arith, omega arith), tt)) registered_elsewhere
