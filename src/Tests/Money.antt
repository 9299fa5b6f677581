-- ===== src/Tests/Money.antt =====
-- The escrow, the cache of active nodes and the batch state at concrete inputs.
use deadmkt_node.Prelude.{
  ◌*◌, ◌/◌, ◌^◌, ◌%◌, ◌-◌, ℕ, ◌+◌, ◌≤◌, ◌≡◌, refl, true, false, some, [], ◌∷◌, String, string_eq,
  bytes_eq, nat_eq, sum_by, arith,
}
use deadmkt_node.Maps.{lookup, insert}
use deadmkt_node.Escrow.Defs.{
  Side, TokenBalance, EscrowTracker, ok, new_tracker, entry, token_projected, set_confirmed,
  reserve_outflow, track_inflow, projected, quote_amount, apply_match, release_pending, has_pending,
}
use deadmkt_node.Escrow.Solvency.{Step, Reach, Reach-covered}
use deadmkt_node.Escrow.Settlement.{release-apply_match}
use deadmkt_node.Escrow.Reserve.{buyer_reserve_covers}
use deadmkt_node.Escrow.IsActiveCache
use deadmkt_node.Escrow.IsActiveCache.{
  new_cache, get, insert_fresh, Reach-bounded, get-insert_fresh,
}
use deadmkt_node.BatchState.Defs.{BatchState, transition_to, matching_input}
use deadmkt_node.BatchState.Defs
use deadmkt_node.BatchState.Lifecycle
use deadmkt_node.BatchState.Lifecycle.{lifecycle-IsValid, matching_once}
use deadmkt_node.Chain.{Phase, BatchParams}
use deadmkt_node.Matching
use deadmkt_node.Tests.Data.{stand_in, market, order, revealed, zeros_64}

abbrev funded : TokenBalance
funded = record { confirmed = 1000; pending_out = []; pending_in = []; earmarked = 100 }

-- A base and a quote token, each with a balance.
abbrev tracker : EscrowTracker
tracker = record { balances = ("EMM", funded) ∷ ("KAY", funded) ∷ [] }

abbrev funded_once : EscrowTracker
funded_once = record {
  balances =
      ("EMM", record { confirmed = 1000; pending_out = []; pending_in = []; earmarked = 0 }) ∷ [];
}

reached_funded : Reach funded_once
unfolding set_confirmed insert lookup
reached_funded =
    Reach.goes Reach.starts (Step.reads "EMM" 1000 new_tracker (omega arith) (omega arith))

Reach-covered_example :
    (sum_by (λ (e : String × ℕ). e.1) [] + 0 ≤ 1000)
    × (projected "EMM" funded_once + sum_by (λ (e : String × ℕ). e.1) [] + 0 ≡ 1000)
unfolding lookup
Reach-covered_example = Reach-covered "EMM" _ reached_funded refl

-- What a match of 500 at a price of 1 reserves and expects.
abbrev matched_balances : EscrowTracker
matched_balances = record {
  balances =
      ("EMM", record funded { pending_in = ("m", 500) ∷ [] })
      ∷ ("KAY", record funded { pending_out = ("m", 500) ∷ [] })
      ∷ [];
}

applied :
    apply_match "m" Side.buy "EMM" "KAY" 500 100000000 90000000 8 8 tracker
    ≡ some (matched_balances, ok)
unfolding apply_match quote_amount reserve_outflow track_inflow token_projected lookup insert
applied = refl

release-apply_match_example : (release_pending "m" matched_balances).0 ≡ tracker
unfolding has_pending lookup
release-apply_match_example =
    release-apply_match "m" Side.buy "EMM" "KAY" 500 100000000 90000000 8 8 tracker matched_balances
      ok (ground arith) (ground arith) refl applied

buyer_reserve_covers_example :
    (out cost : ℕ) × ((lookup "m" (entry "KAY" matched_balances).pending_out ≡ some out)
      × (out ≡ 500 * 100000000 / (10 ^ ((8 + 8 + 2 ^ 32 - 8) % 2 ^ 32) % 2 ^ 128))
      × (quote_amount 500 70000000 8 8 ≡ some cost)
      × (cost ≤ out))
buyer_reserve_covers_example =
    buyer_reserve_covers "m" "EMM" "KAY" 500 100000000 90000000 70000000 8 8 tracker
      matched_balances (omega arith) (omega arith) applied

-- A cache of one entry that takes two.
abbrev cache : IsActiveCache.IsActiveCache
cache = insert_fresh 5 2 false (insert_fresh 4 1 true (new_cache 10 1))

abbrev first_nft : ℕ
first_nft = 1

abbrev second_nft : ℕ
second_nft = 2

abbrev params : BatchParams
params = record {
  blocks_per_batch = 10;
  commit_blocks = 4;
  reveal_blocks = 3;
  match_blocks = 1;
  swap_blocks = 2;
  commits_per_batch = 5;
}

-- A commit, the reveal phase, and the reveal.
abbrev collecting : BatchState
collecting = Defs.new 3 0 Phase.commit params (market ∷ [])

abbrev with_commit : BatchState
with_commit = (Defs.add_commit 3 0 (1 ∷ 1 ∷ 20 ∷ 5 ∷ 3 ∷ 7 ∷ []) 1 zeros_64 collecting).0

abbrev revealing : BatchState
revealing = (transition_to stand_in Phase.reveal with_commit).0

lifecycle-IsValid_example :
    Lifecycle.IsValid stand_in (Defs.add_reveal stand_in (order 1 1 20 5) zeros_64 revealing).0
lifecycle-IsValid_example = lifecycle-IsValid stand_in (
    Lifecycle.Reach.steps
      (Lifecycle.Reach.steps
        (Lifecycle.Reach.steps (Lifecycle.Reach.starts 3 0 Phase.commit params (market ∷ []))
          (Lifecycle.Step.takes_commit 3 0 (1 ∷ 1 ∷ 20 ∷ 5 ∷ 3 ∷ 7 ∷ []) 1 zeros_64 collecting))
        (Lifecycle.Step.transits Phase.reveal with_commit))
      (Lifecycle.Step.takes_reveal (order 1 1 20 5) zeros_64 revealing))

-- Two revealed orders that trade.
abbrev batch : BatchState
batch = record (Defs.new 3 0 Phase.reveal params (market ∷ [])) {
  reveals =
      (1 ∷ 1 ∷ 20 ∷ 5 ∷ [], revealed 1 1 20 5) ∷ (3 ∷ 0 ∷ 12 ∷ 6 ∷ [], revealed 3 0 12 6) ∷ [];
}

matching_once_example :
    (transition_to stand_in Phase.swap (transition_to stand_in Phase.match batch).0).0.matches
    ≡ Matching.run_matching stand_in (matching_input stand_in batch)
unfolding Defs.new
matching_once_example = matching_once stand_in batch refl (
    Lifecycle.Within.goes (Lifecycle.Within.stays (transition_to stand_in Phase.match batch).0)
      (Lifecycle.Step.transits Phase.swap (transition_to stand_in Phase.match batch).0))
