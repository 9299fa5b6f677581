-- ===== src/Tests/Trading.antt =====
-- Matching at concrete books.
use mathlib.Core.List.Perm
use mathlib.Core.List.{Nodup-cons, Nodup-nil, mem-cons, not-mem-nil}
use mathlib.Core.Logic.Or
use mathlib.Core.HLevel.{⊥_prop}
use deadmkt_node.Prelude.{◌≤◌, ◌≡◌, ◌≢◌, refl, false, List, [], ◌∷◌, All, Nodup, map, arith}
use deadmkt_node.Matching.{
  RevealedOrder, price, running, closed_book, generate_matches, run_matching,
}
use deadmkt_node.Matching.Rounds.{generate_matches_ends}
use deadmkt_node.Matching.Fills.{bought, sold, offered, fills-le-offered}
use deadmkt_node.Matching.Soundness.{IsTrade, matches-IsTrade, settles_within_prices}
use deadmkt_node.Matching.Liveness.{generate_matches_live}
use deadmkt_node.Matching.Determinism.{run_matching_perm}
use deadmkt_node.Tests.Data.{stand_in, revealed, buys, sells, terms, market}

fills-le-offered_example :
    (bought (1 ∷ 1 ∷ 20 ∷ 5 ∷ []) (generate_matches stand_in terms buys sells)
      ≤ offered (1 ∷ 1 ∷ 20 ∷ 5 ∷ []) buys)
    × (sold (1 ∷ 1 ∷ 20 ∷ 5 ∷ []) (generate_matches stand_in terms buys sells)
        ≤ offered (1 ∷ 1 ∷ 20 ∷ 5 ∷ []) sells)
fills-le-offered_example = fills-le-offered stand_in terms buys sells (1 ∷ 1 ∷ 20 ∷ 5 ∷ [])

matches-IsTrade_example :
    All (IsTrade terms buys sells) (generate_matches stand_in terms buys sells)
matches-IsTrade_example = matches-IsTrade stand_in terms buys sells

settles_within_prices_example :
    All
      (λ m. (price m.seller ≤ m.settlement_price) × (m.settlement_price ≤ price m.buyer))
      (generate_matches stand_in terms buys sells)
settles_within_prices_example =
    settles_within_prices stand_in terms buys sells (omega arith, (omega arith, tt))
      (omega arith, (omega arith, tt))

generate_matches_live_example : generate_matches stand_in terms buys sells ≢ []
generate_matches_live_example =
    generate_matches_live stand_in terms buys sells ((omega arith, tt), (tt, tt))
      ((omega arith, tt), (tt, tt)) (omega arith, (omega arith, tt))
      (omega arith, (omega arith, tt)) refl

abbrev one_each : List RevealedOrder
one_each = revealed 1 1 20 5 ∷ revealed 3 0 12 6 ∷ []

-- The hashes of the two differ.
one_each-Nodup : Nodup (map (λ r. r.order_hash) one_each)
one_each-Nodup = Nodup-cons.1 (
  (λ i. Or.elim ⊥_prop (mem-cons.0 i) (λ e. absurd (ground arith)) (λ m. not-mem-nil m)),
  Nodup-cons.1 (not-mem-nil, Nodup-nil),
)

run_matching_perm_example :
    run_matching stand_in
      (record { batch_id = 3; pool_id = 0; reveals = one_each; markets = market ∷ [] })
    ≡ run_matching stand_in (record {
      batch_id = 3;
      pool_id = 0;
      reveals = revealed 3 0 12 6 ∷ revealed 1 1 20 5 ∷ [];
      markets = market ∷ [];
    })
run_matching_perm_example =
    run_matching_perm stand_in 3 0 one_each (revealed 3 0 12 6 ∷ revealed 1 1 20 5 ∷ [])
      (market ∷ []) (market ∷ []) (Perm.swap (revealed 3 0 12 6) (revealed 1 1 20 5) [])
      (Perm.refl (market ∷ [])) one_each-Nodup (Nodup-cons.1 (not-mem-nil, Nodup-nil))

generate_matches_ends_example : running (closed_book stand_in terms buys sells) ≡ false
generate_matches_ends_example = generate_matches_ends stand_in terms buys sells
