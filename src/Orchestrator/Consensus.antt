-- ===== src/Orchestrator/Consensus.antt =====
-- crates/orchestrator/src/lib.rs: which orders a node matches, and when two nodes agree.
use deadmkt_node.Prelude.{
  ℕ, ◌≡◌, refl, ap, ap₂, sym, ◌∙◌, Option, some, List, [], ◌∷◌, map, Perm, Nodup, bind_inv,
  some_inj,
}
use deadmkt_node.Bytes.{Bytes}
use deadmkt_node.Crypto.{Order, Libraries}
use deadmkt_node.Matching.{RevealedOrder, run_matching, by_symbol, match_symbols}
use deadmkt_node.Sort.{sort_by}
use deadmkt_node.Matching.Determinism.{run_matching_perm}
use deadmkt_node.Orchestrator.Bridges.{current_batch_id, current_pool_id}
use deadmkt_node.Orchestrator.Phases.{Orchestrator, all_revealed, match_revealed, on_match_phase}

module _ (lib : Libraries) (decode_order : Bytes → Option Order) where
  matches_of :
      (batch_id pool_id : ℕ) (rs : List RevealedOrder) (o : Orchestrator)
      → (match_revealed lib decode_order batch_id pool_id rs o).0.current_matches
        ≡ run_matching lib (record {
          batch_id = batch_id;
          pool_id = pool_id;
          reveals = rs;
          markets = o.market_configs;
        })
  unfolding run_matching by_symbol match_symbols sort_by
  matches_of batch_id pool_id [] o = refl
  matches_of batch_id pool_id (r ∷ rs) o = refl

  -- What a match phase that does not panic computes.
  pub on_match_phase_lem :
      (o o' : Orchestrator) (n : ℕ)
      → on_match_phase lib decode_order o ≡ some (o', n)
      → (batch_id pool_id : ℕ) × (current_batch_id o.batch_state ≡ some batch_id)
        × (current_pool_id lib o.node_nft_id o.batch_state ≡ some pool_id)
        × (o'.current_matches
            ≡ run_matching lib (record {
              batch_id = batch_id;
              pool_id = pool_id;
              reveals = all_revealed lib decode_order batch_id o;
              markets = o.market_configs;
            }))
  unfolding on_match_phase
  on_match_phase_lem o o' n h =
      let b = bind_inv (current_batch_id o.batch_state) _ (o', n) h in
      let p = bind_inv (current_pool_id lib o.node_nft_id o.batch_state) _ (o', n) b.2 in
      (
        b.0,
        p.0,
        b.1,
        p.1,
        ap (λ x. x.0.current_matches) (sym (some_inj p.2))
            ∙ matches_of b.0 p.0 (all_revealed lib decode_order b.0 o) o,
      )

  -- Two nodes of one batch and pool compute the same matches from the same orders: if what one node
  -- has committed and received is, in any order, what the other has committed and received, if the
  -- markets they know are the same in any order, and no two of the orders share their hash and no two
  -- of the markets their symbol.
  pub nodes_agree :
      (a a' b b' : Orchestrator) (m n batch_id pool_id : ℕ)
      → on_match_phase lib decode_order a ≡ some (a', m)
      → on_match_phase lib decode_order b ≡ some (b', n)
      → current_batch_id a.batch_state ≡ some batch_id
      → current_batch_id b.batch_state ≡ some batch_id
      → current_pool_id lib a.node_nft_id a.batch_state ≡ some pool_id
      → current_pool_id lib b.node_nft_id b.batch_state ≡ some pool_id
      → Perm (all_revealed lib decode_order batch_id a) (all_revealed lib decode_order batch_id b)
      → Perm a.market_configs b.market_configs
      → Nodup (map (λ r. r.order_hash) (all_revealed lib decode_order batch_id a))
      → Nodup (map (λ c. c.symbol) a.market_configs)
      → a'.current_matches ≡ b'.current_matches
  nodes_agree a a' b b' m n batch_id pool_id ha hb batch_a batch_b pool_a pool_b orders markets
        distinct symbols =
      let x = computes a a' m batch_id pool_id ha batch_a pool_a in
      let y = computes b b' n batch_id pool_id hb batch_b pool_b in
      x ∙ run_matching_perm lib batch_id pool_id _ _ _ _ orders markets distinct symbols ∙ sym y
    where
      computes :
          (o o' : Orchestrator) (k batch_id pool_id : ℕ)
          → on_match_phase lib decode_order o ≡ some (o', k)
          → current_batch_id o.batch_state ≡ some batch_id
          → current_pool_id lib o.node_nft_id o.batch_state ≡ some pool_id
          → o'.current_matches
            ≡ run_matching lib (record {
              batch_id = batch_id;
              pool_id = pool_id;
              reveals = all_revealed lib decode_order batch_id o;
              markets = o.market_configs;
            })
      computes o o' k batch_id pool_id h qb qp =
          let r = on_match_phase_lem o o' k h in
          let same_batch = some_inj (sym r.2 ∙ qb) in
          let same_pool = some_inj (sym r.3 ∙ qp) in
          r.4
          ∙ ap₂
              (λ x y. run_matching lib (record {
                batch_id = x;
                pool_id = y;
                reveals = all_revealed lib decode_order x o;
                markets = o.market_configs;
              }))
              same_batch same_pool
