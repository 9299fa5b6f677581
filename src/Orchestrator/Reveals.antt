-- ===== src/Orchestrator/Reveals.antt =====
-- crates/orchestrator/src/lib.rs and src/run.rs: from the committed orders to the reveals that a
-- peer stores.
use mathlib.Core.List.{append-nil, append_assoc}
use deadmkt_node.Prelude.{
  map, length-map, All, Option-cases, inl, inr, ℕ, zero, suc, ◌+◌, ◌%◌, ◌^◌, ◌<◌, ◌≡◌, refl, ap,
  ap₂, sym, ◌∙◌, Bool, true, false, Option, none, some, List, [], ◌∷◌, ◌++◌, length, length-append,
  nat_eq, bytes_eq, bind_inv, some_inj, arith,
}
use deadmkt_node.Maps.{Map, lookup, get_or, lookup-insert_self}
use deadmkt_node.Bytes.{Bytes}
use deadmkt_node.Crypto.{Order, Libraries, encode_order, order_hash, commit_hash}
use deadmkt_node.Matching.{Match, MarketConfig, RevealedOrder, run_matching}
use deadmkt_node.Inbound.{Inbound, accept_reveal}
use deadmkt_node.Orchestrator.Bridges.{
  GossipBridge, BatchStateBridge, GossipMessage, reveal, RevealMessage, publish_reveal, to_array,
  placeholder, process_inbound_gossip, received_reveals, current_batch_id, current_pool_id,
  store_if, push_reveal,
}
use deadmkt_node.Orchestrator.Phases.{
  Orchestrator, ValidatedOrder, revealed_data, nth, commit_orders, reveal_orders, on_commit_phase,
  on_reveal_phase, all_revealed, decoded, own_orders, peer_orders, on_match_phase, indices,
  indices_from, fresh_commit_cycle,
}
use deadmkt_node.Orchestrator.Consensus.{on_match_phase_lem}

-- What a match phase reads.
abbrev View : Type 0
View = BatchStateBridge × ℕ × List MarketConfig × List ValidatedOrder × Map ℕ (List RevealMessage)

abbrev view : Orchestrator → View
view o =
    (o.batch_state, o.node_nft_id, o.market_configs, o.committed_orders, o.gossip.inbound_reveals)

nth-append :
    (before : List ValidatedOrder) (v : ValidatedOrder) (rest : List ValidatedOrder)
    → nth (before ++ (v ∷ rest)) (length before) ≡ some v
nth-append [] v rest = refl
nth-append (x ∷ before) v rest = nth-append before v rest

store_accepted :
    (push : GossipBridge → GossipBridge) (g : GossipBridge) (r : Inbound × Bool)
    → r.1 ≡ true
    → (store_if push g r).1 ≡ push g
store_accepted push g (v, true) h = refl
store_accepted push g (v, false) h = absurd (ground arith)

-- What the node commits for an order with its signature.
abbrev pub signed_order : Libraries → Order × Bytes → ValidatedOrder
signed_order lib (order, signature) = record {
  commit_hash = commit_hash lib order;
  order_bytes = encode_order lib order;
  signature = signature;
}

-- An order as the matching takes it.
abbrev pub known_order : Libraries → Order → Bytes → RevealedOrder
known_order lib order signature = record {
  order = order;
  signature = signature;
  order_hash = to_array 32 (lib.sha256 (encode_order lib order));
}

module _ (lib : Libraries) (decode_order : Bytes → Option Order) where
  view-reveal_orders :
      (batch_id pool_id : ℕ) (l : List ℕ) (o : Orchestrator)
      → view (reveal_orders lib decode_order batch_id pool_id l o) ≡ view o
  unfolding reveal_orders publish_reveal
  view-reveal_orders batch_id pool_id [] o = refl
  view-reveal_orders batch_id pool_id (idx ∷ l) o = view-reveal_orders batch_id pool_id l _

  abbrev matched : View → ℕ → ℕ → List Match
  matched v batch_id pool_id = run_matching lib (record {
    batch_id = batch_id;
    pool_id = pool_id;
    reveals =
        decoded lib decode_order (own_orders lib decode_order v.3)
        ++ decoded lib decode_order
            (peer_orders lib decode_order (get_or [] (lookup batch_id v.4)));
    markets = v.2;
  })

  match_view :
      (o o' : Orchestrator) (n : ℕ)
      → on_match_phase lib decode_order o ≡ some (o', n)
      → (batch_id pool_id : ℕ) × (current_batch_id (view o).0 ≡ some batch_id)
        × (current_pool_id lib (view o).1 (view o).0 ≡ some pool_id)
        × (o'.current_matches ≡ matched (view o) batch_id pool_id)
  unfolding all_revealed
  match_view o o' n h = on_match_phase_lem lib decode_order o o' n h

  matches_without_reveals :
      (o o1 o2 o3 : Orchestrator) (commits : ℕ) (response : Option (List ℕ)) (i j k : ℕ)
      → on_reveal_phase lib decode_order commits response o ≡ some (o1, i)
      → on_match_phase lib decode_order o1 ≡ some (o2, j)
      → on_match_phase lib decode_order o ≡ some (o3, k)
      → o2.current_matches ≡ o3.current_matches
  unfolding on_reveal_phase
  matches_without_reveals o o1 o2 o3 commits response i j k h ha hb =
      let b = bind_inv (current_batch_id o.batch_state) _ (o1, i) h in
      let p = bind_inv (current_pool_id lib o.node_nft_id o.batch_state) _ (o1, i) b.2 in
      let same : view o1 ≡ view o =
        ap (λ x. view x.0) (sym (some_inj p.2))
        ∙ view-reveal_orders b.0 p.0 (indices commits response) o in
      let x = match_view o1 o2 j ha in
      let y = match_view o o3 k hb in
      let batch = some_inj (sym x.2 ∙ ap (λ v. current_batch_id v.0) same ∙ y.2) in
      let pool = some_inj (sym x.3 ∙ ap (λ v. current_pool_id lib v.1 v.0) same ∙ y.3) in
      x.4 ∙ ap (λ v. matched v x.0 x.1) same ∙ ap₂ (matched (view o)) batch pool ∙ sym y.4

  decoded-own :
      (before rest : List ValidatedOrder) (v : ValidatedOrder) (order : Order)
      → decode_order v.order_bytes ≡ some order
      → (left right : List RevealedOrder) × (decoded lib decode_order
            (own_orders lib decode_order (before ++ (v ∷ rest)))
          ≡ left ++ (known_order lib order v.signature ∷ right))
  unfolding decoded order_hash
  decoded-own [] rest v order reads =
      ([], decoded lib decode_order (own_orders lib decode_order rest), rw reads refl)
  decoded-own (u ∷ before) rest v order reads =
      let later = decoded-own before rest v order reads in
      elim (Option-cases (decode_order u.order_bytes)) [
        | inl q ↦ (later.0, later.1, rw q later.2)
        | inr (other, q) ↦ (
          known_order lib other u.signature ∷ later.0,
          later.1,
          rw q (ap (λ l. known_order lib other u.signature ∷ l) later.2),
        )
      ]

  -- The strategy's choice of what to reveal has no effect on what the node itself matches: after a
  -- reveal phase with any answer, the match phase finds what it would have found without it; and
  -- every committed order that decodes is among the orders that are matched, under its hash and with
  -- its signature, also one that was never revealed to a peer.
  pub matches_ignore_reveals :
      (o o1 o2 o3 : Orchestrator) (commits : ℕ) (response : Option (List ℕ)) (i j k : ℕ)
      (before rest : List ValidatedOrder) (v : ValidatedOrder) (order : Order)
      → on_reveal_phase lib decode_order commits response o ≡ some (o1, i)
      → on_match_phase lib decode_order o1 ≡ some (o2, j)
      → on_match_phase lib decode_order o ≡ some (o3, k)
      → o.committed_orders ≡ before ++ (v ∷ rest)
      → decode_order v.order_bytes ≡ some order
      → (o2.current_matches ≡ o3.current_matches)
        × ((batch_id pool_id : ℕ) × (left right : List RevealedOrder) × (current_batch_id
                o.batch_state
              ≡ some batch_id)
            × (current_pool_id lib o.node_nft_id o.batch_state ≡ some pool_id)
            × (o2.current_matches
                ≡ run_matching lib (record {
                  batch_id = batch_id;
                  pool_id = pool_id;
                  reveals = left ++ (known_order lib order v.signature ∷ right);
                  markets = o.market_configs;
                })))
  matches_ignore_reveals o o1 o2 o3 commits response i j k before rest v order h ha hb own reads =
      let same = matches_without_reveals o o1 o2 o3 commits response i j k h ha hb in
      let y = match_view o o3 k hb in
      let split = decoded-own before rest v order reads in
      let peers =
        decoded lib decode_order
          (peer_orders lib decode_order (get_or [] (lookup y.0 o.gossip.inbound_reveals))) in
      let all =
        ap (λ l. decoded lib decode_order (own_orders lib decode_order l) ++ peers) own
        ∙ ap (λ l. l ++ peers) split.2
        ∙ append_assoc split.0 (known_order lib order v.signature ∷ split.1) peers in
      (
        same,
        (
          y.0,
          y.1,
          split.0,
          split.1 ++ peers,
          y.2,
          y.3,
          same
              ∙ y.4
              ∙ ap
                  (λ l. run_matching lib (record {
                    batch_id = y.0;
                    pool_id = y.1;
                    reveals = l;
                    markets = o.market_configs;
                  }))
                  all,
        ),
      )

  -- The messages of orders with their signatures, as peers get them.
  abbrev pub on_wire : (batch_id pool_id : ℕ) → List (Order × Bytes) → List (ℕ × GossipMessage)
  on_wire batch_id pool_id = map (λ (x : Order × Bytes). (pool_id, reveal batch_id pool_id x.0 x.1))

  queue_range :
      (batch_id pool_id : ℕ) (before : List ValidatedOrder) (rest : List (Order × Bytes))
      (o : Orchestrator)
      → o.committed_orders ≡ before ++ map (signed_order lib) rest
      → All (λ x. decode_order (encode_order lib x.0) ≡ some x.0) rest
      → (reveal_orders lib decode_order batch_id pool_id
          (indices_from (length before) (length rest))
          o).gossip.pending_reveals
        ≡ o.gossip.pending_reveals ++ on_wire batch_id pool_id rest
  unfolding reveal_orders publish_reveal
  queue_range batch_id pool_id before [] o h reads = sym (append-nil _)
  queue_range batch_id pool_id before ((order, signature) ∷ rest) o h reads =
      let v = signed_order lib (order, signature) in
      let found : nth o.committed_orders (length before) ≡ some v =
        ap (λ l. nth l (length before)) h ∙ nth-append before v (map (signed_order lib) rest) in
      let data_of = revealed_data (length before) (nth o.committed_orders (length before)) in
      let m : RevealMessage = record {
        nft_id = o.node_nft_id;
        pool_id = pool_id;
        batch_id = batch_id;
        order_bytes = data_of.0;
        signature = data_of.1;
      } in
      let o1 : Orchestrator = record o {
        gossip = publish_reveal decode_order pool_id m o.gossip;
        published_reveals = o.published_reveals ++ (m ∷ []);
      } in
      let later =
        queue_range batch_id pool_id (before ++ (v ∷ [])) rest o1
          (h ∙ sym (append_assoc before (v ∷ []) (map (signed_order lib) rest))) reads.1 in
      let here : o1.gossip.pending_reveals
          ≡ o.gossip.pending_reveals ++ ((pool_id, reveal batch_id pool_id order signature) ∷ []) =
        ap
          (λ x.
            o.gossip.pending_reveals
            ++ ((
              pool_id,
              reveal batch_id pool_id
                  (get_or
                    (placeholder (record m {
                      order_bytes = (revealed_data (length before) x).0;
                      signature = (revealed_data (length before) x).1;
                    }))
                    (decode_order (revealed_data (length before) x).0))
                  (revealed_data (length before) x).1,
            )
                ∷ []))
          found
        ∙ ap
            (λ y.
              o.gossip.pending_reveals
              ++ ((
                pool_id,
                reveal batch_id pool_id
                    (get_or
                      (placeholder
                        (record m { order_bytes = encode_order lib order; signature = signature }))
                      y)
                    signature,
              )
                  ∷ []))
            reads.0 in
      ap
        (λ i.
          (reveal_orders lib decode_order batch_id pool_id (indices_from i (length rest))
            o1).gossip.pending_reveals)
        (sym (length-append before (v ∷ [])))
      ∙ later
      ∙ ap (λ l. l ++ on_wire batch_id pool_id rest) here
      ∙ append_assoc o.gossip.pending_reveals
          ((pool_id, reveal batch_id pool_id order signature) ∷ []) (on_wire batch_id pool_id rest)

  -- What a node publishes for an order is what a peer that accepts it stores: the same bytes and the
  -- same signature, under the same batch. The decoder reads the order back from its encoding.
  pub reveal_reaches_peer :
      (order : Order) (signature : Bytes) (batch_id pool_id : ℕ) (g peer : GossipBridge)
      (v : Inbound)
      → decode_order (encode_order lib order) ≡ some order
      → (accept_reveal lib order.nft_id batch_id (encode_order lib order) signature v).1 ≡ true
      → (message : GossipMessage) × ((publish_reveal decode_order pool_id
            (record {
              nft_id = order.nft_id;
              pool_id = pool_id;
              batch_id = batch_id;
              order_bytes = encode_order lib order;
              signature = signature;
            })
            g).pending_reveals
          ≡ g.pending_reveals ++ ((pool_id, message) ∷ []))
        × (received_reveals batch_id (process_inbound_gossip lib message v peer).1
            ≡ received_reveals batch_id peer
              ++ (record {
                nft_id = order.nft_id;
                pool_id = pool_id;
                batch_id = batch_id;
                order_bytes = encode_order lib order;
                signature = signature;
              }
                  ∷ []))
  unfolding publish_reveal process_inbound_gossip
  reveal_reaches_peer order signature batch_id pool_id g peer v reads accepts =
      let stored : RevealMessage = record {
        nft_id = order.nft_id;
        pool_id = pool_id;
        batch_id = batch_id;
        order_bytes = encode_order lib order;
        signature = signature;
      } in
      (
        reveal batch_id pool_id order signature,
        rw reads refl,
        ap (received_reveals batch_id) (
              store_accepted (push_reveal stored) peer
                (accept_reveal lib order.nft_id batch_id (encode_order lib order) signature v)
                accepts)
            ∙ ap (get_or []) (lookup-insert_self batch_id _ peer.inbound_reveals),
      )

commit_orders_lem :
    (batch_id pool_id : ℕ) (orders : List ValidatedOrder) (o : Orchestrator)
    → ((commit_orders batch_id pool_id orders o).committed_orders ≡ o.committed_orders ++ orders)
      × (length (commit_orders batch_id pool_id orders o).published_commits
          ≡ length o.published_commits + length orders)
unfolding commit_orders
commit_orders_lem batch_id pool_id [] o = (sym (append-nil _), omega arith)
commit_orders_lem batch_id pool_id (v ∷ orders) o =
    let rest = commit_orders_lem batch_id pool_id orders _ in
    (
      rest.0 ∙ append_assoc o.committed_orders (v ∷ []) orders,
      omega (arith, rest.1, length-append o.published_commits),
    )

length-indices_from : (i n : ℕ) → length (indices_from i n) ≡ n
length-indices_from i zero = refl
length-indices_from i (suc n) = ap suc (length-indices_from (i + 1) n)

module _ (lib : Libraries) (decode_order : Bytes → Option Order) where
  -- If the strategy does not answer in the reveal phase, the node queues for its pool every order
  -- that it has committed since the commit phase began, once and in the order of the commits, with
  -- the signature it has committed; the orders are fewer than 2^32 and can be read back from their
  -- bytes.
  pub timeout_reveals_each :
      (o o1 o2 : Orchestrator) (orders : List (Order × Bytes)) (n k : ℕ)
      → length orders < 2 ^ 32
      → All (λ x. decode_order (encode_order lib x.0) ≡ some x.0) orders
      → on_commit_phase lib decode_order true
          (some (map (signed_order lib) orders))
          (fresh_commit_cycle o)
        ≡ some (o1, n)
      → on_reveal_phase lib decode_order (length o1.published_commits) none o1 ≡ some (o2, k)
      → (k ≡ length orders)
        × ((batch_id pool_id : ℕ) × (current_batch_id o1.batch_state ≡ some batch_id)
            × (current_pool_id lib o1.node_nft_id o1.batch_state ≡ some pool_id)
            × (o2.gossip.pending_reveals
                ≡ o1.gossip.pending_reveals ++ on_wire lib decode_order batch_id pool_id orders))
  unfolding on_commit_phase on_reveal_phase
  timeout_reveals_each o o1 o2 orders n k small reads hc hr =
      let fresh = fresh_commit_cycle o in
      let given = map (signed_order lib) orders in
      let b = bind_inv (current_batch_id fresh.batch_state) _ (o1, n) hc in
      let p = bind_inv (current_pool_id lib fresh.node_nft_id fresh.batch_state) _ (o1, n) b.2 in
      let done : commit_orders b.0 p.0 given fresh ≡ o1 = ap (λ x. x.0) (some_inj p.2) in
      let made = commit_orders_lem b.0 p.0 given fresh in
      let all : o1.committed_orders ≡ given = ap (λ x. x.committed_orders) (sym done) ∙ made.0 in
      let count : length o1.published_commits ≡ length orders =
        ap (λ x. length x.published_commits) (sym done)
        ∙ made.1
        ∙ omega (arith, length-map (signed_order lib) orders) in
      let asked : length o1.published_commits % 2 ^ 32 ≡ length orders =
        omega (arith, count, small) in
      let c = bind_inv (current_batch_id o1.batch_state) _ (o2, k) hr in
      let q = bind_inv (current_pool_id lib o1.node_nft_id o1.batch_state) _ (o2, k) c.2 in
      let last = some_inj q.2 in
      (
        ap (λ x. x.1) (sym last) ∙ length-indices_from 0 _ ∙ asked,
        (
          c.0,
          q.0,
          c.1,
          q.1,
          ap (λ x. x.0.gossip.pending_reveals) (sym last)
              ∙ ap
                  (λ n.
                    (reveal_orders lib decode_order c.0 q.0 (indices_from 0 n)
                      o1).gossip.pending_reveals)
                  asked
              ∙ queue_range lib decode_order c.0 q.0 [] orders o1 all reads,
        ),
      )
