-- ===== src/Tests/Batching.antt =====
-- The phases of a batch at two nodes, and a configuration.
use mathlib.Core.List.Perm
use mathlib.Core.List.{Nodup-cons, Nodup-nil, mem-cons, not-mem-nil}
use mathlib.Core.Logic.Or
use mathlib.Core.HLevel.{⊥_prop}
use deadmkt_node.Prelude.{
  map, ℕ, ◌≡◌, refl, true, Option, some, none, List, [], ◌∷◌, ◌++◌, length, string_eq, arith, Nodup,
  map, nat_eq,
}
use deadmkt_node.Maps.{lookup, insert, contains}
use deadmkt_node.Bytes.{Bytes, le_bytes, of_le_bytes}
use deadmkt_node.Crypto.{Order, encode_order, order_hash, verify}
use deadmkt_node.Chain.{BatchParams, compute_batch_id, compute_pool_assignment}
use deadmkt_node.Matching.{RevealedOrder, Match, run_matching}
use deadmkt_node.Inbound.{Inbound, start_at, accept_reveal, cache_pubkey}
use deadmkt_node.Orchestrator.Bridges.{
  GossipMessage, RevealMessage, new_gossip, new_batch_state, current_batch_id, current_pool_id,
  publish_commit, publish_reveal, process_inbound_gossip, received_reveals, to_array,
}
use deadmkt_node.Orchestrator.Phases.{
  Orchestrator, ValidatedOrder, new, fresh_commit_cycle, commit_orders, reveal_orders,
  on_commit_phase, on_reveal_phase, decoded, all_revealed, store_matches, on_match_phase,
}
use deadmkt_node.Orchestrator.Consensus.{nodes_agree}
use deadmkt_node.Orchestrator.Reveals.{
  signed_order, known_order, on_wire, matches_ignore_reveals, reveal_reaches_peer,
  timeout_reveals_each,
}
use deadmkt_node.Config.Defs.{NodeConfig, validate, is_valid_mode, no_tokens}
use deadmkt_node.Config.Defs
use deadmkt_node.Tests.Data.{stand_in, market, order, zeros_64}

-- Reads an order without a nonce, as the stand-in writes it.
abbrev decode : Bytes → Option Order
decode (n ∷ s ∷ p ∷ q ∷ b ∷ rest) = some (record {
  nft_id = n;
  symbol = rest;
  side = s;
  price = p;
  quantity = q;
  batch_id = b;
  nonce = [];
})
decode _ = none

abbrev params : BatchParams
params = record {
  blocks_per_batch = 10;
  commit_blocks = 3;
  reveal_blocks = 3;
  match_blocks = 2;
  swap_blocks = 2;
  commits_per_batch = 3;
}

abbrev node : ℕ → Orchestrator
node nft =
    record (new new_gossip
      (new_batch_state (record { anchor_block = 0; anchor_batch_id = 3 }) params 1 nft) nft 3) {
        market_configs = market ∷ [];
      }

abbrev validated : Order → ValidatedOrder
validated o = record {
  commit_hash = zeros_64;
  order_bytes = stand_in.bcs_order o;
  signature = zeros_64;
}

abbrev reveal_of : Order → RevealMessage
reveal_of o = record {
  nft_id = o.nft_id;
  pool_id = 0;
  batch_id = 3;
  order_bytes = stand_in.bcs_order o;
  signature = zeros_64;
}

-- A node with an order of its own and one from a peer.
abbrev node_with : ℕ → Order → Order → Orchestrator
node_with nft own other = record (node nft) {
  committed_orders = validated own ∷ [];
  gossip = record new_gossip { inbound_reveals = (3, reveal_of other ∷ []) ∷ [] };
}

abbrev bid : Order
bid = order 1 1 20 5

abbrev ask : Order
ask = order 2 0 10 5

abbrev buyer_node : Orchestrator
buyer_node = node_with 1 bid ask

abbrev seller_node : Orchestrator
seller_node = node_with 2 ask bid

abbrev known : Order → RevealedOrder
known o = record {
  order = o;
  signature = zeros_64;
  order_hash = to_array 32 (stand_in.bcs_order o);
}

abbrev matches_of : List RevealedOrder → List Match
matches_of rs =
    run_matching stand_in
      (record { batch_id = 3; pool_id = 0; reveals = rs; markets = market ∷ [] })

abbrev matched : Orchestrator → List RevealedOrder → Orchestrator × ℕ
matched o rs = store_matches stand_in decode 3 (matches_of rs) o

buyer_matches :
    on_match_phase stand_in decode buyer_node
    ≡ some (matched buyer_node (known bid ∷ known ask ∷ []))
unfolding on_match_phase current_pool_id compute_batch_id compute_pool_assignment of_le_bytes
    le_bytes all_revealed decoded order_hash encode_order lookup
buyer_matches = refl

seller_matches :
    on_match_phase stand_in decode seller_node
    ≡ some (matched seller_node (known ask ∷ known bid ∷ []))
unfolding on_match_phase current_pool_id compute_batch_id compute_pool_assignment of_le_bytes
    le_bytes all_revealed decoded order_hash encode_order lookup
seller_matches = refl

distinct : Nodup (map (λ r. r.order_hash) (known bid ∷ known ask ∷ []))
distinct = Nodup-cons.1 (
  (λ i. Or.elim ⊥_prop (mem-cons.0 i) (λ e. absurd (ground arith)) (λ m. not-mem-nil m)),
  Nodup-cons.1 (not-mem-nil, Nodup-nil),
)

nodes_agree_example :
    (matched buyer_node (known bid ∷ known ask ∷ [])).0.current_matches
    ≡ (matched seller_node (known ask ∷ known bid ∷ [])).0.current_matches
unfolding current_pool_id compute_batch_id compute_pool_assignment of_le_bytes le_bytes all_revealed
    decoded order_hash encode_order lookup
nodes_agree_example =
    nodes_agree stand_in decode buyer_node (matched buyer_node (known bid ∷ known ask ∷ [])).0
      seller_node (matched seller_node (known ask ∷ known bid ∷ [])).0
      (matched buyer_node (known bid ∷ known ask ∷ [])).1
      (matched seller_node (known ask ∷ known bid ∷ [])).1 3 0 buyer_matches seller_matches refl
      refl refl refl (Perm.swap (known ask) (known bid) []) (Perm.refl (market ∷ [])) distinct
      (Nodup-cons.1 (not-mem-nil, Nodup-nil))

-- The strategy reveals nothing.
reveals_none : on_reveal_phase stand_in decode 1 (some []) buyer_node ≡ some (buyer_node, 0)
unfolding on_reveal_phase current_pool_id compute_batch_id compute_pool_assignment of_le_bytes
    le_bytes reveal_orders
reveals_none = refl

matches_ignore_reveals_example :
    ((matched buyer_node (known bid ∷ known ask ∷ [])).0.current_matches
      ≡ (matched buyer_node (known bid ∷ known ask ∷ [])).0.current_matches)
    × ((batch_id pool_id : ℕ) × (left right : List RevealedOrder) × (current_batch_id
            buyer_node.batch_state
          ≡ some batch_id)
        × (current_pool_id stand_in 1 buyer_node.batch_state ≡ some pool_id)
        × ((matched buyer_node (known bid ∷ known ask ∷ [])).0.current_matches
            ≡ run_matching stand_in (record {
              batch_id = batch_id;
              pool_id = pool_id;
              reveals = left ++ (known_order stand_in bid zeros_64 ∷ right);
              markets = market ∷ [];
            })))
matches_ignore_reveals_example =
    matches_ignore_reveals stand_in decode buyer_node buyer_node
      (matched buyer_node (known bid ∷ known ask ∷ [])).0
      (matched buyer_node (known bid ∷ known ask ∷ [])).0 1 (some []) 0
      (matched buyer_node (known bid ∷ known ask ∷ [])).1
      (matched buyer_node (known bid ∷ known ask ∷ [])).1 [] [] (validated bid) bid reveals_none
      buyer_matches buyer_matches refl refl

abbrev own : List (Order × Bytes)
own = (bid, zeros_64) ∷ (bid, zeros_64) ∷ []

abbrev committed : Orchestrator
unfolding commit_orders publish_commit
committed = commit_orders 3 0 (map (signed_order stand_in) own) (node 1)

commits :
    on_commit_phase stand_in decode true
      (some (map (signed_order stand_in) own))
      (fresh_commit_cycle (node 1))
    ≡ some (committed, 2)
unfolding on_commit_phase current_pool_id compute_batch_id compute_pool_assignment of_le_bytes
    le_bytes
commits = refl

abbrev shown : Orchestrator
unfolding reveal_orders publish_reveal
shown = reveal_orders stand_in decode 3 0 (0 ∷ 1 ∷ []) committed

reveals :
    on_reveal_phase stand_in decode (length committed.published_commits) none committed
    ≡ some (shown, 2)
unfolding on_reveal_phase current_pool_id compute_batch_id compute_pool_assignment of_le_bytes
    le_bytes commit_orders
reveals = refl

abbrev two : ℕ
two = 2

timeout_reveals_each_example :
    (two ≡ 2)
    × ((batch_id pool_id : ℕ) × (current_batch_id committed.batch_state ≡ some batch_id)
        × (current_pool_id stand_in 1 committed.batch_state ≡ some pool_id)
        × (shown.gossip.pending_reveals
            ≡ committed.gossip.pending_reveals ++ on_wire stand_in decode batch_id pool_id own))
unfolding encode_order commit_orders
timeout_reveals_each_example =
    timeout_reveals_each stand_in decode (node 1) committed shown own 2 2 (omega arith)
      (refl, (refl, tt)) commits reveals

abbrev filter : Inbound
filter = cache_pubkey 1 zeros_64 (start_at 3)

reveal_reaches_peer_example :
    (message : GossipMessage) × ((publish_reveal decode 0
        (reveal_of bid)
        new_gossip).pending_reveals
      ≡ new_gossip.pending_reveals ++ ((0, message) ∷ []))
    × (received_reveals 3 (process_inbound_gossip stand_in message filter new_gossip).1
        ≡ received_reveals 3 new_gossip ++ (reveal_of bid ∷ []))
unfolding encode_order accept_reveal lookup cache_pubkey start_at contains insert verify
reveal_reaches_peer_example =
    reveal_reaches_peer stand_in decode bid zeros_64 3 0 new_gossip new_gossip filter refl refl

abbrev config : NodeConfig
config = record {
  network = Defs.testnet;
  rpc_urls = [];
  nft_id = 1;
  trustee_address = "";
  payout_address = "";
  sponsor_address = "";
  contracts = Defs.default_contract_addresses Defs.testnet;
  bootstrap_peers = [];
  strategy_auth_token = "";
  markets = [];
  token_decimals = [];
  profit_taking = record {
    base_capital = ("EMM", 1) ∷ [];
    threshold_pct = 20;
    transfer_mode = "all_excess";
    transfer_mode_value = none;
  };
  withdrawal_rules = record { holding_period_days = 90; rushed_withdrawal_enabled = true };
  strategy_port = 9090;
  gossip_port = 9191;
  chain_id = 6;
  max_gas_amount = 5000;
  gas_unit_price = 100000;
  created_at = "";
}
