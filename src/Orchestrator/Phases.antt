-- ===== src/Orchestrator/Phases.antt =====
-- crates/orchestrator/src/lib.rs: the handlers of the four phases, on the ports of src/run.rs.
use deadmkt_node.Prelude.{
  ℕ, zero, suc, ◌+◌, ◌%◌, ◌^◌, Bool, true, false, Option, none, some, List, [], ◌∷◌, ◌++◌, length,
  ◌>>=◌, String,
}
use deadmkt_node.Bytes.{Bytes, zeros}
use deadmkt_node.Crypto.{Order, Libraries, order_hash}
use deadmkt_node.Matching.{RevealedOrder, Match, MarketConfig, run_matching}
use deadmkt_node.Orchestrator.Bridges.{
  GossipBridge, BatchStateBridge, CommitMessage, RevealMessage, publish_commit, publish_reveal,
  received_reveals, current_batch_id, current_pool_id, to_array,
}

pub record ValidatedOrder : Type 0 where
  pub commit_hash : Bytes
  pub order_bytes : Bytes
  pub signature : Bytes

pub record MatchRegistration : Type 0 where
  pub batch_id : ℕ
  pub match_count : ℕ

pub record PendingParamChange : Type 0 where
  pub effective_at_batch : ℕ
  pub param_name : String
  pub old_value : ℕ
  pub new_value : ℕ

pub record PendingPoolAdjustment : Type 0 where
  pub effective_at_batch : ℕ
  pub new_num_pools : ℕ

-- crates/strategy/src/lib.rs: the events that the orchestrator queues. Numbers are not printed, and
-- symbols stay bytes.
pub data StrategyEvent : Type 0 where
  disconnected : (reason : String) → StrategyEvent
  paused : (after_batch : ℕ) → StrategyEvent
  resumed : (batch_id : ℕ) → StrategyEvent
  rushed_withdrawal_requested : (token : String) (amount nft_id : ℕ) → StrategyEvent
  param_change_queued :
      (param_name : String) (old_value new_value effective_at_batch : ℕ) → StrategyEvent
  param_change_applied : (param_name : String) (new_value effective_at_batch : ℕ) → StrategyEvent
  pool_adjusted : (old_num_pools new_num_pools effective_at_batch : ℕ) → StrategyEvent
  settlement :
      (batch_id : ℕ) (match_hash : String) (pair : Bytes) (is_buyer : Bool) (price quantity : ℕ)
      → StrategyEvent
  market_added : (symbol : Bytes) → StrategyEvent

pub record Orchestrator : Type 0 where
  pub gossip : GossipBridge
  pub batch_state : BatchStateBridge
  pub node_nft_id : ℕ
  pub commits_per_batch : ℕ
  pub sent_events : List StrategyEvent
  pub published_commits : List CommitMessage
  pub published_reveals : List RevealMessage
  pub committed_orders : List ValidatedOrder
  pub registered_matches : List MatchRegistration
  pub current_matches : List Match
  pub market_configs : List MarketConfig
  pub pending_param_change : Option PendingParamChange
  pub pending_pool_adjustment : Option PendingPoolAdjustment

abbrev pub new :
    GossipBridge → BatchStateBridge → (node_nft_id commits_per_batch : ℕ) → Orchestrator
new g b node commits = record {
  gossip = g;
  batch_state = b;
  node_nft_id = node;
  commits_per_batch = commits;
  sent_events = [];
  published_commits = [];
  published_reveals = [];
  committed_orders = [];
  registered_matches = [];
  current_matches = [];
  market_configs = [];
  pending_param_change = none;
  pending_pool_adjustment = none;
}

abbrev pub send : StrategyEvent → Orchestrator → Orchestrator
send e o = record o { sent_events = o.sent_events ++ (e ∷ []) }

-- The loop of `on_commit_phase`; the gossip bridge accepts every commit.
unfoldable pub commit_orders :
    (batch_id pool_id : ℕ) → List ValidatedOrder → Orchestrator → Orchestrator
unfolding publish_commit
commit_orders batch_id pool_id [] o = o
commit_orders batch_id pool_id (v ∷ orders) o =
    let c : CommitMessage = record {
      nft_id = o.node_nft_id;
      pool_id = pool_id;
      batch_id = batch_id;
      commit_hash = v.commit_hash;
    } in
    commit_orders batch_id pool_id orders (record o {
      gossip = publish_commit pool_id c o.gossip;
      published_commits = o.published_commits ++ (c ∷ []);
      committed_orders = o.committed_orders ++ (v ∷ []);
    })

-- The indices `0..n as u32`, from `i` on.
abbrev pub indices_from : (i n : ℕ) → List ℕ
indices_from i zero = []
indices_from i (suc n) = i ∷ indices_from (i + 1) n

abbrev pub indices : ℕ → Option (List ℕ) → List ℕ
indices my_commit_count none = indices_from 0 (my_commit_count % 2 ^ 32)
indices my_commit_count (some chosen) = chosen

abbrev pub nth : {A : Type 0} → List A → ℕ → Option A
nth [] i = none
nth (x ∷ xs) zero = some x
nth (x ∷ xs) (suc i) = nth xs i

-- What is revealed for an index, and for one beyond the committed orders.
abbrev pub revealed_data : ℕ → Option ValidatedOrder → Bytes × Bytes
revealed_data idx (some v) = (v.order_bytes, v.signature)
revealed_data idx none = ((idx % 256) ∷ [], zeros 64)

module _ (lib : Libraries) (decode_order : Bytes → Option Order) where
  -- The handlers answer a count besides the state. `none` is a panic of the batch port.
  unfoldable pub on_commit_phase :
      (can_commit : Bool) → Option (List ValidatedOrder) → Orchestrator → Option (Orchestrator × ℕ)
  unfolding current_pool_id commit_orders
  on_commit_phase false strategy_orders o = some (o, 0)
  on_commit_phase true none o = some (send (disconnected "commit timeout") o, 0)
  on_commit_phase true (some orders) o = current_batch_id o.batch_state >>= λ batch_id.
      current_pool_id lib o.node_nft_id o.batch_state >>= λ pool_id.
      some (commit_orders batch_id pool_id orders o, length orders)

  unfoldable pub reveal_orders : (batch_id pool_id : ℕ) → List ℕ → Orchestrator → Orchestrator
  unfolding publish_reveal
  reveal_orders batch_id pool_id [] o = o
  reveal_orders batch_id pool_id (idx ∷ rest) o =
      let data_of = revealed_data idx (nth o.committed_orders idx) in
      let m : RevealMessage = record {
        nft_id = o.node_nft_id;
        pool_id = pool_id;
        batch_id = batch_id;
        order_bytes = data_of.0;
        signature = data_of.1;
      } in
      reveal_orders batch_id pool_id rest (record o {
        gossip = publish_reveal decode_order pool_id m o.gossip;
        published_reveals = o.published_reveals ++ (m ∷ []);
      })

  unfoldable pub on_reveal_phase :
      (my_commit_count : ℕ) → Option (List ℕ) → Orchestrator → Option (Orchestrator × ℕ)
  unfolding current_pool_id reveal_orders
  on_reveal_phase my_commit_count strategy_response o =
      current_batch_id o.batch_state >>= λ batch_id.
      current_pool_id lib o.node_nft_id o.batch_state >>= λ pool_id.
      let chosen = indices my_commit_count strategy_response in
      some (reveal_orders batch_id pool_id chosen o, length chosen)

  abbrev pub to_revealed : (signature : Bytes) → Order → RevealedOrder
  to_revealed signature order = record {
    order = order;
    signature = signature;
    order_hash = to_array 32 (order_hash lib order);
  }

  -- The orders that can be decoded, of a list of orders with their signatures.
  unfoldable pub decoded : List (Bytes × Bytes) → List RevealedOrder
  unfolding order_hash
  decoded [] = []
  decoded ((order_bytes, signature) ∷ rest) = elim (decode_order order_bytes) [
    | none ↦ decoded rest
    | some order ↦ to_revealed signature order ∷ decoded rest
  ]

  abbrev pub own_orders : List ValidatedOrder → List (Bytes × Bytes)
  own_orders [] = []
  own_orders (v ∷ rest) = (v.order_bytes, v.signature) ∷ own_orders rest

  abbrev pub peer_orders : List RevealMessage → List (Bytes × Bytes)
  peer_orders [] = []
  peer_orders (m ∷ rest) = (m.order_bytes, m.signature) ∷ peer_orders rest

  -- `all_revealed`
  unfoldable pub all_revealed : ℕ → Orchestrator → List RevealedOrder
  unfolding decoded
  all_revealed batch_id o =
      decoded (own_orders o.committed_orders)
      ++ decoded (peer_orders (received_reveals batch_id o.gossip))

  abbrev pub register : ℕ → List Match → List MatchRegistration → List MatchRegistration
  register batch_id [] l = l
  register batch_id (m ∷ ms) l =
      l ++ (record { batch_id = batch_id; match_count = length (m ∷ ms) } ∷ [])

  abbrev pub store_matches : ℕ → List Match → Orchestrator → Orchestrator × ℕ
  store_matches batch_id matches o = (
    record o {
      registered_matches = register batch_id matches o.registered_matches;
      current_matches = matches;
    },
    length matches,
  )

  abbrev pub match_revealed :
      (batch_id pool_id : ℕ) → List RevealedOrder → Orchestrator → Orchestrator × ℕ
  match_revealed batch_id pool_id [] o = (record o { current_matches = [] }, 0)
  match_revealed batch_id pool_id (r ∷ rs) o =
      store_matches batch_id
        (run_matching lib (record {
          batch_id = batch_id;
          pool_id = pool_id;
          reveals = r ∷ rs;
          markets = o.market_configs;
        }))
        o

  unfoldable pub on_match_phase : Orchestrator → Option (Orchestrator × ℕ)
  unfolding current_pool_id all_revealed run_matching
  on_match_phase o = current_batch_id o.batch_state >>= λ batch_id.
      current_pool_id lib o.node_nft_id o.batch_state >>= λ pool_id.
      some (match_revealed batch_id pool_id (all_revealed batch_id o) o)

abbrev pub on_swap_phase : Orchestrator → ℕ
on_swap_phase o = length o.current_matches

abbrev pub take_matches : Orchestrator → Orchestrator × List Match
take_matches o = (record o { current_matches = [] }, o.current_matches)

-- src/run.rs: what the main loop clears when a commit phase begins.
abbrev pub fresh_commit_cycle : Orchestrator → Orchestrator
fresh_commit_cycle o = record o { published_commits = []; committed_orders = [] }
