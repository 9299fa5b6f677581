-- ===== src/Orchestrator/Bridges.antt =====
-- src/run.rs, `GossipBridge` and `BatchStateBridge`: the ports of the orchestrator. The mutexes are
-- never contended and are left out.
use deadmkt_node.Prelude.{
  ℕ, zero, suc, Bool, true, false, Option, List, [], ◌∷◌, ◌++◌, nat_eq, max, ◌>>=◌,
}
use deadmkt_node.Maps.{Map, lookup, insert, get_or}
use deadmkt_node.Bytes.{Bytes, zeros}
use deadmkt_node.Crypto.{Order, Libraries, encode_order}
use deadmkt_node.Chain.{
  Phase, BatchParams, BatchEpoch, compute_batch_id, compute_phase, compute_pool_assignment,
}
use deadmkt_node.Inbound.{Inbound, accept_commit, accept_reveal}

pub record CommitMessage : Type 0 where
  pub nft_id : ℕ
  pub pool_id : ℕ
  pub batch_id : ℕ
  pub commit_hash : Bytes

pub record RevealMessage : Type 0 where
  pub nft_id : ℕ
  pub pool_id : ℕ
  pub batch_id : ℕ
  pub order_bytes : Bytes
  pub signature : Bytes

-- crates/gossip/src/messages.rs; the fields of the last two are not read here.
pub data GossipMessage : Type 0 where
  commitment :
      (batch_id pool_id : ℕ) (hash : Bytes) (nft_id : ℕ) (signature : Bytes) → GossipMessage
  reveal : (batch_id pool_id : ℕ) → Order → (signature : Bytes) → GossipMessage
  batch_complete settlement_report : GossipMessage

pub record GossipBridge : Type 0 where
  pub pending_commits : List (ℕ × GossipMessage)
  pub pending_reveals : List (ℕ × GossipMessage)
  pub inbound_commits : Map ℕ (List CommitMessage)
  pub inbound_reveals : Map ℕ (List RevealMessage)

abbrev pub new_gossip : GossipBridge
new_gossip = record {
  pending_commits = [];
  pending_reveals = [];
  inbound_commits = [];
  inbound_reveals = [];
}

-- The first `n` bytes, and as many zeroes as are missing.
abbrev pub to_array : ℕ → Bytes → Bytes
to_array zero b = []
to_array (suc n) [] = 0 ∷ to_array n []
to_array (suc n) (x ∷ b) = x ∷ to_array n b

unfoldable pub publish_commit : (pool_id : ℕ) → CommitMessage → GossipBridge → GossipBridge
publish_commit pool_id commit g =
    let msg =
      commitment commit.batch_id commit.pool_id (to_array 32 commit.commit_hash) commit.nft_id
        (zeros 64) in
    record g { pending_commits = g.pending_commits ++ ((pool_id, msg) ∷ []) }

abbrev pub unknown_symbol : Bytes
unknown_symbol = 85 ∷ 78 ∷ 75 ∷ 78 ∷ 79 ∷ 87 ∷ 78 ∷ []

abbrev pub placeholder : RevealMessage → Order
placeholder m = record {
  nft_id = m.nft_id;
  symbol = unknown_symbol;
  side = 0;
  price = 0;
  quantity = 0;
  batch_id = m.batch_id;
  nonce = m.order_bytes;
}

-- `bcs::from_bytes` is an argument.
unfoldable pub publish_reveal :
    (Bytes → Option Order) → (pool_id : ℕ) → RevealMessage → GossipBridge → GossipBridge
publish_reveal decode_order pool_id m g =
    let order = get_or (placeholder m) (decode_order m.order_bytes) in
    record g {
      pending_reveals =
          g.pending_reveals ++ ((pool_id, reveal m.batch_id m.pool_id order m.signature) ∷ []);
    }

abbrev pub received_commits : ℕ → GossipBridge → List CommitMessage
received_commits batch_id g = get_or [] (lookup batch_id g.inbound_commits)

abbrev pub received_reveals : ℕ → GossipBridge → List RevealMessage
received_reveals batch_id g = get_or [] (lookup batch_id g.inbound_reveals)

-- `entry(batch_id).or_default().push(commit)`
abbrev pub push_commit : CommitMessage → GossipBridge → GossipBridge
push_commit c g = record g {
  inbound_commits = insert c.batch_id (received_commits c.batch_id g ++ (c ∷ [])) g.inbound_commits;
}

abbrev pub push_reveal : RevealMessage → GossipBridge → GossipBridge
push_reveal m g = record g {
  inbound_reveals = insert m.batch_id (received_reveals m.batch_id g ++ (m ∷ [])) g.inbound_reveals;
}

-- The filter's answer, and what is stored if it accepts.
abbrev pub store_if :
    (GossipBridge → GossipBridge) → GossipBridge → Inbound × Bool → Inbound × GossipBridge
store_if push g (v, true) = (v, push g)
store_if push g (v, false) = (v, g)

-- An order that cannot be encoded has no bytes; with the BCS of the model, every order can.
unfoldable pub process_inbound_gossip :
    Libraries → GossipMessage → Inbound → GossipBridge → Inbound × GossipBridge
unfolding accept_commit accept_reveal encode_order
process_inbound_gossip lib (commitment batch_id pool_id hash nft_id signature) v g =
    let commit : CommitMessage = record {
      nft_id = nft_id;
      pool_id = pool_id;
      batch_id = batch_id;
      commit_hash = hash;
    } in
    store_if (push_commit commit) g (accept_commit nft_id batch_id hash v)
process_inbound_gossip lib (reveal batch_id pool_id order signature) v g =
    let m : RevealMessage = record {
      nft_id = order.nft_id;
      pool_id = pool_id;
      batch_id = batch_id;
      order_bytes = encode_order lib order;
      signature = signature;
    } in
    store_if (push_reveal m) g
      (accept_reveal lib order.nft_id batch_id (encode_order lib order) signature v)
process_inbound_gossip lib batch_complete v g = (v, g)
process_inbound_gossip lib settlement_report v g = (v, g)

pub record BatchStateBridge : Type 0 where
  pub block_height : ℕ
  pub epoch : BatchEpoch
  pub params : BatchParams
  pub num_pools : ℕ
  pub nft_id : ℕ

abbrev pub new_batch_state : BatchEpoch → BatchParams → ℕ → ℕ → BatchStateBridge
new_batch_state e p pools nft = record {
  block_height = e.anchor_block;
  epoch = e;
  params = p;
  num_pools = pools;
  nft_id = nft;
}

-- `none` is the panic of a division by zero.
abbrev pub current_phase : BatchStateBridge → Option Phase
current_phase b = compute_phase b.block_height b.epoch b.params

abbrev pub current_batch_id : BatchStateBridge → Option ℕ
current_batch_id b = compute_batch_id b.block_height b.epoch b.params

unfoldable pub current_pool_id : Libraries → ℕ → BatchStateBridge → Option ℕ
unfolding compute_batch_id
current_pool_id lib nft b = current_batch_id b >>= λ batch_id.
    compute_pool_assignment lib.sha256 nft batch_id (max b.num_pools 1)

abbrev pub advance_to_block : ℕ → BatchStateBridge → BatchStateBridge
advance_to_block height b = record b { block_height = height }
