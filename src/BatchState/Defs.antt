-- ===== src/BatchState/Defs.antt =====
-- crates/batch_state/src/lib.rs, the state and its operations.
use deadmkt_node.Prelude.{
  ℕ, Bool, true, false, not, ◌&&◌, Option, none, some, List, [], ◌∷◌, ◌++◌, map, bytes_eq, ◌==◌,
  if◌then◌else◌,
}
use deadmkt_node.Maps.{Map, values, lookup, insert}
use deadmkt_node.Bytes.{Bytes}
use deadmkt_node.Crypto.{Order, Libraries, sign_order, sign_commit}
use deadmkt_node.Chain.{Phase, phase_eq, BatchParams}
use deadmkt_node.Matching.{RevealedOrder, Match, MarketConfig, MatchingInput, compute_order_hash}
use deadmkt_node.Matching
use deadmkt_node.Gossip.Quota.{CommitQuotaTracker}
use deadmkt_node.Gossip.Quota

pub data BatchStateError : Type 0 where
  wrong_phase_for_commit wrong_phase_for_reveal : BatchStateError
  no_matching_commit already_matched : BatchStateError

-- `Result<(), BatchStateError>`
pub data BatchResult : Type 0 where
  done : BatchResult
  failed : BatchStateError → BatchResult

pub record CommitRecord : Type 0 where
  pub batch_id : ℕ
  pub pool_id : ℕ
  pub hash : Bytes
  pub nft_id : ℕ
  pub signature : Bytes
  pub revealed : Bool

pub record OwnCommit : Type 0 where
  pub order : Order
  pub order_signature : Bytes
  pub commit_signature : Bytes
  pub order_hash : Bytes
  pub revealed : Bool

pub record BatchState : Type 0 where
  pub batch_id : ℕ
  pub pool_id : ℕ
  pub phase : Phase
  pub params : BatchParams
  pub commits : Map Bytes CommitRecord
  pub reveals : Map Bytes RevealedOrder
  pub matches : List Match
  pub my_commits : List OwnCommit
  pub quota_tracker : CommitQuotaTracker
  pub market_configs : Map Bytes MarketConfig
  pub matched : Bool

-- `map(|m| (m.symbol.clone(), m)).collect()`
unfoldable pub by_config : Map Bytes MarketConfig → List MarketConfig → Map Bytes MarketConfig
by_config m [] = m
by_config m (c ∷ cs) = by_config (insert c.symbol c m) cs

unfoldable pub new : ℕ → ℕ → Phase → BatchParams → List MarketConfig → BatchState
new batch_id pool_id phase params market_configs = record {
  batch_id = batch_id;
  pool_id = pool_id;
  phase = phase;
  params = params;
  commits = [];
  reveals = [];
  matches = [];
  my_commits = [];
  quota_tracker = Quota.new params.commits_per_batch;
  market_configs = by_config [] market_configs;
  matched = false;
}

unfoldable pub add_commit :
    (batch_id pool_id : ℕ) (hash : Bytes) (nft_id : ℕ) (signature : Bytes)
    → BatchState
    → BatchState × BatchResult
add_commit batch_id pool_id hash nft_id signature s =
    if not (phase_eq s.phase Phase.commit) then (s, failed wrong_phase_for_commit) else (
      record s {
        commits =
            insert hash
              (record {
                batch_id = batch_id;
                pool_id = pool_id;
                hash = hash;
                nft_id = nft_id;
                signature = signature;
                revealed = false;
              })
              s.commits;
      },
      done,
    )

module _ (lib : Libraries) where
  -- What is stored for a reveal.
  abbrev pub revealed_order : Order → Bytes → RevealedOrder
  revealed_order order signature = record {
    order = order;
    signature = signature;
    order_hash = compute_order_hash lib order;
  }

  -- The body of `add_reveal` at the commit found.
  unfoldable pub reveal_found :
      Order → Bytes → BatchState → Option CommitRecord → BatchState × BatchResult
  reveal_found order signature s none = (s, failed no_matching_commit)
  reveal_found order signature s (some commit) =
      let hash = compute_order_hash lib order in
      (
        record s {
          commits = insert hash (record commit { revealed = true }) s.commits;
          reveals = insert hash (revealed_order order signature) s.reveals;
        },
        done,
      )

  unfoldable pub add_reveal : Order → Bytes → BatchState → BatchState × BatchResult
  unfolding reveal_found
  add_reveal order signature s =
      if not (phase_eq s.phase Phase.reveal)
      then (s, failed wrong_phase_for_reveal)
      else reveal_found order signature s (lookup (compute_order_hash lib order) s.commits)

  unfoldable pub matching_input : BatchState → MatchingInput
  matching_input s = record {
    batch_id = s.batch_id;
    pool_id = s.pool_id;
    reveals = values s.reveals;
    markets = values s.market_configs;
  }

  unfoldable pub run_matching : BatchState → BatchState
  unfolding matching_input
  run_matching s =
      if s.matched
      then s
      else record s { matches = Matching.run_matching lib (matching_input s); matched = true }

  unfoldable pub transition_to : Phase → BatchState → BatchState × BatchResult
  unfolding run_matching
  transition_to new_phase s =
      let s' = record s { phase = new_phase } in
      if phase_eq new_phase Phase.match && not s'.matched
      then (run_matching s', done)
      else (s', done)

  unfoldable pub create_own_commit : Bytes → Order → BatchState → BatchState × OwnCommit
  create_own_commit secret order s =
      let order_hash = compute_order_hash lib order in
      let own : OwnCommit = record {
        order = order;
        order_signature = sign_order lib secret order;
        commit_signature = sign_commit lib secret s.batch_id s.pool_id order_hash;
        order_hash = order_hash;
        revealed = false;
      } in
      (record s { my_commits = s.my_commits ++ own ∷ [] }, own)

abbrev pub mark_if : Bytes → OwnCommit → OwnCommit
mark_if order_hash c = if c.order_hash == order_hash then record c { revealed = true } else c

unfoldable pub mark_own_revealed : Bytes → BatchState → BatchState
mark_own_revealed order_hash s = record s { my_commits = map (mark_if order_hash) s.my_commits }

unfoldable pub unrevealed : List OwnCommit → List OwnCommit
unrevealed [] = []
unrevealed (c ∷ cs) = if c.revealed then unrevealed cs else c ∷ unrevealed cs

unfoldable pub unrevealed_own_commits : BatchState → List OwnCommit
unfolding unrevealed
unrevealed_own_commits s = unrevealed s.my_commits

unfoldable pub reset_for_new_batch : ℕ → ℕ → Phase → List MarketConfig → BatchState → BatchState
reset_for_new_batch batch_id pool_id phase market_configs s = record {
  batch_id = batch_id;
  pool_id = pool_id;
  phase = phase;
  params = s.params;
  commits = [];
  reveals = [];
  matches = [];
  my_commits = [];
  quota_tracker = Quota.reset s.quota_tracker;
  market_configs = by_config [] market_configs;
  matched = false;
}
