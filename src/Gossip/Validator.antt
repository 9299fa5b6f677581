-- ===== src/Gossip/Validator.antt =====
-- crates/gossip_validation/src/lib.rs, the methods of `GossipValidator`.
use deadmkt_node.Prelude.{
  ℕ, true, false, not, Option, none, some, [], nat_eq, bytes_eq, ◌==◌, if◌then◌else◌, ◌>>=◌,
}
use deadmkt_node.Maps.{Map, lookup, insert, contains_key, contains, add}
use deadmkt_node.Bytes.{Bytes}
use deadmkt_node.Crypto.{
  Libraries, Order, verify, encode_order, commit_message, batch_complete_message,
}
use deadmkt_node.Chain.{compute_pool_assignment}
use deadmkt_node.Gossip.Defs.{
  Providers, ValidationContext, CommitRejectReason, CommitResult, RevealRejectReason, RevealResult,
  BatchCompleteRejectReason, BatchCompleteResult, CommitRecord, GossipValidator, sender_eq,
}
use deadmkt_node.Gossip.Quota

abbrev pub new : Providers → ValidationContext → GossipValidator
new providers context = record {
  providers = providers;
  context = context;
  pending_commits = [];
  quota_tracker = Quota.new context.commits_per_batch;
  revealed_hashes = [];
  batch_complete_seen = [];
}

abbrev pub refuse : GossipValidator → CommitRejectReason → GossipValidator × CommitResult
refuse v reason = (v, CommitResult.rejected reason)

module _ (lib : Libraries) where
  -- Steps 7 and 8 of `validate_commit`, and the insertion. The quota is charged first.
  unfoldable pub store_commit :
      GossipValidator → ℕ → ℕ → Bytes → ℕ → Bytes → GossipValidator × CommitResult
  store_commit v batch_id pool_id hash nft_id signature =
      let (tracker, under) =
        Quota.check_and_record v.quota_tracker nft_id batch_id pool_id hash signature in
      let charged = record v { quota_tracker = tracker } in
      if not under
      then refuse charged CommitRejectReason.over_quota
      else if contains_key hash v.pending_commits
      then refuse charged CommitRejectReason.duplicate_hash
      else (
        record charged {
          pending_commits =
              insert hash
                (record {
                  batch_id = batch_id;
                  pool_id = pool_id;
                  hash = hash;
                  nft_id = nft_id;
                  signature = signature;
                  revealed = false;
                })
                v.pending_commits;
        },
        CommitResult.accepted,
      )

  -- Step 6: the signature, under the key that the provider found.
  unfoldable pub check_signature :
      GossipValidator → ℕ → ℕ → Bytes → ℕ → Bytes → Option Bytes → GossipValidator × CommitResult
  check_signature v batch_id pool_id hash nft_id signature none =
      refuse v CommitRejectReason.invalid_signature
  check_signature v batch_id pool_id hash nft_id signature (some pubkey) =
      if not (verify lib pubkey (commit_message batch_id pool_id hash) signature)
      then refuse v CommitRejectReason.invalid_signature
      else store_commit v batch_id pool_id hash nft_id signature

  -- Steps 3 to 6, at the assigned pool.
  unfoldable pub check_sender :
      GossipValidator → ℕ → ℕ → Bytes → ℕ → Bytes → ℕ → GossipValidator × CommitResult
  check_sender v batch_id pool_id hash nft_id signature expected_pool =
      if not (expected_pool == pool_id)
      then refuse v CommitRejectReason.bad_pool_assignment
      else if v.providers.is_blocked nft_id
      then refuse v CommitRejectReason.blocked_nft
      else if not (v.providers.is_registered nft_id)
      then refuse v CommitRejectReason.unregistered_nft
      else check_signature v batch_id pool_id hash nft_id signature (v.providers.get_pubkey nft_id)

  -- `none` is the panic of `compute_pool_assignment` without pools.
  unfoldable pub validate_commit :
      GossipValidator → ℕ → ℕ → Bytes → ℕ → Bytes → Option (GossipValidator × CommitResult)
  validate_commit v batch_id pool_id hash nft_id signature =
      if not (batch_id == v.context.current_batch_id)
      then some (refuse v CommitRejectReason.wrong_batch)
      else if not (pool_id == v.context.my_pool_id)
      then some (refuse v CommitRejectReason.wrong_pool)
      else (compute_pool_assignment lib.sha256 nft_id batch_id v.context.num_pools
          >>= λ expected_pool.
              some (check_sender v batch_id pool_id hash nft_id signature expected_pool))

  -- The commit of a reveal, marked.
  abbrev pub mark_revealed : Bytes → CommitRecord → Map Bytes CommitRecord → Map Bytes CommitRecord
  mark_revealed hash commit pending = insert hash (record commit { revealed = true }) pending

  unfoldable pub check_order_signature :
      GossipValidator
      → Order
      → Bytes
      → Bytes
      → CommitRecord
      → Option Bytes
      → GossipValidator × RevealResult
  check_order_signature v order signature reveal_hash commit none =
      (v, RevealResult.rejected RevealRejectReason.invalid_signature)
  check_order_signature v order signature reveal_hash commit (some pubkey) =
      if not (verify lib pubkey (encode_order lib order) signature)
      then (v, RevealResult.rejected RevealRejectReason.invalid_signature)
      else (
        record v {
          revealed_hashes = add reveal_hash v.revealed_hashes;
          pending_commits = mark_revealed reveal_hash commit v.pending_commits;
        },
        RevealResult.accepted,
      )

  -- Steps 3 to 6 of `validate_reveal`, at the pending commit that was found.
  unfoldable pub check_reveal :
      GossipValidator → Order → Bytes → Bytes → Option CommitRecord → GossipValidator × RevealResult
  check_reveal v order signature reveal_hash none =
      (v, RevealResult.rejected RevealRejectReason.no_matching_commit)
  check_reveal v order signature reveal_hash (some commit) =
      if contains reveal_hash v.revealed_hashes
      then (v, RevealResult.duplicate_ignored)
      else if not (order.nft_id == commit.nft_id)
      then (v, RevealResult.rejected RevealRejectReason.nft_id_mismatch)
      else check_order_signature v order signature reveal_hash commit
          (v.providers.get_pubkey order.nft_id)

  unfoldable pub validate_reveal :
      GossipValidator → ℕ → ℕ → Order → Bytes → GossipValidator × RevealResult
  validate_reveal v batch_id pool_id order signature =
      let reveal_hash = lib.sha256 (encode_order lib order) in
      if not (batch_id == v.context.current_batch_id)
      then (v, RevealResult.rejected RevealRejectReason.wrong_batch)
      else check_reveal v order signature reveal_hash (lookup reveal_hash v.pending_commits)

  -- Steps 3 and 4 of `validate_batch_complete`.
  unfoldable pub check_complete :
      GossipValidator
      → Bytes
      → ℕ
      → Bytes
      → Bytes
      → Option Bytes
      → GossipValidator × BatchCompleteResult
  check_complete v symbol sender_nft_id signature msg none =
      (v, BatchCompleteResult.rejected BatchCompleteRejectReason.invalid_signature)
  check_complete v symbol sender_nft_id signature msg (some pubkey) =
      if not (verify lib pubkey msg signature)
      then (v, BatchCompleteResult.rejected BatchCompleteRejectReason.invalid_signature)
      else if contains (sender_nft_id, symbol) v.batch_complete_seen
      then (v, BatchCompleteResult.rejected BatchCompleteRejectReason.duplicate_sender)
      else (
        record v { batch_complete_seen = add (sender_nft_id, symbol) v.batch_complete_seen },
        BatchCompleteResult.accepted,
      )

  unfoldable pub validate_batch_complete :
      GossipValidator
      → ℕ
      → ℕ
      → Bytes
      → ℕ
      → ℕ
      → ℕ
      → ℕ
      → Bytes
      → Option (GossipValidator × BatchCompleteResult)
  validate_batch_complete v batch_id pool_id symbol avg_settlement_price volume match_count
        sender_nft_id signature =
      if not (batch_id == v.context.current_batch_id)
      then some (v, BatchCompleteResult.rejected BatchCompleteRejectReason.wrong_batch)
      else (compute_pool_assignment lib.sha256 sender_nft_id batch_id v.context.num_pools
          >>= λ expected_pool.
              if not (expected_pool == pool_id)
              then some
                  (v, BatchCompleteResult.rejected BatchCompleteRejectReason.bad_pool_assignment)
              else some (
                  check_complete v symbol sender_nft_id signature
                    (batch_complete_message lib batch_id pool_id symbol avg_settlement_price volume
                      match_count)
                    (v.providers.get_pubkey sender_nft_id)))

-- The tracker keeps the quota it was made with, whatever the new context says.
unfoldable pub reset_for_new_batch : GossipValidator → ValidationContext → GossipValidator
reset_for_new_batch v new_context = record v {
  context = new_context;
  pending_commits = [];
  quota_tracker = Quota.reset v.quota_tracker;
  revealed_hashes = [];
  batch_complete_seen = [];
}
