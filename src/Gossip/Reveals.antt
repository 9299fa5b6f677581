-- ===== src/Gossip/Reveals.antt =====
-- What `validate_reveal` and `validate_batch_complete` accept, and that they accept it once.
use deadmkt_node.Prelude.{ℕ, ◌≡◌, ◌≢◌, ◌↔◌, ap, ◌∙◌, true, false, some, nat_eq, bytes_eq, arith}
use deadmkt_node.Maps.{lookup, contains, add, lookup-insert_self, contains-add_self}
use deadmkt_node.Bytes.{Bytes}
use deadmkt_node.Crypto.{Libraries, Order, verify, encode_order, batch_complete_message}
use deadmkt_node.Chain.{compute_pool_assignment}
use deadmkt_node.Gossip.Defs.{
  RevealResult, BatchCompleteResult, CommitRecord, GossipValidator, sender_eq,
}
use deadmkt_node.Gossip.Validator.{
  mark_revealed, validate_reveal, check_reveal, check_order_signature, validate_batch_complete,
  check_complete,
}

module _ (lib : Libraries) (v : GossipValidator) (batch_id pool_id : ℕ) (order : Order)
    (signature : Bytes) where
  abbrev reveal_hash : Bytes
  reveal_hash = lib.sha256 (encode_order lib order)

  -- The conditions of a reveal, with the commit that it opens.
  abbrev pub Opens : CommitRecord → Type 0
  Opens commit =
      (batch_id ≡ v.context.current_batch_id)
      × (lookup reveal_hash v.pending_commits ≡ some commit)
      × (contains reveal_hash v.revealed_hashes ≡ false)
      × (order.nft_id ≡ commit.nft_id)
      × ((pubkey : Bytes) × (v.providers.get_pubkey order.nft_id ≡ some pubkey)
          × (verify lib pubkey (encode_order lib order) signature ≡ true))

  -- A reveal is accepted exactly when it belongs to the current batch, its hash is that of a
  -- pending commit of the same trader which is not revealed yet, and its signature verifies under
  -- the trader's key.
  pub reveal_accepted_iff :
      ((validate_reveal lib v batch_id pool_id order signature).1 ≡ RevealResult.accepted)
      ↔ ((commit : CommitRecord) × Opens commit)
  unfolding validate_reveal check_reveal check_order_signature
  reveal_accepted_iff = (λ e. ground arith, λ o. ground arith)

  pub reveal_writes :
      (v' : GossipValidator)
      → validate_reveal lib v batch_id pool_id order signature ≡ (v', RevealResult.accepted)
      → (commit : CommitRecord) × (lookup reveal_hash v.pending_commits ≡ some commit)
        × (v' ≡ record v {
          revealed_hashes = add reveal_hash v.revealed_hashes;
          pending_commits = mark_revealed lib reveal_hash commit v.pending_commits;
        })
        × (batch_id ≡ v'.context.current_batch_id)
  unfolding validate_reveal check_reveal check_order_signature
  reveal_writes v' e = ground arith

  -- A reveal that is not accepted changes nothing.
  pub reveal_refused_keeps :
      (v' : GossipValidator) (r : RevealResult)
      → validate_reveal lib v batch_id pool_id order signature ≡ (v', r)
      → r ≢ RevealResult.accepted
      → v' ≡ v
  unfolding validate_reveal check_reveal check_order_signature
  reveal_refused_keeps v' r e n = ground arith

module _ (lib : Libraries) (v : GossipValidator) (batch_id pool_id : ℕ) (order : Order)
    (signature : Bytes) where
  ignore_revealed :
      (commit : CommitRecord)
      → batch_id ≡ v.context.current_batch_id
      → lookup (reveal_hash lib v batch_id pool_id order signature) v.pending_commits ≡ some commit
      → contains (reveal_hash lib v batch_id pool_id order signature) v.revealed_hashes ≡ true
      → validate_reveal lib v batch_id pool_id order signature ≡ (v, RevealResult.duplicate_ignored)
  unfolding validate_reveal check_reveal
  ignore_revealed commit current found before = ground arith

-- An accepted reveal marks its pending commit as revealed, and the same reveal is ignored from then
-- on, with no further change.
pub reveal_once :
    (lib : Libraries) (v v' : GossipValidator) (batch_id pool_id : ℕ) (order : Order)
    (signature : Bytes)
    → validate_reveal lib v batch_id pool_id order signature ≡ (v', RevealResult.accepted)
    → ((commit : CommitRecord) × (lookup (lib.sha256 (encode_order lib order)) v.pending_commits
          ≡ some commit)
        × (lookup (lib.sha256 (encode_order lib order)) v'.pending_commits
            ≡ some (record commit { revealed = true })))
      × (validate_reveal lib v' batch_id pool_id order signature
          ≡ (v', RevealResult.duplicate_ignored))
reveal_once lib v v' batch_id pool_id order signature e =
    let (commit, found, written, current) =
      reveal_writes lib v batch_id pool_id order signature v' e in
    let h = lib.sha256 (encode_order lib order) in
    let marked =
      ap (λ (w : GossipValidator). lookup h w.pending_commits) written
      ∙ lookup-insert_self h _ v.pending_commits in
    let before =
      ap (λ (w : GossipValidator). contains h w.revealed_hashes) written
      ∙ contains-add_self h v.revealed_hashes in
    (
      (commit, found, marked),
      ignore_revealed lib v' batch_id pool_id order signature _ current marked before,
    )

module _ (lib : Libraries) (v : GossipValidator) (batch_id pool_id : ℕ) (symbol : Bytes)
    (price volume count sender : ℕ) (signature : Bytes) where
  -- A batch-complete message is accepted exactly when it is of the current batch, its sender is
  -- assigned to its pool, its signature verifies under the sender's key, and nothing was accepted
  -- from that sender for that symbol before.
  pub batch_complete_accepted_iff :
      ((v' : GossipValidator) × (validate_batch_complete lib v batch_id pool_id symbol price volume
            count sender signature
          ≡ some (v', BatchCompleteResult.accepted)))
      ↔ ((batch_id ≡ v.context.current_batch_id)
          × (compute_pool_assignment lib.sha256 sender batch_id v.context.num_pools ≡ some pool_id)
          × ((pubkey : Bytes) × (v.providers.get_pubkey sender ≡ some pubkey)
              × (verify lib pubkey
                    (batch_complete_message lib batch_id pool_id symbol price volume count)
                    signature
                  ≡ true))
          × (contains (sender, symbol) v.batch_complete_seen ≡ false))
  unfolding validate_batch_complete check_complete
  batch_complete_accepted_iff = (
    λ a. ground arith,
    λ c. (
      record v { batch_complete_seen = add (sender, symbol) v.batch_complete_seen },
      ground arith,
    ),
  )

  -- Whatever the answer, at most the set of senders changes.
  pub complete_writes :
      (v' : GossipValidator) (r : BatchCompleteResult)
      → validate_batch_complete lib v batch_id pool_id symbol price volume count sender signature
        ≡ some (v', r)
      → v' ≡ record v { batch_complete_seen = v'.batch_complete_seen }
  unfolding validate_batch_complete check_complete
  complete_writes v' r e = ground arith
