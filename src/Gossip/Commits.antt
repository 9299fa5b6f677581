-- ===== src/Gossip/Commits.antt =====
-- What `validate_commit` accepts, and what it changes.
use deadmkt_node.Prelude.{
  ℕ, ◌+◌, ◌<◌, ◌≡◌, ◌≢◌, ◌⊎◌, ◌↔◌, inl, inr, refl, ap, ◌∙◌, true, false, none, some, nat_eq,
  bytes_eq, arith,
}
use deadmkt_node.Maps.{lookup, insert, get_or, lookup-insert_self}
use deadmkt_node.Bytes.{Bytes}
use deadmkt_node.Crypto.{Libraries, verify, commit_message}
use deadmkt_node.Chain.{compute_pool_assignment}
use deadmkt_node.Gossip.Quota
use deadmkt_node.Gossip.Quota.{CommitQuotaTracker}
use deadmkt_node.Gossip.Defs.{CommitRejectReason, CommitResult, CommitRecord, GossipValidator}
use deadmkt_node.Gossip.Validator.{store_commit, check_signature, check_sender, validate_commit}

module _ (lib : Libraries) (v : GossipValidator) (batch_id pool_id : ℕ) (hash : Bytes) (nft_id : ℕ)
    (signature : Bytes) where
  -- The checks before the quota.
  abbrev pub Passes : Type 0
  Passes =
      (batch_id ≡ v.context.current_batch_id)
      × (pool_id ≡ v.context.my_pool_id)
      × (compute_pool_assignment lib.sha256 nft_id batch_id v.context.num_pools ≡ some pool_id)
      × (v.providers.is_blocked nft_id ≡ false)
      × (v.providers.is_registered nft_id ≡ true)
      × ((pubkey : Bytes) × (v.providers.get_pubkey nft_id ≡ some pubkey)
          × (verify lib pubkey (commit_message batch_id pool_id hash) signature ≡ true))

  passes→store :
      Passes
      → validate_commit lib v batch_id pool_id hash nft_id signature
        ≡ some (store_commit lib v batch_id pool_id hash nft_id signature)
  unfolding validate_commit check_sender check_signature
  passes→store p = ground arith

  -- A call stops at a failed check and leaves the validator as it is, or gets to the quota.
  pub validate_commit_cases :
      (v' : GossipValidator) (r : CommitResult)
      → validate_commit lib v batch_id pool_id hash nft_id signature ≡ some (v', r)
      → ((v' ≡ v) × (r ≢ CommitResult.accepted))
        ⊎ (Passes × ((v', r) ≡ store_commit lib v batch_id pool_id hash nft_id signature))
  unfolding validate_commit check_sender check_signature
  validate_commit_cases v' r e = ground arith

  accept→conditions :
      (v' : GossipValidator)
      → validate_commit lib v batch_id pool_id hash nft_id signature
        ≡ some (v', CommitResult.accepted)
      → Passes
        × (Quota.count_of nft_id v.quota_tracker < v.quota_tracker.commits_per_batch)
        × (lookup hash v.pending_commits ≡ none)
  unfolding store_commit Quota.check_and_record
  accept→conditions v' e = elim (validate_commit_cases v' CommitResult.accepted e) [
    | inl (_, n) ↦ absurd (n refl)
    | inr (p, s) ↦ (p, ground arith, ground arith)
  ]

  -- A commit is accepted exactly when its batch and pool are the current ones, the trader is
  -- assigned to the pool, is not blocked and is registered, the signature verifies under the
  -- trader's key, the trader is under the quota, and the hash is new.
  pub commit_accepted_iff :
      ((v' : GossipValidator) × (validate_commit lib v batch_id pool_id hash nft_id signature
          ≡ some (v', CommitResult.accepted)))
      ↔ (Passes
          × (Quota.count_of nft_id v.quota_tracker < v.quota_tracker.commits_per_batch)
          × (lookup hash v.pending_commits ≡ none))
  unfolding store_commit Quota.check_and_record
  commit_accepted_iff = (
    λ a. accept→conditions a.0 a.1,
    λ c. (
      (store_commit lib v batch_id pool_id hash nft_id signature).0,
      passes→store c.0 ∙ ground arith,
    ),
  )

  -- A refused commit changes neither the pending commits nor what was revealed or completed; only
  -- the quota may have been charged.
  pub commit_refused_keeps :
      (v' : GossipValidator) (reason : CommitRejectReason)
      → validate_commit lib v batch_id pool_id hash nft_id signature
        ≡ some (v', CommitResult.rejected reason)
      → (v'.pending_commits ≡ v.pending_commits)
        × (v'.revealed_hashes ≡ v.revealed_hashes)
        × (v'.batch_complete_seen ≡ v.batch_complete_seen)
        × (v'.context ≡ v.context)
  unfolding store_commit Quota.check_and_record
  commit_refused_keeps v' reason e = elim (validate_commit_cases v' _ e) [
    | inl (same, _) ↦ ground arith
    | inr (p, s) ↦ ground arith
  ]

  abbrev pub new_commit : CommitRecord
  new_commit = record {
    batch_id = batch_id;
    pool_id = pool_id;
    hash = hash;
    nft_id = nft_id;
    signature = signature;
    revealed = false;
  }

  -- What an accepted commit writes.
  pub accepted_writes :
      (v' : GossipValidator)
      → validate_commit lib v batch_id pool_id hash nft_id signature
        ≡ some (v', CommitResult.accepted)
      → (v'.providers ≡ v.providers)
        × (v'.context ≡ v.context)
        × (v'.pending_commits ≡ insert hash new_commit v.pending_commits)
        × (v'.quota_tracker.counts
            ≡ insert nft_id (Quota.count_of nft_id v.quota_tracker + 1) v.quota_tracker.counts)
        × (v'.quota_tracker.commits_per_batch ≡ v.quota_tracker.commits_per_batch)
  unfolding store_commit Quota.check_and_record
  accepted_writes v' e = elim (validate_commit_cases v' _ e) [
    | inl (_, n) ↦ absurd (n refl)
    | inr (p, s) ↦ ground arith
  ]

module _ (lib : Libraries) (v : GossipValidator) (batch_id pool_id : ℕ) (hash : Bytes) (nft_id : ℕ)
    (signature : Bytes) where
  store_duplicate :
      (r : CommitRecord)
      → Quota.count_of nft_id v.quota_tracker < v.quota_tracker.commits_per_batch
      → lookup hash v.pending_commits ≡ some r
      → (w : GossipValidator) × (store_commit lib v batch_id pool_id hash nft_id signature
          ≡ (w, CommitResult.rejected CommitRejectReason.duplicate_hash))
        × (w.pending_commits ≡ v.pending_commits)
        × (Quota.count_of nft_id w.quota_tracker ≡ Quota.count_of nft_id v.quota_tracker + 1)
  unfolding store_commit Quota.check_and_record
  store_duplicate r under present = (
    (store_commit lib v batch_id pool_id hash nft_id signature).0,
    ground arith,
    ground arith,
    ground (
      arith,
      lookup-insert_self nft_id (Quota.count_of nft_id v.quota_tracker + 1) v.quota_tracker.counts,
    ),
  )

module _ (lib : Libraries) (v : GossipValidator) (batch_id pool_id : ℕ) (hash : Bytes) (nft_id : ℕ)
    (signature : Bytes) where
  -- The code charges the quota before it looks for a duplicate: whoever sends an accepted commit
  -- once more uses up another commit of its trader, while the pending commits stay what they were.
  pub replay_charges_quota :
      (v' : GossipValidator)
      → validate_commit lib v batch_id pool_id hash nft_id signature
        ≡ some (v', CommitResult.accepted)
      → Quota.count_of nft_id v.quota_tracker + 1 < v.quota_tracker.commits_per_batch
      → (w : GossipValidator) × (validate_commit lib v' batch_id pool_id hash nft_id signature
          ≡ some (w, CommitResult.rejected CommitRejectReason.duplicate_hash))
        × (w.pending_commits ≡ v'.pending_commits)
        × (Quota.count_of nft_id w.quota_tracker ≡ Quota.count_of nft_id v.quota_tracker + 2)
  replay_charges_quota v' e under =
      let (same_p, same_c, pending, counts, quota) =
        accepted_writes lib v batch_id pool_id hash nft_id signature v' e in
      let (passes, _, _) = accept→conditions lib v batch_id pool_id hash nft_id signature v' e in
      let passes' : Passes lib v' batch_id pool_id hash nft_id signature = ground (arith, passes) in
      let counted : Quota.count_of nft_id v'.quota_tracker
          ≡ Quota.count_of nft_id v.quota_tracker + 1 =
        ap (λ m. get_or 0 (lookup nft_id m)) counts
        ∙ ap (get_or 0) (lookup-insert_self nft_id _ _) in
      let present = ap (lookup hash) pending ∙ lookup-insert_self hash _ v.pending_commits in
      let (w, r, kept, more) =
        store_duplicate lib v' batch_id pool_id hash nft_id signature
          (new_commit lib v batch_id pool_id hash nft_id signature) (omega (arith, counted, quota))
          present in
      (
        w,
        passes→store lib v' batch_id pool_id hash nft_id signature passes' ∙ ap some r,
        kept,
        omega (arith, counted, more),
      )
