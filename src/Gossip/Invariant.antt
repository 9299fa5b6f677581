-- ===== src/Gossip/Invariant.antt =====
-- What holds of the validator after any sequence of messages: every pending commit is genuine, and
-- no trader has more pending commits than the quota allows.
use deadmkt_node.Prelude.{
  ℕ, ◌+◌, ◌≤◌, ◌<◌, ◌≡◌, ◌⊎◌, inl, inr, refl, sym, ap, ◌∙◌, subst, Bool, true, false, Option, none,
  some, List, nat_eq, bytes_eq, ◌==◌, if◌then◌else◌, arith, All, sum_by, nat_beq_iff, if_rule, not,
}
use deadmkt_node.Maps.{
  Map, contains_key, is_some, lookup, insert, lookup-insert, insert-All, lookup-All,
  sum_by-insert_new, sum_by-insert_present,
}
use deadmkt_node.Bytes.{Bytes}
use deadmkt_node.Crypto.{Libraries, Order, verify, commit_message, encode_order}
use deadmkt_node.Chain.{compute_pool_assignment}
use deadmkt_node.Gossip.Quota
use deadmkt_node.Gossip.Quota.{CommitQuotaTracker}
use deadmkt_node.Gossip.Defs.{
  Providers, ValidationContext, CommitResult, CommitRecord, GossipValidator, RevealResult,
  BatchCompleteResult,
}
use deadmkt_node.Gossip.Validator
use deadmkt_node.Gossip.Validator.{
  store_commit, validate_commit, validate_reveal, validate_batch_complete, reset_for_new_batch,
}
use deadmkt_node.Gossip.Commits.{validate_commit_cases, Passes}
use deadmkt_node.Gossip.Reveals.{reveal_writes, reveal_refused_keeps, complete_writes}

-- A stored commit under its own hash, for this batch and pool, from an assigned, registered and
-- unblocked trader whose signature verifies.
abbrev pub IsGenuine : Libraries → Providers → ValidationContext → Bytes × CommitRecord → Type 0
IsGenuine lib providers context (hash, c) =
    (c.hash ≡ hash)
    × (c.batch_id ≡ context.current_batch_id)
    × (c.pool_id ≡ context.my_pool_id)
    × (compute_pool_assignment lib.sha256 c.nft_id c.batch_id context.num_pools ≡ some c.pool_id)
    × (providers.is_blocked c.nft_id ≡ false)
    × (providers.is_registered c.nft_id ≡ true)
    × ((pubkey : Bytes) × (providers.get_pubkey c.nft_id ≡ some pubkey)
        × (verify lib pubkey (commit_message c.batch_id c.pool_id c.hash) c.signature ≡ true))

-- The number of pending commits of a trader.
abbrev pub pending_of : ℕ → Map Bytes CommitRecord → ℕ
pending_of nft_id = sum_by (λ e. if e.1.nft_id == nft_id then 1 else 0)

pub record IsValid (lib : Libraries) (v : GossipValidator) : Type 0 where
  pub genuine : All (IsGenuine lib v.providers v.context) v.pending_commits
  pub counted :
      (nft_id : ℕ) → pending_of nft_id v.pending_commits ≤ Quota.count_of nft_id v.quota_tracker
  pub under_quota :
      (nft_id : ℕ) → Quota.count_of nft_id v.quota_tracker ≤ v.quota_tracker.commits_per_batch

module _ (lib : Libraries) where
  new-IsValid : (p : Providers) (c : ValidationContext) → IsValid lib (Validator.new p c)
  unfolding lookup
  new-IsValid p c = record {
    genuine = tt;
    counted = λ n. omega arith;
    under_quota = λ n. omega arith;
  }

  -- The quota, where a commit is charged.
  charged_count :
      (t : CommitQuotaTracker) (nft_id batch_id pool_id : ℕ) (hash signature : Bytes) (n : ℕ)
      → ((Quota.check_and_record t nft_id batch_id pool_id hash signature).1 ≡ false)
          × (Quota.count_of n (Quota.check_and_record t nft_id batch_id pool_id hash signature).0
              ≡ Quota.count_of n t)
        ⊎ ((Quota.check_and_record t nft_id batch_id pool_id hash signature).1 ≡ true)
          × (Quota.count_of nft_id t < t.commits_per_batch)
          × (Quota.count_of n (Quota.check_and_record t nft_id batch_id pool_id hash signature).0
              ≡ Quota.count_of n t + (if nft_id == n then 1 else 0))
  unfolding Quota.check_and_record
  charged_count t nft_id batch_id pool_id hash signature n = ground (
    arith,
    nat_beq_iff nft_id n,
    lookup-insert nft_id n (Quota.count_of nft_id t) t.counts,
    lookup-insert nft_id n (Quota.count_of nft_id t + 1) t.counts,
  )

  same_quota :
      (t : CommitQuotaTracker) (nft_id batch_id pool_id : ℕ) (hash signature : Bytes)
      → (Quota.check_and_record t nft_id batch_id pool_id hash signature).0.commits_per_batch
        ≡ t.commits_per_batch
  unfolding Quota.check_and_record
  same_quota t nft_id batch_id pool_id hash signature = ground arith

  module _ (v : GossipValidator) (batch_id pool_id : ℕ) (hash : Bytes) (nft_id : ℕ)
      (signature : Bytes) (valid : IsValid lib v) where
    abbrev tracker : CommitQuotaTracker
    tracker = (Quota.check_and_record v.quota_tracker nft_id batch_id pool_id hash signature).0

    abbrev under : Bool
    under = (Quota.check_and_record v.quota_tracker nft_id batch_id pool_id hash signature).1

    still_under : (n : ℕ) → Quota.count_of n tracker ≤ tracker.commits_per_batch
    still_under n = ground (
      arith,
      charged_count v.quota_tracker nft_id batch_id pool_id hash signature n,
      same_quota v.quota_tracker nft_id batch_id pool_id hash signature,
      valid.under_quota n,
      nat_beq_iff nft_id n,
    )

    charged-IsValid : IsValid lib (record v { quota_tracker = tracker })
    charged-IsValid = record {
      genuine = valid.genuine;
      counted = λ n. ground (
        arith,
        charged_count v.quota_tracker nft_id batch_id pool_id hash signature n,
        valid.counted n,
      );
      under_quota = still_under;
    }

    stored-IsValid :
        (c : CommitRecord)
        → c.nft_id ≡ nft_id
        → IsGenuine lib v.providers v.context (hash, c)
        → under ≡ true
        → lookup hash v.pending_commits ≡ none
        → IsValid lib (record v {
          quota_tracker = tracker;
          pending_commits = insert hash c v.pending_commits;
        })
    stored-IsValid c same g u new = record {
      genuine =
          insert-All (IsGenuine lib v.providers v.context) hash c v.pending_commits g valid.genuine;
      counted = λ n. ground (
        arith,
        charged_count v.quota_tracker nft_id batch_id pool_id hash signature n,
        valid.counted n,
        sum_by-insert_new (λ e. if e.1.nft_id == n then 1 else 0) hash c v.pending_commits new,
      );
      under_quota = still_under;
    }

    store_commit-IsValid :
        Passes lib v batch_id pool_id hash nft_id signature
        → IsValid lib (store_commit lib v batch_id pool_id hash nft_id signature).0
    unfolding store_commit
    store_commit-IsValid (b, p, assigned, free, registered, key) =
        if_rule (λ (x : GossipValidator × CommitResult). IsValid lib x.0) (not under) _ _
          (λ _. charged-IsValid)
          (λ u.
            if_rule (λ (x : GossipValidator × CommitResult). IsValid lib x.0)
              (contains_key hash v.pending_commits) _ _ (λ _. charged-IsValid)
              (λ absent.
                stored-IsValid _ refl (refl, b, p, fit, free, registered, key) (ground arith)
                  (missing (lookup hash v.pending_commits) absent)))
      where
        fit : compute_pool_assignment lib.sha256 nft_id batch_id v.context.num_pools ≡ some pool_id
        fit = assigned

        missing : (o : Option CommitRecord) → is_some o ≡ false → o ≡ none
        missing none h = refl
        missing (some c) h = ground arith

  -- A revealed commit is as genuine as it was, and counts for the same trader.
  mark-IsValid :
      (v : GossipValidator) (hash : Bytes) (c : CommitRecord) (hashes : List Bytes)
      → IsValid lib v
      → lookup hash v.pending_commits ≡ some c
      → IsValid lib (record v {
        revealed_hashes = hashes;
        pending_commits = insert hash (record c { revealed = true }) v.pending_commits;
      })
  mark-IsValid v hash c hashes valid found = record {
    genuine =
        insert-All (IsGenuine lib v.providers v.context) hash _ v.pending_commits
          (lookup-All (IsGenuine lib v.providers v.context) hash c v.pending_commits valid.genuine
            found)
          valid.genuine;
    counted = λ n. omega (
      arith,
      valid.counted n,
      sum_by-insert_present (λ e. if e.1.nft_id == n then 1 else 0) hash
          (record c { revealed = true }) c v.pending_commits found,
    );
    under_quota = valid.under_quota;
  }

-- The steps that a validator can make.
pub data Step (lib : Libraries) : GossipValidator → GossipValidator → Type 0 where
  commit :
      {v v' : GossipValidator} {r : CommitResult} (batch_id pool_id : ℕ) (hash : Bytes) (nft_id : ℕ)
      (signature : Bytes)
      → validate_commit lib v batch_id pool_id hash nft_id signature ≡ some (v', r)
      → Step lib v v'
  reveal :
      {v v' : GossipValidator} {r : RevealResult} (batch_id pool_id : ℕ) (order : Order)
      (signature : Bytes)
      → validate_reveal lib v batch_id pool_id order signature ≡ (v', r)
      → Step lib v v'
  complete :
      {v v' : GossipValidator} {r : BatchCompleteResult} (batch_id pool_id : ℕ) (symbol : Bytes)
      (price volume count sender : ℕ) (signature : Bytes)
      → validate_batch_complete lib v batch_id pool_id symbol price volume count sender signature
        ≡ some (v', r)
      → Step lib v v'
  reset :
      {v v' : GossipValidator} (context : ValidationContext)
      → v' ≡ reset_for_new_batch v context
      → Step lib v v'

pub data Reach (lib : Libraries) (v : GossipValidator) : GossipValidator → Type 0 where
  here : Reach lib v v
  next : {u w : GossipValidator} → Reach lib v u → Step lib u w → Reach lib v w

module _ (lib : Libraries) where
  reset-IsValid :
      (v : GossipValidator) (c : ValidationContext) → IsValid lib (reset_for_new_batch v c)
  unfolding reset_for_new_batch lookup
  reset-IsValid v c = record {
    genuine = tt;
    counted = λ n. omega arith;
    under_quota = λ n. omega arith;
  }

  Step-IsValid : {v v' : GossipValidator} → Step lib v v' → IsValid lib v → IsValid lib v'
  Step-IsValid {v} {v'} (Step.commit {r = r} b p h n s e) valid =
      elim (validate_commit_cases lib v b p h n s v' r e) [
        | inl (same, _) ↦ subst (IsValid lib) (sym same) valid
        | inr (passes, stored) ↦
            subst (λ (x : GossipValidator × CommitResult). IsValid lib x.0) (sym stored)
              (store_commit-IsValid lib v b p h n s valid passes)
      ]
  Step-IsValid {v} {v'} (Step.reveal {r = r} b p o s e) valid = revealed r e
    where
      revealed : (r : RevealResult) → validate_reveal lib v b p o s ≡ (v', r) → IsValid lib v'
      revealed RevealResult.accepted e =
          let (c, found, written, _) = reveal_writes lib v b p o s v' e in
          subst (IsValid lib) (sym written)
            (mark-IsValid lib v (lib.sha256 (encode_order lib o)) c _ valid found)
      revealed (RevealResult.rejected reason) e =
          subst (IsValid lib) (sym (reveal_refused_keeps lib v b p o s v' _ e (λ q. ground arith)))
            valid
      revealed RevealResult.duplicate_ignored e =
          subst (IsValid lib) (sym (reveal_refused_keeps lib v b p o s v' _ e (λ q. ground arith)))
            valid
  Step-IsValid {v} {v'} (Step.complete {r = r} b p y a q c n s e) valid =
      subst (IsValid lib) (sym (complete_writes lib v b p y a q c n s v' r e)) (record {
        genuine = valid.genuine;
        counted = valid.counted;
        under_quota = valid.under_quota;
      })
  Step-IsValid {v} (Step.reset c e) valid = subst (IsValid lib) (sym e) (reset-IsValid v c)

  -- After any sequence of messages and resets, whoever sends them, every pending commit stands
  -- under its own hash, is of the current batch and pool, and comes from a registered and unblocked
  -- trader of that pool whose key verifies it; and no trader has more pending commits than the quota of the
  -- tracker.
  pub Reach-IsValid :
      {p : Providers} {c : ValidationContext} {v : GossipValidator}
      → Reach lib (Validator.new p c) v
      → IsValid lib v
  Reach-IsValid {p} {c} Reach.here = new-IsValid lib p c
  Reach-IsValid (Reach.next r s) = Step-IsValid s (Reach-IsValid r)

  store_commit_quota :
      (v : GossipValidator) (batch_id pool_id : ℕ) (hash : Bytes) (nft_id : ℕ) (signature : Bytes)
      → (store_commit lib v batch_id pool_id hash nft_id
          signature).0.quota_tracker.commits_per_batch
        ≡ v.quota_tracker.commits_per_batch
  unfolding store_commit Quota.check_and_record
  store_commit_quota v batch_id pool_id hash nft_id signature = ground arith

  Step_quota :
      {v v' : GossipValidator}
      → Step lib v v'
      → v'.quota_tracker.commits_per_batch ≡ v.quota_tracker.commits_per_batch
  unfolding reset_for_new_batch
  Step_quota {v} {v'} (Step.commit {r = r} b p h n s e) =
      elim (validate_commit_cases lib v b p h n s v' r e) [
        | inl (same, _) ↦ ap quota same
        | inr (passes, stored) ↦
            ap (λ (x : GossipValidator × CommitResult). quota x.0) stored
            ∙ store_commit_quota v b p h n s
      ]
    where
      quota : GossipValidator → ℕ
      quota w = w.quota_tracker.commits_per_batch
  Step_quota {v} {v'} (Step.reveal {r = r} b p o s e) = revealed r e
    where
      revealed :
          (r : RevealResult)
          → validate_reveal lib v b p o s ≡ (v', r)
          → v'.quota_tracker.commits_per_batch ≡ v.quota_tracker.commits_per_batch
      revealed RevealResult.accepted e =
          let (c, found, written, _) = reveal_writes lib v b p o s v' e in
          ap (λ (w : GossipValidator). w.quota_tracker.commits_per_batch) written
      revealed (RevealResult.rejected reason) e =
          ap (λ (w : GossipValidator). w.quota_tracker.commits_per_batch)
            (reveal_refused_keeps lib v b p o s v' _ e (λ q. ground arith))
      revealed RevealResult.duplicate_ignored e =
          ap (λ (w : GossipValidator). w.quota_tracker.commits_per_batch)
            (reveal_refused_keeps lib v b p o s v' _ e (λ q. ground arith))
  Step_quota {v} {v'} (Step.complete {r = r} b p y a q c n s e) =
      ap (λ (w : GossipValidator). w.quota_tracker.commits_per_batch)
        (complete_writes lib v b p y a q c n s v' r e)
  Step_quota (Step.reset c e) = ap (λ (w : GossipValidator). w.quota_tracker.commits_per_batch) e

  -- The quota stays that of the context which the validator was made with, also where a reset
  -- brings in a context of another quota.
  pub quota_never_updated :
      {p : Providers} {c : ValidationContext} {v : GossipValidator}
      → Reach lib (Validator.new p c) v
      → v.quota_tracker.commits_per_batch ≡ c.commits_per_batch
  quota_never_updated Reach.here = refl
  quota_never_updated (Reach.next r s) = Step_quota s ∙ quota_never_updated r
