-- ===== src/Inbound/Events.antt =====
-- src/run.rs: what happens at the inbound filter, as a sequence of its operations.
use deadmkt_node.Prelude.{
  ℕ, ◌+◌, ◌≡◌, refl, ◌∙◌, Bool, true, false, ◌&&◌, not, Option, none, some, List, [], ◌∷◌, leb,
  bytes_eq, nat_eq, ◌==◌, if◌then◌else◌, if_rule, length,
}
use deadmkt_node.Maps.{lookup, contains}
use deadmkt_node.Bytes.{Bytes}
use deadmkt_node.Crypto.{Libraries, verify}
use deadmkt_node.Inbound.{
  Inbound, pair_beq, is_batch_in_range, count_of, check_rate_limit, accept_limited, accept_commit,
  give_back, check_key, check_limited, accept_reveal, max_msgs_per_nft_per_batch, update_batch,
  expire_old_batches, cache_pubkey, take_unknown_nfts, reset_stats,
}

-- A message and the filter's verdict on it.
pub data Message : Type 0 where
  commit : (nft_id batch_id : ℕ) (commit_hash : Bytes) → Message
  reveal : (nft_id batch_id : ℕ) (order_bytes signature : Bytes) → Message

abbrev pub pair_of : Message → ℕ × ℕ
pair_of (commit n b h) = (n, b)
pair_of (reveal n b o s) = (n, b)

abbrev pub accept : Libraries → Message → Inbound → Inbound × Bool
accept lib (commit n b h) v = accept_commit n b h v
accept lib (reveal n b o s) v = accept_reveal lib n b o s v

-- One more for the pair that an accepted message belongs to.
abbrev pub one_for : Bool → ℕ × ℕ → ℕ × ℕ → ℕ
one_for accepted j k = if accepted && pair_beq j k then 1 else 0

-- The operations of the filter that change it.
pub data Event : Type 0 where
  arrives : Message → Event
  learns : (nft_id : ℕ) (key : Bytes) → Event
  advances : (batch_id : ℕ) → Event
  expires takes_unknown resets_stats : Event

abbrev pub handle : Libraries → Event → Inbound → Inbound
handle lib (arrives msg) v = (accept lib msg v).0
handle lib (learns nft_id key) v = cache_pubkey nft_id key v
handle lib (advances batch_id) v = update_batch batch_id v
handle lib expires v = expire_old_batches v
handle lib takes_unknown v = (take_unknown_nfts v).0
handle lib resets_stats v = reset_stats v

-- Whether the event is an accepted message of the trader in the batch.
abbrev pub accepted_by : Libraries → Event → ℕ → ℕ → Inbound → ℕ
accepted_by lib (arrives msg) n b v = one_for (accept lib msg v).1 (pair_of msg) (n, b)
accepted_by lib _ n b v = 0

-- Events in the order in which they happen, and how many messages of a trader in a batch are
-- accepted.
unfoldable pub receive : Libraries → List Event → Inbound → Inbound
receive lib [] v = v
receive lib (e ∷ es) v = receive lib es (handle lib e v)

unfoldable pub accepted_of : Libraries → ℕ → ℕ → List Event → Inbound → ℕ
accepted_of lib n b [] v = 0
accepted_of lib n b (e ∷ es) v = accepted_by lib e n b v + accepted_of lib n b es (handle lib e v)

limit-batch :
    (n b : ℕ) (v : Inbound) → (check_rate_limit n b v).0.current_batch_id ≡ v.current_batch_id
unfolding check_rate_limit
limit-batch n b v =
    if_rule (λ (r : Inbound × Bool). r.0.current_batch_id ≡ v.current_batch_id)
      (leb max_msgs_per_nft_per_batch (count_of n b v)) _ _ (λ full. refl) (λ room. refl)

limited-batch : (r : Inbound × Bool) → (accept_limited r).0.current_batch_id ≡ r.0.current_batch_id
limited-batch (v, true) = refl
limited-batch (v, false) = refl

module _ (lib : Libraries) where
  key-batch :
      (n b : ℕ) (o s h : Bytes) (v : Inbound) (key : Option Bytes)
      → (check_key lib n b o s h v key).0.current_batch_id ≡ v.current_batch_id
  unfolding check_key give_back
  key-batch n b o s h v none = refl
  key-batch n b o s h v (some key) =
      if_rule (λ (r : Inbound × Bool). r.0.current_batch_id ≡ v.current_batch_id)
        (not (verify lib key o s)) _ _ (λ bad. refl) (λ good. refl)

  check-batch :
      (n b : ℕ) (o s h : Bytes) (r : Inbound × Bool)
      → (check_limited lib n b o s h r).0.current_batch_id ≡ r.0.current_batch_id
  check-batch n b o s h (v, false) = refl
  check-batch n b o s h (v, true) = key-batch n b o s h v (lookup n v.nft_pubkeys)

  -- No message changes the current batch.
  pub accept-batch :
      (msg : Message) (v : Inbound) → (accept lib msg v).0.current_batch_id ≡ v.current_batch_id
  unfolding accept_commit accept_reveal
  accept-batch (commit n b h) v =
      let P : Inbound × Bool → Type 0 = λ r. r.0.current_batch_id ≡ v.current_batch_id in
      if_rule P (not (is_batch_in_range b v)) _ _ (λ out. refl)
        λ within.
          if_rule P (length h == 32) _ _
            (λ whole.
              if_rule P (contains h v.seen_commit_hashes) _ _ (λ seen. refl)
                λ new. limited-batch (check_rate_limit n b _) ∙ limit-batch n b _)
            (λ other. limited-batch (check_rate_limit n b v) ∙ limit-batch n b v)
  accept-batch (reveal n b o s) v =
      let P : Inbound × Bool → Type 0 = λ r. r.0.current_batch_id ≡ v.current_batch_id in
      if_rule P (not (is_batch_in_range b v)) _ _ (λ out. refl)
        λ within.
          if_rule P (contains (lib.sha256 o) v.seen_reveal_hashes) _ _ (λ seen. refl)
            λ new. check-batch n b o s (lib.sha256 o) (check_rate_limit n b _) ∙ limit-batch n b _
