-- ===== src/Gossip/Defs.antt =====
-- crates/gossip_validation/src/lib.rs, the types.
use deadmkt_node.Prelude.{
  ℕ, Bool, true, Option, List, nat_eq, bytes_eq, Eq, ◌&&◌, ◌≡◌, ◌↔◌, arith, bytes_beq,
  bytes_beq_iff, nat_beq, nat_beq_iff,
}
use deadmkt_node.Maps.{Map}
use deadmkt_node.Bytes.{Bytes}
use deadmkt_node.Gossip.Quota.{CommitQuotaTracker}

-- The three provider traits.
pub record Providers : Type 0 where
  pub get_pubkey : ℕ → Option Bytes
  pub is_registered : ℕ → Bool
  pub is_blocked : ℕ → Bool

pub record ValidationContext : Type 0 where
  pub current_batch_id : ℕ
  pub my_pool_id : ℕ
  pub num_pools : ℕ
  pub commits_per_batch : ℕ

pub data CommitRejectReason : Type 0 where
  wrong_batch wrong_pool bad_pool_assignment blocked_nft : CommitRejectReason
  unregistered_nft invalid_signature duplicate_hash over_quota : CommitRejectReason

pub data CommitResult : Type 0 where
  accepted : CommitResult
  rejected : CommitRejectReason → CommitResult

pub data RevealRejectReason : Type 0 where
  wrong_batch no_matching_commit nft_id_mismatch invalid_signature : RevealRejectReason

pub data RevealResult : Type 0 where
  accepted : RevealResult
  rejected : RevealRejectReason → RevealResult
  duplicate_ignored : RevealResult

pub data BatchCompleteRejectReason : Type 0 where
  wrong_batch bad_pool_assignment invalid_signature duplicate_sender : BatchCompleteRejectReason

pub data BatchCompleteResult : Type 0 where
  accepted : BatchCompleteResult
  rejected : BatchCompleteRejectReason → BatchCompleteResult

pub record CommitRecord : Type 0 where
  pub batch_id : ℕ
  pub pool_id : ℕ
  pub hash : Bytes
  pub nft_id : ℕ
  pub signature : Bytes
  pub revealed : Bool

pub record GossipValidator : Type 0 where
  pub providers : Providers
  pub context : ValidationContext
  pub pending_commits : Map Bytes CommitRecord
  pub quota_tracker : CommitQuotaTracker
  pub revealed_hashes : List Bytes
  pub batch_complete_seen : List (ℕ × Bytes)

-- The keys of `batch_complete_seen`.
abbrev pub sender_beq : ℕ × Bytes → ℕ × Bytes → Bool
sender_beq (a, s) (b, t) = nat_beq a b && bytes_beq s t

pub sender_beq_iff : (a b : ℕ × Bytes) → (sender_beq a b ≡ true) ↔ (a ≡ b)
sender_beq_iff (a, s) (b, t) = ground (arith, nat_beq_iff a b, bytes_beq_iff s t)

instance abbrev pub sender_eq : Eq (ℕ × Bytes)
sender_eq = record { beq = sender_beq; beq_iff = sender_beq_iff }
