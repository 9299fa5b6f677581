-- ===== src/Tests/Messages.antt =====
-- The gossip validator at concrete inputs.
use deadmkt_node.Prelude.{
  ◌<◌, ◌≡◌, ◌↔◌, refl, true, false, some, none, [], ◌∷◌, arith, bytes_eq, nat_eq,
}
use deadmkt_node.Bytes.{Bytes, le_bytes, of_le_bytes}
use deadmkt_node.Chain.{compute_pool_assignment}
use deadmkt_node.Maps.{lookup, contains, insert, add}
use deadmkt_node.Crypto.{verify, encode_order}
use deadmkt_node.Gossip.Defs.{
  Providers, ValidationContext, sender_eq, GossipValidator, CommitResult, RevealResult,
  CommitRecord,
}
use deadmkt_node.Gossip.Quota
use deadmkt_node.Gossip.Validator
use deadmkt_node.Gossip.Validator.{
  validate_commit, check_reveal, check_order_signature, mark_revealed, validate_reveal,
  validate_batch_complete,
}
use deadmkt_node.Gossip.Commits.{Passes, commit_accepted_iff}
use deadmkt_node.Gossip.Reveals.{Opens, reveal_accepted_iff}
use deadmkt_node.Gossip.Invariant.{IsValid, Step, Reach, Reach-IsValid}
use deadmkt_node.Tests.Data.{stand_in, zeros_64, order}

abbrev everyone : Providers
everyone = record {
  get_pubkey = λ n. some (n ∷ []);
  is_registered = λ n. true;
  is_blocked = λ n. false;
}

abbrev one_pool : ValidationContext
one_pool = record { current_batch_id = 3; my_pool_id = 0; num_pools = 1; commits_per_batch = 5 }

abbrev validator : GossipValidator
validator = Validator.new everyone one_pool

-- The hash that the stand-in gives to an order of trader 1, and its commit.
abbrev opened : Bytes
opened = 1 ∷ 1 ∷ 20 ∷ 5 ∷ 3 ∷ 7 ∷ []

abbrev pending : CommitRecord
pending = record {
  batch_id = 3;
  pool_id = 0;
  hash = opened;
  nft_id = 1;
  signature = zeros_64;
  revealed = false;
}

abbrev committed : GossipValidator
committed = record validator { pending_commits = (opened, pending) ∷ [] }

abbrev AcceptsCommit : Type 0
AcceptsCommit =
    (v' : GossipValidator) × (validate_commit stand_in validator 3 0 opened 1 zeros_64
      ≡ some (v', CommitResult.accepted))

commit_accepted_iff_example : AcceptsCommit ↔ (
    Passes stand_in validator 3 0 opened 1 zeros_64
    × (Quota.count_of 1 validator.quota_tracker < 5)
    × (lookup opened validator.pending_commits ≡ none))
commit_accepted_iff_example = commit_accepted_iff stand_in validator 3 0 opened 1 zeros_64

-- The first commit is accepted.
accepted_first : AcceptsCommit
unfolding lookup verify compute_pool_assignment of_le_bytes le_bytes
accepted_first =
    (commit_accepted_iff stand_in validator 3 0 opened 1 zeros_64).1
      ((refl, refl, refl, refl, refl, (1 ∷ [], refl, refl)), omega arith, refl)

reveal_accepted_iff_example :
    ((validate_reveal stand_in committed 3 0 (order 1 1 20 5) zeros_64).1 ≡ RevealResult.accepted)
    ↔ ((commit : CommitRecord) × Opens stand_in committed 3 0 (order 1 1 20 5) zeros_64 commit)
reveal_accepted_iff_example = reveal_accepted_iff stand_in committed 3 0 (order 1 1 20 5) zeros_64

accepted_reveal : validate_reveal stand_in committed 3 0 (order 1 1 20 5) zeros_64 ≡ (
  record committed {
    pending_commits = (opened, record pending { revealed = true }) ∷ [];
    revealed_hashes = opened ∷ [];
  },
  RevealResult.accepted,
)
unfolding validate_reveal check_reveal check_order_signature mark_revealed lookup contains insert
    add verify encode_order
accepted_reveal = refl

reached : Reach stand_in validator accepted_first.0
reached = Reach.next Reach.here (Step.commit 3 0 opened 1 zeros_64 accepted_first.1)

Reach-IsValid_example : IsValid stand_in accepted_first.0
Reach-IsValid_example = Reach-IsValid stand_in {p = everyone} {c = one_pool} reached
