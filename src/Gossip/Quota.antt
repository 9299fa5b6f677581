-- ===== src/Gossip/Quota.antt =====
-- crates/gossip_validation/src/lib.rs, `CommitQuotaTracker`: how many commits a trader may make in
-- a batch, and the evidence of those who make more.
use deadmkt_node.Prelude.{
  ℕ, ◌+◌, Bool, true, false, List, [], ◌∷◌, ◌++◌, ltb, leb, nat_eq, if◌then◌else◌, length,
}
use deadmkt_node.Maps.{Map, values, lookup, insert, get_or}
use deadmkt_node.Bytes.{Bytes}

pub record CommitViolationEvidence : Type 0 where
  pub accused_nft_id : ℕ
  pub batch_id : ℕ
  pub pool_id : ℕ
  pub commit_hashes : List Bytes
  pub commit_signatures : List Bytes

pub record CommitQuotaTracker : Type 0 where
  pub counts : Map ℕ ℕ
  pub evidence : Map ℕ CommitViolationEvidence
  pub commits_per_batch : ℕ

abbrev pub new : ℕ → CommitQuotaTracker
new commits_per_batch = record { counts = []; evidence = []; commits_per_batch = commits_per_batch }

-- `or_insert_with`
abbrev pub no_evidence : ℕ → ℕ → ℕ → CommitViolationEvidence
no_evidence nft_id batch_id pool_id = record {
  accused_nft_id = nft_id;
  batch_id = batch_id;
  pool_id = pool_id;
  commit_hashes = [];
  commit_signatures = [];
}

abbrev pub with_commit : CommitViolationEvidence → Bytes → Bytes → CommitViolationEvidence
with_commit e hash signature = record e {
  commit_hashes = e.commit_hashes ++ hash ∷ [];
  commit_signatures = e.commit_signatures ++ signature ∷ [];
}

abbrev pub count_of : ℕ → CommitQuotaTracker → ℕ
count_of nft_id t = get_or 0 (lookup nft_id t.counts)

-- The count cannot wrap, since it is below the quota where it grows.
unfoldable pub check_and_record :
    CommitQuotaTracker → ℕ → ℕ → ℕ → Bytes → Bytes → CommitQuotaTracker × Bool
check_and_record t nft_id batch_id pool_id hash signature =
    let count = count_of nft_id t in
    let seen = get_or (no_evidence nft_id batch_id pool_id) (lookup nft_id t.evidence) in
    let evidence = insert nft_id (with_commit seen hash signature) t.evidence in
    if leb t.commits_per_batch count
    then (record t { counts = insert nft_id count t.counts; evidence = evidence }, false)
    else (record t { counts = insert nft_id (count + 1) t.counts; evidence = evidence }, true)

-- The `filter` of `get_reportable_evidence`.
abbrev pub reportable : ℕ → List CommitViolationEvidence → List CommitViolationEvidence
reportable quota [] = []
reportable quota (e ∷ es) =
    let rest = reportable quota es in if ltb quota (length e.commit_hashes) then e ∷ rest else rest

unfoldable pub get_reportable_evidence : CommitQuotaTracker → List CommitViolationEvidence
get_reportable_evidence t = reportable t.commits_per_batch (values t.evidence)

abbrev pub reset : CommitQuotaTracker → CommitQuotaTracker
reset t = record t { counts = []; evidence = [] }
