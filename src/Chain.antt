-- ===== src/Chain.antt =====
-- crates/chain/src/batch.rs, with the two structs of crates/chain/src/types.rs that it reads:
-- which batch and which phase a block height belongs to, and which pool a trader belongs to.
pub mod Schedule
pub mod Pubkeys
pub mod Warming
use deadmkt_node.Prelude.{
  ℕ, zero, suc, ◌+◌, ◌-◌, ◌*◌, ◌/◌, ◌%◌, ◌^◌, Option, none, some, Bool, true, false, not, List, [],
  ◌∷◌, ◌++◌, ltb, if◌then◌else◌, u64_add, u64_mul, ◌>>=◌, div_or_panic, mod_or_panic,
}
use deadmkt_node.Bytes.{Bytes, u64_bytes, of_le_bytes}

pub data Phase : Type 0 where
  commit reveal match swap : Phase

-- `==` on phases
abbrev pub phase_eq : Phase → Phase → Bool
phase_eq commit commit = true
phase_eq reveal reveal = true
phase_eq match match = true
phase_eq swap swap = true
phase_eq _ _ = false

pub record BatchParams : Type 0 where
  pub blocks_per_batch : ℕ
  pub commit_blocks : ℕ
  pub reveal_blocks : ℕ
  pub match_blocks : ℕ
  pub swap_blocks : ℕ
  pub commits_per_batch : ℕ

pub record BatchEpoch : Type 0 where
  pub anchor_block : ℕ
  pub anchor_batch_id : ℕ

-- `none` is the panic of a division by zero.
unfoldable pub compute_batch_id : ℕ → BatchEpoch → BatchParams → Option ℕ
compute_batch_id block_height epoch params = do
  let blocks_since = block_height - epoch.anchor_block
  batches ← div_or_panic blocks_since params.blocks_per_batch
  some (u64_add epoch.anchor_batch_id batches)

-- The `if` chain of `compute_phase`.
unfoldable pub phase_in_batch : ℕ → BatchParams → Phase
phase_in_batch block_in_batch params =
    let commit_end = params.commit_blocks in
    let reveal_end = u64_add commit_end params.reveal_blocks in
    let match_end = u64_add reveal_end params.match_blocks in
    if ltb block_in_batch commit_end
    then commit
    else if ltb block_in_batch reveal_end
    then reveal
    else if ltb block_in_batch match_end
    then match
    else swap

unfoldable pub compute_phase : ℕ → BatchEpoch → BatchParams → Option Phase
compute_phase block_height epoch params = do
  let blocks_since = block_height - epoch.anchor_block
  block_in_batch ← mod_or_panic blocks_since params.blocks_per_batch
  some (phase_in_batch block_in_batch params)

unfoldable pub is_phase_boundary : ℕ → ℕ → BatchEpoch → BatchParams → Option Bool
unfolding compute_phase
is_phase_boundary old_block new_block epoch params = do
  old ← compute_phase old_block epoch params
  new ← compute_phase new_block epoch params
  some (not (phase_eq old new))

unfoldable pub compute_new_epoch : BatchEpoch → BatchParams → ℕ → BatchEpoch
compute_new_epoch old_epoch old_params effective_at_batch =
    let batches_ahead = effective_at_batch - old_epoch.anchor_batch_id in
    record {
      anchor_block =
          u64_add old_epoch.anchor_block (u64_mul batches_ahead old_params.blocks_per_batch);
      anchor_batch_id = effective_at_batch;
    }

-- `hash[0..8]`
abbrev pub first_eight : Bytes → Bytes
first_eight (a ∷ b ∷ c ∷ d ∷ e ∷ f ∷ g ∷ h ∷ rest) = a ∷ b ∷ c ∷ d ∷ e ∷ f ∷ g ∷ h ∷ []
first_eight short = short

-- The first argument is the hash library's SHA-256.
unfoldable pub compute_pool_assignment : (Bytes → Bytes) → ℕ → ℕ → ℕ → Option ℕ
compute_pool_assignment sha256 nft_id batch_id num_pools =
    let hash = sha256 (u64_bytes nft_id ++ u64_bytes batch_id) in
    mod_or_panic (of_le_bytes (first_eight hash)) num_pools

unfoldable pub should_start_next_batch : Bool → Bool
should_start_next_batch is_paused = not is_paused
