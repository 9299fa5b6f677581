-- ===== src/Chain/Schedule.antt =====
-- The schedule that block heights induce: batches follow one another, each runs through its
-- phases in order, and a change of parameters keeps the numbering.
use native.Mathlib.Nat.{
  mul-add-mod_self_left, div-add-mod, mod-lt, div-le_self, div-eq_of_lt, mod-eq_of_lt, mul-add-div,
  le-div_iff_mul-le, div-mul-le_self, le_trans,
}
use deadmkt_node.Prelude.{
  ℕ, suc, ◌+◌, ◌-◌, ◌*◌, ◌/◌, ◌%◌, ◌^◌, ◌<◌, ◌≤◌, ◌≡◌, refl, sym, ap, ◌∙◌, ◌⊎◌, inl, inr, some,
  arith, div_or_panic_pos, mod_or_panic_pos, dec_lt,
}
use deadmkt_node.Bytes.{Bytes}
use deadmkt_node.Chain.{
  Phase, commit, reveal, match, swap, BatchParams, BatchEpoch, compute_batch_id, phase_in_batch,
  compute_phase, compute_new_epoch, compute_pool_assignment,
}

-- The four phases fill the batch, and none is empty.
pub record IsValid (p : BatchParams) : Type 0 where
  pub commit_pos : 0 < p.commit_blocks
  pub reveal_pos : 0 < p.reveal_blocks
  pub match_pos : 0 < p.match_blocks
  pub swap_pos : 0 < p.swap_blocks
  pub fills :
      p.commit_blocks + p.reveal_blocks + p.match_blocks + p.swap_blocks ≡ p.blocks_per_batch
  pub fits : p.blocks_per_batch < 2 ^ 64

-- The two ways in which quotient and remainder can move with the next number.
div_mod_suc :
    (x n : ℕ)
    → 0 < n
    → ((suc (x % n) < n) × ((x + 1) / n ≡ x / n) × ((x + 1) % n ≡ suc (x % n)))
      ⊎ ((suc (x % n) ≡ n) × ((x + 1) / n ≡ x / n + 1) × ((x + 1) % n ≡ 0))
div_mod_suc x n pos = elim (dec_lt (suc (x % n)) n) [
  | yes h ↦ inl (
    h,
    ap (λ (t : ℕ). t / n) e ∙ mul-add-div pos (x / n) (suc (x % n)) ∙ omega (arith, div-eq_of_lt h),
    ap (λ (t : ℕ). t % n) e ∙ mul-add-mod_self_left n (x / n) (suc (x % n)) ∙ mod-eq_of_lt h,
  )
  | no h ↦
      let full : suc (x % n) ≡ n = omega (arith, mod-lt x pos) in
      let e' : x + 1 ≡ n * (x / n + 1) + 0 = omega arith in
      inr (
        full,
        ap (λ (t : ℕ). t / n) e' ∙ mul-add-div pos (x / n + 1) 0 ∙ omega (arith, div-eq_of_lt pos),
        ap (λ (t : ℕ). t % n) e' ∙ mul-add-mod_self_left n (x / n + 1) 0 ∙ mod-eq_of_lt pos,
      )
]
  where
    e : x + 1 ≡ n * (x / n) + suc (x % n)
    e = omega (arith, div-add-mod x n)

-- The order of the phases within a batch.
abbrev pub Follows : Phase → Phase → Type 0
Follows p q =
    ((p ≡ commit) × (q ≡ reveal)) ⊎ ((p ≡ reveal) × (q ≡ match)) ⊎ ((p ≡ match) × (q ≡ swap))

-- One block later: the same phase, the next phase of the batch, or the first of the next batch.
abbrev pub Advances : ℕ → Phase → ℕ → Phase → Type 0
Advances b p c q =
    ((c ≡ b) × (q ≡ p)) ⊎ ((c ≡ b) × Follows p q) ⊎ ((c ≡ b + 1) × (p ≡ swap) × (q ≡ commit))

phase_Advances :
    (p : BatchParams) (k : ℕ)
    → IsValid p
    → suc k < p.blocks_per_batch
    → (phase_in_batch (suc k) p ≡ phase_in_batch k p)
      ⊎ Follows (phase_in_batch k p) (phase_in_batch (suc k) p)
unfolding phase_in_batch
phase_Advances p k v h = ground arith

phase_first : (p : BatchParams) → IsValid p → phase_in_batch 0 p ≡ commit
unfolding phase_in_batch
phase_first p v = ground arith

phase_last :
    (p : BatchParams) (k : ℕ) → IsValid p → suc k ≡ p.blocks_per_batch → phase_in_batch k p ≡ swap
unfolding phase_in_batch
phase_last p k v h = ground arith

module _ (epoch : BatchEpoch) (p : BatchParams) (v : IsValid p) where
  pos : 0 < p.blocks_per_batch
  pos = omega (arith, v.fills, v.commit_pos)

  -- What the two functions return when the numbering does not pass 2 ^ 64.
  batch_and_phase :
      (height : ℕ)
      → epoch.anchor_batch_id + height < 2 ^ 64
      → (compute_batch_id height epoch p
          ≡ some (epoch.anchor_batch_id + (height - epoch.anchor_block) / p.blocks_per_batch))
        × (compute_phase height epoch p
            ≡ some (phase_in_batch ((height - epoch.anchor_block) % p.blocks_per_batch) p))
  unfolding compute_batch_id compute_phase
  batch_and_phase height small = (
    rw (div_or_panic_pos _ _ pos) (
        ap some (
          mod-eq_of_lt
            (omega (arith, div-le_self (height - epoch.anchor_block) p.blocks_per_batch)))),
    rw (mod_or_panic_pos _ _ pos),
  )

  -- From one block to the next the node stays in its phase, enters the next phase of the batch, or
  -- leaves the last phase for the first phase of the next batch. Both heights have a batch and a
  -- phase. The parameters are valid and the numbering stays below 2 ^ 64.
  pub schedule_Advances :
      (height : ℕ)
      → epoch.anchor_block ≤ height
      → epoch.anchor_batch_id + (height + 1) < 2 ^ 64
      → (b : ℕ) × (q : Phase) × (c : ℕ) × (r : Phase) × (compute_batch_id height epoch p ≡ some b)
        × (compute_phase height epoch p ≡ some q)
        × (compute_batch_id (height + 1) epoch p ≡ some c)
        × (compute_phase (height + 1) epoch p ≡ some r)
        × Advances b q c r
  schedule_Advances height after small =
      let here = batch_and_phase height (omega arith) in
      let next = batch_and_phase (height + 1) small in
      (_, _, _, _, here.0, here.1, next.0, next.1, step)
    where
      n : ℕ
      n = p.blocks_per_batch

      x : ℕ
      x = height - epoch.anchor_block

      shift : height + 1 - epoch.anchor_block ≡ x + 1
      shift = omega arith

      step :
          Advances
            (epoch.anchor_batch_id + x / n)
            (phase_in_batch (x % n) p)
            (epoch.anchor_batch_id + (height + 1 - epoch.anchor_block) / n)
            (phase_in_batch ((height + 1 - epoch.anchor_block) % n) p)
      step = rw shift (elim (div_mod_suc x n pos) [
        | inl (h, d, m) ↦
            rw (d, m)
              (elim (phase_Advances p (x % n) v h) [
                | inl same ↦ inl (refl, same)
                | inr f ↦ inr (inl (refl, f))
              ])
        | inr (h, d, m) ↦
            rw (d, m) (inr (inr (omega arith, phase_last p (x % n) v h, phase_first p v)))
      ])

  -- Later blocks never belong to an earlier batch.
  pub batch_id_mono :
      (height later b c : ℕ)
      → height ≤ later
      → epoch.anchor_batch_id + later < 2 ^ 64
      → compute_batch_id height epoch p ≡ some b
      → compute_batch_id later epoch p ≡ some c
      → b ≤ c
  batch_id_mono height later b c le small eb ec =
      let here = (batch_and_phase height (omega arith)).0 in
      let there = (batch_and_phase later small).0 in
      let x = height - epoch.anchor_block in
      let y = later - epoch.anchor_block in
      let n = p.blocks_per_batch in
      let quotients : x / n ≤ y / n =
        (le-div_iff_mul-le pos).1 (le_trans (div-mul-le_self x n) (omega arith)) in
      let bx : some b ≡ some (epoch.anchor_batch_id + x / n) = sym eb ∙ here in
      let cy : some c ≡ some (epoch.anchor_batch_id + y / n) = sym ec ∙ there in ground arith

-- An epoch whose anchor lies some whole batches later numbers the later heights alike.
shifted_epoch :
    (e e' : BatchEpoch) (p : BatchParams) (k height : ℕ)
    → IsValid p
    → e'.anchor_block ≡ e.anchor_block + k * p.blocks_per_batch
    → e'.anchor_batch_id ≡ e.anchor_batch_id + k
    → e'.anchor_block ≤ height
    → e'.anchor_batch_id + height < 2 ^ 64
    → (compute_batch_id height e' p ≡ compute_batch_id height e p)
      × (compute_phase height e' p ≡ compute_phase height e p)
shifted_epoch e e' p k height v block batch after small =
    let n = p.blocks_per_batch in
    let positive : 0 < n = omega (arith, v.fills, v.commit_pos) in
    let y = height - e'.anchor_block in
    let split : height - e.anchor_block ≡ n * k + y = omega arith in
    let (i', q') = batch_and_phase e' p v height small in
    let (i, q) = batch_and_phase e p v height (omega arith) in
    let div : (height - e.anchor_block) / n ≡ k + y / n =
      ap (λ (t : ℕ). t / n) split ∙ mul-add-div positive k y in
    let rem : (height - e.anchor_block) % n ≡ y % n =
      ap (λ (t : ℕ). t % n) split ∙ mul-add-mod_self_left n k y in
    (
      i' ∙ ap some (omega arith) ∙ sym i,
      q' ∙ ap (λ (t : ℕ). some (phase_in_batch t p)) (sym rem) ∙ sym q,
    )

-- At its anchor an epoch starts its first batch.
batch_and_phase_anchor :
    (e : BatchEpoch) (p : BatchParams)
    → IsValid p
    → e.anchor_batch_id + e.anchor_block < 2 ^ 64
    → (compute_batch_id e.anchor_block e p ≡ some e.anchor_batch_id)
      × (compute_phase e.anchor_block e p ≡ some commit)
batch_and_phase_anchor e p v small =
    let n = p.blocks_per_batch in
    let positive : 0 < n = omega (arith, v.fills, v.commit_pos) in
    let start : e.anchor_block - e.anchor_block ≡ 0 = omega arith in
    let (i, q) = batch_and_phase e p v e.anchor_block small in
    let div : (e.anchor_block - e.anchor_block) / n ≡ 0 =
      ap (λ (t : ℕ). t / n) start ∙ div-eq_of_lt positive in
    let rem : (e.anchor_block - e.anchor_block) % n ≡ 0 =
      ap (λ (t : ℕ). t % n) start ∙ mod-eq_of_lt positive in
    (
      i ∙ ap some (omega arith),
      q ∙ ap (λ (t : ℕ). some (phase_in_batch t p)) rem ∙ ap some (phase_first p v),
    )

-- A change of parameters that takes effect at a later batch keeps the numbering: with the new
-- epoch and the old parameters every height from the new anchor on has the batch and the phase
-- that it had, and at the new anchor any valid new parameters start the commit phase of exactly
-- the effective batch. The numbering stays below 2 ^ 64.
pub new_epoch_continues :
    (epoch : BatchEpoch) (old new : BatchParams) (effective height : ℕ)
    → IsValid old
    → IsValid new
    → epoch.anchor_batch_id ≤ effective
    → (compute_new_epoch epoch old effective).anchor_block ≤ height
    → epoch.anchor_block + (effective - epoch.anchor_batch_id) * old.blocks_per_batch < 2 ^ 64
    → effective + height < 2 ^ 64
    → (compute_batch_id height (compute_new_epoch epoch old effective) old
        ≡ compute_batch_id height epoch old)
      × (compute_phase height (compute_new_epoch epoch old effective) old
          ≡ compute_phase height epoch old)
      × (compute_batch_id
            (compute_new_epoch epoch old effective).anchor_block
            (compute_new_epoch epoch old effective)
            new
          ≡ some effective)
      × (compute_phase
            (compute_new_epoch epoch old effective).anchor_block
            (compute_new_epoch epoch old effective)
            new
          ≡ some commit)
unfolding compute_new_epoch
new_epoch_continues epoch old new effective height vo vn ahead after fits small =
    let k = effective - epoch.anchor_batch_id in
    let e' = compute_new_epoch epoch old effective in
    let product : (k * old.blocks_per_batch) % 2 ^ 64 ≡ k * old.blocks_per_batch =
      mod-eq_of_lt (omega arith) in
    let block : e'.anchor_block ≡ epoch.anchor_block + k * old.blocks_per_batch =
      ap (λ (t : ℕ). (epoch.anchor_block + t) % 2 ^ 64) product ∙ mod-eq_of_lt fits in
    let (same_batch, same_phase) =
      shifted_epoch epoch e' old k height vo block (omega arith) after small in
    let (first, start) = batch_and_phase_anchor e' new vn (omega arith) in
    (same_batch, same_phase, first, start)

-- A pool assignment is one of the pools, whatever the hash library returns.
pub pool_assignment_lt :
    (sha256 : Bytes → Bytes) (nft_id batch_id num_pools : ℕ)
    → 0 < num_pools
    → (pool : ℕ) × (compute_pool_assignment sha256 nft_id batch_id num_pools ≡ some pool)
      × (pool < num_pools)
unfolding compute_pool_assignment
pool_assignment_lt sha256 nft_id batch_id num_pools pos =
    (_, mod_or_panic_pos _ _ pos, mod-lt _ pos)
