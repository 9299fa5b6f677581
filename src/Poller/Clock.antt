-- ===== src/Poller/Clock.antt =====
-- The poller is a clock: what it remembers is the schedule at the newest block.
use deadmkt_node.Prelude.{
  ℕ, ◌-◌, ◌/◌, ◌%◌, u64_add, ◌<◌, ◌≡◌, refl, ap, ◌∙◌, Option, none, some, true, List, [], ◌∷◌, leb,
  nat_eq, nat_beq_iff, ◌==◌, Bool-cases, inl, inr, arith, ◌>>=◌, div_or_panic_pos, mod_or_panic_pos,
}
use deadmkt_node.Chain.{
  Phase, phase_eq, BatchParams, BatchEpoch, phase_in_batch, compute_batch_id, compute_phase,
}
use deadmkt_node.Poller.{PollerEvent, PollerState, start, report, poll, run_block_poller}

phase_eq_sound : (p q : Phase) → phase_eq p q ≡ true → p ≡ q
phase_eq_sound Phase.commit Phase.commit h = refl
phase_eq_sound Phase.reveal Phase.reveal h = refl
phase_eq_sound Phase.match Phase.match h = refl
phase_eq_sound Phase.swap Phase.swap h = refl
phase_eq_sound Phase.commit Phase.reveal h = absurd (ground arith)
phase_eq_sound Phase.commit Phase.match h = absurd (ground arith)
phase_eq_sound Phase.commit Phase.swap h = absurd (ground arith)
phase_eq_sound Phase.reveal Phase.commit h = absurd (ground arith)
phase_eq_sound Phase.reveal Phase.match h = absurd (ground arith)
phase_eq_sound Phase.reveal Phase.swap h = absurd (ground arith)
phase_eq_sound Phase.match Phase.commit h = absurd (ground arith)
phase_eq_sound Phase.match Phase.reveal h = absurd (ground arith)
phase_eq_sound Phase.match Phase.swap h = absurd (ground arith)
phase_eq_sound Phase.swap Phase.commit h = absurd (ground arith)
phase_eq_sound Phase.swap Phase.reveal h = absurd (ground arith)
phase_eq_sound Phase.swap Phase.match h = absurd (ground arith)

module _ (epoch : BatchEpoch) (params : BatchParams) (pos : 0 < params.blocks_per_batch) where
  abbrev pub IsSynced : PollerState → Type 0
  IsSynced s =
      (compute_batch_id s.last_block epoch params ≡ some s.last_batch_id)
      × (compute_phase s.last_block epoch params ≡ some s.last_phase)

  scheduled :
      (height : ℕ)
      → (b : ℕ) × (q : Phase) × (compute_batch_id height epoch params ≡ some b)
        × (compute_phase height epoch params ≡ some q)
  unfolding compute_batch_id compute_phase
  scheduled height =
      let since = height - epoch.anchor_block in
      (
        u64_add epoch.anchor_batch_id (since / params.blocks_per_batch),
        phase_in_batch (since % params.blocks_per_batch) params,
        ap (λ o. o >>= λ t. some (u64_add epoch.anchor_batch_id t))
            (div_or_panic_pos since params.blocks_per_batch pos),
        ap (λ o. o >>= λ t. some (phase_in_batch t params))
            (mod_or_panic_pos since params.blocks_per_batch pos),
      )

  report-IsSynced :
      (b : ℕ) (q : Phase) (height : ℕ) (s : PollerState)
      → compute_batch_id height epoch params ≡ some b
      → compute_phase height epoch params ≡ some q
      → IsSynced (report b q height s).0
  unfolding report
  report-IsSynced b q height s eb eq = elim (Bool-cases (b == s.last_batch_id)) [
    | inr new ↦ rw new (eb, eq)
    | inl old ↦
        let same = (nat_beq_iff b s.last_batch_id).0 old in
        elim (Bool-cases (phase_eq q s.last_phase)) [
          | inr changed ↦ rw (old, changed) (eb ∙ ap some same, eq)
          | inl kept ↦
              rw (old, kept) (eb ∙ ap some same, eq ∙ ap some (phase_eq_sound q s.last_phase kept))
        ]
  ]

  poll-IsSynced :
      (threshold : ℕ) (reading : Option ℕ) (s : PollerState)
      → IsSynced s
      → (r : PollerState × List PollerEvent) × (poll epoch params threshold reading s ≡ some r)
        × IsSynced r.0
  unfolding poll
  poll-IsSynced threshold none s i = (_, refl, i)
  poll-IsSynced threshold (some height) s i = elim (Bool-cases (leb height s.last_block)) [
    | inl old ↦ rw old (_, refl, i)
    | inr new ↦
        let at = scheduled height in
        rw (new, at.2, at.3)
          (_, refl, report-IsSynced at.0 at.1 height (record s { stall_count = 0 }) at.2 at.3)
  ]

  run_lem :
      (threshold : ℕ) (readings : List (Option ℕ)) (s : PollerState)
      → IsSynced s
      → (r : PollerState × List PollerEvent) × (run_block_poller epoch params threshold readings s
          ≡ some r)
        × IsSynced r.0
  unfolding run_block_poller
  run_lem threshold [] s i = (_, refl, i)
  run_lem threshold (reading ∷ rs) s i =
      let one = poll-IsSynced threshold reading s i in
      let rest = run_lem threshold rs one.0.0 one.2 in rw (one.1, rest.1) (_, refl, rest.2)

  -- Where a batch has blocks, the poller starts at any height and gets through any sequence of
  -- readings, failed ones and repeated or lower heights included, and it always remembers the batch
  -- and the phase that the schedule gives to the last block it took.
  pub run_block_poller-IsSynced :
      (threshold height : ℕ) (readings : List (Option ℕ))
      → (s : PollerState) × (r : PollerState × List PollerEvent) × (start epoch params height
          ≡ some s)
        × (run_block_poller epoch params threshold readings s ≡ some r)
        × IsSynced r.0
  unfolding start
  run_block_poller-IsSynced threshold height readings =
      let at = scheduled height in
      let s : PollerState = record {
        last_block = height;
        last_batch_id = at.0;
        last_phase = at.1;
        stall_count = 0;
      } in
      let rest = run_lem threshold readings s (at.2, at.3) in
      (s, rest.0, rw (at.2, at.3) refl, rest.1, rest.2)
