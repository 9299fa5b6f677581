-- ===== src/Poller.antt =====
-- crates/chain/src/poller.rs: the task that turns block heights into events.
pub mod Clock
use deadmkt_node.Prelude.{
  ℕ, ◌+◌, ◌%◌, ◌^◌, Option, none, some, not, List, [], ◌∷◌, ◌++◌, leb, nat_eq, ◌==◌, if◌then◌else◌,
  ◌>>=◌,
}
use deadmkt_node.Chain.{Phase, phase_eq, BatchParams, BatchEpoch, compute_batch_id, compute_phase}

pub data PollerEvent : Type 0 where
  phase_changed : (batch_id : ℕ) (phase : Phase) (block_height : ℕ) → PollerEvent
  new_batch : (batch_id block_height : ℕ) → PollerEvent
  pause_detected : PollerEvent

pub record PollerState : Type 0 where
  pub last_block : ℕ
  pub last_batch_id : ℕ
  pub last_phase : Phase
  pub stall_count : ℕ

module _ (epoch : BatchEpoch) (params : BatchParams) where
  -- The state after the first reading of the ledger. Here and below `none` is a panic.
  unfoldable pub start : ℕ → Option PollerState
  start height = compute_batch_id height epoch params >>= λ b.
      compute_phase height epoch params >>= λ q.
      some (record { last_block = height; last_batch_id = b; last_phase = q; stall_count = 0 })

-- A block that is new, with its batch and phase.
unfoldable pub report : ℕ → Phase → ℕ → PollerState → PollerState × List PollerEvent
report b q height s =
    if not (b == s.last_batch_id)
    then (
      record s { last_batch_id = b; last_phase = q; last_block = height },
      PollerEvent.new_batch b height ∷ [],
    )
    else if not (phase_eq q s.last_phase)
    then (
      record s { last_phase = q; last_block = height },
      PollerEvent.phase_changed b q height ∷ [],
    )
    else (record s { last_block = height }, [])

module _ (epoch : BatchEpoch) (params : BatchParams) (stall_threshold : ℕ) where
  -- A round of the loop: `none` is a failed reading of the ledger. The events are those sent.
  unfoldable pub poll : Option ℕ → PollerState → Option (PollerState × List PollerEvent)
  poll none s =
      let stalls = (s.stall_count + 1) % 2 ^ 32 in
      some (
        record s { stall_count = stalls },
        if leb stall_threshold stalls then PollerEvent.pause_detected ∷ [] else [],
      )
  poll (some height) s =
      let fresh : PollerState = record s { stall_count = 0 } in
      if leb height s.last_block
      then some (fresh, [])
      else compute_batch_id height epoch params >>= λ b.
          compute_phase height epoch params >>= λ q. some (report b q height fresh)

  abbrev pub and_events :
      List PollerEvent → PollerState × List PollerEvent → PollerState × List PollerEvent
  and_events before (s, events) = (s, before ++ events)

  -- As many rounds as there are readings.
  unfoldable pub run_block_poller :
      List (Option ℕ) → PollerState → Option (PollerState × List PollerEvent)
  unfolding poll
  run_block_poller [] s = some (s, [])
  run_block_poller (r ∷ rs) s =
      poll r s >>= λ one. run_block_poller rs one.0 >>= λ rest. some (and_events one.1 rest)
