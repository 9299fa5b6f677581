-- ===== src/Tests/Schedule.antt =====
-- The schedule and the life cycle at concrete heights and events.
use deadmkt_node.Prelude.{ℕ, ◌<◌, ◌≡◌, refl, false, some, none, List, [], ◌∷◌, arith}
use deadmkt_node.Chain.{
  Phase, BatchParams, BatchEpoch, compute_batch_id, compute_phase, compute_new_epoch,
}
use deadmkt_node.Chain.Schedule
use deadmkt_node.Chain.Schedule.{
  Advances, schedule_Advances, batch_id_mono, new_epoch_continues, pool_assignment_lt,
}
use deadmkt_node.NodeState.{NodeState, NodeEvent, NodeStateMachine}
use deadmkt_node.NodeState.Lifecycle.{
  run, run-IsValid, transition_refused, shutdown_final, no_strategy_no_commit, pause_resume,
}
use deadmkt_node.NodeState.Lifecycle
use deadmkt_node.Poller.{PollerState, PollerEvent, start, run_block_poller}
use deadmkt_node.Poller.Clock.{IsSynced, run_block_poller-IsSynced}
use deadmkt_node.Prelude.{Option}

abbrev params : BatchParams
params = record {
  blocks_per_batch = 10;
  commit_blocks = 4;
  reveal_blocks = 3;
  match_blocks = 1;
  swap_blocks = 2;
  commits_per_batch = 5;
}

abbrev epoch : BatchEpoch
epoch = record { anchor_block = 100; anchor_batch_id = 3 }

params-IsValid : Schedule.IsValid params
params-IsValid = record {
  commit_pos = omega arith;
  reveal_pos = omega arith;
  match_pos = omega arith;
  swap_pos = omega arith;
  fills = refl;
  fits = omega arith;
}

params_pos : 0 < params.blocks_per_batch
params_pos = omega arith

schedule_Advances_example :
    (b : ℕ) × (q : Phase) × (c : ℕ) × (r : Phase) × (compute_batch_id 119 epoch params ≡ some b)
    × (compute_phase 119 epoch params ≡ some q)
    × (compute_batch_id 120 epoch params ≡ some c)
    × (compute_phase 120 epoch params ≡ some r)
    × Advances b q c r
schedule_Advances_example =
    schedule_Advances epoch params params-IsValid 119 (omega arith) (omega arith)

new_epoch_continues_example :
    (compute_batch_id 130 (compute_new_epoch epoch params 5) params
      ≡ compute_batch_id 130 epoch params)
    × (compute_phase 130 (compute_new_epoch epoch params 5) params ≡ compute_phase 130 epoch params)
    × (compute_batch_id
          (compute_new_epoch epoch params 5).anchor_block
          (compute_new_epoch epoch params 5)
          params
        ≡ some 5)
    × (compute_phase
          (compute_new_epoch epoch params 5).anchor_block
          (compute_new_epoch epoch params 5)
          params
        ≡ some Phase.commit)
unfolding compute_new_epoch
new_epoch_continues_example =
    new_epoch_continues epoch params params 5 130 params-IsValid params-IsValid (omega arith)
      (omega arith) (omega arith) (omega arith)

-- A block, a failed reading, the same block again, and one of the next batch.
abbrev readings : List (Option ℕ)
readings = some 101 ∷ none ∷ some 101 ∷ some 115 ∷ []

run_block_poller-IsSynced_example :
    (s : PollerState) × (r : PollerState × List PollerEvent) × (start epoch params 100 ≡ some s)
    × (run_block_poller epoch params 1 readings s ≡ some r)
    × IsSynced epoch params params_pos r.0
run_block_poller-IsSynced_example = run_block_poller-IsSynced epoch params params_pos 1 100 readings

abbrev trading : NodeStateMachine
trading = record { state = NodeState.trading; previous_state = none; gas_critical = false }

abbrev stopped : NodeStateMachine
stopped = record { state = NodeState.shutdown; previous_state = none; gas_critical = false }

abbrev events : List NodeEvent
events = NodeEvent.pause_detected 7 ∷ NodeEvent.gas_critical ∷ NodeEvent.strategy_disconnected ∷ []

run-IsValid_example : Lifecycle.IsValid (run trading events)
run-IsValid_example = run-IsValid trading events refl
