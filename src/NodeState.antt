-- ===== src/NodeState.antt =====
-- crates/node_state/src/lib.rs: the life cycle of the node.
pub mod Lifecycle
use deadmkt_node.Prelude.{ℕ, Bool, true, false, not, ◌&&◌, Option, none, some}
use deadmkt_node.Maps.{get_or}

pub data NodeState : Type 0 where
  setup connected observing trading paused limited shutdown : NodeState

pub data NodeEvent : Type 0 where
  setup_complete strategy_connected strategy_disconnected first_batch_entered : NodeEvent
  pause_detected : ℕ → NodeEvent
  resume_detected inactive_detected reactivated shutdown_requested : NodeEvent
  gas_critical gas_replenished : NodeEvent

pub data StateError : Type 0 where
  invalid_transition : NodeState → NodeEvent → StateError

pub data Result : Type 0 where
  ok : NodeState → Result
  err : StateError → Result

pub record NodeStateMachine : Type 0 where
  pub state : NodeState
  pub previous_state : Option NodeState
  pub gas_critical : Bool

abbrev pub new : NodeStateMachine
new = record { state = NodeState.setup; previous_state = none; gas_critical = false }

-- `self.state = s; Ok(self.state)`
abbrev pub go : NodeStateMachine → NodeState → NodeStateMachine × Result
go m s = (record m { state = s }, Result.ok s)

abbrev pub stay : NodeStateMachine → NodeStateMachine × Result
stay m = (m, Result.ok m.state)

abbrev pub refuse : NodeStateMachine → NodeEvent → NodeStateMachine × Result
refuse m e = (m, Result.err (StateError.invalid_transition m.state e))

abbrev pub pause : NodeStateMachine → NodeStateMachine × Result
pause m = (
  record m { previous_state = some m.state; state = NodeState.paused },
  Result.ok NodeState.paused,
)

abbrev pub resume : NodeStateMachine → NodeStateMachine × Result
resume m =
    let back = get_or NodeState.trading m.previous_state in
    (record m { state = back; previous_state = none }, Result.ok back)

-- The arms of the `match`, at the state and the event.
unfoldable pub dispatch : NodeState → NodeEvent → NodeStateMachine → NodeStateMachine × Result
dispatch NodeState.setup NodeEvent.setup_complete m = go m NodeState.connected
dispatch NodeState.connected NodeEvent.strategy_connected m = go m NodeState.observing
dispatch NodeState.observing NodeEvent.first_batch_entered m = go m NodeState.trading
dispatch NodeState.observing NodeEvent.strategy_disconnected m = go m NodeState.connected
dispatch NodeState.trading NodeEvent.strategy_disconnected m = go m NodeState.connected
dispatch NodeState.trading (NodeEvent.pause_detected after_batch) m = pause m
dispatch NodeState.observing (NodeEvent.pause_detected after_batch) m = pause m
dispatch NodeState.paused NodeEvent.resume_detected m = resume m
dispatch NodeState.trading NodeEvent.inactive_detected m = go m NodeState.limited
dispatch NodeState.observing NodeEvent.inactive_detected m = go m NodeState.limited
dispatch NodeState.limited NodeEvent.reactivated m = go m NodeState.trading
dispatch _ NodeEvent.gas_critical m = (record m { gas_critical = true }, Result.ok m.state)
dispatch _ NodeEvent.gas_replenished m = (record m { gas_critical = false }, Result.ok m.state)
dispatch _ NodeEvent.shutdown_requested m = go m NodeState.shutdown
dispatch NodeState.paused NodeEvent.strategy_connected m = stay m
dispatch NodeState.limited NodeEvent.strategy_connected m = stay m
dispatch state event m = refuse m event

unfoldable pub transition : NodeStateMachine → NodeEvent → NodeStateMachine × Result
unfolding dispatch
transition m event = dispatch m.state event m

abbrev pub is_trading : NodeState → Bool
is_trading NodeState.trading = true
is_trading _ = false

unfoldable pub can_commit : NodeStateMachine → Bool
can_commit m = is_trading m.state && not m.gas_critical

unfoldable pub gossips : NodeState → Bool
gossips NodeState.setup = false
gossips NodeState.shutdown = false
gossips _ = true

unfoldable pub can_gossip : NodeStateMachine → Bool
unfolding gossips
can_gossip m = gossips m.state

unfoldable pub is_active : NodeStateMachine → Bool
is_active m = is_trading m.state
