-- ===== src/Orchestrator/Events.antt =====
-- crates/orchestrator/src/lib.rs: the routing of the events of the chain.
use deadmkt_node.Prelude.{
  ℕ, ◌≡◌, sym, ap, some_inj, Option, none, some, String, string_eq, nat_eq, ◌==◌, if◌then◌else◌,
  ◌>>=◌,
}
use deadmkt_node.Bytes.{Bytes}
use deadmkt_node.Chain.{BatchParams}
use deadmkt_node.Settlement.Defs.{BatchTradeSettledEvent}
use deadmkt_node.Orchestrator.Bridges.{current_batch_id}
use deadmkt_node.Orchestrator.Phases.{
  Orchestrator, StrategyEvent, paused, resumed, rushed_withdrawal_requested, param_change_queued,
  param_change_applied, settlement, market_added, send,
}

-- crates/chain/src/types.rs: the events that the orchestrator handles, and any other.
pub data ChainEvent : Type 0 where
  batch_trade_settled : BatchTradeSettledEvent → ChainEvent
  market_pair_added : (symbol : Bytes) → ChainEvent
  pause_queued : (after_batch : ℕ) → ChainEvent
  unpaused : ChainEvent
  withdrawal_requested : (nft_id : ℕ) (token : String) (amount : ℕ) → ChainEvent
  parameter_change_queued :
      (effective_at_batch : ℕ) (param_name : String) (old_value new_value : ℕ) → ChainEvent
  parameter_change_applied : (batch_id : ℕ) (param_name : String) (new_value : ℕ) → ChainEvent
  pool_adjustment_queued : (effective_at_batch new_num_pools : ℕ) → ChainEvent
  pool_adjusted : (batch_id new_num_pools : ℕ) → ChainEvent
  pool_adjustment_cancelled : ChainEvent
  any_other : ChainEvent

abbrev pub on_settlement_confirmed : BatchTradeSettledEvent → Orchestrator → Orchestrator
on_settlement_confirmed evt o =
    send
      (settlement evt.batch_id evt.trade_id evt.symbol (evt.buyer_nft_id == o.node_nft_id)
        evt.clearing_price evt.base_amount)
      o

-- The parameters that an applied change is put into.
abbrev pub base_params : BatchParams
base_params = record {
  blocks_per_batch = 10;
  commit_blocks = 3;
  reveal_blocks = 3;
  match_blocks = 2;
  swap_blocks = 2;
  commits_per_batch = 3;
}

abbrev pub apply_param : String → ℕ → BatchParams → BatchParams
apply_param param_name new_value p =
    if param_name == "blocks_per_batch"
    then record p { blocks_per_batch = new_value }
    else if param_name == "commits_per_batch"
    then record p { commits_per_batch = new_value }
    else p

-- `none` is the panic of the batch port.
unfoldable pub on_chain_event : ChainEvent → Orchestrator → Option Orchestrator
on_chain_event (pause_queued after_batch) o = some (send (paused after_batch) o)
on_chain_event unpaused o =
    current_batch_id o.batch_state >>= λ batch_id. some (send (resumed batch_id) o)
on_chain_event (withdrawal_requested nft_id token amount) o =
    if nft_id == o.node_nft_id
    then some (send (rushed_withdrawal_requested token amount nft_id) o)
    else some o
on_chain_event (parameter_change_queued effective_at_batch param_name old_value new_value) o =
    some (
      send (param_change_queued param_name old_value new_value effective_at_batch) (record o {
        pending_param_change = some (record {
          effective_at_batch = effective_at_batch;
          param_name = param_name;
          old_value = old_value;
          new_value = new_value;
        });
      }))
on_chain_event (parameter_change_applied batch_id param_name new_value) o = some (
    send (param_change_applied param_name new_value batch_id) (record o {
      batch_state = record o.batch_state { params = apply_param param_name new_value base_params };
      pending_param_change = none;
    }))
on_chain_event (pool_adjustment_queued effective_at_batch new_num_pools) o = some (record o {
  pending_pool_adjustment =
      some (record { effective_at_batch = effective_at_batch; new_num_pools = new_num_pools });
})
on_chain_event (ChainEvent.pool_adjusted batch_id new_num_pools) o = some (
    send (StrategyEvent.pool_adjusted o.batch_state.num_pools new_num_pools batch_id) (record o {
      batch_state = record o.batch_state { num_pools = new_num_pools };
      pending_pool_adjustment = none;
    }))
on_chain_event pool_adjustment_cancelled o = some (record o { pending_pool_adjustment = none })
on_chain_event (batch_trade_settled evt) o = some (on_settlement_confirmed evt o)
on_chain_event (market_pair_added symbol) o = some (send (market_added symbol) o)
on_chain_event any_other o = some o

-- The parameters after an applied change do not depend on those before it: whatever they were, the
-- change is made to fixed ones, and all parameters but the named one are reset.
pub applied_forgets_params :
    (batch_id : ℕ) (param_name : String) (new_value : ℕ) (o o' : Orchestrator)
    → on_chain_event (parameter_change_applied batch_id param_name new_value) o ≡ some o'
    → o'.batch_state.params ≡ apply_param param_name new_value base_params
unfolding on_chain_event
applied_forgets_params batch_id param_name new_value o o' h =
    ap (λ x. x.batch_state.params) (sym (some_inj h))
