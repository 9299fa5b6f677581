-- ===== src/Settlement/Pending.antt =====
-- crates/settlement/src/lib.rs: what the manager does with the entries that are pending, from
-- `check_backstop_eligible` on, and the results of crates/settlement/src/worker.rs.
use deadmkt_node.Prelude.{
  ℕ, ◌*◌, Bool, false, not, ◌&&◌, ltb, leb, if◌then◌else◌, Option, none, some, List, [], ◌∷◌, map,
  length, u64_add, String, string_eq,
}
use deadmkt_node.Maps.{Map, lookup, insert, is_some}
use deadmkt_node.Matching.{Match}
use deadmkt_node.Settlement.Codes.{AbortCode}
use deadmkt_node.Settlement.Defs.{
  SettlementOutcome, SettlementAction, PendingSettlement, SettlementManager, u32_add,
  release_pending_internal, on_settlement_failed,
}

-- The keys of the entries that pass a test.
unfoldable pub keys_where : (PendingSettlement → Bool) → Map String PendingSettlement → List String
keys_where test [] = []
keys_where test ((key, ps) ∷ m) =
    let rest = keys_where test m in if test ps then key ∷ rest else rest

abbrev pub waits_for_backstop : ℕ → PendingSettlement → Bool
waits_for_backstop current_block ps =
    not ps.is_gas_payer && not (is_some ps.tx_hash) && leb ps.backstop_eligible_at current_block

unfoldable pub check_backstop_eligible : ℕ → SettlementManager → List String
unfolding keys_where
check_backstop_eligible current_block s = keys_where (waits_for_backstop current_block) s.pending

-- `get_mut` and an assignment through it
abbrev pub update_at :
    String
    → (PendingSettlement → PendingSettlement)
    → Option PendingSettlement
    → SettlementManager
    → SettlementManager
update_at match_hash f none s = s
update_at match_hash f (some ps) s = record s { pending = insert match_hash (f ps) s.pending }

abbrev pub update_pending :
    String → (PendingSettlement → PendingSettlement) → SettlementManager → SettlementManager
update_pending match_hash f s = update_at match_hash f (lookup match_hash s.pending) s

abbrev pub with_tx_hash : String → PendingSettlement → PendingSettlement
with_tx_hash tx_hash ps = record ps { tx_hash = some tx_hash }

abbrev pub after_submit : String → SettlementOutcome → SettlementManager → SettlementManager
after_submit match_hash (SettlementOutcome.pending tx_hash) s =
    update_pending match_hash (with_tx_hash tx_hash) s
after_submit match_hash SettlementOutcome.already_settled s = record s {
  total_settlement_count = u32_add s.total_settlement_count 1;
  already_settled_count = u32_add s.already_settled_count 1;
}
after_submit match_hash _ s = s

-- `Result<SettlementOutcome, SettlementError>`
pub data BackstopResult : Type 0 where
  submitted : SettlementOutcome → BackstopResult
  backstop_expired submit_failed : BackstopResult

abbrev pub after_reply :
    String → SettlementManager → Option SettlementOutcome → SettlementManager × BackstopResult
after_reply match_hash s none = (s, submit_failed)
after_reply match_hash s (some outcome) = (after_submit match_hash outcome s, submitted outcome)

abbrev pub submit_found :
    (Match → Option SettlementOutcome)
    → String
    → SettlementManager
    → Option PendingSettlement
    → SettlementManager × BackstopResult
submit_found submit_settlement match_hash s none = (s, backstop_expired)
submit_found submit_settlement match_hash s (some ps) =
    after_reply match_hash s (submit_settlement ps.m)

-- The submitter talks to the chain: its answer is an argument, and `none` an error.
unfoldable pub backstop_submit :
    String
    → (Match → Option SettlementOutcome)
    → SettlementManager
    → SettlementManager × BackstopResult
backstop_submit match_hash submit_settlement s =
    submit_found submit_settlement match_hash s (lookup match_hash s.pending)

abbrev pub is_stale : (current_batch_id settlement_max_age : ℕ) → PendingSettlement → Bool
is_stale current_batch_id settlement_max_age ps =
    ltb (u64_add ps.created_at_batch settlement_max_age) current_batch_id

-- `for key in expired { self.release_pending_internal(&key) }`
unfoldable pub release_all : List String → SettlementManager → SettlementManager
release_all [] s = s
release_all (key ∷ rest) s = release_all rest (release_pending_internal key s)

unfoldable pub expire_stale :
    (current_batch_id settlement_max_age : ℕ) → SettlementManager → SettlementManager
unfolding keys_where release_all
expire_stale current_batch_id settlement_max_age s =
    release_all (keys_where (is_stale current_batch_id settlement_max_age) s.pending) s

-- The quotient of two `u32`s as `f64`s exceeds 0.5 exactly when twice the numerator exceeds the
-- denominator: both are exact, and 0.5 is too.
unfoldable pub is_potentially_isolated : SettlementManager → Bool
is_potentially_isolated s =
    if ltb s.total_settlement_count 5
    then false
    else ltb s.total_settlement_count (2 * s.already_settled_count)

abbrev pub reset_isolation_counters : SettlementManager → SettlementManager
reset_isolation_counters s = record s { already_settled_count = 0; total_settlement_count = 0 }

abbrev pub pending_count : SettlementManager → ℕ
pending_count s = length s.pending

abbrev pub status_of : PendingSettlement → String
status_of ps = if is_some ps.tx_hash then "submitted" else "queued"

abbrev pub pending_summary : SettlementManager → List (String × ℕ × String)
pending_summary s = map (λ e. (e.0, e.1.created_at_batch, status_of e.1)) s.pending

abbrev pub mark_submitted : String → String → ℕ → SettlementManager → SettlementManager
mark_submitted match_hash tx_hash block_height =
    update_pending match_hash
      (λ ps. record (with_tx_hash tx_hash ps) { submitted_at = some block_height })

pub data SettleResult : Type 0 where
  submitted : (match_hash tx_hash : String) → SettleResult
  already_settled : (match_hash : String) → SettleResult
  failed : (match_hash : String) → AbortCode → SettleResult
  rpc_error : (match_hash error : String) → SettleResult

abbrev pub routed :
    SettlementManager × SettlementAction → SettlementManager × Option SettlementAction
routed (s, action) = (s, some action)

unfoldable pub process_result :
    SettleResult → SettlementManager → SettlementManager × Option SettlementAction
process_result (SettleResult.submitted match_hash tx_hash) s =
    (mark_submitted match_hash tx_hash 0 s, none)
process_result (SettleResult.already_settled match_hash) s =
    routed (on_settlement_failed match_hash AbortCode.already_settled s)
process_result (failed match_hash code) s = routed (on_settlement_failed match_hash code s)
process_result (rpc_error match_hash error) s = (s, none)
