-- ===== src/Settlement/Worker.antt =====
-- crates/settlement/src/worker.rs: the loop of the background worker, on the requests that the
-- channel delivers, each with what the worker meets while it serves it.
use deadmkt_node.Prelude.{ℕ, Bool, true, false, Option, none, some, List, [], ◌∷◌, ◌++◌, String}
use deadmkt_node.Matching.{Match}
use deadmkt_node.Text.Search.{Text}
use deadmkt_node.Settlement.Codes.{AbortCode}
use deadmkt_node.Settlement.Status.{from_vm_status}
use deadmkt_node.Settlement.Defs.{SettlementOutcome}
use deadmkt_node.Settlement.Pending.{SettleResult, failed, rpc_error}
use deadmkt_node.Settlement.Transactions.{Codec}
use deadmkt_node.Settlement.Submitter.{SettlementSubmitter, Chain, Call, submit_settlement_direct}

pub record SettleRequest : Type 0 where
  pub match_data : Match
  pub match_hash : String
  pub is_gas_payer : Bool

-- `match_hash()`
abbrev pub match_hash_of : SettleResult → String
match_hash_of (SettleResult.submitted match_hash tx_hash) = match_hash
match_hash_of (SettleResult.already_settled match_hash) = match_hash
match_hash_of (failed match_hash code) = match_hash
match_hash_of (rpc_error match_hash error) = match_hash

-- What the arms of the match make of a direct submission: the sequence number that is kept, and the
-- result. The text of an error is not modelled.
abbrev pub answer : String → Option (SettlementOutcome × ℕ) → Option ℕ × SettleResult
answer match_hash (some (SettlementOutcome.pending tx_hash, new_seq)) =
    (some new_seq, SettleResult.submitted match_hash tx_hash)
answer match_hash (some (SettlementOutcome.confirmed tx_hash, _)) =
    (none, SettleResult.submitted match_hash tx_hash)
answer match_hash (some (_, _)) =
    (none, rpc_error match_hash "unexpected outcome from direct submit")
answer match_hash none = (none, rpc_error match_hash "error")

-- What the task that waits for a submitted transaction reports: `none` is a timeout, and the pair
-- the transaction's success and status.
abbrev pub verify : String → Option (Bool × Text) → Option SettleResult
verify match_hash (some (false, vm_status)) = elim (from_vm_status vm_status) [
  | none ↦ some (failed match_hash (AbortCode.other 0))
  | some code ↦ some (failed match_hash code)
]
verify match_hash _ = none

-- What the worker meets at a request: the answers of the chain to the submission and to the task that
-- waits for the transaction, and whether the channel of the results is still open.
pub record Visit : Type 0 where
  pub chain : Chain
  pub wait_for_tx : String → Option (Bool × Text)
  pub is_open : Bool

-- The task spawned for a submitted transaction, with the results that it sends, if any.
abbrev pub late_of : Visit → SettleResult → List SettleResult
late_of visit (SettleResult.submitted match_hash tx_hash) =
    elim (verify match_hash (visit.wait_for_tx tx_hash)) [ none ↦ [] | some r ↦ r ∷ [] ]
late_of visit _ = []

-- One turn of the loop for a request that this node pays for: the sequence number kept, the result,
-- what the spawned task sends, and the calls made to the chain.
pub record Turn : Type 0 where
  pub next_seq : Option ℕ
  pub result : SettleResult
  pub late : List SettleResult
  pub calls : List Call

-- What the worker has done when its loop ends: the results that the loop has sent, in their order,
-- and those of the spawned tasks, of which each is sent at least three seconds after its transaction
-- and so may come between any results of later requests, or find the channel closed.
pub record Work : Type 0 where
  pub next_seq : Option ℕ
  pub results : List SettleResult
  pub late : List SettleResult
  pub calls : List Call

-- A closed channel of the results takes no result and ends the loop.
abbrev pub after_turn : Turn → (is_open : Bool) → Work → Work
after_turn turn true rest = record {
  next_seq = rest.next_seq;
  results = turn.result ∷ rest.results;
  late = turn.late ++ rest.late;
  calls = turn.calls ++ rest.calls;
}
after_turn turn false rest = record {
  next_seq = turn.next_seq;
  results = [];
  late = turn.late;
  calls = turn.calls;
}

module _ (codec : Codec) (submitter : SettlementSubmitter) where
  unfoldable pub serve : Option ℕ → SettleRequest → Visit → Turn
  serve next_seq req visit =
      let sent = submit_settlement_direct codec submitter visit.chain req.match_data next_seq in
      let r = answer req.match_hash sent.1 in
      record { next_seq = r.0; result = r.1; late = late_of visit r.1; calls = sent.0 }

  unfoldable pub run_worker : Option ℕ → List (SettleRequest × Visit) → Work
  unfolding serve
  run_worker next_seq [] = record { next_seq = next_seq; results = []; late = []; calls = [] }
  run_worker next_seq ((req, visit) ∷ rest) = elim req.is_gas_payer [
    | false ↦ run_worker next_seq rest
    | true ↦
        let turn = serve next_seq req visit in
        after_turn turn visit.is_open (run_worker turn.next_seq rest)
  ]
