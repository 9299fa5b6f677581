-- ===== src/Settlement/Results.antt =====
-- crates/settlement/src/worker.rs: which results the worker sends.
use deadmkt_node.Maps.{get_or}
use deadmkt_node.Prelude.{
  subst, ◌++◌, ℕ, ◌≡◌, refl, ap, ap₂, sym, Bool, true, false, Option, none, some, List, [], ◌∷◌,
  map, String, string_eq, if◌then◌else◌, Bool-cases, Option-cases, inl, inr,
}
use mathlib.Core.Path.{subst₂}
use deadmkt_node.Settlement.Codes.{AbortCode}
use deadmkt_node.Text.Search.{Text}
use deadmkt_node.Settlement.Status.{from_vm_status}
use deadmkt_node.Settlement.Defs.{SettlementOutcome}
use deadmkt_node.Settlement.Pending.{SettleResult, failed, rpc_error}
use deadmkt_node.Settlement.Transactions.{Codec}
use deadmkt_node.Settlement.Submitter.{SettlementSubmitter, submit_settlement_direct}
use deadmkt_node.Settlement.Worker.{
  SettleRequest, Visit, Turn, Work, match_hash_of, answer, verify, late_of, after_turn, serve,
  run_worker,
}

-- The hashes of the requests that this node pays for.
abbrev pub paid : List (SettleRequest × Visit) → List String
paid [] = []
paid ((req, visit) ∷ rest) = if req.is_gas_payer then req.match_hash ∷ paid rest else paid rest

-- Those of them whose result finds the channel open, up to the first that does not.
abbrev pub delivered : List (SettleRequest × Visit) → List String
delivered [] = []
delivered ((req, visit) ∷ rest) =
    if req.is_gas_payer
    then (if visit.is_open then req.match_hash ∷ delivered rest else [])
    else delivered rest

abbrev pub is_submitted : SettleResult → Bool
is_submitted (SettleResult.submitted match_hash tx_hash) = true
is_submitted _ = false

-- What the task for a result sends: the failure of a submitted transaction that the chain says has
-- aborted, with the code of its status, or the code 0 where the status has none; and nothing for a
-- transaction that has succeeded, or that is not there in time, or was never submitted.
pub data Follows (visit : Visit) : SettleResult → List SettleResult → Type 0 where
  aborted :
      (match_hash tx_hash : String) (status : Text)
      → visit.wait_for_tx tx_hash ≡ some (false, status)
      → Follows visit
          (SettleResult.submitted match_hash tx_hash)
          (failed match_hash (get_or (AbortCode.other 0) (from_vm_status status)) ∷ [])
  succeeded :
      (match_hash tx_hash : String) (status : Text)
      → visit.wait_for_tx tx_hash ≡ some (true, status)
      → Follows visit (SettleResult.submitted match_hash tx_hash) []
  timed_out :
      (match_hash tx_hash : String)
      → visit.wait_for_tx tx_hash ≡ none
      → Follows visit (SettleResult.submitted match_hash tx_hash) []
  not_sent : (r : SettleResult) → is_submitted r ≡ false → Follows visit r []

-- The results that the loop sends for the requests, and what the tasks send.
pub data Reports
    : List (SettleRequest × Visit) → List SettleResult → List SettleResult → Type 0 where
  ends : Reports [] [] []
  passes :
      (req : SettleRequest) (visit : Visit) (rest : List (SettleRequest × Visit))
      (results late : List SettleResult)
      → req.is_gas_payer ≡ false
      → Reports rest results late
      → Reports ((req, visit) ∷ rest) results late
  answers :
      (req : SettleRequest) (visit : Visit) (rest : List (SettleRequest × Visit)) (r : SettleResult)
      (own results late : List SettleResult)
      → req.is_gas_payer ≡ true
      → visit.is_open ≡ true
      → match_hash_of r ≡ req.match_hash
      → Follows visit r own
      → Reports rest results late
      → Reports ((req, visit) ∷ rest) (r ∷ results) (own ++ late)
  stops :
      (req : SettleRequest) (visit : Visit) (rest : List (SettleRequest × Visit)) (r : SettleResult)
      (own : List SettleResult)
      → req.is_gas_payer ≡ true
      → visit.is_open ≡ false
      → match_hash_of r ≡ req.match_hash
      → Follows visit r own
      → Reports ((req, visit) ∷ rest) [] own

answer-hash : (h : String) (o : Option (SettlementOutcome × ℕ)) → match_hash_of (answer h o).1 ≡ h
answer-hash h none = refl
answer-hash h (some (SettlementOutcome.pending tx, seq)) = refl
answer-hash h (some (SettlementOutcome.confirmed tx, seq)) = refl
answer-hash h (some (SettlementOutcome.already_settled, seq)) = refl
answer-hash h (some (SettlementOutcome.aborted code, seq)) = refl

late-Follows : (visit : Visit) (r : SettleResult) → Follows visit r (late_of visit r)
late-Follows visit (SettleResult.submitted h tx) = go (visit.wait_for_tx tx) refl
  where
    go :
        (o : Option (Bool × Text))
        → visit.wait_for_tx tx ≡ o
        → Follows visit
            (SettleResult.submitted h tx)
            (elim (verify h o) [ none ↦ [] | some r ↦ r ∷ [] ])
    go none q = timed_out h tx q
    go (some (true, status)) q = succeeded h tx status q
    go (some (false, status)) q = elim (Option-cases (from_vm_status status)) [
      | inl n ↦
          subst (Follows visit (SettleResult.submitted h tx)) (rw n refl) (aborted h tx status q)
      | inr (code, c) ↦
          subst (Follows visit (SettleResult.submitted h tx)) (rw c refl) (aborted h tx status q)
    ]
late-Follows visit (SettleResult.already_settled h) = not_sent _ refl
late-Follows visit (failed h code) = not_sent _ refl
late-Follows visit (rpc_error h error) = not_sent _ refl

module _ (codec : Codec) (submitter : SettlementSubmitter) where
  turn-Reports :
      (req : SettleRequest) (visit : Visit) (rest : List (SettleRequest × Visit)) (turn : Turn)
      (is_open : Bool) (work : Work)
      → req.is_gas_payer ≡ true
      → visit.is_open ≡ is_open
      → match_hash_of turn.result ≡ req.match_hash
      → Follows visit turn.result turn.late
      → map match_hash_of work.results ≡ delivered rest
      → Reports rest work.results work.late
      → (map match_hash_of (after_turn turn is_open work).results
          ≡ (if is_open then req.match_hash ∷ delivered rest else []))
        × Reports
            ((req, visit) ∷ rest)
            (after_turn turn is_open work).results
            (after_turn turn is_open work).late
  turn-Reports req visit rest turn true work pays room hash late results later = (
    ap₂ (λ h t. h ∷ t) hash results,
    answers req visit rest turn.result turn.late work.results work.late pays room hash late later,
  )
  turn-Reports req visit rest turn false work pays room hash late results later =
      (refl, stops req visit rest turn.result turn.late pays room hash late)

  pub run_free :
      (req : SettleRequest) (visit : Visit) (rest : List (SettleRequest × Visit))
      (next_seq : Option ℕ)
      → req.is_gas_payer ≡ false
      → run_worker codec submitter next_seq ((req, visit) ∷ rest)
        ≡ run_worker codec submitter next_seq rest
  unfolding run_worker
  run_free req visit rest next_seq free = rw free refl

  pub run_paid :
      (req : SettleRequest) (visit : Visit) (rest : List (SettleRequest × Visit))
      (next_seq : Option ℕ)
      → req.is_gas_payer ≡ true
      → run_worker codec submitter next_seq ((req, visit) ∷ rest)
        ≡ after_turn
            (serve codec submitter next_seq req visit)
            visit.is_open
            (run_worker codec submitter (serve codec submitter next_seq req visit).next_seq rest)
  unfolding run_worker
  run_paid req visit rest next_seq pays = rw pays refl

  pub results-delivered :
      (requests : List (SettleRequest × Visit)) (next_seq : Option ℕ)
      → (map match_hash_of (run_worker codec submitter next_seq requests).results
          ≡ delivered requests)
        × Reports requests
            (run_worker codec submitter next_seq requests).results
            (run_worker codec submitter next_seq requests).late
  unfolding run_worker serve
  results-delivered [] next_seq = (refl, ends)
  results-delivered ((req, visit) ∷ rest) next_seq =
      let P : List String → Work → Type 0 = λ hashes work.
        (map match_hash_of work.results ≡ hashes)
        × Reports ((req, visit) ∷ rest) work.results work.late in
      let expected : Bool → List String = λ b.
        if b
        then (if visit.is_open then req.match_hash ∷ delivered rest else [])
        else delivered rest in
      elim (Bool-cases req.is_gas_payer) [
        | inr free ↦
            let later = results-delivered rest next_seq in
            subst₂ P (sym (ap expected free)) (sym (run_free req visit rest next_seq free))
              (later.0, passes req visit rest _ _ free later.1)
        | inl pays ↦
            let o =
              (submit_settlement_direct codec submitter visit.chain req.match_data next_seq).1 in
            let turn = serve codec submitter next_seq req visit in
            let later = results-delivered rest turn.next_seq in
            subst₂ P (sym (ap expected pays)) (sym (run_paid req visit rest next_seq pays)) (
              turn-Reports req visit rest turn visit.is_open
                (run_worker codec submitter turn.next_seq rest) pays refl
                (answer-hash req.match_hash o) (late-Follows visit turn.result) later.0 later.1)
      ]
