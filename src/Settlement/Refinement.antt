-- ===== src/Settlement/Refinement.antt =====
-- crates/settlement/src/lib.rs: the runs of the settlement manager refine the set of matches in
-- flight.
use deadmkt_node.Prelude.{
  ℕ, ◌-◌, ◌≡◌, refl, ap, ◌∙◌, Bool, false, Option, none, some, List, [], ◌∷◌, String, string_eq,
  any, arith, Bool-cases, Option-cases, inl, inr,
}
use deadmkt_node.Maps.{Map, lookup, contains_key}
use deadmkt_node.Bytes.{Bytes}
use deadmkt_node.Matching.{Match}
use deadmkt_node.Escrow.Defs.{
  EscrowTracker, EscrowResult, TokenBalance, set_confirmed, has_pending, is_pending, projected,
  token_projected, projected_or_zero,
}
use deadmkt_node.Escrow.Pending.{has_pending-set_confirmed}
use deadmkt_node.Settlement.Codes.{AbortCode}
use deadmkt_node.Settlement.Defs.{
  SettlementManager, SkipReason, SettlementOutcome, BatchTradeSettledEvent, new, register_skipped,
  register_match, find_pending_for_event, on_settlement_confirmed,
}
use deadmkt_node.Settlement.Pending.{
  after_submit, after_reply, backstop_submit, keys_where, is_stale, expire_stale,
  reset_isolation_counters, mark_submitted, SettleResult, failed, rpc_error, process_result,
}
use deadmkt_node.Settlement.Agreement.{
  InFlight, Change, stays, ends, Shows, ended_by, registers, release-Shows, Shows-ext, failed-Shows,
  update_pending-Shows, release_all-Shows, confirmed-Shows, register-Shows, keeps-all,
}
unfoldable use deadmkt_node.Settlement.Agreement.{change}

abbrev pub confirmed_keys : Option String → List String
confirmed_keys none = []
confirmed_keys (some key) = key ∷ []

-- What a result of the worker ends.
abbrev pub ended_by_result : SettleResult → List String
ended_by_result (SettleResult.submitted match_hash tx_hash) = []
ended_by_result (SettleResult.already_settled match_hash) = []
ended_by_result (failed match_hash code) = ended_by match_hash code
ended_by_result (rpc_error match_hash error) = []

module _ (hex_encode : Bytes → String) where
  -- The calls that the main loop makes of the manager and of the tracker, each with the change
  -- that it stands for.
  pub data Step : SettlementManager → Change → SettlementManager → Type 0 where
    registers_match :
        (m : Match) (gas_payer : Bool) (start blocks : ℕ) (base quote : String) (bd qd : ℕ)
        (s s' : SettlementManager) (r : EscrowResult)
        → register_match hex_encode m gas_payer start blocks base quote bd qd s ≡ some (s', r)
        → Step s (registers (hex_encode m.match_hash) r) s'
    skips :
        (h : String) (reason : SkipReason) (s : SettlementManager)
        → Step s (ends (h ∷ [])) (register_skipped h reason s)
    sees_event :
        (event : BatchTradeSettledEvent) (s : SettlementManager)
        → Step s
            (ends (confirmed_keys (find_pending_for_event event s)))
            (on_settlement_confirmed event s).0
    gets_result :
        (r : SettleResult) (s : SettlementManager)
        → Step s (ends (ended_by_result r)) (process_result r s).0
    marks_submitted :
        (h tx_hash : String) (block : ℕ) (s : SettlementManager)
        → Step s stays (mark_submitted h tx_hash block s)
    backstops :
        (h : String) (submit : Match → Option SettlementOutcome) (s : SettlementManager)
        → Step s stays (backstop_submit h submit s).0
    expires :
        (batch age : ℕ) (s : SettlementManager)
        → Step s (ends (keys_where (is_stale batch age) s.pending)) (expire_stale batch age s)
    resets : (s : SettlementManager) → Step s stays (reset_isolation_counters s)
    sets_confirmed :
        (token : String) (amount : ℕ) (s : SettlementManager)
        → Step s stays (record s { tracker = set_confirmed token amount s.tracker })

  -- The runs from a manager with nothing in flight, latest change first.
  pub data Run : List Change → SettlementManager → Type 0 where
    begins :
        (t : EscrowTracker) (own : ℕ)
        → ((j : String) → has_pending j t ≡ false)
        → Run [] (new t own)
    goes_on :
        (c : Change) (trace : List Change) (s s' : SettlementManager)
        → Run trace s
        → Step s c s'
        → Run (c ∷ trace) s'

-- The matches in flight after the changes of a trace.
unfoldable pub replay : List Change → InFlight
unfolding change
replay [] j = false
replay (c ∷ trace) j = change c (replay trace) j

idle : (v : InFlight) (s : SettlementManager) → Shows v s → Shows (change stays v) s
unfolding change
idle v s sh = Shows-ext v _ s (λ j. refl) sh

event-Shows :
    (event : BatchTradeSettledEvent) (v : InFlight) (s : SettlementManager)
    → Shows v s
    → Shows
        (change (ends (confirmed_keys (find_pending_for_event event s))) v)
        (on_settlement_confirmed event s).0
unfolding on_settlement_confirmed
event-Shows event v s sh = elim (Option-cases (find_pending_for_event event s)) [
  | inl other ↦ rw other (Shows-ext v _ s (keeps-all v) sh)
  | inr (key, found) ↦ rw found (confirmed-Shows key v s sh)
]

result-Shows :
    (r : SettleResult) (v : InFlight) (s : SettlementManager)
    → Shows v s
    → Shows (change (ends (ended_by_result r)) v) (process_result r s).0
unfolding process_result
result-Shows (SettleResult.submitted h tx_hash) v s sh =
    Shows-ext v _ _ (keeps-all v) (update_pending-Shows h _ v s sh)
result-Shows (SettleResult.already_settled h) v s sh =
    failed-Shows h AbortCode.already_settled v s sh
result-Shows (failed h code) v s sh = failed-Shows h code v s sh
result-Shows (rpc_error h error) v s sh = Shows-ext v _ s (keeps-all v) sh

submit-Shows :
    (h : String) (outcome : SettlementOutcome) (v : InFlight) (s : SettlementManager)
    → Shows v s
    → Shows v (after_submit h outcome s)
submit-Shows h (SettlementOutcome.pending tx_hash) v s sh = update_pending-Shows h _ v s sh
submit-Shows h SettlementOutcome.already_settled v s sh = record {
  by_manager = sh.by_manager;
  by_tracker = sh.by_tracker;
}
submit-Shows h (SettlementOutcome.confirmed tx_hash) v s sh = sh
submit-Shows h (SettlementOutcome.aborted code) v s sh = sh

reply-Shows :
    (h : String) (v : InFlight) (s : SettlementManager) (reply : Option SettlementOutcome)
    → Shows v s
    → Shows v (after_reply h s reply).0
reply-Shows h v s none sh = sh
reply-Shows h v s (some outcome) sh = submit-Shows h outcome v s sh

backstop-Shows :
    (h : String) (submit : Match → Option SettlementOutcome) (v : InFlight) (s : SettlementManager)
    → Shows v s
    → Shows v (backstop_submit h submit s).0
unfolding backstop_submit
backstop-Shows h submit v s sh = elim (Option-cases (lookup h s.pending)) [
  | inl absent ↦ rw absent sh
  | inr (ps, found) ↦ rw found (reply-Shows h v s (submit ps.m) sh)
]

module _ (hex_encode : Bytes → String) where
  step-Shows :
      (v : InFlight) (s s' : SettlementManager) (c : Change)
      → Shows v s
      → Step hex_encode s c s'
      → Shows (change c v) s'
  unfolding register_skipped expire_stale
  step-Shows v _ _ _ sh (registers_match m g start blocks base quote bd qd s s' r e) =
      register-Shows hex_encode m g start blocks base quote bd qd v s s' r sh e
  step-Shows v _ _ _ sh (skips h reason s) =
      let after = release-Shows h v s sh in
      record { by_manager = after.by_manager; by_tracker = after.by_tracker }
  step-Shows v _ _ _ sh (sees_event event s) = event-Shows event v s sh
  step-Shows v _ _ _ sh (gets_result r s) = result-Shows r v s sh
  step-Shows v _ _ _ sh (marks_submitted h tx block s) = idle v _ (update_pending-Shows h _ v s sh)
  step-Shows v _ _ _ sh (backstops h submit s) = idle v _ (backstop-Shows h submit v s sh)
  step-Shows v _ _ _ sh (expires batch age s) = release_all-Shows _ v s sh
  step-Shows v _ _ _ sh (resets s) =
      idle v _ (record { by_manager = sh.by_manager; by_tracker = sh.by_tracker })
  step-Shows v _ _ _ sh (sets_confirmed token amount s) = idle v _ (record {
    by_manager = sh.by_manager;
    by_tracker = λ j. has_pending-set_confirmed token j amount s.tracker ∙ sh.by_tracker j;
  })

  run-Shows :
      (trace : List Change) (s : SettlementManager)
      → Run hex_encode trace s
      → Shows (replay trace) s
  unfolding replay lookup
  run-Shows _ _ (begins t own empty) = record { by_manager = λ j. refl; by_tracker = empty }
  run-Shows _ _ (goes_on c trace s s' run step) =
      step-Shows (replay trace) s s' c (run-Shows trace s run) step

  -- In every run, the manager's map and the amounts that the tracker has pending are two views of
  -- one set of match hashes: those that a registration started and that no skip, settlement event,
  -- final abort or expiry has ended since.
  pub manager_refines_replay :
      (trace : List Change) (s : SettlementManager)
      → Run hex_encode trace s
      → (j : String)
      → (contains_key j s.pending ≡ replay trace j) × (has_pending j s.tracker ≡ replay trace j)
  manager_refines_replay trace s run j =
      let shows = run-Shows trace s run in (shows.by_manager j, shows.by_tracker j)

nothing_pending : (m : Map String ℕ) → ((j : String) → contains_key j m ≡ false) → m ≡ []
unfolding lookup
nothing_pending [] h = refl
nothing_pending ((k, amount) ∷ m) h = absurd (ground (arith, h k, string_eq.beq_iff k k))

balance_idle :
    (j token : String) (b : TokenBalance) (m : Map String TokenBalance)
    → any (λ (e : String × TokenBalance). is_pending j e.1) m ≡ false
    → lookup token m ≡ some b
    → contains_key j b.pending_out ≡ false
unfolding lookup
balance_idle j token b [] idle found = absurd (ground arith)
balance_idle j token b ((i, c) ∷ m) idle found = elim (Bool-cases (string_eq.beq i token)) [
  | inl t ↦ ground arith
  | inr f ↦ balance_idle j token b m (ground arith) (ground arith)
]

module _ (hex_encode : Bytes → String) where
  -- No outflow is left locked: once everything that a run registered has ended, a token's projected
  -- balance is its confirmed balance less what is earmarked for withdrawal.
  pub all_ended_unlocks :
      (trace : List Change) (s : SettlementManager) (token : String) (b : TokenBalance)
      → Run hex_encode trace s
      → ((j : String) → replay trace j ≡ false)
      → lookup token s.tracker.balances ≡ some b
      → projected token s.tracker ≡ b.confirmed - b.earmarked
  unfolding projected has_pending token_projected
  all_ended_unlocks trace s token b run over found =
      let shows = run-Shows hex_encode trace s run in
      let clear =
        nothing_pending b.pending_out
          (λ j. balance_idle j token b s.tracker.balances (shows.by_tracker j ∙ over j) found) in
      ap projected_or_zero found ∙ rw clear (omega arith)
