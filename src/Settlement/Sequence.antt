-- ===== src/Settlement/Sequence.antt =====
-- crates/settlement/src/worker.rs: which sequence numbers the worker signs with.
use deadmkt_node.Prelude.{
  ℕ, ◌+◌, ◌^◌, ◌%◌, ◌<◌, ◌≡◌, ◌⊎◌, refl, ap, sym, subst, ◌∙◌, true, false, Option, none, some, List,
  [], ◌∷◌, length, String, string_eq, u64_add, arith, if◌then◌else◌, Bool-cases, Option-cases, inl,
  inr, All,
}
use deadmkt_node.Bytes.{Bytes}
use deadmkt_node.Matching.{Match}
use deadmkt_node.Settlement.Defs.{SettlementOutcome}
use deadmkt_node.Settlement.Transactions.{Codec}
use deadmkt_node.Settlement.Submitter.{
  SettlementSubmitter, Chain, Call, Logged, submits, build_signed_tx, submit_settlement_direct,
}
use deadmkt_node.Settlement.Worker.{
  SettleRequest, Visit, Work, answer, late_of, after_turn, serve, run_worker,
}
use deadmkt_node.Settlement.Encoding.{IsTransaction, build_signed_tx_lem}
use deadmkt_node.Settlement.Results.{is_submitted, paid, run_free, run_paid}

module _ (codec : Codec) (submitter : SettlementSubmitter) where
  -- The transactions that are signed in sequence: for each paid request one, with its match and the
  -- next number, and no other call to the chain.
  pub data InSequence : List (SettleRequest × Visit) → ℕ → List Call → Type 0 where
    ends : (seq : ℕ) → InSequence [] seq []
    passes :
        (req : SettleRequest) (visit : Visit) (rest : List (SettleRequest × Visit)) (seq : ℕ)
        (calls : List Call)
        → req.is_gas_payer ≡ false
        → InSequence rest seq calls
        → InSequence ((req, visit) ∷ rest) seq calls
    sends :
        (req : SettleRequest) (visit : Visit) (rest : List (SettleRequest × Visit)) (seq : ℕ)
        (signed : Bytes) (calls : List Call)
        → req.is_gas_payer ≡ true
        → IsTransaction codec submitter req.match_data seq
            ((visit.chain.now + 60) % 2 ^ 64)
            true
            signed
        → InSequence rest ((seq + 1) % 2 ^ 64) calls
        → InSequence ((req, visit) ∷ rest) seq (submits signed ∷ calls)

  direct_cases :
      (chain : Chain) (m : Match) (seq : ℕ)
      → ((submit_settlement_direct codec submitter chain m (some seq)).1 ≡ none)
        ⊎ ((signed : Bytes) × (tx_hash : String) × (build_signed_tx codec submitter m seq
                ((chain.now + 60) % 2 ^ 64)
              ≡ some signed)
            × (submit_settlement_direct codec submitter chain m (some seq) ≡ (
              submits signed ∷ [],
              some (SettlementOutcome.pending tx_hash, (seq + 1) % 2 ^ 64),
            )))
  unfolding submit_settlement_direct
  direct_cases chain m seq =
      elim (Option-cases (build_signed_tx codec submitter m seq (u64_add chain.now 60))) [
        | inl q ↦ rw q (inl refl)
        | inr (signed, q) ↦ elim (Option-cases (chain.submit_raw signed)) [
          | inl r ↦ rw (q, r) (inl refl)
          | inr (tx_hash, r) ↦ inr (signed, tx_hash, q, rw (q, r) refl)
        ]
      ]

  serve_lem :
      (req : SettleRequest) (visit : Visit) (next_seq : Option ℕ) (calls : List Call)
      (o : Option (SettlementOutcome × ℕ))
      → submit_settlement_direct codec submitter visit.chain req.match_data next_seq ≡ (calls, o)
      → serve codec submitter next_seq req visit ≡ record {
        next_seq = (answer req.match_hash o).0;
        result = (answer req.match_hash o).1;
        late = late_of visit (answer req.match_hash o).1;
        calls = calls;
      }
  unfolding serve
  serve_lem req visit next_seq calls o q =
      ap
        (λ (d : Logged (Option (SettlementOutcome × ℕ))). record {
          next_seq = (answer req.match_hash d.1).0;
          result = (answer req.match_hash d.1).1;
          late = late_of visit (answer req.match_hash d.1).1;
          calls = d.0;
        })
        q

  -- What a turn that has gone well and the rest of the run come to together.
  Continues :
      (req : SettleRequest) (visit : Visit) (rest : List (SettleRequest × Visit)) (seq : ℕ)
      → Work
      → Type 0
  Continues req visit rest seq w =
      InSequence ((req, visit) ∷ rest) seq w.calls
      × (w.next_seq ≡ some ((seq + length (paid ((req, visit) ∷ rest))) % 2 ^ 64))

  submitted_serve :
      (req : SettleRequest) (visit : Visit) (seq : ℕ)
      → is_submitted (serve codec submitter (some seq) req visit).result ≡ true
      → is_submitted
          (answer req.match_hash
            (submit_settlement_direct codec submitter visit.chain req.match_data (some seq)).1).1
        ≡ true
  unfolding serve
  submitted_serve req visit seq h = h

  served :
      (req : SettleRequest) (visit : Visit) (rest : List (SettleRequest × Visit)) (seq : ℕ)
      → req.is_gas_payer ≡ true
      → seq < 2 ^ 64
      → All
          (λ r. is_submitted r ≡ true)
          (after_turn (serve codec submitter (some seq) req visit) true (
            run_worker codec submitter
              (serve codec submitter (some seq) req visit).next_seq
              rest)).results
      → (All
            (λ r. is_submitted r ≡ true)
            (run_worker codec submitter (some ((seq + 1) % 2 ^ 64)) rest).results
          → InSequence rest
              ((seq + 1) % 2 ^ 64)
              (run_worker codec submitter (some ((seq + 1) % 2 ^ 64)) rest).calls
            × ((run_worker codec submitter (some ((seq + 1) % 2 ^ 64)) rest).next_seq
                ≡ some (((seq + 1) % 2 ^ 64 + length (paid rest)) % 2 ^ 64)))
      → Continues req visit rest seq (
          after_turn
            (serve codec submitter (some seq) req visit)
            true
            (run_worker codec submitter (serve codec submitter (some seq) req visit).next_seq rest))
  unfolding Continues
  served req visit rest seq pays small good next =
      elim (direct_cases visit.chain req.match_data seq) [
        | inl refused ↦ absurd (
            let bad : is_submitted (answer req.match_hash none).1 ≡ true =
              ap (λ o. is_submitted (answer req.match_hash o).1) (sym refused)
              ∙ submitted_serve req visit seq good.0 in
            ground arith)
        | inr (signed, tx_hash, made, sent) ↦
            let turn = serve_lem req visit (some seq) _ _ sent in
            let later = next (
              subst
                (λ t.
                  All (λ r. is_submitted r ≡ true)
                    (run_worker codec submitter t.next_seq rest).results)
                turn good.1) in
            subst
              (λ t.
                Continues req visit rest seq
                  (after_turn t true (run_worker codec submitter t.next_seq rest)))
              (sym turn)
              (
                sends req visit rest seq signed _ pays
                    (build_signed_tx_lem codec submitter req.match_data seq _ signed made) later.0,
                later.1
                    ∙ ap some (omega arith)
                    ∙ ap
                        (λ b. some (
                          (seq + length (if b then req.match_hash ∷ paid rest else paid rest))
                          % 2 ^ 64))
                        (sym pays),
              )
      ]

  -- From a known sequence number, as long as every channel is open and every submission accepted, the
  -- calls of the worker to the chain are one submission for each request that it pays for, signed
  -- with its match and the numbers that follow in 64 bits, and no other call: the chain is not asked
  -- for the account. The worker keeps the number after the last.
  pub worker_sequence :
      (requests : List (SettleRequest × Visit)) (seq : ℕ)
      → seq < 2 ^ 64
      → All (λ r. r.1.is_open ≡ true) requests
      → All (λ r. is_submitted r ≡ true) (run_worker codec submitter (some seq) requests).results
      → InSequence requests seq (run_worker codec submitter (some seq) requests).calls
        × ((run_worker codec submitter (some seq) requests).next_seq
            ≡ some ((seq + length (paid requests)) % 2 ^ 64))
  unfolding run_worker Continues
  worker_sequence [] seq small opens ok = (ends seq, ground arith)
  worker_sequence ((req, visit) ∷ rest) seq small opens ok = elim (Bool-cases req.is_gas_payer) [
    | inr free ↦
        let same = run_free codec submitter req visit rest (some seq) free in
        let later =
          worker_sequence rest seq small opens.1
            (subst (λ w. All (λ r. is_submitted r ≡ true) w.results) same ok) in
        subst
          (λ w.
            InSequence ((req, visit) ∷ rest) seq w.calls
            × (w.next_seq ≡ some ((seq + length (paid ((req, visit) ∷ rest))) % 2 ^ 64)))
          (sym same)
          (
            passes req visit rest seq _ free later.0,
            later.1
                ∙ ap
                    (λ b. some (
                      (seq + length (if b then req.match_hash ∷ paid rest else paid rest))
                      % 2 ^ 64))
                    (sym free),
          )
    | inl pays ↦
        let turn = serve codec submitter (some seq) req visit in
        let same =
          run_paid codec submitter req visit rest (some seq) pays
          ∙ ap (λ b. after_turn turn b (run_worker codec submitter turn.next_seq rest)) opens.0 in
        let good = subst (λ w. All (λ r. is_submitted r ≡ true) w.results) same ok in
        subst
          (λ w.
            InSequence ((req, visit) ∷ rest) seq w.calls
            × (w.next_seq ≡ some ((seq + length (paid ((req, visit) ∷ rest))) % 2 ^ 64)))
          (sym same)
          (served req visit rest seq pays small good
            (λ after. worker_sequence rest ((seq + 1) % 2 ^ 64) (omega arith) opens.1 after))
  ]
