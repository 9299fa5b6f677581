-- ===== src/Tests/Submitting.antt =====
-- The submitter and its worker at concrete inputs.
use deadmkt_node.Prelude.{
  ◌⊎◌, ◌+◌, ◌%◌, ◌^◌, ◌≡◌, refl, Bool, true, false, some, none, List, [], ◌∷◌, map, length, arith,
}
use deadmkt_node.Bytes.{Bytes}
use deadmkt_node.Matching.{Match}
use deadmkt_node.Text.Search.{codes}
use deadmkt_node.Settlement.Transactions.{Codec, build_settle_args, encode_signed_tx}
use deadmkt_node.Settlement.Submitter.{
  SettlementSubmitter, Chain, build_signed_tx, submit_settlement, submit_settlement_direct,
}
use deadmkt_node.Settlement.Encoding.{
  sent, IsSimulatedFirst, IsReadable, SameSide, settle_args_inj, submit_settlement_simulated,
}
use deadmkt_node.Settlement.Worker.{SettleRequest, Visit, match_hash_of, serve, run_worker}
use deadmkt_node.Settlement.Results.{paid, delivered, Reports, results-delivered}
use deadmkt_node.Settlement.Sequence.{InSequence, worker_sequence}
use deadmkt_node.Tests.Data.{revealed}

abbrev codec : Codec
codec = record {
  bcs_u8 = λ n. n ∷ [];
  bcs_u64 = λ n. n ∷ [];
  bcs_bytes = λ b. some b;
  bcs_payload = λ p. some [];
  bcs_raw = λ r. some (r.sequence_number ∷ []);
  bcs_signed = λ s. some s.authenticator.signature;
  sha3_256 = λ b. b;
  ed25519_sign = λ secret message. message;
  ed25519_public = λ secret. secret;
}

codec_reads : IsReadable codec
codec_reads = record {
  u8 = λ a b ha hb h. ground arith;
  u64 = λ a b ha hb h. ground arith;
  bytes = λ a b c ha hb. ground arith;
}

abbrev submitter : SettlementSubmitter
submitter = record {
  signing_key = 1 ∷ [];
  contract_addr = 2 ∷ [];
  sender_addr = 3 ∷ [];
  chain_id = 6;
  max_gas = 200;
  gas_price = 100000;
}

-- A chain that takes every transaction and whose simulation always fails.
abbrev chain : Chain
chain = record {
  get_account = some 7;
  simulate_raw = λ tx. some (record {
    success = false;
    gas_used = 0;
    vm_status = codes "Move abort in 0x1::settlement: 21";
  });
  submit_raw = λ tx. some "0xabc";
  now = 1000;
}

abbrev trade : Match
trade = record {
  batch_id = 3;
  pool_id = 0;
  symbol = 7 ∷ [];
  buyer = revealed 1 1 20 5;
  seller = revealed 2 0 10 5;
  fill_quantity = 5;
  settlement_price = 15;
  match_hash = 9 ∷ [];
  gas_payer_nft_id = 1;
}

abbrev trade_args : List Bytes
trade_args =
    (3 ∷ [])
    ∷ (0 ∷ [])
    ∷ (1 ∷ [])
    ∷ (1 ∷ [])
    ∷ (20 ∷ [])
    ∷ (5 ∷ [])
    ∷ (3 ∷ [])
    ∷ []
    ∷ trade.buyer.signature
    ∷ (2 ∷ [])
    ∷ (0 ∷ [])
    ∷ (10 ∷ [])
    ∷ (5 ∷ [])
    ∷ (3 ∷ [])
    ∷ []
    ∷ trade.seller.signature
    ∷ (7 ∷ [])
    ∷ (5 ∷ [])
    ∷ []

encoded : build_settle_args codec trade ≡ some trade_args
unfolding build_settle_args
encoded = refl

settle_args_inj_example :
    (trade.batch_id ≡ trade.batch_id)
    × (trade.pool_id ≡ trade.pool_id)
    × (trade.symbol ≡ trade.symbol)
    × (trade.fill_quantity ≡ trade.fill_quantity)
    × (SameSide trade.buyer trade.buyer)
    × (SameSide trade.seller trade.seller)
settle_args_inj_example =
    settle_args_inj codec trade trade trade_args codec_reads
      (
        omega arith,
        omega arith,
        omega arith,
        (omega arith, omega arith, omega arith, omega arith, omega arith),
        (omega arith, omega arith, omega arith, omega arith, omega arith),
      )
      (
        omega arith,
        omega arith,
        omega arith,
        (omega arith, omega arith, omega arith, omega arith, omega arith),
        (omega arith, omega arith, omega arith, omega arith, omega arith),
      )
      (refl, refl) (refl, refl) encoded encoded

-- A chain whose simulation succeeds.
abbrev passing : Chain
passing = record chain {
  simulate_raw = λ tx. some (record { success = true; gas_used = 9; vm_status = [] });
}

submit_settlement_simulated_example :
    (sent (submit_settlement codec submitter passing trade).0 ≡ [])
    ⊎ IsSimulatedFirst codec submitter passing trade
        (submit_settlement codec submitter passing trade).0
submit_settlement_simulated_example = submit_settlement_simulated codec submitter passing trade

abbrev request : Bool → SettleRequest
request pays = record { match_data = trade; match_hash = "m"; is_gas_payer = pays }

-- A transaction that is taken, and aborts on the chain.
abbrev visit : Visit
visit = record {
  chain = chain;
  wait_for_tx = λ tx_hash. some (false, codes "Move abort in 0x1::settlement: 21");
  is_open = true;
}

abbrev requests : List (SettleRequest × Visit)
requests = (request true, visit) ∷ (request false, visit) ∷ (request true, visit) ∷ []

results-delivered_example :
    (map match_hash_of (run_worker codec submitter none requests).results ≡ delivered requests)
    × Reports requests
        (run_worker codec submitter none requests).results
        (run_worker codec submitter none requests).late
results-delivered_example = results-delivered codec submitter requests none

worker_sequence_example :
    InSequence codec submitter requests 7 (run_worker codec submitter (some 7) requests).calls
    × ((run_worker codec submitter (some 7) requests).next_seq
        ≡ some ((7 + length (paid requests)) % 2 ^ 64))
unfolding run_worker serve submit_settlement_direct build_signed_tx build_settle_args
    encode_signed_tx
worker_sequence_example =
    worker_sequence codec submitter requests 7 (omega arith) (refl, (refl, (refl, tt)))
      (refl, (refl, tt))
