-- ===== src/Settlement/Submitter.antt =====
-- crates/settlement/src/lib.rs: `SettlementSubmitter`. The chain client's answers are arguments.
use deadmkt_node.Prelude.{
  ℕ, zero, suc, ◌-◌, ◌%◌, ◌≡◌, refl, ap, ltb, ◌==◌, nat_eq, if◌then◌else◌, length, length-append,
  ◌++◌, bind_inv, arith, Bool, true, false, Option, none, some, List, [], ◌∷◌, String, u64_add,
  ◌>>=◌,
}
use deadmkt_node.Maps.{get_or}
use deadmkt_node.Bytes.{Bytes, zeros}
use deadmkt_node.Matching.{Match}
use deadmkt_node.Text.Search.{Text, codes, strip_prefix}
use deadmkt_node.Settlement.Codes.{AbortCode}
use deadmkt_node.Settlement.Status.{from_vm_status}
use deadmkt_node.Settlement.Defs.{SettlementOutcome}
use deadmkt_node.Settlement.Transactions.{
  Codec, RawTransaction, entry_function, build_raw_tx, build_settle_args, encode_signed_tx,
}

pub record SettlementSubmitter : Type 0 where
  pub signing_key : Bytes
  pub contract_addr : Bytes
  pub sender_addr : Bytes
  pub chain_id : ℕ
  pub max_gas : ℕ
  pub gas_price : ℕ

abbrev pub set_gas_config : ℕ → ℕ → SettlementSubmitter → SettlementSubmitter
set_gas_config max_gas gas_price s = record s { max_gas = max_gas; gas_price = gas_price }

pub record Simulation : Type 0 where
  pub success : Bool
  pub gas_used : ℕ
  pub vm_status : Text

-- The answers of the client during one call, `none` for an error, and the clock in seconds.
pub record Chain : Type 0 where
  pub get_account : Option ℕ
  pub simulate_raw : Bytes → Option Simulation
  pub submit_raw : Bytes → Option String
  pub now : ℕ

pub record GasEstimate : Type 0 where
  pub gas_units : ℕ
  pub success : Bool
  pub abort_code : Option AbortCode
  pub vm_status : Text

abbrev pub estimate : Simulation → GasEstimate
estimate sim = record {
  gas_units = sim.gas_used;
  success = sim.success;
  abort_code = elim sim.success [ true ↦ none | false ↦ from_vm_status sim.vm_status ];
  vm_status = sim.vm_status;
}

-- `Result<SettlementOutcome, SettlementError>`; of the errors, the one that has no code of the chain
-- carries its text.
pub data Submitted : Type 0 where
  outcome : SettlementOutcome → Submitted
  simulation_failed : (vm_status : Text) → Submitted
  failed : Submitted

-- The calls that go to the chain, with the transactions they carry.
pub data Call : Type 0 where
  asks_account : Call
  simulates : (tx : Bytes) → Call
  submits : (tx : Bytes) → Call

-- A result with the calls made for it, in their order.
abbrev pub Logged : Type 0 → Type 0
Logged A = List Call × A

abbrev pub after_call : {A : Type 0} → Call → Logged A → Logged A
after_call call (calls, a) = (call ∷ calls, a)

abbrev pub submit_signed : Chain → Bytes → Logged Submitted
submit_signed chain signed = (
  submits signed ∷ [],
  elim (chain.submit_raw signed) [
    | none ↦ failed
    | some tx_hash ↦ outcome (SettlementOutcome.pending tx_hash)
  ],
)

abbrev pub aborts : AbortCode → SettlementOutcome
aborts AbortCode.already_settled = SettlementOutcome.already_settled
aborts code = SettlementOutcome.aborted code

-- What follows the simulation.
abbrev pub after_simulation : Chain → Bytes → GasEstimate → Logged Submitted
after_simulation chain signed e = elim e.success [
  | true ↦ submit_signed chain signed
  | false ↦ elim e.abort_code [
    | some code ↦ ([], outcome (aborts code))
    | none ↦ ([], simulation_failed e.vm_status)
  ]
]

abbrev pub or_failed : {A : Type 0} → Option A → (A → Logged Submitted) → Logged Submitted
or_failed none f = ([], failed)
or_failed (some a) f = f a

module _ (codec : Codec) where
  abbrev pub settle_tx : SettlementSubmitter → (seq expiry : ℕ) → List Bytes → RawTransaction
  settle_tx s seq expiry args =
      build_raw_tx s.sender_addr s.contract_addr "settlement" "settle_match" args seq expiry
        s.chain_id s.max_gas s.gas_price

  unfoldable pub build_signed_tx : SettlementSubmitter → Match → (seq expiry : ℕ) → Option Bytes
  build_signed_tx s m seq expiry = build_settle_args codec m >>= λ args.
      encode_signed_tx codec (settle_tx s seq expiry args) s.signing_key true

  unfoldable pub build_sim_tx : SettlementSubmitter → Match → (seq expiry : ℕ) → Option Bytes
  build_sim_tx s m seq expiry = build_settle_args codec m >>= λ args.
      encode_signed_tx codec (settle_tx s seq expiry args) s.signing_key false

  unfoldable pub submit_settlement : SettlementSubmitter → Chain → Match → Logged Submitted
  unfolding build_signed_tx build_sim_tx
  submit_settlement s chain m = after_call asks_account (
      or_failed chain.get_account λ seq.
        or_failed (build_signed_tx s m seq (u64_add chain.now 60)) λ signed.
          or_failed (build_sim_tx s m seq (u64_add chain.now 60)) λ sim_tx.
            after_call (simulates sim_tx) (
              or_failed (chain.simulate_raw sim_tx)
                λ sim. after_simulation chain signed (estimate sim)))

  -- The sequence number that a direct submission uses.
  abbrev pub sequence_for : Chain → Option ℕ → Logged (Option ℕ)
  sequence_for chain none = (asks_account ∷ [], chain.get_account)
  sequence_for chain (some seq) = ([], some seq)

  abbrev pub send_direct :
      Chain → (next : ℕ) → Option Bytes → Logged (Option (SettlementOutcome × ℕ))
  send_direct chain next none = ([], none)
  send_direct chain next (some signed) = (
    submits signed ∷ [],
    chain.submit_raw signed >>= λ tx_hash. some (SettlementOutcome.pending tx_hash, next),
  )

  abbrev pub send_at :
      SettlementSubmitter → Chain → Match → Option ℕ → Logged (Option (SettlementOutcome × ℕ))
  send_at s chain m none = ([], none)
  send_at s chain m (some seq) =
      send_direct chain (u64_add seq 1) (build_signed_tx s m seq (u64_add chain.now 60))

  -- The hash of the transaction and the next sequence number.
  unfoldable pub submit_settlement_direct :
      SettlementSubmitter → Chain → Match → Option ℕ → Logged (Option (SettlementOutcome × ℕ))
  unfolding build_signed_tx
  submit_settlement_direct s chain m seq_override =
      let seq = sequence_for chain seq_override in
      let sent = send_at s chain m seq.1 in (seq.0 ++ sent.0, sent.1)

  -- Any other call of the contract, signed, and for a simulation.
  abbrev pub build_and_sign_entry_function : RawTransaction → (secret : Bytes) → Option Bytes
  build_and_sign_entry_function raw_tx secret = encode_signed_tx codec raw_tx secret true

  abbrev pub build_simulation_entry_function : RawTransaction → (secret : Bytes) → Option Bytes
  build_simulation_entry_function raw_tx secret = encode_signed_tx codec raw_tx secret false

  unfoldable pub build_entry_function_payload : SettlementSubmitter → Match → Option Bytes
  build_entry_function_payload s m = build_settle_args codec m >>= λ args. codec.bcs_payload (
      entry_function (record {
        module_id = record { address = s.contract_addr; name = "settlement" };
        function = "settle_match";
        args = args;
      }))

-- The bytes, after zeroes that fill 32.
abbrev pub pad_32 : Bytes → Bytes
pad_32 bytes = zeros (32 - length bytes) ++ bytes

abbrev pub without_0x : Text → Text
without_0x addr = get_or addr (strip_prefix (codes "0x") addr)

abbrev pub even_length : Text → Text
even_length s = if length s % 2 == 0 then s else b'0' ∷ s

-- `hex::decode` is an argument. The length is in bytes, which for the digits of hex are characters.
unfoldable pub parse_address : (Text → Option Bytes) → Text → Option Bytes
parse_address hex_decode addr = hex_decode (even_length (without_0x addr)) >>= λ bytes.
    if ltb 32 (length bytes) then none else some (pad_32 bytes)

length-zeros : (n : ℕ) → length (zeros n) ≡ n
length-zeros zero = refl
length-zeros (suc n) = ap suc (length-zeros n)

pub parse_address_32 :
    (hex_decode : Text → Option Bytes) (addr : Text) (bytes : Bytes)
    → parse_address hex_decode addr ≡ some bytes
    → length bytes ≡ 32
unfolding parse_address
parse_address_32 hex_decode addr bytes h =
    let d = bind_inv (hex_decode (even_length (without_0x addr))) _ bytes h in
    ground (arith, d.2, length-append (zeros (32 - length d.0)) d.0, length-zeros (32 - length d.0))

unfoldable pub new :
    (Text → Option Bytes)
    → (signing_key : Bytes) → (contract sender : Text) → (net : ℕ) → Option SettlementSubmitter
unfolding parse_address
new hex_decode key contract sender net = parse_address hex_decode contract >>= λ contract_bytes.
    parse_address hex_decode sender >>= λ sender_bytes. some (record {
      signing_key = key;
      contract_addr = contract_bytes;
      sender_addr = sender_bytes;
      chain_id = net;
      max_gas = 200;
      gas_price = 100000;
    })
