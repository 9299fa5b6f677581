-- ===== src/Settlement/Encoding.antt =====
-- crates/settlement/src/lib.rs: what the arguments of a transaction say, and when one is sent.
use deadmkt_node.Prelude.{
  false, Bool, ◌+◌, ◌%◌, ◌⊎◌, true, Option-cases, Bool-cases, inl, inr, ℕ, ◌^◌, ◌<◌, ◌≡◌, refl, ap,
  sym, ◌∙◌, Option, none, some, List, [], ◌∷◌, u64_add, bind_inv, some_inj,
}
use deadmkt_node.Bytes.{Bytes}
use deadmkt_node.Matching.{Match, RevealedOrder}
use deadmkt_node.Settlement.Transactions.{
  Codec, RawTransaction, entry_function, build_settle_args, encode_signed_tx,
}
use deadmkt_node.Settlement.Submitter.{
  settle_tx, Call, asks_account, simulates, submits, Logged, GasEstimate, SettlementSubmitter,
  Chain, Simulation, Submitted, estimate, or_failed, after_simulation, build_signed_tx,
  build_sim_tx, submit_settlement,
}

-- BCS writes numbers of a width and byte strings so that they can be read back.
pub record IsReadable (codec : Codec) : Type 0 where
  pub u8 : (a b : ℕ) → a < 2 ^ 8 → b < 2 ^ 8 → codec.bcs_u8 a ≡ codec.bcs_u8 b → a ≡ b
  pub u64 : (a b : ℕ) → a < 2 ^ 64 → b < 2 ^ 64 → codec.bcs_u64 a ≡ codec.bcs_u64 b → a ≡ b
  pub bytes : (a b c : Bytes) → codec.bcs_bytes a ≡ some c → codec.bcs_bytes b ≡ some c → a ≡ b

-- The integers of a match fit their types.
abbrev pub IsMachineOrder : RevealedOrder → Type 0
IsMachineOrder r =
    (r.order.nft_id < 2 ^ 64)
    × (r.order.side < 2 ^ 8)
    × (r.order.price < 2 ^ 64)
    × (r.order.quantity < 2 ^ 64)
    × (r.order.batch_id < 2 ^ 64)

abbrev pub IsMachineMatch : Match → Type 0
IsMachineMatch m =
    (m.batch_id < 2 ^ 64)
    × (m.pool_id < 2 ^ 64)
    × (m.fill_quantity < 2 ^ 64)
    × (IsMachineOrder m.buyer)
    × (IsMachineOrder m.seller)

-- Both orders of a match are of its market.
abbrev pub IsOneMarket : Match → Type 0
IsOneMarket m = (m.buyer.order.symbol ≡ m.symbol) × (m.seller.order.symbol ≡ m.symbol)

-- Two sides of a trade with the same order, in all its fields, and the same signature.
abbrev pub SameSide : RevealedOrder → RevealedOrder → Type 0
SameSide a b =
    (a.order.nft_id ≡ b.order.nft_id)
    × (a.order.symbol ≡ b.order.symbol)
    × (a.order.side ≡ b.order.side)
    × (a.order.price ≡ b.order.price)
    × (a.order.quantity ≡ b.order.quantity)
    × (a.order.batch_id ≡ b.order.batch_id)
    × (a.order.nonce ≡ b.order.nonce)
    × (a.signature ≡ b.signature)

module _ (codec : Codec) where
  -- What the arguments of a match are made of.
  args_parts :
      (m : Match) (args : List Bytes)
      → build_settle_args codec m ≡ some args
      → (bn bs sn ss sy : Bytes) × (codec.bcs_bytes m.buyer.order.nonce ≡ some bn)
        × (codec.bcs_bytes m.buyer.signature ≡ some bs)
        × (codec.bcs_bytes m.seller.order.nonce ≡ some sn)
        × (codec.bcs_bytes m.seller.signature ≡ some ss)
        × (codec.bcs_bytes m.symbol ≡ some sy)
        × ((codec.bcs_u64 m.batch_id
              ∷ codec.bcs_u64 m.pool_id
              ∷ codec.bcs_u64 m.buyer.order.nft_id
              ∷ codec.bcs_u8 m.buyer.order.side
              ∷ codec.bcs_u64 m.buyer.order.price
              ∷ codec.bcs_u64 m.buyer.order.quantity
              ∷ codec.bcs_u64 m.buyer.order.batch_id
              ∷ bn
              ∷ bs
              ∷ codec.bcs_u64 m.seller.order.nft_id
              ∷ codec.bcs_u8 m.seller.order.side
              ∷ codec.bcs_u64 m.seller.order.price
              ∷ codec.bcs_u64 m.seller.order.quantity
              ∷ codec.bcs_u64 m.seller.order.batch_id
              ∷ sn
              ∷ ss
              ∷ sy
              ∷ codec.bcs_u64 m.fill_quantity
              ∷ [])
            ≡ args)
  unfolding build_settle_args
  args_parts m args h =
      let a = bind_inv (codec.bcs_bytes m.buyer.order.nonce) _ args h in
      let b = bind_inv (codec.bcs_bytes m.buyer.signature) _ args a.2 in
      let c = bind_inv (codec.bcs_bytes m.seller.order.nonce) _ args b.2 in
      let d = bind_inv (codec.bcs_bytes m.seller.signature) _ args c.2 in
      let e = bind_inv (codec.bcs_bytes m.symbol) _ args d.2 in
      (a.0, b.0, c.0, d.0, e.0, a.1, b.1, c.1, d.1, e.1, some_inj e.2)

  -- The arguments of `settle_match` determine the trade: two matches of machine integers, whose
  -- orders are of the market of the match, with the same arguments agree in the batch, the pool, the
  -- symbol, the filled quantity, and in every field of both orders and both signatures.
  pub settle_args_inj :
      (m n : Match) (args : List Bytes)
      → IsReadable codec
      → IsMachineMatch m
      → IsMachineMatch n
      → IsOneMarket m
      → IsOneMarket n
      → build_settle_args codec m ≡ some args
      → build_settle_args codec n ≡ some args
      → (m.batch_id ≡ n.batch_id)
        × (m.pool_id ≡ n.pool_id)
        × (m.symbol ≡ n.symbol)
        × (m.fill_quantity ≡ n.fill_quantity)
        × (SameSide m.buyer n.buyer)
        × (SameSide m.seller n.seller)
  settle_args_inj m n args r hm hn mm mn p q =
      let x = args_parts m args p in
      let y = args_parts n args q in
      let e = x.10 ∙ sym y.10 in
      let same : (a b c d : Bytes)
          → codec.bcs_bytes a ≡ some c
          → codec.bcs_bytes b ≡ some d
          → c ≡ d
          → a ≡ b =
        λ a b c d p q w. r.bytes a b c p (q ∙ ap some (sym w)) in
      let symbols : m.symbol ≡ n.symbol = same _ _ _ _ x.9 y.9 cc in
      (
        r.u64 _ _ hm.0 hn.0 cc,
        r.u64 _ _ hm.1 hn.1 cc,
        symbols,
        r.u64 _ _ hm.2 hn.2 cc,
        (
          r.u64 _ _ hm.3.0 hn.3.0 cc,
          mm.0 ∙ symbols ∙ sym mn.0,
          r.u8 _ _ hm.3.1 hn.3.1 cc,
          r.u64 _ _ hm.3.2 hn.3.2 cc,
          r.u64 _ _ hm.3.3 hn.3.3 cc,
          r.u64 _ _ hm.3.4 hn.3.4 cc,
          same _ _ _ _ x.5 y.5 cc,
          same _ _ _ _ x.6 y.6 cc,
        ),
        (
          r.u64 _ _ hm.4.0 hn.4.0 cc,
          mm.1 ∙ symbols ∙ sym mn.1,
          r.u8 _ _ hm.4.1 hn.4.1 cc,
          r.u64 _ _ hm.4.2 hn.4.2 cc,
          r.u64 _ _ hm.4.3 hn.4.3 cc,
          r.u64 _ _ hm.4.4 hn.4.4 cc,
          same _ _ _ _ x.7 y.7 cc,
          same _ _ _ _ x.8 y.8 cc,
        ),
      )

-- A transaction that calls `settle_match` with the arguments of a match, of a sequence number and an
-- expiry, from the submitter's account; signed, or with zeroes for the signature.
pub record IsTransaction (codec : Codec) (s : SettlementSubmitter) (m : Match) (seq expiry : ℕ)
    (real : Bool) (tx : Bytes) : Type 0 where
  pub raw : RawTransaction
  pub args : List Bytes
  pub of_match : build_settle_args codec m ≡ some args
  pub numbered : raw.sequence_number ≡ seq
  pub expires_at : raw.expiration_timestamp_secs ≡ expiry
  pub of_sender : raw.sender ≡ s.sender_addr
  pub of_chain : raw.chain_id ≡ s.chain_id
  pub calls :
      raw.payload
      ≡ entry_function (record {
        module_id = record { address = s.contract_addr; name = "settlement" };
        function = "settle_match";
        args = args;
      })
  pub encoded : encode_signed_tx codec raw s.signing_key real ≡ some tx

module _ (codec : Codec) (s : SettlementSubmitter) (m : Match) (seq expiry : ℕ) (tx : Bytes) where
  pub build_signed_tx_lem :
      build_signed_tx codec s m seq expiry ≡ some tx → IsTransaction codec s m seq expiry true tx
  unfolding build_signed_tx
  build_signed_tx_lem h =
      let built = bind_inv (build_settle_args codec m) _ tx h in
      record {
        raw = settle_tx codec s seq expiry built.0;
        args = built.0;
        of_match = built.1;
        numbered = refl;
        expires_at = refl;
        of_sender = refl;
        of_chain = refl;
        calls = refl;
        encoded = built.2;
      }

  build_sim_tx_lem :
      build_sim_tx codec s m seq expiry ≡ some tx → IsTransaction codec s m seq expiry false tx
  unfolding build_sim_tx
  build_sim_tx_lem h =
      let built = bind_inv (build_settle_args codec m) _ tx h in
      record {
        raw = settle_tx codec s seq expiry built.0;
        args = built.0;
        of_match = built.1;
        numbered = refl;
        expires_at = refl;
        of_sender = refl;
        of_chain = refl;
        calls = refl;
        encoded = built.2;
      }

-- What a step's calls are, by cases on what the step needs.
or_failed_rule :
    {A : Type 0} (P : List Call → Type 0) (o : Option A) (f : A → Logged Submitted)
    → P []
    → ((a : A) → o ≡ some a → P (f a).0)
    → P (or_failed o f).0
or_failed_rule P none f stops goes = stops
or_failed_rule P (some a) f stops goes = goes a refl

after_simulation_rule :
    (P : List Call → Type 0) (chain : Chain) (signed : Bytes) (e : GasEstimate)
    → P []
    → (e.success ≡ true → P (submits signed ∷ []))
    → P (after_simulation chain signed e).0
after_simulation_rule P chain signed e stops goes = elim (Bool-cases e.success) [
  | inl good ↦ rw good (goes good)
  | inr bad ↦ elim (Option-cases e.abort_code) [
    | inl other ↦ rw (bad, other) stops
    | inr (code, known) ↦ rw (bad, known) stops
  ]
]

-- The transactions that were sent, of the calls made.
abbrev pub sent : List Call → List Bytes
sent [] = []
sent (submits tx ∷ calls) = tx ∷ sent calls
sent (asks_account ∷ calls) = sent calls
sent (simulates tx ∷ calls) = sent calls

module _ (codec : Codec) (s : SettlementSubmitter) (chain : Chain) (m : Match) where
  -- A settlement that is sent only after its simulation has succeeded: the calls are, in this order,
  -- the account's, the simulation's and the submission's, and both transactions are of the sequence
  -- number that the account gave.
  pub record IsSimulatedFirst (calls : List Call) : Type 0 where
    pub seq : ℕ
    pub signed : Bytes
    pub sim_tx : Bytes
    pub sim : Simulation
    pub of_account : chain.get_account ≡ some seq
    pub is_signed : IsTransaction codec s m seq ((chain.now + 60) % 2 ^ 64) true signed
    pub is_unsigned : IsTransaction codec s m seq ((chain.now + 60) % 2 ^ 64) false sim_tx
    pub simulated : chain.simulate_raw sim_tx ≡ some sim
    pub succeeded : sim.success ≡ true
    pub in_order : calls ≡ asks_account ∷ simulates sim_tx ∷ submits signed ∷ []

  pub submit_settlement_simulated :
      (sent (submit_settlement codec s chain m).0 ≡ [])
      ⊎ IsSimulatedFirst (submit_settlement codec s chain m).0
  unfolding submit_settlement
  submit_settlement_simulated =
      let P : List Call → Type 0 = λ calls. (sent calls ≡ []) ⊎ IsSimulatedFirst calls in
      let expiry = u64_add chain.now 60 in
      or_failed_rule (λ c. P (asks_account ∷ c)) chain.get_account _ (inl refl)
        λ seq account.
          or_failed_rule (λ c. P (asks_account ∷ c)) (build_signed_tx codec s m seq expiry) _
            (inl refl)
            λ signed real.
              or_failed_rule (λ c. P (asks_account ∷ c)) (build_sim_tx codec s m seq expiry) _
                (inl refl)
                λ sim_tx zeroed.
                  or_failed_rule (λ c. P (asks_account ∷ simulates sim_tx ∷ c))
                    (chain.simulate_raw sim_tx) _ (inl refl)
                    λ sim answer.
                      after_simulation_rule (λ c. P (asks_account ∷ simulates sim_tx ∷ c)) chain
                        signed (estimate sim) (inl refl)
                        λ good. inr (record {
                          seq = seq;
                          signed = signed;
                          sim_tx = sim_tx;
                          sim = sim;
                          of_account = account;
                          is_signed = build_signed_tx_lem codec s m seq expiry signed real;
                          is_unsigned = build_sim_tx_lem codec s m seq expiry sim_tx zeroed;
                          simulated = answer;
                          succeeded = good;
                          in_order = refl;
                        })
