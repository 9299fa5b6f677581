-- ===== src/Settlement/Transactions.antt =====
-- crates/settlement/src/lib.rs: the transactions of `settle_match`. BCS and SHA3 are the crates'.
use deadmkt_node.Prelude.{ℕ, Bool, true, false, Option, some, List, [], ◌∷◌, ◌++◌, String, ◌>>=◌}
use deadmkt_node.Bytes.{Bytes, zeros}
use deadmkt_node.Matching.{Match}
use deadmkt_node.Text.Search.{codes}

pub record ModuleId : Type 0 where
  pub address : Bytes
  pub name : String

-- The type arguments are left out: every call has none.
pub record EntryFunction : Type 0 where
  pub module_id : ModuleId
  pub function : String
  pub args : List Bytes

pub data TransactionPayload : Type 0 where
  script module_bundle : TransactionPayload
  entry_function : EntryFunction → TransactionPayload

pub record RawTransaction : Type 0 where
  pub sender : Bytes
  pub sequence_number : ℕ
  pub payload : TransactionPayload
  pub max_gas_amount : ℕ
  pub gas_unit_price : ℕ
  pub expiration_timestamp_secs : ℕ
  pub chain_id : ℕ

pub record Ed25519Authenticator : Type 0 where
  pub public_key : Bytes
  pub signature : Bytes

pub record SignedTransaction : Type 0 where
  pub raw_txn : RawTransaction
  pub authenticator : Ed25519Authenticator

-- `bcs::to_bytes`, which fails on a sequence that is too long; SHA3-256; and ed25519_dalek, whose
-- keys are their bytes.
pub record Codec : Type 0 where
  pub bcs_u8 : ℕ → Bytes
  pub bcs_u64 : ℕ → Bytes
  pub bcs_bytes : Bytes → Option Bytes
  pub bcs_payload : TransactionPayload → Option Bytes
  pub bcs_raw : RawTransaction → Option Bytes
  pub bcs_signed : SignedTransaction → Option Bytes
  pub sha3_256 : Bytes → Bytes
  pub ed25519_sign : Bytes → Bytes → Bytes
  pub ed25519_public : Bytes → Bytes

abbrev pub build_raw_tx :
    (sender contract : Bytes)
    → (module_name function_name : String) → List Bytes
    → (sequence_number expiration_secs chain_id max_gas gas_price : ℕ) → RawTransaction
build_raw_tx sender contract module_name function_name args sequence_number expiration_secs chain_id
      max_gas gas_price =
    record {
      sender = sender;
      sequence_number = sequence_number;
      payload = entry_function (record {
        module_id = record { address = contract; name = module_name };
        function = function_name;
        args = args;
      });
      max_gas_amount = max_gas;
      gas_unit_price = gas_price;
      expiration_timestamp_secs = expiration_secs;
      chain_id = chain_id;
    }

module _ (codec : Codec) where
  -- `none` is the error of the encoder.
  unfoldable pub build_settle_args : Match → Option (List Bytes)
  build_settle_args m = codec.bcs_bytes m.buyer.order.nonce >>= λ buyer_nonce.
      codec.bcs_bytes m.buyer.signature >>= λ buyer_signature.
      codec.bcs_bytes m.seller.order.nonce >>= λ seller_nonce.
      codec.bcs_bytes m.seller.signature >>= λ seller_signature.
      codec.bcs_bytes m.symbol >>= λ symbol. some (
        codec.bcs_u64 m.batch_id
        ∷ codec.bcs_u64 m.pool_id
        ∷ codec.bcs_u64 m.buyer.order.nft_id
        ∷ codec.bcs_u8 m.buyer.order.side
        ∷ codec.bcs_u64 m.buyer.order.price
        ∷ codec.bcs_u64 m.buyer.order.quantity
        ∷ codec.bcs_u64 m.buyer.order.batch_id
        ∷ buyer_nonce
        ∷ buyer_signature
        ∷ codec.bcs_u64 m.seller.order.nft_id
        ∷ codec.bcs_u8 m.seller.order.side
        ∷ codec.bcs_u64 m.seller.order.price
        ∷ codec.bcs_u64 m.seller.order.quantity
        ∷ codec.bcs_u64 m.seller.order.batch_id
        ∷ seller_nonce
        ∷ seller_signature
        ∷ symbol
        ∷ codec.bcs_u64 m.fill_quantity
        ∷ [])

  -- SHA3-256 of `SUPRA::RawTransaction`
  unfoldable pub signing_prefix : Bytes
  signing_prefix = codec.sha3_256 (codes "SUPRA::RawTransaction")

  -- The two ways to fill the signature: over the prefix and the encoded transaction, or zeroes.
  abbrev pub signature_for : (secret : Bytes) (sign : Bool) → RawTransaction → Option Bytes
  signature_for secret true raw_tx = codec.bcs_raw raw_tx >>= λ raw_bytes.
      some (codec.ed25519_sign secret (signing_prefix ++ raw_bytes))
  signature_for secret false raw_tx = some (zeros 64)

  unfoldable pub encode_signed_tx : RawTransaction → (secret : Bytes) (sign : Bool) → Option Bytes
  unfolding signing_prefix
  encode_signed_tx raw_tx secret sign = signature_for secret sign raw_tx >>= λ signature.
      codec.bcs_signed (record {
        raw_txn = raw_tx;
        authenticator = record { public_key = codec.ed25519_public secret; signature = signature };
      })
