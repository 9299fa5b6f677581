-- ===== src/Crypto.antt =====
-- crates/crypto/src/lib.rs: orders, the bytes that are hashed and signed, and the calls of the
-- hash and signature libraries, which are parameters.
pub mod Messages
use deadmkt_node.Prelude.{ℕ, ◌++◌, Bool, true, false, [], ◌∷◌, if◌then◌else◌, ◌==◌, nat_eq, length}
use deadmkt_node.Bytes.{Bytes, u64_bytes}

-- `struct Order`
pub record Order : Type 0 where
  pub nft_id : ℕ
  pub symbol : Bytes
  pub side : ℕ
  pub price : ℕ
  pub quantity : ℕ
  pub batch_id : ℕ
  pub nonce : Bytes

-- The crates sha2, bcs and ed25519_dalek. Keys are opaque byte strings. `bcs::to_bytes` fails on
-- no value of these two types that fits in memory, which is what the code's `expect`s say.
pub record Libraries : Type 0 where
  pub sha256 : Bytes → Bytes
  pub bcs_order : Order → Bytes
  pub bcs_bytes : Bytes → Bytes
  pub ed25519_verify : Bytes → Bytes → Bytes → Bool
  pub ed25519_sign : Bytes → Bytes → Bytes

module _ (lib : Libraries) where
  unfoldable pub sign : Bytes → Bytes → Bytes
  sign secret message = lib.ed25519_sign secret message

  unfoldable pub verify : Bytes → Bytes → Bytes → Bool
  verify public message signature =
      if length signature == 64 then lib.ed25519_verify public message signature else false

  unfoldable pub encode_order : Order → Bytes
  encode_order order = lib.bcs_order order

  unfoldable pub order_hash : Order → Bytes
  unfolding encode_order
  order_hash order = lib.sha256 (encode_order order)

  unfoldable pub commit_hash : Order → Bytes
  unfolding order_hash
  commit_hash order = order_hash order

  unfoldable pub sign_order : Bytes → Order → Bytes
  unfolding sign encode_order
  sign_order secret order = sign secret (encode_order order)

-- The buffer that `validate_commit` of crates/gossip_validation/src/lib.rs fills; `sign_commit` fills
-- its own.
unfoldable pub commit_message : ℕ → ℕ → Bytes → Bytes
commit_message batch_id pool_id hash = u64_bytes batch_id ++ (u64_bytes pool_id ++ hash)

-- What `compute_match_hash` feeds to the hasher.
unfoldable pub match_preimage : ℕ → Bytes → Bytes → ℕ → Bytes
match_preimage batch_id buyer_hash seller_hash fill_quantity =
    u64_bytes batch_id ++ (buyer_hash ++ (seller_hash ++ u64_bytes fill_quantity))

unfoldable pub settlement_report_message : ℕ → Bytes → Bool → ℕ → Bytes
settlement_report_message batch_id match_hash settled bailer_nft =
    u64_bytes batch_id ++ (match_hash ++ ((if settled then 1 else 0) ∷ u64_bytes bailer_nft))

module _ (lib : Libraries) where
  unfoldable pub sign_commit : Bytes → ℕ → ℕ → Bytes → Bytes
  unfolding sign
  sign_commit secret batch_id pool_id hash =
      sign lib secret (u64_bytes batch_id ++ (u64_bytes pool_id ++ hash))

  unfoldable pub compute_match_hash : ℕ → Bytes → Bytes → ℕ → Bytes
  unfolding match_preimage
  compute_match_hash batch_id buyer_hash seller_hash fill_quantity =
      lib.sha256 (match_preimage batch_id buyer_hash seller_hash fill_quantity)

  unfoldable pub batch_complete_message : ℕ → ℕ → Bytes → ℕ → ℕ → ℕ → Bytes
  batch_complete_message batch_id pool_id symbol avg_settlement_price volume match_count =
      u64_bytes batch_id
      ++ (u64_bytes pool_id
          ++ (lib.bcs_bytes symbol
              ++ (u64_bytes avg_settlement_price ++ (u64_bytes volume ++ u64_bytes match_count))))

  unfoldable pub sign_batch_complete : Bytes → ℕ → ℕ → Bytes → ℕ → ℕ → ℕ → Bytes
  unfolding sign
  sign_batch_complete secret batch_id pool_id symbol avg_settlement_price volume match_count =
      sign lib secret (
        u64_bytes batch_id
        ++ (u64_bytes pool_id
            ++ (lib.bcs_bytes symbol
                ++ (u64_bytes avg_settlement_price
                    ++ (u64_bytes volume ++ u64_bytes match_count)))))

  unfoldable pub sign_settlement_report : Bytes → ℕ → Bytes → Bool → ℕ → Bytes
  unfolding sign settlement_report_message
  sign_settlement_report secret batch_id match_hash settled bailer_nft =
      sign lib secret (settlement_report_message batch_id match_hash settled bailer_nft)
