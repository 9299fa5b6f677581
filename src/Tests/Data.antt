-- ===== src/Tests/Data.antt =====
-- The inputs that the tests share: a library of executable stand-ins, orders and books.
use deadmkt_node.Prelude.{ℕ, true, List, [], ◌∷◌, ◌++◌}
use deadmkt_node.Bytes.{Bytes}
use deadmkt_node.Crypto.{Order, Libraries}
use deadmkt_node.Matching.{RevealedOrder, MarketConfig, Terms}

-- A byte string whose end can be told: a mark before every byte.
abbrev pub marked : Bytes → Bytes
marked [] = 0 ∷ []
marked (b ∷ bs) = 1 ∷ b ∷ marked bs

abbrev pub zeros_8 : Bytes
zeros_8 = 0 ∷ 0 ∷ 0 ∷ 0 ∷ 0 ∷ 0 ∷ 0 ∷ 0 ∷ []

abbrev pub zeros_64 : Bytes
zeros_64 = zeros_8 ++ zeros_8 ++ zeros_8 ++ zeros_8 ++ zeros_8 ++ zeros_8 ++ zeros_8 ++ zeros_8

abbrev pub hash_32 : Bytes
hash_32 = zeros_8 ++ zeros_8 ++ zeros_8 ++ zeros_8

abbrev pub stand_in : Libraries
stand_in = record {
  sha256 = λ b. b;
  bcs_order = λ o. o.nft_id ∷ o.side ∷ o.price ∷ o.quantity ∷ o.batch_id ∷ o.symbol ++ o.nonce;
  bcs_bytes = marked;
  ed25519_verify = λ public message signature. true;
  ed25519_sign = λ secret message. zeros_64;
}

abbrev pub order : ℕ → ℕ → ℕ → ℕ → Order
order nft_id side price quantity = record {
  nft_id = nft_id;
  symbol = 7 ∷ [];
  side = side;
  price = price;
  quantity = quantity;
  batch_id = 3;
  nonce = [];
}

abbrev pub revealed : ℕ → ℕ → ℕ → ℕ → RevealedOrder
revealed nft_id side price quantity = record {
  order = order nft_id side price quantity;
  signature = zeros_64;
  order_hash = nft_id ∷ side ∷ price ∷ quantity ∷ [];
}

abbrev pub buys : List RevealedOrder
buys = revealed 1 1 20 5 ∷ revealed 2 1 15 4 ∷ []

abbrev pub sells : List RevealedOrder
sells = revealed 1 0 10 3 ∷ revealed 3 0 12 6 ∷ []

abbrev pub terms : Terms
terms = record { batch_id = 3; pool_id = 0; symbol = 7 ∷ []; min_quantity = 1 }

abbrev pub market : MarketConfig
market = record { symbol = 7 ∷ []; min_quantity = 1 }
