-- ===== src/Chain/Pubkeys.antt =====
-- crates/chain/src/pubkey.rs, on the table of public keys of crates/storage/src/lib.rs: the cache of
-- the traders' keys. The table is a map from traders to keys, as `INSERT OR REPLACE` keeps it.
use deadmkt_node.Prelude.{
  ℕ, Bool, ◌==◌, nat_eq, if◌then◌else◌, Option, none, some, List, [], ◌∷◌, length, ◌>>=◌,
}
use deadmkt_node.Maps.{Map, lookup, insert}
use deadmkt_node.Bytes.{Bytes}
use deadmkt_node.Chain.{compute_pool_assignment}

-- What a lookup meets: whether the table can be read and written, and the chain's answer, where
-- `none` is an error.
pub record Access : Type 0 where
  pub reads : Bool
  pub writes : Bool
  pub answer : Option Bytes

abbrev pub is_key : Bytes → Bool
is_key key = length key == 32

-- Step 1. A stored key of another length is passed over.
unfoldable pub cached_key : Bool → Option Bytes → Option Bytes
cached_key reads none = none
cached_key reads (some key) = if reads then (if is_key key then some key else none) else none

-- Steps 2 and 3. A failed write is ignored.
unfoldable pub fetch_key :
    ℕ → (writes : Bool) → Option Bytes → Map ℕ Bytes → Map ℕ Bytes × Option Bytes
fetch_key nft_id writes none table = (table, none)
fetch_key nft_id writes (some key) table =
    if is_key key
    then (if writes then insert nft_id key table else table, some key)
    else (table, none)

abbrev pub or_fetch : ℕ → Access → Map ℕ Bytes → Option Bytes → Map ℕ Bytes × Option Bytes
or_fetch nft_id a table (some key) = (table, some key)
or_fetch nft_id a table none = fetch_key nft_id a.writes a.answer table

unfoldable pub get_pubkey : ℕ → Access → Map ℕ Bytes → Map ℕ Bytes × Option Bytes
unfolding cached_key fetch_key
get_pubkey nft_id a table = or_fetch nft_id a table (cached_key a.reads (lookup nft_id table))

-- The traders come with what the lookup of their key would meet. `none` is the panic without pools.
unfoldable pub warm_pool :
    (sha256 : Bytes → Bytes)
    → (batch_id num_pools pool_id : ℕ) → List (ℕ × Access)
    → Map ℕ Bytes
    → Option (Map ℕ Bytes)
unfolding get_pubkey
warm_pool sha256 batch_id num_pools pool_id [] table = some table
warm_pool sha256 batch_id num_pools pool_id ((nft_id, a) ∷ rest) table =
    compute_pool_assignment sha256 nft_id batch_id num_pools >>= λ pool.
    warm_pool sha256 batch_id num_pools pool_id rest
      (if pool == pool_id then (get_pubkey nft_id a table).0 else table)
