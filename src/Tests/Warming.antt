-- ===== src/Tests/Warming.antt =====
-- The cache of public keys at a concrete input: of two known traders, one has a key on the chain.
use deadmkt_node.Prelude.{ℕ, ◌≡◌, refl, true, some, none, [], ◌∷◌, nat_eq, arith}
use deadmkt_node.Maps.{lookup, insert}
use deadmkt_node.Bytes.{Bytes, of_le_bytes}
use deadmkt_node.Chain.{compute_pool_assignment}
use deadmkt_node.Chain.Pubkeys.{Access, cached_key, fetch_key, get_pubkey, warm_pool}
use deadmkt_node.Chain.Warming.{warmed_pool_cached}
use deadmkt_node.Tests.Data.{hash_32}

abbrev registry : ℕ → Bytes
registry n = hash_32

abbrev failing : Access
failing = record { reads = true; writes = true; answer = none }

abbrev answering : Access
answering = record { reads = true; writes = true; answer = some hash_32 }

abbrev sha256 : Bytes → Bytes
sha256 b = hash_32

warmed : warm_pool sha256 3 2 0 ((4, failing) ∷ (5, answering) ∷ []) [] ≡ some ((5, hash_32) ∷ [])
unfolding warm_pool compute_pool_assignment get_pubkey cached_key fetch_key lookup insert
    of_le_bytes
warmed = refl

warmed_pool_cached_example :
    get_pubkey 5 failing ((5, hash_32) ∷ []) ≡ ((5, hash_32) ∷ [], some hash_32)
unfolding lookup compute_pool_assignment of_le_bytes
warmed_pool_cached_example =
    warmed_pool_cached registry sha256 3 2 0 ((4, failing) ∷ []) [] 5 answering []
      ((5, hash_32) ∷ []) failing (λ n key q long. absurd (ground arith))
      ((λ key q. absurd (ground arith)), ((λ key q. ground arith), tt)) warmed refl
      (refl, refl, refl) refl
