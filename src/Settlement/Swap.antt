-- ===== src/Settlement/Swap.antt =====
-- src/run.rs, `run`: the loop of the swap phase over the batch's matches, and what its queue holds.
use Prim.Native.Char.{code}
use deadmkt_node.Prelude.{
  ℕ, Bool, true, false, ◌==◌, nat_eq, if◌then◌else◌, Option, none, some, List, [], ◌∷◌, ◌++◌, ◌>>=◌,
  String, string_eq, u64_add,
}
use deadmkt_node.Maps.{Map, lookup, get_or}
use deadmkt_node.Bytes.{Bytes}
use deadmkt_node.Matching.{Match}
use deadmkt_node.Escrow.Defs.{EscrowResult, ok, err}
use deadmkt_node.Escrow.IsActiveCache.{IsActiveCache, get}
use deadmkt_node.Settlement.Defs.{SettlementManager, inactive, register_skipped, register_match}
use deadmkt_node.Settlement.Worker.{SettleRequest}

-- The settings of the loop and the cache it reads.
pub record Node : Type 0 where
  pub nft_id : ℕ
  pub swap_start_block : ℕ
  pub blocks_per_batch : ℕ
  pub token_decimals : Map String ℕ
  pub is_active_cache : IsActiveCache

-- What the loop changes.
pub record Swap : Type 0 where
  pub manager : SettlementManager
  pub filter_skipped_inactive : ℕ

-- What the loop meets at a match: the clock at the two readings of the cache, and whether the
-- channel to the worker has room, which is up to the worker.
pub record Moment : Type 0 where
  pub at_buyer : ℕ
  pub at_seller : ℕ
  pub has_room : Bool

abbrev pub split_at_slash : String → Option (String × String)
split_at_slash String.[] = none
split_at_slash (String.◌∷◌ c s) = if code c == 47 then some ("", s) else elim (split_at_slash s) [
  | none ↦ none
  | some (before, after) ↦ some (String.◌∷◌ c before, after)
]

unfoldable pub tokens_of : String → String × String
tokens_of symbol = elim (split_at_slash symbol) [ none ↦ (symbol, "UNKNOWN") | some both ↦ both ]

abbrev pub is_dead : Option Bool → Bool
is_dead (some false) = true
is_dead _ = false

unfoldable pub dead_nft : IsActiveCache → Match → Moment → Option ℕ
dead_nft cache m t =
    if is_dead (get t.at_buyer m.buyer.order.nft_id cache)
    then some m.buyer.order.nft_id
    else if is_dead (get t.at_seller m.seller.order.nft_id cache)
    then some m.seller.order.nft_id
    else none

-- `try_send`: a full channel refuses the request, and only the log says so.
abbrev pub skip_or_send : String → Match → Moment → Option ℕ → Swap → Swap × List SettleRequest
skip_or_send match_hash m t (some dead) w = (
  record w {
    manager = register_skipped match_hash (inactive dead) w.manager;
    filter_skipped_inactive = u64_add w.filter_skipped_inactive 1;
  },
  [],
)
skip_or_send match_hash m t none w = (
  w,
  if t.has_room
      then record { match_data = m; match_hash = match_hash; is_gas_payer = true } ∷ []
      else [],
)

-- The rest of the body, once `register_match` has answered.
unfoldable pub after_register :
    Node
    → (match_hash : String) → Match
    → Moment
    → Swap
    → SettlementManager × EscrowResult
    → Swap × List SettleRequest
unfolding dead_nft
after_register node match_hash m t w (s, err e) = (record w { manager = s }, [])
after_register node match_hash m t w (s, ok) =
    if m.gas_payer_nft_id == node.nft_id
    then skip_or_send match_hash m t (dead_nft node.is_active_cache m t) (record w { manager = s })
    else (record w { manager = s }, [])

abbrev pub decimals : String → Node → ℕ
decimals token node = get_or 5 (lookup token node.token_decimals)

module _ (hex_encode : Bytes → String) (from_utf8_lossy : Bytes → String) where
  unfoldable pub swap_match : Node → Match → Moment → Swap → Option (Swap × List SettleRequest)
  unfolding after_register tokens_of
  swap_match node m t w =
      let tokens = tokens_of (from_utf8_lossy m.symbol) in
      register_match hex_encode m (m.gas_payer_nft_id == node.nft_id) node.swap_start_block
        node.blocks_per_batch tokens.0 tokens.1 (decimals tokens.0 node) (decimals tokens.1 node)
        w.manager
      >>= λ answer. some (after_register node (hex_encode m.match_hash) m t w answer)

  -- The whole loop, with the requests that it has queued.
  unfoldable pub swap_matches :
      Node → List (Match × Moment) → Swap → Option (Swap × List SettleRequest)
  unfolding swap_match
  swap_matches node [] w = some (w, [])
  swap_matches node ((m, t) ∷ rest) w = swap_match node m t w >>= λ one.
      swap_matches node rest one.0 >>= λ others. some (others.0, one.1 ++ others.1)
