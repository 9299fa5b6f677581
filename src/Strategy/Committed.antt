-- ===== src/Strategy/Committed.antt =====
-- src/run.rs, `convert_strategy_orders`: what the node commits is covered by its escrow and can be
-- opened by its peers.
use text.Mathlib.TextEquality.{Char-path}
use deadmkt_node.Prelude.{
  ℕ, ◌%◌, ◌^◌, ◌≡◌, ◌≤◌, refl, ap, ap₂, sym, subst, true, some, List, [], ◌∷◌, map, length,
  length-map, String, string_eq, bytes_eq, bind_inv, some_inj, arith, All,
}
use deadmkt_node.Maps.{Map, lookup, get_or, lookup-insert}
use deadmkt_node.Bytes.{Bytes}
use deadmkt_node.Crypto.{Libraries, verify, commit_hash, order_hash}
use deadmkt_node.Crypto.Messages.{Signs, verify_own_messages}
use deadmkt_node.Chain.{BatchParams}
use deadmkt_node.Matching.{MarketConfig}
use deadmkt_node.Escrow.Defs.{
  EscrowTracker, TokenBalance, projected_or_zero, token_projected, projected,
}
use deadmkt_node.Text.Search.{Text, codes}
use deadmkt_node.Orchestrator.Phases.{ValidatedOrder}
use deadmkt_node.Strategy.Convert.{OrderSpec, CanonicalOrder}
use deadmkt_node.Strategy.Validate.{validate_orders}
use deadmkt_node.Strategy.Limits.{Charged, taken, validated_within_balance}
use deadmkt_node.Strategy.Accounts.{validated_all_answered}
use deadmkt_node.Strategy.Commit.{
  balances_of, validation_context, order_of, sign_canonical, convert_strategy_orders,
}

codes_inj : (s t : String) → codes s ≡ codes t → s ≡ t
codes_inj String.[] String.[] h = refl
codes_inj String.[] (String.◌∷◌ d t) h = absurd (ground arith)
codes_inj (String.◌∷◌ c s) String.[] h = absurd (ground arith)
codes_inj (String.◌∷◌ c s) (String.◌∷◌ d t) h =
    ap₂ String.◌∷◌ (Char-path c d (ground arith)) (codes_inj s t (ground arith))

lookup-balances_of :
    (token : String) (m : Map String TokenBalance)
    → get_or 0 (lookup (codes token) (balances_of m)) ≡ projected_or_zero (lookup token m)
unfolding balances_of lookup
lookup-balances_of token [] = refl
lookup-balances_of token ((k, b) ∷ m) = ground (
  arith,
  lookup-insert (codes k) (codes token) (token_projected b) (balances_of m),
  lookup-balances_of token m,
  string_eq.beq_iff k token,
  bytes_eq.beq_iff (codes k) (codes token),
  codes_inj k token,
)

-- What a peer checks when the order is revealed: the hash is of the order's bytes, and the signature
-- is the node's on them.
pub record Opens (lib : Libraries) (public_key : Bytes) (v : ValidatedOrder) : Type 0 where
  pub hashed : v.commit_hash ≡ lib.sha256 v.order_bytes
  pub signed : verify lib public_key v.order_bytes v.signature ≡ true

module _ (lib : Libraries) (public : Bytes → Bytes) (signs : Signs lib public) where
  sign_canonical-Opens :
      (signing_key : Bytes) (canonical : CanonicalOrder)
      → Opens lib (public signing_key) (sign_canonical lib signing_key canonical)
  unfolding sign_canonical commit_hash order_hash
  sign_canonical-Opens signing_key canonical = record {
    hashed = refl;
    signed =
        (verify_own_messages lib public signs signing_key (order_of canonical) 0 0 0 0 0 0 [] []
          true).0;
  }

  sign-All-Opens :
      (signing_key : Bytes) (orders : List CanonicalOrder)
      → All (Opens lib (public signing_key)) (map (sign_canonical lib signing_key) orders)
  sign-All-Opens signing_key [] = tt
  sign-All-Opens signing_key (canonical ∷ orders) =
      (sign_canonical-Opens signing_key canonical, sign-All-Opens signing_key orders)

  pub committed_within_escrow :
      (from_utf8_lossy : Bytes → Text) (specs : List OrderSpec) (signing_key : Bytes)
      (nft_id batch_id : ℕ) (params : BatchParams) (tracker : EscrowTracker) (decimals : Map Text ℕ)
      (markets : List MarketConfig) (nonce_fn : ℕ → Bytes) (vs : List ValidatedOrder)
      → convert_strategy_orders lib from_utf8_lossy specs signing_key nft_id batch_id params tracker
          decimals markets nonce_fn
        ≡ some vs
      → All (Opens lib (public signing_key)) vs
        × (length vs ≤ params.commits_per_batch % 2 ^ 32)
        × ((orders : List CanonicalOrder) × (charges : List (Text × ℕ)) × (vs
              ≡ map (sign_canonical lib signing_key) orders)
            × Charged
                (validation_context from_utf8_lossy nft_id batch_id params tracker decimals markets)
                orders
                charges
            × ((token : String) → taken (codes token) charges % 2 ^ 64 ≤ projected token tracker))
  unfolding convert_strategy_orders validation_context projected
  committed_within_escrow from_utf8_lossy specs key nft_id batch_id params tracker decimals markets
        nonce_fn vs e =
      let ctx =
        validation_context from_utf8_lossy nft_id batch_id params tracker decimals markets in
      let inv = bind_inv (validate_orders specs ctx nonce_fn) _ vs e in
      let limits = validated_within_balance specs ctx nonce_fn inv.0 inv.1 in
      let count = validated_all_answered specs ctx nonce_fn inv.0 inv.1 in
      let same = some_inj inv.2 in
      (
        subst (All (Opens lib (public key))) same (sign-All-Opens key inv.0.orders),
        omega (arith, count.0, ap length same, length-map (sign_canonical lib key) inv.0.orders),
        (
          inv.0.orders,
          limits.0,
          sym same,
          limits.1,
          λ token.
              ground (arith, limits.2 (codes token), lookup-balances_of token tracker.balances),
        ),
      )
