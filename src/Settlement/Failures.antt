-- ===== src/Settlement/Failures.antt =====
-- crates/settlement/src/lib.rs: what `on_settlement_failed` answers, and whose match
-- `register_match` takes a match for.
use deadmkt_node.Prelude.{
  List, [], ◌∷◌, Option, none, ◌%◌, ◌^◌, not, ◌&&◌, ℕ, ◌+◌, ◌≡◌, ◌≢◌, refl, ap, ◌∙◌, sym, Bool,
  true, false, if◌then◌else◌, if_rule, some, String, string_eq, nat_eq, beq_ne, arith, Option-cases,
  Bool-cases, inl, inr,
}
use deadmkt_node.Settlement.Expiry.{lookup-release}
use deadmkt_node.Maps.{contains, lookup, contains_key, lookup-insert_ne}
use deadmkt_node.Bytes.{Bytes}
use deadmkt_node.Matching.{Match}
use deadmkt_node.Escrow.Defs.{
  EscrowTracker, EscrowResult, ok, err, Side, apply_match, reserve_outflow, track_inflow, and_then,
  quote_amount, entry, projected, projected_or_zero, token_projected,
}
use deadmkt_node.Escrow.Solvency.{IsSolvent}
use deadmkt_node.Escrow.Reserve.{reserve_outflow_accepted}
use deadmkt_node.Escrow.Settlement.{some_inv}
use deadmkt_node.Settlement.Codes.{AbortCode}
use deadmkt_node.Settlement.Defs.{
  SettlementManager, SettlementAction, keep_pending, enter_limited, release_pending,
  PendingSettlement, release_pending_internal, register_match, registered, my_side, own_buyer,
  own_seller, own_either, count_failure, limited_if, route_abort, on_settlement_failed,
}

-- The codes after which a match stays pending: the chain has settled it, or may yet.
abbrev pub stays : AbortCode → Bool
stays AbortCode.already_settled = true
stays AbortCode.insufficient_balance = true
stays _ = false

-- The code that is counted once more.
abbrev pub says_settled : AbortCode → Bool
says_settled AbortCode.already_settled = true
says_settled _ = false

-- The NFTs that a code speaks of, in the match that it is about.
abbrev pub blamed : AbortCode → Match → List ℕ
blamed AbortCode.buyer_inactive m = m.buyer.order.nft_id ∷ []
blamed AbortCode.seller_inactive m = m.seller.order.nft_id ∷ []
blamed AbortCode.nft_blocked m = m.buyer.order.nft_id ∷ m.seller.order.nft_id ∷ []
blamed AbortCode.nft_burned m = m.buyer.order.nft_id ∷ m.seller.order.nft_id ∷ []
blamed _ m = []

abbrev pub blamed_in : AbortCode → Option PendingSettlement → List ℕ
blamed_in code none = []
blamed_in code (some ps) = blamed code ps.m

abbrev pub verdict : (stays own_blamed : Bool) → SettlementAction
verdict true own = keep_pending
verdict false own = if own then enter_limited else release_pending

-- The answer to a failed match, and what is pending after it.
abbrev Answers :
    String → AbortCode → SettlementManager → SettlementManager × SettlementAction → Type 0
Answers h code s r =
    (r.1 ≡ verdict (stays code) (contains s.own_nft_id (blamed_in code (lookup h s.pending))))
    × ((j : String)
        → lookup j r.0.pending
          ≡ (if string_eq.beq h j && not (stays code) then none else lookup j s.pending))

lookup-released :
    (h j : String) (s : SettlementManager)
    → lookup j (release_pending_internal h s).pending
      ≡ (if string_eq.beq h j && true then none else lookup j s.pending)
lookup-released h j s = lookup-release h j s ∙ ground arith

buyer-blamed :
    (h : String) (s : SettlementManager)
    → own_buyer h s
      ≡ contains s.own_nft_id (blamed_in AbortCode.buyer_inactive (lookup h s.pending))
unfolding contains
buyer-blamed h s = elim (Option-cases (lookup h s.pending)) [
  | inl q ↦ rw q refl
  | inr (ps, q) ↦ rw q (ground arith)
]

seller-blamed :
    (h : String) (s : SettlementManager)
    → own_seller h s
      ≡ contains s.own_nft_id (blamed_in AbortCode.seller_inactive (lookup h s.pending))
unfolding contains
seller-blamed h s = elim (Option-cases (lookup h s.pending)) [
  | inl q ↦ rw q refl
  | inr (ps, q) ↦ rw q (ground arith)
]

either-blamed :
    (h : String) (s : SettlementManager)
    → own_either h s ≡ contains s.own_nft_id (blamed_in AbortCode.nft_burned (lookup h s.pending))
unfolding contains
either-blamed h s = elim (Option-cases (lookup h s.pending)) [
  | inl q ↦ rw q refl
  | inr (ps, q) ↦ rw q (ground arith)
]

no_one-blamed :
    (h : String) (code : AbortCode) (s : SettlementManager)
    → ((m : Match) → blamed code m ≡ [])
    → contains s.own_nft_id (blamed_in code (lookup h s.pending)) ≡ false
unfolding contains
no_one-blamed h code s nobody = elim (Option-cases (lookup h s.pending)) [
  | inl q ↦ rw q refl
  | inr (ps, q) ↦ rw q (rw (nobody ps.m) refl)
]

dropped-Answers :
    (h : String) (code : AbortCode) (s : SettlementManager)
    → stays code ≡ false
    → ((m : Match) → blamed code m ≡ [])
    → Answers h code s (release_pending_internal h s, release_pending)
dropped-Answers h code s drops nobody =
    (rw (drops, no_one-blamed h code s nobody) refl, λ j. rw drops (lookup-released h j s))

route_abort-Answers :
    (h : String) (code : AbortCode) (s : SettlementManager)
    → Answers h code s (route_abort h code s)
unfolding route_abort
route_abort-Answers h AbortCode.already_settled s = (refl, λ j. ground arith)
route_abort-Answers h AbortCode.insufficient_balance s = (refl, λ j. ground arith)
route_abort-Answers h AbortCode.buyer_inactive s =
    (ap limited_if (buyer-blamed h s), λ j. lookup-released h j s)
route_abort-Answers h AbortCode.seller_inactive s =
    (ap limited_if (seller-blamed h s), λ j. lookup-released h j s)
route_abort-Answers h AbortCode.nft_blocked s =
    (ap limited_if (either-blamed h s), λ j. lookup-released h j s)
route_abort-Answers h AbortCode.nft_burned s =
    (ap limited_if (either-blamed h s), λ j. lookup-released h j s)
route_abort-Answers h AbortCode.buyer_overfill s =
    dropped-Answers h AbortCode.buyer_overfill s refl (λ m. refl)
route_abort-Answers h AbortCode.seller_overfill s =
    dropped-Answers h AbortCode.seller_overfill s refl (λ m. refl)
route_abort-Answers h AbortCode.batch_too_old s =
    dropped-Answers h AbortCode.batch_too_old s refl (λ m. refl)
route_abort-Answers h AbortCode.quantity_too_small s =
    dropped-Answers h AbortCode.quantity_too_small s refl (λ m. refl)
route_abort-Answers h AbortCode.self_trade s =
    dropped-Answers h AbortCode.self_trade s refl (λ m. refl)
route_abort-Answers h AbortCode.invalid_side s =
    dropped-Answers h AbortCode.invalid_side s refl (λ m. refl)
route_abort-Answers h AbortCode.signature_verify_failed s =
    dropped-Answers h AbortCode.signature_verify_failed s refl (λ m. refl)
route_abort-Answers h AbortCode.market_not_active s =
    dropped-Answers h AbortCode.market_not_active s refl (λ m. refl)
route_abort-Answers h AbortCode.quote_amount_zero s =
    dropped-Answers h AbortCode.quote_amount_zero s refl (λ m. refl)
route_abort-Answers h (AbortCode.other code) s =
    dropped-Answers h (AbortCode.other code) s refl (λ m. refl)

-- Releasing changes no counter.
release_counts :
    (h : String) (s : SettlementManager)
    → ((release_pending_internal h s).total_settlement_count ≡ s.total_settlement_count)
      × ((release_pending_internal h s).already_settled_count ≡ s.already_settled_count)
unfolding release_pending_internal
release_counts h s = elim (Bool-cases (contains_key h s.pending)) [
  | inl here ↦ rw here (refl, refl)
  | inr gone ↦ rw gone (refl, refl)
]

route_abort_counts :
    (h : String) (code : AbortCode) (s : SettlementManager)
    → ((route_abort h code s).0.total_settlement_count ≡ s.total_settlement_count)
      × ((route_abort h code s).0.already_settled_count ≡ s.already_settled_count)
unfolding route_abort
route_abort_counts h AbortCode.already_settled s = (refl, refl)
route_abort_counts h AbortCode.insufficient_balance s = (refl, refl)
route_abort_counts h AbortCode.buyer_inactive s = release_counts h s
route_abort_counts h AbortCode.seller_inactive s = release_counts h s
route_abort_counts h AbortCode.nft_blocked s = release_counts h s
route_abort_counts h AbortCode.nft_burned s = release_counts h s
route_abort_counts h AbortCode.buyer_overfill s = release_counts h s
route_abort_counts h AbortCode.seller_overfill s = release_counts h s
route_abort_counts h AbortCode.batch_too_old s = release_counts h s
route_abort_counts h AbortCode.quantity_too_small s = release_counts h s
route_abort_counts h AbortCode.self_trade s = release_counts h s
route_abort_counts h AbortCode.invalid_side s = release_counts h s
route_abort_counts h AbortCode.signature_verify_failed s = release_counts h s
route_abort_counts h AbortCode.market_not_active s = release_counts h s
route_abort_counts h AbortCode.quote_amount_zero s = release_counts h s
route_abort_counts h (AbortCode.other code) s = release_counts h s

counted_lem :
    (code : AbortCode) (s : SettlementManager)
    → (count_failure code s).already_settled_count ≡ (
        if says_settled code
        then (s.already_settled_count + 1) % 2 ^ 32
        else s.already_settled_count)
counted_lem AbortCode.already_settled s = refl
counted_lem AbortCode.insufficient_balance s = refl
counted_lem AbortCode.buyer_inactive s = refl
counted_lem AbortCode.seller_inactive s = refl
counted_lem AbortCode.nft_blocked s = refl
counted_lem AbortCode.nft_burned s = refl
counted_lem AbortCode.buyer_overfill s = refl
counted_lem AbortCode.seller_overfill s = refl
counted_lem AbortCode.batch_too_old s = refl
counted_lem AbortCode.quantity_too_small s = refl
counted_lem AbortCode.self_trade s = refl
counted_lem AbortCode.invalid_side s = refl
counted_lem AbortCode.signature_verify_failed s = refl
counted_lem AbortCode.market_not_active s = refl
counted_lem AbortCode.quote_amount_zero s = refl
counted_lem (AbortCode.other code) s = refl

-- What a failed match comes to is decided by its code. After E_ALREADY_SETTLED and
-- E_INSUFFICIENT_BALANCE the answer is KeepPending and nothing pending changes. After every other
-- code the match, and no other, is no longer pending; and the answer is EnterLimited if the match
-- was pending with this node's NFT on the side that the code blames, the buyer for BuyerInactive,
-- the seller for SellerInactive, either for NftBlocked and NftBurned, and else ReleasePending. The
-- failure is counted, in 32 bits, and once more as already settled exactly after that code.
pub failed_outcome :
    (h : String) (code : AbortCode) (s : SettlementManager) (j : String)
    → ((on_settlement_failed h code s).1
        ≡ verdict (stays code) (contains s.own_nft_id (blamed_in code (lookup h s.pending))))
      × (lookup j (on_settlement_failed h code s).0.pending
          ≡ (if string_eq.beq h j && not (stays code) then none else lookup j s.pending))
      × ((on_settlement_failed h code s).0.total_settlement_count
          ≡ (s.total_settlement_count + 1) % 2 ^ 32)
      × ((on_settlement_failed h code s).0.already_settled_count ≡ (
          if says_settled code
          then (s.already_settled_count + 1) % 2 ^ 32
          else s.already_settled_count))
unfolding on_settlement_failed
failed_outcome h code s j =
    let answer = route_abort-Answers h code (count_failure code s) in
    let counts = route_abort_counts h code (count_failure code s) in
    (answer.0, answer.1 j, counts.0, counts.1 ∙ counted_lem code s)

track_other :
    (token other h : String) (amount : ℕ) (t : EscrowTracker)
    → token ≢ other
    → lookup other (track_inflow token h amount t).0.balances ≡ lookup other t.balances
unfolding track_inflow
track_other token other h amount t differ =
    if_rule
      (λ (r : EscrowTracker × EscrowResult). lookup other r.0.balances ≡ lookup other t.balances)
      (contains_key h (entry token t).pending_in) _ _
      (λ old. lookup-insert_ne token other _ t.balances differ)
      (λ new. lookup-insert_ne token other _ t.balances differ)

sell_reserves :
    (h base quote : String) (fill buyer_price price bd qd : ℕ) (t t' : EscrowTracker)
    → IsSolvent t
    → quote ≢ base
    → apply_match h Side.sell base quote fill buyer_price price bd qd t ≡ some (t', ok)
    → projected base t' + fill ≡ token_projected (entry base t)
unfolding apply_match projected
sell_reserves h base quote fill buyer_price price bd qd t t' solvent differ e =
    let legs = some_inv (quote_amount fill price bd qd) _ (t', ok) e in
    go legs.0 (reserve_outflow base h fill t) refl legs.1.1
  where
    go :
        (inflow : ℕ) (r : EscrowTracker × EscrowResult)
        → reserve_outflow base h fill t ≡ r
        → and_then r (track_inflow quote h inflow) ≡ (t', ok)
        → projected base t' + fill ≡ token_projected (entry base t)
    go inflow (t1, err x) s q = absurd (ground arith)
    go inflow (t1, ok) s q =
        ap (λ (x : EscrowTracker × EscrowResult). projected base x.0 + fill) (sym q)
        ∙ ap (λ x. projected_or_zero x + fill) (track_other quote base h inflow t1 differ)
        ∙ ap (λ (x : EscrowTracker × EscrowResult). projected base x.0 + fill) (sym s)
        ∙ (reserve_outflow_accepted base h fill t solvent).1 (ap (λ x. x.1) s)

registered_ok :
    (h : String) (ps : PendingSettlement) (s s' : SettlementManager)
    (a : EscrowTracker × EscrowResult)
    → registered h ps s a ≡ (s', ok)
    → a ≡ (s'.tracker, ok)
registered_ok h ps s s' (t, ok) q = ap (λ x. (x.0.tracker, ok)) q
registered_ok h ps s s' (t, err e) q = absurd (ground arith)

module _ (hex_encode : Bytes → String) where
  -- A match between two other nodes that the manager accepts is reserved as this node's own sale:
  -- the node's projected balance of the base token falls by the filled quantity. The base and the
  -- quote token differ, and the tracker has promised no more than it holds.
  pub third_party_reserves :
      (m : Match) (gas_payer : Bool) (start blocks : ℕ) (base quote : String) (bd qd : ℕ)
      (s s' : SettlementManager)
      → m.buyer.order.nft_id ≢ s.own_nft_id
      → m.seller.order.nft_id ≢ s.own_nft_id
      → quote ≢ base
      → IsSolvent s.tracker
      → register_match hex_encode m gas_payer start blocks base quote bd qd s ≡ some (s', ok)
      → projected base s'.tracker + m.fill_quantity ≡ token_projected (entry base s.tracker)
  unfolding register_match
  third_party_reserves m gas_payer start blocks base quote bd qd s s' no_buyer no_seller differ
        solvent e =
      let h = hex_encode m.match_hash in
      let after = some_inv _ _ (s', ok) e in
      let sale : my_side m s ≡ Side.sell =
        ap (λ b. if b then Side.buy else Side.sell)
          (beq_ne m.buyer.order.nft_id s.own_nft_id no_buyer) in
      let applied = after.1.0 ∙ ap some (registered_ok h _ s s' after.0 after.1.1) in
      sell_reserves h base quote m.fill_quantity m.buyer.order.price m.settlement_price bd qd
        s.tracker s'.tracker solvent differ
        (ap
            (λ side.
              apply_match h side base quote m.fill_quantity m.buyer.order.price m.settlement_price
                bd qd s.tracker)
            (sym sale)
          ∙ applied)
