-- ===== src/Settlement/Agreement.antt =====
-- crates/settlement/src/lib.rs against the set of matches in flight: the manager's map and the
-- tracker's pending amounts are two representations of it.
use deadmkt_node.Prelude.{
  ℕ, ◌≡◌, refl, subst, ◌∙◌, Bool, not, ◌&&◌, ◌||◌, some, List, [], ◌∷◌, String, string_eq,
  Bool-cases, Option-cases, inl, inr, arith,
}
use deadmkt_node.Maps.{lookup, contains, contains_key, contains_key-insert, contains_key-remove}
use deadmkt_node.Bytes.{Bytes}
use deadmkt_node.Matching.{Match}
use deadmkt_node.Escrow.Defs.{EscrowTracker, EscrowResult, ok, err, has_pending}
use deadmkt_node.Escrow.Pending.{
  has_pending-confirm_settlement, has_pending-release_pending, succeeded, apply_match-Adds,
}
use deadmkt_node.Escrow.Settlement.{some_inv}
use deadmkt_node.Settlement.Codes.{AbortCode}
use deadmkt_node.Settlement.Defs.{
  SettlementManager, PendingSettlement, release_pending_internal, register_match, registered,
  my_side, confirmed_key, route_abort, on_settlement_failed, count_failure,
}
use deadmkt_node.Settlement.Pending.{update_pending, release_all}

-- The matches in flight, and what may happen to them.
abbrev pub InFlight : Type 0
InFlight = String → Bool

pub data Change : Type 0 where
  stays : Change
  starts : (match_hash : String) → Change
  ends : (match_hashes : List String) → Change

unfoldable pub change : Change → InFlight → InFlight
unfolding contains
change stays v j = v j
change (starts match_hash) v j = v j || string_eq.beq match_hash j
change (ends match_hashes) v j = not (contains j match_hashes) && v j

-- Both representations hold the matches in flight.
pub record Shows (v : InFlight) (s : SettlementManager) : Type 0 where
  pub by_manager : (j : String) → contains_key j s.pending ≡ v j
  pub by_tracker : (j : String) → has_pending j s.tracker ≡ v j

-- The codes that leave a match in flight: the chain has settled it, or may yet.
abbrev pub ended_by : String → AbortCode → List String
ended_by match_hash AbortCode.already_settled = []
ended_by match_hash AbortCode.insufficient_balance = []
ended_by match_hash _ = match_hash ∷ []

pub release-Shows :
    (h : String) (v : InFlight) (s : SettlementManager)
    → Shows v s
    → Shows (change (ends (h ∷ [])) v) (release_pending_internal h s)
unfolding release_pending_internal change contains
release-Shows h v s sh = elim (Bool-cases (contains_key h s.pending)) [
  | inl here ↦ rw here (record {
    by_manager = λ j. ground (arith, sh.by_manager j, contains_key-remove h j s.pending);
    by_tracker = λ j. ground (arith, sh.by_tracker j, has_pending-release_pending h j s.tracker);
  })
  | inr gone ↦ rw gone (record {
    by_manager = λ j. ground (arith, string_eq.beq_iff h j, sh.by_manager h, sh.by_manager j);
    by_tracker = λ j. ground (arith, string_eq.beq_iff h j, sh.by_manager h, sh.by_tracker j);
  })
]

pub Shows-ext :
    (v w : InFlight) (s : SettlementManager) → ((j : String) → v j ≡ w j) → Shows v s → Shows w s
Shows-ext v w s same sh = record {
  by_manager = λ j. sh.by_manager j ∙ same j;
  by_tracker = λ j. sh.by_tracker j ∙ same j;
}

pub keeps-all : (v : InFlight) (j : String) → v j ≡ change (ends []) v j
unfolding change contains
keeps-all v j = refl

route_abort-Shows :
    (h : String) (code : AbortCode) (v : InFlight) (s : SettlementManager)
    → Shows v s
    → Shows (change (ends (ended_by h code)) v) (route_abort h code s).0
unfolding route_abort
route_abort-Shows h AbortCode.already_settled v s sh = Shows-ext v _ s (keeps-all v) sh
route_abort-Shows h AbortCode.insufficient_balance v s sh = Shows-ext v _ s (keeps-all v) sh
route_abort-Shows h AbortCode.buyer_inactive v s sh = release-Shows h v s sh
route_abort-Shows h AbortCode.seller_inactive v s sh = release-Shows h v s sh
route_abort-Shows h AbortCode.buyer_overfill v s sh = release-Shows h v s sh
route_abort-Shows h AbortCode.seller_overfill v s sh = release-Shows h v s sh
route_abort-Shows h AbortCode.nft_blocked v s sh = release-Shows h v s sh
route_abort-Shows h AbortCode.nft_burned v s sh = release-Shows h v s sh
route_abort-Shows h AbortCode.batch_too_old v s sh = release-Shows h v s sh
route_abort-Shows h AbortCode.quantity_too_small v s sh = release-Shows h v s sh
route_abort-Shows h AbortCode.self_trade v s sh = release-Shows h v s sh
route_abort-Shows h AbortCode.invalid_side v s sh = release-Shows h v s sh
route_abort-Shows h AbortCode.signature_verify_failed v s sh = release-Shows h v s sh
route_abort-Shows h AbortCode.market_not_active v s sh = release-Shows h v s sh
route_abort-Shows h AbortCode.quote_amount_zero v s sh = release-Shows h v s sh
route_abort-Shows h (AbortCode.other code) v s sh = release-Shows h v s sh

pub failed-Shows :
    (h : String) (code : AbortCode) (v : InFlight) (s : SettlementManager)
    → Shows v s
    → Shows (change (ends (ended_by h code)) v) (on_settlement_failed h code s).0
unfolding on_settlement_failed
failed-Shows h code v s sh =
    route_abort-Shows h code v (count_failure code s)
      (record { by_manager = sh.by_manager; by_tracker = sh.by_tracker })

pub update_pending-Shows :
    (h : String) (f : PendingSettlement → PendingSettlement) (v : InFlight) (s : SettlementManager)
    → Shows v s
    → Shows v (update_pending h f s)
update_pending-Shows h f v s sh = elim (Option-cases (lookup h s.pending)) [
  | inl absent ↦ rw absent sh
  | inr (ps, found) ↦ rw found (record {
    by_manager = λ j.
        ground
          (arith, string_eq.beq_iff h j, sh.by_manager j, contains_key-insert h j (f ps) s.pending);
    by_tracker = sh.by_tracker;
  })
]

ends-ends :
    (h : String) (keys : List String) (v : InFlight) (j : String)
    → change (ends keys) (change (ends (h ∷ [])) v) j ≡ change (ends (h ∷ keys)) v j
unfolding change contains
ends-ends h keys v j = ground arith

pub release_all-Shows :
    (keys : List String) (v : InFlight) (s : SettlementManager)
    → Shows v s
    → Shows (change (ends keys) v) (release_all keys s)
unfolding release_all
release_all-Shows [] v s sh = Shows-ext v _ s (keeps-all v) sh
release_all-Shows (h ∷ keys) v s sh =
    Shows-ext _ _ _ (λ j. ends-ends h keys v j)
      (release_all-Shows keys _ (release_pending_internal h s) (release-Shows h v s sh))

pub confirmed-Shows :
    (key : String) (v : InFlight) (s : SettlementManager)
    → Shows v s
    → Shows (change (ends (key ∷ [])) v) (confirmed_key s (some key)).0
unfolding change contains
confirmed-Shows key v s sh = record {
  by_manager = λ j. ground (arith, sh.by_manager j, contains_key-remove key j s.pending);
  by_tracker = λ j. ground (arith, sh.by_tracker j, has_pending-confirm_settlement key j s.tracker);
}

abbrev pub registers : String → EscrowResult → Change
registers h ok = starts h
registers h (err e) = stays

registered-Shows :
    (h : String) (ps : PendingSettlement) (v : InFlight) (s : SettlementManager)
    (a : EscrowTracker × EscrowResult)
    → ((j : String)
        → has_pending j a.0 ≡ (has_pending j s.tracker || (string_eq.beq h j && succeeded a.1)))
    → Shows v s
    → Shows (change (registers h (registered h ps s a).1) v) (registered h ps s a).0
unfolding change
registered-Shows h ps v s (t, ok) adds sh = record {
  by_manager = λ j. ground (arith, sh.by_manager j, contains_key-insert h j ps s.pending);
  by_tracker = λ j. ground (arith, sh.by_tracker j, adds j);
}
registered-Shows h ps v s (t, err e) adds sh = record {
  by_manager = λ j. sh.by_manager j;
  by_tracker = λ j. ground (arith, sh.by_tracker j, adds j);
}

module _ (hex_encode : Bytes → String) where
  pub register-Shows :
      (m : Match) (gas_payer : Bool) (start blocks : ℕ) (base quote : String) (bd qd : ℕ)
      (v : InFlight) (s s' : SettlementManager) (r : EscrowResult)
      → Shows v s
      → register_match hex_encode m gas_payer start blocks base quote bd qd s ≡ some (s', r)
      → Shows (change (registers (hex_encode m.match_hash) r) v) s'
  unfolding register_match
  register-Shows m gas_payer start blocks base quote bd qd v s s' r sh e =
      let h = hex_encode m.match_hash in
      let inverted = some_inv _ _ (s', r) e in
      subst (λ (y : SettlementManager × EscrowResult). Shows (change (registers h y.1) v) y.0)
        inverted.1.1
        (registered-Shows h _ v s inverted.0
          (λ j.
            apply_match-Adds h (my_side m s) base quote m.fill_quantity m.buyer.order.price
              m.settlement_price bd qd j s.tracker inverted.0.0 inverted.0.1 inverted.1.0)
          sh)
