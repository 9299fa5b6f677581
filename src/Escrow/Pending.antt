-- ===== src/Escrow/Pending.antt =====
-- crates/escrow_tracker/src/lib.rs: which matches the tracker counts as pending, through every
-- operation.
use deadmkt_node.Prelude.{
  ℕ, ◌≡◌, refl, subst, ap, ◌∙◌, Bool, true, false, not, ◌&&◌, ◌||◌, ltb, some, [], ◌∷◌, String,
  string_eq, any, Bool-cases, inl, inr, arith, if_rule,
}
use deadmkt_node.Maps.{
  Map, lookup, insert, contains_key, get_or, contains_key-insert, contains_key-remove,
  lookup-insert,
}
use deadmkt_node.Escrow.Defs.{
  EscrowError, EscrowResult, ok, err, duplicate_pending, insufficient_balance, Side, TokenBalance,
  EscrowTracker, empty_balance, entry, store, token_projected, set_confirmed, reserve_outflow,
  track_inflow, settled, released, each_balance, is_pending, confirm_settlement, release_pending,
  and_then, quote_amount, apply_match, has_pending,
}
use deadmkt_node.Escrow.Settlement.{some_inv}

abbrev pending_in_any : String → Map String TokenBalance → Bool
pending_in_any j m = any (λ (e : String × TokenBalance). is_pending j e.1) m

-- Storing a balance in which a match is pending, besides what was.
any-insert :
    (j token : String) (more : Bool) (b : TokenBalance) (m : Map String TokenBalance)
    → is_pending j b ≡ (is_pending j (get_or empty_balance (lookup token m)) || more)
    → pending_in_any j (insert token b m) ≡ (pending_in_any j m || more)
unfolding insert lookup
any-insert j token more b [] h = ground arith
any-insert j token more b ((i, c) ∷ m) h = elim (Bool-cases (string_eq.beq i token)) [
  | inl t ↦ ground arith
  | inr f ↦
      rw f
        (ap (λ r. is_pending j c || r) (any-insert j token more b m (ground arith)) ∙ ground arith)
]

any-each_balance :
    (body : String → TokenBalance → TokenBalance) (h j : String) (m : Map String TokenBalance)
    → ((b : TokenBalance) → is_pending j (body h b) ≡ (not (string_eq.beq h j) && is_pending j b))
    → pending_in_any j (each_balance body h m).0 ≡ (not (string_eq.beq h j) && pending_in_any j m)
unfolding each_balance
any-each_balance body h j [] drops = ground arith
any-each_balance body h j ((i, b) ∷ m) drops =
    ground (arith, drops b, any-each_balance body h j m drops)

is_pending-released :
    (h j : String) (b : TokenBalance)
    → is_pending j (released h b) ≡ (not (string_eq.beq h j) && is_pending j b)
is_pending-released h j b =
    ground (arith, contains_key-remove h j b.pending_out, contains_key-remove h j b.pending_in)

-- Confirming or releasing a match ends just that match.
pub has_pending-confirm_settlement :
    (h j : String) (t : EscrowTracker)
    → has_pending j (confirm_settlement h t).0 ≡ (not (string_eq.beq h j) && has_pending j t)
unfolding has_pending confirm_settlement
has_pending-confirm_settlement h j t =
    any-each_balance settled h j t.balances (is_pending-released h j)

pub has_pending-release_pending :
    (h j : String) (t : EscrowTracker)
    → has_pending j (release_pending h t).0 ≡ (not (string_eq.beq h j) && has_pending j t)
unfolding has_pending release_pending
has_pending-release_pending h j t =
    any-each_balance released h j t.balances (is_pending-released h j)

pub has_pending-set_confirmed :
    (token j : String) (amount : ℕ) (t : EscrowTracker)
    → has_pending j (set_confirmed token amount t) ≡ has_pending j t
unfolding has_pending set_confirmed
has_pending-set_confirmed token j amount t =
    any-insert j token false _ t.balances (ground arith) ∙ ground arith

abbrev pub succeeded : EscrowResult → Bool
succeeded ok = true
succeeded (err e) = false

-- What one leg adds to the pending matches.
abbrev Adds : String → String → EscrowTracker → EscrowTracker × EscrowResult → Type 0
Adds h j t r = has_pending j r.0 ≡ (has_pending j t || (string_eq.beq h j && succeeded r.1))

refused-Adds :
    (h j token : String) (t : EscrowTracker) (e : EscrowError)
    → Adds h j t (store token (entry token t) t, err e)
unfolding has_pending
refused-Adds h j token t e =
    any-insert j token false (entry token t) t.balances (ground arith) ∙ ground arith

accepted-Adds :
    (h j token : String) (b : TokenBalance) (t : EscrowTracker)
    → is_pending j b ≡ (is_pending j (entry token t) || string_eq.beq h j)
    → Adds h j t (store token b t, ok)
unfolding has_pending
accepted-Adds h j token b t more =
    any-insert j token (string_eq.beq h j) b t.balances more ∙ ground arith

reserve-Adds :
    (token h j : String) (amount : ℕ) (t : EscrowTracker)
    → Adds h j t (reserve_outflow token h amount t)
unfolding reserve_outflow
reserve-Adds token h j amount t =
    let b = entry token t in
    if_rule (Adds h j t) (contains_key h b.pending_out) _ _
      (λ old. refused-Adds h j token t (duplicate_pending h))
      (λ new.
        if_rule (Adds h j t) (ltb (token_projected b) amount) _ _
          (λ poor. refused-Adds h j token t (insufficient_balance amount (token_projected b)))
          (λ rich.
            accepted-Adds h j token _ t
              (ground (arith, contains_key-insert h j amount b.pending_out))))

track-Adds :
    (token h j : String) (amount : ℕ) (t : EscrowTracker)
    → Adds h j t (track_inflow token h amount t)
unfolding track_inflow
track-Adds token h j amount t =
    let b = entry token t in
    if_rule (Adds h j t) (contains_key h b.pending_in) _ _
      (λ old. refused-Adds h j token t (duplicate_pending h))
      (λ new.
        accepted-Adds h j token _ t (ground (arith, contains_key-insert h j amount b.pending_in)))

-- An inflow is refused only where the balance of its token has one for the match.
NoInflow : String → String → EscrowTracker → Type 0
NoInflow h token t = contains_key h (entry token t).pending_in ≡ false

track_ok :
    (token h : String) (amount : ℕ) (t : EscrowTracker)
    → NoInflow h token t
    → (track_inflow token h amount t).1 ≡ ok
unfolding track_inflow NoInflow
track_ok token h amount t fresh = ground arith

entry_fresh : (token h : String) (t : EscrowTracker) → has_pending h t ≡ false → NoInflow h token t
unfolding has_pending NoInflow lookup
entry_fresh token h t fresh = go t.balances fresh
  where
    go :
        (m : Map String TokenBalance)
        → pending_in_any h m ≡ false
        → contains_key h (get_or empty_balance (lookup token m)).pending_in ≡ false
    go [] none_pending = refl
    go ((i, b) ∷ m) none_pending = ground (arith, go m)

store-NoInflow :
    (token other h : String) (b : TokenBalance) (t : EscrowTracker)
    → b.pending_in ≡ (entry token t).pending_in
    → NoInflow h other t
    → NoInflow h other (store token b t)
unfolding NoInflow
store-NoInflow token other h b t same fresh =
    ground (arith, string_eq.beq_iff token other, lookup-insert token other b t.balances)

reserve-NoInflow :
    (token other h : String) (amount : ℕ) (t : EscrowTracker)
    → NoInflow h other t
    → NoInflow h other (reserve_outflow token h amount t).0
unfolding reserve_outflow
reserve-NoInflow token other h amount t fresh =
    let b = entry token t in
    let P : EscrowTracker × EscrowResult → Type 0 = λ r. NoInflow h other r.0 in
    let kept = store-NoInflow token other h b t refl fresh in
    if_rule P (contains_key h b.pending_out) _ _ (λ old. kept)
      (λ new.
        if_rule P (ltb (token_projected b) amount) _ _ (λ poor. kept)
          (λ rich. store-NoInflow token other h _ t refl fresh))

-- Both legs of a match add the match if they succeed, and change nothing else; a refusal of the
-- second leg leaves the first one only where the match was pending before.
legs-Adds :
    (out_token in_token h j : String) (outflow inflow : ℕ) (t : EscrowTracker)
    → Adds h j t (and_then (reserve_outflow out_token h outflow t) (track_inflow in_token h inflow))
legs-Adds out_token in_token h j outflow inflow t =
    go (reserve_outflow out_token h outflow t) (reserve-Adds out_token h j outflow t)
      (λ fresh. reserve-NoInflow out_token in_token h outflow t (entry_fresh in_token h t fresh))
  where
    go :
        (r : EscrowTracker × EscrowResult)
        → Adds h j t r
        → (has_pending h t ≡ false → NoInflow h in_token r.0)
        → Adds h j t (and_then r (track_inflow in_token h inflow))
    go (t', ok) adds fresh = ground (
      arith,
      string_eq.beq_iff h j,
      track-Adds in_token h j inflow t',
      track_ok in_token h inflow t',
    )
    go (t', err e) adds fresh = adds

-- `apply_match`, where it does not panic, adds the match if it succeeds and otherwise leaves the
-- pending matches as they were.
pub apply_match-Adds :
    (h : String) (side : Side) (base quote : String)
    (fill buyer_price price base_decimals quote_decimals : ℕ) (j : String) (t t' : EscrowTracker)
    (r : EscrowResult)
    → apply_match h side base quote fill buyer_price price base_decimals quote_decimals t
      ≡ some (t', r)
    → has_pending j t' ≡ (has_pending j t || (string_eq.beq h j && succeeded r))
unfolding apply_match
apply_match-Adds h Side.buy base quote fill buyer_price price bd qd j t t' r e =
    let legs = some_inv (quote_amount fill buyer_price bd qd) _ (t', r) e in
    subst (Adds h j t) legs.1.1 (legs-Adds quote base h j legs.0 fill t)
apply_match-Adds h Side.sell base quote fill buyer_price price bd qd j t t' r e =
    let legs = some_inv (quote_amount fill price bd qd) _ (t', r) e in
    subst (Adds h j t) legs.1.1 (legs-Adds base quote h j fill legs.0 t)
