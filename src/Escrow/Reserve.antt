-- ===== src/Escrow/Reserve.antt =====
-- When a reservation is accepted, and what the reservation of a match covers.
use deadmkt_node.Prelude.{
  ℕ, ◌+◌, ◌-◌, ◌*◌, ◌/◌, ◌%◌, ◌^◌, ◌≤◌, ◌<◌, ◌≡◌, ◌≢◌, ◌↔◌, refl, sym, ap, ◌∙◌, subst, false, ltb,
  none, some, String, string_eq, Bool-cases, zero, suc, div_or_panic, Option-cases, ◌>>=◌, inl, inr,
  some_inj, arith,
}
use deadmkt_node.Maps.{
  Map, lookup, insert, contains_key, get_or, lookup-insert, lookup-insert_self, lookup-insert_ne,
  sum_by-insert_new,
}
use deadmkt_node.Escrow.Defs.{
  EscrowResult, ok, err, Side, TokenBalance, EscrowTracker, entry, store, token_projected,
  reserve_outflow, track_inflow, projected, projected_or_zero, and_then, quote_amount, apply_match,
  empty_balance,
}
use deadmkt_node.Escrow.Solvency.{IsSolvent, entry-IsCovered, projected_lem}
use deadmkt_node.Escrow.Settlement.{some_inv}
use native.Mathlib.Nat.{
  mod-eq_of_lt, le-div_iff_mul-le, div-mul-le_self, div-lt_iff_lt-mul, le_trans, mul-le-mul_left,
}

contains_key-false : (k : String) (m : Map String ℕ) → contains_key k m ≡ false → lookup k m ≡ none
contains_key-false k m h = elim (Option-cases (lookup k m)) [
  | inl q ↦ q
  | inr (v, q) ↦ absurd (ground arith)
]

-- A reservation is accepted exactly when the match has none on the token and the projected balance
-- covers it. Where nothing is promised twice, an accepted one lowers the projected balance of the
-- token by exactly its amount, a refused one leaves it, and no other token's balance changes.
pub reserve_outflow_accepted :
    (token match_hash : String) (amount : ℕ) (t : EscrowTracker)
    → IsSolvent t
    → ((reserve_outflow token match_hash amount t).1 ≡ ok
        ↔ (contains_key match_hash (entry token t).pending_out ≡ false)
          × (amount ≤ token_projected (entry token t)))
      × ((reserve_outflow token match_hash amount t).1 ≡ ok
          → projected token (reserve_outflow token match_hash amount t).0 + amount
            ≡ token_projected (entry token t))
      × ((reserve_outflow token match_hash amount t).1 ≢ ok
          → projected token (reserve_outflow token match_hash amount t).0
            ≡ token_projected (entry token t))
      × ((other : String)
          → token ≢ other
          → lookup other (reserve_outflow token match_hash amount t).0.balances
            ≡ lookup other t.balances)
unfolding reserve_outflow projected
reserve_outflow_accepted token match_hash amount t s =
    let b = entry token t in
    elim (Bool-cases (contains_key match_hash b.pending_out)) [
      | inl old ↦ rw old (
        (ground arith, ground arith),
        ground arith,
        (λ h. ap projected_or_zero (lookup-insert_self token b t.balances)),
        (λ other ne. lookup-insert_ne token other b t.balances ne),
      )
      | inr new ↦ rw new (elim (Bool-cases (ltb (token_projected b) amount)) [
        | inl poor ↦ rw poor (
          (ground arith, ground arith),
          ground arith,
          (λ h. ap projected_or_zero (lookup-insert_self token b t.balances)),
          (λ other ne. lookup-insert_ne token other b t.balances ne),
        )
        | inr rich ↦ rw rich (
            let b' = record b { pending_out = insert match_hash amount b.pending_out } in
            let c = entry-IsCovered token t s in
            let sum =
              sum_by-insert_new (λ e. e.1) match_hash amount b.pending_out
                (contains_key-false match_hash b.pending_out new) in
            let left = projected_lem b c in
            let left' = projected_lem b' (ground arith, c.1) in
            (
              (ground arith, ground arith),
              (λ h.
                  ap (λ x. projected_or_zero x + amount) (lookup-insert_self token b' t.balances)
                  ∙ omega (arith, sum, left, left')),
              (λ h. absurd (h refl)),
              (λ other ne. lookup-insert_ne token other b' t.balances ne),
            ))
      ])
    ]

-- The reservation of a buyer.
reserved_lem :
    (token match_hash : String) (amount : ℕ) (t : EscrowTracker)
    → (reserve_outflow token match_hash amount t).1 ≡ ok
    → lookup match_hash (entry token (reserve_outflow token match_hash amount t).0).pending_out
      ≡ some amount
unfolding reserve_outflow
reserved_lem token match_hash amount t accepted =
    let b = entry token t in
    elim (Bool-cases (contains_key match_hash b.pending_out)) [
      | inl old ↦ absurd (ground arith)
      | inr new ↦ elim (Bool-cases (ltb (token_projected b) amount)) [
        | inl poor ↦ absurd (ground arith)
        | inr rich ↦
            rw (new, rich)
              (ap (λ x. lookup match_hash (get_or empty_balance x).pending_out)
                  (lookup-insert_self token _ t.balances)
                ∙ lookup-insert_self match_hash amount b.pending_out)
      ]
    ]

track_keeps :
    (token other match_hash : String) (amount : ℕ) (t : EscrowTracker)
    → (entry other (track_inflow token match_hash amount t).0).pending_out
      ≡ (entry other t).pending_out
unfolding track_inflow
track_keeps token other match_hash amount t =
    let b = entry token t in
    elim (Bool-cases (contains_key match_hash b.pending_in)) [
      | inl old ↦ rw old (stored b refl)
      | inr new ↦
          rw new (stored (record b { pending_in = insert match_hash amount b.pending_in }) refl)
    ]
  where
    stored :
        (b : TokenBalance)
        → b.pending_out ≡ (entry token t).pending_out
        → (entry other (store token b t)).pending_out ≡ (entry other t).pending_out
    stored b same = elim (Bool-cases (string_eq.beq token other)) [
      | inl hit ↦
          ap (λ x. (get_or empty_balance x).pending_out) (lookup-insert token other b t.balances)
          ∙ rw hit (
              subst (λ k. b.pending_out ≡ (entry k t).pending_out)
                ((string_eq.beq_iff token other).0 hit) same)
      | inr miss ↦
          ap (λ x. (get_or empty_balance x).pending_out) (lookup-insert token other b t.balances)
          ∙ rw miss refl
    ]

-- At a lower price the amount is no larger.
quote_amount_mono :
    (fill low high bd qd out : ℕ)
    → low ≤ high
    → fill * high < 2 ^ 64 * (10 ^ ((bd + 8 + 2 ^ 32 - qd) % 2 ^ 32) % 2 ^ 128)
    → quote_amount fill high bd qd ≡ some out
    → (cost : ℕ) × ((quote_amount fill low bd qd ≡ some cost) × (cost ≤ out))
unfolding quote_amount
quote_amount_mono fill low high bd qd out le small q =
    go (10 ^ ((bd + 8 + 2 ^ 32 - qd) % 2 ^ 32) % 2 ^ 128) small q
  where
    go :
        (d : ℕ)
        → fill * high < 2 ^ 64 * d
        → (div_or_panic (fill * high) d >>= λ q. some (q % 2 ^ 64)) ≡ some out
        → (cost : ℕ) × (((div_or_panic (fill * low) d >>= λ q. some (q % 2 ^ 64)) ≡ some cost)
            × (cost ≤ out))
    go zero small q = absurd (omega arith)
    go (suc d) small q = ((fill * low / suc d) % 2 ^ 64, (refl, below))
      where
        below : fill * low / suc d % 2 ^ 64 ≤ out
        below =
            let less : fill * low ≤ fill * high = mul-le-mul_left fill le in
            let top : fill * high / suc d < 2 ^ 64 = (div-lt_iff_lt-mul (omega arith)).1 small in
            let order : fill * low / suc d ≤ fill * high / suc d =
              (le-div_iff_mul-le (omega arith)).1
                (le_trans (div-mul-le_self (fill * low) (suc d)) less) in
            let exact : fill * high / suc d % 2 ^ 64 ≡ out = ground arith in
            let same : fill * high / suc d % 2 ^ 64 ≡ fill * high / suc d = mod-eq_of_lt top in
            let same' : fill * low / suc d % 2 ^ 64 ≡ fill * low / suc d =
              mod-eq_of_lt (omega (arith, order, top)) in
            omega (arith, order, exact, same, same')

quote_amount_exact :
    (fill price bd qd out : ℕ)
    → fill * price < 2 ^ 64 * (10 ^ ((bd + 8 + 2 ^ 32 - qd) % 2 ^ 32) % 2 ^ 128)
    → quote_amount fill price bd qd ≡ some out
    → out ≡ fill * price / (10 ^ ((bd + 8 + 2 ^ 32 - qd) % 2 ^ 32) % 2 ^ 128)
unfolding quote_amount
quote_amount_exact fill price bd qd out small q =
    go (10 ^ ((bd + 8 + 2 ^ 32 - qd) % 2 ^ 32) % 2 ^ 128) small q
  where
    go :
        (d : ℕ)
        → fill * price < 2 ^ 64 * d
        → (div_or_panic (fill * price) d >>= λ q. some (q % 2 ^ 64)) ≡ some out
        → out ≡ fill * price / d
    go zero small q = absurd (omega arith)
    go (suc d) small q = sym (some_inj q) ∙ mod-eq_of_lt ((div-lt_iff_lt-mul (omega arith)).1 small)

-- A buyer's match that is applied has reserved, on the quote token and under the hash of the match,
-- exactly what the fill costs at the buyer's own price, whatever the settlement price is; and that
-- is at least what it costs at any price up to the buyer's. The cost at the buyer's price fits in 64
-- bits.
pub buyer_reserve_covers :
    (match_hash base quote : String) (fill buyer_price price lower : ℕ)
    (base_decimals quote_decimals : ℕ) (t t' : EscrowTracker)
    → lower ≤ buyer_price
    → fill * buyer_price
      < 2 ^ 64 * (10 ^ ((base_decimals + 8 + 2 ^ 32 - quote_decimals) % 2 ^ 32) % 2 ^ 128)
    → apply_match match_hash Side.buy base quote fill buyer_price price base_decimals quote_decimals
        t
      ≡ some (t', ok)
    → (out cost : ℕ) × ((lookup match_hash (entry quote t').pending_out ≡ some out)
        × (out
            ≡ fill
              * buyer_price
              / (10 ^ ((base_decimals + 8 + 2 ^ 32 - quote_decimals) % 2 ^ 32) % 2 ^ 128))
        × (quote_amount fill lower base_decimals quote_decimals ≡ some cost)
        × (cost ≤ out))
unfolding apply_match
buyer_reserve_covers h base quote fill buyer_price price lower bd qd t t' le small e =
    let legs = some_inv (quote_amount fill buyer_price bd qd) _ (t', ok) e in
    let cost = quote_amount_mono fill lower buyer_price bd qd legs.0 le small legs.1.0 in
    (
      legs.0,
      cost.0,
      (
        go legs.0 (reserve_outflow quote h legs.0 t) refl legs.1.1,
        quote_amount_exact fill buyer_price bd qd legs.0 small legs.1.0,
        cost.1.0,
        cost.1.1,
      ),
    )
  where
    go :
        (out : ℕ) (r : EscrowTracker × EscrowResult)
        → reserve_outflow quote h out t ≡ r
        → and_then r (track_inflow base h fill) ≡ (t', ok)
        → lookup h (entry quote t').pending_out ≡ some out
    go out (t1, err x) s q = absurd (ground arith)
    go out (t1, ok) s q =
        ap (λ x. lookup h (entry quote x.0).pending_out) (sym q)
        ∙ ap (lookup h) (track_keeps base quote h fill t1)
        ∙ ap (λ x. lookup h (entry quote x.0).pending_out) (sym s)
        ∙ reserved_lem quote h out t (ap (λ x. x.1) s)
