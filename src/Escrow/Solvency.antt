-- ===== src/Escrow/Solvency.antt =====
-- No token is promised twice.
use deadmkt_node.Prelude.{
  ℕ, ◌+◌, ◌^◌, ◌≤◌, ◌<◌, ◌≡◌, Bool, ltb, some, [], ◌∷◌, String, string_eq, sum_by, All, All-map,
  u64_add, Bool-cases, Option-cases, inl, inr, arith,
}
use deadmkt_node.Maps.{
  Map, lookup, remove, contains_key, get_or, insert-All, lookup-All, sum_by-insert_new,
}
use deadmkt_node.Escrow.Defs.{
  TokenBalance, EscrowTracker, entry, store, total, new_tracker, token_projected, set_confirmed,
  reserve_outflow, track_inflow, settled, released, each_balance, confirm_settlement,
  release_pending, earmark_withdrawal, release_earmark, without_earmark, projected,
}
use native.Mathlib.Nat.{mod-eq_of_lt}

-- What is set aside is held, and the balance is a `u64`.
abbrev pub IsCovered : TokenBalance → Type 0
IsCovered b = (sum_by (λ e. e.1) b.pending_out + b.earmarked ≤ b.confirmed) × (b.confirmed < 2 ^ 64)

abbrev pub IsSolvent : EscrowTracker → Type 0
IsSolvent t = All (λ (e : String × TokenBalance). IsCovered e.1) t.balances

pub entry-IsCovered : (token : String) (t : EscrowTracker) → IsSolvent t → IsCovered (entry token t)
entry-IsCovered token t s = elim (Option-cases (lookup token t.balances)) [
  | inl q ↦ rw q (omega arith, omega arith)
  | inr (b, q) ↦ rw q (lookup-All (λ e. IsCovered e.1) token b t.balances s q)
]

store-IsSolvent :
    (token : String) (b : TokenBalance) (t : EscrowTracker)
    → IsCovered b
    → IsSolvent t
    → IsSolvent (store token b t)
store-IsSolvent token b t c s = insert-All (λ e. IsCovered e.1) token b t.balances c s

-- On a covered balance the sums do not wrap.
pub projected_lem :
    (b : TokenBalance)
    → IsCovered b
    → token_projected b + sum_by (λ e. e.1) b.pending_out + b.earmarked ≡ b.confirmed
unfolding token_projected
projected_lem b c =
    let same : total b.pending_out ≡ sum_by (λ e. e.1) b.pending_out = mod-eq_of_lt (omega arith) in
    omega arith

sum_by-remove :
    (k : String) (m : Map String ℕ) → sum_by (λ e. e.1) (remove k m) ≤ sum_by (λ e. e.1) m
unfolding remove
sum_by-remove k [] = omega arith
sum_by-remove k ((j, v) ∷ m) = ground (arith, sum_by-remove k m)

reserve-IsSolvent :
    (token match_hash : String) (amount : ℕ) (t : EscrowTracker)
    → IsSolvent t
    → IsSolvent (reserve_outflow token match_hash amount t).0
unfolding reserve_outflow
reserve-IsSolvent token match_hash amount t s =
    let b = entry token t in
    let c = entry-IsCovered token t s in
    elim (Option-cases (lookup match_hash b.pending_out)) [
      | inr (v, q) ↦ rw q (store-IsSolvent token b t c s)
      | inl q ↦ rw q (elim (Bool-cases (ltb (token_projected b) amount)) [
        | inl poor ↦ rw poor (store-IsSolvent token b t c s)
        | inr rich ↦ rw rich (
            store-IsSolvent token _ t
              (let more = sum_by-insert_new (λ e. e.1) match_hash amount b.pending_out q in
                (ground (arith, more, projected_lem b c), c.1))
              s)
      ])
    ]

track-IsSolvent :
    (token match_hash : String) (amount : ℕ) (t : EscrowTracker)
    → IsSolvent t
    → IsSolvent (track_inflow token match_hash amount t).0
unfolding track_inflow
track-IsSolvent token match_hash amount t s =
    let c = entry-IsCovered token t s in
    elim (Bool-cases (contains_key match_hash (entry token t).pending_in)) [
      | inl old ↦ rw old (store-IsSolvent token (entry token t) t c s)
      | inr new ↦ rw new (store-IsSolvent token _ t c s)
    ]

earmark-IsSolvent :
    (token : String) (amount : ℕ) (t : EscrowTracker)
    → IsSolvent t
    → IsSolvent (earmark_withdrawal token amount t).0
unfolding earmark_withdrawal
earmark-IsSolvent token amount t s =
    let b = entry token t in
    let c = entry-IsCovered token t s in
    elim (Bool-cases (ltb (token_projected b) amount)) [
      | inl poor ↦ rw poor (store-IsSolvent token b t c s)
      | inr rich ↦ rw rich (store-IsSolvent token _ t (ground (arith, projected_lem b c), c.1) s)
    ]

-- A withdrawal that was executed had been earmarked.
release_earmark-IsSolvent :
    (token : String) (amount : ℕ) (executed : Bool) (t : EscrowTracker)
    → amount ≤ (entry token t).earmarked
    → IsSolvent t
    → IsSolvent (release_earmark token amount executed t).0
unfolding release_earmark
release_earmark-IsSolvent token amount executed t held s =
    elim (Option-cases (lookup token t.balances)) [
      | inl q ↦ rw q s
      | inr (b, q) ↦
          let c : IsCovered b = lookup-All (λ e. IsCovered e.1) token b t.balances s q in
          let enough : amount ≤ b.earmarked = rw q at held in
          rw q (
            store-IsSolvent token (without_earmark amount executed b) t (ground arith, ground arith)
              s)
    ]

each_balance-IsSolvent :
    (body : String → TokenBalance → TokenBalance) (match_hash : String)
    (m : Map String TokenBalance)
    → All (λ e. IsCovered (body match_hash e.1)) m
    → All (λ e. IsCovered e.1) (each_balance body match_hash m).0
unfolding each_balance
each_balance-IsSolvent body match_hash [] h = tt
each_balance-IsSolvent body match_hash ((token, b) ∷ m) h =
    (h.0, each_balance-IsSolvent body match_hash m h.1)

release-IsSolvent :
    (match_hash : String) (t : EscrowTracker)
    → IsSolvent t
    → IsSolvent (release_pending match_hash t).0
unfolding release_pending
release-IsSolvent match_hash t s = each_balance-IsSolvent released match_hash t.balances (
    All-map (λ e c. (omega (arith, sum_by-remove match_hash e.1.pending_out, c.0), c.1)) t.balances
      s)

-- What a settlement pays in still is a `u64`.
abbrev pub HasRoom : String → EscrowTracker → Type 0
HasRoom match_hash t =
    All
      (λ (e : String × TokenBalance).
        e.1.confirmed + get_or 0 (lookup match_hash e.1.pending_in) < 2 ^ 64)
      t.balances

settle-All :
    (match_hash : String) (m : Map String TokenBalance)
    → All (λ e. IsCovered e.1) m
    → All (λ e. e.1.confirmed + get_or 0 (lookup match_hash e.1.pending_in) < 2 ^ 64) m
    → All (λ e. IsCovered (settled match_hash e.1)) m
settle-All match_hash [] s h = tt
settle-All match_hash ((token, b) ∷ m) s h =
    let fits : u64_add b.confirmed (get_or 0 (lookup match_hash b.pending_in))
        ≡ b.confirmed + get_or 0 (lookup match_hash b.pending_in) =
      mod-eq_of_lt h.0 in
    (
      (
        omega (arith, fits, sum_by-remove match_hash b.pending_out, s.0.0),
        omega (arith, fits, h.0),
      ),
      settle-All match_hash m s.1 h.1,
    )

confirm-IsSolvent :
    (match_hash : String) (t : EscrowTracker)
    → HasRoom match_hash t
    → IsSolvent t
    → IsSolvent (confirm_settlement match_hash t).0
unfolding confirm_settlement
confirm-IsSolvent match_hash t room s =
    each_balance-IsSolvent settled match_hash t.balances (settle-All match_hash t.balances s room)

-- A run of the tracker. A read of the chain shows no less than what is set aside.
pub data Step : EscrowTracker → EscrowTracker → Type 0 where
  reads :
      (token : String) (amount : ℕ) (t : EscrowTracker)
      → sum_by (λ e. e.1) (entry token t).pending_out + (entry token t).earmarked ≤ amount
      → amount < 2 ^ 64
      → Step t (set_confirmed token amount t)
  reserves :
      (token match_hash : String) (amount : ℕ) (t : EscrowTracker)
      → Step t (reserve_outflow token match_hash amount t).0
  tracks :
      (token match_hash : String) (amount : ℕ) (t : EscrowTracker)
      → Step t (track_inflow token match_hash amount t).0
  confirms :
      (match_hash : String) (t : EscrowTracker)
      → HasRoom match_hash t
      → Step t (confirm_settlement match_hash t).0
  releases : (match_hash : String) (t : EscrowTracker) → Step t (release_pending match_hash t).0
  earmarks :
      (token : String) (amount : ℕ) (t : EscrowTracker)
      → Step t (earmark_withdrawal token amount t).0
  frees :
      (token : String) (amount : ℕ) (executed : Bool) (t : EscrowTracker)
      → amount ≤ (entry token t).earmarked
      → Step t (release_earmark token amount executed t).0

Step-IsSolvent : {t t' : EscrowTracker} → Step t t' → IsSolvent t → IsSolvent t'
unfolding set_confirmed
Step-IsSolvent (reads token amount t enough small) s =
    store-IsSolvent token (record (entry token t) { confirmed = amount }) t (enough, small) s
Step-IsSolvent (reserves token match_hash amount t) s =
    reserve-IsSolvent token match_hash amount t s
Step-IsSolvent (tracks token match_hash amount t) s = track-IsSolvent token match_hash amount t s
Step-IsSolvent (confirms match_hash t room) s = confirm-IsSolvent match_hash t room s
Step-IsSolvent (releases match_hash t) s = release-IsSolvent match_hash t s
Step-IsSolvent (earmarks token amount t) s = earmark-IsSolvent token amount t s
Step-IsSolvent (frees token amount executed t held) s =
    release_earmark-IsSolvent token amount executed t held s

pub data Reach : EscrowTracker → Type 0 where
  starts : Reach new_tracker
  goes : {t t' : EscrowTracker} → Reach t → Step t t' → Reach t'

reach_lem : {t : EscrowTracker} → Reach t → IsSolvent t
reach_lem starts = tt
reach_lem (goes r step) = Step-IsSolvent step (reach_lem r)

-- In every state that the operations reach, for a token with a balance, the reserved outflows and
-- the earmarked amount together are at most the confirmed balance, and the projected balance is
-- exactly what is left of it. The steps are all the operations, their errors included, where a
-- balance read from the chain covers what is set aside, a payment fits in 64 bits, and an earmark
-- is released for at most what was earmarked.
pub Reach-covered :
    {t : EscrowTracker} (token : String) (b : TokenBalance)
    → Reach t
    → lookup token t.balances ≡ some b
    → (sum_by (λ e. e.1) b.pending_out + b.earmarked ≤ b.confirmed)
      × (projected token t + sum_by (λ e. e.1) b.pending_out + b.earmarked ≡ b.confirmed)
unfolding projected
Reach-covered {t} token b r q =
    let c : IsCovered b = lookup-All (λ e. IsCovered e.1) token b t.balances (reach_lem r) q in
    (c.0, rw q (projected_lem b c))
