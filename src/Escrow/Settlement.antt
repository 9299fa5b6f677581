-- ===== src/Escrow/Settlement.antt =====
-- What a match does to the projected balances, and how it is undone.
use deadmkt_node.Prelude.{
  ℕ, ◌≡◌, ◌≢◌, refl, ap, ap₂, ◌∙◌, subst, false, ltb, Option, none, some, [], ◌∷◌, String,
  string_eq, any, Bool-cases, Option-cases, ◌>>=◌, inl, inr, arith,
}
use deadmkt_node.Maps.{Map, lookup, insert, remove, contains_key, lookup-insert}
use deadmkt_node.Escrow.Defs.{
  EscrowResult, ok, err, Side, TokenBalance, EscrowTracker, entry, store, token_projected,
  reserve_outflow, track_inflow, released, each_balance, is_pending, release_pending, and_then,
  quote_amount, apply_match, has_pending,
}

-- Removing a key forgets what was inserted for it.
remove-insert : (k : String) (v : ℕ) (m : Map String ℕ) → remove k (insert k v m) ≡ remove k m
unfolding insert remove
remove-insert k v [] = ground (arith, string_eq.beq_iff k k)
remove-insert k v ((j, w) ∷ m) = ground (arith, string_eq.beq_iff k k, remove-insert k v m)

remove_absent : (k : String) (m : Map String ℕ) → contains_key k m ≡ false → remove k m ≡ m
unfolding remove lookup
remove_absent k [] h = refl
remove_absent k ((j, w) ∷ m) h = ground (arith, remove_absent k m)

-- What is left of the balances when everything pending for a match is removed.
abbrev erased : String → EscrowTracker → Map String TokenBalance
erased match_hash t = (each_balance released match_hash t.balances).0

each_balance-insert :
    (match_hash token : String) (b b' : TokenBalance) (m : Map String TokenBalance)
    → lookup token m ≡ some b
    → released match_hash b' ≡ released match_hash b
    → (each_balance released match_hash (insert token b' m)).0
      ≡ (each_balance released match_hash m).0
unfolding each_balance insert lookup
each_balance-insert match_hash token b b' [] q same = absurd (ground arith)
each_balance-insert match_hash token b b' ((j, c) ∷ m) q same =
    elim (Bool-cases (string_eq.beq j token)) [
      | inl t ↦
          let name : j ≡ token = (string_eq.beq_iff j token).0 t in
          let value : c ≡ b = ground arith in rw (t, ← name, value, same) refl
      | inr f ↦
          let rest = each_balance-insert match_hash token b b' m (ground arith) same in
          rw f (ap (λ r. (j, released match_hash c) ∷ r) rest)
    ]

each_balance_absent :
    (match_hash : String) (m : Map String TokenBalance)
    → any (λ (e : String × TokenBalance). is_pending match_hash e.1) m ≡ false
    → (each_balance released match_hash m).0 ≡ m
unfolding each_balance
each_balance_absent match_hash [] h = refl
each_balance_absent match_hash ((j, b) ∷ m) h =
    let out = remove_absent match_hash b.pending_out (ground arith) in
    let inn = remove_absent match_hash b.pending_in (ground arith) in
    let rest = each_balance_absent match_hash m (ground arith) in
    ap₂ (λ c r. (j, c) ∷ r) (ap₂ (λ o i. record b { pending_out = o; pending_in = i }) out inn) rest

-- The token has a balance.
abbrev IsKnown : String → EscrowTracker → Type 0
IsKnown token t = lookup token t.balances ≢ none

known→some :
    (token : String) (t : EscrowTracker)
    → IsKnown token t
    → lookup token t.balances ≡ some (entry token t)
known→some token t known = elim (Option-cases (lookup token t.balances)) [
  | inl q ↦ absurd (known q)
  | inr (b, q) ↦ rw q refl
]

erased-store :
    (match_hash token : String) (b' : TokenBalance) (t : EscrowTracker)
    → IsKnown token t
    → released match_hash b' ≡ released match_hash (entry token t)
    → erased match_hash (store token b' t) ≡ erased match_hash t
erased-store match_hash token b' t known same =
    each_balance-insert match_hash token (entry token t) b' t.balances (known→some token t known)
      same

IsKnown-store :
    (token other : String) (b : TokenBalance) (t : EscrowTracker)
    → IsKnown other t
    → IsKnown other (store token b t)
IsKnown-store token other b t known q = elim (Bool-cases (string_eq.beq token other)) [
  | inl same ↦ ground (arith, lookup-insert token other b t.balances)
  | inr differ ↦ known (ground (arith, lookup-insert token other b t.balances))
]

reserve-erased :
    (token match_hash : String) (amount : ℕ) (t : EscrowTracker)
    → IsKnown token t
    → erased match_hash (reserve_outflow token match_hash amount t).0 ≡ erased match_hash t
unfolding reserve_outflow
reserve-erased token match_hash amount t known =
    let b = entry token t in
    let same = erased-store match_hash token b t known refl in
    elim (Bool-cases (contains_key match_hash b.pending_out)) [
      | inl old ↦ rw old same
      | inr new ↦ rw new (elim (Bool-cases (ltb (token_projected b) amount)) [
        | inl poor ↦ rw poor same
        | inr rich ↦ rw rich (
            erased-store match_hash token
              (record b { pending_out = insert match_hash amount b.pending_out }) t known
              (ap (λ o. record (released match_hash b) { pending_out = o })
                (remove-insert match_hash amount b.pending_out)))
      ])
    ]

track-erased :
    (token match_hash : String) (amount : ℕ) (t : EscrowTracker)
    → IsKnown token t
    → erased match_hash (track_inflow token match_hash amount t).0 ≡ erased match_hash t
unfolding track_inflow
track-erased token match_hash amount t known =
    let b = entry token t in
    elim (Bool-cases (contains_key match_hash b.pending_in)) [
      | inl old ↦ rw old (erased-store match_hash token b t known refl)
      | inr new ↦ rw new (
          erased-store match_hash token
            (record b { pending_in = insert match_hash amount b.pending_in }) t known
            (ap (λ i. record (released match_hash b) { pending_in = i })
              (remove-insert match_hash amount b.pending_in)))
    ]

reserve-IsKnown :
    (token other match_hash : String) (amount : ℕ) (t : EscrowTracker)
    → IsKnown other t
    → IsKnown other (reserve_outflow token match_hash amount t).0
unfolding reserve_outflow
reserve-IsKnown token other match_hash amount t known =
    let b = entry token t in
    elim (Bool-cases (contains_key match_hash b.pending_out)) [
      | inl old ↦ rw old (IsKnown-store token other b t known)
      | inr new ↦ rw new (elim (Bool-cases (ltb (token_projected b) amount)) [
        | inl poor ↦ rw poor (IsKnown-store token other b t known)
        | inr rich ↦ rw rich (IsKnown-store token other _ t known)
      ])
    ]

-- Both legs of a match.
legs-erased :
    (out_token in_token match_hash : String) (outflow inflow : ℕ) (t : EscrowTracker)
    → IsKnown out_token t
    → IsKnown in_token t
    → erased match_hash
        (and_then
          (reserve_outflow out_token match_hash outflow t)
          (track_inflow in_token match_hash inflow)).0
      ≡ erased match_hash t
legs-erased out_token in_token match_hash outflow inflow t known_out known_in =
    let first = reserve-erased out_token match_hash outflow t known_out in
    let known = reserve-IsKnown out_token in_token match_hash outflow t known_in in
    go (reserve_outflow out_token match_hash outflow t) first known
  where
    go :
        (r : EscrowTracker × EscrowResult)
        → erased match_hash r.0 ≡ erased match_hash t
        → IsKnown in_token r.0
        → erased match_hash (and_then r (track_inflow in_token match_hash inflow)).0
          ≡ erased match_hash t
    go (t', ok) same known = track-erased in_token match_hash inflow t' known ∙ same
    go (t', err e) same known = same

-- What a computation on an option that gives a result went through.
pub some_inv :
    {A B : Type 0} (o : Option A) (f : A → B) (b : B)
    → (o >>= λ a. some (f a)) ≡ some b
    → (a : A) × ((o ≡ some a) × (f a ≡ b))
some_inv none f b h = absurd (ground arith)
some_inv (some a) f b h = (a, (refl, ground arith))

apply_match-erased :
    (match_hash : String) (side : Side) (base quote : String)
    (fill buyer_price price base_decimals quote_decimals : ℕ) (t t' : EscrowTracker)
    (r : EscrowResult)
    → IsKnown base t
    → IsKnown quote t
    → apply_match match_hash side base quote fill buyer_price price base_decimals quote_decimals t
      ≡ some (t', r)
    → erased match_hash t' ≡ erased match_hash t
unfolding apply_match
apply_match-erased h Side.buy base quote fill buyer_price price bd qd t t' r kb kq e =
    let legs = some_inv (quote_amount fill buyer_price bd qd) _ (t', r) e in
    subst (λ x. erased h x.0 ≡ erased h t) legs.1.1 (legs-erased quote base h legs.0 fill t kq kb)
apply_match-erased h Side.sell base quote fill buyer_price price bd qd t t' r kb kq e =
    let legs = some_inv (quote_amount fill price bd qd) _ (t', r) e in
    subst (λ x. erased h x.0 ≡ erased h t) legs.1.1 (legs-erased base quote h fill legs.0 t kb kq)

-- Where both tokens have a balance and nothing is pending under the hash of a match: whatever
-- `apply_match` answers for either side, an error after its first leg included, releasing the
-- match afterwards gives the very balances from before.
pub release-apply_match :
    (match_hash : String) (side : Side) (base quote : String)
    (fill buyer_price price base_decimals quote_decimals : ℕ) (t t' : EscrowTracker)
    (r : EscrowResult)
    → lookup base t.balances ≢ none
    → lookup quote t.balances ≢ none
    → has_pending match_hash t ≡ false
    → apply_match match_hash side base quote fill buyer_price price base_decimals quote_decimals t
      ≡ some (t', r)
    → (release_pending match_hash t').0 ≡ t
unfolding release_pending has_pending
release-apply_match h side base quote fill buyer_price price bd qd t t' r kb kq fresh e =
    ap (λ m. record { balances = m })
      (apply_match-erased h side base quote fill buyer_price price bd qd t t' r kb kq e
        ∙ each_balance_absent h t.balances fresh)
