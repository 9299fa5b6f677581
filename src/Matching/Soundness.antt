-- ===== src/Matching/Soundness.antt =====
-- Every match of `generate_matches` is a trade that both traders agreed to.
use mathlib.Core.List.{mem-cons, mem-cons_self, mem-cons_of_mem, not-mem-nil}
use mathlib.Core.Logic.Or
use native.Mathlib.Bridge.{le_prop}
use deadmkt_node.Prelude.{
  ℕ, ◌+◌, ◌-◌, ◌/◌, u64_add, ◌≤◌, ◌<◌, ◌^◌, ◌≡◌, ◌≢◌, ◌⊎◌, refl, subst, true, false, ◌||◌, List, [],
  ◌∷◌, nat_eq, ◌==◌, min, All, All-append, All-map, arith, Bool-cases, inl, inr, Mem, if_rule,
}
use deadmkt_node.Bytes.{lex_ltb}
use deadmkt_node.Crypto.{Libraries}
use deadmkt_node.Matching.Defs.{
  RevealedOrder, Match, Book, Terms, price, nft_id, running, iterate, make_match, is_empty,
  generate_matches, determine_gas_payer,
}
use deadmkt_node.Matching.Rounds.{match_tops_rule, iterate_rule, closed_book_inv}

-- A trade between an order of each book.
pub record IsTrade (terms : Terms) (buys sells : List RevealedOrder) (m : Match) : Type 0 where
  pub of_symbol : m.symbol ≡ terms.symbol
  pub buyer_in : Mem m.buyer buys
  pub seller_in : Mem m.seller sells
  -- different traders
  pub distinct : nft_id m.buyer ≢ nft_id m.seller
  pub crosses : price m.seller ≤ price m.buyer
  pub midpoint : m.settlement_price ≡ u64_add (price m.buyer) (price m.seller) / 2
  pub enough : terms.min_quantity ≤ m.fill_quantity
  -- the trader of the lower hash pays the gas
  pub gas :
      ((lex_ltb m.buyer.order_hash m.seller.order_hash ≡ true)
        × (m.gas_payer_nft_id ≡ nft_id m.buyer))
      ⊎ ((lex_ltb m.buyer.order_hash m.seller.order_hash ≡ false)
          × (m.gas_payer_nft_id ≡ nft_id m.seller))

All-self {ℓ} : {A : Type ℓ} (l : List A) → All (λ a. Mem a l) l
All-self [] = tt
All-self (x ∷ xs) = (mem-cons_self, All-map (λ a m. mem-cons_of_mem x m) xs (All-self xs))

module _ (lib : Libraries) (terms : Terms) (buys sells : List RevealedOrder) where
  record Sound (s : Book) : Type 0 where
    buys_in : All (λ r. Mem r buys) s.buys
    sells_in : All (λ r. Mem r sells) s.sells
    trades : All (IsTrade terms buys sells) s.matches

  make_match-IsTrade :
      (b a : RevealedOrder) (q : ℕ)
      → Mem b buys
      → Mem a sells
      → (nft_id b == nft_id a) ≡ false
      → price a ≤ price b
      → terms.min_quantity ≤ q
      → IsTrade terms buys sells (make_match lib terms b a q)
  unfolding make_match determine_gas_payer
  make_match-IsTrade b a q mb ma other cross enough = record {
    of_symbol = refl;
    buyer_in = mb;
    seller_in = ma;
    distinct = λ e. ground arith;
    crosses = cross;
    midpoint = refl;
    enough = enough;
    gas = elim (Bool-cases (lex_ltb b.order_hash a.order_hash)) [
      | inl e ↦ inl (e, ground arith)
      | inr e ↦ inr (e, ground arith)
    ];
  }

  Sound-iterate : (s : Book) → Sound s → running s ≡ true → Sound (iterate lib terms s)
  Sound-iterate s v = iterate_rule lib terms Sound s λ b bs a as_ eb ea cross.
      let mb : All (λ r. Mem r buys) (b ∷ bs) = subst (All (λ r. Mem r buys)) eb v.buys_in in
      let ma : All (λ r. Mem r sells) (a ∷ as_) = subst (All (λ r. Mem r sells)) ea v.sells_in in
      match_tops_rule lib terms Sound s b bs a as_
        (record { buys_in = mb.1; sells_in = v.sells_in; trades = v.trades })
        (record { buys_in = v.buys_in; sells_in = ma.1; trades = v.trades })
        (λ other enough.
          let q = min s.buy_remaining s.sell_remaining in
          record {
            buys_in =
                if_rule (All (λ r. Mem r buys)) ((s.buy_remaining - q) == 0) bs (b ∷ bs) (λ _. mb.1)
                  (λ _. mb);
            sells_in =
                if_rule (All (λ r. Mem r sells)) ((s.sell_remaining - q) == 0) as_ (a ∷ as_)
                  (λ _. ma.1) (λ _. ma);
            trades =
                All-append (IsTrade terms buys sells) s.matches _ v.trades
                  (make_match-IsTrade b a _ mb.0 ma.0 other cross enough, tt);
          })

  -- Every match is a trade between an order of each book: of two different traders, at crossing
  -- prices, settled at the wrapped midpoint of the prices, of at least the market's minimum
  -- quantity, with the gas on the trader of the lower hash.
  pub matches-IsTrade : All (IsTrade terms buys sells) (generate_matches lib terms buys sells)
  unfolding generate_matches
  matches-IsTrade =
      if_rule (All (IsTrade terms buys sells)) (is_empty buys || is_empty sells) _ _ (λ _. tt)
        (λ _.
          (closed_book_inv lib terms Sound buys sells Sound-iterate
            (record { buys_in = All-self buys; sells_in = All-self sells; trades = tt })).0.trades)

  price_bound :
      (n : ℕ) (r : RevealedOrder) (l : List RevealedOrder)
      → All (λ c. price c < n) l
      → Mem r l
      → price r < n
  price_bound n r [] h m = absurd (not-mem-nil m)
  price_bound n r (x ∷ xs) h m =
      Or.elim le_prop (mem-cons.0 m) (λ e. rw e h.0) (price_bound n r xs h.1)

  -- With all prices below 2 ^ 63 no buyer pays more than the own price and no seller gets less.
  pub settles_within_prices :
      All (λ r. price r < 2 ^ 63) buys
      → All (λ r. price r < 2 ^ 63) sells
      → All
          (λ m. (price m.seller ≤ m.settlement_price) × (m.settlement_price ≤ price m.buyer))
          (generate_matches lib terms buys sells)
  settles_within_prices hb hs =
      All-map {P = IsTrade terms buys sells}
        (λ m t.
          let pb = price_bound (2 ^ 63) m.buyer buys hb t.buyer_in in
          let ps = price_bound (2 ^ 63) m.seller sells hs t.seller_in in
          (omega (arith, t.midpoint, t.crosses), omega (arith, t.midpoint, t.crosses)))
        (generate_matches lib terms buys sells) matches-IsTrade

-- Where two 64-bit prices add up beyond 64 bits, the release build settles below the price of the
-- seller.
pub overflow_undersells :
    (lib : Libraries) (terms : Terms) (b a : RevealedOrder) (q : ℕ)
    → price b < 2 ^ 64
    → price a < 2 ^ 64
    → 2 ^ 64 ≤ price b + price a
    → (make_match lib terms b a q).settlement_price < price a
unfolding make_match
overflow_undersells lib terms b a q hb ha over = omega arith
