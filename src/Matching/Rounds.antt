-- ===== src/Matching/Rounds.antt =====
-- The rounds of the matching loop, split into the ways in which one can end.
use deadmkt_node.Prelude.{
  ℕ, suc, ◌+◌, ◌≤◌, ◌<◌, ◌≡◌, refl, ap, true, false, List, [], ◌∷◌, ◌==◌, nat_eq, ltb, length, min,
  arith, run_loop_rule, if_rule, any, ◌&&◌, not, leb,
}
use deadmkt_node.Crypto.{Libraries}
use deadmkt_node.Matching.Defs.{
  RevealedOrder, Book, Terms, price, nft_id, running, iterate, match_heads, match_tops,
  skip_self_trade, skip_dust, advance_buy, advance_sell, after_fill, tops_cross, open_book,
  closed_book, can_trade,
}

module _ {ℓ} (lib : Libraries) (terms : Terms) (P : Book → Type ℓ) (s : Book) where
  heads_rule :
      (buys sells : List RevealedOrder)
      → ((b : RevealedOrder) (bs : List RevealedOrder) (a : RevealedOrder)
            (as_ : List RevealedOrder)
          → buys ≡ b ∷ bs
          → sells ≡ a ∷ as_
          → price a ≤ price b
          → P (match_tops lib terms s b bs a as_))
      → tops_cross buys sells ≡ true
      → P (match_heads lib terms s buys sells)
  heads_rule [] sells tops go = absurd (ground arith)
  heads_rule (b ∷ bs) [] tops go = absurd (ground arith)
  heads_rule (b ∷ bs) (a ∷ as_) tops go = tops b bs a as_ refl refl (ground arith)

  -- A round works on the two top orders, whose prices cross.
  pub iterate_rule :
      ((b : RevealedOrder) (bs : List RevealedOrder) (a : RevealedOrder) (as_ : List RevealedOrder)
        → s.buys ≡ b ∷ bs
        → s.sells ≡ a ∷ as_
        → price a ≤ price b
        → P (match_tops lib terms s b bs a as_))
      → running s ≡ true
      → P (iterate lib terms s)
  iterate_rule = heads_rule s.buys s.sells

  -- It passes the top buy, passes the top sell, or fills the two of them.
  pub match_tops_rule :
      (b : RevealedOrder) (bs : List RevealedOrder) (a : RevealedOrder) (as_ : List RevealedOrder)
      → P (advance_buy s bs)
      → P (advance_sell s as_)
      → ((nft_id b == nft_id a) ≡ false
          → terms.min_quantity ≤ min s.buy_remaining s.sell_remaining
          → P (after_fill lib terms s b bs a as_ (min s.buy_remaining s.sell_remaining)))
      → P (match_tops lib terms s b bs a as_)
  unfolding match_tops skip_self_trade skip_dust
  match_tops_rule b bs a as_ buy sell fill =
      if_rule P (nft_id b == nft_id a) _ _
        (λ _.
          if_rule P (any (can_trade b) (a ∷ as_) && not (any (λ c. can_trade c a) (b ∷ bs))) _ _
            (λ _. sell) (λ _. buy))
        (λ other.
          if_rule P (ltb (min s.buy_remaining s.sell_remaining) terms.min_quantity) _ _
            (λ _. if_rule P (leb s.buy_remaining s.sell_remaining) _ _ (λ _. buy) (λ _. sell))
            (λ enough. fill other (ground arith)))

-- The number of orders that the rest of the two books holds.
pub size : Book → ℕ
size s = length s.buys + length s.sells

module _ (lib : Libraries) (terms : Terms) where
  -- Every round passes at least one order.
  pub iterate_shrinks : (s : Book) → running s ≡ true → size (iterate lib terms s) < size s
  unfolding size
  iterate_shrinks s =
      iterate_rule lib terms (λ t. size t < size s) s
        λ b bs a as_ eb ea _.
          let lb : length s.buys ≡ suc (length bs) = ap length eb in
          let la : length s.sells ≡ suc (length as_) = ap length ea in
          match_tops_rule lib terms (λ t. size t < size s) s b bs a as_ (omega arith) (omega arith)
            (λ _ _. ground (arith, lb, la))

  -- What holds of the opened book and is kept by every round holds at the end, and there the loop
  -- has ended by its test.
  pub closed_book_inv {ℓ} :
      (P : Book → Type ℓ) (buys sells : List RevealedOrder)
      → ((s : Book) → P s → running s ≡ true → P (iterate lib terms s))
      → P (open_book buys sells)
      → P (closed_book lib terms buys sells) × (running (closed_book lib terms buys sells) ≡ false)
  unfolding closed_book size
  closed_book_inv P buys sells keep start =
      run_loop_rule running (iterate lib terms) P size (length buys + length sells + 1)
        (open_book buys sells) keep (λ s p go. iterate_shrinks s go) start (omega arith)

  -- The loop of the matching engine ends by its own test on any two books: one of them is used up, or
  -- the best prices no longer cross. The rounds that the model allows are never what stops it.
  pub generate_matches_ends :
      (buys sells : List RevealedOrder) → running (closed_book lib terms buys sells) ≡ false
  generate_matches_ends buys sells =
      (closed_book_inv (λ s. Unit {0}) buys sells (λ s p go. tt) tt).1
