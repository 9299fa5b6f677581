-- ===== src/Matching/Fills.antt =====
-- What every match of `generate_matches` satisfies, and that no order is filled beyond its
-- quantity.

use deadmkt_node.Prelude.{
  ℕ, ◌+◌, ◌-◌, ◌≤◌, ◌≡◌, refl, ap, true, ◌||◌, List, [], ◌∷◌, nat_eq, ◌==◌, if◌then◌else◌, min,
  sum_by, sum_by-append, arith, Bool-cases, inl, inr, bytes_eq, if_rule,
}
use deadmkt_node.Bytes.{Bytes}
use deadmkt_node.Crypto.{Libraries}
use deadmkt_node.Matching.Defs.{
  RevealedOrder, Match, Book, Terms, quantity, running, iterate, first_quantity, open_book,
  make_match, after_fill, is_empty, generate_matches,
}
use deadmkt_node.Matching.Rounds.{match_tops_rule, iterate_rule, closed_book_inv}

-- The quantity that the orders with one hash offer, and what of it the matches fill.
abbrev pub offered : Bytes → List RevealedOrder → ℕ
offered h = sum_by (λ r. if r.order_hash == h then quantity r else 0)

abbrev pub bought : Bytes → List Match → ℕ
bought h = sum_by (λ m. if m.buyer.order_hash == h then m.fill_quantity else 0)

abbrev pub sold : Bytes → List Match → ℕ
sold h = sum_by (λ m. if m.seller.order_hash == h then m.fill_quantity else 0)

-- What a book still offers: the top order counts with its remaining quantity.
abbrev pub left : Bytes → ℕ → List RevealedOrder → ℕ
left h remaining [] = 0
left h remaining (r ∷ rest) = (if r.order_hash == h then remaining else 0) + offered h rest

left-first : (h : Bytes) (l : List RevealedOrder) → left h (first_quantity l) l ≡ offered h l
left-first h [] = refl
left-first h (r ∷ rest) = refl

left-le-advance :
    (h : Bytes) (remaining : ℕ) (r : RevealedOrder) (rest l : List RevealedOrder)
    → l ≡ r ∷ rest
    → left h (first_quantity rest) rest ≤ left h remaining l
left-le-advance h remaining r rest l e = rw e (omega (arith, left-first h rest))

-- After a fill of `q` the book offers `q` less of the top order.
left-fill :
    (h : Bytes) (remaining q : ℕ) (r : RevealedOrder) (rest : List RevealedOrder)
    → q ≤ remaining
    → left h
          (if (remaining - q) == 0 then first_quantity rest else remaining - q)
          (if (remaining - q) == 0 then rest else r ∷ rest)
        + (if r.order_hash == h then q else 0)
      ≡ left h remaining (r ∷ rest)
left-fill h remaining q r rest le = elim (Bool-cases ((remaining - q) == 0)) [
  | inl e ↦ rw e (ground (arith, left-first h rest))
  | inr e ↦ rw e (ground arith)
]

module _ (lib : Libraries) (terms : Terms) (buys sells : List RevealedOrder) where
  -- The fills of each order and what is left of it never exceed what it offers.
  record Conserves (h : Bytes) (s : Book) : Type 0 where
    buy_side : bought h s.matches + left h s.buy_remaining s.buys ≤ offered h buys
    sell_side : sold h s.matches + left h s.sell_remaining s.sells ≤ offered h sells

  Conserves-iterate :
      (h : Bytes) (s : Book) → Conserves h s → running s ≡ true → Conserves h (iterate lib terms s)
  unfolding make_match
  Conserves-iterate h s c = iterate_rule lib terms (Conserves h) s λ b bs a as_ eb ea _.
      match_tops_rule lib terms (Conserves h) s b bs a as_
        (record {
          buy_side = omega (arith, c.buy_side, left-le-advance h s.buy_remaining b bs s.buys eb);
          sell_side = c.sell_side;
        })
        (record {
          buy_side = c.buy_side;
          sell_side =
              omega (arith, c.sell_side, left-le-advance h s.sell_remaining a as_ s.sells ea);
        })
        (λ _ _. filled b bs a as_ eb ea)
    where
      filled :
          (b : RevealedOrder) (bs : List RevealedOrder) (a : RevealedOrder)
          (as_ : List RevealedOrder)
          → s.buys ≡ b ∷ bs
          → s.sells ≡ a ∷ as_
          → Conserves h (after_fill lib terms s b bs a as_ (min s.buy_remaining s.sell_remaining))
      filled b bs a as_ eb ea =
          let q = min s.buy_remaining s.sell_remaining in
          let m = make_match lib terms b a q in
          record {
            buy_side = omega (
              arith,
              c.buy_side,
              ap (left h s.buy_remaining) eb,
              left-fill h s.buy_remaining q b bs (omega arith),
              sum_by-append (λ m. if m.buyer.order_hash == h then m.fill_quantity else 0) s.matches
                  (m ∷ []),
            );
            sell_side = omega (
              arith,
              c.sell_side,
              ap (left h s.sell_remaining) ea,
              left-fill h s.sell_remaining q a as_ (omega arith),
              sum_by-append (λ m. if m.seller.order_hash == h then m.fill_quantity else 0) s.matches
                  (m ∷ []),
            );
          }

  Conserves-open : (h : Bytes) → Conserves h (open_book buys sells)
  Conserves-open h = record {
    buy_side = omega (arith, left-first h buys);
    sell_side = omega (arith, left-first h sells);
  }

  -- No order is filled beyond its quantity: under each order hash the matches buy at most what the
  -- buys with that hash offer, and sell at most what the sells with that hash offer.
  pub fills-le-offered :
      (h : Bytes)
      → (bought h (generate_matches lib terms buys sells) ≤ offered h buys)
        × (sold h (generate_matches lib terms buys sells) ≤ offered h sells)
  unfolding generate_matches
  fills-le-offered h =
      if_rule (λ ms. (bought h ms ≤ offered h buys) × (sold h ms ≤ offered h sells))
        (is_empty buys || is_empty sells) _ _ (λ _. (omega arith, omega arith))
        (λ _.
          let c =
            (closed_book_inv lib terms (Conserves h) buys sells (Conserves-iterate h)
              (Conserves-open h)).0 in
          (omega (arith, c.buy_side), omega (arith, c.sell_side)))
