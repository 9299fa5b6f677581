-- ===== src/Matching/Liveness.antt =====
-- The loop does not end empty-handed while two traders could trade.
use deadmkt_node.Prelude.{
  ℕ, ◌≤◌, ◌<◌, ◌≡◌, ◌≢◌, ◌⊎◌, refl, ap, ◌∙◌, subst, Bool, true, false, ◌||◌, ◌&&◌, not, List, [],
  ◌∷◌, ◌++◌, nat_eq, ◌==◌, if◌then◌else◌, min, any, ltb, All, arith, Bool-cases, inl, inr, if_rule,
}
use deadmkt_node.Crypto.{Libraries}
use deadmkt_node.Matching.Defs.{
  RevealedOrder, Book, Terms, price, quantity, nft_id, running, iterate, open_book, match_tops,
  tops_cross, first_quantity, is_empty, generate_matches, closed_book, can_trade, skip_self_trade,
  skip_dust,
}
use deadmkt_node.Matching.Rounds.{match_tops_rule, iterate_rule, closed_book_inv}

-- Best price first, on each side.
abbrev pub Descends : List RevealedOrder → Type 0
Descends [] = Unit
Descends (b ∷ bs) = All (λ c. price c ≤ price b) bs × Descends bs

abbrev pub Ascends : List RevealedOrder → Type 0
Ascends [] = Unit
Ascends (a ∷ as_) = All (λ c. price a ≤ price c) as_ × Ascends as_

-- Some buy of the list can trade with the sell.
abbrev buy_for : List RevealedOrder → RevealedOrder → Bool
buy_for bs a = any (λ c. can_trade c a) bs

abbrev sell_for : List RevealedOrder → RevealedOrder → Bool
sell_for as_ b = any (λ c. can_trade b c) as_

-- Some buy and some sell can trade.
abbrev pub some_trade : List RevealedOrder → List RevealedOrder → Bool
some_trade buys sells = any (λ b. any (λ a. can_trade b a) sells) buys

any-cons_sells :
    (bs as_ : List RevealedOrder) (a : RevealedOrder)
    → some_trade bs (a ∷ as_) ≡ buy_for bs a || some_trade bs as_
any-cons_sells [] as_ a = refl
any-cons_sells (b ∷ bs) as_ a = ground (arith, any-cons_sells bs as_ a)

-- The rule for two orders of one trader keeps a possible trade in the books.
self_trade_keeps :
    (b a : RevealedOrder) (bs as_ : List RevealedOrder)
    → (nft_id b == nft_id a) ≡ true
    → some_trade (b ∷ bs) (a ∷ as_) ≡ true
    → (if sell_for (a ∷ as_) b && not (buy_for (b ∷ bs) a)
        then some_trade (b ∷ bs) as_
        else some_trade bs (a ∷ as_))
      ≡ true
self_trade_keeps b a bs as_ same trade = ground (arith, any-cons_sells bs as_ a)

too_dear :
    (p : ℕ) (b : RevealedOrder) (as_ : List RevealedOrder)
    → price b < p
    → All (λ c. p ≤ price c) as_
    → sell_for as_ b ≡ false
too_dear p b [] h l = refl
too_dear p b (a ∷ as_) h l = ground (arith, too_dear p b as_ h l.1)

no_trade :
    (p : ℕ) (bs as_ : List RevealedOrder)
    → All (λ c. price c < p) bs
    → All (λ c. p ≤ price c) as_
    → some_trade bs as_ ≡ false
no_trade p [] as_ hb ha = refl
no_trade p (b ∷ bs) as_ hb ha = ground (arith, too_dear p b as_ hb.0 ha, no_trade p bs as_ hb.1 ha)

All-below :
    (p q : ℕ) (l : List RevealedOrder) → p < q → All (λ c. price c ≤ p) l → All (λ c. price c < q) l
All-below p q [] h l = tt
All-below p q (r ∷ rs) h l = (omega (arith, l.0), All-below p q rs h l.1)

no_sells : (l : List RevealedOrder) → some_trade l [] ≡ true → ⊥
no_sells [] t = ground arith
no_sells (b ∷ bs) t = no_sells bs t

-- In sorted books a possible trade makes the two top prices cross.
trade-tops_cross :
    (buys sells : List RevealedOrder)
    → Descends buys
    → Ascends sells
    → some_trade buys sells ≡ true
    → tops_cross buys sells ≡ true
trade-tops_cross [] sells d s t = ground arith
trade-tops_cross (b ∷ bs) [] d s t = absurd (no_sells (b ∷ bs) t)
trade-tops_cross (b ∷ bs) (a ∷ as_) d s t = elim (Bool-cases (ltb (price b) (price a))) [
  | inl low ↦
      let below : price b < price a = ground arith in
      let none_there =
        no_trade (price a) (b ∷ bs) (a ∷ as_) (below, All-below (price b) (price a) bs below d.0)
          (omega arith, s.0) in
      absurd (ground (arith, none_there))
  | inr high ↦ rw high
]

module _ (lib : Libraries) (terms : Terms) where
  -- Before the first match: the tops are whole, the books sorted and of sufficient quantities, and
  -- a trade is possible.
  record Ready (s : Book) : Type 0 where
    whole_buy : s.buy_remaining ≡ first_quantity s.buys
    whole_sell : s.sell_remaining ≡ first_quantity s.sells
    descends : Descends s.buys
    ascends : Ascends s.sells
    buys_enough : All (λ r. terms.min_quantity ≤ quantity r) s.buys
    sells_enough : All (λ r. terms.min_quantity ≤ quantity r) s.sells
    possible : some_trade s.buys s.sells ≡ true

  abbrev Live : Book → Type 0
  Live s = (s.matches ≢ []) ⊎ Ready s

  grown : {A : Type 0} (l : List A) (x : A) → l ++ x ∷ [] ≢ []
  grown [] x e = ground arith
  grown (y ∷ l) x e = ground arith

  -- A round on two whole top orders makes a match or stays ready.
  Ready-tops :
      (s : Book) (b : RevealedOrder) (bs : List RevealedOrder) (a : RevealedOrder)
      (as_ : List RevealedOrder)
      → s.buys ≡ b ∷ bs
      → s.sells ≡ a ∷ as_
      → Ready s
      → Live (match_tops lib terms s b bs a as_)
  unfolding match_tops skip_self_trade skip_dust
  Ready-tops s b bs a as_ eb ea r =
      if_rule Live (nft_id b == nft_id a) _ _
        (λ same.
          let kept = self_trade_keeps b a bs as_ same trade in
          if_rule Live (sell_for (a ∷ as_) b && not (buy_for (b ∷ bs) a)) _ _
            (λ t. inr (record {
              whole_buy = r.whole_buy;
              whole_sell = refl;
              descends = r.descends;
              ascends = (subst Ascends ea r.ascends).1;
              buys_enough = r.buys_enough;
              sells_enough = (subst (All Enough) ea r.sells_enough).1;
              possible = ap (λ l. some_trade l as_) eb ∙ chosen (some_trade bs (a ∷ as_)) t kept;
            }))
            (λ t. inr (record {
              whole_buy = refl;
              whole_sell = r.whole_sell;
              descends = (subst Descends eb r.descends).1;
              ascends = r.ascends;
              buys_enough = (subst (All Enough) eb r.buys_enough).1;
              sells_enough = r.sells_enough;
              possible = ap (λ l. some_trade bs l) ea ∙ passed (some_trade (b ∷ bs) as_) t kept;
            })))
        (λ other.
          if_rule Live (ltb (min s.buy_remaining s.sell_remaining) terms.min_quantity) _ _
            (λ low. absurd (enough_to_fill low)) (λ _. inl (grown s.matches _)))
    where
      Enough : RevealedOrder → Type 0
      Enough c = terms.min_quantity ≤ quantity c

      trade : some_trade (b ∷ bs) (a ∷ as_) ≡ true
      trade =
          subst (λ l. some_trade l (a ∷ as_) ≡ true) eb
            (subst (λ l. some_trade s.buys l ≡ true) ea r.possible)

      chosen : {c : Bool} {x : Bool} (y : Bool) → c ≡ true → (if c then x else y) ≡ true → x ≡ true
      chosen y t k = ground arith

      passed : {c : Bool} (x : Bool) {y : Bool} → c ≡ false → (if c then x else y) ≡ true → y ≡ true
      passed x t k = ground arith

      enough_to_fill : ltb (min s.buy_remaining s.sell_remaining) terms.min_quantity ≡ true → ⊥
      enough_to_fill low =
          let eb' = r.whole_buy ∙ ap first_quantity eb in
          let ea' = r.whole_sell ∙ ap first_quantity ea in
          let qb = (subst (All Enough) eb r.buys_enough).0 in
          let qa = (subst (All Enough) ea r.sells_enough).0 in ground (arith, eb', ea', qb, qa)

  Live-iterate : (s : Book) → Live s → running s ≡ true → Live (iterate lib terms s)
  Live-iterate s (inl some) = iterate_rule lib terms Live s λ b bs a as_ _ _ _.
      match_tops_rule lib terms Live s b bs a as_ (inl some) (inl some)
        (λ _ _. inl (grown s.matches _))
  Live-iterate s (inr r) =
      iterate_rule lib terms Live s λ b bs a as_ eb ea _. Ready-tops s b bs a as_ eb ea r

  -- A ready book has crossing tops, so a loop that has stopped is not ready any more.
  finish : (s : Book) → Live s → running s ≡ false → s.matches ≢ []
  finish s (inl some) stopped = some
  finish s (inr r) stopped =
      let crossing = trade-tops_cross s.buys s.sells r.descends r.ascends r.possible in
      absurd (ground (arith, crossing, stopped))

  -- If the books are sorted, every order has the market's minimum quantity, and some buy and some
  -- sell of different traders have crossing prices, then the loop finds a match, also where it has
  -- to pass orders of one trader on both sides.
  pub generate_matches_live :
      (buys sells : List RevealedOrder)
      → Descends buys
      → Ascends sells
      → All (λ r. terms.min_quantity ≤ quantity r) buys
      → All (λ r. terms.min_quantity ≤ quantity r) sells
      → some_trade buys sells ≡ true
      → generate_matches lib terms buys sells ≢ []
  unfolding generate_matches
  generate_matches_live buys sells d s eb es t =
      if_rule (λ ms. ms ≢ []) (is_empty buys || is_empty sells) _ _
        (λ none. absurd (nobody buys sells none t)) (λ _. ended)
    where
      nobody :
          (bs as_ : List RevealedOrder)
          → (is_empty bs || is_empty as_) ≡ true
          → some_trade bs as_ ≡ true
          → ⊥
      nobody [] as_ e t = ground arith
      nobody (b ∷ bs) [] e t = no_sells (b ∷ bs) t
      nobody (b ∷ bs) (a ∷ as_) e t = ground arith

      start : Ready (open_book buys sells)
      start = record {
        whole_buy = refl;
        whole_sell = refl;
        descends = d;
        ascends = s;
        buys_enough = eb;
        sells_enough = es;
        possible = t;
      }

      ended : (closed_book lib terms buys sells).matches ≢ []
      ended =
          let (l, stopped) = closed_book_inv lib terms Live buys sells Live-iterate (inr start) in
          finish (closed_book lib terms buys sells) l stopped
