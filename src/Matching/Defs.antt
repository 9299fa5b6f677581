-- ===== src/Matching/Defs.antt =====
-- crates/matching/src/lib.rs, the types and the loop of `generate_matches`.
use deadmkt_node.Prelude.{
  ℕ, ◌+◌, ◌-◌, ◌/◌, Bool, true, false, not, ◌&&◌, ◌||◌, List, [], ◌∷◌, ◌++◌, ltb, leb, nat_eq, ◌==◌,
  if◌then◌else◌, any, length, min, run_loop, u64_add,
}
use deadmkt_node.Bytes.{Bytes, lex_ltb}
use deadmkt_node.Crypto.{Order, Libraries, compute_match_hash}

pub record RevealedOrder : Type 0 where
  pub order : Order
  pub signature : Bytes
  pub order_hash : Bytes

pub record Match : Type 0 where
  pub batch_id : ℕ
  pub pool_id : ℕ
  pub symbol : Bytes
  pub buyer : RevealedOrder
  pub seller : RevealedOrder
  pub fill_quantity : ℕ
  pub settlement_price : ℕ
  pub match_hash : Bytes
  pub gas_payer_nft_id : ℕ

abbrev pub price : RevealedOrder → ℕ
price r = r.order.price

abbrev pub quantity : RevealedOrder → ℕ
quantity r = r.order.quantity

abbrev pub nft_id : RevealedOrder → ℕ
nft_id r = r.order.nft_id

unfoldable pub determine_gas_payer : Bytes → Bytes → ℕ → ℕ → ℕ
determine_gas_payer buyer_hash seller_hash buyer_nft_id seller_nft_id =
    if lex_ltb buyer_hash seller_hash then buyer_nft_id else seller_nft_id

-- The variables of the loop. An index into a book only moves forward: the list holds what is left
-- of the book from the index on.
pub record Book : Type 0 where
  pub buys : List RevealedOrder
  pub sells : List RevealedOrder
  pub buy_remaining : ℕ
  pub sell_remaining : ℕ
  pub matches : List Match

-- The arguments of `generate_matches` that the loop does not change.
pub record Terms : Type 0 where
  pub batch_id : ℕ
  pub pool_id : ℕ
  pub symbol : Bytes
  pub min_quantity : ℕ

-- `get(idx).map(|o| o.order.quantity).unwrap_or(0)`
abbrev pub first_quantity : List RevealedOrder → ℕ
first_quantity [] = 0
first_quantity (r ∷ rest) = quantity r

abbrev pub advance_buy : Book → List RevealedOrder → Book
advance_buy s rest = record s { buys = rest; buy_remaining = first_quantity rest }

abbrev pub advance_sell : Book → List RevealedOrder → Book
advance_sell s rest = record s { sells = rest; sell_remaining = first_quantity rest }

-- A buy and a sell whose prices cross, of different traders.
abbrev pub can_trade : RevealedOrder → RevealedOrder → Bool
can_trade b a = leb (price a) (price b) && not (nft_id b == nft_id a)

-- The two `iter().any(...)` scans and the choice of the side to skip.
unfoldable pub skip_self_trade :
    Book → RevealedOrder → List RevealedOrder → RevealedOrder → List RevealedOrder → Book
skip_self_trade s b bs a as_ =
    let buy_has_alt = any (λ c. can_trade b c) (a ∷ as_) in
    let sell_has_alt = any (λ c. can_trade c a) (b ∷ bs) in
    if buy_has_alt && not sell_has_alt then advance_sell s as_ else advance_buy s bs

-- The smaller side cannot fill the market minimum: pass it by.
unfoldable pub skip_dust : Book → List RevealedOrder → List RevealedOrder → Book
skip_dust s bs as_ =
    if leb s.buy_remaining s.sell_remaining then advance_buy s bs else advance_sell s as_

module _ (lib : Libraries) (terms : Terms) where
  unfoldable pub make_match : RevealedOrder → RevealedOrder → ℕ → Match
  make_match b a fill_qty = record {
    batch_id = terms.batch_id;
    pool_id = terms.pool_id;
    symbol = terms.symbol;
    buyer = b;
    seller = a;
    fill_quantity = fill_qty;
    settlement_price = u64_add (price b) (price a) / 2;
    match_hash = compute_match_hash lib terms.batch_id b.order_hash a.order_hash fill_qty;
    gas_payer_nft_id = determine_gas_payer b.order_hash a.order_hash (nft_id b) (nft_id a);
  }

  -- After a match each side that is used up moves on.
  abbrev pub after_fill :
      Book → RevealedOrder → List RevealedOrder → RevealedOrder → List RevealedOrder → ℕ → Book
  after_fill s b bs a as_ fill_qty =
      let buy_left = s.buy_remaining - fill_qty in
      let sell_left = s.sell_remaining - fill_qty in
      record {
        buys = if buy_left == 0 then bs else b ∷ bs;
        sells = if sell_left == 0 then as_ else a ∷ as_;
        buy_remaining = if buy_left == 0 then first_quantity bs else buy_left;
        sell_remaining = if sell_left == 0 then first_quantity as_ else sell_left;
        matches = s.matches ++ make_match b a fill_qty ∷ [];
      }

  -- The body of the loop on the two top orders.
  unfoldable pub match_tops :
      Book → RevealedOrder → List RevealedOrder → RevealedOrder → List RevealedOrder → Book
  match_tops s b bs a as_ =
      let fill_qty = min s.buy_remaining s.sell_remaining in
      if nft_id b == nft_id a
      then skip_self_trade s b bs a as_
      else if ltb fill_qty terms.min_quantity
      then skip_dust s bs as_
      else after_fill s b bs a as_ fill_qty

  abbrev pub match_heads : Book → List RevealedOrder → List RevealedOrder → Book
  match_heads s [] sells = s
  match_heads s (b ∷ bs) [] = s
  match_heads s (b ∷ bs) (a ∷ as_) = match_tops s b bs a as_

  abbrev pub iterate : Book → Book
  iterate s = match_heads s s.buys s.sells

-- The loop's test, with the `break` at the first pair that does not cross.
abbrev pub tops_cross : List RevealedOrder → List RevealedOrder → Bool
tops_cross [] sells = false
tops_cross (b ∷ bs) [] = false
tops_cross (b ∷ bs) (a ∷ as_) = not (ltb (price b) (price a))

abbrev pub running : Book → Bool
running s = tops_cross s.buys s.sells

abbrev pub open_book : List RevealedOrder → List RevealedOrder → Book
open_book buys sells = record {
  buys = buys;
  sells = sells;
  buy_remaining = first_quantity buys;
  sell_remaining = first_quantity sells;
  matches = [];
}

abbrev pub is_empty : List RevealedOrder → Bool
is_empty [] = true
is_empty (r ∷ rest) = false

module _ (lib : Libraries) (terms : Terms) (buys sells : List RevealedOrder) where
  -- Each round passes an order, so this fuel is never used up.
  unfoldable pub closed_book : Book
  closed_book =
      run_loop running (iterate lib terms) (length buys + length sells + 1) (open_book buys sells)

  unfoldable pub generate_matches : List Match
  generate_matches = if is_empty buys || is_empty sells then [] else closed_book.matches
