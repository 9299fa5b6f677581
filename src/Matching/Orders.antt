-- ===== src/Matching/Orders.antt =====
-- The orders by which the books and the symbols are sorted.
use deadmkt_node.Prelude.{◌≡◌, true, false, nat_eq, List, [], ◌∷◌, arith, All-map, ◌≤◌}
use deadmkt_node.Sort.{StrictOrder, IsSorted, sort_by-IsSorted}
use deadmkt_node.Bytes.{Bytes, lex_ltb, lex_ltb_asymm, lex_ltb_total, lex_ltb_not_after_trans}
use deadmkt_node.Matching.Defs.{RevealedOrder, price}
use deadmkt_node.Matching.Run.{buys_before, sells_before, sort_buys, sort_sells}
use deadmkt_node.Matching.Liveness.{Descends, Ascends}

abbrev pub bytes_order : StrictOrder Bytes Bytes
bytes_order = record {
  before = lex_ltb;
  key = λ b. b;
  asymm = lex_ltb_asymm;
  not_after_trans = lex_ltb_not_after_trans;
  same_key = lex_ltb_total;
}

pub buys_asymm : (a b : RevealedOrder) → buys_before a b ≡ true → buys_before b a ≡ false
unfolding buys_before
buys_asymm a b h = ground (arith, lex_ltb_asymm a.order_hash b.order_hash)

pub buys_trans :
    (a b c : RevealedOrder)
    → buys_before b a ≡ false
    → buys_before c b ≡ false
    → buys_before c a ≡ false
unfolding buys_before
buys_trans a b c h k =
    ground (arith, lex_ltb_not_after_trans a.order_hash b.order_hash c.order_hash)

pub buys_same :
    (a b : RevealedOrder)
    → buys_before a b ≡ false
    → buys_before b a ≡ false
    → a.order_hash ≡ b.order_hash
unfolding buys_before
buys_same a b h k = ground (arith, lex_ltb_total a.order_hash b.order_hash)

abbrev pub buys_order : StrictOrder RevealedOrder Bytes
buys_order = record {
  before = buys_before;
  key = λ r. r.order_hash;
  asymm = buys_asymm;
  not_after_trans = buys_trans;
  same_key = buys_same;
}

pub sells_asymm : (a b : RevealedOrder) → sells_before a b ≡ true → sells_before b a ≡ false
unfolding sells_before
sells_asymm a b h = ground (arith, lex_ltb_asymm a.order_hash b.order_hash)

pub sells_trans :
    (a b c : RevealedOrder)
    → sells_before b a ≡ false
    → sells_before c b ≡ false
    → sells_before c a ≡ false
unfolding sells_before
sells_trans a b c h k =
    ground (arith, lex_ltb_not_after_trans a.order_hash b.order_hash c.order_hash)

pub sells_same :
    (a b : RevealedOrder)
    → sells_before a b ≡ false
    → sells_before b a ≡ false
    → a.order_hash ≡ b.order_hash
unfolding sells_before
sells_same a b h k = ground (arith, lex_ltb_total a.order_hash b.order_hash)

abbrev pub sells_order : StrictOrder RevealedOrder Bytes
sells_order = record {
  before = sells_before;
  key = λ r. r.order_hash;
  asymm = sells_asymm;
  not_after_trans = sells_trans;
  same_key = sells_same;
}

Descends-of_sorted : (l : List RevealedOrder) → IsSorted buys_before l → Descends l
unfolding buys_before
Descends-of_sorted [] s = tt
Descends-of_sorted (b ∷ bs) s = (
  All-map {P = λ c. buys_before c b ≡ false} {Q = λ c. price c ≤ price b} (λ c h. ground arith) bs
      s.0,
  Descends-of_sorted bs s.1,
)

Ascends-of_sorted : (l : List RevealedOrder) → IsSorted sells_before l → Ascends l
unfolding sells_before
Ascends-of_sorted [] s = tt
Ascends-of_sorted (a ∷ as_) s = (
  All-map {P = λ c. sells_before c a ≡ false} {Q = λ c. price a ≤ price c} (λ c h. ground arith) as_
      s.0,
  Ascends-of_sorted as_ s.1,
)

pub sort_buys-Descends : (l : List RevealedOrder) → Descends (sort_buys l)
unfolding sort_buys
sort_buys-Descends l = Descends-of_sorted (sort_buys l) (sort_by-IsSorted buys_order l)

pub sort_sells-Ascends : (l : List RevealedOrder) → Ascends (sort_sells l)
unfolding sort_sells
sort_sells-Ascends l = Ascends-of_sorted (sort_sells l) (sort_by-IsSorted sells_order l)
