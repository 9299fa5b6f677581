-- ===== src/Matching/Determinism.antt =====
-- Nodes that hold the same reveals compute the same matches, in whatever order a map hands the
-- reveals and the markets out.
use mathlib.Core.List.{Permᴰ, Sublist, nil-sublist, Nodup-nil, perm_ext_iff_of_Nodup}
use mathlib.Core.List.Nodup
use mathlib.Core.List.Perm
use mathlib.Core.List.Sublist
use mathlib.Core.Logic.{∥∥₁_elim}
use deadmkt_node.Prelude.{
  ℕ, ◌≡◌, ◌≢◌, refl, sym, ap, ap₂, if_pos, if_neg, ◌∙◌, Bool, ◌||◌, Option, none, some, List, [],
  ◌∷◌, ◌++◌, map, filter, Mem, Perm, Nodup, any, bytes_eq, ◌==◌, arith, ℕ_discrete,
}
use deadmkt_node.Sort.{sort_by, sort_by-eq_of_perm}
use deadmkt_node.Maps.{Map, keys, lookup, is_some, mem-keys→found, found→mem-keys}
use deadmkt_node.Bytes.{Bytes, lex_ltb}
use deadmkt_node.Crypto.{Libraries}
use deadmkt_node.Matching.Defs.{RevealedOrder, Match, Terms, generate_matches}
use deadmkt_node.Matching.Run.{
  MarketConfig, sort_buys, sort_sells, market_map, by_symbol, match_market, match_symbol,
  match_symbols, run_matching,
}
use deadmkt_node.Matching.Grouping.{
  Bytes-set, RevealedOrder-set, hashes, groups-of_symbol, groups-found, by_symbol-Nodup,
  market_map-permᴰ,
}
use deadmkt_node.Matching.Orders.{bytes_order, buys_order, sells_order}

any-permᴰ : {A : Type 0} (p : A → Bool) {l r : List A} → Permᴰ l r → any p l ≡ any p r
any-permᴰ p Permᴰ.nil = refl
any-permᴰ p (Permᴰ.cons e q) = ap₂ (λ a b. p a || b) e (any-permᴰ p q)
any-permᴰ p (Permᴰ.swap {a = a} {b = b} {l = l} e f) = rw (← e, ← f) (ground arith)
any-permᴰ p (Permᴰ.trans q r) = any-permᴰ p q ∙ any-permᴰ p r

Nodup-filter :
    {P : RevealedOrder → Type 0} (d : (r : RevealedOrder) → Dec (P r)) (l : List RevealedOrder)
    → Nodup (hashes l)
    → Nodup (hashes (filter d l))
Nodup-filter d l n = Nodup.sublist (hashes-filter l) n
  where
    hashes-filter : (l : List RevealedOrder) → Sublist (hashes (filter d l)) (hashes l)
    hashes-filter [] = nil-sublist []
    hashes-filter (r ∷ rs) = elim (d r) [
      | yes p ↦ rw (if_pos _ p) (Sublist.cons-cons r.order_hash (hashes-filter rs))
      | no p ↦ rw (if_neg _ p) (Sublist.cons r.order_hash (hashes-filter rs))
    ]

match_market_perm :
    (lib : Libraries) (batch_id pool_id : ℕ) (symbol : Bytes) {rs rs' : List RevealedOrder}
    (market : Option ℕ)
    → Perm rs rs'
    → Nodup (hashes rs)
    → match_market lib batch_id pool_id symbol rs market
      ≡ match_market lib batch_id pool_id symbol rs' market
unfolding match_market sort_buys sort_sells
match_market_perm lib batch_id pool_id symbol none p d = refl
match_market_perm lib batch_id pool_id symbol {rs} {rs'} (some min_quantity) p d =
    ap₂ (generate_matches lib terms) buys_same sells_same
  where
    terms : Terms
    terms = record {
      batch_id = batch_id;
      pool_id = pool_id;
      symbol = symbol;
      min_quantity = min_quantity;
    }

    buys_same :
        sort_buys (filter (λ r. ℕ_discrete r.order.side 1) rs)
        ≡ sort_buys (filter (λ r. ℕ_discrete r.order.side 1) rs')
    buys_same =
        sort_by-eq_of_perm buys_order RevealedOrder-set (Perm.filter _ p) (Nodup-filter _ rs d)

    sells_same :
        sort_sells (filter (λ r. ℕ_discrete r.order.side 0) rs)
        ≡ sort_sells (filter (λ r. ℕ_discrete r.order.side 0) rs')
    sells_same =
        sort_by-eq_of_perm sells_order RevealedOrder-set (Perm.filter _ p) (Nodup-filter _ rs d)

-- The loop over the symbols sees of the reveals only their groups, up to the order inside a group.
match_symbols_perm :
    (lib : Libraries) (batch_id pool_id : ℕ) (markets markets' : Map Bytes ℕ)
    (rs rs' : List RevealedOrder) (symbols : List Bytes)
    → ((s : Bytes) → lookup s markets ≡ lookup s markets')
    → Perm rs rs'
    → Nodup (hashes rs)
    → match_symbols lib batch_id pool_id markets (by_symbol [] rs) symbols
      ≡ match_symbols lib batch_id pool_id markets' (by_symbol [] rs') symbols
unfolding match_symbols match_symbol
match_symbols_perm lib batch_id pool_id markets markets' rs rs' [] m p d = refl
match_symbols_perm lib batch_id pool_id markets markets' rs rs' (s ∷ symbols) m p d =
    ap₂ ◌++◌
      (rw (m s, groups-of_symbol s rs, groups-of_symbol s rs')
        (match_market_perm lib batch_id pool_id s (lookup s markets') (Perm.filter _ p)
          (Nodup-filter _ rs d)))
      (match_symbols_perm lib batch_id pool_id markets markets' rs rs' symbols m p d)

keys-perm :
    {rs rs' : List RevealedOrder}
    → Permᴰ rs rs'
    → Perm (keys (by_symbol [] rs)) (keys (by_symbol [] rs'))
keys-perm {rs} {rs'} p =
    (perm_ext_iff_of_Nodup (by_symbol-Nodup [] rs Nodup-nil) (by_symbol-Nodup [] rs' Nodup-nil)).1
      λ s. (over rs rs' s (any-permᴰ _ p), over rs' rs s (sym (any-permᴰ _ p)))
  where
    over :
        (l r : List RevealedOrder) (s : Bytes)
        → any (λ q. q.order.symbol == s) l ≡ any (λ q. q.order.symbol == s) r
        → Mem s (keys (by_symbol [] l))
        → Mem s (keys (by_symbol [] r))
    over l r s same m = found→mem-keys s (by_symbol [] r) (
        transfer (lookup s (by_symbol [] l)) (lookup s (by_symbol [] r))
          (groups-found s l ∙ same ∙ sym (groups-found s r)) (mem-keys→found s (by_symbol [] l) m))
      where
        transfer :
            (o o' : Option (List RevealedOrder)) → is_some o ≡ is_some o' → o ≢ none → o' ≢ none
        transfer none o' e h k = h refl
        transfer (some v) none e h k = ground arith
        transfer (some v) (some w) e h k = ground arith

-- The matches do not depend on the order in which the reveals and the markets are listed, when no
-- two reveals share an order hash and no two markets a symbol.
pub run_matching_perm :
    (lib : Libraries) (batch_id pool_id : ℕ) (rs rs' : List RevealedOrder)
    (ms ms' : List MarketConfig)
    → Perm rs rs'
    → Perm ms ms'
    → Nodup (map (λ r. r.order_hash) rs)
    → Nodup (map (λ c. c.symbol) ms)
    → run_matching lib
        (record { batch_id = batch_id; pool_id = pool_id; reveals = rs; markets = ms })
      ≡ run_matching lib
          (record { batch_id = batch_id; pool_id = pool_id; reveals = rs'; markets = ms' })
unfolding run_matching
run_matching_perm lib batch_id pool_id rs rs' ms ms' p q d e = ∥∥₁_elim p matches_prop λ p'.
    ∥∥₁_elim q matches_prop λ q'.
      ap (match_symbols lib batch_id pool_id (market_map [] ms) (by_symbol [] rs)) (symbols_same p')
      ∙ match_symbols_perm lib batch_id pool_id (market_map [] ms) (market_map [] ms') rs rs'
          (sort_by lex_ltb (keys (by_symbol [] rs')))
          (λ s. market_map-permᴰ s [] [] q' e (λ t. refl)) p d
  where
    matches_prop : {x y : List Match} → IsProp (x ≡ y)
    matches_prop = hlevel

    map_id : (l : List Bytes) → map (λ b. b) l ≡ l
    map_id [] = refl
    map_id (b ∷ bs) = ap (◌∷◌ b) (map_id bs)

    symbols_same :
        Permᴰ rs rs'
        → sort_by lex_ltb (keys (by_symbol [] rs)) ≡ sort_by lex_ltb (keys (by_symbol [] rs'))
    symbols_same p' =
        sort_by-eq_of_perm bytes_order Bytes-set (keys-perm p')
          (rw (map_id (keys (by_symbol [] rs))) (by_symbol-Nodup [] rs Nodup-nil))
