-- ===== src/Matching/Grouping.antt =====
-- The maps that `run_matching` builds: the reveals of each symbol, and the market of each symbol.
use mathlib.Core.List.{Permᴰ, Nodup-cons, mem-cons_self, append-nil, append_assoc}
use mathlib.Core.List.Perm
use deadmkt_node.Prelude.{
  ℕ, ◌≡◌, ◌≢◌, refl, sym, subst, if_pos, if_neg, ◌∙◌, ◌||◌, some, List, [], ◌∷◌, ◌++◌, map, filter,
  Nodup, any, bytes_eq, ◌==◌, arith, ℕ_discrete, bytes_beq_iff,
}
use deadmkt_node.Maps.{
  Map, keys, lookup, insert, get_or, is_some, lookup-insert, insert-Nodup, lookup-insert_self,
  lookup-insert_ne,
}
use deadmkt_node.Bytes.{Bytes}
use deadmkt_node.Matching.Defs.{RevealedOrder}
use deadmkt_node.Matching.Run.{MarketConfig, market_map, by_symbol, push_reveal}

pub Bytes-discrete : Discrete Bytes
Bytes-discrete = hlevel ℕ_discrete

pub Bytes-set : IsSet Bytes
Bytes-set = hlevel

pub RevealedOrder-set : IsSet RevealedOrder
RevealedOrder-set = hlevel

abbrev pub hashes : List RevealedOrder → List Bytes
hashes = map (λ r. r.order_hash)

-- The reveals of one symbol, in their order.
abbrev pub of_symbol : Bytes → List RevealedOrder → List RevealedOrder
of_symbol symbol = filter (λ r. Bytes-discrete r.order.symbol symbol)

pushed_hit :
    (symbol : Bytes) (m : Map Bytes (List RevealedOrder)) (r : RevealedOrder)
    → r.order.symbol ≡ symbol
    → lookup symbol (push_reveal m r) ≡ some (get_or [] (lookup symbol m) ++ r ∷ [])
pushed_hit symbol m r e =
    subst (λ s. lookup s (push_reveal m r) ≡ some (get_or [] (lookup s m) ++ r ∷ [])) e
      (lookup-insert_self r.order.symbol _ m)

-- Grouping keeps, for each symbol, its reveals in their order.
pub by_symbol-of_symbol :
    (symbol : Bytes) (m : Map Bytes (List RevealedOrder)) (rs : List RevealedOrder)
    → get_or [] (lookup symbol (by_symbol m rs))
      ≡ get_or [] (lookup symbol m) ++ of_symbol symbol rs
unfolding by_symbol
by_symbol-of_symbol symbol m [] = sym (append-nil _)
by_symbol-of_symbol symbol m (r ∷ rs) = by_symbol-of_symbol symbol (push_reveal m r) rs ∙ pushed
  where
    pushed :
        get_or [] (lookup symbol (push_reveal m r)) ++ of_symbol symbol rs
        ≡ get_or [] (lookup symbol m) ++ of_symbol symbol (r ∷ rs)
    pushed = elim (Bytes-discrete r.order.symbol symbol) [
      | yes e ↦
          rw (pushed_hit symbol m r e, if_pos _ e)
            (append_assoc (get_or [] (lookup symbol m)) (r ∷ []) (of_symbol symbol rs))
      | no n ↦ rw (
        lookup-insert_ne r.order.symbol symbol (get_or [] (lookup r.order.symbol m) ++ r ∷ []) m n,
        if_neg _ n,
      )
    ]

pub by_symbol-found :
    (symbol : Bytes) (m : Map Bytes (List RevealedOrder)) (rs : List RevealedOrder)
    → is_some (lookup symbol (by_symbol m rs))
      ≡ is_some (lookup symbol m) || any (λ r. r.order.symbol == symbol) rs
unfolding by_symbol
by_symbol-found symbol m [] = ground arith
by_symbol-found symbol m (r ∷ rs) = ground (
  arith,
  by_symbol-found symbol (push_reveal m r) rs,
  lookup-insert r.order.symbol symbol (get_or [] (lookup r.order.symbol m) ++ r ∷ []) m,
)

pub by_symbol-Nodup :
    (m : Map Bytes (List RevealedOrder)) (rs : List RevealedOrder)
    → Nodup (keys m)
    → Nodup (keys (by_symbol m rs))
unfolding by_symbol
by_symbol-Nodup m [] d = d
by_symbol-Nodup m (r ∷ rs) d =
    by_symbol-Nodup (push_reveal m r) rs (insert-Nodup r.order.symbol _ m d)

-- From the empty map on: the groups are the reveals of each symbol, and there is one group for each
-- symbol that some reveal has.
pub groups-of_symbol :
    (symbol : Bytes) (rs : List RevealedOrder)
    → get_or [] (lookup symbol (by_symbol [] rs)) ≡ of_symbol symbol rs
unfolding lookup
groups-of_symbol symbol rs = by_symbol-of_symbol symbol [] rs

pub groups-found :
    (symbol : Bytes) (rs : List RevealedOrder)
    → is_some (lookup symbol (by_symbol [] rs)) ≡ any (λ r. r.order.symbol == symbol) rs
unfolding lookup
groups-found symbol rs = by_symbol-found symbol [] rs

-- Two markets' maps that agree on every symbol still do after the same entries.
market_map_cong :
    (symbol : Bytes) (m m' : Map Bytes ℕ) (cs : List MarketConfig)
    → ((s : Bytes) → lookup s m ≡ lookup s m')
    → lookup symbol (market_map m cs) ≡ lookup symbol (market_map m' cs)
unfolding market_map
market_map_cong symbol m m' [] h = h symbol
market_map_cong symbol m m' (c ∷ cs) h =
    market_map_cong symbol (insert c.symbol c.min_quantity m) (insert c.symbol c.min_quantity m') cs
      λ s. ground (
        arith,
        h s,
        lookup-insert c.symbol s c.min_quantity m,
        lookup-insert c.symbol s c.min_quantity m',
      )

-- The order of the markets does not matter when no two have one symbol.
pub market_map-permᴰ :
    (symbol : Bytes) {cs cs' : List MarketConfig} (m m' : Map Bytes ℕ)
    → Permᴰ cs cs'
    → Nodup (map (λ c. c.symbol) cs)
    → ((s : Bytes) → lookup s m ≡ lookup s m')
    → lookup symbol (market_map m cs) ≡ lookup symbol (market_map m' cs')
unfolding market_map
market_map-permᴰ symbol m m' Permᴰ.nil d h = h symbol
market_map-permᴰ symbol m m' (Permᴰ.cons {a = a} {b = b} {l₁ = l} {l₂ = l'} e p) d h = rw (← e) (
    market_map-permᴰ symbol (insert a.symbol a.min_quantity m) (insert a.symbol a.min_quantity m') p
      (Nodup-cons.0 d).1
      λ s. ground (
        arith,
        h s,
        lookup-insert a.symbol s a.min_quantity m,
        lookup-insert a.symbol s a.min_quantity m',
      ))
market_map-permᴰ symbol m m' (Permᴰ.swap {a = a} {b = b} {l = l} e f) d h =
    rw (← e, ← f)
      (market_map_cong symbol _ _ l λ s.
        let differ : a.symbol ≢ b.symbol = λ k. (Nodup-cons.0 d).0 (rw k mem-cons_self) in
        ground (
          arith,
          h s,
          bytes_beq_iff a.symbol s,
          bytes_beq_iff b.symbol s,
          lookup-insert a.symbol s a.min_quantity m,
          lookup-insert b.symbol s b.min_quantity (insert a.symbol a.min_quantity m),
          lookup-insert b.symbol s b.min_quantity m',
          lookup-insert a.symbol s a.min_quantity (insert b.symbol b.min_quantity m'),
        ))
market_map-permᴰ symbol m m' (Permᴰ.trans p q) d h =
    market_map-permᴰ symbol m m p d (λ s. refl)
    ∙ market_map-permᴰ symbol m m' q (Perm.nodup (Perm.map _ ∣ p ∣₁) d) h
