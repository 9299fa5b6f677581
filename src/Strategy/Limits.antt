-- ===== src/Strategy/Limits.antt =====
-- crates/strategy/src/convert.rs: what `validate_orders` lets through.
use deadmkt_node.Prelude.{
  ℕ, ◌+◌, ◌%◌, ◌^◌, ◌≤◌, ◌≡◌, ◌≢◌, refl, subst, zero, true, false, ltb, ◌==◌, nat_eq, bytes_eq,
  if◌then◌else◌, some, List, [], ◌∷◌, ◌++◌, length, sum_by, sum_by-append, u64_add, bind_inv,
  some_inj, arith, Option-cases, Bool-cases, inl, inr,
}
use deadmkt_node.Maps.{Map, lookup, contains, lookup-insert}
use deadmkt_node.Bytes.{Bytes}
use deadmkt_node.Text.Search.{Text}
use deadmkt_node.Strategy.Convert.{
  OrderSpec, CanonicalOrder, Converted, ok, err, utf8, side_of, parse_decimal_to_fixed, base_token,
  decimals_of, convert_order,
}
use deadmkt_node.Strategy.Validate.{
  OrderValidationContext, ValidationResult, Progress, Warning, pair_not_active, price_is_zero,
  below_min_quantity, conversion_failed, compute_outflow, warn, spent, with_spent, projected_for,
  check_balance, below_min, check_order, check_converted, check_spec, check_specs, first, begin,
  validate_orders,
}

-- An order that may be committed: of this node and batch, on an active pair, at a price, and of the
-- pair's minimal quantity.
pub record IsFair (ctx : OrderValidationContext) (pair : Text) (order : CanonicalOrder)
    : Type 0 where
  pub of_pair : order.symbol ≡ utf8 pair
  pub of_node : order.nft_id ≡ ctx.nft_id
  pub of_batch : order.batch_id ≡ ctx.batch_id
  pub is_active : contains pair ctx.active_pairs ≡ true
  pub has_price : order.price ≢ 0
  pub has_quantity : below_min (lookup pair ctx.min_quantities) order.quantity ≡ false

-- Orders that may be committed, with what each takes in the worst case.
pub data Charged (ctx : OrderValidationContext)
    : List CanonicalOrder → List (Text × ℕ) → Type 0 where
  nothing : Charged ctx [] []
  and_order :
      (orders : List CanonicalOrder) (charges : List (Text × ℕ)) (pair : Text)
      (order : CanonicalOrder) (charge : Text × ℕ)
      → Charged ctx orders charges
      → IsFair ctx pair order
      → compute_outflow order pair ctx.token_decimals ≡ some charge
      → Charged ctx (orders ++ (order ∷ [])) (charges ++ (charge ∷ []))

abbrev pub charge_on : Text → Text × ℕ → ℕ
charge_on token (t, amount) = if t == token then amount else 0

-- What the orders take of a token together.
abbrev pub taken : Text → List (Text × ℕ) → ℕ
taken token = sum_by (charge_on token)

-- After `k` orders.
record IsSound (ctx : OrderValidationContext) (p : Progress) (charges : List (Text × ℕ))
    : Type 0 where
  charged : Charged ctx p.result.orders charges
  spends : (token : Text) → spent token p ≡ taken token charges % 2 ^ 64
  within : (token : Text) → spent token p ≤ projected_for ctx token

Sound : OrderValidationContext → Progress → Type 0
Sound ctx p = (charges : List (Text × ℕ)) × IsSound ctx p charges

warn-Sound :
    (ctx : OrderValidationContext) (w : Warning) (p : Progress) → Sound ctx p → Sound ctx (warn w p)
unfolding Sound
warn-Sound ctx w p (charges, s) =
    (charges, record { charged = s.charged; spends = s.spends; within = s.within })

spent-with_spent :
    (token other : Text) (amount : ℕ) (p : Progress)
    → spent other (with_spent token amount p) ≡ (if token == other then amount else spent other p)
spent-with_spent token other amount p =
    ground (arith, lookup-insert token other amount p.cumulative_outflows)

check_balance-Sound :
    (ctx : OrderValidationContext) (i : ℕ) (pair : Text) (order : CanonicalOrder)
    (charge : Text × ℕ) (p : Progress)
    → IsFair ctx pair order
    → compute_outflow order pair ctx.token_decimals ≡ some charge
    → Sound ctx p
    → Sound ctx (check_balance ctx i order charge p)
unfolding Sound
check_balance-Sound ctx i pair order (token, amount) p fair out (charges, s) =
    let new = u64_add (spent token p) amount in
    elim (Bool-cases (ltb (projected_for ctx token) new)) [
      | inl over ↦ rw over (
        charges,
        record {
          charged = s.charged;
          spends = λ t. ground (
            arith,
            bytes_eq.beq_iff token t,
            spent-with_spent token t (spent token p) p,
            s.spends t,
          );
          within = λ t. ground (
            arith,
            bytes_eq.beq_iff token t,
            spent-with_spent token t (spent token p) p,
            s.within t,
          );
        },
      )
      | inr fits ↦ rw fits (
        charges ++ ((token, amount) ∷ []),
        record {
          charged = and_order p.result.orders charges pair order (token, amount) s.charged fair out;
          spends = λ t. ground (
            arith,
            bytes_eq.beq_iff token t,
            spent-with_spent token t new p,
            s.spends t,
            sum_by-append (charge_on t) charges ((token, amount) ∷ []),
          );
          within = λ t.
              ground (arith, bytes_eq.beq_iff token t, spent-with_spent token t new p, s.within t);
        },
      )
    ]

check_order-Sound :
    (ctx : OrderValidationContext) (i : ℕ) (spec : OrderSpec) (order : CanonicalOrder)
    (p q : Progress)
    → order.symbol ≡ utf8 spec.pair
    → order.nft_id ≡ ctx.nft_id
    → order.batch_id ≡ ctx.batch_id
    → Sound ctx p
    → check_order ctx i spec order p ≡ some q
    → Sound ctx q
unfolding check_order
check_order-Sound ctx i spec order p q of_pair of_node of_batch s h =
    let keep : (w : Warning) → some (warn w p) ≡ some q → Sound ctx q =
      λ w e. subst (Sound ctx) (some_inj e) (warn-Sound ctx w p s) in
    elim (Bool-cases (contains spec.pair ctx.active_pairs)) [
      | inr dead ↦ keep (pair_not_active i) (rw dead at h)
      | inl live ↦ elim (Bool-cases (order.price == zero)) [
        | inl free ↦ keep (price_is_zero i) (rw (live, free) at h)
        | inr priced ↦
            elim (Bool-cases (below_min (lookup spec.pair ctx.min_quantities) order.quantity)) [
              | inl small ↦ keep (below_min_quantity i) (rw (live, priced, small) at h)
              | inr enough ↦
                  let fair : IsFair ctx spec.pair order = record {
                    of_pair = of_pair;
                    of_node = of_node;
                    of_batch = of_batch;
                    is_active = live;
                    has_price = λ z. ground (arith, priced, z);
                    has_quantity = enough;
                  } in
                  elim (Option-cases (compute_outflow order spec.pair ctx.token_decimals)) [
                    | inl panic ↦
                        absurd (let bad = rw (live, priced, enough, panic) at h in ground arith)
                    | inr (charge, out) ↦
                        subst (Sound ctx) (some_inj (rw (live, priced, enough, out) at h))
                          (check_balance-Sound ctx i spec.pair order charge p fair out s)
                  ]
            ]
      ]
    ]

-- What a conversion takes over from the order and from its arguments.
Taken : OrderSpec → ℕ → ℕ → Converted CanonicalOrder → Type 0
Taken spec nft_id batch_id (err e) = Unit
Taken spec nft_id batch_id (ok order) =
    (order.symbol ≡ utf8 spec.pair) × (order.nft_id ≡ nft_id) × (order.batch_id ≡ batch_id)

convert_order-Taken :
    (spec : OrderSpec) (decimals : Map Text ℕ) (nft_id batch_id : ℕ) (nonce : Bytes)
    → Taken spec nft_id batch_id (convert_order spec decimals nft_id batch_id nonce)
unfolding convert_order Taken
convert_order-Taken spec decimals nft_id batch_id nonce = elim (Option-cases (side_of spec.side)) [
  | inl q ↦ rw q tt
  | inr (side, q) ↦ rw q (elim (Option-cases (parse_decimal_to_fixed spec.price 8)) [
    | inl r ↦ rw r tt
    | inr (price, r) ↦
        rw r
          (elim (Option-cases
            (parse_decimal_to_fixed spec.quantity (decimals_of decimals (base_token spec.pair)))) [
              | inl t ↦ rw t tt
              | inr (quantity, t) ↦ rw t (refl, refl, refl)
            ])
  ])
]

check_converted-Sound :
    (ctx : OrderValidationContext) (i : ℕ) (spec : OrderSpec) (c : Converted CanonicalOrder)
    (p q : Progress)
    → Taken spec ctx.nft_id ctx.batch_id c
    → Sound ctx p
    → check_converted ctx i spec c p ≡ some q
    → Sound ctx q
unfolding Taken
check_converted-Sound ctx i spec (err e) p q t s h =
    subst (Sound ctx) (some_inj h) (warn-Sound ctx (conversion_failed i e) p s)
check_converted-Sound ctx i spec (ok order) p q t s h =
    check_order-Sound ctx i spec order p q t.0 t.1 t.2 s h

check_specs-Sound :
    (ctx : OrderValidationContext) (nonce_fn : ℕ → Bytes) (i : ℕ) (specs : List OrderSpec)
    (p q : Progress)
    → Sound ctx p
    → check_specs ctx nonce_fn i specs p ≡ some q
    → Sound ctx q
unfolding check_specs check_spec
check_specs-Sound ctx nonce_fn i [] p q s h = subst (Sound ctx) (some_inj h) s
check_specs-Sound ctx nonce_fn i (spec ∷ specs) p q s h =
    let step = bind_inv (check_spec ctx nonce_fn i spec p) _ q h in
    let next =
      check_converted-Sound ctx i spec _ p step.0
        (convert_order-Taken spec ctx.token_decimals ctx.nft_id ctx.batch_id (nonce_fn i)) s
        step.1 in
    check_specs-Sound ctx nonce_fn (i + 1) specs step.0 q next step.2

pub validated_within_balance :
    (specs : List OrderSpec) (ctx : OrderValidationContext) (nonce_fn : ℕ → Bytes)
    (r : ValidationResult)
    → validate_orders specs ctx nonce_fn ≡ some r
    → (charges : List (Text × ℕ)) × (Charged ctx r.orders charges)
      × ((token : Text) → taken token charges % 2 ^ 64 ≤ projected_for ctx token)
unfolding validate_orders Sound lookup
validated_within_balance specs ctx nonce_fn r h =
    let run =
      bind_inv
        (check_specs ctx nonce_fn 0 (first ctx.commits_per_batch specs) (begin ctx (length specs)))
        _ r h in
    let sound =
      check_specs-Sound ctx nonce_fn 0 (first ctx.commits_per_batch specs)
        (begin ctx (length specs)) run.0
        ([], record { charged = nothing; spends = λ t. refl; within = λ t. omega arith }) run.1 in
    let same = some_inj run.2 in
    (
      sound.0,
      subst (λ x. Charged ctx x.orders sound.0) same sound.1.charged,
      λ token. ground (arith, sound.1.spends token, sound.1.within token),
    )
