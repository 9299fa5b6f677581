-- ===== src/Strategy/Accounts.antt =====
-- crates/strategy/src/convert.rs: `validate_orders` answers every order, within the batch's quota.
use mathlib.Core.List.{append-nil, append_assoc}
use deadmkt_node.Prelude.{
  Option, none, ◌++◌, sym, ◌∙◌, ℕ, ◌+◌, ◌≤◌, ◌≡◌, refl, ap, subst, zero, suc, ltb, ◌==◌, nat_eq,
  bytes_eq, if◌then◌else◌, some, List, [], ◌∷◌, length, bind_inv, some_inj, u64_add, arith,
  Bool-cases, inl, inr, if_rule,
}
use deadmkt_node.Maps.{lookup, contains}
use deadmkt_node.Bytes.{Bytes}
use deadmkt_node.Text.Search.{Text}
use deadmkt_node.Strategy.Convert.{OrderSpec, CanonicalOrder, Converted, ok, err, convert_order}
use deadmkt_node.Strategy.Validate.{
  OrderValidationContext, ValidationResult, Progress, Warning, truncated, pair_not_active,
  price_is_zero, below_min_quantity, exceeds_projected, conversion_failed, compute_outflow, warn,
  spent, projected_for, check_balance, below_min, check_order, check_converted, check_spec,
  check_specs, first, begin, validate_orders,
}

-- The order that a warning is about; the first warning of all is about none.
abbrev pub about : Warning → Option ℕ
about (truncated specs commits_per_batch) = none
about (conversion_failed i e) = some i
about (pair_not_active i) = some i
about (price_is_zero i) = some i
about (below_min_quantity i) = some i
about (exceeds_projected i) = some i

-- The orders of a strategy from the index `i` on, each answered in its turn: by its conversion with
-- the nonce of its index among the orders, or by a warning with its index.
pub data Answers (ctx : OrderValidationContext) (nonce_fn : ℕ → Bytes)
    : ℕ → List OrderSpec → List CanonicalOrder → List Warning → Type 0 where
  none_left : (i : ℕ) → Answers ctx nonce_fn i [] [] []
  accepted :
      (i : ℕ) (spec : OrderSpec) (specs : List OrderSpec) (order : CanonicalOrder)
      (orders : List CanonicalOrder) (warnings : List Warning)
      → convert_order spec ctx.token_decimals ctx.nft_id ctx.batch_id (nonce_fn i) ≡ ok order
      → Answers ctx nonce_fn (i + 1) specs orders warnings
      → Answers ctx nonce_fn i (spec ∷ specs) (order ∷ orders) warnings
  warned :
      (i : ℕ) (spec : OrderSpec) (specs : List OrderSpec) (w : Warning)
      (orders : List CanonicalOrder) (warnings : List Warning)
      → about w ≡ some i
      → Answers ctx nonce_fn (i + 1) specs orders warnings
      → Answers ctx nonce_fn i (spec ∷ specs) orders (w ∷ warnings)

-- What one step does: a warning with the index more, or the converted order more.
data Step (i : ℕ) (c : Converted CanonicalOrder) : Progress → Progress → Type 0 where
  warns :
      (p q : Progress) (w : Warning)
      → about w ≡ some i
      → q.result.orders ≡ p.result.orders
      → q.result.warnings ≡ p.result.warnings ++ (w ∷ [])
      → Step i c p q
  accepts :
      (p q : Progress) (order : CanonicalOrder)
      → c ≡ ok order
      → q.result.orders ≡ p.result.orders ++ (order ∷ [])
      → q.result.warnings ≡ p.result.warnings
      → Step i c p q

balance-Step :
    (ctx : OrderValidationContext) (i : ℕ) (order : CanonicalOrder) (charge : Text × ℕ)
    (p : Progress)
    → Step i (ok order) p (check_balance ctx i order charge p)
balance-Step ctx i order (token, amount) p =
    if_rule (λ (q : Progress). Step i (ok order) p q)
      (ltb (projected_for ctx token) (u64_add (spent token p) amount)) _ _
      (λ over. warns p _ (exceeds_projected i) refl refl refl)
      (λ fits. accepts p _ order refl refl refl)

order-Step :
    (ctx : OrderValidationContext) (i : ℕ) (spec : OrderSpec) (order : CanonicalOrder)
    (p q : Progress)
    → check_order ctx i spec order p ≡ some q
    → Step i (ok order) p q
unfolding check_order
order-Step ctx i spec order p q h =
    let keep : (w : Warning) → about w ≡ some i → some (warn w p) ≡ some q → Step i (ok order) p q =
      λ w index e.
        subst (Step i (ok order) p) (some_inj e) (warns p (warn w p) w index refl refl) in
    elim (Bool-cases (contains spec.pair ctx.active_pairs)) [
      | inr dead ↦ keep (pair_not_active i) refl (rw dead at h)
      | inl live ↦ elim (Bool-cases (order.price == zero)) [
        | inl free ↦ keep (price_is_zero i) refl (rw (live, free) at h)
        | inr priced ↦
            elim (Bool-cases (below_min (lookup spec.pair ctx.min_quantities) order.quantity)) [
              | inl small ↦ keep (below_min_quantity i) refl (rw (live, priced, small) at h)
              | inr enough ↦
                  let rest =
                    bind_inv (compute_outflow order spec.pair ctx.token_decimals) _ q
                      (rw (live, priced, enough) at h) in
                  subst (Step i (ok order) p) (some_inj rest.2) (balance-Step ctx i order rest.0 p)
            ]
      ]
    ]

converted-Step :
    (ctx : OrderValidationContext) (i : ℕ) (spec : OrderSpec) (c : Converted CanonicalOrder)
    (p q : Progress)
    → check_converted ctx i spec c p ≡ some q
    → Step i c p q
converted-Step ctx i spec (err e) p q h =
    subst (Step i (err e) p) (some_inj h)
      (warns p (warn (conversion_failed i e) p) (conversion_failed i e) refl refl refl)
converted-Step ctx i spec (ok order) p q h = order-Step ctx i spec order p q h

-- What the loop adds to a result.
Adds : OrderValidationContext → (ℕ → Bytes) → ℕ → List OrderSpec → Progress → Progress → Type 0
Adds ctx nonce_fn i specs p q =
    (orders : List CanonicalOrder) × (warnings : List Warning) × (q.result.orders
      ≡ p.result.orders ++ orders)
    × (q.result.warnings ≡ p.result.warnings ++ warnings)
    × Answers ctx nonce_fn i specs orders warnings

step-Adds :
    (ctx : OrderValidationContext) (nonce_fn : ℕ → Bytes) (i : ℕ) (spec : OrderSpec)
    (specs : List OrderSpec) (p m q : Progress)
    → Step i (convert_order spec ctx.token_decimals ctx.nft_id ctx.batch_id (nonce_fn i)) p m
    → Adds ctx nonce_fn (i + 1) specs m q
    → Adds ctx nonce_fn i (spec ∷ specs) p q
unfolding Adds
step-Adds ctx nonce_fn i spec specs p m q (warns _ _ w index same more) (os, ws, eo, ew, rest) = (
  os,
  w ∷ ws,
  eo ∙ ap (λ l. l ++ os) same,
  ew ∙ ap (λ l. l ++ ws) more ∙ append_assoc p.result.warnings (w ∷ []) ws,
  warned i spec specs w os ws index rest,
)
step-Adds ctx nonce_fn i spec specs p m q (accepts _ _ order made more same)
      (os, ws, eo, ew, rest) =
    (
      order ∷ os,
      ws,
      eo ∙ ap (λ l. l ++ os) more ∙ append_assoc p.result.orders (order ∷ []) os,
      ew ∙ ap (λ l. l ++ ws) same,
      accepted i spec specs order os ws made rest,
    )

specs-Adds :
    (ctx : OrderValidationContext) (nonce_fn : ℕ → Bytes) (i : ℕ) (specs : List OrderSpec)
    (p q : Progress)
    → check_specs ctx nonce_fn i specs p ≡ some q
    → Adds ctx nonce_fn i specs p q
unfolding check_specs check_spec Adds
specs-Adds ctx nonce_fn i [] p q h = (
  [],
  [],
  sym (ap (λ x. x.result.orders) (some_inj h)) ∙ sym (append-nil _),
  sym (ap (λ x. x.result.warnings) (some_inj h)) ∙ sym (append-nil _),
  none_left i,
)
specs-Adds ctx nonce_fn i (spec ∷ specs) p q h =
    let step = bind_inv (check_spec ctx nonce_fn i spec p) _ q h in
    step-Adds ctx nonce_fn i spec specs p step.0 q (converted-Step ctx i spec _ p step.0 step.1)
      (specs-Adds ctx nonce_fn (i + 1) specs step.0 q step.2)

length-Answers :
    (ctx : OrderValidationContext) (nonce_fn : ℕ → Bytes) (i : ℕ) (specs : List OrderSpec)
    (orders : List CanonicalOrder) (warnings : List Warning)
    → Answers ctx nonce_fn i specs orders warnings
    → length orders ≤ length specs
length-Answers ctx nonce_fn i _ _ _ (none_left _) = omega arith
length-Answers ctx nonce_fn i _ _ _ (accepted _ spec specs order orders warnings made rest) =
    omega (arith, length-Answers ctx nonce_fn (i + 1) specs orders warnings rest)
length-Answers ctx nonce_fn i _ _ _ (warned _ spec specs w orders warnings index rest) =
    omega (arith, length-Answers ctx nonce_fn (i + 1) specs orders warnings rest)

length-first :
    {A : Type 0} (n : ℕ) (xs : List A)
    → length (first n xs) ≡ (if ltb n (length xs) then n else length xs)
length-first zero [] = refl
length-first zero (x ∷ xs) = ground arith
length-first (suc n) [] = ground arith
length-first (suc n) (x ∷ xs) = ground (arith, length-first n xs)

-- No order is dropped without a word, and never more than the quota is let through: of the orders
-- within the quota, in their order, each is answered by its own conversion among the result's orders
-- or by a warning with its own index; the orders beyond the quota are answered by one warning before
-- all others, which is there exactly if there are such.
pub validated_all_answered :
    (specs : List OrderSpec) (ctx : OrderValidationContext) (nonce_fn : ℕ → Bytes)
    (r : ValidationResult)
    → validate_orders specs ctx nonce_fn ≡ some r
    → (length r.orders ≤ ctx.commits_per_batch)
      × ((warnings : List Warning) × (r.warnings ≡ (
            if ltb ctx.commits_per_batch (length specs)
            then truncated (length specs) ctx.commits_per_batch ∷ warnings
            else warnings))
          × Answers ctx nonce_fn 0 (first ctx.commits_per_batch specs) r.orders warnings)
unfolding validate_orders Adds
validated_all_answered specs ctx nonce_fn r h =
    let quota = ctx.commits_per_batch in
    let run =
      bind_inv (check_specs ctx nonce_fn 0 (first quota specs) (begin ctx (length specs))) _ r h in
    let all =
      specs-Adds ctx nonce_fn 0 (first quota specs) (begin ctx (length specs)) run.0 run.1 in
    let same = some_inj run.2 in
    let orders : r.orders ≡ all.0 = sym (ap (λ x. x.orders) same) ∙ all.2 in
    let answers =
      subst (λ l. Answers ctx nonce_fn 0 (first quota specs) l all.1) (sym orders) all.4 in
    let few = length-Answers ctx nonce_fn 0 (first quota specs) r.orders all.1 answers in
    (
      ground (arith, few, length-first quota specs),
      (all.1, sym (ap (λ x. x.warnings) same) ∙ all.3 ∙ ground arith, answers),
    )
