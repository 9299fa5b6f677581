-- ===== src/Strategy/Decimal.antt =====
-- crates/strategy/src/convert.rs: the number that `parse_decimal_to_fixed` reads.
use native.Mathlib.Nat.{pow-le-pow_right, mod-eq_of_lt}
use deadmkt_node.Prelude.{
  ℕ, ◌+◌, ◌-◌, ◌*◌, ◌%◌, ◌^◌, ◌≤◌, ◌<◌, ◌≡◌, ap, zero, suc, true, false, not, ◌&&◌, ◌||◌, leb, ◌==◌,
  nat_eq, if◌then◌else◌, Option, none, some, [], ◌∷◌, ◌>>=◌, bind_inv, arith, Bool-cases, inl, inr,
}
use deadmkt_node.Text.Search.{Text, trim}
use deadmkt_node.Text.Parse.{from_str_radix, denotes, parse_digits_exact}
use deadmkt_node.Strategy.Convert.{
  all_digits, is_empty, fit, parse_u128, u128_max, fraction, fixed_point, if_fits, parts,
  parse_decimal_to_fixed,
}

-- The value of a fractional part with so many decimals.
abbrev pub fraction_value : Text → ℕ → Option ℕ
fraction_value [] decimals = some 0
fraction_value (c ∷ s) decimals = denotes 10 0 (fit decimals (c ∷ s))

no_sign : (c : ℕ) → (leb 48 c && leb c 57) ≡ true → (c == 43) ≡ false
no_sign c h = ground arith

-- A text whose first character is a digit is read digit by digit.
parse_u128-denotes :
    (c v : ℕ) (s : Text)
    → (leb 48 c && leb c 57) ≡ true
    → parse_u128 (c ∷ s) ≡ some v
    → denotes 10 0 (c ∷ s) ≡ some v
unfolding from_str_radix
parse_u128-denotes c v [] digit h =
    ((parse_digits_exact 9 u128_max 0 (c ∷ []) v (omega arith)).0 (rw (no_sign c digit) at h)).0
parse_u128-denotes c v (d ∷ s) digit h =
    ((parse_digits_exact 9 u128_max 0 (c ∷ d ∷ s) v (omega arith)).0 (rw (no_sign c digit) at h)).0

integer-denotes :
    (s : Text) (v : ℕ)
    → is_empty s ≡ false
    → all_digits s ≡ true
    → parse_u128 s ≡ some v
    → denotes 10 0 s ≡ some v
integer-denotes [] v full digits h = absurd (ground arith)
integer-denotes (c ∷ s) v full digits h = parse_u128-denotes c v s (ground arith) h

fraction-denotes :
    (s : Text) (decimals v : ℕ)
    → all_digits s ≡ true
    → fraction s decimals ≡ some v
    → fraction_value s decimals ≡ some v
unfolding from_str_radix
fraction-denotes [] decimals v digits h = h
fraction-denotes (c ∷ s) zero v digits h = absurd (ground arith)
fraction-denotes (c ∷ s) (suc decimals) v digits h =
    parse_u128-denotes c v (fit decimals s) (ground arith) h

if_fits_inv : (most n v : ℕ) → if_fits most n ≡ some v → (n ≡ v) × (v ≤ most)
if_fits_inv most n v h = ground arith

power : (decimals : ℕ) → decimals ≤ 38 → 10 ^ decimals % 2 ^ 128 ≡ 10 ^ decimals
power decimals h =
    let top : 10 ^ decimals ≤ 10 ^ 38 = pow-le-pow_right (omega arith) h in
    mod-eq_of_lt (omega (arith, top))

fixed_point_inv :
    (int_val frac_val decimals v : ℕ)
    → decimals ≤ 38
    → fixed_point int_val frac_val decimals ≡ some v
    → (v ≡ int_val * 10 ^ decimals + frac_val) × (v < 2 ^ 64)
fixed_point_inv int_val frac_val decimals v h q =
    let product = bind_inv _ _ v q in
    let sum = bind_inv (if_fits u128_max (product.0 + frac_val)) _ v product.2 in
    let a = if_fits_inv u128_max (int_val * (10 ^ decimals % 2 ^ 128)) product.0 product.1 in
    let b = if_fits_inv u128_max (product.0 + frac_val) sum.0 sum.1 in
    let c = if_fits_inv (2 ^ 64 - 1) sum.0 v sum.2 in
    let p = ap (λ x. int_val * x) (power decimals h) in
    (omega (arith, a.0, b.0, c.0, p), omega (arith, c.1))

-- For up to 38 decimals, a text that is accepted is, up to blanks around it, an integer part of
-- digits and a fractional part of digits, and the number is the integer part times the power of ten
-- plus the fractional part, padded with zeroes or cut off to the decimals. It fits 64 bits.
pub parse_decimal_exact :
    (text : Text) (decimals v : ℕ)
    → decimals ≤ 38
    → parse_decimal_to_fixed text decimals ≡ some v
    → (whole part : ℕ) × (denotes 10 0 (parts (trim text)).0 ≡ some whole)
      × (fraction_value (parts (trim text)).1 decimals ≡ some part)
      × (v ≡ whole * 10 ^ decimals + part)
      × (v < 2 ^ 64)
unfolding parse_decimal_to_fixed
parse_decimal_exact text decimals v h q = go (parts (trim text)).0 (parts (trim text)).1 q
  where
    go :
        (a b : Text)
        → (if is_empty a || not (all_digits a) || not (all_digits b)
            then none
            else (parse_u128 a >>= λ int_val.
                fraction b decimals >>= λ frac_val. fixed_point int_val frac_val decimals))
          ≡ some v
        → (whole part : ℕ) × (denotes 10 0 a ≡ some whole)
          × (fraction_value b decimals ≡ some part)
          × (v ≡ whole * 10 ^ decimals + part)
          × (v < 2 ^ 64)
    go a b q = elim (Bool-cases (is_empty a || not (all_digits a) || not (all_digits b))) [
      | inl bad ↦ absurd (let no = rw bad at q in ground arith)
      | inr fine ↦
          let int = bind_inv (parse_u128 a) _ v (rw fine at q) in
          let frac = bind_inv (fraction b decimals) _ v int.2 in
          let sum = fixed_point_inv int.0 frac.0 decimals v h frac.2 in
          (
            int.0,
            frac.0,
            integer-denotes a int.0 (ground arith) (ground arith) int.1,
            fraction-denotes b decimals frac.0 (ground arith) frac.1,
            sum.0,
            sum.1,
          )
    ]
