-- ===== src/Strategy/Convert.antt =====
-- crates/strategy/src/convert.rs, `parse_decimal_to_fixed` and `convert_order`. The texts of an order
-- are lists of code points.
use deadmkt_node.Prelude.{
  ℕ, ◌+◌, ◌-◌, ◌*◌, ◌/◌, ◌%◌, ◌^◌, zero, suc, Bool, true, false, ◌&&◌, ◌||◌, not, leb, ltb, ◌==◌,
  nat_eq, bytes_eq, if◌then◌else◌, Option, none, some, List, [], ◌∷◌, ◌>>=◌,
}
use deadmkt_node.Maps.{Map, lookup, get_or}
use deadmkt_node.Bytes.{Bytes}
use deadmkt_node.Text.Search.{Text, codes, split, split_once, trim}
use deadmkt_node.Text.Parse.{from_str_radix}

pub record OrderSpec : Type 0 where
  pub pair : Text
  pub side : Text
  pub price : Text
  pub quantity : Text

pub record CanonicalOrder : Type 0 where
  pub symbol : Bytes
  pub side : ℕ
  pub price : ℕ
  pub quantity : ℕ
  pub nft_id : ℕ
  pub batch_id : ℕ
  pub nonce : Bytes

-- The variants that a conversion gives, without their texts.
pub data StrategyError : Type 0 where
  invalid_price invalid_quantity invalid_side : StrategyError

-- `Result<_, StrategyError>`
pub data Converted (A : Type 0) : Type 0 where
  ok : A → Converted A
  err : StrategyError → Converted A

abbrev pub all_digits : Text → Bool
all_digits [] = true
all_digits (c ∷ s) = leb 48 c && leb c 57 && all_digits s

abbrev pub is_empty : Text → Bool
is_empty [] = true
is_empty (c ∷ s) = false

-- The first `n` of a text, and as many zeroes as are missing.
abbrev pub fit : ℕ → Text → Text
fit zero s = []
fit (suc n) [] = b'0' ∷ fit n []
fit (suc n) (c ∷ s) = c ∷ fit n s

abbrev pub u128_max : ℕ
u128_max = 2 ^ 128 - 1

abbrev pub parse_u128 : Text → Option ℕ
parse_u128 = from_str_radix 10 u128_max

-- The fractional part is padded or truncated to the decimals of the token.
abbrev pub fraction : Text → ℕ → Option ℕ
fraction [] target_decimals = some 0
fraction (c ∷ s) target_decimals = parse_u128 (fit target_decimals (c ∷ s))

abbrev pub if_fits : ℕ → ℕ → Option ℕ
if_fits most n = if leb n most then some n else none

abbrev pub parts : Text → Text × Text
parts s = elim (split_once b'.' s) [ none ↦ (s, []) | some halves ↦ halves ]

-- `checked_mul` and `checked_add`; the power itself wraps.
abbrev pub fixed_point : (int_val frac_val target_decimals : ℕ) → Option ℕ
fixed_point int_val frac_val target_decimals =
    if_fits u128_max (int_val * (10 ^ target_decimals % 2 ^ 128)) >>= λ product.
    if_fits u128_max (product + frac_val) >>= if_fits (2 ^ 64 - 1)

-- `none` is an error, whose text is not modelled.
unfoldable pub parse_decimal_to_fixed : Text → (target_decimals : ℕ) → Option ℕ
parse_decimal_to_fixed text target_decimals =
    let halves = parts (trim text) in
    if is_empty halves.0 || not (all_digits halves.0) || not (all_digits halves.1)
    then none
    else (parse_u128 halves.0 >>= λ int_val. fraction halves.1 target_decimals >>= λ frac_val.
        fixed_point int_val frac_val target_decimals)

-- `as_bytes`: UTF-8.
abbrev pub utf8 : Text → Bytes
utf8 [] = []
utf8 (c ∷ s) =
    if ltb c 128
    then c ∷ utf8 s
    else if ltb c 2048
    then (192 + c / 64) ∷ (128 + c % 64) ∷ utf8 s
    else if ltb c 65536
    then (224 + c / 4096) ∷ (128 + c / 64 % 64) ∷ (128 + c % 64) ∷ utf8 s
    else (240 + c / 262144) ∷ (128 + c / 4096 % 64) ∷ (128 + c / 64 % 64) ∷ (128 + c % 64) ∷ utf8 s

abbrev pub first_part : List Text → Text
first_part [] = []
first_part (part ∷ rest) = part

abbrev pub second_part : List Text → Text
second_part (part ∷ next ∷ rest) = next
second_part _ = []

unfoldable pub base_token : Text → Text
base_token pair = first_part (split b'/' pair)

unfoldable pub quote_token : Text → Text
quote_token pair = second_part (split b'/' pair)

-- `token_decimals.get(token).copied().unwrap_or(5)`
abbrev pub decimals_of : Map Text ℕ → Text → ℕ
decimals_of token_decimals token = get_or 5 (lookup token token_decimals)

abbrev pub side_of : Text → Option ℕ
side_of side = if side == codes "buy" then some 1 else if side == codes "sell" then some 0 else none

abbrev pub or_err : {A B : Type 0} → Option A → StrategyError → (A → Converted B) → Converted B
or_err none e f = err e
or_err (some a) e f = f a

unfoldable pub convert_order :
    OrderSpec
    → (token_decimals : Map Text ℕ) → (nft_id batch_id : ℕ) → (nonce : Bytes)
    → Converted CanonicalOrder
unfolding parse_decimal_to_fixed base_token
convert_order spec token_decimals nft_id batch_id nonce =
    or_err (side_of spec.side) invalid_side λ side.
      or_err (parse_decimal_to_fixed spec.price 8) invalid_price λ price.
        or_err
          (parse_decimal_to_fixed spec.quantity (decimals_of token_decimals (base_token spec.pair)))
          invalid_quantity
          λ quantity. ok (record {
            symbol = utf8 spec.pair;
            side = side;
            price = price;
            quantity = quantity;
            nft_id = nft_id;
            batch_id = batch_id;
            nonce = nonce;
          })
