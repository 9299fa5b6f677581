-- ===== src/Settlement/Status.antt =====
-- crates/settlement/src/lib.rs: `AbortCode::from_vm_status`.
use deadmkt_node.Prelude.{
  ℕ, ◌-◌, ◌^◌, ◌≡◌, refl, if◌then◌else◌, Option, none, some, List, [], ◌∷◌, ◌>>=◌,
}
use deadmkt_node.Text.Search.{
  Text, codes, contains_text, after_last, split_once, split, trim, strip_prefix,
}
use deadmkt_node.Maps.{lookup}
use deadmkt_node.Text.Parse.{from_str_radix, digit_of}
use deadmkt_node.Settlement.Codes.{AbortCode, from_code}

abbrev u64_max : ℕ
u64_max = 2 ^ 64 - 1

-- Hexadecimal after `0x`, and otherwise decimal.
abbrev pub parse_code : Text → Option ℕ
parse_code s = elim (strip_prefix (codes "0x") s) [
  | some hex ↦ from_str_radix 16 u64_max hex
  | none ↦ from_str_radix 10 u64_max s
]

-- The named format: the code in the last parentheses.
abbrev pub parenthesized : Text → Option ℕ
parenthesized status =
    after_last b'(' status >>= λ rest. split_once b')' rest >>= λ inner. parse_code (trim inner.0)

-- The last part after a colon, or the one before it where the last is blank.
abbrev pub last_part : List Text → Option ℕ
last_part [] = none
last_part (part ∷ []) = elim (trim part) [ [] ↦ none | (c ∷ s) ↦ parse_code (c ∷ s) ]
last_part (prev ∷ last ∷ []) = elim (trim last) [
  | [] ↦ parse_code (trim prev)
  | (c ∷ s) ↦ parse_code (c ∷ s)
]
last_part (part ∷ next ∷ later ∷ rest) = last_part (next ∷ later ∷ rest)

abbrev pub first_some : Option ℕ → Option ℕ → Option ℕ
first_some none o = o
first_some (some a) o = some a

unfoldable pub from_vm_status : Text → Option AbortCode
from_vm_status status =
    if contains_text (codes "Move abort") status
    then (first_some (parenthesized status) (last_part (split b':' status)) >>= λ code.
        some (from_code code))
    else none

-- The formats that the source lists.
named_format :
    from_vm_status (codes "Move abort in 0x1::settlement: E_OVER(0x10015): ")
    ≡ some AbortCode.buyer_overfill
unfolding from_vm_status from_str_radix from_code digit_of lookup
named_format = refl

decimal_format :
    from_vm_status (codes "Move abort in 0x1::settlement: 65551") ≡ some AbortCode.already_settled
unfolding from_vm_status from_str_radix from_code digit_of lookup
decimal_format = refl
