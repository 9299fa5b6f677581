-- ===== src/Text/Parse.antt =====
-- `from_str_radix` and `parse` for unsigned integers, and what they compute.
use deadmkt_node.Prelude.{
  ℕ, suc, ◌+◌, ◌-◌, ◌*◌, ◌≤◌, ◌≡◌, ◌↔◌, ◌&&◌, leb, ltb, ◌==◌, nat_eq, if◌then◌else◌, Option, none,
  some, [], ◌∷◌, ◌>>=◌, arith, Option-cases, inl, inr, Bool-cases,
}
use deadmkt_node.Text.Search.{Text}

-- The value of a digit: `char::to_digit`.
unfoldable pub digit_of : (radix c : ℕ) → Option ℕ
digit_of radix c =
    let d =
      if leb 48 c && leb c 57
      then some (c - 48)
      else if leb 97 c && leb c 122
      then some (c - 87)
      else if leb 65 c && leb c 90
      then some (c - 55)
      else none in
    d >>= λ v. if ltb v radix then some v else none

-- The loop over the digits, which stops at an overflow of the type, whose largest value is `most`.
unfoldable pub parse_digits : (radix most acc : ℕ) → Text → Option ℕ
parse_digits radix most acc [] = some acc
parse_digits radix most acc (c ∷ s) = elim (digit_of radix c) [
  | none ↦ none
  | some d ↦
      if leb (acc * radix + d) most then parse_digits radix most (acc * radix + d) s else none
]

-- `from_str_radix`: a sign `+` is allowed, an empty text is not.
unfoldable pub from_str_radix : (radix most : ℕ) → Text → Option ℕ
unfolding parse_digits
from_str_radix radix most [] = none
from_str_radix radix most (c ∷ []) = if c == 43 then none else parse_digits radix most 0 (c ∷ [])
from_str_radix radix most (c ∷ d ∷ s) =
    if c == 43 then parse_digits radix most 0 (d ∷ s) else parse_digits radix most 0 (c ∷ d ∷ s)

-- The value that a text of digits denotes, of any size.
unfoldable pub denotes : (radix acc : ℕ) → Text → Option ℕ
denotes radix acc [] = some acc
denotes radix acc (c ∷ s) = elim (digit_of radix c) [
  | none ↦ none
  | some d ↦ denotes radix (acc * radix + d) s
]

grows : (r acc : ℕ) (s : Text) (v : ℕ) → denotes (suc r) acc s ≡ some v → acc ≤ v
unfolding denotes
grows r acc [] v h = ground arith
grows r acc (c ∷ s) v h = elim (Option-cases (digit_of (suc r) c)) [
  | inl q ↦ absurd (ground arith)
  | inr (d, q) ↦
      let later : acc * suc r + d ≤ v = grows r (acc * suc r + d) s v (ground arith) in omega arith
]

-- The checked loop gives a value exactly when the text denotes it and it fits the type.
pub parse_digits_exact :
    (r most acc : ℕ) (s : Text) (v : ℕ)
    → acc ≤ most
    → (parse_digits (suc r) most acc s ≡ some v) ↔ ((denotes (suc r) acc s ≡ some v) × (v ≤ most))
unfolding parse_digits denotes
parse_digits_exact r most acc [] v le = (ground arith, ground arith)
parse_digits_exact r most acc (c ∷ s) v le = elim (Option-cases (digit_of (suc r) c)) [
  | inl q ↦ (ground arith, ground arith)
  | inr (d, q) ↦
      rw (q, parse_digits, denotes)
        (elim (Bool-cases (leb (acc * suc r + d) most)) [
          | inl fits ↦ rw fits (parse_digits_exact r most (acc * suc r + d) s v (ground arith))
          | inr over ↦ rw over (
            ground arith,
            λ h. absurd (let bound = grows r (acc * suc r + d) s v h.0 in ground arith),
          )
        ])
]
