-- ===== src/Bytes/Lex.antt =====
-- The lexicographic order of byte strings is a strict total order.
use deadmkt_node.Prelude.{
  ℕ, ◌≡◌, refl, Bool, true, false, ◌&&◌, ◌||◌, List, [], ◌∷◌, ltb, nat_beq, arith,
}

-- `a < b` on `&[u8]`, `[u8; 32]` and `Vec<u8>`.
unfoldable pub lex_ltb : List ℕ → List ℕ → Bool
lex_ltb [] [] = false
lex_ltb [] (y ∷ ys) = true
lex_ltb (x ∷ xs) [] = false
lex_ltb (x ∷ xs) (y ∷ ys) = ltb x y || (nat_beq x y && lex_ltb xs ys)

pub lex_ltb_asymm : (a b : List ℕ) → lex_ltb a b ≡ true → lex_ltb b a ≡ false
unfolding lex_ltb
lex_ltb_asymm [] [] h = ground arith
lex_ltb_asymm [] (y ∷ ys) h = ground arith
lex_ltb_asymm (x ∷ xs) [] h = ground arith
lex_ltb_asymm (x ∷ xs) (y ∷ ys) h = ground (arith, lex_ltb_asymm xs ys)

pub lex_ltb_total : (a b : List ℕ) → lex_ltb a b ≡ false → lex_ltb b a ≡ false → a ≡ b
unfolding lex_ltb
lex_ltb_total [] [] h k = refl
lex_ltb_total [] (y ∷ ys) h k = ground arith
lex_ltb_total (x ∷ xs) [] h k = ground arith
lex_ltb_total (x ∷ xs) (y ∷ ys) h k = ground (arith, lex_ltb_total xs ys)

pub lex_ltb_not_after_trans :
    (a b c : List ℕ) → lex_ltb b a ≡ false → lex_ltb c b ≡ false → lex_ltb c a ≡ false
unfolding lex_ltb
lex_ltb_not_after_trans a [] [] h k = h
lex_ltb_not_after_trans a [] (z ∷ zs) h k = rw (lex_ltb_nil a h) (lex_ltb-cons_nil z zs)
  where
    lex_ltb_nil : (a : List ℕ) → lex_ltb [] a ≡ false → a ≡ []
    lex_ltb_nil [] h = refl
    lex_ltb_nil (x ∷ xs) h = ground arith

    lex_ltb-cons_nil : (z : ℕ) (zs : List ℕ) → lex_ltb (z ∷ zs) [] ≡ false
    lex_ltb-cons_nil z zs = refl
lex_ltb_not_after_trans a (y ∷ ys) [] h k = ground arith
lex_ltb_not_after_trans [] (y ∷ ys) (z ∷ zs) h k = refl
lex_ltb_not_after_trans (x ∷ xs) (y ∷ ys) (z ∷ zs) h k =
    ground (arith, lex_ltb_not_after_trans xs ys zs)
