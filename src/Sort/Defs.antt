-- ===== src/Sort/Defs.antt =====
-- The order that a comparison closure gives, and the stable sort of a slice by it.
use deadmkt_node.Prelude.{◌≡◌, Bool, true, false, List, [], ◌∷◌, if◌then◌else◌}

-- `before a b` is `cmp(a, b) == Less`; two elements that neither precedes have one key.
pub record StrictOrder {ℓ κ} (A : Type ℓ) (K : Type κ) : Type (ℓ ⊔ κ) where
  pub before : A → A → Bool
  pub key : A → K
  pub asymm : (a b : A) → before a b ≡ true → before b a ≡ false
  pub not_after_trans : (a b c : A) → before b a ≡ false → before c b ≡ false → before c a ≡ false
  pub same_key : (a b : A) → before a b ≡ false → before b a ≡ false → key a ≡ key b

module _ {ℓ} {A : Type ℓ} (before : A → A → Bool) where
  unfoldable pub insert_sorted : A → List A → List A
  insert_sorted x [] = x ∷ []
  insert_sorted x (y ∷ ys) =
      let later = y ∷ insert_sorted x ys in if before y x then later else x ∷ y ∷ ys

  unfoldable pub sort_by : List A → List A
  unfolding insert_sorted
  sort_by [] = []
  sort_by (x ∷ xs) = insert_sorted x (sort_by xs)
