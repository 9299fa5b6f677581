-- ===== src/Sort/Laws.antt =====
-- The sort orders its input, keeps its members, and does not depend on their first order when no
-- two members share a key.
use mathlib.Core.List.{Nodup-cons, mem-cons_self}
use mathlib.Core.List.{Permᴰ}
use mathlib.Core.List.Perm
use mathlib.Core.Logic.{∥∥₁_elim}
use deadmkt_node.Prelude.{
  ◌≡◌, ◌≢◌, refl, ◌∙◌, Bool, false, List, [], ◌∷◌, map, Perm, Nodup, All, All-map, Bool-cases, inl,
  inr, arith,
}
use deadmkt_node.Sort.Defs.{StrictOrder, insert_sorted, sort_by}

module _ {ℓ} {A : Type ℓ} (before : A → A → Bool) where
  -- No element comes after one that it precedes.
  abbrev pub IsSorted : List A → Type ℓ
  IsSorted [] = Unit
  IsSorted (x ∷ xs) = All (λ y. before y x ≡ false) xs × IsSorted xs

  pub insert_sorted-perm : (x : A) (l : List A) → Perm (insert_sorted before x l) (x ∷ l)
  unfolding insert_sorted
  insert_sorted-perm x [] = Perm.rfl
  insert_sorted-perm x (y ∷ ys) = elim (Bool-cases (before y x)) [
    | inl e ↦ rw e (Perm.trans (Perm.cons y (insert_sorted-perm x ys)) (Perm.swap x y ys))
    | inr e ↦ rw e Perm.rfl
  ]

  -- Sorting loses and invents nothing.
  pub sort_by-perm : (l : List A) → Perm (sort_by before l) l
  unfolding sort_by
  sort_by-perm [] = Perm.rfl
  sort_by-perm (x ∷ xs) =
      Perm.trans (insert_sorted-perm x (sort_by before xs)) (Perm.cons x (sort_by-perm xs))

  insert_sorted-All {κ} :
      (P : A → Type κ) (x : A) (l : List A) → P x → All P l → All P (insert_sorted before x l)
  unfolding insert_sorted
  insert_sorted-All P x [] px h = (px, tt)
  insert_sorted-All P x (y ∷ ys) px h = elim (Bool-cases (before y x)) [
    | inl e ↦ rw e (h.0, insert_sorted-All P x ys px h.1)
    | inr e ↦ rw e (px, h)
  ]

  pub sort_by-All {κ} : (P : A → Type κ) (l : List A) → All P l → All P (sort_by before l)
  unfolding sort_by
  sort_by-All P [] h = tt
  sort_by-All P (x ∷ xs) h = insert_sorted-All P x (sort_by before xs) h.0 (sort_by-All P xs h.1)

module _ {ℓ κ} {A : Type ℓ} {K : Type κ} (o : StrictOrder A K) where
  open o use {before, key, asymm, not_after_trans, same_key}

  insert_sorted-IsSorted :
      (x : A) (l : List A) → IsSorted before l → IsSorted before (insert_sorted before x l)
  unfolding insert_sorted
  insert_sorted-IsSorted x [] s = (tt, tt)
  insert_sorted-IsSorted x (y ∷ ys) s = elim (Bool-cases (before y x)) [
    | inl e ↦ rw e (
      insert_sorted-All before (λ z. before z y ≡ false) x ys (asymm y x e) s.0,
      insert_sorted-IsSorted x ys s.1,
    )
    | inr e ↦
        rw e
          ((e, All-map {P = λ z. before z y ≡ false} (λ z h. not_after_trans x y z e h) ys s.0), s)
  ]

  pub sort_by-IsSorted : (l : List A) → IsSorted before (sort_by before l)
  unfolding sort_by
  sort_by-IsSorted [] = tt
  sort_by-IsSorted (x ∷ xs) = insert_sorted-IsSorted x (sort_by before xs) (sort_by-IsSorted xs)

  insert_sorted_comm :
      (a b : A) (l : List A)
      → key a ≢ key b
      → insert_sorted before a (insert_sorted before b l)
        ≡ insert_sorted before b (insert_sorted before a l)
  unfolding insert_sorted
  insert_sorted_comm a b [] h = ground (arith, asymm a b, asymm b a, same_key a b)
  insert_sorted_comm a b (y ∷ ys) h = ground (
    arith,
    asymm a b,
    asymm b a,
    asymm y a,
    asymm y b,
    same_key a b,
    not_after_trans a y b,
    not_after_trans b y a,
    insert_sorted_comm a b ys h,
  )

  -- Every order of the same elements, none sharing a key, sorts to one list.
  sort_by-eq_of_permᴰ :
      {l r : List A} → Permᴰ l r → Nodup (map key l) → sort_by before l ≡ sort_by before r
  unfolding sort_by
  sort_by-eq_of_permᴰ Permᴰ.nil d = refl
  sort_by-eq_of_permᴰ (Permᴰ.cons {b = b} e p) d = rw (e, sort_by-eq_of_permᴰ p (Nodup-cons.0 d).1)
  sort_by-eq_of_permᴰ (Permᴰ.swap {a = a} {b = b} {l = l} e f) d =
      rw (← e, ← f)
        (insert_sorted_comm a b (sort_by before l) (λ k. (Nodup-cons.0 d).0 (rw k mem-cons_self)))
  sort_by-eq_of_permᴰ (Permᴰ.trans p q) d =
      sort_by-eq_of_permᴰ p d ∙ sort_by-eq_of_permᴰ q (Perm.nodup (Perm.map key ∣ p ∣₁) d)

  pub sort_by-eq_of_perm :
      IsSet A → {l r : List A} → Perm l r → Nodup (map key l) → sort_by before l ≡ sort_by before r
  sort_by-eq_of_perm is_set p d = ∥∥₁_elim p (hlevel is_set) (λ q. sort_by-eq_of_permᴰ q d)
