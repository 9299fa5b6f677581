-- ===== src/Maps/Laws.antt =====
-- Reading after writing.
use mathlib.Core.List.{Nodup-cons, mem-cons, mem-cons_self, mem-cons_of_mem, not-mem-nil, Nodup-nil}
use mathlib.Core.HLevel.{⊥_prop}
use mathlib.Core.Logic.Or
use deadmkt_node.Prelude.{
  ℕ, ◌≡◌, ◌≢◌, ◌≤◌, ◌+◌, refl, ◌∙◌, true, false, not, ◌&&◌, ◌||◌, ap, none, some, List, [], ◌∷◌,
  Mem, Nodup, Eq, if◌then◌else◌, Bool-cases, inl, inr, beq_refl, beq_ne, arith, All, length, sum_by,
}
use deadmkt_node.Maps.Defs.{Map, keys, lookup, insert, remove, contains, add, contains_key, is_some}

module _ {ℓ κ} {K : Type ℓ} {V : Type κ} ⦃e : Eq K⦄ where
  pub lookup-insert :
      (k j : K) (v : V) (m : Map K V)
      → lookup j (insert k v m) ≡ (if e.beq k j then some v else lookup j m)
  unfolding lookup insert
  lookup-insert k j v [] = refl
  lookup-insert k j v ((i, w) ∷ m) =
      ground (arith, e.beq_iff k j, e.beq_iff i k, e.beq_iff i j, lookup-insert k j v m)

  pub lookup-insert_self : (k : K) (v : V) (m : Map K V) → lookup k (insert k v m) ≡ some v
  lookup-insert_self k v m = simp (lookup-insert, beq_refl k)

  pub lookup-insert_ne :
      (k j : K) (v : V) (m : Map K V) → k ≢ j → lookup j (insert k v m) ≡ lookup j m
  lookup-insert_ne k j v m h = simp (lookup-insert, beq_ne k j h)

  pub lookup-remove :
      (k j : K) (m : Map K V) → lookup j (remove k m) ≡ (if e.beq k j then none else lookup j m)
  unfolding lookup remove
  lookup-remove k j [] = ground arith
  lookup-remove k j ((i, w) ∷ m) =
      ground (arith, e.beq_iff k j, e.beq_iff i k, e.beq_iff i j, lookup-remove k j m)

  pub contains_key-insert :
      (k j : K) (v : V) (m : Map K V)
      → contains_key j (insert k v m) ≡ (e.beq k j || contains_key j m)
  contains_key-insert k j v m = elim (Bool-cases (e.beq k j)) [
    | inl t ↦ ap is_some (lookup-insert k j v m) ∙ rw t refl
    | inr f ↦ ap is_some (lookup-insert k j v m) ∙ rw f refl
  ]

  pub contains_key-remove :
      (k j : K) (m : Map K V) → contains_key j (remove k m) ≡ (not (e.beq k j) && contains_key j m)
  contains_key-remove k j m = elim (Bool-cases (e.beq k j)) [
    | inl t ↦ ap is_some (lookup-remove k j m) ∙ rw t refl
    | inr f ↦ ap is_some (lookup-remove k j m) ∙ rw f refl
  ]

  -- A predicate on all entries, and the operations.
  pub insert-All {ν} :
      (P : K × V → Type ν) (k : K) (v : V) (m : Map K V) → P (k, v) → All P m → All P (insert k v m)
  unfolding insert
  insert-All P k v [] p h = (p, tt)
  insert-All P k v ((j, w) ∷ m) p h = elim (Bool-cases (e.beq j k)) [
    | inl t ↦ rw t (p, h.1)
    | inr f ↦ rw f (h.0, insert-All P k v m p h.1)
  ]

  pub lookup-All {ν} :
      (P : K × V → Type ν) (k : K) (v : V) (m : Map K V) → All P m → lookup k m ≡ some v → P (k, v)
  unfolding lookup
  lookup-All P k v [] h q = absurd (ground arith)
  lookup-All P k v ((j, w) ∷ m) h q = elim (Bool-cases (e.beq j k)) [
    | inl t ↦
        let same : j ≡ k = (e.beq_iff j k).0 t in
        let value : w ≡ v = ground arith in rw (← same, ← value) h.0
    | inr f ↦ lookup-All P k v m h.1 (ground arith)
  ]

  pub length-insert : (k : K) (v : V) (m : Map K V) → length (insert k v m) ≤ length m + 1
  unfolding insert
  length-insert k v [] = omega arith
  length-insert k v ((j, w) ∷ m) = ground (arith, length-insert k v m)

  pub length-insert_present :
      (k : K) (v w : V) (m : Map K V) → lookup k m ≡ some w → length (insert k v m) ≡ length m
  unfolding insert lookup
  length-insert_present k v w [] h = ground arith
  length-insert_present k v w ((j, x) ∷ m) h = ground (arith, length-insert_present k v w m)

  -- The keys are what `lookup` finds.
  pub mem-keys→found : (j : K) (m : Map K V) → Mem j (keys m) → lookup j m ≢ none
  unfolding lookup
  mem-keys→found j [] h q = not-mem-nil h
  mem-keys→found j ((i, w) ∷ m) h q =
      Or.elim ⊥_prop (mem-cons.0 h) (λ same. ground (arith, e.beq_iff i j))
        (λ later. ground (arith, e.beq_iff i j, mem-keys→found j m later))

  pub found→mem-keys : (j : K) (m : Map K V) → lookup j m ≢ none → Mem j (keys m)
  unfolding lookup
  found→mem-keys j [] h = absurd (h refl)
  found→mem-keys j ((i, w) ∷ m) h = elim (Bool-cases (e.beq i j)) [
    | inl t ↦ rw ((e.beq_iff i j).0 t) mem-cons_self
    | inr f ↦ mem-cons_of_mem i (found→mem-keys j m (λ q. h (rw f q)))
  ]

  pub insert-Nodup : (k : K) (v : V) (m : Map K V) → Nodup (keys m) → Nodup (keys (insert k v m))
  unfolding insert
  insert-Nodup k v [] d = Nodup-cons.1 (not-mem-nil, Nodup-nil)
  insert-Nodup k v ((j, w) ∷ m) d = elim (Bool-cases (e.beq j k)) [
    | inl t ↦ rw t (rw ((e.beq_iff j k).0 t) at d)
    | inr f ↦ rw f (
        Nodup-cons.1 (
          λ i. (Nodup-cons.0 d).0 (
              found→mem-keys j m (λ q.
                mem-keys→found j (insert k v m) i
                  (lookup-insert_ne k j v m (λ s. differ s f) ∙ q))),
          insert-Nodup k v m (Nodup-cons.0 d).1,
        ))
  ]
    where
      differ : k ≡ j → e.beq j k ≡ false → ⊥
      differ s f = ground (arith, e.beq_iff j k)

  -- A sum over the entries, after an insertion.
  pub sum_by-insert_new :
      (f : K × V → ℕ) (k : K) (v : V) (m : Map K V)
      → lookup k m ≡ none
      → sum_by f (insert k v m) ≡ sum_by f m + f (k, v)
  unfolding insert lookup
  sum_by-insert_new f k v [] h = omega arith
  sum_by-insert_new f k v ((j, w) ∷ m) h = ground (arith, sum_by-insert_new f k v m)

  pub sum_by-insert_present :
      (f : K × V → ℕ) (k : K) (v w : V) (m : Map K V)
      → lookup k m ≡ some w
      → sum_by f (insert k v m) + f (k, w) ≡ sum_by f m + f (k, v)
  unfolding insert lookup
  sum_by-insert_present f k v w [] h = ground arith
  sum_by-insert_present f k v w ((j, x) ∷ m) h =
      ground (arith, e.beq_iff j k, sum_by-insert_present f k v w m)

module _ {ℓ} {K : Type ℓ} ⦃e : Eq K⦄ where
  pub contains-add_self : (k : K) (s : List K) → contains k (add k s) ≡ true
  unfolding contains add
  contains-add_self k s = elim (Bool-cases (contains k s)) [
    | inl old ↦ rw old old
    | inr new ↦ rw (new, beq_refl k)
  ]
