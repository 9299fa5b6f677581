-- ===== src/Settlement/Expiry.antt =====
-- crates/settlement/src/lib.rs: which entries `expire_stale` ends.
use deadmkt_node.Prelude.{
  ℕ, ◌≡◌, ◌≢◌, refl, subst, ◌∙◌, Bool, true, false, if◌then◌else◌, none, some, List, [], ◌∷◌, Mem,
  Nodup, String, string_eq, arith, Bool-cases, Option-cases, inl, inr, ltb, ◌>>=◌, ◌+◌, ◌%◌, ◌^◌,
}
use mathlib.Core.List.{Nodup-cons}
use deadmkt_node.Maps.{Map, keys, lookup, contains, contains_key, lookup-remove, found→mem-keys}
use deadmkt_node.Settlement.Defs.{PendingSettlement, SettlementManager, release_pending_internal}
use deadmkt_node.Settlement.Pending.{keys_where, is_stale, release_all, expire_stale}

contains-found :
    (test : PendingSettlement → Bool) (j : String) (m : Map String PendingSettlement)
    → contains j (keys_where test m) ≡ true
    → lookup j m ≢ none
unfolding contains keys_where lookup
contains-found test j [] h q = ground arith
contains-found test j ((i, ps) ∷ m) h q = ground (arith, contains-found test j m)

keys_where_absent :
    (test : PendingSettlement → Bool) (j : String) (m : Map String PendingSettlement)
    → ¬ (Mem j (keys m))
    → contains j (keys_where test m) ≡ false
keys_where_absent test j m absent = elim (Bool-cases (contains j (keys_where test m))) [
  | inl c ↦ absurd (absent (found→mem-keys j m (contains-found test j m c)))
  | inr f ↦ f
]

keys_where_lem :
    (test : PendingSettlement → Bool) (j : String) (ps : PendingSettlement)
    (m : Map String PendingSettlement)
    → Nodup (keys m)
    → lookup j m ≡ some ps
    → contains j (keys_where test m) ≡ test ps
unfolding contains keys_where lookup
keys_where_lem test j ps [] distinct found = absurd (ground arith)
keys_where_lem test j ps ((i, q) ∷ m) distinct found = elim (Bool-cases (string_eq.beq i j)) [
  | inl t ↦
      let name : i ≡ j = (string_eq.beq_iff i j).0 t in
      let value : q ≡ ps = ground arith in
      let rest =
        keys_where_absent test j m
          (subst (λ k. ¬ (Mem k (keys m))) name (Nodup-cons.0 distinct).0) in
      rw (← value) (ground (arith, rest))
  | inr f ↦ ground (arith, keys_where_lem test j ps m (Nodup-cons.0 distinct).1)
]

pub lookup-release :
    (key j : String) (s : SettlementManager)
    → lookup j (release_pending_internal key s).pending
      ≡ (if string_eq.beq key j then none else lookup j s.pending)
unfolding release_pending_internal
lookup-release key j s = elim (Bool-cases (contains_key key s.pending)) [
  | inl here ↦ rw here (lookup-remove key j s.pending)
  | inr gone ↦ ground (arith, string_eq.beq_iff key j)
]

lookup-release_all :
    (expired : List String) (j : String) (s : SettlementManager)
    → lookup j (release_all expired s).pending
      ≡ (if contains j expired then none else lookup j s.pending)
unfolding release_all contains
lookup-release_all [] j s = refl
lookup-release_all (key ∷ rest) j s =
    ground
      (arith, lookup-release key j s, lookup-release_all rest j (release_pending_internal key s))

-- The keys of a map are distinct. Expiry then leaves of every entry exactly what its age allows: one
-- whose batch, with the maximal age added in 64 bits, lies before the current batch is gone, every
-- other one is kept as it is, and none is added.
pub expire_stale_exact :
    (current age : ℕ) (s : SettlementManager) (j : String)
    → Nodup (keys s.pending)
    → lookup j (expire_stale current age s).pending ≡ (
        lookup j s.pending >>= λ ps.
        if ltb ((ps.created_at_batch + age) % 2 ^ 64) current then none else some ps)
unfolding expire_stale
expire_stale_exact current age s j distinct =
    let all = lookup-release_all (keys_where (is_stale current age) s.pending) j s in
    elim (Option-cases (lookup j s.pending)) [
      | inl absent ↦ rw absent (ground (arith, all))
      | inr (ps, found) ↦ rw found (
          all
          ∙ rw (keys_where_lem (is_stale current age) j ps s.pending distinct found, found) refl)
    ]
