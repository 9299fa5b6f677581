-- ===== src/Chain/Warming.antt =====
-- crates/chain/src/pubkey.rs: the keys that a warmed cache serves.
use deadmkt_node.Prelude.{
  ℕ, ◌≡◌, refl, sym, ◌∙◌, subst, Bool, true, ◌==◌, nat_eq, Option, none, some, List, [], ◌∷◌,
  bind_inv, some_inj, arith, Bool-cases, Option-cases, inl, inr, All, All-at, ◌++◌, if_rule, ap,
}
use deadmkt_node.Maps.{Map, lookup, insert, lookup-insert}
use deadmkt_node.Bytes.{Bytes}
use deadmkt_node.Chain.{compute_pool_assignment}
use deadmkt_node.Chain.Pubkeys.{Access, is_key, cached_key, fetch_key, get_pubkey, warm_pool}

module _ (registry : ℕ → Bytes) where
  -- The table holds no key but the registered one, apart from texts that are no keys.
  abbrev pub Agrees : Map ℕ Bytes → Type 0
  Agrees table =
      (n : ℕ) (key : Bytes) → lookup n table ≡ some key → is_key key ≡ true → key ≡ registry n

  -- The chain answers with the registered key, or with an error.
  abbrev pub IsTrue : ℕ × Access → Type 0
  IsTrue (n, a) = (key : Bytes) → a.answer ≡ some key → key ≡ registry n

  -- What a step makes of the table: it still agrees, and a key that it held it still holds.
  record Keeps (before after : Map ℕ Bytes) : Type 0 where
    agrees : Agrees after
    holds : (n : ℕ) → lookup n before ≡ some (registry n) → lookup n after ≡ some (registry n)

  insert-Keeps :
      (n : ℕ) (table : Map ℕ Bytes) → Agrees table → Keeps table (insert n (registry n) table)
  insert-Keeps n table agrees = record {
    agrees = λ j key q long.
        ground (arith, nat_eq.beq_iff n j, lookup-insert n j (registry n) table, agrees j key);
    holds = λ j held. ground (arith, nat_eq.beq_iff n j, lookup-insert n j (registry n) table);
  }

  same-Keeps : (table : Map ℕ Bytes) → Agrees table → Keeps table table
  same-Keeps table agrees = record { agrees = agrees; holds = λ n held. held }

  fetch_key-Keeps :
      (n : ℕ) (writes : Bool) (answer : Option Bytes) (table : Map ℕ Bytes)
      → Agrees table
      → ((key : Bytes) → answer ≡ some key → key ≡ registry n)
      → Keeps table (fetch_key n writes answer table).0
  unfolding fetch_key
  fetch_key-Keeps n writes none table agrees true_answer = same-Keeps table agrees
  fetch_key-Keeps n writes (some k) table agrees true_answer =
      if_rule (λ (r : Map ℕ Bytes × Option Bytes). Keeps table r.0) (is_key k) _ _
        (λ long.
          if_rule (Keeps table) writes _ _
            (λ w.
              subst (λ key. Keeps table (insert n key table)) (sym (true_answer k refl))
                (insert-Keeps n table agrees))
            (λ w. same-Keeps table agrees))
        (λ short. same-Keeps table agrees)

  get_pubkey-Keeps :
      (n : ℕ) (a : Access) (table : Map ℕ Bytes)
      → Agrees table
      → IsTrue (n, a)
      → Keeps table (get_pubkey n a table).0
  unfolding get_pubkey
  get_pubkey-Keeps n a table agrees true_answer =
      elim (Option-cases (cached_key a.reads (lookup n table))) [
        | inr (key, q) ↦ rw q (same-Keeps table agrees)
        | inl q ↦ rw q (fetch_key-Keeps n a.writes a.answer table agrees true_answer)
      ]

  cached_key_inv :
      (reads : Bool) (o : Option Bytes) (key : Bytes)
      → cached_key reads o ≡ some key
      → (o ≡ some key) × (is_key key ≡ true)
  unfolding cached_key
  cached_key_inv reads none key q = absurd (ground arith)
  cached_key_inv reads (some k) key q = ground arith

  -- The chain has a key for the trader, and the table can be written.
  abbrev pub IsReachable : ℕ × Access → Type 0
  IsReachable (n, a) =
      (a.answer ≡ some (registry n)) × (is_key (registry n) ≡ true) × (a.writes ≡ true)

  get_pubkey-Holds :
      (n : ℕ) (a : Access) (table : Map ℕ Bytes)
      → Agrees table
      → IsReachable (n, a)
      → lookup n (get_pubkey n a table).0 ≡ some (registry n)
  unfolding get_pubkey fetch_key
  get_pubkey-Holds n a table agrees (answer, long, writes) =
      elim (Option-cases (cached_key a.reads (lookup n table))) [
        | inr (key, q) ↦
            let inv = cached_key_inv a.reads (lookup n table) key q in
            rw q (inv.0 ∙ ap some (agrees n key inv.0 inv.1))
        | inl q ↦
            rw (q, answer, long, writes)
              (ground (arith, nat_eq.beq_iff n n, lookup-insert n n (registry n) table))
      ]

  get_pubkey_cached :
      (n : ℕ) (a : Access) (table : Map ℕ Bytes)
      → lookup n table ≡ some (registry n)
      → is_key (registry n) ≡ true
      → a.reads ≡ true
      → get_pubkey n a table ≡ (table, some (registry n))
  unfolding get_pubkey cached_key
  get_pubkey_cached n a table held long reads = rw (held, reads, long) refl

  -- The traders of the pool.
  abbrev pub InPool : (Bytes → Bytes) → ℕ → ℕ → ℕ → ℕ × Access → Type 0
  InPool sha256 batch_id num_pools pool_id (n, a) =
      compute_pool_assignment sha256 n batch_id num_pools ≡ some pool_id

  warm_pool-Keeps :
      (sha256 : Bytes → Bytes) (batch_id num_pools pool_id : ℕ) (known : List (ℕ × Access))
      (table table' : Map ℕ Bytes)
      → Agrees table
      → All IsTrue known
      → warm_pool sha256 batch_id num_pools pool_id known table ≡ some table'
      → Keeps table table'
        × All
            (λ x.
              InPool sha256 batch_id num_pools pool_id x
              → IsReachable x
              → lookup x.0 table' ≡ some (registry x.0))
            known
  unfolding warm_pool
  warm_pool-Keeps sha256 b np p [] table table' agrees truth e =
      (subst (Keeps table) (some_inj e) (same-Keeps table agrees), tt)
  warm_pool-Keeps sha256 b np p ((n, a) ∷ rest) table table' agrees truth e =
      let inv = bind_inv (compute_pool_assignment sha256 n b np) _ table' e in
      let got = get_pubkey-Keeps n a table agrees truth.0 in
      elim (Bool-cases (inv.0 == p)) [
        | inl member ↦
            let next =
              warm_pool-Keeps sha256 b np p rest _ table' got.agrees truth.1 (rw member at inv.2) in
            (
              record {
                agrees = next.0.agrees;
                holds = λ j held. next.0.holds j (got.holds j held);
              },
              (λ inside reach. next.0.holds n (get_pubkey-Holds n a table agrees reach), next.1),
            )
        | inr other ↦
            let next =
              warm_pool-Keeps sha256 b np p rest table table' agrees truth.1 (rw other at inv.2) in
            (
              next.0,
              (
                λ inside reach. absurd (ground (arith, inv.1, inside, nat_eq.beq_iff inv.0 p)),
                next.1,
              ),
            )
      ]

  -- Where the chain answers with registered keys or errors only, and the table holds no other keys:
  -- after the pool has been warmed, the key of each known trader of the pool whose key the chain gave
  -- and the table took is served from the table as registered, whatever the chain would answer by
  -- then and without a change of the table.
  pub warmed_pool_cached :
      (sha256 : Bytes → Bytes) (batch_id num_pools pool_id : ℕ) (before rest : List (ℕ × Access))
      (n : ℕ) (a : Access) (table table' : Map ℕ Bytes) (now : Access)
      → Agrees table
      → All IsTrue (before ++ ((n, a) ∷ rest))
      → warm_pool sha256 batch_id num_pools pool_id (before ++ ((n, a) ∷ rest)) table ≡ some table'
      → compute_pool_assignment sha256 n batch_id num_pools ≡ some pool_id
      → IsReachable (n, a)
      → now.reads ≡ true
      → get_pubkey n now table' ≡ (table', some (registry n))
  warmed_pool_cached sha256 b np p before rest n a table table' now agrees truth e inside reach
        reads =
      let warmed =
        warm_pool-Keeps sha256 b np p (before ++ ((n, a) ∷ rest)) table table' agrees truth e in
      get_pubkey_cached n now table' (All-at _ before (n, a) rest warmed.1 inside reach) reach.1
        reads
