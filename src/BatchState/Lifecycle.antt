-- ===== src/BatchState/Lifecycle.antt =====
-- What holds of a batch in every state that the operations reach.
use deadmkt_node.Prelude.{
  ℕ, ◌≡◌, ◌≢◌, refl, ◌∙◌, sym, subst, true, false, Option, none, some, List, [], ◌∷◌, map, Nodup,
  bytes_eq, bytes_beq, Bool-cases, inl, inr, ◌⊎◌, arith, All, All-append, All-map,
}
use deadmkt_node.Maps.{
  Map, keys, lookup, insert, lookup-insert, lookup-insert_self, insert-All, insert-Nodup,
}
use deadmkt_node.Bytes.{Bytes}
use deadmkt_node.Crypto.{Order, Libraries}
use deadmkt_node.Chain.{Phase, phase_eq, BatchParams}
use deadmkt_node.Matching.{RevealedOrder, MarketConfig, compute_order_hash}
use deadmkt_node.Matching
use deadmkt_node.BatchState.Defs.{
  BatchState, CommitRecord, OwnCommit, new, add_commit, reveal_found, add_reveal, matching_input,
  run_matching, transition_to, create_own_commit, mark_if, mark_own_revealed, reset_for_new_batch,
  revealed_order,
}
use mathlib.Core.List.{Nodup-nil}

module _ (lib : Libraries) where
  -- The operations of one batch.
  pub data Step : BatchState → BatchState → Type 0 where
    takes_commit :
        (batch_id pool_id : ℕ) (hash : Bytes) (nft_id : ℕ) (signature : Bytes) (s : BatchState)
        → Step s (add_commit batch_id pool_id hash nft_id signature s).0
    takes_reveal :
        (order : Order) (signature : Bytes) (s : BatchState)
        → Step s (add_reveal lib order signature s).0
    transits : (phase : Phase) (s : BatchState) → Step s (transition_to lib phase s).0
    creates :
        (secret : Bytes) (order : Order) (s : BatchState)
        → Step s (create_own_commit lib secret order s).0
    marks : (order_hash : Bytes) (s : BatchState) → Step s (mark_own_revealed order_hash s)

  -- Any number of them.
  pub data Within : BatchState → BatchState → Type 0 where
    stays : (s : BatchState) → Within s s
    goes : {s s' s'' : BatchState} → Within s s' → Step s' s'' → Within s s''

  -- A life over several batches.
  pub data Reach : BatchState → Type 0 where
    starts :
        (batch_id pool_id : ℕ) (phase : Phase) (params : BatchParams) (configs : List MarketConfig)
        → Reach (new batch_id pool_id phase params configs)
    steps : {s s' : BatchState} → Reach s → Step s s' → Reach s'
    resets :
        {s : BatchState} (batch_id pool_id : ℕ) (phase : Phase) (configs : List MarketConfig)
        → Reach s
        → Reach (reset_for_new_batch batch_id pool_id phase configs s)

  abbrev pub IsReveal : Map Bytes CommitRecord → Bytes × RevealedOrder → Type 0
  IsReveal commits e =
      (compute_order_hash lib e.1.order ≡ e.0)
      × (e.1.order_hash ≡ e.0)
      × (lookup e.0 commits ≢ none)

  abbrev pub IsOwn : OwnCommit → Type 0
  IsOwn c = c.order_hash ≡ compute_order_hash lib c.order

  abbrev pub IsValid : BatchState → Type 0
  IsValid s =
      All (IsReveal s.commits) s.reveals
      × Nodup (keys s.reveals)
      × All IsOwn s.my_commits
      × (s.matched ≡ false → s.matches ≡ [])

  found-insert :
      (hash k : Bytes) (c : CommitRecord) (m : Map Bytes CommitRecord)
      → lookup k m ≢ none
      → lookup k (insert hash c m) ≢ none
  found-insert hash k c m h q = elim (Bool-cases (bytes_beq hash k)) [
    | inl same ↦ ground (arith, lookup-insert hash k c m)
    | inr differ ↦ h (ground (arith, lookup-insert hash k c m))
  ]

  still-IsReveal :
      (hash : Bytes) (c : CommitRecord) (m : Map Bytes CommitRecord) (r : Map Bytes RevealedOrder)
      → All (IsReveal m) r
      → All (IsReveal (insert hash c m)) r
  still-IsReveal hash c m r = All-map (λ e h. (h.0, h.1, found-insert hash e.0 c m h.2)) r

  found_self :
      (hash : Bytes) (c : CommitRecord) (m : Map Bytes CommitRecord)
      → lookup hash (insert hash c m) ≢ none
  found_self hash c m q = ground (arith, lookup-insert_self hash c m)

  add_reveal-IsValid :
      (order : Order) (signature : Bytes) (s : BatchState)
      → IsValid s
      → IsValid (add_reveal lib order signature s).0
  unfolding add_reveal reveal_found
  add_reveal-IsValid order signature s v = elim (Bool-cases (phase_eq s.phase Phase.reveal)) [
    | inr f ↦ rw f v
    | inl t ↦ rw t (go (lookup (compute_order_hash lib order) s.commits))
  ]
    where
      go : (o : Option CommitRecord) → IsValid (reveal_found lib order signature s o).0
      go none = v
      go (some c) =
          let hash = compute_order_hash lib order in
          let c' : CommitRecord = record c { revealed = true } in
          (
            insert-All (IsReveal (insert hash c' s.commits)) hash
                (revealed_order lib order signature) s.reveals
                (refl, refl, found_self hash c' s.commits)
                (still-IsReveal hash c' s.commits s.reveals v.0),
            insert-Nodup hash (revealed_order lib order signature) s.reveals v.1,
            v.2,
            v.3,
          )

  mark-IsOwn : (h : Bytes) (cs : List OwnCommit) → All IsOwn cs → All IsOwn (map (mark_if h) cs)
  mark-IsOwn h [] v = tt
  mark-IsOwn h (c ∷ cs) v = elim (Bool-cases (bytes_beq c.order_hash h)) [
    | inl t ↦ rw t (v.0, mark-IsOwn h cs v.1)
    | inr f ↦ rw f (v.0, mark-IsOwn h cs v.1)
  ]

  -- A transition changes the phase, and runs matching where that has not been done.
  transition_lem :
      (phase : Phase) (s : BatchState)
      → ((transition_to lib phase s).0 ≡ record s { phase = phase })
        ⊎ ((s.matched ≡ false)
            × ((transition_to lib phase s).0 ≡ record s {
              phase = phase;
              matches = Matching.run_matching lib (matching_input lib s);
              matched = true;
            }))
  unfolding transition_to run_matching matching_input
  transition_lem phase s = elim (Bool-cases s.matched) [
    | inl old ↦ inl (elim (Bool-cases (phase_eq phase Phase.match)) [
      | inl t ↦ rw (t, old) refl
      | inr f ↦ rw f refl
    ])
    | inr new ↦ elim (Bool-cases (phase_eq phase Phase.match)) [
      | inl t ↦ inr (new, rw (t, new) refl)
      | inr f ↦ inl (rw f refl)
    ]
  ]

  transition-IsValid :
      (phase : Phase) (s : BatchState) → IsValid s → IsValid (transition_to lib phase s).0
  transition-IsValid phase s v = elim (transition_lem phase s) [
    | inl e ↦ subst IsValid (sym e) (v.0, v.1, v.2, v.3)
    | inr (new, e) ↦ subst IsValid (sym e) (v.0, v.1, v.2, (λ h. absurd (ground arith)))
  ]

  Step-IsValid : {s s' : BatchState} → Step s s' → IsValid s → IsValid s'
  unfolding add_commit create_own_commit mark_own_revealed
  Step-IsValid (takes_commit batch_id pool_id hash nft_id signature s) v =
      elim (Bool-cases (phase_eq s.phase Phase.commit)) [
        | inr f ↦ rw f v
        | inl t ↦ rw t (still-IsReveal hash _ s.commits s.reveals v.0, v.1, v.2, v.3)
      ]
  Step-IsValid (takes_reveal order signature s) v = add_reveal-IsValid order signature s v
  Step-IsValid (transits phase s) v = transition-IsValid phase s v
  Step-IsValid (creates secret order s) v =
      (v.0, v.1, All-append IsOwn s.my_commits _ v.2 (refl, tt), v.3)
  Step-IsValid (marks h s) v = (v.0, v.1, mark-IsOwn h s.my_commits v.2, v.3)

  reach_lem : {s : BatchState} → Reach s → IsValid s
  unfolding new reset_for_new_batch
  reach_lem (starts batch_id pool_id phase params configs) = (tt, Nodup-nil, tt, (λ h. refl))
  reach_lem (steps r step) = Step-IsValid step (reach_lem r)
  reach_lem (resets batch_id pool_id phase configs r) = (tt, Nodup-nil, tt, (λ h. refl))

  -- In every state that the operations reach, over any number of batches: a reveal is stored under
  -- the hash of its order, once, and its hash was committed to; each of the node's own commits
  -- carries the hash of its order; and there are no matches until matching has run.
  pub lifecycle-IsValid : {s : BatchState} → Reach s → IsValid s
  lifecycle-IsValid r = reach_lem r

  Step-matched :
      {s s' : BatchState}
      → Step s s'
      → s.matched ≡ true
      → (s'.matched ≡ true) × (s'.matches ≡ s.matches)
  unfolding add_commit add_reveal reveal_found create_own_commit mark_own_revealed
  Step-matched (takes_commit batch_id pool_id hash nft_id signature s) m =
      elim (Bool-cases (phase_eq s.phase Phase.commit)) [
        | inr f ↦ rw f (m, refl)
        | inl t ↦ rw t (m, refl)
      ]
  Step-matched (takes_reveal order signature s) m =
      elim (Bool-cases (phase_eq s.phase Phase.reveal)) [
        | inr f ↦ rw f (m, refl)
        | inl t ↦ rw t (go (lookup (compute_order_hash lib order) s.commits))
      ]
    where
      go :
          (o : Option CommitRecord)
          → ((reveal_found lib order signature s o).0.matched ≡ true)
            × ((reveal_found lib order signature s o).0.matches ≡ s.matches)
      go none = (m, refl)
      go (some c) = (m, refl)
  Step-matched (transits phase s) m = elim (transition_lem phase s) [
    | inl e ↦ rw e (m, refl)
    | inr (new, e) ↦ absurd (ground arith)
  ]
  Step-matched (creates secret order s) m = (m, refl)
  Step-matched (marks h s) m = (m, refl)

  within_lem :
      {s s' : BatchState}
      → Within s s'
      → s.matched ≡ true
      → (s'.matched ≡ true) × (s'.matches ≡ s.matches)
  within_lem (stays s) m = (m, refl)
  within_lem (goes w step) m =
      let before = within_lem w m in
      let after = Step-matched step before.0 in (after.0, after.1 ∙ before.1)

  -- The first transition to the match phase stores the matches of the reveals held then, under the
  -- identifiers and the markets of the batch, and whatever the operations of that batch do
  -- afterwards, a further transition or a late reveal included, these stay its matches.
  pub matching_once :
      (s : BatchState) {s' : BatchState}
      → s.matched ≡ false
      → Within (transition_to lib Phase.match s).0 s'
      → s'.matches ≡ Matching.run_matching lib (matching_input lib s)
  unfolding transition_to run_matching matching_input
  matching_once s m w =
      let first : (transition_to lib Phase.match s).0.matched ≡ true = rw m refl in
      (within_lem w first).1 ∙ rw m refl
