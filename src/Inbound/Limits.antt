-- ===== src/Inbound/Limits.antt =====
-- What the inbound filter guarantees.
use deadmkt_node.Prelude.{
  if_rule, ltb, ◌<◌, ◌⊎◌, ℕ, ◌+◌, ◌-◌, ◌≤◌, ◌≡◌, refl, ap, ◌∙◌, subst, Bool, true, false, Option,
  none, some, List, [], ◌∷◌, leb, bytes_eq, nat_eq, ◌==◌, if◌then◌else◌, length, Bool-cases,
  Option-cases, inl, inr, arith,
}
use deadmkt_node.Maps.{Map, lookup, insert, get_or, contains, add, lookup-insert}
use deadmkt_node.Bytes.{Bytes}
use deadmkt_node.Crypto.{Libraries, verify}
use deadmkt_node.Inbound.{
  Inbound, pair_beq, pair_beq_iff, pair_eq, is_batch_in_range, count_of, check_rate_limit,
  accept_limited, accept_commit, less_one, give_back, check_key, check_limited, accept_reveal,
  start_at, batch_window, retain_from, expire_old_batches, update_batch, cache_pubkey,
  take_unknown_nfts, reset_stats,
}
use deadmkt_node.Inbound.Events.{
  Message, commit, reveal, pair_of, accept, one_for, Event, arrives, learns, advances, expires,
  takes_unknown, resets_stats, handle, accepted_by, receive, accepted_of, accept-batch,
}

abbrev counted : ℕ × ℕ → Map (ℕ × ℕ) ℕ → ℕ
counted k m = get_or 0 (lookup k m)

counted-insert :
    (j k : ℕ × ℕ) (c : ℕ) (m : Map (ℕ × ℕ) ℕ)
    → counted k (insert j c m) ≡ (if pair_beq j k then c else counted k m)
counted-insert j k c m = elim (Bool-cases (pair_beq j k)) [
  | inl t ↦ ap (get_or 0) (lookup-insert j k c m) ∙ rw t refl
  | inr f ↦ ap (get_or 0) (lookup-insert j k c m) ∙ rw f refl
]

-- A verdict counts what it accepts, and no count passes the limit.
abbrev Counts : ℕ × ℕ → ℕ × ℕ → Map (ℕ × ℕ) ℕ → Inbound × Bool → Type 0
Counts j k m r =
    (counted k r.0.msg_counts ≡ counted k m + one_for r.1 j k)
    × (counted k m ≤ 10 → counted k r.0.msg_counts ≤ 10)

check_rate_limit-Counts :
    (n b : ℕ) (k : ℕ × ℕ) (v : Inbound) → Counts (n, b) k v.msg_counts (check_rate_limit n b v)
unfolding check_rate_limit
check_rate_limit-Counts n b k v =
    let c = count_of n b v in
    let old = counted-insert (n, b) k c v.msg_counts in
    let new = counted-insert (n, b) k (c + 1) v.msg_counts in
    elim (Bool-cases (pair_beq (n, b) k)) [
      | inl hit ↦
          let same : (n, b) ≡ k = (pair_beq_iff (n, b) k).0 hit in
          let value : counted (n, b) v.msg_counts ≡ counted k v.msg_counts =
            ap (λ x. counted x v.msg_counts) same in
          elim (Bool-cases (leb 10 c)) [
            | inl full ↦ rw (full, old, hit) (omega (arith, value), (λ h. omega (arith, value)))
            | inr room ↦ rw (room, new, hit) (omega (arith, value), (λ h. ground (arith, value)))
          ]
      | inr miss ↦ elim (Bool-cases (leb 10 c)) [
        | inl full ↦ rw (full, old, miss) (omega arith, (λ h. h))
        | inr room ↦ rw (room, new, miss) (omega arith, (λ h. h))
      ]
    ]

counted-less_one :
    (j k : ℕ × ℕ) (m : Map (ℕ × ℕ) ℕ)
    → counted k (less_one j m (lookup j m))
      ≡ (if pair_beq j k then counted k m - 1 else counted k m)
counted-less_one j k m = elim (Option-cases (lookup j m)) [
  | inl q ↦ rw q (elim (Bool-cases (pair_beq j k)) [
    | inr miss ↦ rw miss refl
    | inl hit ↦
        let none_here : counted k m ≡ 0 =
          subst (λ x. counted x m ≡ 0) ((pair_beq_iff j k).0 hit) (ap (get_or 0) q) in
        rw hit (omega (arith, none_here))
  ])
  | inr (c, q) ↦ rw q (
      counted-insert j k (c - 1) m ∙ (elim (Bool-cases (pair_beq j k)) [
        | inr miss ↦ rw miss refl
        | inl hit ↦
            let here : counted k m ≡ c =
              subst (λ x. counted x m ≡ c) ((pair_beq_iff j k).0 hit) (ap (get_or 0) q) in
            rw hit (omega (arith, here))
      ]))
]

accept_limited-Counts :
    (j k : ℕ × ℕ) (m : Map (ℕ × ℕ) ℕ) (r : Inbound × Bool)
    → Counts j k m r
    → Counts j k m (accept_limited r)
accept_limited-Counts j k m (v, true) c = c
accept_limited-Counts j k m (v, false) c = c

check_key-Counts :
    (lib : Libraries) (n b : ℕ) (o s h : Bytes) (k : ℕ × ℕ) (m : Map (ℕ × ℕ) ℕ) (v : Inbound)
    (key : Option Bytes)
    → Counts (n, b) k m (v, true)
    → Counts (n, b) k m (check_key lib n b o s h v key)
unfolding check_key give_back
check_key-Counts lib n b o s h k m v none c =
    let less = counted-less_one (n, b) k v.msg_counts in
    (ground (arith, less, c.0), ground (arith, less, c.0, c.1))
check_key-Counts lib n b o s h k m v (some key) c =
    let less = counted-less_one (n, b) k v.msg_counts in
    elim (Bool-cases (verify lib key o s)) [
      | inl good ↦ rw good c
      | inr bad ↦ rw bad (ground (arith, less, c.0), ground (arith, less, c.0, c.1))
    ]

check_limited-Counts :
    (lib : Libraries) (n b : ℕ) (o s h : Bytes) (k : ℕ × ℕ) (m : Map (ℕ × ℕ) ℕ) (r : Inbound × Bool)
    → Counts (n, b) k m r
    → Counts (n, b) k m (check_limited lib n b o s h r)
check_limited-Counts lib n b o s h k m (v, false) c = c
check_limited-Counts lib n b o s h k m (v, true) c =
    check_key-Counts lib n b o s h k m v (lookup n v.nft_pubkeys) c

accept-Counts :
    (lib : Libraries) (msg : Message) (k : ℕ × ℕ) (v : Inbound)
    → Counts (pair_of msg) k v.msg_counts (accept lib msg v)
unfolding accept_commit accept_reveal
accept-Counts lib (commit n b h) k v = elim (Bool-cases (is_batch_in_range b v)) [
  | inr out ↦ rw out (omega arith, (λ x. x))
  | inl within ↦ elim (Bool-cases (length h == 32)) [
    | inr other ↦
        rw (within, other)
          (accept_limited-Counts (n, b) k v.msg_counts _ (check_rate_limit-Counts n b k v))
    | inl hash ↦ elim (Bool-cases (contains h v.seen_commit_hashes)) [
      | inl seen ↦ rw (within, hash, seen) (omega arith, (λ x. x))
      | inr new ↦
          rw (within, hash, new)
            (accept_limited-Counts (n, b) k v.msg_counts
              (check_rate_limit n b (record v { seen_commit_hashes = add h v.seen_commit_hashes }))
              (check_rate_limit-Counts n b k
                (record v { seen_commit_hashes = add h v.seen_commit_hashes })))
    ]
  ]
]
accept-Counts lib (reveal n b o s) k v = elim (Bool-cases (is_batch_in_range b v)) [
  | inr out ↦ rw out (omega arith, (λ x. x))
  | inl within ↦ elim (Bool-cases (contains (lib.sha256 o) v.seen_reveal_hashes)) [
    | inl seen ↦ rw (within, seen) (omega arith, (λ x. x))
    | inr new ↦
        rw (within, new)
          (check_limited-Counts lib n b o s (lib.sha256 o) k v.msg_counts _ (
            check_rate_limit-Counts n b k
              (record v { seen_reveal_hashes = add (lib.sha256 o) v.seen_reveal_hashes })))
  ]
]

-- So far at most ten are accepted, and the counter holds how many, unless the batch has left the
-- window.
Bounded : ℕ → ℕ → ℕ → Inbound → Type 0
Bounded n b total v =
    (total ≤ 10) × ((counted (n, b) v.msg_counts ≡ total) ⊎ (b < v.current_batch_id - batch_window))

counted-retain_from :
    (n b lower : ℕ) (m : Map (ℕ × ℕ) ℕ)
    → lower ≤ b
    → counted (n, b) (retain_from lower m) ≡ counted (n, b) m
unfolding retain_from lookup
counted-retain_from n b lower [] h = refl
counted-retain_from n b lower (((i, s), c) ∷ m) h = elim (Bool-cases (pair_beq (i, s) (n, b))) [
  | inl hit ↦
      let same : (i, s) ≡ (n, b) = (pair_beq_iff (i, s) (n, b)).0 hit in
      let kept : leb lower s ≡ true = ground (arith, ap (λ x. x.1) same) in rw kept (rw hit refl)
  | inr miss ↦ elim (Bool-cases (leb lower s)) [
    | inl kept ↦ rw (kept, miss) (counted-retain_from n b lower m h)
    | inr gone ↦ rw (gone, miss) (counted-retain_from n b lower m h)
  ]
]

-- A message of a batch that has left the window is refused.
refused-out :
    (lib : Libraries) (msg : Message) (n b : ℕ) (v : Inbound)
    → b < v.current_batch_id - batch_window
    → one_for (accept lib msg v).1 (pair_of msg) (n, b) ≡ 0
unfolding accept_commit accept_reveal is_batch_in_range
refused-out lib (commit i s h) n b v out = elim (Bool-cases (pair_beq (i, s) (n, b))) [
  | inr other ↦ ground (arith, other)
  | inl hit ↦
      let same : s ≡ b = ap (λ x. x.1) ((pair_beq_iff (i, s) (n, b)).0 hit) in
      let far : is_batch_in_range s v ≡ false = ground (arith, same, out) in rw far refl
]
refused-out lib (reveal i s o g) n b v out = elim (Bool-cases (pair_beq (i, s) (n, b))) [
  | inr other ↦ ground (arith, other)
  | inl hit ↦
      let same : s ≡ b = ap (λ x. x.1) ((pair_beq_iff (i, s) (n, b)).0 hit) in
      let far : is_batch_in_range s v ≡ false = ground (arith, same, out) in rw far refl
]

message-Bounded :
    (lib : Libraries) (msg : Message) (n b total : ℕ) (v : Inbound)
    → Bounded n b total v
    → Bounded n b (total + one_for (accept lib msg v).1 (pair_of msg) (n, b)) (accept lib msg v).0
unfolding Bounded
message-Bounded lib msg n b total v (small, inl here) =
    let c = accept-Counts lib msg (n, b) v in
    let next : counted (n, b) (accept lib msg v).0.msg_counts
        ≡ total + one_for (accept lib msg v).1 (pair_of msg) (n, b) =
      omega (arith, c.0, here) in
    let most = c.1 (omega (arith, small, here)) in (omega (arith, next, most), inl next)
message-Bounded lib msg n b total v (small, inr out) =
    let none_more = refused-out lib msg n b v out in
    let same = accept-batch lib msg v in
    (omega (arith, small, none_more), inr (omega (arith, out, same)))

expires-Bounded :
    (n b total : ℕ) (v : Inbound) → Bounded n b total v → Bounded n b total (expire_old_batches v)
unfolding Bounded expire_old_batches
expires-Bounded n b total v (small, inr out) = (small, inr out)
expires-Bounded n b total v (small, inl here) =
    elim (Bool-cases (leb (v.current_batch_id - batch_window) b)) [
      | inl within ↦ (
        small,
        inl (
            counted-retain_from n b (v.current_batch_id - batch_window) v.msg_counts
              (ground (arith, within))
            ∙ here),
      )
      | inr out ↦ (small, inr (ground (arith, out)))
    ]

advances-Bounded :
    (n b total batch : ℕ) (v : Inbound)
    → Bounded n b total v
    → Bounded n b total (update_batch batch v)
unfolding Bounded update_batch
advances-Bounded n b total batch v h =
    if_rule (Bounded n b total) (ltb v.current_batch_id batch) _ _ (λ later. (h.0, moved later h.1))
      (λ same. h)
  where
    moved :
        ltb v.current_batch_id batch ≡ true
        → (counted (n, b) v.msg_counts ≡ total) ⊎ (b < v.current_batch_id - batch_window)
        → (counted (n, b) v.msg_counts ≡ total) ⊎ (b < batch - batch_window)
    moved later (inl here) = inl here
    moved later (inr out) = inr (ground (arith, later, out))

event-Bounded :
    (lib : Libraries) (e : Event) (n b total : ℕ) (v : Inbound)
    → Bounded n b total v
    → Bounded n b (total + accepted_by lib e n b v) (handle lib e v)
unfolding Bounded update_batch cache_pubkey take_unknown_nfts reset_stats
event-Bounded lib (arrives msg) n b total v h = message-Bounded lib msg n b total v h
event-Bounded lib (learns nft key) n b total v h =
    subst (λ t. Bounded n b t (cache_pubkey nft key v)) (omega arith) h
event-Bounded lib (advances batch) n b total v h =
    subst (λ t. Bounded n b t (update_batch batch v)) (omega arith)
      (advances-Bounded n b total batch v h)
event-Bounded lib expires n b total v h =
    subst (λ t. Bounded n b t (expire_old_batches v)) (omega arith) (expires-Bounded n b total v h)
event-Bounded lib takes_unknown n b total v h =
    subst (λ t. Bounded n b t (take_unknown_nfts v).0) (omega arith) h
event-Bounded lib resets_stats n b total v h =
    subst (λ t. Bounded n b t (reset_stats v)) (omega arith) h

receive_lem :
    (lib : Libraries) (n b total : ℕ) (es : List Event) (v : Inbound)
    → Bounded n b total v
    → Bounded n b (total + accepted_of lib n b es v) (receive lib es v)
unfolding receive accepted_of
receive_lem lib n b total [] v h = subst (λ t. Bounded n b t v) (omega arith) h
receive_lem lib n b total (e ∷ es) v h =
    let next = event-Bounded lib e n b total v h in
    subst (λ t. Bounded n b t (receive lib es (handle lib e v))) (omega arith)
      (receive_lem lib n b (total + accepted_by lib e n b v) es (handle lib e v) next)

-- Whatever happens after the start, commits and reveals from whomever, keys that the node learns,
-- batches that pass and expire, in whatever order: of each trader and batch at most ten messages are
-- accepted; and as long as the batch is in the window behind the current one, the counter of that
-- trader and batch is exactly how many those are, so that refused messages, those with a bad
-- signature or of an unknown trader included, use up none of it.
pub accepted_at_most :
    (lib : Libraries) (n b : ℕ) (es : List Event) (batch : ℕ)
    → (accepted_of lib n b es (start_at batch) ≤ 10)
      × ((count_of n b (receive lib es (start_at batch)) ≡ accepted_of lib n b es (start_at batch))
          ⊎ (b < (receive lib es (start_at batch)).current_batch_id - 5))
unfolding start_at lookup Bounded
accepted_at_most lib n b es batch =
    subst (λ t. Bounded n b t (receive lib es (start_at batch))) (omega arith)
      (receive_lem lib n b 0 es (start_at batch) (omega arith, inl refl))
