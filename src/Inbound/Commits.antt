-- ===== src/Inbound/Commits.antt =====
-- What becomes of a commit at the inbound filter.
use deadmkt_node.Prelude.{
  List, [], ◌∷◌, Option, none, some, Bool, not, All, if_rule, ltb, arith, ℕ, ◌≡◌, refl, ap, ◌∙◌,
  true, false, leb, bytes_eq, nat_eq, ◌==◌, nat_beq_iff, length, Bool-cases, inl, inr,
}
use deadmkt_node.Maps.{contains, add, contains-add_self, lookup}
use deadmkt_node.Bytes.{Bytes}
use deadmkt_node.Inbound.{
  Inbound, is_batch_in_range, count_of, check_rate_limit, accept_limited, accept_commit,
  accept_reveal, check_limited, check_key, give_back, max_msgs_per_nft_per_batch, update_batch,
  cache_pubkey, take_unknown_nfts, reset_stats,
}
use deadmkt_node.Crypto.{Libraries, verify}
use deadmkt_node.Inbound.Events.{
  Message, commit, reveal, accept, Event, arrives, learns, advances, expires, takes_unknown,
  resets_stats, handle, receive,
}

check_rate_limit-seen :
    (n b : ℕ) (v : Inbound)
    → (accept_limited (check_rate_limit n b v)).0.seen_commit_hashes ≡ v.seen_commit_hashes
unfolding check_rate_limit
check_rate_limit-seen n b v = elim (Bool-cases (leb 10 (count_of n b v))) [
  | inl full ↦ rw full refl
  | inr room ↦ rw room refl
]

accept_commit-seen :
    (n b : ℕ) (h : Bytes) (v : Inbound)
    → is_batch_in_range b v ≡ true
    → length h ≡ 32
    → contains h (accept_commit n b h v).0.seen_commit_hashes ≡ true
unfolding accept_commit
accept_commit-seen n b h v within size =
    let whole : (length h == 32) ≡ true = (nat_beq_iff (length h) 32).1 size in
    elim (Bool-cases (contains h v.seen_commit_hashes)) [
      | inl seen ↦ rw (within, whole, seen) seen
      | inr new ↦
          rw (within, whole, new)
            (ap (contains h) (
                check_rate_limit-seen n b
                  (record v { seen_commit_hashes = add h v.seen_commit_hashes }))
              ∙ contains-add_self h v.seen_commit_hashes)
    ]

contains-add : (h k : Bytes) (s : List Bytes) → contains h s ≡ true → contains h (add k s) ≡ true
unfolding contains add
contains-add h k s seen = elim (Bool-cases (contains k s)) [
  | inl old ↦ rw old seen
  | inr new ↦ ground (arith, new, seen)
]

-- The clearing of the hashes is the business of the expiry alone.
abbrev pub expires_none : Event → Bool
expires_none expires = false
expires_none _ = true

check-seen :
    (lib : Libraries) (n b : ℕ) (o s h : Bytes) (r : Inbound × Bool)
    → (check_limited lib n b o s h r).0.seen_commit_hashes ≡ r.0.seen_commit_hashes
unfolding check_key give_back
check-seen lib n b o s h (v, false) = refl
check-seen lib n b o s h (v, true) = go (lookup n v.nft_pubkeys)
  where
    go :
        (key : Option Bytes)
        → (check_key lib n b o s h v key).0.seen_commit_hashes ≡ v.seen_commit_hashes
    go none = refl
    go (some key) =
        if_rule (λ (r : Inbound × Bool). r.0.seen_commit_hashes ≡ v.seen_commit_hashes)
          (not (verify lib key o s)) _ _ (λ bad. refl) (λ good. refl)

rate-seen :
    (n b : ℕ) (v : Inbound) → (check_rate_limit n b v).0.seen_commit_hashes ≡ v.seen_commit_hashes
unfolding check_rate_limit
rate-seen n b v =
    if_rule (λ (r : Inbound × Bool). r.0.seen_commit_hashes ≡ v.seen_commit_hashes)
      (leb max_msgs_per_nft_per_batch (count_of n b v)) _ _ (λ full. refl) (λ room. refl)

message-seen :
    (lib : Libraries) (h : Bytes) (msg : Message) (v : Inbound)
    → contains h v.seen_commit_hashes ≡ true
    → contains h (accept lib msg v).0.seen_commit_hashes ≡ true
unfolding accept_commit accept_reveal
message-seen lib h (commit n b k) v seen =
    let P : Inbound × Bool → Type 0 = λ r. contains h r.0.seen_commit_hashes ≡ true in
    if_rule P (not (is_batch_in_range b v)) _ _ (λ out. seen)
      λ within.
        if_rule P (length k == 32) _ _
          (λ whole.
            if_rule P (contains k v.seen_commit_hashes) _ _ (λ old. seen)
              λ new.
                ap (contains h) (check_rate_limit-seen n b _)
                ∙ contains-add h k v.seen_commit_hashes seen)
          (λ other. ap (contains h) (check_rate_limit-seen n b v) ∙ seen)
message-seen lib h (reveal n b o s) v seen =
    let P : Inbound × Bool → Type 0 = λ r. contains h r.0.seen_commit_hashes ≡ true in
    if_rule P (not (is_batch_in_range b v)) _ _ (λ out. seen)
      λ within.
        if_rule P (contains (lib.sha256 o) v.seen_reveal_hashes) _ _ (λ old. seen)
          λ new.
            ap (contains h)
              (check-seen lib n b o s (lib.sha256 o) (check_rate_limit n b _) ∙ rate-seen n b _)
            ∙ seen

event-seen :
    (lib : Libraries) (h : Bytes) (e : Event) (v : Inbound)
    → expires_none e ≡ true
    → contains h v.seen_commit_hashes ≡ true
    → contains h (handle lib e v).seen_commit_hashes ≡ true
unfolding cache_pubkey update_batch take_unknown_nfts reset_stats
event-seen lib h (arrives msg) v keeps seen = message-seen lib h msg v seen
event-seen lib h (learns nft key) v keeps seen = seen
event-seen lib h (advances batch) v keeps seen =
    if_rule (λ (w : Inbound). contains h w.seen_commit_hashes ≡ true) (ltb v.current_batch_id batch)
      _ _ (λ later. seen) (λ same. seen)
event-seen lib h expires v keeps seen = absurd (ground arith)
event-seen lib h takes_unknown v keeps seen = seen
event-seen lib h resets_stats v keeps seen = seen

receive-seen :
    (lib : Libraries) (h : Bytes) (es : List Event) (v : Inbound)
    → All (λ e. expires_none e ≡ true) es
    → contains h v.seen_commit_hashes ≡ true
    → contains h (receive lib es v).seen_commit_hashes ≡ true
unfolding receive
receive-seen lib h [] v keep seen = seen
receive-seen lib h (e ∷ es) v keep seen =
    receive-seen lib h es (handle lib e v) keep.1 (event-seen lib h e v keep.0 seen)

-- Once a commit of a batch in the window has been handled, also where it was itself refused by the
-- rate limit, every later one with the same 32-byte hash is refused, whoever sends it and for
-- whatever batch, whatever messages, keys and batches have come in between: until the filter is
-- told to expire old batches.
pub commit_handled_once :
    (lib : Libraries) (n b n' b' : ℕ) (h : Bytes) (es : List Event) (v : Inbound)
    → is_batch_in_range b v ≡ true
    → length h ≡ 32
    → All (λ e. expires_none e ≡ true) es
    → (accept_commit n' b' h (receive lib es (accept_commit n b h v).0)).1 ≡ false
unfolding accept_commit
commit_handled_once lib n b n' b' h es v within size keep =
    go (receive lib es (accept_commit n b h v).0) (
      receive-seen lib h es (accept_commit n b h v).0 keep (accept_commit-seen n b h v within size))
  where
    go :
        (w : Inbound) → contains h w.seen_commit_hashes ≡ true → (accept_commit n' b' h w).1 ≡ false
    go w seen =
        let whole : (length h == 32) ≡ true = (nat_beq_iff (length h) 32).1 size in
        elim (Bool-cases (is_batch_in_range b' w)) [
          | inr out ↦ rw out refl
          | inl in_range ↦ rw (in_range, whole, seen) refl
        ]
