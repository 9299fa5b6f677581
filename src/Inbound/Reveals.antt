-- ===== src/Inbound/Reveals.antt =====
-- What becomes of a reveal at the inbound filter.
use deadmkt_node.Prelude.{
  ℕ, ◌≡◌, refl, sym, ap, ◌∙◌, Bool, true, false, Option, none, some, List, [], ◌∷◌, leb, bytes_eq,
  nat_eq, Bool-cases, inl, inr, arith,
}
use deadmkt_node.Maps.{lookup, contains, add}
use deadmkt_node.Bytes.{Bytes}
use deadmkt_node.Crypto.{Libraries, verify}
use deadmkt_node.Inbound.{
  Inbound, pair_eq, is_batch_in_range, count_of, check_rate_limit, forget, give_back, check_key,
  check_limited, accept_reveal,
}

contains-forget : (h : Bytes) (ks : List Bytes) → contains h (forget h ks) ≡ false
unfolding contains forget
contains-forget h [] = refl
contains-forget h (k ∷ ks) = ground (arith, contains-forget h ks)

check_key_lem :
    (lib : Libraries) (n b : ℕ) (o s h : Bytes) (v : Inbound) (found : Option Bytes)
    → ((check_key lib n b o s h v found).1 ≡ false
        → contains h (check_key lib n b o s h v found).0.seen_reveal_hashes ≡ false)
      × ((check_key lib n b o s h v found).1 ≡ true
          → (key : Bytes) × (found ≡ some key) × (verify lib key o s ≡ true))
unfolding check_key give_back
check_key_lem lib n b o s h v none = ((λ e. contains-forget h v.seen_reveal_hashes), ground arith)
check_key_lem lib n b o s h v (some key) = elim (Bool-cases (verify lib key o s)) [
  | inl good ↦ rw good (ground arith, (λ e. (key, refl, good)))
  | inr bad ↦ rw bad ((λ e. contains-forget h v.seen_reveal_hashes), ground arith)
]

check_limited_lem :
    (lib : Libraries) (n b : ℕ) (o s h : Bytes) (r : Inbound × Bool)
    → ((check_limited lib n b o s h r).1 ≡ false
        → contains h (check_limited lib n b o s h r).0.seen_reveal_hashes ≡ false)
      × ((check_limited lib n b o s h r).1 ≡ true
          → (key : Bytes) × (lookup n r.0.nft_pubkeys ≡ some key) × (verify lib key o s ≡ true))
check_limited_lem lib n b o s h (v, false) =
    ((λ e. contains-forget h v.seen_reveal_hashes), ground arith)
check_limited_lem lib n b o s h (v, true) = check_key_lem lib n b o s h v (lookup n v.nft_pubkeys)

check_rate_limit-pubkeys :
    (n b : ℕ) (v : Inbound) → (check_rate_limit n b v).0.nft_pubkeys ≡ v.nft_pubkeys
unfolding check_rate_limit
check_rate_limit-pubkeys n b v = elim (Bool-cases (leb 10 (count_of n b v))) [
  | inl full ↦ rw full refl
  | inr room ↦ rw room refl
]

-- A reveal whose content hash is new and that is refused after that leaves no trace of the content
-- among those seen, so that the same content can be accepted later; an accepted one is of a batch
-- in the window and carries the signature of the trader's cached key.
pub accept_reveal_lem :
    (lib : Libraries) (n b : ℕ) (order_bytes signature : Bytes) (v : Inbound)
    → contains (lib.sha256 order_bytes) v.seen_reveal_hashes ≡ false
    → ((accept_reveal lib n b order_bytes signature v).1 ≡ false
        → contains
            (lib.sha256 order_bytes)
            (accept_reveal lib n b order_bytes signature v).0.seen_reveal_hashes
          ≡ false)
      × ((accept_reveal lib n b order_bytes signature v).1 ≡ true
          → (is_batch_in_range b v ≡ true)
            × (key : Bytes) × (lookup n v.nft_pubkeys ≡ some key)
            × (verify lib key order_bytes signature ≡ true))
unfolding accept_reveal
accept_reveal_lem lib n b o s v new =
    let w = record v { seen_reveal_hashes = add (lib.sha256 o) v.seen_reveal_hashes } in
    let rest = check_limited_lem lib n b o s (lib.sha256 o) (check_rate_limit n b w) in
    elim (Bool-cases (is_batch_in_range b v)) [
      | inr out ↦ rw out ((λ e. new), ground arith)
      | inl within ↦
          rw (within, new)
            (
              rest.0,
              (λ e.
                  let good = rest.1 e in
                  (
                    refl,
                    good.0,
                    ap (lookup n) (sym (check_rate_limit-pubkeys n b w)) ∙ good.1,
                    good.2,
                  )),
            )
    ]
