-- ===== src/Inbound.antt =====
-- src/run.rs, `GossipValidator`: the filter before the main loop, which bounds what peers can send.
pub mod Events
pub mod Limits
pub mod Commits
pub mod Reveals
use deadmkt_node.Prelude.{
  ℕ, ◌+◌, ◌-◌, ◌%◌, ◌^◌, ◌≡◌, ◌↔◌, Bool, true, false, not, ◌&&◌, Option, none, some, List, [], ◌∷◌,
  ltb, leb, nat_beq, nat_beq_iff, nat_eq, bytes_eq, Eq, ◌==◌, if◌then◌else◌, length, min, u64_add,
  arith,
}
use deadmkt_node.Maps.{Map, lookup, insert, get_or, contains, add}
use deadmkt_node.Bytes.{Bytes}
use deadmkt_node.Crypto.{Libraries, verify}

abbrev pub batch_window : ℕ
batch_window = 5

abbrev pub pubkey_fetch_interval : ℕ
pubkey_fetch_interval = 3

abbrev pub max_msgs_per_nft_per_batch : ℕ
max_msgs_per_nft_per_batch = 10

pub record Inbound : Type 0 where
  pub nft_pubkeys : Map ℕ Bytes
  pub seen_commit_hashes : List Bytes
  pub seen_reveal_hashes : List Bytes
  pub msg_counts : Map (ℕ × ℕ) ℕ
  pub unknown_nfts : List ℕ
  pub current_batch_id : ℕ
  pub last_pubkey_fetch_batch : ℕ
  pub rejected_bounds : ℕ
  pub rejected_dedup : ℕ
  pub rejected_rate : ℕ
  pub rejected_sig : ℕ
  pub rejected_unknown : ℕ
  pub accepted : ℕ

-- The keys of `msg_counts`: a trader and a batch.
abbrev pub pair_beq : ℕ × ℕ → ℕ × ℕ → Bool
pair_beq (a, s) (b, t) = nat_beq a b && nat_beq s t

pub pair_beq_iff : (a b : ℕ × ℕ) → (pair_beq a b ≡ true) ↔ (a ≡ b)
pair_beq_iff (a, s) (b, t) = ground (arith, nat_beq_iff a b, nat_beq_iff s t)

instance abbrev pub pair_eq : Eq (ℕ × ℕ)
pair_eq = record { beq = pair_beq; beq_iff = pair_beq_iff }

unfoldable pub start_at : ℕ → Inbound
start_at initial_batch_id = record {
  nft_pubkeys = [];
  seen_commit_hashes = [];
  seen_reveal_hashes = [];
  msg_counts = [];
  unknown_nfts = [];
  current_batch_id = initial_batch_id;
  last_pubkey_fetch_batch = 0;
  rejected_bounds = 0;
  rejected_dedup = 0;
  rejected_rate = 0;
  rejected_sig = 0;
  rejected_unknown = 0;
  accepted = 0;
}

-- `saturating_sub` and `saturating_add`
unfoldable pub is_batch_in_range : ℕ → Inbound → Bool
is_batch_in_range batch_id v =
    if v.current_batch_id == 0
    then true
    else leb (v.current_batch_id - batch_window) batch_id
      && leb batch_id (min (v.current_batch_id + batch_window) (2 ^ 64 - 1))

abbrev pub count_of : ℕ → ℕ → Inbound → ℕ
count_of nft_id batch_id v = get_or 0 (lookup (nft_id, batch_id) v.msg_counts)

-- `entry(...).or_insert(0)` stores a count where there was none.
unfoldable pub check_rate_limit : ℕ → ℕ → Inbound → Inbound × Bool
check_rate_limit nft_id batch_id v =
    let count = count_of nft_id batch_id v in
    if leb max_msgs_per_nft_per_batch count
    then (
      record v {
        msg_counts = insert (nft_id, batch_id) count v.msg_counts;
        rejected_rate = u64_add v.rejected_rate 1;
      },
      false,
    )
    else (record v { msg_counts = insert (nft_id, batch_id) (count + 1) v.msg_counts }, true)

abbrev pub accept_limited : Inbound × Bool → Inbound × Bool
accept_limited (v, true) = (record v { accepted = u64_add v.accepted 1 }, true)
accept_limited (v, false) = (v, false)

unfoldable pub accept_commit : ℕ → ℕ → Bytes → Inbound → Inbound × Bool
unfolding is_batch_in_range check_rate_limit
accept_commit nft_id batch_id commit_hash v =
    if not (is_batch_in_range batch_id v)
    then (record v { rejected_bounds = u64_add v.rejected_bounds 1 }, false)
    else if length commit_hash == 32
    then if contains commit_hash v.seen_commit_hashes
      then (record v { rejected_dedup = u64_add v.rejected_dedup 1 }, false)
      else accept_limited (
          check_rate_limit nft_id batch_id
            (record v { seen_commit_hashes = add commit_hash v.seen_commit_hashes }))
    else accept_limited (check_rate_limit nft_id batch_id v)

-- `HashSet::remove`
unfoldable pub forget : Bytes → List Bytes → List Bytes
forget h [] = []
forget h (k ∷ ks) = let rest = forget h ks in if k == h then rest else k ∷ rest

-- `get_mut` and `saturating_sub(1)`
abbrev pub less_one : ℕ × ℕ → Map (ℕ × ℕ) ℕ → Option ℕ → Map (ℕ × ℕ) ℕ
less_one k m none = m
less_one k m (some c) = insert k (c - 1) m

-- What a reveal that is not accepted gives back.
unfoldable pub give_back : ℕ → ℕ → Bytes → Inbound → Inbound
unfolding forget
give_back nft_id batch_id content_hash v = record v {
  seen_reveal_hashes = forget content_hash v.seen_reveal_hashes;
  msg_counts = less_one (nft_id, batch_id) v.msg_counts (lookup (nft_id, batch_id) v.msg_counts);
}

module _ (lib : Libraries) where
  -- The signature, at the key found.
  unfoldable pub check_key : ℕ → ℕ → Bytes → Bytes → Bytes → Inbound → Option Bytes → Inbound × Bool
  unfolding give_back
  check_key nft_id batch_id order_bytes signature content_hash v none = (
    give_back nft_id batch_id content_hash (record v {
      unknown_nfts = add nft_id v.unknown_nfts;
      rejected_unknown = u64_add v.rejected_unknown 1;
    }),
    false,
  )
  check_key nft_id batch_id order_bytes signature content_hash v (some pubkey) =
      if not (verify lib pubkey order_bytes signature)
      then (
        give_back nft_id batch_id content_hash
            (record v { rejected_sig = u64_add v.rejected_sig 1 }),
        false,
      )
      else (record v { accepted = u64_add v.accepted 1 }, true)

  -- After the rate limit.
  abbrev pub check_limited : ℕ → ℕ → Bytes → Bytes → Bytes → Inbound × Bool → Inbound × Bool
  check_limited nft_id batch_id order_bytes signature content_hash (v, false) =
      (record v { seen_reveal_hashes = forget content_hash v.seen_reveal_hashes }, false)
  check_limited nft_id batch_id order_bytes signature content_hash (v, true) =
      check_key nft_id batch_id order_bytes signature content_hash v (lookup nft_id v.nft_pubkeys)

  unfoldable pub accept_reveal : ℕ → ℕ → Bytes → Bytes → Inbound → Inbound × Bool
  unfolding is_batch_in_range check_rate_limit check_key
  accept_reveal nft_id batch_id order_bytes signature v =
      let content_hash = lib.sha256 order_bytes in
      if not (is_batch_in_range batch_id v)
      then (record v { rejected_bounds = u64_add v.rejected_bounds 1 }, false)
      else if contains content_hash v.seen_reveal_hashes
      then (record v { rejected_dedup = u64_add v.rejected_dedup 1 }, false)
      else check_limited nft_id batch_id order_bytes signature content_hash (
          check_rate_limit nft_id batch_id
            (record v { seen_reveal_hashes = add content_hash v.seen_reveal_hashes }))

unfoldable pub update_batch : ℕ → Inbound → Inbound
update_batch batch_id v =
    if ltb v.current_batch_id batch_id then record v { current_batch_id = batch_id } else v

-- `retain(|&(_, batch), _| batch >= lower)`
unfoldable pub retain_from : ℕ → Map (ℕ × ℕ) ℕ → Map (ℕ × ℕ) ℕ
retain_from lower [] = []
retain_from lower ((k, c) ∷ m) =
    let rest = retain_from lower m in if leb lower k.1 then (k, c) ∷ rest else rest

unfoldable pub expire_old_batches : Inbound → Inbound
unfolding retain_from
expire_old_batches v =
    let clears = v.current_batch_id % batch_window == 0 in
    record v {
      msg_counts = retain_from (v.current_batch_id - batch_window) v.msg_counts;
      seen_commit_hashes = if clears then [] else v.seen_commit_hashes;
      seen_reveal_hashes = if clears then [] else v.seen_reveal_hashes;
    }

unfoldable pub drop_nft : ℕ → List ℕ → List ℕ
drop_nft n [] = []
drop_nft n (k ∷ ks) = let rest = drop_nft n ks in if k == n then rest else k ∷ rest

unfoldable pub cache_pubkey : ℕ → Bytes → Inbound → Inbound
unfolding drop_nft
cache_pubkey nft_id key v = record v {
  nft_pubkeys = insert nft_id key v.nft_pubkeys;
  unknown_nfts = drop_nft nft_id v.unknown_nfts;
}

unfoldable pub take_unknown_nfts : Inbound → Inbound × List ℕ
take_unknown_nfts v = (record v { unknown_nfts = [] }, v.unknown_nfts)

abbrev pub is_empty : List ℕ → Bool
is_empty [] = true
is_empty (n ∷ ns) = false

unfoldable pub should_fetch_pubkeys : ℕ → Inbound → Bool
should_fetch_pubkeys current_batch v =
    not (is_empty v.unknown_nfts)
    && leb (u64_add v.last_pubkey_fetch_batch pubkey_fetch_interval) current_batch

-- The log line aside.
unfoldable pub reset_stats : Inbound → Inbound
reset_stats v = record v {
  rejected_bounds = 0;
  rejected_dedup = 0;
  rejected_rate = 0;
  rejected_sig = 0;
  rejected_unknown = 0;
  accepted = 0;
}
