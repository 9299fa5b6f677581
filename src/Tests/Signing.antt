-- ===== src/Tests/Signing.antt =====
-- The signed messages and the inbound filter at concrete inputs.
use deadmkt_node.Prelude.{
  ◌<◌, ◌⊎◌, ◌-◌, ℕ, ◌≤◌, ◌≡◌, refl, ap₂, false, List, [], ◌∷◌, arith, bytes_eq, nat_eq,
}
use deadmkt_node.Bytes.{Bytes}
use deadmkt_node.Crypto.{verify}
use deadmkt_node.Crypto.Messages.{IsPrefixFree, Signs}
use deadmkt_node.Maps.{lookup, insert, contains, add}
use deadmkt_node.Inbound.{
  start_at, is_batch_in_range, accept_commit, accept_reveal, check_rate_limit, check_key, give_back,
  forget, cache_pubkey, drop_nft, update_batch, count_of,
}
use deadmkt_node.Inbound.Events.{Message, Event, arrives, learns, advances, accepted_of, receive}
use deadmkt_node.Inbound.Limits.{accepted_at_most}
use deadmkt_node.Inbound.Commits.{commit_handled_once}
use deadmkt_node.Tests.Data.{stand_in, marked, zeros_64, hash_32}

marked-IsPrefixFree : IsPrefixFree marked
marked-IsPrefixFree [] [] r s e = (refl, ground arith)
marked-IsPrefixFree [] (b ∷ bs) r s e = absurd (ground arith)
marked-IsPrefixFree (a ∷ as_) [] r s e = absurd (ground arith)
marked-IsPrefixFree (a ∷ as_) (b ∷ bs) r s e =
    let rest = marked-IsPrefixFree as_ bs r s (ground arith) in
    let first : a ≡ b = ground arith in (ap₂ (λ x xs. x ∷ xs) first rest.0, rest.1)

pub stand_in-Signs : Signs stand_in (λ secret. secret)
stand_in-Signs secret message = (refl, refl)

abbrev batch : ℕ
batch = 3

abbrev pool : ℕ
pool = 0

abbrev price : ℕ
price = 15

abbrev volume : ℕ
volume = 9

abbrev count : ℕ
count = 1

abbrev symbol : Bytes
symbol = 7 ∷ []

-- Two commits with one hash, a reveal of a trader whose key is unknown, and once it is known the same
-- reveal with a bad signature and with a good one.
abbrev traffic : List Event
traffic =
    arrives (Message.commit 1 3 hash_32)
    ∷ arrives (Message.commit 1 3 hash_32)
    ∷ arrives (Message.reveal 1 3 (7 ∷ []) zeros_64)
    ∷ learns 1 (9 ∷ [])
    ∷ arrives (Message.reveal 1 3 (7 ∷ []) (8 ∷ []))
    ∷ arrives (Message.reveal 1 3 (7 ∷ []) zeros_64)
    ∷ advances 4
    ∷ []

two_accepted : accepted_of stand_in 1 3 traffic (start_at 3) ≡ 2
unfolding accepted_of start_at accept_commit accept_reveal is_batch_in_range check_rate_limit
    check_key give_back forget cache_pubkey drop_nft update_batch lookup insert contains add verify
two_accepted = refl

accepted_at_most_example :
    (accepted_of stand_in 1 3 (traffic) (start_at 3) ≤ 10)
    × ((count_of 1 3 (receive stand_in traffic (start_at 3))
          ≡ accepted_of stand_in 1 3 traffic (start_at 3))
        ⊎ (3 < (receive stand_in traffic (start_at 3)).current_batch_id - 5))
accepted_at_most_example = accepted_at_most stand_in 1 3 traffic 3

commit_handled_once_example :
    (accept_commit 2 4 hash_32
      (receive stand_in traffic (accept_commit 1 3 hash_32 (start_at 3)).0)).1
    ≡ false
unfolding is_batch_in_range start_at
commit_handled_once_example =
    commit_handled_once stand_in 1 3 2 4 hash_32 traffic (start_at 3) refl refl
      (refl, (refl, (refl, (refl, (refl, (refl, (refl, tt)))))))
