-- ===== src/Escrow/IsActiveCache.antt =====
-- crates/escrow_tracker/src/is_active_cache.rs: the cache of which peers are active.
use deadmkt_node.Prelude.{
  ℕ, ◌+◌, ◌-◌, ◌≤◌, ◌≡◌, ◌≢◌, ◌⊎◌, inl, inr, refl, ap, ◌∙◌, Bool, not, ◌&&◌, ltb, leb,
  if◌then◌else◌, Option, none, some, [], ◌∷◌, length, max, nat_eq, nat_beq, nat_beq_iff, Bool-cases,
  Option-cases, arith,
}
use deadmkt_node.Maps.{
  Map, lookup, insert, remove, contains_key, lookup-remove, lookup-insert_self, lookup-insert_ne,
  length-insert, length-insert_present,
}

pub record Entry : Type 0 where
  pub is_active : Bool
  pub fetched_at : ℕ

pub record IsActiveCache : Type 0 where
  pub entries : Map ℕ Entry
  pub ttl : ℕ
  pub max_entries : ℕ

unfoldable pub new_cache : ℕ → ℕ → IsActiveCache
new_cache ttl max_entries = record { entries = []; ttl = ttl; max_entries = max max_entries 1 }

-- The clock is read by the caller: `now` and `fetched_at` are readings of it, and `elapsed` is
-- their difference.
abbrev pub is_young : ℕ → ℕ → Entry → Bool
is_young now ttl e = ltb (now - e.fetched_at) ttl

abbrev pub if_young : ℕ → ℕ → Option Entry → Option Bool
if_young now ttl none = none
if_young now ttl (some e) = if is_young now ttl e then some e.is_active else none

unfoldable pub get : ℕ → ℕ → IsActiveCache → Option Bool
get now nft_id c = if_young now c.ttl (lookup nft_id c.entries)

-- `min_by_key`: the first entry with the least reading
abbrev pub older : ℕ × Entry → Option (ℕ × Entry) → ℕ × Entry
older x none = x
older x (some y) = if leb x.1.fetched_at y.1.fetched_at then x else y

unfoldable pub oldest : Map ℕ Entry → Option (ℕ × Entry)
oldest [] = none
oldest (x ∷ m) = some (older x (oldest m))

abbrev pub without_oldest : Map ℕ Entry → Option (ℕ × Entry) → Map ℕ Entry
without_oldest m none = m
without_oldest m (some x) = remove x.0 m

unfoldable pub make_room : ℕ → IsActiveCache → Map ℕ Entry
unfolding oldest
make_room nft_id c =
    if leb c.max_entries (length c.entries) && not (contains_key nft_id c.entries)
    then without_oldest c.entries (oldest c.entries)
    else c.entries

unfoldable pub insert_fresh : ℕ → ℕ → Bool → IsActiveCache → IsActiveCache
insert_fresh now nft_id is_active c = record c {
  entries = insert nft_id (record { is_active = is_active; fetched_at = now }) (make_room nft_id c);
}

unfoldable pub invalidate : ℕ → IsActiveCache → IsActiveCache
invalidate nft_id c = record c { entries = remove nft_id c.entries }

unfoldable pub live_counts : ℕ → ℕ → Map ℕ Entry → ℕ × ℕ
live_counts now ttl [] = (0, 0)
live_counts now ttl ((k, e) ∷ m) =
    let rest = live_counts now ttl m in
    if is_young now ttl e
    then if e.is_active then (rest.0 + 1, rest.1) else (rest.0, rest.1 + 1)
    else rest

length-remove : (k : ℕ) (m : Map ℕ Entry) → length (remove k m) ≤ length m
unfolding remove
length-remove k [] = omega arith
length-remove k ((j, e) ∷ m) = ground (arith, length-remove k m)

length-remove_present :
    (k : ℕ) (m : Map ℕ Entry) → lookup k m ≢ none → length (remove k m) + 1 ≤ length m
unfolding remove lookup
length-remove_present k [] h = absurd (h refl)
length-remove_present k ((j, e) ∷ m) h =
    ground (arith, length-remove k m, length-remove_present k m)

oldest_found : (m : Map ℕ Entry) (x : ℕ × Entry) → oldest m ≡ some x → lookup x.0 m ≢ none
unfolding oldest lookup
oldest_found [] x q = absurd (ground arith)
oldest_found (y ∷ m) x q = go (oldest m) (oldest_found m) q
  where
    go :
        (o : Option (ℕ × Entry))
        → ((z : ℕ × Entry) → o ≡ some z → lookup z.0 m ≢ none)
        → some (older y o) ≡ some x
        → (if nat_beq y.0 x.0 then some y.1 else lookup x.0 m) ≢ none
    go none found h = ground (arith, nat_beq_iff y.0 x.0)
    go (some z) found h = ground (arith, nat_beq_iff y.0 x.0, found z refl)

oldest-none : (m : Map ℕ Entry) → oldest m ≡ none → length m ≡ 0
unfolding oldest
oldest-none [] h = refl
oldest-none (x ∷ m) h = absurd (ground arith)

-- Room is made by removing at most one entry, and never the one to be written.
make_room-lookup :
    (nft_id other : ℕ) (c : IsActiveCache)
    → (lookup other (make_room nft_id c) ≡ lookup other c.entries)
      ⊎ (lookup other (make_room nft_id c) ≡ none)
unfolding make_room
make_room-lookup nft_id other c =
    elim (Bool-cases
      (leb c.max_entries (length c.entries) && not (contains_key nft_id c.entries))) [
        | inr room ↦ rw room (inl refl)
        | inl full ↦ rw full (go (oldest c.entries))
      ]
  where
    go :
        (o : Option (ℕ × Entry))
        → (lookup other (without_oldest c.entries o) ≡ lookup other c.entries)
          ⊎ (lookup other (without_oldest c.entries o) ≡ none)
    go none = inl refl
    go (some x) = elim (Bool-cases (nat_beq x.0 other)) [
      | inl hit ↦ inr (lookup-remove x.0 other c.entries ∙ rw hit refl)
      | inr miss ↦ inl (lookup-remove x.0 other c.entries ∙ rw miss refl)
    ]

abbrev IsBounded : IsActiveCache → Type 0
IsBounded c = (1 ≤ c.max_entries) × (length c.entries ≤ c.max_entries)

insert-IsBounded :
    (now nft_id : ℕ) (is_active : Bool) (c : IsActiveCache)
    → IsBounded c
    → IsBounded (insert_fresh now nft_id is_active c)
unfolding insert_fresh make_room
insert-IsBounded now nft_id is_active c b =
    let e : Entry = record { is_active = is_active; fetched_at = now } in
    elim (Option-cases (lookup nft_id c.entries)) [
      | inr (w, q) ↦ (b.0, rw q (ground (arith, b.1, length-insert_present nft_id e w c.entries q)))
      | inl q ↦ (
        b.0,
        elim (Bool-cases (leb c.max_entries (length c.entries))) [
          | inr room ↦ rw (q, room) (ground (arith, length-insert nft_id e c.entries))
          | inl full ↦ rw (q, full) (go e (oldest c.entries) refl)
        ],
      )
    ]
  where
    go :
        (e : Entry) (o : Option (ℕ × Entry))
        → oldest c.entries ≡ o
        → length (insert nft_id e (without_oldest c.entries o)) ≤ c.max_entries
    go e none s = omega (arith, b.0, oldest-none c.entries s, length-insert nft_id e c.entries)
    go e (some x) s = omega (
      arith,
      b.1,
      length-insert nft_id e (remove x.0 c.entries),
      length-remove_present x.0 c.entries (oldest_found c.entries x s),
    )

-- A run of the cache from a new one, with the clock's readings.
pub data Reach (ttl max_entries : ℕ) : IsActiveCache → Type 0 where
  starts : Reach ttl max_entries (new_cache ttl max_entries)
  inserts :
      {c : IsActiveCache} (now nft_id : ℕ) (is_active : Bool)
      → Reach ttl max_entries c
      → Reach ttl max_entries (insert_fresh now nft_id is_active c)
  invalidates :
      {c : IsActiveCache} (nft_id : ℕ)
      → Reach ttl max_entries c
      → Reach ttl max_entries (invalidate nft_id c)

reach_lem :
    {ttl max_entries : ℕ} {c : IsActiveCache}
    → Reach ttl max_entries c
    → (c.max_entries ≡ max max_entries 1) × IsBounded c
unfolding new_cache invalidate insert_fresh
reach_lem starts = (refl, (omega arith, omega arith))
reach_lem (inserts {c} now nft_id is_active r) =
    let h = reach_lem r in (h.0, insert-IsBounded now nft_id is_active c h.1)
reach_lem (invalidates {c} nft_id r) =
    let h = reach_lem r in (h.0, (h.1.0, omega (arith, h.1.1, length-remove nft_id c.entries)))

-- However many observations are inserted, the cache holds at most as many entries as it was made
-- for, and one where it was made for none.
pub Reach-bounded :
    {ttl max_entries : ℕ} {c : IsActiveCache}
    → Reach ttl max_entries c
    → length c.entries ≤ max max_entries 1
Reach-bounded r = let h = reach_lem r in omega (arith, h.0, h.1.1)

-- After an observation is inserted at `now`, a reading of the node's entry at any time gives the
-- observed value for as long as it is younger than the cache's time to live, and nothing from then
-- on; and a reading for another node gives what it gave before, or nothing where it was evicted.
pub get-insert_fresh :
    (now later nft_id other : ℕ) (is_active : Bool) (c : IsActiveCache)
    → (get later nft_id (insert_fresh now nft_id is_active c)
        ≡ (if ltb (later - now) c.ttl then some is_active else none))
      × (nft_id ≢ other
          → (get later other (insert_fresh now nft_id is_active c) ≡ get later other c)
            ⊎ (get later other (insert_fresh now nft_id is_active c) ≡ none))
unfolding get insert_fresh
get-insert_fresh now later nft_id other is_active c =
    let e : Entry = record { is_active = is_active; fetched_at = now } in
    (
      ap (if_young later c.ttl) (lookup-insert_self nft_id e (make_room nft_id c)),
      (λ ne. elim (make_room-lookup nft_id other c) [
        | inl same ↦ inl (
            ap (if_young later c.ttl)
              (lookup-insert_ne nft_id other e (make_room nft_id c) ne ∙ same))
        | inr gone ↦ inr (
            ap (if_young later c.ttl)
              (lookup-insert_ne nft_id other e (make_room nft_id c) ne ∙ gone))
      ]),
    )
