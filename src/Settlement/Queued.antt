-- ===== src/Settlement/Queued.antt =====
-- src/run.rs, the loop of the swap phase: what it hands to the worker is backed by a reservation.
use mathlib.Core.List.{mem-cons, mem-cons_self, mem-cons_of_mem, not-mem-nil, Mem-prop}
use mathlib.Core.Logic.Or
use deadmkt_node.Prelude.{
  ◌≡◌, ◌≢◌, refl, subst, ◌∙◌, Bool, true, false, not, ◌&&◌, ◌==◌, nat_eq, none, some, List, [], ◌∷◌,
  ◌++◌, map, Mem, String, string_eq, All, All-append, All-map, All-map₂, bind_inv, some_inj, arith,
  Bool-cases, Option-cases, inl, inr, if_rule,
}
use deadmkt_node.Maps.{contains, contains_key}
use deadmkt_node.Bytes.{Bytes}
use deadmkt_node.Matching.{Match}
use deadmkt_node.Escrow.Defs.{EscrowResult, ok, err, has_pending}
use deadmkt_node.Escrow.IsActiveCache.{IsActiveCache, get}
use deadmkt_node.Settlement.Defs.{SettlementManager, inactive, register_match}
use deadmkt_node.Settlement.Worker.{SettleRequest}
use deadmkt_node.Settlement.Agreement.{Change, ends, change, registers}
use deadmkt_node.Settlement.Refinement.{Step, Run, replay, manager_refines_replay}
use deadmkt_node.Settlement.Swap.{
  Node, Swap, Moment, is_dead, dead_nft, after_register, swap_match, swap_matches,
}

abbrev pub request : String → Match → SettleRequest
request match_hash m = record { match_data = m; match_hash = match_hash; is_gas_payer = true }

abbrev pub distinct : List String → Bool
distinct [] = true
distinct (h ∷ rest) = not (contains h rest) && distinct rest

both_alive :
    (cache : IsActiveCache) (m : Match) (t : Moment)
    → dead_nft cache m t ≡ none
    → (get t.at_buyer m.buyer.order.nft_id cache ≢ some false)
      × (get t.at_seller m.seller.order.nft_id cache ≢ some false)
unfolding dead_nft
both_alive cache m t h = (
  λ q. absurd (let bad = rw q at h in ground arith),
  λ q. elim (Bool-cases (is_dead (get t.at_buyer m.buyer.order.nft_id cache))) [
    | inl dead ↦ absurd (let bad = rw dead at h in ground arith)
    | inr live ↦ absurd (let bad = rw (live, q) at h in ground arith)
  ],
)

module _ (hex_encode : Bytes → String) (node : Node) where
  -- A request that may be sent: for a match of the batch that this node pays for and whose sides
  -- the cache does not call inactive.
  pub record IsDue (ms : List (Match × Moment)) (q : SettleRequest) : Type 0 where
    pub moment : Moment
    pub of_batch : Mem (q.match_data, moment) ms
    pub of_match : q ≡ request (hex_encode q.match_data.match_hash) q.match_data
    pub own_gas : q.match_data.gas_payer_nft_id ≡ node.nft_id
    pub buyer_alive :
        get moment.at_buyer q.match_data.buyer.order.nft_id node.is_active_cache ≢ some false
    pub seller_alive :
        get moment.at_seller q.match_data.seller.order.nft_id node.is_active_cache ≢ some false

  abbrev pub hashes : List (Match × Moment) → List String
  hashes = map (λ (x : Match × Moment). hex_encode x.0.match_hash)

  later :
      (x : Match × Moment) (ms : List (Match × Moment)) (q : SettleRequest)
      → IsDue ms q
      → IsDue (x ∷ ms) q
  later x ms q d = record {
    moment = d.moment;
    of_batch = mem-cons_of_mem x d.of_batch;
    of_match = d.of_match;
    own_gas = d.own_gas;
    buyer_alive = d.buyer_alive;
    seller_alive = d.seller_alive;
  }

  widen :
      (x : Match × Moment) (ms : List (Match × Moment)) (q : SettleRequest)
      → IsDue (x ∷ []) q
      → IsDue (x ∷ ms) q
  widen x ms q d = record {
    moment = d.moment;
    of_batch =
        Or.elim Mem-prop (mem-cons.0 d.of_batch) (λ same. rw same mem-cons_self)
          (λ none_left. absurd (not-mem-nil none_left));
    of_match = d.of_match;
    own_gas = d.own_gas;
    buyer_alive = d.buyer_alive;
    seller_alive = d.seller_alive;
  }

  -- What a piece of the loop makes of a run: a longer run, which changes only some matches, and
  -- requests for matches that are in flight.
  record Goes (ms : List (Match × Moment)) (trace : List Change) (r : Swap × List SettleRequest)
      : Type 0 where
    trace' : List Change
    run : Run hex_encode trace' r.0.manager
    only : (j : String) → contains j (hashes ms) ≡ false → replay trace' j ≡ replay trace j
    due : All (IsDue ms) r.1
    flying : distinct (hashes ms) ≡ true → All (λ q. replay trace' q.match_hash ≡ true) r.1
    within : All (λ q. contains q.match_hash (hashes ms) ≡ true) r.1

  sends_none :
      (m : Match) (t : Moment) (trace trace' : List Change) (w : Swap)
      → Run hex_encode trace' w.manager
      → ((j : String)
          → contains j (hashes ((m, t) ∷ [])) ≡ false
          → replay trace' j ≡ replay trace j)
      → Goes ((m, t) ∷ []) trace (w, [])
  sends_none m t trace trace' w run only = record {
    trace' = trace';
    run = run;
    only = only;
    due = tt;
    flying = λ d. tt;
    within = tt;
  }

  after_register-Goes :
      (m : Match) (t : Moment) (w : Swap) (trace : List Change) (s : SettlementManager)
      (r : EscrowResult)
      → Run hex_encode trace w.manager
      → Step hex_encode w.manager (registers (hex_encode m.match_hash) r) s
      → Goes ((m, t) ∷ []) trace (after_register node (hex_encode m.match_hash) m t w (s, r))
  unfolding after_register replay change contains
  after_register-Goes m t w trace s (err e) run step =
      sends_none m t trace (registers (hex_encode m.match_hash) (err e) ∷ trace) _
        (Run.goes_on _ trace w.manager s run step) (λ j other. ground arith)
  after_register-Goes m t w trace s ok run step =
      let h = hex_encode m.match_hash in
      let c = registers h ok in
      let run1 = Run.goes_on c trace w.manager s run step in
      let one : (j : String) → contains j (h ∷ []) ≡ false → replay (c ∷ trace) j ≡ replay trace j =
        λ j other. ground arith in
      elim (Bool-cases (m.gas_payer_nft_id == node.nft_id)) [
        | inr others ↦ rw others (sends_none m t trace (c ∷ trace) _ run1 one)
        | inl own ↦ rw own (elim (Option-cases (dead_nft node.is_active_cache m t)) [
          | inr (dead, q) ↦ rw q (
              sends_none m t trace (ends (h ∷ []) ∷ c ∷ trace) _
                (Run.goes_on _ (c ∷ trace) s _ run1 (Step.skips h (inactive dead) s))
                (λ j other. ground arith))
          | inl alive ↦ rw alive (
              if_rule
                (λ (sent : List SettleRequest).
                  Goes ((m, t) ∷ []) trace (record w { manager = s }, sent))
                t.has_room _ _
                (λ room. record {
                  trace' = c ∷ trace;
                  run = run1;
                  only = one;
                  due = (
                    record {
                      moment = t;
                      of_batch = mem-cons_self;
                      of_match = refl;
                      own_gas = (nat_eq.beq_iff m.gas_payer_nft_id node.nft_id).0 own;
                      buyer_alive = (both_alive node.is_active_cache m t alive).0;
                      seller_alive = (both_alive node.is_active_cache m t alive).1;
                    },
                    tt,
                  );
                  flying = λ d. (ground (arith, string_eq.beq_iff h h), tt);
                  within = (ground (arith, string_eq.beq_iff h h), tt);
                })
                (λ full. sends_none m t trace (c ∷ trace) _ run1 one))
        ])
      ]

  joined :
      (m : Match) (t : Moment) (rest : List (Match × Moment)) (trace : List Change)
      (one others : Swap × List SettleRequest) (g : Goes ((m, t) ∷ []) trace one)
      → Goes rest g.trace' others
      → Goes ((m, t) ∷ rest) trace (others.0, one.1 ++ others.1)
  unfolding contains
  joined m t rest trace one others g gs =
      let h = hex_encode m.match_hash in
      record {
        trace' = gs.trace';
        run = gs.run;
        only = λ j other. ground (arith, g.only j, gs.only j);
        due =
            All-append _ one.1 others.1 (All-map (λ q d. widen (m, t) rest q d) one.1 g.due)
              (All-map (λ q d. later (m, t) rest q d) others.1 gs.due);
        flying = λ d.
            All-append _ one.1 others.1
              (All-map₂
                (λ q inside up.
                  ground (arith, gs.only q.match_hash, string_eq.beq_iff h q.match_hash))
                one.1 g.within (g.flying (ground arith)))
              (gs.flying (ground arith));
        within =
            All-append _ one.1 others.1 (All-map (λ q inside. ground arith) one.1 g.within)
              (All-map (λ q inside. ground arith) others.1 gs.within);
      }

  module _ (from_utf8_lossy : Bytes → String) where
    swap_match-Goes :
        (m : Match) (t : Moment) (w : Swap) (trace : List Change) (r : Swap × List SettleRequest)
        → Run hex_encode trace w.manager
        → swap_match hex_encode from_utf8_lossy node m t w ≡ some r
        → Goes ((m, t) ∷ []) trace r
    unfolding swap_match
    swap_match-Goes m t w trace r run e =
        let inv = bind_inv (register_match hex_encode m _ _ _ _ _ _ _ w.manager) _ r e in
        subst (Goes ((m, t) ∷ []) trace) (some_inj inv.2) (
          after_register-Goes m t w trace inv.0.0 inv.0.1 run
            (Step.registers_match m _ _ _ _ _ _ _ w.manager inv.0.0 inv.0.1 inv.1))

    swap_matches-Goes :
        (ms : List (Match × Moment)) (w : Swap) (trace : List Change)
        (r : Swap × List SettleRequest)
        → Run hex_encode trace w.manager
        → swap_matches hex_encode from_utf8_lossy node ms w ≡ some r
        → Goes ms trace r
    unfolding swap_matches contains
    swap_matches-Goes [] w trace r run e = subst (Goes [] trace) (some_inj e) (record {
      trace' = trace;
      run = run;
      only = λ j other. refl;
      due = tt;
      flying = λ d. tt;
      within = tt;
    })
    swap_matches-Goes ((m, t) ∷ rest) w trace r run e =
        let first = bind_inv (swap_match hex_encode from_utf8_lossy node m t w) _ r e in
        let others =
          bind_inv (swap_matches hex_encode from_utf8_lossy node rest first.0.0) _ r first.2 in
        let g = swap_match-Goes m t w trace first.0 run first.1 in
        let gs = swap_matches-Goes rest first.0.0 g.trace' others.0 g.run others.1 in
        subst (Goes ((m, t) ∷ rest) trace) (some_inj others.2)
          (joined m t rest trace first.0 others.0 g gs)

  pub queued_are_reserved :
      (from_utf8_lossy : Bytes → String) (ms : List (Match × Moment)) (w w' : Swap)
      (trace : List Change) (sent : List SettleRequest)
      → Run hex_encode trace w.manager
      → distinct (hashes ms) ≡ true
      → swap_matches hex_encode from_utf8_lossy node ms w ≡ some (w', sent)
      → All
          (λ q.
            IsDue ms q
            × (contains_key q.match_hash w'.manager.pending ≡ true)
            × (has_pending q.match_hash w'.manager.tracker ≡ true))
          sent
  queued_are_reserved from_utf8_lossy ms w w' trace sent run d e =
      let g = swap_matches-Goes from_utf8_lossy ms w trace (w', sent) run e in
      All-map₂
        (λ q due up.
          let both = manager_refines_replay hex_encode g.trace' w'.manager g.run q.match_hash in
          (due, both.0 ∙ up, both.1 ∙ up))
        sent g.due (g.flying d)
