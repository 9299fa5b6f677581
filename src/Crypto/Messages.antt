-- ===== src/Crypto/Messages.antt =====
-- The signed messages and the hashed match data determine their fields, and what the node signs
-- it also accepts.
use deadmkt_node.Prelude.{
  ℕ, ◌<◌, ◌^◌, ◌≡◌, refl, ap, ◌++◌, List, [], ◌∷◌, Bool, true, if◌then◌else◌, length, arith,
}
use deadmkt_node.Bytes.{Bytes, u64_bytes, le_bytes-append_inj}
use deadmkt_node.Crypto.{
  Libraries, Order, sign, verify, encode_order, sign_order, commit_message, match_preimage,
  settlement_report_message, sign_commit, batch_complete_message, sign_batch_complete,
  sign_settlement_report,
}

append_inj_of_length : (a b r s : Bytes) → length a ≡ length b → a ++ r ≡ b ++ s → (a ≡ b) × (r ≡ s)
append_inj_of_length [] [] r s h e = (refl, e)
append_inj_of_length [] (y ∷ b) r s h e = absurd (omega arith)
append_inj_of_length (x ∷ a) [] r s h e = absurd (omega arith)
append_inj_of_length (x ∷ a) (y ∷ b) r s h e =
    let h' : length a ≡ length b = omega arith in
    let e' : a ++ r ≡ b ++ s = cc in
    let (heads, tails) = append_inj_of_length a b r s h' e' in (cc, tails)

u64_bytes-inj : (x y : ℕ) → x < 2 ^ 64 → y < 2 ^ 64 → u64_bytes x ≡ u64_bytes y → x ≡ y
u64_bytes-inj x y hx hy e =
    (le_bytes-append_inj 8 x y [] [] hx hy (ap (λ (b : Bytes). b ++ []) e)).0

-- A commit signature covers the batch, the pool and the hash: no two commits share a message.
pub commit_message_inj :
    (batch_id pool_id batch_id' pool_id' : ℕ) (hash hash' : Bytes)
    → batch_id < 2 ^ 64
    → pool_id < 2 ^ 64
    → batch_id' < 2 ^ 64
    → pool_id' < 2 ^ 64
    → commit_message batch_id pool_id hash ≡ commit_message batch_id' pool_id' hash'
    → (batch_id ≡ batch_id') × (pool_id ≡ pool_id') × (hash ≡ hash')
unfolding commit_message
commit_message_inj b p b' p' h h' lb lp lb' lp' e =
    let (eb, r) = le_bytes-append_inj 8 b b' _ _ lb lb' e in
    let (ep, eh) = le_bytes-append_inj 8 p p' _ _ lp lp' r in (eb, ep, eh)

-- Two matches whose order hashes have one length hash the same bytes only if they agree on the
-- batch, on both orders and on the filled quantity.
pub match_preimage_inj :
    (batch_id batch_id' fill fill' : ℕ) (buyer buyer' seller seller' : Bytes)
    → batch_id < 2 ^ 64
    → batch_id' < 2 ^ 64
    → fill < 2 ^ 64
    → fill' < 2 ^ 64
    → length buyer ≡ length buyer'
    → length seller ≡ length seller'
    → match_preimage batch_id buyer seller fill ≡ match_preimage batch_id' buyer' seller' fill'
    → (batch_id ≡ batch_id') × (buyer ≡ buyer') × (seller ≡ seller') × (fill ≡ fill')
unfolding match_preimage
match_preimage_inj i i' f f' b b' s s' li li' lf lf' hb hs e =
    let (ei, r) = le_bytes-append_inj 8 i i' _ _ li li' e in
    let (eb, q) = append_inj_of_length b b' _ _ hb r in
    let (es, p) = append_inj_of_length s s' _ _ hs q in (ei, eb, es, u64_bytes-inj f f' lf lf' p)

-- A settlement report message determines its fields, for match hashes of one length.
pub settlement_report_message_inj :
    (batch_id batch_id' bailer bailer' : ℕ) (hash hash' : Bytes) (settled settled' : Bool)
    → batch_id < 2 ^ 64
    → batch_id' < 2 ^ 64
    → bailer < 2 ^ 64
    → bailer' < 2 ^ 64
    → length hash ≡ length hash'
    → settlement_report_message batch_id hash settled bailer
      ≡ settlement_report_message batch_id' hash' settled' bailer'
    → (batch_id ≡ batch_id') × (hash ≡ hash') × (settled ≡ settled') × (bailer ≡ bailer')
unfolding settlement_report_message
settlement_report_message_inj i i' n n' h h' s s' li li' ln ln' lh e =
    let (ei, r) = le_bytes-append_inj 8 i i' _ _ li li' e in
    let (eh, q) = append_inj_of_length h h' _ _ lh r in
    (ei, eh, flags s s' q, u64_bytes-inj n n' ln ln' (tails s s' q))
  where
    flags :
        (s s' : Bool) {r r' : Bytes}
        → ◌≡◌ {A = List ℕ} ((if s then 1 else 0) ∷ r) ((if s' then 1 else 0) ∷ r')
        → s ≡ s'
    flags s s' e = ground arith

    tails :
        (s s' : Bool) {r r' : Bytes}
        → ◌≡◌ {A = List ℕ} ((if s then 1 else 0) ∷ r) ((if s' then 1 else 0) ∷ r')
        → r ≡ r'
    tails s s' e = ground arith

-- BCS writes a byte vector so that its end can be told.
abbrev pub IsPrefixFree : (Bytes → Bytes) → Type 0
IsPrefixFree encode = (a b r s : Bytes) → encode a ++ r ≡ encode b ++ s → (a ≡ b) × (r ≡ s)

-- A batch-complete message determines all six of its fields, the variable-length symbol included.
pub batch_complete_message_inj :
    (lib : Libraries) (batch batch' pool pool' price price' volume volume' count count' : ℕ)
    (symbol symbol' : Bytes)
    → IsPrefixFree lib.bcs_bytes
    → batch < 2 ^ 64
    → batch' < 2 ^ 64
    → pool < 2 ^ 64
    → pool' < 2 ^ 64
    → price < 2 ^ 64
    → price' < 2 ^ 64
    → volume < 2 ^ 64
    → volume' < 2 ^ 64
    → count < 2 ^ 64
    → count' < 2 ^ 64
    → batch_complete_message lib batch pool symbol price volume count
      ≡ batch_complete_message lib batch' pool' symbol' price' volume' count'
    → (batch ≡ batch')
      × (pool ≡ pool')
      × (symbol ≡ symbol')
      × (price ≡ price')
      × (volume ≡ volume')
      × (count ≡ count')
unfolding batch_complete_message
batch_complete_message_inj lib b b' p p' a a' v v' c c' s s' free lb lb' lp lp' la la' lv lv' lc lc'
      e =
    let (eb, r₁) = le_bytes-append_inj 8 b b' _ _ lb lb' e in
    let (ep, r₂) = le_bytes-append_inj 8 p p' _ _ lp lp' r₁ in
    let (es, r₃) = free s s' _ _ r₂ in
    let (ea, r₄) = le_bytes-append_inj 8 a a' _ _ la la' r₃ in
    let (ev, r₅) = le_bytes-append_inj 8 v v' _ _ lv lv' r₄ in
    (eb, ep, es, ea, ev, u64_bytes-inj c c' lc lc' r₅)

-- Ed25519: a signature has 64 bytes and verifies under the key that belongs to the secret.
abbrev pub Signs : Libraries → (Bytes → Bytes) → Type 0
Signs lib public =
    (secret message : Bytes)
    → (length (lib.ed25519_sign secret message) ≡ 64)
      × (lib.ed25519_verify (public secret) message (lib.ed25519_sign secret message) ≡ true)

module _ (lib : Libraries) (public : Bytes → Bytes) (signs : Signs lib public) where
  verify-sign :
      (secret message : Bytes) → verify lib (public secret) message (sign lib secret message) ≡ true
  unfolding verify sign
  verify-sign secret message = ground (arith, signs secret message)

  -- Each of the four signing functions makes a signature that `verify` accepts for the message
  -- which the receiving side builds.
  pub verify_own_messages :
      (secret : Bytes) (order : Order) (batch pool price volume count bailer : ℕ)
      (symbol hash : Bytes) (settled : Bool)
      → (verify lib (public secret) (encode_order lib order) (sign_order lib secret order) ≡ true)
        × (verify lib
              (public secret)
              (commit_message batch pool hash)
              (sign_commit lib secret batch pool hash)
            ≡ true)
        × (verify lib
              (public secret)
              (batch_complete_message lib batch pool symbol price volume count)
              (sign_batch_complete lib secret batch pool symbol price volume count)
            ≡ true)
        × (verify lib
              (public secret)
              (settlement_report_message batch hash settled bailer)
              (sign_settlement_report lib secret batch hash settled bailer)
            ≡ true)
  unfolding sign_order sign_commit commit_message sign_batch_complete sign_settlement_report
      batch_complete_message
  verify_own_messages secret order batch pool price volume count bailer symbol hash settled =
      (verify-sign secret _, verify-sign secret _, verify-sign secret _, verify-sign secret _)
