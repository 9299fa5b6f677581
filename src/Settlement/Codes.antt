-- ===== src/Settlement/Codes.antt =====
-- crates/settlement/src/lib.rs: the abort codes of `settle_match`.
use deadmkt_node.Prelude.{
  ℕ, ◌+◌, ◌*◌, ◌%◌, ◌^◌, ◌<◌, ◌≡◌, ◌≢◌, ap, Bool, true, false, ltb, if◌then◌else◌, [], ◌∷◌, nat_eq,
  arith, Option-cases, inl, inr,
}
use deadmkt_node.Maps.{Map, lookup, get_or, lookup-All}

pub data AbortCode : Type 0 where
  already_settled insufficient_balance buyer_inactive seller_inactive : AbortCode
  buyer_overfill seller_overfill nft_blocked nft_burned batch_too_old : AbortCode
  quantity_too_small self_trade invalid_side signature_verify_failed : AbortCode
  market_not_active quote_amount_zero : AbortCode
  other : ℕ → AbortCode

-- The low 16 bits of a code that has a category above them.
unfoldable pub reason_of : ℕ → ℕ
reason_of code = if ltb 65535 code then code % 2 ^ 16 else code

-- The arms of the match, by the constants of settlement.move.
abbrev pub arms : Map ℕ AbortCode
arms =
    (0, batch_too_old)
    ∷ (3, invalid_side)
    ∷ (8, self_trade)
    ∷ (11, signature_verify_failed)
    ∷ (12, signature_verify_failed)
    ∷ (13, buyer_inactive)
    ∷ (14, seller_inactive)
    ∷ (15, already_settled)
    ∷ (17, market_not_active)
    ∷ (18, quantity_too_small)
    ∷ (20, quote_amount_zero)
    ∷ (21, buyer_overfill)
    ∷ (22, seller_overfill)
    ∷ (23, nft_burned)
    ∷ (28, nft_blocked)
    ∷ []

unfoldable pub from_code : ℕ → AbortCode
unfolding reason_of
from_code code = get_or (other code) (lookup (reason_of code) arms)

reason_of_category :
    (category reason : ℕ) → reason < 2 ^ 16 → reason_of (category * 2 ^ 16 + reason) ≡ reason
unfolding reason_of
reason_of_category category reason h = ground arith

-- A reason that the node knows is read under every category the VM may put above it, and under
-- none; a reason that it does not know is reported with the whole code.
pub from_code-category :
    (category reason : ℕ)
    → reason < 2 ^ 16
    → from_code (category * 2 ^ 16 + reason)
      ≡ get_or (other (category * 2 ^ 16 + reason)) (lookup reason arms)
unfolding from_code
from_code-category category reason h =
    ap (λ r. get_or (other (category * 2 ^ 16 + reason)) (lookup r arms))
      (reason_of_category category reason h)

is_kept : AbortCode → Bool
is_kept insufficient_balance = false
is_kept _ = true

-- No code of the chain is ever read as `InsufficientBalance`, which the manager would keep pending.
pub from_code_never_insufficient : (code : ℕ) → from_code code ≢ insufficient_balance
unfolding from_code is_kept
from_code_never_insufficient code q = elim (Option-cases (lookup (reason_of code) arms)) [
  | inl unknown ↦ ground arith
  | inr (c, known) ↦
      let kept =
        lookup-All (λ e. is_kept e.1 ≡ true) (reason_of code) c arms (ground arith) known in
      ground (arith, known)
]
