-- ===== src/Prelude/Loops.antt =====
-- Loops that run as long as a test holds. The number bounds the rounds, and the rule says when it
-- is no restriction.
use Prim.Native.Nat.{ℕ, zero, suc, ◌<◌}
use mathlib.Core.Path.{◌≡◌}
use mathlib.Core.Logic.{inl, inr}
use mathlib.Core.Bool.{Bool, true, false}
use native.Mathlib.Omega.{arith}
use deadmkt_node.Prelude.Tests.{Bool-cases}

module _ {ℓ} {S : Type ℓ} (goes_on : S → Bool) (round : S → S) where
  unfoldable pub run_loop : ℕ → S → S
  run_loop zero now = now
  run_loop (suc rounds) now = elim (goes_on now) [
    | false ↦ now
    | true ↦ run_loop rounds (round now)
  ]

  -- Rounds that keep `I` and shrink a size end by the test, before the rounds run out.
  pub run_loop_rule {κ} :
      (I : S → Type κ) (size : S → ℕ) (rounds : ℕ) (now : S)
      → ((s : S) → I s → goes_on s ≡ true → I (round s))
      → ((s : S) → I s → goes_on s ≡ true → size (round s) < size s)
      → I now
      → size now < rounds
      → I (run_loop rounds now) × (goes_on (run_loop rounds now) ≡ false)
  unfolding run_loop
  run_loop_rule I size zero now keeps shrinks i less = absurd (omega arith)
  run_loop_rule I size (suc rounds) now keeps shrinks i less = elim (Bool-cases (goes_on now)) [
    | inr over ↦ ground (arith, i)
    | inl more ↦
        let smaller = shrinks now i more in
        let rest =
          run_loop_rule I size rounds (round now) keeps shrinks (keeps now i more) (omega arith) in
        ground (arith, rest)
  ]
