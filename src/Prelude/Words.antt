-- ===== src/Prelude/Words.antt =====
-- `u64` arithmetic as a release build computes it, and checked division.
use Prim.Native.Nat.{ℕ, zero, suc, ◌+◌, ◌*◌, ◌/◌, ◌%◌, ◌^◌, ◌<◌}
use mathlib.Core.Path.{◌≡◌, refl}
use mathlib.Core.Option.{Option, none, some}
use native.Mathlib.Omega.{arith}

abbrev pub u64_add : ℕ → ℕ → ℕ
u64_add a b = (a + b) % 2 ^ 64

abbrev pub u64_mul : ℕ → ℕ → ℕ
u64_mul a b = (a * b) % 2 ^ 64

-- `none` is a panic.
infixl 5 ◌>>=◌
abbrev pub ◌>>=◌ {ℓ κ} : {A : Type ℓ} {B : Type κ} → Option A → (A → Option B) → Option B
none >>= f = none
some a >>= f = f a

abbrev pub div_or_panic : ℕ → ℕ → Option ℕ
div_or_panic a zero = none
div_or_panic a (suc b) = some (a / suc b)

abbrev pub mod_or_panic : ℕ → ℕ → Option ℕ
mod_or_panic a zero = none
mod_or_panic a (suc b) = some (a % suc b)

pub div_or_panic_pos : (a b : ℕ) → 0 < b → div_or_panic a b ≡ some (a / b)
div_or_panic_pos a zero h = elim h [ ]
div_or_panic_pos a (suc b) h = refl

pub mod_or_panic_pos : (a b : ℕ) → 0 < b → mod_or_panic a b ≡ some (a % b)
mod_or_panic_pos a zero h = elim h [ ]
mod_or_panic_pos a (suc b) h = refl

pub bind_inv :
    {A B : Type 0} (o : Option A) (f : A → Option B) (b : B)
    → (o >>= f) ≡ some b
    → (a : A) × (o ≡ some a) × (f a ≡ some b)
bind_inv none f b h = absurd (ground arith)
bind_inv (some a) f b h = (a, refl, h)

pub some_inj : {A : Type 0} {a b : A} → some a ≡ some b → a ≡ b
some_inj h = ground arith
