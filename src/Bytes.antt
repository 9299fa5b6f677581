-- ===== src/Bytes.antt =====
-- Byte strings: the order of Rust slices and arrays, and `u64::to_le_bytes`/`from_le_bytes`.
mod Lex
unfoldable pub use Lex.{lex_ltb}
pub use Lex.{lex_ltb_asymm, lex_ltb_total, lex_ltb_not_after_trans}
use native.Mathlib.Nat.{pow-suc}
use deadmkt_node.Prelude.{
  ℕ, zero, suc, ◌+◌, ◌*◌, ◌/◌, ◌%◌, ◌^◌, ◌<◌, ◌≡◌, refl, sym, ap, ◌∙◌, List, [], ◌∷◌, ◌++◌, length,
  arith,
}

abbrev pub Bytes : Type 0
Bytes = List ℕ

-- `vec![0u8; n]`
abbrev pub zeros : ℕ → Bytes
zeros zero = []
zeros (suc n) = 0 ∷ zeros n

-- `to_le_bytes` for a width of `n` bytes.
unfoldable pub le_bytes : ℕ → ℕ → Bytes
le_bytes zero x = []
le_bytes (suc n) x = (x % 256) ∷ le_bytes n (x / 256)

-- `u64::from_le_bytes` of a slice.
unfoldable pub of_le_bytes : Bytes → ℕ
of_le_bytes [] = 0
of_le_bytes (b ∷ bs) = b + 256 * of_le_bytes bs

-- `x.to_le_bytes()` for `x: u64`.
abbrev pub u64_bytes : ℕ → Bytes
u64_bytes = le_bytes 8

pub length-le_bytes : (n x : ℕ) → length (le_bytes n x) ≡ n
unfolding le_bytes
length-le_bytes zero x = refl
length-le_bytes (suc n) x = omega (arith, length-le_bytes n (x / 256))

-- Reading back what was written gives the value, if it fits the width.
pub of_le_bytes-le_bytes : (n x : ℕ) → x < 256 ^ n → of_le_bytes (le_bytes n x) ≡ x
unfolding le_bytes of_le_bytes
of_le_bytes-le_bytes zero x h = omega arith
of_le_bytes-le_bytes (suc n) x h =
    let smaller : x / 256 < 256 ^ n = omega (arith, pow-suc 256 n) in
    omega (arith, of_le_bytes-le_bytes n (x / 256) smaller)

-- A fixed-width field can be split off the front of a message.
pub le_bytes-append_inj :
    (n x y : ℕ) (r s : Bytes)
    → x < 256 ^ n
    → y < 256 ^ n
    → le_bytes n x ++ r ≡ le_bytes n y ++ s
    → (x ≡ y) × (r ≡ s)
unfolding le_bytes
le_bytes-append_inj zero x y r s hx hy e = (omega arith, e)
le_bytes-append_inj (suc n) x y r s hx hy e =
    let hx' : x / 256 < 256 ^ n = omega (arith, pow-suc 256 n) in
    let hy' : y / 256 < 256 ^ n = omega (arith, pow-suc 256 n) in
    let rest = le_bytes-append_inj n (x / 256) (y / 256) r s hx' hy' in ground (arith, rest)
