-- ===== src/Common/Bits/Split.antt =====
-- A number cut in two at a bit, and the quotient and remainder of such a number.
use Prim.Native.Nat.{ℕ, suc, ◌+◌, ◌*◌, ◌/◌, ◌%◌, ◌^◌, ◌<◌}
use mathlib.Core.Path.{◌≡◌, ap}
use native.Mathlib.Nat.{pow-suc, one-le-pow, div-add-mod, mod-lt}
use native.Mathlib.Omega.{arith}

-- A number split at bit `k`.
pub split_at : (k a : ℕ) → a ≡ a / 2 ^ k * 2 ^ k + a % 2 ^ k
split_at k a = omega (arith, one-le-pow k 2 (omega arith), div-add-mod a (2 ^ k))

pub mod-pow-lt : (k a : ℕ) → a % 2 ^ k < 2 ^ k
mod-pow-lt k a = mod-lt a (one-le-pow k 2 (omega arith))

pub div_of_split : (x q m r : ℕ) → r < m → x ≡ q * m + r → x / m ≡ q
div_of_split x q m r h e = grind arith

pub mod_of_split : (x q m r : ℕ) → r < m → x ≡ q * m + r → x % m ≡ r
mod_of_split x q m r h e = grind arith

pub mod-pow-suc : (k x : ℕ) → x % 2 ^ suc k ≡ x / 2 % 2 ^ k * 2 + x % 2
mod-pow-suc k x =
    let q = x / 2 / 2 ^ k in
    let width = ap (λ (t : ℕ). q * t) (pow-suc 2 k) in
    mod_of_split x q (2 ^ suc k) (x / 2 % 2 ^ k * 2 + x % 2)
      (omega (arith, pow-suc 2 k, mod-pow-lt k (x / 2))) (omega (arith, split_at k (x / 2), width))
