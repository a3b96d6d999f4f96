-- ===== src/Common/Bits/Fields.antt =====
-- Masks are remainders, and `|` of disjoint fields is a sum.
use Prim.Native.Nat.{ℕ, zero, suc, ◌+◌, ◌-◌, ◌*◌, ◌/◌, ◌%◌, ◌^◌, ◌≤◌, ◌<◌, bit_and, bit_or}
use mathlib.Core.Path.{◌≡◌, refl, ◌∙◌, ap, ap₂}
use native.Mathlib.Nat.{pow-suc, one-le-pow}
use native.Mathlib.Omega.{arith}
use libdvdcss.Common.Bits.Step.{bit_and_step, bit_or_step}
use libdvdcss.Common.Bits.Split.{mod-pow-suc}

and-zero_fuel : (n x : ℕ) → x ≤ n → bit_and x 0 ≡ 0
and-zero_fuel n zero h = refl
and-zero_fuel zero (suc x) h = elim h [ ]
and-zero_fuel (suc n) (suc x) h =
    omega (arith, bit_and_step (suc x) 0, and-zero_fuel n (suc x / 2) (omega arith))

or-zero_fuel : (n x : ℕ) → x ≤ n → bit_or x 0 ≡ x
or-zero_fuel n zero h = refl
or-zero_fuel zero (suc x) h = elim h [ ]
or-zero_fuel (suc n) (suc x) h =
    omega (arith, bit_or_step (suc x) 0, or-zero_fuel n (suc x / 2) (omega arith))

pub bit_or-zero : (x : ℕ) → bit_or x 0 ≡ x
bit_or-zero x = or-zero_fuel x x (omega arith)

or_comm_fuel : (n a b : ℕ) → a + b ≤ n → bit_or a b ≡ bit_or b a
or_comm_fuel n zero zero h = refl
or_comm_fuel zero (suc a) b h = absurd (omega arith)
or_comm_fuel zero zero (suc b) h = absurd (omega arith)
or_comm_fuel (suc n) (suc a) b h = omega (
  arith,
  bit_or_step (suc a) b,
  bit_or_step b (suc a),
  or_comm_fuel n (suc a / 2) (b / 2) (omega arith),
)
or_comm_fuel (suc n) zero (suc b) h = omega (
  arith,
  bit_or_step zero (suc b),
  bit_or_step (suc b) zero,
  or_comm_fuel n 0 (suc b / 2) (omega arith),
)

pub bit_or_comm : (a b : ℕ) → bit_or a b ≡ bit_or b a
bit_or_comm a b = or_comm_fuel (a + b) a b (omega arith)

-- `x & (2^k - 1)` is what is left of `x` below bit `k`.
pub bit_and_mask : (k x : ℕ) → bit_and x (2 ^ k - 1) ≡ x % 2 ^ k
bit_and_mask zero x = and-zero_fuel x x (omega arith) ∙ omega arith
bit_and_mask (suc k) x =
    let width = pow-suc 2 k in
    let some_bit = one-le-pow k 2 (omega arith) in
    let half : (2 ^ suc k - 1) / 2 ≡ 2 ^ k - 1 = omega (arith, width, some_bit) in
    let step = bit_and_step x (2 ^ suc k - 1) in
    let rest = ap (λ (t : ℕ). bit_and (x / 2) t) half ∙ bit_and_mask k (x / 2) in
    omega (arith, step, rest, width, some_bit, mod-pow-suc k x)

-- `(q << k) | r` is a sum where `r` has no bit above `k`.
pub bit_or_fields : (k q r : ℕ) → r < 2 ^ k → bit_or (q * 2 ^ k) r ≡ q * 2 ^ k + r
bit_or_fields zero q r h =
    let none_left : r ≡ 0 = omega arith in
    let whole : q * 2 ^ 0 ≡ q = omega arith in
    omega (arith, ap₂ bit_or whole none_left, bit_or-zero q)
bit_or_fields (suc k) q r h =
    let width : q * 2 ^ suc k ≡ q * 2 ^ k * 2 =
      omega (arith, ap (λ (t : ℕ). q * t) (pow-suc 2 k)) in
    let half : q * 2 ^ suc k / 2 ≡ q * 2 ^ k = omega arith in
    omega (
      arith,
      bit_or_step (q * 2 ^ suc k) r,
      ap (λ (t : ℕ). bit_or t (r / 2)) half,
      bit_or_fields k q (r / 2) (omega (arith, pow-suc 2 k)),
    )

pub bit_or_fields_left : (k q r : ℕ) → r < 2 ^ k → bit_or r (q * 2 ^ k) ≡ q * 2 ^ k + r
bit_or_fields_left k q r h = bit_or_comm r (q * 2 ^ k) ∙ bit_or_fields k q r h

pub bit_or-lt : (k a b : ℕ) → a < 2 ^ k → b < 2 ^ k → bit_or a b < 2 ^ k
bit_or-lt zero a b ha hb =
    let none_left : a ≡ 0 = omega arith in
    let none_right : b ≡ 0 = omega arith in
    omega (arith, ap₂ bit_or none_left none_right, bit_or-zero 0)
bit_or-lt (suc k) a b ha hb = omega (
  arith,
  bit_or_step a b,
  pow-suc 2 k,
  bit_or-lt k (a / 2) (b / 2) (omega (arith, pow-suc 2 k)) (omega (arith, pow-suc 2 k)),
)

pub bit_or-half : (a b : ℕ) → bit_or a b / 2 ≡ bit_or (a / 2) (b / 2)
bit_or-half a b = omega (arith, bit_or_step a b)

pub bit_and-le_left : (n a b : ℕ) → a ≤ n → bit_and a b ≤ a
bit_and-le_left n zero b h = omega (arith, Prim.Native.Nat.bit_and-bitwise 0 b)
bit_and-le_left zero (suc a) b h = absurd (omega arith)
bit_and-le_left (suc n) (suc a) b h =
    omega (arith, bit_and_step (suc a) b, bit_and-le_left n (suc a / 2) (b / 2) (omega arith))
