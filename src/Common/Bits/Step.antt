-- ===== src/Common/Bits/Step.antt =====
-- One equation for the lowest digit of each operation.
use Prim.Native.Nat.{ℕ, zero, suc, ◌+◌, ◌*◌, ◌/◌, ◌%◌, ◌≤◌, ◌<◌, min, max}
use Prim.Native.Nat.{bit_and, bit_or, bit_xor, digits, bitwise, differ}
use Prim.Native.Nat.{bit_and-bitwise, bit_or-bitwise, bit_xor-bitwise}
use mathlib.Core.Path.{◌≡◌, refl}
use native.Mathlib.Omega.{arith}

-- More digits than the first number has make no difference.
module _ (rest : ℕ → ℕ) (digit : ℕ → ℕ → ℕ) where
  digits-enough : (a b n m : ℕ) → a ≤ n → a ≤ m → digits rest digit n a b ≡ digits rest digit m a b
  digits-enough a b zero zero hn hm = refl
  digits-enough zero b zero (suc m) hn hm = refl
  digits-enough (suc a) b zero (suc m) hn hm = elim hn [ ]
  digits-enough zero b (suc n) zero hn hm = refl
  digits-enough (suc a) b (suc n) zero hn hm = elim hm [ ]
  digits-enough zero b (suc n) (suc m) hn hm = refl
  digits-enough (suc a) b (suc n) (suc m) hn hm =
      rw (digits-enough (suc a / 2) (b / 2) n m (omega arith) (omega arith))

  -- An operation that `digits` computes: its value at a + 1, by halves and remainders.
  step_of_digits :
      (op : ℕ → ℕ → ℕ) (reads : (a b : ℕ) → op a b ≡ bitwise rest digit a b) (a b : ℕ)
      → op (suc a) b ≡ 2 * op (suc a / 2) (b / 2) + digit (suc a % 2) (b % 2)
  step_of_digits op reads a b =
      let enough = digits-enough (suc a / 2) (b / 2) a (suc a / 2) (omega arith) (omega arith) in
      omega (arith, enough, reads (suc a) b, reads (suc a / 2) (b / 2))

differ-digits : (x y : ℕ) → x < 2 → y < 2 → differ x y ≡ (x + y) % 2
differ-digits zero y hx hy = omega arith
differ-digits (suc x) zero hx hy = omega arith
differ-digits (suc zero) (suc zero) hx hy = refl
differ-digits (suc zero) (suc (suc y)) hx hy = absurd (omega arith)
differ-digits (suc (suc x)) (suc y) hx hy = absurd (omega arith)

pub bit_and_step : (a b : ℕ) → bit_and a b ≡ 2 * bit_and (a / 2) (b / 2) + min (a % 2) (b % 2)
bit_and_step zero b = omega (arith, bit_and-bitwise 0 b, bit_and-bitwise 0 (b / 2))
bit_and_step (suc a) b = step_of_digits (λ y. zero) min bit_and bit_and-bitwise a b

pub bit_or_step : (a b : ℕ) → bit_or a b ≡ 2 * bit_or (a / 2) (b / 2) + max (a % 2) (b % 2)
bit_or_step zero b = omega (arith, bit_or-bitwise 0 b, bit_or-bitwise 0 (b / 2))
bit_or_step (suc a) b = step_of_digits (λ y. y) max bit_or bit_or-bitwise a b

pub bit_xor_step : (a b : ℕ) → bit_xor a b ≡ 2 * bit_xor (a / 2) (b / 2) + (a + b) % 2
bit_xor_step zero b = omega (arith, bit_xor-bitwise 0 b, bit_xor-bitwise 0 (b / 2))
bit_xor_step (suc a) b =
    let last = differ-digits (suc a % 2) (b % 2) (omega arith) (omega arith) in
    omega (arith, step_of_digits (λ y. y) differ bit_xor bit_xor-bitwise a b, last)
