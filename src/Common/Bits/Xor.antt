-- ===== src/Common/Bits/Xor.antt =====
-- Exclusive or: a group in which every number is its own inverse, digit by digit.
use Prim.Native.Nat.{ℕ, zero, suc, ◌+◌, ◌*◌, ◌/◌, ◌%◌, ◌^◌, ◌≤◌, ◌<◌, bit_xor}
use mathlib.Core.Path.{◌≡◌, refl, ◌∙◌, ap, ap₂, sym}
use native.Mathlib.Nat.{pow-suc, one-le-pow}
use native.Mathlib.Omega.{arith}
use libdvdcss.Common.Bits.Step.{bit_xor_step}
use libdvdcss.Common.Bits.Split.{split_at, mod-pow-lt, div_of_split, mod_of_split}

zero-xor : (b : ℕ) → bit_xor 0 b ≡ b
zero-xor b = Prim.Native.Nat.bit_xor-bitwise 0 b

comm_fuel : (n a b : ℕ) → a + b ≤ n → bit_xor a b ≡ bit_xor b a
comm_fuel n zero zero h = refl
comm_fuel zero (suc a) b h = absurd (omega arith)
comm_fuel zero zero (suc b) h = absurd (omega arith)
comm_fuel (suc n) (suc a) b h = omega (
  arith,
  bit_xor_step (suc a) b,
  bit_xor_step b (suc a),
  comm_fuel n (suc a / 2) (b / 2) (omega arith),
)
comm_fuel (suc n) zero (suc b) h = omega (
  arith,
  bit_xor_step zero (suc b),
  bit_xor_step (suc b) zero,
  comm_fuel n 0 (suc b / 2) (omega arith),
)

pub bit_xor_comm : (a b : ℕ) → bit_xor a b ≡ bit_xor b a
bit_xor_comm a b = comm_fuel (a + b) a b (omega arith)

pub zero-bit_xor : (b : ℕ) → bit_xor 0 b ≡ b
zero-bit_xor b = zero-xor b

pub bit_xor-zero : (a : ℕ) → bit_xor a 0 ≡ a
bit_xor-zero a = bit_xor_comm a 0 ∙ zero-xor a

pub bit_xor-half : (a b : ℕ) → bit_xor a b / 2 ≡ bit_xor (a / 2) (b / 2)
bit_xor-half a b = omega (arith, bit_xor_step a b)

assoc_fuel : (n a b c : ℕ) → a ≤ n → bit_xor (bit_xor a b) c ≡ bit_xor a (bit_xor b c)
assoc_fuel n zero b c h = rw (zero-xor b, zero-xor (bit_xor b c))
assoc_fuel zero (suc a) b c h = absurd (omega arith)
assoc_fuel (suc n) (suc a) b c h =
    let left = bit_xor_step (bit_xor (suc a) b) c in
    let right = bit_xor_step (suc a) (bit_xor b c) in
    let ih = assoc_fuel n (suc a / 2) (b / 2) (c / 2) (omega arith) in
    omega (
      arith,
      left,
      right,
      bit_xor_step (suc a) b,
      bit_xor_step b c,
      ap (λ (t : ℕ). bit_xor t (c / 2)) (bit_xor-half (suc a) b),
      ap (λ (t : ℕ). bit_xor (suc a / 2) t) (bit_xor-half b c),
      ih,
    )

pub bit_xor_assoc : (a b c : ℕ) → bit_xor (bit_xor a b) c ≡ bit_xor a (bit_xor b c)
bit_xor_assoc a b c = assoc_fuel a a b c (omega arith)

self_fuel : (n a : ℕ) → a ≤ n → bit_xor a a ≡ 0
self_fuel n zero h = refl
self_fuel zero (suc a) h = absurd (omega arith)
self_fuel (suc n) (suc a) h =
    omega (arith, bit_xor_step (suc a) (suc a), self_fuel n (suc a / 2) (omega arith))

pub bit_xor_self : (a : ℕ) → bit_xor a a ≡ 0
bit_xor_self a = self_fuel a a (omega arith)

-- Adding the same number twice changes nothing.
pub bit_xor_cancel : (a b : ℕ) → bit_xor (bit_xor a b) b ≡ a
bit_xor_cancel a b =
    bit_xor_assoc a b b ∙ ap (λ (t : ℕ). bit_xor a t) (bit_xor_self b) ∙ bit_xor-zero a

pub bit_xor_cancel_left : (a b : ℕ) → bit_xor a (bit_xor a b) ≡ b
bit_xor_cancel_left a b =
    sym (bit_xor_assoc a a b) ∙ ap (λ (t : ℕ). bit_xor t b) (bit_xor_self a) ∙ zero-xor b

pub bit_xor_eq_iff : (a b c : ℕ) → bit_xor a b ≡ c → a ≡ bit_xor c b
bit_xor_eq_iff a b c h = sym (bit_xor_cancel a b) ∙ ap (λ (t : ℕ). bit_xor t b) h

-- Exclusive or of two sums of sums, pair by pair.
pub bit_xor_interchange :
    (a b c d : ℕ) → bit_xor (bit_xor a b) (bit_xor c d) ≡ bit_xor (bit_xor a c) (bit_xor b d)
bit_xor_interchange a b c d =
    bit_xor_assoc a b (bit_xor c d)
    ∙ ap (λ (t : ℕ). bit_xor a t)
        (sym (bit_xor_assoc b c d)
          ∙ ap (λ (t : ℕ). bit_xor t d) (bit_xor_comm b c)
          ∙ bit_xor_assoc c b d)
    ∙ sym (bit_xor_assoc a c (bit_xor b d))

pub bit_xor-lt : (k a b : ℕ) → a < 2 ^ k → b < 2 ^ k → bit_xor a b < 2 ^ k
bit_xor-lt zero a b ha hb =
    let none_left : a ≡ 0 = omega arith in
    omega (arith, ap (λ (t : ℕ). bit_xor t b) none_left, zero-xor b)
bit_xor-lt (suc k) a b ha hb = omega (
  arith,
  bit_xor_step a b,
  pow-suc 2 k,
  bit_xor-lt k (a / 2) (b / 2) (omega (arith, pow-suc 2 k)) (omega (arith, pow-suc 2 k)),
)

mul-pow-suc : (q k : ℕ) → q * 2 ^ suc k ≡ q * 2 ^ k * 2
mul-pow-suc q k = omega (arith, ap (λ (t : ℕ). q * t) (pow-suc 2 k))

-- Numbers that are split at the same place are joined part by part.
pub bit_xor_fields :
    (k a b r s : ℕ)
    → r < 2 ^ k
    → s < 2 ^ k
    → bit_xor (a * 2 ^ k + r) (b * 2 ^ k + s) ≡ bit_xor a b * 2 ^ k + bit_xor r s
bit_xor_fields zero a b r s hr hs =
    let r0 : r ≡ 0 = omega arith in
    let s0 : s ≡ 0 = omega arith in
    let at_a : a * 2 ^ 0 + r ≡ a = omega arith in
    let at_b : b * 2 ^ 0 + s ≡ b = omega arith in
    omega (arith, ap₂ bit_xor at_a at_b, ap₂ bit_xor r0 s0, bit_xor_self 0)
bit_xor_fields (suc k) a b r s hr hs =
    let x = a * 2 ^ suc k + r in
    let y = b * 2 ^ suc k + s in
    let x_half : x / 2 ≡ a * 2 ^ k + r / 2 = omega (arith, mul-pow-suc a k) in
    let y_half : y / 2 ≡ b * 2 ^ k + s / 2 = omega (arith, mul-pow-suc b k) in
    let ih =
      bit_xor_fields k a b (r / 2) (s / 2) (omega (arith, pow-suc 2 k))
        (omega (arith, pow-suc 2 k)) in
    omega (
      arith,
      bit_xor_step x y,
      bit_xor_step r s,
      ap₂ bit_xor x_half y_half,
      ih,
      mul-pow-suc a k,
      mul-pow-suc b k,
      mul-pow-suc (bit_xor a b) k,
    )

split_xor :
    (k a b : ℕ)
    → bit_xor a b ≡ bit_xor (a / 2 ^ k) (b / 2 ^ k) * 2 ^ k + bit_xor (a % 2 ^ k) (b % 2 ^ k)
split_xor k a b =
    ap₂ bit_xor (split_at k a) (split_at k b)
    ∙ bit_xor_fields k (a / 2 ^ k) (b / 2 ^ k) (a % 2 ^ k) (b % 2 ^ k) (mod-pow-lt k a)
        (mod-pow-lt k b)

-- Shifts to the right and masks of low bits go through.
pub bit_xor-shr : (k a b : ℕ) → bit_xor a b / 2 ^ k ≡ bit_xor (a / 2 ^ k) (b / 2 ^ k)
bit_xor-shr k a b =
    let low = bit_xor-lt k (a % 2 ^ k) (b % 2 ^ k) (mod-pow-lt k a) (mod-pow-lt k b) in
    div_of_split (bit_xor a b) _ (2 ^ k) _ low (split_xor k a b)

pub bit_xor-mod : (k a b : ℕ) → bit_xor a b % 2 ^ k ≡ bit_xor (a % 2 ^ k) (b % 2 ^ k)
bit_xor-mod k a b =
    let low = bit_xor-lt k (a % 2 ^ k) (b % 2 ^ k) (mod-pow-lt k a) (mod-pow-lt k b) in
    mod_of_split (bit_xor a b) _ (2 ^ k) _ low (split_xor k a b)

-- A number without low bits and one of low bits alone do not meet.
pub bit_xor_disjoint : (k a r : ℕ) → r < 2 ^ k → bit_xor (a * 2 ^ k) r ≡ a * 2 ^ k + r
bit_xor_disjoint k a r h =
    let wide : a * 2 ^ k ≡ a * 2 ^ k + 0 = omega arith in
    let low : r ≡ 0 * 2 ^ k + r = omega arith in
    ap₂ bit_xor wide low
    ∙ bit_xor_fields k a 0 0 r (one-le-pow k 2 (omega arith)) h
    ∙ omega (arith, ap (λ (t : ℕ). t * 2 ^ k) (bit_xor-zero a), zero-xor r)
