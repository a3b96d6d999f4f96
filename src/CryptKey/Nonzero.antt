-- ===== src/CryptKey/Nonzero.antt =====
-- The shift registers of `CryptKey` of src/css.c: what the seed's set bit is for.
use libdvdcss.Common.{
  ℕ, zero, suc, ◌+◌, ◌*◌, ◌/◌, ◌%◌, ◌^◌, ◌<◌, ◌≡◌, ◌≢◌, arith, ◌==◌, ◌<<◌, inl, inr, Bool-cases,
  ◌&◌, ◌‖◌, bit_or, bit_xor, ap, ◌∙◌,
}
use libdvdcss.Common.Bits.Step.{bit_or_step, bit_xor_step}
use libdvdcss.Common.Bits.Fields.{
  bit_and-le_left, bit_or-half, bit_or-zero, bit_and_mask, bit_or_fields, bit_or-lt,
}
use libdvdcss.Keys.{DvdKey, IsKey}
use libdvdcss.CryptKey.{
  Registers, first_registers, next_registers, after_bits, lfsr0_o, lfsr1_o, shift_bit, combined,
  not_bit,
}

-- Neither register is zero in the bits that feed it, and all are in range.
pub record AreLive (r : Registers) : Type 0 where
  pub lfsr0_live : r.lfsr0 % 2 ^ 25 ≢ 0
  pub lfsr1_live : r.lfsr1 % 2 ^ 17 ≢ 0
  pub lfsr0_in : r.lfsr0 < 2 ^ 32
  pub lfsr1_in : r.lfsr1 < 2 ^ 32
  pub carry_in : r.carry < 2

lfsr0_o-mod : (x : ℕ) → lfsr0_o x ≡ (x / 2 ^ 24 + x / 2 ^ 21 + x / 2 ^ 20 + x / 2 ^ 12) % 2
unfolding lfsr0_o
lfsr0_o-mod x =
    let a = x / 2 ^ 24 in
    let b = x / 2 ^ 21 in
    let c = x / 2 ^ 20 in
    let d = x / 2 ^ 12 in
    omega (
      arith,
      bit_and_mask 1 (bit_xor (bit_xor (bit_xor a b) c) d),
      bit_xor_step (bit_xor (bit_xor a b) c) d,
      bit_xor_step (bit_xor a b) c,
      bit_xor_step a b,
    )

lfsr1_o-mod : (x : ℕ) → lfsr1_o x ≡ (x / 2 ^ 16 + x / 2 ^ 2) % 2
unfolding lfsr1_o
lfsr1_o-mod x =
    let a = x / 2 ^ 16 in
    let b = x / 2 ^ 2 in omega (arith, bit_and_mask 1 (bit_xor a b), bit_xor_step a b)

shift_bit_sum : (x o : ℕ) → o < 2 → shift_bit x o ≡ x % 2 ^ 31 * 2 + o
unfolding shift_bit
shift_bit_sum x o h =
    let even : x * 2 ^ 1 % 2 ^ 32 ≡ x % 2 ^ 31 * 2 ^ 1 = omega arith in
    omega (arith, ap (λ (t : ℕ). bit_or t o) even, bit_or_fields 1 (x % 2 ^ 31) o h)

not_bit-lt : (o : ℕ) → not_bit o < 2
unfolding not_bit
not_bit-lt o = elim (Bool-cases (o == 0)) [
  | inl e ↦ rw (e) (omega arith)
  | inr e ↦ rw (e) (omega arith)
]

next_registers-AreLive : {r : Registers} → AreLive r → AreLive (next_registers r)
unfolding next_registers
next_registers-AreLive {r} v =
    let bit0 = lfsr0_o-mod r.lfsr0 in
    let bit1 = lfsr1_o-mod r.lfsr1 in
    let in0 : lfsr0_o r.lfsr0 < 2 = omega arith in
    let in1 : lfsr1_o r.lfsr1 < 2 = omega arith in
    let sum0 = shift_bit_sum r.lfsr0 (lfsr0_o r.lfsr0) in0 in
    let sum1 = shift_bit_sum r.lfsr1 (lfsr1_o r.lfsr1) in1 in
    record {
      lfsr0_live = λ e. v.lfsr0_live (omega arith);
      lfsr1_live = λ e. v.lfsr1_live (omega arith);
      lfsr0_in = omega arith;
      lfsr1_in = omega arith;
      carry_in = omega (arith, bit_and_mask 1 (combined r / 2 ^ 1));
    }

-- A bit stays set under `|` of bits below it.
bit_three_of_or : (x y : ℕ) → y < 8 → ((x ‖ 8) ‖ y) / 8 % 2 ≡ 1
bit_three_of_or x y h =
    let z = bit_or x 8 in
    let odd : bit_or (x / 2 / 2 / 2) 1 % 2 ≡ 1 = omega (arith, bit_or_step (x / 2 / 2 / 2) 1) in
    let lifted : z / 8 % 2 ≡ 1 =
      omega (arith, bit_or-half x 8, bit_or-half (x / 2) 4, bit_or-half (x / 2 / 2) 2) in
    let none_above : y / 2 / 2 / 2 ≡ 0 = omega arith in
    let same = ap (λ (t : ℕ). bit_or (z / 2 / 2 / 2) t) none_above ∙ bit_or-zero (z / 2 / 2 / 2) in
    omega (
      arith,
      bit_or-half z y,
      bit_or-half (z / 2) (y / 2),
      bit_or-half (z / 2 / 2) (y / 2 / 2),
      same,
    )

pub first_registers-AreLive : (t : DvdKey) → IsKey t → AreLive (first_registers t)
unfolding first_registers
first_registers-AreLive t v =
    let low = bit_and_mask 3 t.k2 in
    let above = (t.k0 << 17) ‖ (t.k1 << 9) ‖ ((t.k2 & 0xf8) << 1) in
    let set : (above ‖ 8 ‖ (t.k2 & 7)) / 8 % 2 ≡ 1 =
      bit_three_of_or above (t.k2 & 7) (omega arith) in
    let high = bit_or_fields 9 t.k3 0x100 (omega arith) in
    let sum : ((t.k3 * 2 ^ 9) ‖ 0x100) ≡ (t.k3 * 2 + 1) * 2 ^ 8 = omega arith in
    let lfsr1 = bit_or_fields 8 (t.k3 * 2 + 1) t.k4 v.byte4 in
    let lfsr1' = ap (λ (x : ℕ). x ‖ t.k4) sum in
    let masked = bit_and-le_left t.k2 t.k2 0xf8 (omega arith) in
    let in01 =
      bit_or-lt 32 (t.k0 << 17) (t.k1 << 9) (omega (arith, v.byte0)) (omega (arith, v.byte1)) in
    let in2 = bit_or-lt 32 _ ((t.k2 & 0xf8) << 1) in01 (omega (arith, v.byte2, masked)) in
    let in3 = bit_or-lt 32 above 8 in2 (omega arith) in
    record {
      lfsr0_live = λ e. omega (arith, set);
      lfsr1_live = λ e. omega (arith, v.byte3, v.byte4);
      lfsr0_in = bit_or-lt 32 _ (t.k2 & 7) in3 (omega (arith, low));
      lfsr1_in = omega (arith, v.byte3, v.byte4);
      carry_in = omega arith;
    }

pub after_bits-AreLive : (n : ℕ) {r : Registers} → AreLive r → AreLive (after_bits n r)
unfolding after_bits
after_bits-AreLive zero v = v
after_bits-AreLive (suc n) v = after_bits-AreLive n (next_registers-AreLive v)
