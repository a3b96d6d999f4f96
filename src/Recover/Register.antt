-- ===== src/Recover/Register.antt =====
-- The 25-bit register of the title cipher, forwards and backwards. What it shifts in is linear in
-- its bits, so the byte that a backward step searches for exists and is the only one.
use libdvdcss.Common.{
  ℕ, zero, suc, ◌+◌, ◌*◌, ◌/◌, ◌%◌, ◌^◌, ◌≤◌, ◌<◌, ◌≡◌, refl, sym, ◌∙◌, ap, ap₂, List, [], ◌∷◌,
  true, inl, inr, ◌≢◌, arith, bit_xor, bit_or, ◌==◌, ==_iff, ==→ne, Bool-cases, get_or, all_below,
  all_below_sound,
}
use libdvdcss.Common.Bits.Xor.{
  bit_xor-shr, bit_xor-mod, bit_xor_interchange, bit_xor-lt, bit_xor_cancel, bit_xor_disjoint,
}
use libdvdcss.Common.Bits.Fields.{bit_and_mask, bit_or_fields_left}
use libdvdcss.Tables.Laws.{all_bytes, get_or-lt}
use libdvdcss.Unscramble.{feedback}
use libdvdcss.Unscramble.Bounds.{feedback-lt}
use libdvdcss.Recover.{with_top, find_byte, step_back}

-- The eight bits from bit `k` on.
abbrev bits_from : ℕ → ℕ → ℕ
bits_from k t = t / 2 ^ k % 2 ^ 8

bits_from-bit_xor :
    (k a b : ℕ) → bits_from k (bit_xor a b) ≡ bit_xor (bits_from k a) (bits_from k b)
bits_from-bit_xor k a b = ap (λ (t : ℕ). t % 2 ^ 8) (bit_xor-shr k a b) ∙ bit_xor-mod 8 _ _

abbrev taps : ℕ → ℕ
taps t =
    bit_xor (bit_xor (bit_xor (bits_from 17 t) (bits_from 14 t)) (bits_from 13 t)) (bits_from 5 t)

-- The byte that is shifted in is the sum of four bytes of the register.
feedback-eq-taps : (t : ℕ) → feedback t ≡ taps t
unfolding feedback
feedback-eq-taps t =
    let inner = bit_xor (t / 2 ^ 3) t in
    let middle = bit_xor (inner / 2 ^ 1) t in
    let below : (x : ℕ) → bits_from 5 (x / 2 ^ 8) ≡ bits_from 13 x = λ x. omega arith in
    let further : (x : ℕ) → bits_from 13 (x / 2 ^ 1) ≡ bits_from 14 x = λ x. omega arith in
    let last : bits_from 14 (t / 2 ^ 3) ≡ bits_from 17 t = omega arith in
    bit_and_mask 8 _
    ∙ bits_from-bit_xor 5 (middle / 2 ^ 8) t
    ∙ ap (λ (x : ℕ). bit_xor x (bits_from 5 t))
        (below middle
          ∙ bits_from-bit_xor 13 (inner / 2 ^ 1) t
          ∙ ap (λ (x : ℕ). bit_xor x (bits_from 13 t))
              (further inner
                ∙ bits_from-bit_xor 14 (t / 2 ^ 3) t
                ∙ ap (λ (x : ℕ). bit_xor x (bits_from 14 t)) last))

pub feedback-bit_xor : (a b : ℕ) → feedback (bit_xor a b) ≡ bit_xor (feedback a) (feedback b)
feedback-bit_xor a b =
    feedback-eq-taps (bit_xor a b)
    ∙ ap₂ bit_xor
        (ap₂ bit_xor
            (ap₂ bit_xor (bits_from-bit_xor 17 a b) (bits_from-bit_xor 14 a b)
              ∙ bit_xor_interchange _ _ _ _)
            (bits_from-bit_xor 13 a b)
          ∙ bit_xor_interchange _ _ _ _)
        (bits_from-bit_xor 5 a b)
    ∙ bit_xor_interchange _ _ _ _
    ∙ sym (ap₂ bit_xor (feedback-eq-taps a) (feedback-eq-taps b))

-- Bits from the 25th on do not matter.
pub feedback-mod : (t : ℕ) → feedback (t % 2 ^ 25) ≡ feedback t
feedback-mod t =
    let at_17 : bits_from 17 (t % 2 ^ 25) ≡ bits_from 17 t = omega arith in
    let at_14 : bits_from 14 (t % 2 ^ 25) ≡ bits_from 14 t = omega arith in
    let at_13 : bits_from 13 (t % 2 ^ 25) ≡ bits_from 13 t = omega arith in
    let at_5 : bits_from 5 (t % 2 ^ 25) ≡ bits_from 5 t = omega arith in
    feedback-eq-taps (t % 2 ^ 25)
    ∙ ap₂ bit_xor (ap₂ bit_xor (ap₂ bit_xor at_17 at_14) at_13) at_5
    ∙ sym (feedback-eq-taps t)

pub with_top_lem : (t j : ℕ) → with_top t j ≡ j * 2 ^ 17 + t % 2 ^ 17
unfolding with_top
with_top_lem t j =
    ap (λ (x : ℕ). bit_or x (j * 2 ^ 17)) (bit_and_mask 17 t)
    ∙ bit_or_fields_left 17 j (t % 2 ^ 17) (omega arith)

split_feedback :
    (j r : ℕ)
    → r < 2 ^ 17
    → feedback (j * 2 ^ 17 + r) ≡ bit_xor (feedback (j * 2 ^ 17)) (feedback r)
split_feedback j r h =
    ap feedback (sym (bit_xor_disjoint 17 j r h)) ∙ feedback-bit_xor (j * 2 ^ 17) r

-- The byte `j` at which the top of the register feeds back `i`.
abbrev top_bytes : List ℕ
top_bytes =
    0x00 ∷ 0x59 ∷ 0xb2 ∷ 0xeb ∷ 0x64 ∷ 0x3d ∷ 0xd6 ∷ 0x8f ∷ 0xc8 ∷ 0x91 ∷ 0x7a ∷ 0x23 ∷ 0xac ∷ 0xf5
    ∷ 0x1e ∷ 0x47 ∷ 0x90 ∷ 0xc9 ∷ 0x22 ∷ 0x7b ∷ 0xf4 ∷ 0xad ∷ 0x46 ∷ 0x1f ∷ 0x58 ∷ 0x01 ∷ 0xea
    ∷ 0xb3 ∷ 0x3c ∷ 0x65 ∷ 0x8e ∷ 0xd7 ∷ 0x20 ∷ 0x79 ∷ 0x92 ∷ 0xcb ∷ 0x44 ∷ 0x1d ∷ 0xf6 ∷ 0xaf
    ∷ 0xe8 ∷ 0xb1 ∷ 0x5a ∷ 0x03 ∷ 0x8c ∷ 0xd5 ∷ 0x3e ∷ 0x67 ∷ 0xb0 ∷ 0xe9 ∷ 0x02 ∷ 0x5b ∷ 0xd4
    ∷ 0x8d ∷ 0x66 ∷ 0x3f ∷ 0x78 ∷ 0x21 ∷ 0xca ∷ 0x93 ∷ 0x1c ∷ 0x45 ∷ 0xae ∷ 0xf7 ∷ 0x40 ∷ 0x19
    ∷ 0xf2 ∷ 0xab ∷ 0x24 ∷ 0x7d ∷ 0x96 ∷ 0xcf ∷ 0x88 ∷ 0xd1 ∷ 0x3a ∷ 0x63 ∷ 0xec ∷ 0xb5 ∷ 0x5e
    ∷ 0x07 ∷ 0xd0 ∷ 0x89 ∷ 0x62 ∷ 0x3b ∷ 0xb4 ∷ 0xed ∷ 0x06 ∷ 0x5f ∷ 0x18 ∷ 0x41 ∷ 0xaa ∷ 0xf3
    ∷ 0x7c ∷ 0x25 ∷ 0xce ∷ 0x97 ∷ 0x60 ∷ 0x39 ∷ 0xd2 ∷ 0x8b ∷ 0x04 ∷ 0x5d ∷ 0xb6 ∷ 0xef ∷ 0xa8
    ∷ 0xf1 ∷ 0x1a ∷ 0x43 ∷ 0xcc ∷ 0x95 ∷ 0x7e ∷ 0x27 ∷ 0xf0 ∷ 0xa9 ∷ 0x42 ∷ 0x1b ∷ 0x94 ∷ 0xcd
    ∷ 0x26 ∷ 0x7f ∷ 0x38 ∷ 0x61 ∷ 0x8a ∷ 0xd3 ∷ 0x5c ∷ 0x05 ∷ 0xee ∷ 0xb7 ∷ 0x80 ∷ 0xd9 ∷ 0x32
    ∷ 0x6b ∷ 0xe4 ∷ 0xbd ∷ 0x56 ∷ 0x0f ∷ 0x48 ∷ 0x11 ∷ 0xfa ∷ 0xa3 ∷ 0x2c ∷ 0x75 ∷ 0x9e ∷ 0xc7
    ∷ 0x10 ∷ 0x49 ∷ 0xa2 ∷ 0xfb ∷ 0x74 ∷ 0x2d ∷ 0xc6 ∷ 0x9f ∷ 0xd8 ∷ 0x81 ∷ 0x6a ∷ 0x33 ∷ 0xbc
    ∷ 0xe5 ∷ 0x0e ∷ 0x57 ∷ 0xa0 ∷ 0xf9 ∷ 0x12 ∷ 0x4b ∷ 0xc4 ∷ 0x9d ∷ 0x76 ∷ 0x2f ∷ 0x68 ∷ 0x31
    ∷ 0xda ∷ 0x83 ∷ 0x0c ∷ 0x55 ∷ 0xbe ∷ 0xe7 ∷ 0x30 ∷ 0x69 ∷ 0x82 ∷ 0xdb ∷ 0x54 ∷ 0x0d ∷ 0xe6
    ∷ 0xbf ∷ 0xf8 ∷ 0xa1 ∷ 0x4a ∷ 0x13 ∷ 0x9c ∷ 0xc5 ∷ 0x2e ∷ 0x77 ∷ 0xc0 ∷ 0x99 ∷ 0x72 ∷ 0x2b
    ∷ 0xa4 ∷ 0xfd ∷ 0x16 ∷ 0x4f ∷ 0x08 ∷ 0x51 ∷ 0xba ∷ 0xe3 ∷ 0x6c ∷ 0x35 ∷ 0xde ∷ 0x87 ∷ 0x50
    ∷ 0x09 ∷ 0xe2 ∷ 0xbb ∷ 0x34 ∷ 0x6d ∷ 0x86 ∷ 0xdf ∷ 0x98 ∷ 0xc1 ∷ 0x2a ∷ 0x73 ∷ 0xfc ∷ 0xa5
    ∷ 0x4e ∷ 0x17 ∷ 0xe0 ∷ 0xb9 ∷ 0x52 ∷ 0x0b ∷ 0x84 ∷ 0xdd ∷ 0x36 ∷ 0x6f ∷ 0x28 ∷ 0x71 ∷ 0x9a
    ∷ 0xc3 ∷ 0x4c ∷ 0x15 ∷ 0xfe ∷ 0xa7 ∷ 0x70 ∷ 0x29 ∷ 0xc2 ∷ 0x9b ∷ 0x14 ∷ 0x4d ∷ 0xa6 ∷ 0xff
    ∷ 0xb8 ∷ 0xe1 ∷ 0x0a ∷ 0x53 ∷ 0xdc ∷ 0x85 ∷ 0x6e ∷ 0x37 ∷ []

top_of : ℕ → ℕ
top_of i = get_or top_bytes i 0

top_table : all_below 256 (λ i. feedback (top_of i * 2 ^ 17) == i) ≡ true
unfolding all_below feedback top_of
top_table = refl

top_table_back : all_below 256 (λ j. top_of (feedback (j * 2 ^ 17)) == j) ≡ true
unfolding all_below feedback top_of
top_table_back = refl

-- The only byte that completes the low bits `r` to a register that feeds back `target`.
pub top_for : ℕ → ℕ → ℕ
top_for target r = top_of (bit_xor target (feedback r))

top_for-lt : (target r : ℕ) → top_for target r < 256
unfolding top_for top_of all_bytes
top_for-lt target r = get_or-lt top_bytes (bit_xor target (feedback r)) refl

feedback-top_for :
    (target r : ℕ) → target < 256 → r < 2 ^ 17 → feedback (top_for target r * 2 ^ 17 + r) ≡ target
unfolding top_for
feedback-top_for target r ht hr =
    let sum = bit_xor target (feedback r) in
    let fits =
      (==_iff _ sum).0
        (all_below_sound 256 _ sum top_table (bit_xor-lt 8 _ _ ht (feedback-lt r))) in
    split_feedback (top_of sum) r hr
    ∙ ap (λ (t : ℕ). bit_xor t (feedback r)) fits
    ∙ bit_xor_cancel target (feedback r)

top_for_unique :
    (target j r : ℕ)
    → j < 256
    → r < 2 ^ 17
    → feedback (j * 2 ^ 17 + r) ≡ target
    → j ≡ top_for target r
unfolding top_for
top_for_unique target j r hj hr e =
    let top = feedback (j * 2 ^ 17) in
    let back = (==_iff _ j).0 (all_below_sound 256 _ j top_table_back hj) in
    sym back
    ∙ ap top_of (
        sym (bit_xor_cancel top (feedback r))
        ∙ ap (λ (t : ℕ). bit_xor t (feedback r)) (sym (split_feedback j r hr) ∙ e))

-- The search ends at that byte.
find_byte_lem :
    (left j target t3 : ℕ)
    → target < 256
    → j ≤ top_for target (t3 % 2 ^ 17)
    → top_for target (t3 % 2 ^ 17) < j + left
    → j + left ≤ 256
    → find_byte left j target t3 ≡ top_for target (t3 % 2 ^ 17) * 2 ^ 17 + t3 % 2 ^ 17
unfolding find_byte
find_byte_lem zero j target t3 ht lo hi room = absurd (omega arith)
find_byte_lem (suc left) j target t3 ht lo hi room =
    let r = t3 % 2 ^ 17 in
    let r_in : r < 2 ^ 17 = omega arith in
    let j0 = top_for target r in
    elim (Bool-cases (feedback (with_top t3 j) == target)) [
      | inl found ↦
          let same =
            top_for_unique target j r (omega arith) r_in
              (ap feedback (sym (with_top_lem t3 j)) ∙ (==_iff _ target).0 found) in
          rw found (with_top_lem t3 j ∙ ap (λ (x : ℕ). x * 2 ^ 17 + r) same)
      | inr other ↦
          let missed : j ≢ j0 = λ e. ==→ne _ _ other (
            ap feedback (with_top_lem t3 j ∙ ap (λ (x : ℕ). x * 2 ^ 17 + r) e)
            ∙ feedback-top_for target r ht r_in) in
          let low : with_top t3 j % 2 ^ 17 ≡ r = omega (arith, with_top_lem t3 j) in
          let below : j + 1 ≤ j0 = omega arith in
          let ih = find_byte_lem left (j + 1) target (with_top t3 j) ht in
          rw other (rw low at (ih (rw low below) (rw low (omega arith)) (omega arith)))
    ]

step_back_eq :
    (t3 : ℕ) → let r = t3 / 2 ^ 8 % 2 ^ 17 in step_back t3 ≡ top_for (t3 % 2 ^ 8) r * 2 ^ 17 + r
unfolding step_back
step_back_eq t3 =
    ap (λ (t : ℕ). find_byte 256 0 t (t3 / 2 ^ 8)) (bit_and_mask 8 t3)
    ∙ find_byte_lem 256 0 (t3 % 2 ^ 8) (t3 / 2 ^ 8) (omega arith) (omega arith)
        (omega (arith, top_for-lt (t3 % 2 ^ 8) (t3 / 2 ^ 8 % 2 ^ 17))) (omega arith)

-- A backward step gives a register that feeds back the byte that was shifted in, above the bits
-- that were below it.
pub step_back_lem :
    (t3 : ℕ)
    → (step_back t3 < 2 ^ 25)
      × (step_back t3 % 2 ^ 17 ≡ t3 / 2 ^ 8 % 2 ^ 17)
      × (feedback (step_back t3) ≡ t3 % 2 ^ 8)
step_back_lem t3 =
    let r = t3 / 2 ^ 8 % 2 ^ 17 in
    let r_in : r < 2 ^ 17 = omega arith in
    let is = step_back_eq t3 in
    let top_in = top_for-lt (t3 % 2 ^ 8) r in
    (
      omega (arith, is, top_in),
      omega (arith, is, top_in),
      ap feedback is ∙ feedback-top_for (t3 % 2 ^ 8) r (omega arith) r_in,
    )

-- No other register does.
pub step_back_unique :
    (t3 before : ℕ)
    → before < 2 ^ 25
    → before % 2 ^ 17 ≡ t3 / 2 ^ 8 % 2 ^ 17
    → feedback before ≡ t3 % 2 ^ 8
    → step_back t3 ≡ before
step_back_unique t3 before bound low fed =
    let r = t3 / 2 ^ 8 % 2 ^ 17 in
    let whole : before ≡ before / 2 ^ 17 * 2 ^ 17 + r = omega arith in
    let top =
      top_for_unique (t3 % 2 ^ 8) (before / 2 ^ 17) r (omega arith) (omega arith)
        (ap feedback (sym whole) ∙ fed) in
    omega (arith, step_back_eq t3, whole, top)
