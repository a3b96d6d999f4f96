-- ===== src/Unscramble/Bounds.antt =====
-- The ranges of the variables of `dvdcss_unscramble`: every table is read inside its size.
use libdvdcss.Common.{zero, suc, ℕ, ◌+◌, ◌*◌, ◌%◌, ◌^◌, ◌<◌, ◌≡◌, ◌∙◌, ap, arith, bit_or}
use libdvdcss.Common.Bits.Xor.{bit_xor-lt}
use libdvdcss.Common.Bits.Fields.{bit_and_mask, bit_or_fields}
use libdvdcss.Tables.Css.{css_tab4, css_tab5}
use libdvdcss.Tables.Laws.{css_tab2-lt, css_tab3-lt, css_tab4-lt, css_tab5-lt}
use libdvdcss.Unscramble.{Stream, feedback, shift_in, lfsr1, next_t1, sum_t5, round, key_byte}

-- The first register indexes the 512 entries of `p_css_tab3`, the second the 256 of `p_css_tab2`,
-- the third is an `unsigned int`, and the carry is one bit.
pub record IsStream (s : Stream) : Type 0 where
  pub t1_in : s.t1 < 512
  pub t2_in : s.t2 < 256
  pub t3_in : s.t3 < 2 ^ 32
  pub t5_in : s.t5 < 2

pub feedback-lt : (t3 : ℕ) → feedback t3 < 256
unfolding feedback
feedback-lt t3 = omega (arith, bit_and_mask 8 _)

pub lfsr1-lt : (t1 t2 : ℕ) → lfsr1 t1 t2 < 256
unfolding lfsr1
lfsr1-lt t1 t2 = bit_xor-lt 8 _ _ (css_tab2-lt t2) (css_tab3-lt t1)

pub next_t1-lt : (t1 t2 : ℕ) → next_t1 t1 t2 < 512
unfolding next_t1
next_t1-lt t1 t2 =
    bit_xor-lt 9 _ _ (omega (arith, bit_and_mask 1 t1)) (omega (arith, lfsr1-lt t1 t2))

pub shift_in_lem : (t3 t6 : ℕ) → t6 < 256 → shift_in t3 t6 ≡ t3 % 2 ^ 24 * 256 + t6
unfolding shift_in
shift_in_lem t3 t6 h =
    let wrapped : t3 * 2 ^ 8 % 2 ^ 32 ≡ t3 % 2 ^ 24 * 2 ^ 8 = omega arith in
    ap (λ (t : ℕ). bit_or t t6) wrapped ∙ bit_or_fields 8 (t3 % 2 ^ 24) t6 h

pub sum_t5_lem :
    (s : Stream)
    → s.t5 < 2
    → (sum_t5 s < 512) × (sum_t5 s ≡ s.t5 + (css_tab4 (feedback s.t3) + css_tab5 (lfsr1 s.t1 s.t2)))
unfolding sum_t5
sum_t5_lem s h = omega (arith, css_tab4-lt (feedback s.t3), css_tab5-lt (lfsr1 s.t1 s.t2))

pub round-IsStream : {s : Stream} → IsStream s → IsStream (round s)
unfolding round
round-IsStream {s} v = record {
  t1_in = next_t1-lt s.t1 s.t2;
  t2_in = omega arith;
  t3_in = omega (arith, shift_in_lem s.t3 (feedback s.t3) (feedback-lt s.t3), feedback-lt s.t3);
  t5_in = omega (arith, sum_t5_lem s v.t5_in);
}

pub key_byte-lt : (s : Stream) → key_byte s < 256
unfolding key_byte
key_byte-lt s = omega (arith, bit_and_mask 8 (sum_t5 s))

-- The state after `n` rounds.
abbrev pub run : ℕ → Stream → Stream
run zero s = s
run (suc n) s = run n (round s)

pub run-IsStream : (n : ℕ) {s : Stream} → IsStream s → IsStream (run n s)
run-IsStream zero v = v
run-IsStream (suc n) v = run-IsStream n (round-IsStream v)
