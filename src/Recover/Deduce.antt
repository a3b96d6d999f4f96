-- ===== src/Recover/Deduce.antt =====
-- The deducing loop of `RecoverTitleKey` runs the cipher: it shifts in what the second register
-- would have fed back.
use libdvdcss.Common.{ℕ, ◌+◌, ◌/◌, ◌%◌, ◌^◌, ◌<◌, ◌≡◌, sym, ◌∙◌, ap, ◌↔◌, arith}
use libdvdcss.Common.Bits.Fields.{bit_and_mask}
use libdvdcss.Tables.Css.{css_tab4, css_tab5}
use libdvdcss.Tables.Laws.{css_tab4-lt, css_tab5-lt, css_tab4_involution}
use libdvdcss.Unscramble.{Stream, feedback, lfsr1, shift_in, sum_t5, round, key_byte}
use libdvdcss.Unscramble.Bounds.{IsStream, feedback-lt, shift_in_lem, sum_t5_lem}
use libdvdcss.Recover.{deduce_t6, deduce}
use libdvdcss.Recover.Matches.{with_t3}

deduce_t6-lt : (t5 b t4 : ℕ) → b < 256 → t4 < 256 → deduce_t6 t5 b t4 < 256
unfolding deduce_t6
deduce_t6-lt t5 b t4 hb h4 = ground (arith, bit_and_mask 8 (b + 255))

deduce_t6_iff :
    (t5 b t4 x : ℕ)
    → t5 < 2
    → b < 256
    → t4 < 256
    → x < 256
    → ((t5 + (x + t4)) % 2 ^ 8 ≡ b) ↔ (deduce_t6 t5 b t4 ≡ x)
unfolding deduce_t6
deduce_t6_iff t5 b t4 x h5 hb h4 hx = ground (arith, bit_and_mask 8 (b + 255))

pub deduce-t3 : (d : Stream) (b : ℕ) → (deduce d b).t3 / 2 ^ 8 ≡ d.t3 % 2 ^ 24
unfolding deduce
deduce-t3 d b =
    let t6 = css_tab4 (deduce_t6 d.t5 b (css_tab5 (lfsr1 d.t1 d.t2))) in
    omega (
      arith,
      shift_in_lem d.t3 t6 (css_tab4-lt _),
      css_tab4-lt (deduce_t6 d.t5 b (css_tab5 (lfsr1 d.t1 d.t2))),
    )

module _ (s : Stream) (v : IsStream s) (x b : ℕ) (b_in : b < 256) where
  abbrev t4 : ℕ
  t4 = css_tab5 (lfsr1 s.t1 s.t2)

  key_byte_eq : key_byte s ≡ (s.t5 + (css_tab4 (feedback s.t3) + t4)) % 2 ^ 8
  unfolding key_byte
  key_byte_eq = bit_and_mask 8 (sum_t5 s) ∙ ap (λ (t : ℕ). t % 2 ^ 8) (sum_t5_lem s v.t5_in).1

  deduced : (key_byte s ≡ b) ↔ (deduce_t6 s.t5 b t4 ≡ css_tab4 (feedback s.t3))
  deduced =
      let both =
        deduce_t6_iff s.t5 b t4 (css_tab4 (feedback s.t3)) v.t5_in b_in (css_tab5-lt _)
          (css_tab4-lt _) in
      ((λ h. both.0 (sym key_byte_eq ∙ h)), (λ h. key_byte_eq ∙ both.1 h))

  -- A byte that the cipher gives is deduced to be what the cipher shifts in.
  pub deduce-round :
      key_byte s ≡ b → deduce (with_t3 s x) b ≡ with_t3 (round s) (shift_in x (feedback s.t3))
  unfolding deduce round sum_t5
  deduce-round h =
      let same = deduced.0 h in
      let undone = css_tab4_involution (feedback s.t3) (feedback-lt s.t3) in rw (same, undone)

  -- The cipher gives the byte if what is deduced is what it shifts in.
  pub key_byte_of_deduce : (deduce (with_t3 s x) b).t3 % 2 ^ 8 ≡ feedback s.t3 → key_byte s ≡ b
  unfolding deduce
  key_byte_of_deduce h =
      let t6 = deduce_t6 s.t5 b t4 in
      let shifted = shift_in_lem x (css_tab4 t6) (css_tab4-lt t6) in
      let fed : css_tab4 t6 ≡ feedback s.t3 = omega (arith, shifted, h, css_tab4-lt t6) in
      deduced.1 (
        sym (css_tab4_involution t6 (deduce_t6-lt s.t5 b t4 b_in (css_tab5-lt _)))
        ∙ ap css_tab4 fed)
