-- ===== src/DecryptKey/Bounds.antt =====
-- The ranges of the variables of `DecryptKey`: every table is read inside its size, and the result
-- is five bytes.
use libdvdcss.Common.{ℕ, zero, suc, ◌/◌, ◌^◌, ◌≤◌, ◌<◌, arith, ◌&◌}
use libdvdcss.Common.Bits.Fields.{bit_and_mask, bit_or_fields_left, bit_or-lt}
use libdvdcss.Keys.{DvdKey, IsKey}
use libdvdcss.Common.Bits.Xor.{bit_xor-lt}
use libdvdcss.Tables.Laws.{css_tab2-lt, css_tab3-lt, css_tab4-lt}
use libdvdcss.DecryptKey.{
  Mangler, mangle_key, mangle_bytes, first_mangler, combine, next_mangler, lfsr1_out, lfsr0_out,
  reverse_bits,
}

pub mangle_key-IsKey : (invert : ℕ) (key : DvdKey) → IsKey (mangle_key invert key)
unfolding mangle_key mangle_bytes
mangle_key-IsKey invert key =
    let byte_of : (x : ℕ) → x & 0xff < 256 = λ x. omega (arith, bit_and_mask 8 x) in
    record {
      byte0 = byte_of _;
      byte1 = byte_of _;
      byte2 = byte_of _;
      byte3 = byte_of _;
      byte4 = byte_of _;
    }

pub record IsMangler (m : Mangler) : Type 0 where
  pub lo_in : m.lfsr1_lo < 512
  pub hi_in : m.lfsr1_hi < 256
  pub lfsr0_in : m.lfsr0 < 2 ^ 32
  pub combined_in : m.combined < 2

-- The state after `n` rounds.
abbrev pub manglers : ℕ → ℕ → Mangler → Mangler
manglers zero invert m = m
manglers (suc n) invert m = manglers n invert (next_mangler invert m)

lfsr1_out-lt : (m : Mangler) → lfsr1_out m < 256
unfolding lfsr1_out
lfsr1_out-lt m = bit_xor-lt 8 _ _ (css_tab2-lt _) (css_tab3-lt _)

next_mangler-IsMangler :
    {m : Mangler} (invert : ℕ) → invert < 256 → IsMangler m → IsMangler (next_mangler invert m)
unfolding next_mangler combine lfsr0_out
next_mangler-IsMangler {m} invert hi v =
    let out = lfsr0_out m.lfsr0 in
    let out_in : out < 256 = omega arith in
    let flipped = bit_xor-lt 8 out invert out_in hi in
    let byte1 = css_tab4-lt (lfsr1_out m) in
    record {
      lo_in =
          bit_xor-lt 9 _ _ (omega (arith, bit_and_mask 1 m.lfsr1_lo))
            (omega (arith, lfsr1_out-lt m));
      hi_in = omega (arith, v.lo_in);
      lfsr0_in = omega (
        arith,
        bit_or_fields_left 24 out (m.lfsr0 / 2 ^ 8) (omega (arith, v.lfsr0_in)),
        v.lfsr0_in,
        out_in,
      );
      combined_in = omega (arith, flipped, byte1, v.combined_in);
    }

manglers-IsMangler :
    (n : ℕ) {m : Mangler} (invert : ℕ)
    → invert < 256
    → IsMangler m
    → IsMangler (manglers n invert m)
manglers-IsMangler zero invert hi v = v
manglers-IsMangler (suc n) invert hi v =
    manglers-IsMangler n invert hi (next_mangler-IsMangler invert hi v)

reverse_bits-lt : (x : ℕ) → reverse_bits x < 2 ^ 32
unfolding reverse_bits
reverse_bits-lt x =
    bit_or-lt 32 _ _
      (bit_or-lt 32 _ _
        (bit_or-lt 32 _ _ (omega (arith, css_tab4-lt (x & 0xff)))
          (omega (arith, css_tab4-lt (x / 2 ^ 8 & 0xff))))
        (omega (arith, css_tab4-lt (x / 2 ^ 16 & 0xff))))
      (omega (arith, css_tab4-lt (x / 2 ^ 24 & 0xff)))

first_mangler-IsMangler : {key : DvdKey} → IsKey key → IsMangler (first_mangler key)
unfolding first_mangler
first_mangler-IsMangler {key} v = record {
  lo_in = omega (arith, bit_or_fields_left 8 1 key.k0 v.byte0, v.byte0);
  hi_in = v.byte1;
  lfsr0_in = reverse_bits-lt _;
  combined_in = omega arith;
}

-- Every round of `DecryptKey` reads its tables in range: the index of `p_css_tab2` is below 256,
-- that of `p_css_tab3` below 512, that of `p_css_tab4` is a byte, and the carry is at most 1.
pub manglers_bounds :
    (n invert : ℕ) (key : DvdKey)
    → invert < 256
    → IsKey key
    → let m = manglers n invert (first_mangler key) in
      (m.lfsr1_hi < 256) × (m.lfsr1_lo < 512) × (lfsr1_out m < 256) × (m.combined ≤ 1)
manglers_bounds n invert key hi hk =
    let v = manglers-IsMangler n invert hi (first_mangler-IsMangler hk) in
    (v.hi_in, v.lo_in, lfsr1_out-lt _, omega (arith, v.combined_in))
