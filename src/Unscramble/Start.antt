-- ===== src/Unscramble/Start.antt =====
-- The start state, as numbers: the key and the seed meet byte by byte.
use mathlib.Core.Path.{subst}
use libdvdcss.Common.{
  sym, ℕ, ◌+◌, ◌-◌, ◌*◌, ◌%◌, ◌^◌, ◌≤◌, ◌<◌, ◌≡◌, ◌∙◌, ap, ap₂, List, arith, bit_and, bit_or,
  bit_xor, ◌⊕◌, ◌‖◌, ◌<<◌,
}
use libdvdcss.Common.Bits.Xor.{bit_xor_fields}
use libdvdcss.Common.Bits.Fields.{bit_and_mask, bit_or_fields_left}
use libdvdcss.Keys.{DvdKey, IsKey, AllBytes, key_at-IsKey, key_at, xor_key, xor_key-IsKey}
use libdvdcss.Unscramble.{Stream, start, feedback, lfsr1}
use libdvdcss.Unscramble.Bounds.{IsStream, run, run-IsStream, feedback-lt, lfsr1-lt}

-- Three bytes as a number of 24 bits.
abbrev pub join24 : ℕ → ℕ → ℕ → ℕ
join24 a b c = c * 2 ^ 16 + (b * 2 ^ 8 + a)

pub bit_or-join24 :
    (a b c : ℕ) → a < 256 → b < 256 → c < 256 → (a ‖ (b << 8) ‖ (c << 16)) ≡ join24 a b c
bit_or-join24 a b c ha hb hc =
    ap (λ (t : ℕ). bit_or t (c * 2 ^ 16)) (bit_or_fields_left 8 b a ha)
    ∙ bit_or_fields_left 16 c (b * 2 ^ 8 + a) (omega arith)

pub bit_xor-join24 :
    (a b c x y z : ℕ)
    → a < 256
    → b < 256
    → x < 256
    → y < 256
    → (join24 a b c ⊕ join24 x y z) ≡ join24 (a ⊕ x) (b ⊕ y) (c ⊕ z)
bit_xor-join24 a b c x y z ha hb hx hy =
    bit_xor_fields 16 c z (b * 2 ^ 8 + a) (y * 2 ^ 8 + x) (omega arith) (omega arith)
    ∙ ap (λ (t : ℕ). bit_xor c z * 2 ^ 16 + t) (bit_xor_fields 8 b y a x ha hx)

-- The initial value of the 25-bit register for a 24-bit key: a bit is always set.
abbrev pub spread : ℕ → ℕ
spread x = x * 2 + 8 - x % 8

-- The start state from the five sums of key and seed bytes.
abbrev pub stream_of : DvdKey → Stream
stream_of k = record { t1 = 256 + k.k0; t2 = k.k1; t3 = spread (join24 k.k2 k.k3 k.k4); t5 = 0 }

pub stream_of-IsStream : {k : DvdKey} → IsKey k → IsStream (stream_of k)
stream_of-IsStream v = record {
  t1_in = omega arith;
  t2_in = v.byte1;
  t3_in = omega arith;
  t5_in = omega arith;
}

start_t3_lem : (x : ℕ) → x < 2 ^ 24 → (x * 2 + 8 - bit_and x 7) % 2 ^ 32 ≡ spread x
start_t3_lem x h = omega (arith, bit_and_mask 3 x)

-- `start` is `stream_of` the sum of the title key and the seed of the sector.
pub start_lem :
    (key : DvdKey) (sec : List ℕ)
    → IsKey key
    → IsKey (key_at sec 0x54)
    → start key sec ≡ stream_of (xor_key key (key_at sec 0x54))
unfolding start
start_lem key sec hk hs =
    let seed = key_at sec 0x54 in
    let sum = xor_key key seed in
    let sum_bytes = xor_key-IsKey hk hs in
    let joined : ((key.k2 ‖ (key.k3 << 8) ‖ (key.k4 << 16))
          ⊕ (seed.k2 ‖ (seed.k3 << 8) ‖ (seed.k4 << 16)))
        ≡ join24 sum.k2 sum.k3 sum.k4 =
      ap₂ bit_xor (bit_or-join24 key.k2 key.k3 key.k4 hk.byte2 hk.byte3 hk.byte4)
        (bit_or-join24 seed.k2 seed.k3 seed.k4 hs.byte2 hs.byte3 hs.byte4)
      ∙ bit_xor-join24 key.k2 key.k3 key.k4 seed.k2 seed.k3 seed.k4 hk.byte2 hk.byte3 hs.byte2
          hs.byte3 in
    let t1_eq = bit_or_fields_left 8 1 sum.k0 sum_bytes.byte0 in
    let t3_eq =
      ap (λ (x : ℕ). (x * 2 + 8 - bit_and x 7) % 2 ^ 32) joined
      ∙ start_t3_lem (join24 sum.k2 sum.k3 sum.k4) (omega arith) in
    λ i. record { t1 = t1_eq i; t2 = sum.k1; t3 = t3_eq i; t5 = 0 }

-- Every round of `dvdcss_unscramble` reads its tables in range: the index of `p_css_tab2` is below
-- 256, that of `p_css_tab3` below 512, those of `p_css_tab4` and `p_css_tab5` are bytes, and the
-- carry `i_t5` is at most 1 at the head of the loop.
pub run-start_bounds :
    (n : ℕ) (key : DvdKey) (sec : List ℕ)
    → IsKey key
    → AllBytes sec
    → let s = run n (start key sec) in
      (s.t2 < 256) × (s.t1 < 512) × (feedback s.t3 < 256) × (lfsr1 s.t1 s.t2 < 256) × (s.t5 ≤ 1)
run-start_bounds n key sec hk hs =
    let seed = key_at-IsKey sec 0x54 hs in
    let v = run-IsStream n (
      subst IsStream (sym (start_lem key sec hk seed))
        (stream_of-IsStream (xor_key-IsKey hk seed))) in
    (v.t2_in, v.t1_in, feedback-lt _, lfsr1-lt _ _, omega (arith, v.t5_in))
