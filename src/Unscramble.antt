-- ===== src/Unscramble.antt =====
-- `dvdcss_unscramble` of src/css.c: the stream cipher of the sectors.
pub mod Bounds
pub mod Start
pub mod RoundTrip
mod Tests
use libdvdcss.Common.{
  ℕ, ◌+◌, ◌-◌, ◌*◌, List, [], ◌∷◌, ◌++◌, if◌then◌else◌, ◌==◌, take, drop, u32, ◌<<◌, ◌>>◌, ◌&◌, ◌⊕◌,
  ◌‖◌,
}
use libdvdcss.Tables.Css.{css_tab1, css_tab2, css_tab3, css_tab4, css_tab5}
use libdvdcss.Keys.{DvdKey, byte}

-- The variables `i_t1`, `i_t2`, `i_t3` and `i_t5`; `i_t4` and `i_t6` are set before they are read.
pub record Stream : Type 0 where
  pub t1 : ℕ
  pub t2 : ℕ
  pub t3 : ℕ
  pub t5 : ℕ

-- `DVDCSS_BLOCK_SIZE`
abbrev pub block_size : ℕ
block_size = 2048

-- Where the scrambled part of a sector begins.
abbrev pub payload_offset : ℕ
payload_offset = 0x80

-- The start: the title key added to the seed at 0x54 of the sector.
unfoldable pub start : DvdKey → List ℕ → Stream
start key sec =
    let t3 =
      (key.k2 ‖ (key.k3 << 8) ‖ (key.k4 << 16))
      ⊕ (byte sec 0x56 ‖ (byte sec 0x57 << 8) ‖ (byte sec 0x58 << 16)) in
    let t4 = t3 & 7 in
    record {
      t1 = (key.k0 ⊕ byte sec 0x54) ‖ 0x100;
      t2 = key.k1 ⊕ byte sec 0x55;
      t3 = u32 (t3 * 2 + 8 - t4);
      t5 = 0;
    }

-- What the 25-bit register shifts in: the new `i_t6`.
unfoldable pub feedback : ℕ → ℕ
feedback t3 = (((((t3 >> 3 ⊕ t3) >> 1) ⊕ t3) >> 8) ⊕ t3) >> 5 & 0xff

-- `i_t3 = (i_t3 << 8) | i_t6`
unfoldable pub shift_in : ℕ → ℕ → ℕ
shift_in t3 t6 = u32 (t3 << 8) ‖ t6

-- The 17-bit register: `i_t4` as it is first computed, and the new `i_t1`.
unfoldable pub lfsr1 : ℕ → ℕ → ℕ
lfsr1 t1 t2 = css_tab2 t2 ⊕ css_tab3 t1

unfoldable pub next_t1 : ℕ → ℕ → ℕ
next_t1 t1 t2 = ((t1 & 1) << 8) ⊕ lfsr1 t1 t2

-- `i_t5` after the round's additions.
unfoldable pub sum_t5 : Stream → ℕ
sum_t5 s = u32 (s.t5 + (css_tab4 (feedback s.t3) + css_tab5 (lfsr1 s.t1 s.t2)))

-- One round of the loop: the state after it. What it adds to the byte is `key_byte`.
unfoldable pub round : Stream → Stream
round s = record {
  t1 = next_t1 s.t1 s.t2;
  t2 = s.t1 >> 1;
  t3 = shift_in s.t3 (feedback s.t3);
  t5 = sum_t5 s >> 8;
}

unfoldable pub key_byte : Stream → ℕ
key_byte s = sum_t5 s & 0xff

-- The loop over the bytes from `p_sec + 0x80` to `p_end`.
unfoldable pub descramble : Stream → List ℕ → List ℕ
descramble s [] = []
descramble s (b ∷ bs) = (css_tab1 b ⊕ key_byte s) ∷ descramble (round s) bs

-- `PES_scrambling_control`
unfoldable pub is_scrambled : List ℕ → ℕ
is_scrambled sec = byte sec 0x14 & 0x30

-- The loop goes from `p_sec + 0x80` to `p_end`, and leaves what stands before and after.
unfoldable pub rewrite_payload : (List ℕ → List ℕ) → List ℕ → List ℕ
rewrite_payload f sec =
    take payload_offset sec
    ++ (f (take (block_size - payload_offset) (drop payload_offset sec)) ++ drop block_size sec)

-- The buffer from `p_sec` on, after the call (the call itself always returns 0).
unfoldable pub dvdcss_unscramble : DvdKey → List ℕ → List ℕ
dvdcss_unscramble key sec =
    if is_scrambled sec == 0 then sec else rewrite_payload (descramble (start key sec)) sec
