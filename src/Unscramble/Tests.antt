-- ===== src/Unscramble/Tests.antt =====
-- Unscrambling on concrete sectors.
use libdvdcss.Common.{
  ℕ, ◌≤◌, ◌<◌, ◌≡◌, refl, List, [], ◌∷◌, arith, length, replicate, length-replicate,
}
use libdvdcss.Tables.Css.{css_tab1, css_tab2, css_tab3, css_tab4, css_tab5}
use libdvdcss.Keys.{DvdKey, AllBytes-replicate}
use libdvdcss.Unscramble.{
  start, descramble, round, key_byte, sum_t5, next_t1, lfsr1, feedback, shift_in, block_size,
  dvdcss_unscramble,
}
use libdvdcss.Unscramble.Bounds.{run}
use libdvdcss.Unscramble.Start.{run-start_bounds}
use libdvdcss.Unscramble.RoundTrip.{
  scramble, dvdcss_unscramble-scramble, scramble-dvdcss_unscramble,
}

abbrev title_key : DvdKey
title_key = record { k0 = 0xa5; k1 = 0xa4; k2 = 0x12; k3 = 0x34; k4 = 0x56 }

-- A sector whose bytes all are 0x5a, its scrambling flag among them.
abbrev sector : List ℕ
sector = replicate 2048 0x5a

ten_bytes :
    descramble
      (start title_key sector)
      (0x10 ∷ 0x20 ∷ 0x30 ∷ 0x40 ∷ 0x50 ∷ 0x60 ∷ 0x70 ∷ 0x80 ∷ 0x90 ∷ 0xa0 ∷ [])
    ≡ 0x2a ∷ 0xe6 ∷ 0x55 ∷ 0xd4 ∷ 0x15 ∷ 0x5c ∷ 0x05 ∷ 0x3a ∷ 0x47 ∷ 0xc1 ∷ []
unfolding descramble start round key_byte sum_t5 next_t1 lfsr1 feedback shift_in css_tab1 css_tab2
    css_tab3 css_tab4 css_tab5
ten_bytes = refl

sector_whole : block_size ≤ length sector
sector_whole = omega (arith, length-replicate {A = ℕ} 2048 0x5a)

dvdcss_unscramble-scramble_example :
    dvdcss_unscramble title_key (scramble title_key sector) ≡ sector
dvdcss_unscramble-scramble_example =
    dvdcss_unscramble-scramble title_key sector sector_whole
      (AllBytes-replicate 2048 0x5a (omega arith))

scramble-dvdcss_unscramble_example :
    scramble title_key (dvdcss_unscramble title_key sector) ≡ sector
scramble-dvdcss_unscramble_example =
    scramble-dvdcss_unscramble title_key sector sector_whole
      (AllBytes-replicate 2048 0x5a (omega arith))

run-start_bounds_example :
    let s = run 5 (start title_key sector) in
    (s.t2 < 256) × (s.t1 < 512) × (feedback s.t3 < 256) × (lfsr1 s.t1 s.t2 < 256) × (s.t5 ≤ 1)
run-start_bounds_example =
    run-start_bounds 5 title_key sector (omega arith) (AllBytes-replicate 2048 0x5a (omega arith))
