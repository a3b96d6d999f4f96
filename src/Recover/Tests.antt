-- ===== src/Recover/Tests.antt =====
-- Recovering a key from ten known bytes, near the end of the range of `i_try`.
use libdvdcss.Common.{ℕ, ◌+◌, ◌≤◌, ◌<◌, ◌≡◌, refl, List, [], ◌∷◌, some, arith, take, replicate}
use libdvdcss.Tables.Css.{css_tab1, css_tab2, css_tab3, css_tab4, css_tab5}
use libdvdcss.Keys.{DvdKey, IsKey, AllBytes, AllBytes-replicate, key_at, zero_key}
use libdvdcss.Unscramble.{
  start, descramble, round, key_byte, sum_t5, next_t1, lfsr1, feedback, shift_in,
}
use libdvdcss.Recover.{
  Recovered, recover_title_key, known_bytes, attempts, attempt, first_guess, deduce_all, deduce,
  deduce_t6, validate, steps_back, step_back, find_byte, with_top, set_key, guess, guess_fits,
  key_from, with_seed,
}
use libdvdcss.Recover.Correct.{recover_title_key_sound, recover_title_key_complete}

abbrev header : List ℕ
header = replicate 0x80 0x5a

abbrev title_key : DvdKey
title_key = record { k0 = 0xa5; k1 = 0xa4; k2 = 0x12; k3 = 0x34; k4 = 0x56 }

abbrev crypted : List ℕ
crypted = 0x10 ∷ 0x20 ∷ 0x30 ∷ 0x40 ∷ 0x50 ∷ 0x60 ∷ 0x70 ∷ 0x80 ∷ 0x90 ∷ 0xa0 ∷ []

abbrev plain_rest : List ℕ
plain_rest = 0xe6 ∷ 0x55 ∷ 0xd4 ∷ 0x15 ∷ 0x5c ∷ 0x05 ∷ 0x3a ∷ 0x47 ∷ 0xc1 ∷ []

abbrev decrypted : List ℕ
decrypted = 0x2a ∷ plain_rest

-- The same, but for the first byte.
abbrev misread : List ℕ
misread = 0x14 ∷ plain_rest

abbrev found : Recovered
found = record { exit = some 0xffff; key = title_key }

abbrev seed : DvdKey
seed = key_at header 0x54

finds_key : recover_title_key 0xfffe crypted decrypted seed zero_key ≡ found
unfolding recover_title_key known_bytes attempts attempt first_guess deduce_all deduce deduce_t6
    validate steps_back step_back find_byte with_top set_key guess guess_fits key_from with_seed
    round key_byte sum_t5 next_t1 lfsr1 feedback shift_in css_tab1 css_tab2 css_tab3 css_tab4
    css_tab5
finds_key = refl

-- The validation says nothing of the first byte: the key is returned for another plain text too.
finds_key_for_misread : recover_title_key 0xfffe crypted misread seed zero_key ≡ found
unfolding recover_title_key known_bytes attempts attempt first_guess deduce_all deduce deduce_t6
    validate steps_back step_back find_byte with_top set_key guess guess_fits key_from with_seed
    round key_byte sum_t5 next_t1 lfsr1 feedback shift_in css_tab1 css_tab2 css_tab3 css_tab4
    css_tab5
finds_key_for_misread = refl

decrypts_ten : descramble (start title_key header) (take 10 crypted) ≡ decrypted
unfolding descramble start round key_byte sum_t5 next_t1 lfsr1 feedback shift_in css_tab1 css_tab2
    css_tab3 css_tab4 css_tab5
decrypts_ten = refl

header-AllBytes : AllBytes header
header-AllBytes = AllBytes-replicate 0x80 0x5a (omega arith)

recover_title_key_sound_example :
    IsKey title_key
    × (0xfffe < 0xffff)
    × (0xffff ≤ 0x10000)
    × (descramble (start title_key header) (take 1 crypted) ≡ take 1 decrypted
        → descramble (start title_key header) (take 10 crypted) ≡ take 10 decrypted)
recover_title_key_sound_example =
    recover_title_key_sound crypted decrypted header (omega arith) (omega arith) (omega arith)
      header-AllBytes 0xfffe zero_key title_key 0xffff (omega arith) finds_key

recover_title_key_complete_example :
    (e : ℕ) × (key' : DvdKey) × (recover_title_key 0xfffe crypted decrypted seed zero_key
      ≡ record { exit = some e; key = key' })
    × (0xfffe < e)
    × (e ≡ 0xfffe + 1 → key' ≡ title_key)
recover_title_key_complete_example =
    recover_title_key_complete crypted decrypted header (omega arith) (omega arith) (omega arith)
      header-AllBytes 0xfffe zero_key title_key (omega arith) (omega arith) decrypts_ten
