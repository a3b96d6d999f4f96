-- ===== src/CrackDisc/Tests.antt =====
-- The search for a disc key at a concrete key.
use libdvdcss.Common.{ℕ, Bool, true, ◌&&◌, ◌||◌, List, ◌≡◌, refl, ◌==◌, ◌+◌, ◌⊕◌, ◌‖◌, ◌&◌, ◌<<◌}
use libdvdcss.Tables.Css.{css_tab1, css_tab2, css_tab3, css_tab4}
use libdvdcss.Tables.Laws.{css_tab1_inverse}
use libdvdcss.Keys.{DvdKey, byte}
use libdvdcss.Unscramble.{feedback}
use libdvdcss.DecryptKey.{
  decrypt_key, mangle_key, mangle_bytes, first_mangler, next_mangler, combine, lfsr0_out, lfsr1_out,
  reverse_bits, decrypt_key_in, mangle_first, mangle_second,
}
use libdvdcss.CrackDisc.{
  big_index, state_index, lfsr2_start, lfsr2_bytes, lfsr1_bytes, half_of, hash_tmp, consistent,
  out2_0, out2_1, out2_4,
}

abbrev key : DvdKey
key = record { k0 = 0x51; k1 = 0x67; k2 = 0x89; k3 = 0xc5; k4 = 0xe0 }

-- The hash of the key, and the values that the search is to meet.
abbrev hash : DvdKey
hash = record { k0 = 68; k1 = 34; k2 = 147; k3 = 229; k4 = 95 }

abbrev k : DvdKey
k = mangle_key 0 key

abbrev b0 : ℕ
b0 = css_tab1_inverse (key.k0 ⊕ k.k0)

abbrev out1 : List ℕ
out1 = lfsr1_bytes 5 (0x100 ‖ key.k0) key.k1

-- DecryptKey gives the key for its hash under itself.
hash_of_key : decrypt_key 0 key hash ≡ key
unfolding decrypt_key decrypt_key_in mangle_first mangle_second mangle_key mangle_bytes
    first_mangler next_mangler combine lfsr0_out lfsr1_out reverse_bits css_tab1 css_tab2 css_tab3
    css_tab4
hash_of_key = refl

-- With them the attempt is consistent, and one of its two indices is that of the key's state.
abbrev meets : Bool
meets =
    let h = half_of hash key.k0 b0 k.k1 in
    let state = key.k2 ‖ (key.k3 << 8) ‖ (key.k4 << 16) in
    let x = out2_0 h.h0 (byte out1 0) in
    let y = out2_1 h.h0 (byte out1 0) h.h1 (byte out1 1) in
    let z = out2_4 h.h4 (byte out1 4) in
    consistent hash h key
    && (state_index state == big_index x y z
        || state_index state == big_index x y (z + 0xff & 0xff))

search_meets : meets ≡ true
unfolding half_of hash_tmp consistent out2_0 out2_1 out2_4 state_index big_index lfsr2_start
    lfsr2_bytes lfsr1_bytes feedback mangle_key mangle_bytes first_mangler next_mangler combine
    lfsr0_out lfsr1_out reverse_bits css_tab1 css_tab2 css_tab3 css_tab4 css_tab1_inverse
search_meets = refl
