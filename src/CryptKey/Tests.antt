-- ===== src/CryptKey/Tests.antt =====
-- Runs of `CryptKey` of src/css.c.
use libdvdcss.Common.{ℕ, List, [], ◌∷◌, ◌≡◌, refl}
use libdvdcss.Tables.Crypt.{crypt_tab0, crypt_tab1, crypt_tab2, crypt_tab3}
use libdvdcss.Tables.Laws.{all_bytes-AllBytes, all_bytes}
use libdvdcss.Keys.{IsKey}
use libdvdcss.CryptKey.Nonzero.{AreLive}
use libdvdcss.CryptKey.Bounds.{crypt_key_bounds}
use libdvdcss.CryptKey.{
  type_key1, type_key2, type_bus_key, crypt_key, css_variant, scratch, scratch_key, seed_bytes,
  first_registers, lfsr0_o, lfsr1_o, shift_bit, not_bit, combined, next_registers, after_bits,
  gather, fill_bits, p_bits, i_cse, mix_index, mix_byte, mix_twice, mix_pass, fold_first, mix_key,
}

abbrev count_up : List ℕ
count_up = 0 ∷ 1 ∷ 2 ∷ 3 ∷ 4 ∷ 5 ∷ 6 ∷ 7 ∷ 8 ∷ 9 ∷ []

encrypts_key1 :
    crypt_key type_key1 0 count_up ≡ record { k0 = 253; k1 = 20; k2 = 212; k3 = 116; k4 = 42 }
unfolding crypt_key css_variant scratch scratch_key seed_bytes first_registers lfsr0_o lfsr1_o
    shift_bit not_bit combined next_registers after_bits gather fill_bits p_bits i_cse mix_index
    mix_byte mix_twice mix_pass fold_first mix_key crypt_tab0 crypt_tab1 crypt_tab2 crypt_tab3
encrypts_key1 = refl

encrypts_key2 :
    crypt_key type_key2 7 (0 ∷ 10 ∷ 20 ∷ 30 ∷ 40 ∷ 50 ∷ 60 ∷ 70 ∷ 80 ∷ 90 ∷ [])
    ≡ record { k0 = 87; k1 = 114; k2 = 159; k3 = 43; k4 = 164 }
unfolding crypt_key css_variant scratch scratch_key seed_bytes first_registers lfsr0_o lfsr1_o
    shift_bit not_bit combined next_registers after_bits gather fill_bits p_bits i_cse mix_index
    mix_byte mix_twice mix_pass fold_first mix_key crypt_tab0 crypt_tab1 crypt_tab2 crypt_tab3
encrypts_key2 = refl

encrypts_bus_key :
    crypt_key type_bus_key 31 count_up ≡ record { k0 = 80; k1 = 101; k2 = 113; k3 = 94; k4 = 229 }
unfolding crypt_key css_variant scratch scratch_key seed_bytes first_registers lfsr0_o lfsr1_o
    shift_bit not_bit combined next_registers after_bits gather fill_bits p_bits i_cse mix_index
    mix_byte mix_twice mix_pass fold_first mix_key crypt_tab0 crypt_tab1 crypt_tab2 crypt_tab3
encrypts_bus_key = refl

crypt_key_bounds_example :
    IsKey (crypt_key type_key2 7 count_up)
    × ((n : ℕ) → AreLive (after_bits n (first_registers (seed_bytes type_key2 count_up))))
unfolding all_bytes
crypt_key_bounds_example = crypt_key_bounds type_key2 7 count_up (all_bytes-AllBytes count_up refl)
