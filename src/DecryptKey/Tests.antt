-- ===== src/DecryptKey/Tests.antt =====
-- The key cipher on concrete keys.
use libdvdcss.Common.{◌≤◌, ◌<◌, ◌≡◌, refl, true, false, arith}
use libdvdcss.Tables.Css.{css_tab1, css_tab2, css_tab3, css_tab4}
use libdvdcss.Keys.{DvdKey, IsKey}
use libdvdcss.DecryptKey.{
  decrypt_key, decrypt_title_key, decrypt_key_in, mangle_first, mangle_second, mangle_key,
  mangle_bytes, first_mangler, next_mangler, combine, lfsr0_out, lfsr1_out, reverse_bits,
}
use libdvdcss.DecryptKey.Bounds.{manglers, manglers_bounds}
use libdvdcss.DecryptKey.RoundTrip.{encrypt_key, decrypt_key-encrypt_key, decrypt_key_in-alias}

abbrev player_key : DvdKey
player_key = record { k0 = 0x01; k1 = 0xaf; k2 = 0xe3; k3 = 0x12; k4 = 0x80 }

abbrev block : DvdKey
block = record { k0 = 1; k1 = 2; k2 = 3; k3 = 4; k4 = 5 }

decrypts :
    decrypt_key 0 player_key block
    ≡ record { k0 = 0x27; k1 = 0x71; k2 = 0xe9; k3 = 0x6a; k4 = 0x39 }
unfolding decrypt_key decrypt_key_in mangle_first mangle_second mangle_key mangle_bytes
    first_mangler next_mangler combine lfsr0_out lfsr1_out reverse_bits css_tab1 css_tab2 css_tab3
    css_tab4
decrypts = refl

decrypts_title :
    decrypt_title_key player_key block
    ≡ record { k0 = 0x85; k1 = 0x2c; k2 = 0xc9; k3 = 0x76; k4 = 0x5a }
unfolding decrypt_title_key decrypt_key_in mangle_first mangle_second mangle_key mangle_bytes
    first_mangler next_mangler combine lfsr0_out lfsr1_out reverse_bits css_tab1 css_tab2 css_tab3
    css_tab4
decrypts_title = refl

decrypt_key-encrypt_key_example :
    IsKey (encrypt_key 0xff player_key block)
    × (decrypt_key 0xff player_key (encrypt_key 0xff player_key block) ≡ block)
    × (encrypt_key 0xff player_key (decrypt_key 0xff player_key block) ≡ block)
decrypt_key-encrypt_key_example = decrypt_key-encrypt_key 0xff player_key block (omega arith)

decrypt_key_in-alias_example :
    let apart =
      decrypt_key_in false 0xff player_key (record { crypted = block; result = player_key }) in
    (apart.crypted ≡ block)
    × (decrypt_key_in true 0xff player_key (record { crypted = block; result = block })
        ≡ record { crypted = apart.result; result = apart.result })
decrypt_key_in-alias_example = decrypt_key_in-alias 0xff player_key block player_key

manglers_bounds_example :
    let m = manglers 3 0xff (first_mangler player_key) in
    (m.lfsr1_hi < 256) × (m.lfsr1_lo < 512) × (lfsr1_out m < 256) × (m.combined ≤ 1)
manglers_bounds_example = manglers_bounds 3 0xff player_key (omega arith) (omega arith)
