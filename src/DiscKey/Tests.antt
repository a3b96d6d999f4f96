-- ===== src/DiscKey/Tests.antt =====
-- The player keys on a block.
use libdvdcss.Common.{ℕ, ◌≡◌, true, false, ◌⊎◌, List, replicate}
use libdvdcss.Keys.{zero_key}
use libdvdcss.DiscKey.{player_keys, decrypt_disc_key}
use libdvdcss.DiscKey.Laws.{Found, NoneOpens, decrypt_disc_key_lem}

abbrev block : List ℕ
block = replicate 2048 0x5a

decrypt_disc_key_lem_example :
    let (success, disc_key) = decrypt_disc_key block in
    ((success ≡ true) × Found block player_keys disc_key)
    ⊎ ((success ≡ false) × (disc_key ≡ zero_key) × NoneOpens block player_keys)
decrypt_disc_key_lem_example = decrypt_disc_key_lem block
