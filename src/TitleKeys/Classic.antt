-- ===== src/TitleKeys/Classic.antt =====
-- `dvdcss_titlekey` of src/css.c with a drive that keeps to the protocol.
use libdvdcss.Common.{
  ℕ, ◌<◌, Bool, true, ◌&&◌, some, List, ◌∷◌, arith, ◌≡◌, ◌≢◌, refl, ap, sym, ◌∙◌, ne→==, ◌‖◌,
}
use libdvdcss.Keys.{DvdKey, IsKey, xor_key, xor_key_cancel}
use mathlib.Core.Path.{subst}
use libdvdcss.DecryptKey.{decrypt_key, decrypt_title_key}
use libdvdcss.DecryptKey.RoundTrip.{decrypt_key-encrypt_key, decrypt_key_in-alias, encrypt_key}
use libdvdcss.Dvdcss.{
  Dvdcss, Drive, Command, ioctl_read_title_key, get_asf, issue, is_some, read_title_key, report_asf,
}
use libdvdcss.BusKey.{get_bus_key, swap_key}
use libdvdcss.BusKey.Agree.{KeepsProtocol, drive_bus_key, get_bus_key_agrees}
use libdvdcss.CrackTitle.{Cracked, key_found}
use libdvdcss.TitleKeys.{
  dvdcss_titlekey, classic_title_key, uses_disc_key, on_title_key, check_asf, decrypt_read_key,
}

-- `DecryptTitleKey` is `DecryptKey` with 0xff, in place or not.
decrypt_title_key-decrypt_key :
    (disc key : DvdKey) → decrypt_title_key disc key ≡ decrypt_key 0xff disc key
unfolding decrypt_title_key decrypt_key
decrypt_title_key-decrypt_key disc key =
    ap (λ m. m.result) (decrypt_key_in-alias 0xff disc key key).1

module _ (drive : Drive) (crack_disc_key : DvdKey → Bool × DvdKey) (variant hung : ℕ)
    (nonce : List ℕ) (keeps : KeepsProtocol drive variant hung nonce) (variant_in : variant < 32)
    (hung_in : hung < 4) (disc_key title_key : DvdKey) where
  -- What stands on the disc: the title key encrypted with the disc key.
  abbrev pub on_disc : DvdKey
  on_disc = encrypt_key 0xff disc_key title_key

  -- The drive sends it under the bus key, and stays authenticated.
  pub record SendsKey : Type 0 where
    pub sends :
        (log : List Command)
        → drive.title_key log ≡ some (xor_key on_disc (swap_key (drive_bus_key variant nonce)))
    pub stays : (log : List Command) → drive.asf log ≡ some 1

  -- A title key is present.
  abbrev pub Present : Type 0
  Present = on_disc.k0 ‖ on_disc.k1 ‖ on_disc.k2 ‖ on_disc.k3 ‖ on_disc.k4 ≢ 0

  read_back :
      (d : Dvdcss)
      → IsKey title_key
      → Present
      → d.p_bus_key ≡ drive_bus_key variant nonce
      → d.p_disc_key ≡ disc_key
      → let sent = xor_key on_disc (swap_key (drive_bus_key variant nonce)) in
        let c = decrypt_read_key drive crack_disc_key (xor_key sent (swap_key d.p_bus_key)) d in
        (c.result ≡ key_found) × (c.key ≡ title_key)
  unfolding decrypt_read_key
  read_back d is_key present bus disc =
      let sent = xor_key on_disc (swap_key (drive_bus_key variant nonce)) in
      let same : xor_key sent (swap_key d.p_bus_key) ≡ on_disc =
        ap (λ b. xor_key sent (swap_key b)) bus
        ∙ xor_key_cancel on_disc (swap_key (drive_bus_key variant nonce)) in
      let nonzero =
        ne→== (on_disc.k0 ‖ on_disc.k1 ‖ on_disc.k2 ‖ on_disc.k3 ‖ on_disc.k4) 0 present in
      let (_, decrypts, _) = decrypt_key-encrypt_key 0xff disc_key title_key is_key in
      subst
        (λ k.
          let c = decrypt_read_key drive crack_disc_key k d in
          (c.result ≡ key_found) × (c.key ≡ title_key))
        (sym same)
        (rw (nonzero) (
          refl,
          ap (λ x. decrypt_title_key x on_disc) disc
              ∙ decrypt_title_key-decrypt_key disc_key on_disc
              ∙ decrypts,
        ))

  classic_title_key-honest :
      (pos : ℕ) (d : Dvdcss)
      → SendsKey
      → IsKey title_key
      → Present
      → d.p_disc_key ≡ disc_key
      → (c : Cracked) × (classic_title_key drive crack_disc_key pos d ≡ some c)
        × (c.result ≡ key_found)
        × (c.key ≡ title_key)
  unfolding classic_title_key ioctl_read_title_key get_asf issue is_some check_asf on_title_key
  classic_title_key-honest pos d h is_key present disc =
      let (ok, bus, frame) =
        get_bus_key_agrees drive variant hung nonce keeps variant_in d hung_in in
      let e = (get_bus_key drive d).1 in
      let asked = record e { log = report_asf ∷ read_title_key e.i_agid pos ∷ e.log } in
      let (found, is) = read_back asked is_key present bus (frame ∙ disc) in
      rw (ok, h.sends, h.stays) (_, refl, found, is)

  -- A title key that the disc holds encrypted with the disc key, and that is present, is what
  -- dvdcss_titlekey returns: with the ioctls, a method that has the disc key, and a drive that keeps
  -- to the protocol, sends the key under the bus key and stays authenticated.
  pub dvdcss_titlekey_honest :
      (pos : ℕ) (d : Dvdcss)
      → SendsKey
      → IsKey title_key
      → Present
      → d.p_disc_key ≡ disc_key
      → d.b_ioctls ≡ true
      → uses_disc_key drive crack_disc_key d.method ≡ true
      → (c : Cracked) × (dvdcss_titlekey drive crack_disc_key pos d ≡ some c)
        × (c.result ≡ key_found)
        × (c.key ≡ title_key)
  unfolding dvdcss_titlekey
  dvdcss_titlekey_honest pos d h is_key present disc ioctls uses =
      let both : (d.b_ioctls && uses_disc_key drive crack_disc_key d.method) ≡ true =
        ground arith in
      rw (both) (classic_title_key-honest pos d h is_key present disc)
