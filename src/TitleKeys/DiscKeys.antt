-- ===== src/TitleKeys/DiscKeys.antt =====
-- `dvdcss_disckey` of src/css.c on every branch.
use libdvdcss.Common.{
  ℕ, Bool, true, false, Option, none, some, List, ◌∷◌, ◌≡◌, refl, ap, ◌⊎◌, inl, inr, Bool-cases,
  Option-cases, arith,
}
use libdvdcss.Keys.{DvdKey, key_at, zero_key}
use libdvdcss.DiscKey.{player_keys}
use libdvdcss.DiscKey.Laws.{Found, NoneOpens, decrypt_disc_key_lem}
use libdvdcss.Dvdcss.{
  Dvdcss, Drive, Method, method_key, method_disc, method_title, read_disc_key, report_asf,
  invalidate_agid, ioctl_read_disc_key, ioctl_invalidate_agid, get_asf, issue,
}
use libdvdcss.BusKey.{get_bus_key, give_up}
use libdvdcss.TitleKeys.{
  dvdcss_disckey, on_disc_key, open_disc_key, keep_disc_key, unshuffle, is_one,
}

module _ (drive : Drive) (crack_disc_key : DvdKey → Bool × DvdKey) where
  -- How the method and the disc key of `d'` come out of `block`, by the method of `d`.
  abbrev pub Opened : Method → List ℕ → Dvdcss → Type 0
  Opened method_key block d' =
      ((d'.method ≡ method_key) × Found block player_keys d'.p_disc_key)
      ⊎ ((d'.method ≡ method_title) × (d'.p_disc_key ≡ zero_key) × NoneOpens block player_keys)
  Opened method_disc block d' =
      let (success, key) = crack_disc_key (key_at block 0) in
      ((success ≡ true) × (d'.method ≡ method_disc) × (d'.p_disc_key ≡ key))
      ⊎ ((success ≡ false) × (d'.method ≡ method_title) × (d'.p_disc_key ≡ zero_key))
  Opened method_title block d' = (d'.method ≡ method_title) × (d'.p_disc_key ≡ zero_key)

  open_disc_key-Opened :
      (method : Method) (block : List ℕ) (d : Dvdcss)
      → d.method ≡ method
      → Opened method block (open_disc_key drive crack_disc_key method block d)
  unfolding open_disc_key keep_disc_key
  open_disc_key-Opened method_key block d e = elim (decrypt_disc_key_lem block) [
    | inl (success, found) ↦ rw (success) (inl (e, found))
    | inr (failure, zero, none_opens) ↦ rw (failure) (inr (refl, refl, none_opens))
  ]
  open_disc_key-Opened method_disc block d e =
      elim (Bool-cases (crack_disc_key (key_at block 0)).0) [
        | inl success ↦ rw (success) (inl (refl, e, refl))
        | inr failure ↦ rw (failure) (inr (refl, refl, refl))
      ]
  open_disc_key-Opened method_title block d e = (e, refl)

  -- What dvdcss_disckey does once GetBusKey has given the state `d`.
  abbrev pub Read : Dvdcss → Bool × Dvdcss → Type 0
  Read d (true, d') =
      (buffer : List ℕ) × (drive.disc_key (read_disc_key d.i_agid ∷ d.log) ≡ some buffer)
      × (drive.asf (report_asf ∷ read_disc_key d.i_agid ∷ d.log) ≡ some 1)
      × Opened d.method (unshuffle d.p_bus_key 0 buffer) d'
  Read d (false, d') =
      ((drive.disc_key (read_disc_key d.i_agid ∷ d.log) ≡ none)
        × (d' ≡ record d { log = read_disc_key d.i_agid ∷ d.log }))
      ⊎ (d' ≡ record d {
        log = invalidate_agid d.i_agid ∷ report_asf ∷ read_disc_key d.i_agid ∷ d.log;
      })

  is_one_lem : (asf : Option ℕ) → is_one drive crack_disc_key asf ≡ true → asf ≡ some 1
  unfolding is_one
  is_one_lem none h = absurd (cc)
  is_one_lem (some asf) h = ap some (ground arith)

  read_lem :
      (d : Dvdcss)
      → let (answer, asked) = ioctl_read_disc_key drive d in
        Read d (on_disc_key drive crack_disc_key answer asked)
  unfolding ioctl_read_disc_key on_disc_key get_asf issue give_up ioctl_invalidate_agid
  read_lem d =
      let log = read_disc_key d.i_agid ∷ d.log in
      elim (Option-cases (drive.disc_key log)) [
        | inl e ↦ rw (e) (inl (e, refl))
        | inr (buffer, e) ↦
            elim (Bool-cases (is_one drive crack_disc_key (drive.asf (report_asf ∷ log)))) [
              | inl one ↦
                  rw (e, one)
                    (
                      buffer,
                      e,
                      is_one_lem _ one,
                      open_disc_key-Opened d.method (unshuffle d.p_bus_key 0 buffer)
                          (record d { log = report_asf ∷ log }) refl,
                    )
              | inr other ↦ rw (e, other) (inr refl)
            ]
      ]

  -- dvdcss_disckey returns -1 with the state of GetBusKey when that fails. Otherwise, from the state
  -- that GetBusKey leaves: it returns 0 after the drive has sent the disc key block and reported
  -- ASF 1, and with the method "key" the disc key is one that a player key opens in the block
  -- under the bus key, or it is zero, no player key opens any and the method becomes "title";
  -- with the method "disc" it is what CrackDiscKey makes of the block, with the same fallback. Or
  -- it returns -1 with the keys and the method unchanged: after a refused read without another
  -- command, so that the AGID is kept, and after another ASF with the AGID invalidated.
  pub dvdcss_disckey_lem :
      (d : Dvdcss)
      → let (ok, authenticated) = get_bus_key drive d in
        ((ok ≡ false) × (dvdcss_disckey drive crack_disc_key d ≡ (false, authenticated)))
        ⊎ ((ok ≡ true) × Read authenticated (dvdcss_disckey drive crack_disc_key d))
  unfolding dvdcss_disckey
  dvdcss_disckey_lem d = elim (Bool-cases (get_bus_key drive d).0) [
    | inl e ↦ rw (e) (inr (refl, read_lem (get_bus_key drive d).1))
    | inr e ↦ rw (e) (inl (refl, refl))
  ]
