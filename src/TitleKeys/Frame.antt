-- ===== src/TitleKeys/Frame.antt =====
-- What the key functions of src/css.c leave alone: the list of titles, whether the disc is scrambled
-- and whether there are ioctls. With a drive that reads whole blocks, `dvdcss_titlekey` returns.
use libdvdcss.Common.{
  ℕ, ◌+◌, ◌<◌, Bool, true, false, not, ◌&&◌, Option, none, some, List, ◌∷◌, ◌≡◌, refl, sym, ◌∙◌, ap,
  inl, inr, Bool-cases, Option-cases, arith, ◌==◌, ltb, ◌‖◌,
}
use libdvdcss.Keys.{DvdKey, key_at, zero_key, xor_key}
use libdvdcss.DiscKey.{decrypt_disc_key}
use libdvdcss.Dvdcss.{
  Dvdcss, Drive, Method, method_key, method_disc, method_title, read_disc_key, report_asf,
  read_title_key, ioctl_read_disc_key, ioctl_read_title_key, ioctl_invalidate_agid, get_asf, issue,
  pf_seek, pf_read, is_some, seek, read,
}
use libdvdcss.BusKey.{get_bus_key, give_up, swap_key}
use libdvdcss.CrackTitle.{
  Crack, Cracked, crack_loop, conclude, conclude_some, begin_crack, crack_title_key,
}
use libdvdcss.CrackTitle.Total.{ReadsBlocks, crack_title_key_lem}
use libdvdcss.TitleKeys.{
  dvdcss_disckey, on_disc_key, open_disc_key, unshuffle, is_one, check_asf, decrypt_read_key,
  crack_instead, reset_drive, on_title_key, classic_title_key, dvdcss_titlekey, uses_disc_key,
}
use libdvdcss.TitleKeys.Kept.{
  KeepsTitles, KeepsTitles-trans, equal_state, get_bus_key-KeepsTitles, keep_disc_key-KeepsTitles,
  crack_loop-KeepsTitles,
}

module _ (drive : Drive) (crack_disc_key : DvdKey → Bool × DvdKey) where
  open_disc_key-KeepsTitles :
      (method : Method) (block : List ℕ) (d : Dvdcss)
      → KeepsTitles d (open_disc_key drive crack_disc_key method block d)
  unfolding open_disc_key
  open_disc_key-KeepsTitles method_key block d =
      keep_disc_key-KeepsTitles (decrypt_disc_key block) d
  open_disc_key-KeepsTitles method_disc block d =
      keep_disc_key-KeepsTitles (crack_disc_key (key_at block 0)) d
  open_disc_key-KeepsTitles method_title block d = record {
    titles = refl;
    scrambling = refl;
    ioctls = refl;
  }

  on_disc_key-KeepsTitles :
      (answer : Option (List ℕ)) (d : Dvdcss)
      → KeepsTitles d (on_disc_key drive crack_disc_key answer d).1
  unfolding on_disc_key get_asf issue give_up ioctl_invalidate_agid
  on_disc_key-KeepsTitles none d = record { titles = refl; scrambling = refl; ioctls = refl }
  on_disc_key-KeepsTitles (some buffer) d =
      let asked = record d { log = report_asf ∷ d.log } in
      let block = unshuffle d.p_bus_key 0 buffer in
      elim (Bool-cases (is_one drive crack_disc_key (drive.asf asked.log))) [
        | inl e ↦ rw (e) (
            KeepsTitles-trans d asked (open_disc_key drive crack_disc_key d.method block asked)
              (record { titles = refl; scrambling = refl; ioctls = refl })
              (open_disc_key-KeepsTitles d.method block asked))
        | inr e ↦ rw (e) (record { titles = refl; scrambling = refl; ioctls = refl })
      ]

  pub dvdcss_disckey-KeepsTitles :
      (d : Dvdcss) → KeepsTitles d (dvdcss_disckey drive crack_disc_key d).1
  unfolding dvdcss_disckey ioctl_read_disc_key issue
  dvdcss_disckey-KeepsTitles d =
      let e = (get_bus_key drive d).1 in
      let asked = record e { log = read_disc_key e.i_agid ∷ e.log } in
      let bus = get_bus_key-KeepsTitles drive d in
      elim (Bool-cases (get_bus_key drive d).0) [
        | inl ok ↦ rw (ok) (
            KeepsTitles-trans d e _ bus (
              KeepsTitles-trans e asked _
                (record { titles = refl; scrambling = refl; ioctls = refl })
                (on_disc_key-KeepsTitles (drive.disc_key asked.log) asked)))
        | inr failed ↦ rw (failed) bus
      ]

module _ (drive : Drive) (crack_disc_key : DvdKey → Bool × DvdKey) where
  -- A result, with the titles as they were.
  abbrev pub Keeps : Dvdcss → Option Cracked → Type 0
  Keeps d o = (c : Cracked) × (o ≡ some c) × KeepsTitles d c.state

  Keeps-trans : (d e : Dvdcss) (o : Option Cracked) → KeepsTitles d e → Keeps e o → Keeps d o
  Keeps-trans d e o k (c, is, k') = (c, is, KeepsTitles-trans d e c.state k k')

  conclude-state : (s : Crack) → (conclude s).state ≡ s.state
  unfolding conclude
  conclude-state s = elim (Bool-cases (ltb 0 s.attack.success)) [
    | inl e ↦ rw (e) refl
    | inr e ↦ elim (Bool-cases (s.encrypted == 0 && ltb 0 s.reads)) [
      | inl f ↦ rw (e, f) refl
      | inr f ↦ rw (e, f) refl
    ]
  ]

  crack_title_key-Keeps :
      (pos len : ℕ) (key : DvdKey) (d : Dvdcss)
      → ReadsBlocks drive
      → 0 < len
      → Keeps d (crack_title_key drive pos len key d)
  unfolding crack_title_key begin_crack conclude_some
  crack_title_key-Keeps pos len key d reads more =
      let first = begin_crack pos len key d in
      let (s, _, is, _, _, _) = crack_title_key_lem pos len drive reads key d more in
      elim (Option-cases (crack_loop drive (len + 2) first)) [
        | inl e ↦ absurd (cc (sym is ∙ ap conclude_some e))
        | inr (s', e) ↦
            let k = crack_loop-KeepsTitles drive (len + 2) first s' e in
            (
              conclude s',
              ap conclude_some e,
              equal_state d (conclude s').state s'.state (conclude-state s')
                  (record { titles = k.titles; scrambling = k.scrambling; ioctls = k.ioctls }),
            )
      ]

  reset_drive-KeepsTitles : (d : Dvdcss) → KeepsTitles d (reset_drive drive crack_disc_key d)
  unfolding reset_drive pf_seek pf_read issue
  reset_drive-KeepsTitles d =
      let back = record d { log = seek 0 ∷ read 1 ∷ seek 0 ∷ d.log } in
      let k = dvdcss_disckey-KeepsTitles drive crack_disc_key back in
      record { titles = k.titles; scrambling = k.scrambling; ioctls = k.ioctls }

  decrypt_read_key-Keeps :
      (key : DvdKey) (d : Dvdcss) → Keeps d (some (decrypt_read_key drive crack_disc_key key d))
  unfolding decrypt_read_key
  decrypt_read_key-Keeps key d =
      elim (Bool-cases ((key.k0 ‖ key.k1 ‖ key.k2 ‖ key.k3 ‖ key.k4) == 0)) [
        | inl e ↦ rw (e) (_, refl, record { titles = refl; scrambling = refl; ioctls = refl })
        | inr e ↦ rw (e) (_, refl, record { titles = refl; scrambling = refl; ioctls = refl })
      ]

  check_asf-KeepsTitles :
      (asf : Option ℕ) (ok : Bool) (d : Dvdcss)
      → KeepsTitles d (check_asf drive crack_disc_key asf ok d).1
  unfolding check_asf give_up ioctl_invalidate_agid issue
  check_asf-KeepsTitles none ok d = record { titles = refl; scrambling = refl; ioctls = refl }
  check_asf-KeepsTitles (some asf) ok d = elim (Bool-cases (asf == 1 && not ok)) [
    | inl e ↦ rw (e) (record { titles = refl; scrambling = refl; ioctls = refl })
    | inr e ↦ rw (e) (record { titles = refl; scrambling = refl; ioctls = refl })
  ]

  module _ (reads : ReadsBlocks drive) where
    crack_instead-Keeps :
        (pos : ℕ) (d : Dvdcss) → Keeps d (crack_instead drive crack_disc_key pos d)
    unfolding crack_instead
    crack_instead-Keeps pos d = crack_title_key-Keeps pos 4718592 zero_key d reads (omega arith)

    after_reset :
        (pos : ℕ) (d : Dvdcss)
        → Keeps d (crack_instead drive crack_disc_key pos (reset_drive drive crack_disc_key d))
    after_reset pos d =
        let back = reset_drive drive crack_disc_key d in
        Keeps-trans d back (crack_instead drive crack_disc_key pos back) (reset_drive-KeepsTitles d)
          (crack_instead-Keeps pos back)

    on_title_key-Keeps :
        (pos : ℕ) (answer : Option DvdKey) (ok : Bool) (d : Dvdcss)
        → Keeps d (on_title_key drive crack_disc_key pos answer ok d)
    unfolding on_title_key
    on_title_key-Keeps pos (some key) true d =
        decrypt_read_key-Keeps (xor_key key (swap_key d.p_bus_key)) d
    on_title_key-Keeps pos (some key) false d = after_reset pos d
    on_title_key-Keeps pos none ok d = after_reset pos d

    classic_title_key-Keeps :
        (pos : ℕ) (d : Dvdcss) → Keeps d (classic_title_key drive crack_disc_key pos d)
    unfolding classic_title_key ioctl_read_title_key get_asf issue
    classic_title_key-Keeps pos d =
        let e = (get_bus_key drive d).1 in
        let granted = (get_bus_key drive d).0 in
        let asked = record e { log = report_asf ∷ read_title_key e.i_agid pos ∷ e.log } in
        let answer = drive.title_key (read_title_key e.i_agid pos ∷ e.log) in
        let checked =
          check_asf drive crack_disc_key (drive.asf asked.log) (granted && is_some answer) asked in
        let k = check_asf-KeepsTitles (drive.asf asked.log) (granted && is_some answer) asked in
        let seen =
          KeepsTitles-trans d e checked.1 (get_bus_key-KeepsTitles drive d)
            (record { titles = k.titles; scrambling = k.scrambling; ioctls = k.ioctls }) in
        Keeps-trans d checked.1 (on_title_key drive crack_disc_key pos answer checked.0 checked.1)
          seen (on_title_key-Keeps pos answer checked.0 checked.1)

    -- dvdcss_titlekey returns with a drive that reads whole blocks of bytes, whatever else it
    -- answers, and leaves the list of titles and the flags b_scrambled and b_ioctls as they were.
    pub dvdcss_titlekey-Keeps :
        (pos : ℕ) (d : Dvdcss) → Keeps d (dvdcss_titlekey drive crack_disc_key pos d)
    unfolding dvdcss_titlekey
    dvdcss_titlekey-Keeps pos d =
        elim (Bool-cases (d.b_ioctls && uses_disc_key drive crack_disc_key d.method)) [
          | inl e ↦ rw (e) (classic_title_key-Keeps pos d)
          | inr e ↦ rw (e) (crack_instead-Keeps pos d)
        ]
