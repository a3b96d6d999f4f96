-- ===== src/BusKey/Agree.antt =====
-- `GetBusKey` of src/css.c with a drive that keeps to the protocol.
use libdvdcss.Common.{
  ℕ, zero, suc, ◌+◌, ◌<◌, Bool, true, false, Option, none, some, List, ◌∷◌, ◌≡◌, refl, all_below,
  all_below_sound, ◌∙◌, Option-cases, Bool-cases, inl, inr, ==→ne, ◌≤◌, arith, ◌==◌, ==_iff, ap,
  sym,
}
use libdvdcss.Keys.{DvdKey}
use libdvdcss.Tables.Crypt.{crypt_tab0, crypt_tab1, crypt_tab2, crypt_tab3}
use libdvdcss.CryptKey.{type_key1, type_key2, type_bus_key, crypt_key}
use libdvdcss.CryptKey.{
  css_variant, scratch, scratch_key, seed_bytes, first_registers, lfsr0_o, lfsr1_o, shift_bit,
  not_bit, combined, next_registers, after_bits, gather, fill_bits, p_bits, i_cse, mix_index,
  mix_byte, mix_twice, mix_pass, fold_first, mix_key,
}
use libdvdcss.Dvdcss.{
  Dvdcss, Drive, Command, report_agid, invalidate_agid, send_challenge, report_key1, send_key2,
  ioctl_invalidate_agid, ioctl_send_challenge, ioctl_report_key1, ioctl_report_challenge,
  ioctl_send_key2, ioctl_report_agid, issue, is_some,
}
use libdvdcss.BusKey.Agid.{request_agid_lem}
use libdvdcss.BusKey.{
  get_bus_key, request_agid, retry_agid, authenticate, on_key1, on_variant, on_challenge, establish,
  swap_key, swap_challenge, host_challenge, find_variant, join_keys,
}

abbrev is_variant : ℕ → Option ℕ → Bool
is_variant variant none = false
is_variant variant (some found) = found == variant

-- The keys of the 32 variants for the host's challenge differ.
variants_differ :
    all_below 32 (λ v. is_variant v (find_variant 32 0 (crypt_key type_key1 v host_challenge)))
    ≡ true
unfolding all_below find_variant crypt_key css_variant scratch scratch_key seed_bytes
    first_registers lfsr0_o lfsr1_o shift_bit not_bit combined next_registers after_bits gather
    fill_bits p_bits i_cse mix_index mix_byte mix_twice mix_pass fold_first mix_key crypt_tab0
    crypt_tab1 crypt_tab2 crypt_tab3
variants_differ = refl

-- A drive that holds the CSS secrets under `variant`, challenges the host with `nonce`, and gives an
-- AGID once the authentication that hangs under AGID `hung` has been invalidated.
pub record KeepsProtocol (drive : Drive) (variant hung : ℕ) (nonce : List ℕ) : Type 0 where
  pub grants :
      (log : List Command) → is_some (drive.agid (report_agid ∷ invalidate_agid hung ∷ log)) ≡ true
  pub accepts : (log : List Command) → drive.accepts_challenge log ≡ true
  pub proves :
      (a : ℕ) (sent : List ℕ) (log : List Command)
      → drive.key1 (report_key1 a ∷ send_challenge a sent ∷ log)
        ≡ some (swap_key (crypt_key type_key1 variant (swap_challenge sent)))
  pub challenges : (log : List Command) → drive.challenge log ≡ some nonce
  pub checks :
      (a : ℕ) (log : List Command)
      → drive.accepts_key2
          (send_key2 a (swap_key (crypt_key type_key2 variant (swap_challenge nonce))) ∷ log)
        ≡ true

-- The bus key as the drive computes it.
abbrev pub drive_bus_key : ℕ → List ℕ → DvdKey
drive_bus_key variant nonce = crypt_key type_bus_key variant (
    join_keys (crypt_key type_key1 variant host_challenge)
      (crypt_key type_key2 variant (swap_challenge nonce)))

find_variant-own :
    (variant : ℕ)
    → variant < 32
    → find_variant 32 0 (crypt_key type_key1 variant host_challenge) ≡ some variant
find_variant-own variant h =
    let own =
      all_below_sound 32
        (λ v. is_variant v (find_variant 32 0 (crypt_key type_key1 v host_challenge))) variant
        variants_differ h in
    elim (Option-cases (find_variant 32 0 (crypt_key type_key1 variant host_challenge))) [
      | inl e ↦ absurd (cc (sym own ∙ ap (is_variant variant) e))
      | inr (found, e) ↦
          e ∙ ap some ((==_iff found variant).0 (sym (ap (is_variant variant) e) ∙ own))
    ]

retry_agid-granted :
    (drive : Drive) (n i : ℕ) (ok : Bool) (d : Dvdcss)
    → ok ≡ true
    → (retry_agid drive n i ok d).0 ≡ true
unfolding retry_agid
retry_agid-granted drive zero i ok d e = e
retry_agid-granted drive (suc n) i true d e = refl
retry_agid-granted drive (suc n) i false d e = absurd (cc)

module _ (drive : Drive) (hung : ℕ)
    (grants : (log : List Command)
      → is_some (drive.agid (report_agid ∷ invalidate_agid hung ∷ log)) ≡ true) where
  retry_agid-reaches :
      (n i : ℕ) (ok : Bool) (d : Dvdcss)
      → i ≤ hung
      → hung < i + n
      → (retry_agid drive n i ok d).0 ≡ true
  unfolding retry_agid ioctl_report_agid ioctl_invalidate_agid issue
  retry_agid-reaches zero i ok d lo hi = absurd (omega arith)
  retry_agid-reaches (suc n) i true d lo hi = refl
  retry_agid-reaches (suc n) i false d lo hi = elim (Bool-cases (i == hung)) [
    | inl here ↦ retry_agid-granted drive n (i + 1) _ _ (
        ap (λ (j : ℕ). is_some (drive.agid (report_agid ∷ invalidate_agid j ∷ d.log)))
          ((==_iff i hung).0 here)
        ∙ grants d.log)
    | inr on ↦ retry_agid-reaches n (i + 1) _ _ (omega (arith, ==→ne i hung on)) (omega arith)
  ]

  request_agid-reaches : (d : Dvdcss) → hung < 4 → (request_agid drive d).0 ≡ true
  unfolding request_agid
  request_agid-reaches d h = retry_agid-reaches 4 0 _ _ (omega arith) h

module _ (drive : Drive) (variant hung : ℕ) (nonce : List ℕ)
    (keeps : KeepsProtocol drive variant hung nonce) (variant_in : variant < 32) where
  authenticate_agrees :
      (d : Dvdcss)
      → let (ok, d') = authenticate drive d in
        (ok ≡ true) × (d'.p_bus_key ≡ drive_bus_key variant nonce) × (d'.p_disc_key ≡ d.p_disc_key)
  unfolding authenticate ioctl_send_challenge ioctl_report_key1 on_key1 on_variant on_challenge
      ioctl_report_challenge establish ioctl_send_key2 issue swap_key swap_challenge
  authenticate_agrees d =
      rw
        (
          keeps.accepts,
          keeps.proves,
          find_variant-own variant variant_in,
          keeps.challenges,
          keeps.checks,
        )
        (refl, refl, refl)

  -- GetBusKey succeeds with a drive that keeps to the protocol under a variant below 32, even when
  -- an authentication hangs under one of the AGIDs 0 to 3, and host and drive then hold the same
  -- bus key; the disc key is as before.
  pub get_bus_key_agrees :
      (d : Dvdcss)
      → hung < 4
      → let (ok, d') = get_bus_key drive d in
        (ok ≡ true) × (d'.p_bus_key ≡ drive_bus_key variant nonce) × (d'.p_disc_key ≡ d.p_disc_key)
  unfolding get_bus_key
  get_bus_key_agrees d h =
      let granted = (request_agid drive d).1 in
      let frame = ap (λ (x : Dvdcss). x.p_disc_key) (request_agid_lem drive d).1 in
      let (ok, bus, disc) = authenticate_agrees granted in
      rw (request_agid-reaches drive hung keeps.grants d h) (ok, bus, disc ∙ frame)
