-- ===== src/Device/DefaultDrive.antt =====
-- The default drive of `dvdcss_check_device` in src/device.c, and how `dvdcss_open_device` opens it.
use libdvdcss.Common.{
  ℕ, zero, suc, ◌+◌, ◌≤◌, ◌<◌, Bool, true, false, none, some, [], ◌∷◌, ◌≡◌, refl, sym, ap, ◌∙◌, ◌⊎◌,
  inl, inr, Bool-cases, arith, ◌==◌, ==_iff, ==→ne,
}
use libdvdcss.Cache.{windows, is_empty}
use libdvdcss.Device.Choice.{
  Drives, Openings, win2k_calls, libc_calls, first_letter, in_mask, default_device, or_same,
  dvdcss_check_device, is_drive_name, choose_calls, dvdcss_open_device,
}

-- `j` is the first letter from `i` on for which the test holds.
pub record IsFirst (is_disc_drive : ℕ → Bool) (n i j : ℕ) : Type 0 where
  pub from_i : i ≤ j
  pub in_range : j < i + n
  pub holds : is_disc_drive j ≡ true
  pub before : (k : ℕ) → i ≤ k → k < j → is_disc_drive k ≡ false

first_letter_lem :
    (f : ℕ → Bool) (n i : ℕ)
    → ((j : ℕ) × (first_letter f n i ≡ some ((b'A' + j) ∷ b':' ∷ [])) × IsFirst f n i j)
      ⊎ ((first_letter f n i ≡ none) × ((k : ℕ) → i ≤ k → k < i + n → f k ≡ false))
unfolding first_letter
first_letter_lem f zero i = inr (refl, λ k lo hi. absurd (omega arith))
first_letter_lem f (suc n) i = elim (Bool-cases (f i)) [
  | inl e ↦ rw (e) (
      inl (
        i,
        refl,
        record {
          from_i = omega arith;
          in_range = omega arith;
          holds = e;
          before = λ k lo hi. absurd (omega arith);
        },
      ))
  | inr e ↦ elim (first_letter_lem f n (i + 1)) [
    | inl (j, found, first) ↦ rw (e) (
        inl (
          j,
          found,
          record {
            from_i = omega (arith, first.from_i);
            in_range = omega (arith, first.in_range);
            holds = first.holds;
            before = λ k lo hi. elim (Bool-cases (i == k)) [
              | inl here ↦ sym (ap f ((==_iff i k).0 here)) ∙ e
              | inr on ↦ first.before k (omega (arith, ==→ne i k on)) hi
            ];
          },
        ))
    | inr (nothing, all) ↦ rw (e) (
        inr (
          nothing,
          λ k lo hi. elim (Bool-cases (i == k)) [
            | inl here ↦ sym (ap f ((==_iff i k).0 here)) ∙ e
            | inr on ↦ all k (omega (arith, ==→ne i k on)) (omega arith)
          ],
        ))
  ]
]

-- On Windows, without a name, a stream or DVDCSS_RAW_DEVICE: if one of the 32 logical drives is a
-- disc drive, dvdcss_check_device chooses the letter of the first such, and dvdcss_open_device opens
-- it as a drive and not as a file. If none is, the name stays empty, and is opened as a file.
pub default_drive_lem :
    (d : Drives) (o : Openings)
    → let name = dvdcss_check_device windows d false [] in
      ((j : ℕ) × (name ≡ (b'A' + j) ∷ b':' ∷ [])
        × IsFirst (in_mask d.logical_drives d.is_cdrom) 32 0 j
        × ((dvdcss_open_device windows o false none name).0 ≡ win2k_calls))
      ⊎ ((name ≡ [])
          × ((k : ℕ) → k < 32 → in_mask d.logical_drives d.is_cdrom k ≡ false)
          × ((dvdcss_open_device windows o false none name).0 ≡ libc_calls))
unfolding dvdcss_check_device default_device or_same dvdcss_open_device choose_calls is_drive_name
    is_empty
default_drive_lem d o = elim (first_letter_lem (in_mask d.logical_drives d.is_cdrom) 32 0) [
  | inl (j, found, first) ↦ rw (found) (inl (j, refl, first, refl))
  | inr (nothing, all) ↦ rw (nothing) (inr (refl, λ k hi. all k (omega arith) (omega arith), refl))
]
