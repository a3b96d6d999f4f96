-- ===== src/BusKey/Laws.antt =====
-- What `GetBusKey` of src/css.c has established when it returns, and what it leaves on a failure.
use libdvdcss.Common.{
  ℕ, zero, suc, ◌+◌, ◌≤◌, ◌<◌, Bool, true, false, Option, none, some, List, ◌∷◌, ◌≡◌, ◌≢◌, refl,
  ◌⊎◌, inl, inr, ap, ◌∙◌, sym, Bool-cases, Option-cases, if-some, ◌==◌, ==_iff, ==→ne, arith,
  if◌then◌else◌,
}
use libdvdcss.Keys.{DvdKey}
use libdvdcss.DiscKey.{key_eq}
use libdvdcss.DiscKey.Laws.{key_eq→≡, ≡→key_eq}
use libdvdcss.CryptKey.{type_key1, type_key2, type_bus_key, crypt_key}
use libdvdcss.Dvdcss.{
  Dvdcss, Drive, Command, invalidate_agid, send_challenge, report_key1, report_challenge, send_key2,
  ioctl_invalidate_agid, ioctl_send_challenge, ioctl_report_key1, ioctl_report_challenge,
  ioctl_send_key2, issue,
}
use libdvdcss.BusKey.{
  get_bus_key, request_agid, authenticate, on_key1, on_variant, on_challenge, establish, give_up,
  swap_key, swap_challenge, host_challenge, find_variant, join_keys,
}
use libdvdcss.BusKey.Agid.{OnlyAgid, refused_log, request_agid_lem, Requested}

-- `variant` is the first one whose key for the host's challenge is `k`.
pub record FirstVariant (n i : ℕ) (k : DvdKey) (variant : ℕ) : Type 0 where
  pub from_i : i ≤ variant
  pub in_range : variant < i + n
  pub fits : crypt_key type_key1 variant host_challenge ≡ k
  pub is_first : (j : ℕ) → i ≤ j → j < variant → crypt_key type_key1 j host_challenge ≢ k

apart : (a b : DvdKey) → key_eq a b ≡ false → a ≢ b
apart a b e same = cc (sym e ∙ ≡→key_eq a b same)

find_variant_lem :
    (n i : ℕ) (k : DvdKey) (variant : ℕ)
    → find_variant n i k ≡ some variant
    → FirstVariant n i k variant
unfolding find_variant
find_variant_lem zero i k variant e = absurd (cc)
find_variant_lem (suc n) i k variant e =
    let key_of = λ (j : ℕ). crypt_key type_key1 j host_challenge in
    elim (if-some (key_eq (key_of i) k) i (find_variant n (i + 1) k) variant e) [
      | inl (fits, same) ↦ record {
        from_i = omega arith;
        in_range = omega arith;
        fits = ap key_of (sym same) ∙ key_eq→≡ (key_of i) k fits;
        is_first = λ j lo hi. absurd (omega arith);
      }
      | inr (differs, later) ↦
          let v = find_variant_lem n (i + 1) k variant later in
          record {
            from_i = omega (arith, v.from_i);
            in_range = omega (arith, v.in_range);
            fits = v.fits;
            is_first = λ j lo hi. elim (Bool-cases (i == j)) [
              | inl here ↦ λ p. apart (key_of i) k differs (ap key_of ((==_iff i j).0 here) ∙ p)
              | inr on ↦ v.is_first j (omega (arith, ==→ne i j on)) hi
            ];
          }
    ]

-- The logs of an authentication with AGID `a`, after each command.
module _ (a : ℕ) (log : List Command) where
  abbrev pub challenge_log : List Command
  challenge_log = send_challenge a (swap_challenge host_challenge) ∷ log

  abbrev pub key1_log : List Command
  key1_log = report_key1 a ∷ challenge_log

  abbrev pub report_log : List Command
  report_log = report_challenge a ∷ key1_log

  abbrev pub key2_log : DvdKey → List Command
  key2_log k2 = send_key2 a (swap_key k2) ∷ report_log

-- The drive has answered the host's challenge and has accepted the host's answer to its own, under
-- one variant; the bus key is that of the variant and the two keys.
pub record Established (drive : Drive) (d d' : Dvdcss) : Type 0 where
  pub variant : ℕ
  pub k1 : DvdKey
  pub buf : List ℕ
  pub accepted : drive.accepts_challenge (challenge_log d.i_agid d.log) ≡ true
  pub proved : drive.key1 (key1_log d.i_agid d.log) ≡ some k1
  pub variant_of : FirstVariant 32 0 (swap_key k1) variant
  pub asked : drive.challenge (report_log d.i_agid d.log) ≡ some buf
  pub accepts_host :
      drive.accepts_key2
        (key2_log d.i_agid d.log (crypt_key type_key2 variant (swap_challenge buf)))
      ≡ true
  pub bus_key_of : d' ≡ record d {
    p_bus_key =
        crypt_key type_bus_key variant
          (join_keys (swap_key k1) (crypt_key type_key2 variant (swap_challenge buf)));
    log = key2_log d.i_agid d.log (crypt_key type_key2 variant (swap_challenge buf));
  }

-- The AGID has been given back, by the last command, and all but the log is as before.
pub record Released (d d' : Dvdcss) : Type 0 where
  pub before : List Command
  pub released : d' ≡ record d { log = invalidate_agid d.i_agid ∷ before }

abbrev pub Outcome : Drive → Dvdcss → Bool × Dvdcss → Type 0
Outcome drive d (true, d') = Established drive d d'
Outcome drive d (false, d') = Released d d'

module _ (drive : Drive) (d : Dvdcss) where
  abbrev after : List Command → Dvdcss
  after log = record d { log = log }

  give_up_lem : (log : List Command) → Outcome drive d (give_up (after log))
  unfolding give_up ioctl_invalidate_agid issue
  give_up_lem log = record { before = log; released = refl }

  establish_lem :
      (variant : ℕ) (k1 : DvdKey) (buf : List ℕ)
      → drive.accepts_challenge (challenge_log d.i_agid d.log) ≡ true
      → drive.key1 (key1_log d.i_agid d.log) ≡ some k1
      → FirstVariant 32 0 (swap_key k1) variant
      → drive.challenge (report_log d.i_agid d.log) ≡ some buf
      → Outcome drive d (
          establish drive variant
            (swap_key k1)
            (crypt_key type_key2 variant (swap_challenge buf))
            (after (report_log d.i_agid d.log)))
  unfolding establish ioctl_send_key2 issue
  establish_lem variant k1 buf h1 h2 h3 h4 =
      let k2 = crypt_key type_key2 variant (swap_challenge buf) in
      elim (Bool-cases (drive.accepts_key2 (key2_log d.i_agid d.log k2))) [
        | inl e ↦ rw (e) (record {
          variant = variant;
          k1 = k1;
          buf = buf;
          accepted = h1;
          proved = h2;
          variant_of = h3;
          asked = h4;
          accepts_host = e;
          bus_key_of = refl;
        })
        | inr e ↦ rw (e) (give_up_lem (key2_log d.i_agid d.log k2))
      ]

  on_variant_lem :
      (k1 : DvdKey) (found : Option ℕ)
      → drive.accepts_challenge (challenge_log d.i_agid d.log) ≡ true
      → drive.key1 (key1_log d.i_agid d.log) ≡ some k1
      → find_variant 32 0 (swap_key k1) ≡ found
      → Outcome drive d (on_variant drive (swap_key k1) found (after (key1_log d.i_agid d.log)))
  unfolding on_variant on_challenge ioctl_report_challenge issue
  on_variant_lem k1 none h1 h2 h3 = give_up_lem (key1_log d.i_agid d.log)
  on_variant_lem k1 (some variant) h1 h2 h3 =
      elim (Option-cases (drive.challenge (report_log d.i_agid d.log))) [
        | inl e ↦ rw (e) (give_up_lem (report_log d.i_agid d.log))
        | inr (buf, e) ↦
            rw (e) (establish_lem variant k1 buf h1 h2 (find_variant_lem 32 0 _ _ h3) e)
      ]

  authenticate_lem : Outcome drive d (authenticate drive d)
  unfolding authenticate ioctl_send_challenge ioctl_report_key1 on_key1 issue
  authenticate_lem = elim (Bool-cases (drive.accepts_challenge (challenge_log d.i_agid d.log))) [
    | inl h1 ↦ elim (Option-cases (drive.key1 (key1_log d.i_agid d.log))) [
      | inl e ↦ rw (h1, e) (give_up_lem (key1_log d.i_agid d.log))
      | inr (k1, e) ↦ rw (h1, e) (on_variant_lem k1 _ h1 e refl)
    ]
    | inr h1 ↦ rw (h1) (give_up_lem (challenge_log d.i_agid d.log))
  ]

-- GetBusKey asks for an AGID at most five times, invalidating the AGIDs 0 to 3 in between. If the
-- drive refuses all five, it returns -1 and nothing else changes. If the drive gives an AGID, then
-- either GetBusKey returns 0, the drive has answered the host's challenge with the key of a
-- variant, the least one that gives that key, and has accepted the host's key, and the bus key is
-- that of the variant and the two keys; or it returns -1, its last command invalidates the AGID,
-- and nothing but the log has changed since the AGID was given.
pub get_bus_key_lem :
    (drive : Drive) (d : Dvdcss)
    → ((g : Dvdcss) × (drive.agid g.log ≡ some g.i_agid)
        × OnlyAgid d g
        × Outcome drive g (get_bus_key drive d))
      ⊎ (let (ok, d') = get_bus_key drive d in
          (ok ≡ false) × (drive.agid d'.log ≡ none) × (d'.log ≡ refused_log d.log) × OnlyAgid d d')
unfolding get_bus_key
get_bus_key_lem drive d =
    let (requested, frame) = request_agid_lem drive d in
    granted_or_refused (request_agid drive d).0 (request_agid drive d).1 requested frame
  where
    granted_or_refused :
        (ok : Bool) (g : Dvdcss)
        → Requested drive ok g (refused_log d.log)
        → OnlyAgid d g
        → ((g' : Dvdcss) × (drive.agid g'.log ≡ some g'.i_agid)
            × OnlyAgid d g'
            × Outcome drive g' (if ok then authenticate drive g else (false, g)))
          ⊎ (let (ok', d') = if ok then authenticate drive g else (false, g) in
              (ok' ≡ false)
              × (drive.agid d'.log ≡ none)
              × (d'.log ≡ refused_log d.log)
              × OnlyAgid d d')
    granted_or_refused true g requested frame = inl (g, requested, frame, authenticate_lem drive g)
    granted_or_refused false g requested frame = inr (refl, requested.0, requested.1, frame)
