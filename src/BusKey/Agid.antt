-- ===== src/BusKey/Agid.antt =====
-- How `GetBusKey` of src/css.c obtains an AGID.
use libdvdcss.Common.{
  ℕ, zero, suc, ◌+◌, Bool, true, false, Option, none, some, List, ◌∷◌, ◌≡◌, refl, ap, ◌∙◌,
}
use mathlib.Core.Path.{subst}
use libdvdcss.Dvdcss.{
  Dvdcss, Drive, Command, report_agid, invalidate_agid, ioctl_report_agid, ioctl_invalidate_agid,
  issue, set_agid, is_some,
}
use libdvdcss.BusKey.{request_agid, retry_agid}

-- Only the AGID and the log differ.
abbrev pub OnlyAgid : Dvdcss → Dvdcss → Type 0
OnlyAgid d d' = d' ≡ record d { i_agid = d'.i_agid; log = d'.log }

pub OnlyAgid-trans : (d e f : Dvdcss) → OnlyAgid d e → OnlyAgid e f → OnlyAgid d f
OnlyAgid-trans d e f p q = q ∙ ap (λ (x : Dvdcss). record x { i_agid = f.i_agid; log = f.log }) p

-- What is known after asking: the drive has given the AGID, or none.
abbrev pub Asked : Drive → Bool → Dvdcss → Type 0
Asked drive true d = drive.agid d.log ≡ some d.i_agid
Asked drive false d = drive.agid d.log ≡ none

ask_with :
    (drive : Drive) (d : Dvdcss) (answer : Option ℕ)
    → drive.agid d.log ≡ answer
    → Asked drive (is_some answer) (set_agid answer d)
      × OnlyAgid d (set_agid answer d)
      × ((set_agid answer d).log ≡ d.log)
unfolding set_agid is_some
ask_with drive d none e = (e, refl, refl)
ask_with drive d (some agid) e = (e, refl, refl)

ioctl_report_agid_lem :
    (drive : Drive) (d : Dvdcss)
    → let (ok, d') = ioctl_report_agid drive d in
      Asked drive ok d' × OnlyAgid d d' × (d'.log ≡ report_agid ∷ d.log)
unfolding ioctl_report_agid issue
ioctl_report_agid_lem drive d =
    let asked = record d { log = report_agid ∷ d.log } in
    let (a, b, c) = ask_with drive asked (drive.agid asked.log) refl in (a, b, c)

-- The log after `n` rounds that were all refused.
abbrev pub retries : (n i : ℕ) → List Command → List Command
retries zero i log = log
retries (suc n) i log = retries n (i + 1) (report_agid ∷ invalidate_agid i ∷ log)

-- The outcome of asking: on a refusal, the log.
abbrev pub Requested : Drive → Bool → Dvdcss → List Command → Type 0
Requested drive true d log = drive.agid d.log ≡ some d.i_agid
Requested drive false d log = (drive.agid d.log ≡ none) × (d.log ≡ log)

retry_agid_lem :
    (drive : Drive) (n i : ℕ) (ok : Bool) (d : Dvdcss)
    → Asked drive ok d
    → let (ok', d') = retry_agid drive n i ok d in
      Requested drive ok' d' (retries n i d.log) × OnlyAgid d d'
unfolding retry_agid ioctl_invalidate_agid issue
retry_agid_lem drive zero i true d h = (h, refl)
retry_agid_lem drive zero i false d h = ((h, refl), refl)
retry_agid_lem drive (suc n) i true d h = (h, refl)
retry_agid_lem drive (suc n) i false d h =
    let e = record d { i_agid = i; log = invalidate_agid i ∷ d.log } in
    let (asked, frame, log) = ioctl_report_agid_lem drive e in
    let next = ioctl_report_agid drive e in
    let last = retry_agid drive n (i + 1) next.0 next.1 in
    let (requested, frames) = retry_agid_lem drive n (i + 1) next.0 next.1 asked in
    (
      subst (λ (l : List Command). Requested drive last.0 last.1 (retries n (i + 1) l)) log
          requested,
      OnlyAgid-trans d e last.1 refl (OnlyAgid-trans e next.1 last.1 frame frames),
    )

-- The log of a request that is refused five times.
abbrev pub refused_log : List Command → List Command
refused_log log = retries 4 0 (report_agid ∷ log)

pub request_agid_lem :
    (drive : Drive) (d : Dvdcss)
    → let (ok, d') = request_agid drive d in
      Requested drive ok d' (refused_log d.log) × OnlyAgid d d'
unfolding request_agid
request_agid_lem drive d =
    let (asked, frame, log) = ioctl_report_agid_lem drive d in
    let next = ioctl_report_agid drive d in
    let last = retry_agid drive 4 0 next.0 next.1 in
    let (requested, frames) = retry_agid_lem drive 4 0 next.0 next.1 asked in
    (
      subst (λ (l : List Command). Requested drive last.0 last.1 (retries 4 0 l)) log requested,
      OnlyAgid-trans d next.1 last.1 frame frames,
    )
