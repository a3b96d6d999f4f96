-- ===== src/TitleKeys/Kept.antt =====
-- What `GetBusKey` and `CrackTitleKey` of src/css.c leave alone: the list of titles, whether the disc
-- is scrambled and whether there are ioctls.
use libdvdcss.Common.{
  ℕ, zero, suc, Bool, true, false, not, ◌&&◌, Option, none, some, List, ◌∷◌, ◌≡◌, refl, sym, ◌∙◌,
  ap, inl, inr, Bool-cases, ◌==◌,
}
use libdvdcss.Keys.{DvdKey}
use libdvdcss.Dvdcss.{Dvdcss, Drive, issue, pf_seek, pf_read, seek, read}
use libdvdcss.BusKey.{get_bus_key}
use libdvdcss.BusKey.Laws.{Outcome, get_bus_key_lem}
use libdvdcss.CrackTitle.{
  Crack, attack_block, count_block, on_block, on_error, on_read, crack_pass, goes_on, crack_loop,
  is_pack, can_be_scrambled,
}
use libdvdcss.TitleKeys.{keep_disc_key}

-- The list of titles and the two flags are the same.
pub record KeepsTitles (d d' : Dvdcss) : Type 0 where
  pub titles : d'.p_titles ≡ d.p_titles
  pub scrambling : d'.b_scrambled ≡ d.b_scrambled
  pub ioctls : d'.b_ioctls ≡ d.b_ioctls

pub KeepsTitles-trans : (d e f : Dvdcss) → KeepsTitles d e → KeepsTitles e f → KeepsTitles d f
KeepsTitles-trans d e f p q = record {
  titles = q.titles ∙ p.titles;
  scrambling = q.scrambling ∙ p.scrambling;
  ioctls = q.ioctls ∙ p.ioctls;
}

pub equal_state : (d d' e : Dvdcss) → d' ≡ e → KeepsTitles d e → KeepsTitles d d'
equal_state d d' e p k = record {
  titles = ap (λ (x : Dvdcss). x.p_titles) p ∙ k.titles;
  scrambling = ap (λ (x : Dvdcss). x.b_scrambled) p ∙ k.scrambling;
  ioctls = ap (λ (x : Dvdcss). x.b_ioctls) p ∙ k.ioctls;
}

pub Outcome-KeepsTitles :
    (drive : Drive) (d : Dvdcss) (r : Bool × Dvdcss) → Outcome drive d r → KeepsTitles d r.1
Outcome-KeepsTitles drive d (true, d') o =
    equal_state d d' _ o.bus_key_of (record { titles = refl; scrambling = refl; ioctls = refl })
Outcome-KeepsTitles drive d (false, d') o =
    equal_state d d' _ o.released (record { titles = refl; scrambling = refl; ioctls = refl })

pub get_bus_key-KeepsTitles : (drive : Drive) (d : Dvdcss) → KeepsTitles d (get_bus_key drive d).1
get_bus_key-KeepsTitles drive d = elim (get_bus_key_lem drive d) [
  | inl (g, asked, only, outcome) ↦
      KeepsTitles-trans d g (get_bus_key drive d).1
        (equal_state d g _ only (record { titles = refl; scrambling = refl; ioctls = refl }))
        (Outcome-KeepsTitles drive g (get_bus_key drive d) outcome)
  | inr (failed, refused, log, only) ↦
      equal_state d (get_bus_key drive d).1 _ only
        (record { titles = refl; scrambling = refl; ioctls = refl })
]

pub keep_disc_key-KeepsTitles : (r : Bool × DvdKey) (d : Dvdcss) → KeepsTitles d (keep_disc_key r d)
unfolding keep_disc_key
keep_disc_key-KeepsTitles (true, key) d = record { titles = refl; scrambling = refl; ioctls = refl }
keep_disc_key-KeepsTitles (false, key) d = record {
  titles = refl;
  scrambling = refl;
  ioctls = refl;
}

pub on_block-KeepsTitles : (buf : List ℕ) (s : Crack) → KeepsTitles s.state (on_block buf s).1.state
unfolding on_block count_block attack_block
on_block-KeepsTitles buf s = elim (Bool-cases (is_pack buf)) [
  | inr e ↦ rw (e) (record { titles = refl; scrambling = refl; ioctls = refl })
  | inl e ↦ elim (Bool-cases (can_be_scrambled buf)) [
    | inl f ↦ rw (e, f) (record { titles = refl; scrambling = refl; ioctls = refl })
    | inr f ↦ rw (e, f) (record { titles = refl; scrambling = refl; ioctls = refl })
  ]
]

pub on_read-KeepsTitles :
    (answer : Option (ℕ × List ℕ)) (s : Crack) → KeepsTitles s.state (on_read answer s).1.state
unfolding on_read on_error issue
on_read-KeepsTitles none s = elim (Bool-cases s.read_error) [
  | inl e ↦ rw (e) (record { titles = refl; scrambling = refl; ioctls = refl })
  | inr e ↦ rw (e) (record { titles = refl; scrambling = refl; ioctls = refl })
]
on_read-KeepsTitles (some (n, buf)) s = elim (Bool-cases (n == 0)) [
  | inl e ↦ rw (e) (record { titles = refl; scrambling = refl; ioctls = refl })
  | inr e ↦ rw (e) (on_block-KeepsTitles buf s)
]

pub crack_pass-KeepsTitles :
    (drive : Drive) (s : Crack) → KeepsTitles s.state (crack_pass drive s).1.state
unfolding crack_pass pf_seek pf_read issue
crack_pass-KeepsTitles drive s =
    let asked = record s.state { log = read 1 ∷ seek s.pos ∷ s.state.log } in
    let next = on_read-KeepsTitles (drive.blocks asked.log) (record s { state = asked }) in
    record { titles = next.titles; scrambling = next.scrambling; ioctls = next.ioctls }

pub equal_crack : (s s' : Crack) → some s ≡ some s' → KeepsTitles s.state s'.state
equal_crack s s' e =
    let same : s' ≡ s = cc in
    equal_state s.state s'.state s.state (ap (λ (x : Crack). x.state) same)
      (record { titles = refl; scrambling = refl; ioctls = refl })

pub crack_loop-KeepsTitles :
    (drive : Drive) (fuel : ℕ) (s s' : Crack)
    → crack_loop drive fuel s ≡ some s'
    → KeepsTitles s.state s'.state
unfolding crack_loop crack_pass on_read pf_read
crack_loop-KeepsTitles drive zero s s' e = absurd (cc)
crack_loop-KeepsTitles drive (suc fuel) s s' e =
    let next = (crack_pass drive s).1 in
    let first = crack_pass-KeepsTitles drive s in
    elim (Bool-cases (not (crack_pass drive s).0 && goes_on next)) [
      | inl on ↦
          let step : crack_loop drive (suc fuel) s ≡ crack_loop drive fuel next = rw (on) refl in
          KeepsTitles-trans s.state next.state s'.state first
            (crack_loop-KeepsTitles drive fuel next s' (sym step ∙ e))
      | inr off ↦
          let step : crack_loop drive (suc fuel) s ≡ some next = rw (off) refl in
          KeepsTitles-trans s.state next.state s'.state first (equal_crack next s' (sym step ∙ e))
    ]
