-- ===== src/Opening/Tested.antt =====
-- The test of the disc in `dvdcss_open_common` of src/libdvdcss.c: whether the disc counts as
-- scrambled, and whether the ioctls are used.
use libdvdcss.Common.{
  ℕ, Bool, true, false, not, ◌&&◌, Option, none, some, List, ◌∷◌, ◌≡◌, refl, sym, ap, ◌∙◌, inl, inr,
  Bool-cases, arith, ◌==◌, if◌then◌else◌,
}
use mathlib.Core.Path.{subst}
use libdvdcss.Keys.{DvdKey}
use libdvdcss.Dvdcss.{Dvdcss, Drive, DvdTitle, read_copyright, report_rpc, is_some, issue}
use libdvdcss.TitleKeys.{dvdcss_test, on_copyright, judge, judge_rpc}
use libdvdcss.Opening.{on_test, test_disc}

-- A drive that reports no copyright protection.
unfoldable pub reports_clear : Option ℕ → Bool
reports_clear none = false
reports_clear (some copyright) = copyright == 0

judge_lem :
    (copyright rpc rpc_type : ℕ) (d : Dvdcss)
    → d.b_scrambled ≡ true
    → ((on_test (judge copyright rpc rpc_type) d).b_scrambled ≡ not (copyright == 0))
      × ((on_test (judge copyright rpc rpc_type) d).b_ioctls ≡ d.b_ioctls)
      × ((on_test (judge copyright rpc rpc_type) d).p_titles ≡ d.p_titles)
unfolding judge on_test
judge_lem copyright rpc rpc_type d worst =
    elim (Bool-cases (not (copyright == 0) && (rpc == 1 && rpc_type == 0))) [
      | inl locked ↦
          let protected : not (copyright == 0) ≡ true = ground arith in
          rw (locked) (worst ∙ sym protected, refl, refl)
      | inr free ↦ elim (Bool-cases (copyright == 0)) [
        | inl clear ↦ rw (free, clear) (refl, refl, refl)
        | inr protected ↦ rw (free, protected) (refl, refl, refl)
      ]
    ]

-- What is known after a test of a disc whose copyright information is `answer`, with the ioctls or
-- without.
abbrev pub Tested : Bool → Option ℕ → List DvdTitle → Dvdcss → Type 0
Tested uses answer titles e =
    (e.b_scrambled ≡ not (uses && reports_clear answer))
    × (e.b_ioctls ≡ (uses && is_some answer))
    × (e.p_titles ≡ titles)

module _ (drive : Drive) where
  judge_rpc_lem :
      (copyright : ℕ) (rpc : Option (ℕ × ℕ × ℕ)) (d : Dvdcss)
      → d.b_scrambled ≡ true
      → d.b_ioctls ≡ true
      → Tested true (some copyright) d.p_titles (on_test (judge_rpc copyright rpc) d)
  unfolding judge_rpc reports_clear is_some
  judge_rpc_lem copyright none d worst uses =
      let (s, i, t) = judge_lem copyright 0 0 d worst in (s, i ∙ uses, t)
  judge_rpc_lem copyright (some (rpc_type, mask, rpc)) d worst uses =
      let (s, i, t) = judge_lem copyright rpc rpc_type d worst in (s, i ∙ uses, t)

  on_copyright_lem :
      (answer : Option ℕ) (d : Dvdcss)
      → d.b_scrambled ≡ true
      → d.b_ioctls ≡ true
      → let (result, d') = on_copyright drive answer d in
        Tested true answer d.p_titles (on_test result d')
  unfolding on_copyright on_test reports_clear is_some issue
  on_copyright_lem none d worst uses = (worst, refl, refl)
  on_copyright_lem (some copyright) d worst uses =
      let asked = record d { log = report_rpc ∷ d.log } in
      judge_rpc_lem copyright (drive.rpc asked.log) asked worst uses

module _ (drive : Drive) (crack_disc_key : DvdKey → Bool × DvdKey) where
  pub test_disc_lem :
      (uses : Bool) (d : Dvdcss)
      → d.b_scrambled ≡ true
      → d.b_ioctls ≡ uses
      → Tested uses
          (drive.copyright (read_copyright ∷ d.log))
          d.p_titles
          (test_disc drive crack_disc_key d)
  unfolding test_disc dvdcss_test issue
  test_disc_lem true d worst uses =
      let asked = record d { log = read_copyright ∷ d.log } in
      let answer = drive.copyright asked.log in
      let tested =
        on_test (on_copyright drive answer asked).0 (on_copyright drive answer asked).1 in
      subst (Tested true answer d.p_titles) (sym (ap (λ (b : Bool). if b then tested else d) uses))
        (on_copyright_lem drive answer asked worst uses)
  test_disc_lem false d worst uses =
      let asked = record d { log = read_copyright ∷ d.log } in
      let answer = drive.copyright asked.log in
      let tested =
        on_test (on_copyright drive answer asked).0 (on_copyright drive answer asked).1 in
      subst (Tested false answer d.p_titles) (sym (ap (λ (b : Bool). if b then tested else d) uses))
        (worst, uses, refl)
