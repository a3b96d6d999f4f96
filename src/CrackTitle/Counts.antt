-- ===== src/CrackTitle/Counts.antt =====
-- The counters of `CrackTitleKey` of src/css.c, against what the drive has answered to its reads.
use libdvdcss.Common.{
  ℕ, suc, zero, ◌+◌, Bool, true, false, not, ◌&&◌, Option, none, some, List, [], ◌∷◌, ◌≡◌, refl,
  sym, ◌∙◌, inl, inr, Bool-cases, Option-cases, ◌==◌, arith, ap, ap₂,
}
use mathlib.Core.Path.{subst}
use libdvdcss.Dvdcss.{Drive, Command, read, seek, pf_seek, pf_read, issue}
use libdvdcss.CrackTitle.{
  Crack, is_pack, can_be_scrambled, attack_block, count_block, on_block, on_error, on_read,
  crack_pass, goes_on, crack_loop,
}

abbrev pub one_if : Bool → ℕ
one_if true = 1
one_if false = 0

-- An answer with a block of a kind.
abbrev pub gives_block : (List ℕ → Bool) → Option (ℕ × List ℕ) → ℕ
gives_block kind none = 0
gives_block kind (some (n, buf)) = one_if (not (n == 0) && kind buf)

-- The reads of a log that gave a block of a kind.
abbrev pub blocks_read : Drive → (List ℕ → Bool) → List Command → ℕ
blocks_read drive kind [] = 0
blocks_read drive kind (read n ∷ log) =
    gives_block kind (drive.blocks (read n ∷ log)) + blocks_read drive kind log
blocks_read drive kind (command ∷ log) = blocks_read drive kind log

abbrev pub is_encrypted : List ℕ → Bool
is_encrypted buf = is_pack buf && can_be_scrambled buf

-- Since the log `before`, `i_reads` counts the blocks with the start of a pack, and `i_encrypted`
-- those of them that can be scrambled.
pub record Counts (drive : Drive) (before : List Command) (s : Crack) : Type 0 where
  pub reads_of : s.reads + blocks_read drive is_pack before ≡ blocks_read drive is_pack s.state.log
  pub encrypted_of :
      s.encrypted + blocks_read drive is_encrypted before
      ≡ blocks_read drive is_encrypted s.state.log

module _ (drive : Drive) (before : List Command) where
  on_block-Counts :
      (buf : List ℕ) (s : Crack) (log : List Command)
      → s.reads + blocks_read drive is_pack before ≡ blocks_read drive is_pack log
      → s.encrypted + blocks_read drive is_encrypted before ≡ blocks_read drive is_encrypted log
      → blocks_read drive is_pack s.state.log ≡ one_if (is_pack buf) + blocks_read drive is_pack log
      → blocks_read drive is_encrypted s.state.log
        ≡ one_if (is_encrypted buf) + blocks_read drive is_encrypted log
      → Counts drive before (on_block buf s).1
  unfolding on_block count_block attack_block
  on_block-Counts buf s log r e r' e' =
      let packs = blocks_read drive is_pack log in
      let flagged = blocks_read drive is_encrypted log in
      elim (Bool-cases (is_pack buf)) [
        | inr other ↦
            let r'' = ap (λ (b : Bool). one_if b + packs) other in
            let e'' = ap (λ (b : Bool). one_if (b && can_be_scrambled buf) + flagged) other in
            rw (other) (record {
              reads_of = omega (arith, r, r', r'');
              encrypted_of = omega (arith, e, e', e'');
            })
        | inl pack ↦
            let r'' = ap (λ (b : Bool). one_if b + packs) pack in
            elim (Bool-cases (can_be_scrambled buf)) [
              | inl f ↦
                  let e'' = ap₂ (λ (a b : Bool). one_if (a && b) + flagged) pack f in
                  rw (pack, f)
                    (record {
                      reads_of = omega (arith, r, r', r'');
                      encrypted_of = omega (arith, e, e', e'');
                    })
              | inr f ↦
                  let e'' = ap₂ (λ (a b : Bool). one_if (a && b) + flagged) pack f in
                  rw (pack, f)
                    (record {
                      reads_of = omega (arith, r, r', r'');
                      encrypted_of = omega (arith, e, e', e'');
                    })
            ]
      ]

  crack_pass-Counts :
      (s : Crack) → Counts drive before s → Counts drive before (crack_pass drive s).1
  unfolding crack_pass pf_seek pf_read issue on_read on_error
  crack_pass-Counts s v =
      let log = read 1 ∷ seek s.pos ∷ s.state.log in
      elim (Option-cases (drive.blocks log)) [
        | inl e ↦
            let r = ap (gives_block is_pack) e in
            let x = ap (gives_block is_encrypted) e in
            elim (Bool-cases s.read_error) [
              | inl again ↦
                  rw (e, again)
                    (record {
                      reads_of = omega (arith, v.reads_of, r);
                      encrypted_of = omega (arith, v.encrypted_of, x);
                    })
              | inr first ↦
                  rw (e, first)
                    (record {
                      reads_of = omega (arith, v.reads_of, r);
                      encrypted_of = omega (arith, v.encrypted_of, x);
                    })
            ]
        | inr ((n, buf), e) ↦
            let r = ap (gives_block is_pack) e in
            let x = ap (gives_block is_encrypted) e in
            elim (Bool-cases (n == 0)) [
              | inl none_read ↦
                  let r' = ap (λ (b : Bool). one_if (not b && is_pack buf)) none_read in
                  let x' = ap (λ (b : Bool). one_if (not b && is_encrypted buf)) none_read in
                  rw (e, none_read)
                    (record {
                      reads_of = omega (arith, v.reads_of, r, r');
                      encrypted_of = omega (arith, v.encrypted_of, x, x');
                    })
              | inr some_read ↦
                  let r' = ap (λ (b : Bool). one_if (not b && is_pack buf)) some_read in
                  let x' = ap (λ (b : Bool). one_if (not b && is_encrypted buf)) some_read in
                  rw (e, some_read)
                    (on_block-Counts buf (record s { state = record s.state { log = log } })
                      s.state.log v.reads_of v.encrypted_of (omega (arith, r, r'))
                      (omega (arith, x, x')))
            ]
      ]

  equal_crack : (s s' : Crack) → some s ≡ some s' → Counts drive before s → Counts drive before s'
  equal_crack s s' e v = let same : s ≡ s' = cc in subst (Counts drive before) same v

  pub crack_loop-Counts :
      (fuel : ℕ) (s s' : Crack)
      → crack_loop drive fuel s ≡ some s'
      → Counts drive before s
      → Counts drive before s'
  unfolding crack_loop crack_pass on_read pf_read
  crack_loop-Counts zero s s' e v = absurd (cc)
  crack_loop-Counts (suc fuel) s s' e v =
      let next = (crack_pass drive s).1 in
      let v' = crack_pass-Counts s v in
      elim (Bool-cases (not (crack_pass drive s).0 && goes_on next)) [
        | inl on ↦
            let step : crack_loop drive (suc fuel) s ≡ crack_loop drive fuel next = rw (on) refl in
            crack_loop-Counts fuel next s' (sym step ∙ e) v'
        | inr off ↦
            let step : crack_loop drive (suc fuel) s ≡ some next = rw (off) refl in
            equal_crack next s' (sym step ∙ e) v'
      ]
