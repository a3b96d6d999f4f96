-- ===== src/CrackTitle/Pattern.antt =====
-- The search for a repetition in `AttackPattern` of src/css.c.
use libdvdcss.Common.{
  ℕ, zero, suc, ◌+◌, ◌-◌, ◌%◌, ◌≤◌, ◌<◌, true, List, ◌≡◌, refl, ◌⊎◌, inl, inr, Bool-cases, ltb, ap,
  ◌∙◌, ==_iff, ==→ne, arith, ◌==◌,
}
use mathlib.Core.Path.{subst}
use libdvdcss.Keys.{byte}
use libdvdcss.CrackTitle.{Best, repeats, improve, scan, scan_all, best_pattern}

-- The bytes before 0x80, counted from the last one: those from `i + 1` to `j` are the ones at the
-- remainders by `i`. The byte `i` itself, the first that would repeat, is not among them.
abbrev pub Repeats : List ℕ → ℕ → ℕ → Type 0
Repeats sec i j = (k : ℕ) → i < k → k ≤ j → byte sec (0x7f - k % i) ≡ byte sec (0x7f - k)

repeats→≡ :
    (sec : List ℕ) (i k : ℕ)
    → repeats sec i k ≡ true
    → byte sec (0x7f - k % i) ≡ byte sec (0x7f - k)
unfolding repeats
repeats→≡ sec i k h = (==_iff (byte sec (0x7f - k % i)) (byte sec (0x7f - k))).0 h

≡→repeats :
    (sec : List ℕ) (i k : ℕ)
    → byte sec (0x7f - k % i) ≡ byte sec (0x7f - k)
    → repeats sec i k ≡ true
unfolding repeats
≡→repeats sec i k h = (==_iff (byte sec (0x7f - k % i)) (byte sec (0x7f - k))).1 h

-- Nothing is found yet, or a repetition is.
abbrev pub IsFound : List ℕ → Best → Type 0
IsFound sec best =
    ((best.plen ≡ 0) × (best.p ≡ 0))
    ⊎ ((2 ≤ best.p)
        × (best.p < 0x30)
        × (best.p < best.plen)
        × (best.plen < 0x80)
        × Repeats sec best.p best.plen)

module _ (sec : List ℕ) where
  improve-plen :
      (i j : ℕ) (best : Best)
      → (best.plen ≤ (improve i j best).plen) × (j ≤ (improve i j best).plen)
  unfolding improve
  improve-plen i j best = elim (Bool-cases (ltb best.plen j)) [
    | inl e ↦ rw (e) (ground arith, omega arith)
    | inr e ↦ rw (e) (omega arith, ground arith)
  ]

  scan-grows : (i left j : ℕ) (best : Best) → best.plen ≤ (scan sec i left j best).plen
  unfolding scan
  scan-grows i zero j best = omega arith
  scan-grows i (suc left) j best = elim (Bool-cases (repeats sec i j)) [
    | inl e ↦
        rw (e)
          (omega (arith, (improve-plen i j best).0, scan-grows i left (j + 1) (improve i j best)))
    | inr e ↦ rw (e) (omega arith)
  ]

  improve-IsFound :
      (i j : ℕ) (best : Best)
      → 2 ≤ i
      → i < 0x30
      → i < j
      → j < 0x80
      → Repeats sec i j
      → IsFound sec best
      → IsFound sec (improve i j best)
  unfolding improve
  improve-IsFound i j best h1 h2 h3 h4 cycle found = elim (Bool-cases (ltb best.plen j)) [
    | inl e ↦ rw (e) (inr (h1, h2, h3, h4, cycle))
    | inr e ↦ rw (e) found
  ]

  scan-IsFound :
      (i left j : ℕ) (best : Best)
      → 2 ≤ i
      → i < 0x30
      → i < j
      → j + left ≤ 0x80
      → ((k : ℕ) → i < k → k < j → byte sec (0x7f - k % i) ≡ byte sec (0x7f - k))
      → IsFound sec best
      → IsFound sec (scan sec i left j best)
  unfolding scan
  scan-IsFound i zero j best h1 h2 h3 h4 upto found = found
  scan-IsFound i (suc left) j best h1 h2 h3 h4 upto found = elim (Bool-cases (repeats sec i j)) [
    | inl e ↦
        let cycle : Repeats sec i j = λ k lo hi. elim (Bool-cases (k == j)) [
          | inl here ↦
              let same = (==_iff k j).0 here in repeats→≡ sec i k (ap (repeats sec i) same ∙ e)
          | inr below ↦ upto k lo (omega (arith, ==→ne k j below))
        ] in
        rw (e) (
          scan-IsFound i left (j + 1) (improve i j best) h1 h2 (omega arith) (omega arith)
            (λ k lo hi. cycle k lo (omega arith))
            (improve-IsFound i j best h1 h2 h3 (omega arith) cycle found))
    | inr e ↦ rw (e) found
  ]

  -- A repetition by `i` that the scan is in is no longer than what is found.
  scan-covers :
      (i left j : ℕ) (best : Best) (l : ℕ)
      → j ≤ l
      → l < j + left
      → Repeats sec i l
      → i < j
      → l ≤ (scan sec i left j best).plen
  unfolding scan
  scan-covers i zero j best l lo hi cycle h = absurd (omega arith)
  scan-covers i (suc left) j best l lo hi cycle h =
      rw (≡→repeats sec i j (cycle j h lo)) (elim (Bool-cases (l == j)) [
        | inl here ↦ omega (
          arith,
          (==_iff l j).0 here,
          (improve-plen i j best).1,
          scan-grows i left (j + 1) (improve i j best),
        )
        | inr above ↦
            scan-covers i left (j + 1) (improve i j best) l (omega (arith, ==→ne l j above))
              (omega arith) cycle (omega arith)
      ])

  scan_all-grows : (left i : ℕ) (best : Best) → best.plen ≤ (scan_all sec left i best).plen
  unfolding scan_all
  scan_all-grows zero i best = omega arith
  scan_all-grows (suc left) i best =
      let next = scan sec i (0x80 - (i + 1)) (i + 1) best in
      omega (arith, scan-grows i (0x80 - (i + 1)) (i + 1) best, scan_all-grows left (i + 1) next)

  scan_all-IsFound :
      (left i : ℕ) (best : Best)
      → 2 ≤ i
      → i + left ≤ 0x30
      → IsFound sec best
      → IsFound sec (scan_all sec left i best)
  unfolding scan_all
  scan_all-IsFound zero i best h1 h2 found = found
  scan_all-IsFound (suc left) i best h1 h2 found =
      scan_all-IsFound left (i + 1) _ (omega arith) (omega arith) (
        scan-IsFound i (0x80 - (i + 1)) (i + 1) best h1 (omega arith) (omega arith) (omega arith)
          (λ k lo hi. absurd (omega arith)) found)

  scan_all-covers :
      (left i : ℕ) (best : Best) (c l : ℕ)
      → i ≤ c
      → c < i + left
      → c < l
      → l < 0x80
      → Repeats sec c l
      → l ≤ (scan_all sec left i best).plen
  unfolding scan_all
  scan_all-covers zero i best c l lo hi h1 h2 cycle = absurd (omega arith)
  scan_all-covers (suc left) i best c l lo hi h1 h2 cycle =
      let next = scan sec i (0x80 - (i + 1)) (i + 1) best in
      elim (Bool-cases (c == i)) [
        | inl here ↦
            let same = (==_iff c i).0 here in
            let cycle' : Repeats sec i l = subst (λ (x : ℕ). Repeats sec x l) same cycle in
            omega (
              arith,
              same,
              scan-covers i (0x80 - (i + 1)) (i + 1) best l (omega arith) (omega arith) cycle'
                  (omega arith),
              scan_all-grows left (i + 1) next,
            )
        | inr after ↦
            scan_all-covers left (i + 1) next c l (omega (arith, ==→ne c i after)) (omega arith) h1
              h2 cycle
      ]

  -- The search of AttackPattern finds nothing, or a length p from 2 to 0x2f and a count plen above it
  -- and below 0x80 such that each byte from p + 1 to plen before the end of the clear part is the one
  -- at its remainder by p; byte p is not compared. And no length from 2 to 0x2f has a greater count,
  -- so that nothing is found only where no such length has a count at all.
  pub best_pattern_lem :
      IsFound sec (best_pattern sec)
      × ((c l : ℕ)
          → 2 ≤ c
          → c < 0x30
          → c < l
          → l < 0x80
          → Repeats sec c l
          → l ≤ (best_pattern sec).plen)
  unfolding best_pattern
  best_pattern_lem = (
    scan_all-IsFound (0x30 - 2) 2 _ (omega arith) (omega arith) (inl (refl, refl)),
    λ c l h1 h2 h3 h4 cycle. scan_all-covers (0x30 - 2) 2 _ c l h1 (omega arith) h3 h4 cycle,
  )
